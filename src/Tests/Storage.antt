-- ===== src/Tests/Storage.antt =====
-- Package engine: the barrier among other sessions, and a load through a scratch database.
use execdb.Prelude.{
  true, false, Text, codes, eq_text, arith, Option, none, some, [], ◌∷◌, Bytes, ◌≡◌, refl, sym,
}
use execdb.Engine.Errors.{ok, err, sqlite_error}
use execdb.Engine.Barrier.{World, barrier, rollback, returned, advance}
use execdb.Engine.Barrier.Steps.{Reaches, here, after, code, begins, writes, commits, called}
use execdb.Engine.Barrier.Laws.{Released, Captured, Reaches-Captured}
use execdb.Engine.Sqlite.{Sqlite}
use execdb.Engine.Db.{Db, new_db, load, load_from, snapshot_to}
use execdb.Engine.Db.Loads.{
  KeepsEngine, InFile, InBytes, loads_as, load-KeepsEngine, load_from-snapshot_to,
}
use execdb.Engine.Files.{Files, put}
use execdb.Engine.Footer.{image_of, written_info}
use execdb.Engine.Scratch.{conn, backup, Faults, no_faults, more, load_blob_into}
use execdb.Engine.Scratch.Laws.{Ends, load_blob_into-Ends}

abbrev bytes_of : Bytes → Option Bytes
bytes_of c = some c

abbrev first_call : World Bytes
first_call = called (1 ∷ []) none false

-- Another session has committed before BEGIN IMMEDIATE.
abbrev last_call : World Bytes
last_call = record {
  committed = 9 ∷ [];
  history = (9 ∷ []) ∷ (1 ∷ []) ∷ [];
  lock = none;
  is_closed = false;
  next_call = returned (ok (9 ∷ []));
  rollback_failed = false;
}

interleaved : Reaches bytes_of first_call last_call
unfolding advance
interleaved =
    after
      (after
        (after
          (after
            (after
              (after
                (after (after (after here (code false)) (begins 7 refl))
                  (writes 7 (1 ∷ []) (9 ∷ []) refl))
                (commits 7 (9 ∷ []) refl))
              (code false))
            (code false))
          (code false))
        (code false))
      (code false)

interleaved_example :
    Released bytes_of last_call.lock last_call.rollback_failed
    × Captured bytes_of (ok (9 ∷ [])) last_call.history
interleaved_example =
    Reaches-Captured bytes_of (1 ∷ []) none false (ok (9 ∷ [])) refl interleaved refl

-- A database whose content is the bytes of its serialization.
abbrev in_bytes : Sqlite
in_bytes = record {
  Content = Bytes;
  empty = [];
  serialize = λ c. some c;
  deserialize = λ b. some b;
  restores = λ c b h. sym h;
}

-- A ROLLBACK that fails leaves the lock with the barrier.
stuck :
    (advance bytes_of true
      (record last_call { lock = some barrier; next_call = rollback (ok (9 ∷ [])) })).lock
    ≡ some barrier
unfolding advance
stuck = refl

abbrev busy_step : Faults
busy_step = record no_faults { step = more }

scratch_example :
    Ends in_bytes
      (1 ∷ [])
      (2 ∷ [])
      busy_step
      (conn ∷ [])
      (load_blob_into in_bytes (1 ∷ []) (2 ∷ []) busy_step (conn ∷ []))
scratch_example = load_blob_into-Ends in_bytes (1 ∷ []) (2 ∷ []) (conn ∷ []) busy_step

-- Another connection that was open stays open.
scratch_held :
    (load_blob_into in_bytes (1 ∷ []) (2 ∷ []) busy_step (conn ∷ [])).held ≡ backup ∷ conn ∷ []
unfolding load_blob_into
scratch_held = refl

abbrev self : Text
self = codes "/bin/execdb"

abbrev disk : Files
disk = put (λ _. none) self (some (record { content = 127 ∷ 69 ∷ 76 ∷ []; mode = 493 }))

abbrev sender : Db Bytes
sender = record (new_db in_bytes) { content = 1 ∷ 2 ∷ []; source_path = self; engine_size = 3 }

abbrev receiver : Db Bytes
receiver = record sender { content = 7 ∷ [] }

abbrev sent : Bytes
sent = image_of (127 ∷ 69 ∷ 76 ∷ []) (1 ∷ 2 ∷ [])

-- `Finish` fails.
abbrev late_fault : Faults
late_fault = record no_faults { finish = true }

load_keeps_example :
    KeepsEngine in_bytes late_fault
      (InFile in_bytes disk self)
      receiver
      (load in_bytes receiver disk self late_fault)
    × KeepsEngine in_bytes late_fault
        (InBytes in_bytes sent)
        receiver
        (load_from in_bytes receiver sent late_fault)
load_keeps_example = load-KeepsEngine in_bytes late_fault receiver disk self sent

-- The content arrives, with an error.
replaced_with_error :
    load_from in_bytes receiver sent late_fault
    ≡ (err sqlite_error, record receiver { content = 1 ∷ 2 ∷ [] })
unfolding load_from image_of
replaced_with_error = refl

load_from_example :
    (e : Bytes) × (load_from in_bytes receiver sent late_fault
      ≡ loads_as in_bytes late_fault receiver (written_info e (1 ∷ 2 ∷ [])) (1 ∷ 2 ∷ []))
unfolding put eq_text snapshot_to
load_from_example =
    load_from-snapshot_to in_bytes late_fault sender receiver disk false (1 ∷ 2 ∷ []) refl
      (omega arith) (omega arith) refl refl
