-- ===== src/Tests/Engine.antt =====
-- Package engine on concrete files and databases.
use execdb.Prelude.{
  ◌+◌, ◌≤◌, true, false, List, [], ◌∷◌, none, some, Text, codes, Bytes, ◌≡◌, ◌≢◌, refl, sym,
  eq_text, length, arith, All,
}
use execdb.Engine.Errors.{ok, err, corrupt_footer}
use execdb.Engine.Files.{Files, put}
use execdb.Engine.Footer.{
  decode_footer, encode_footer, inspect_bytes, image_of, written_info, footer_size, max_data_size,
  decode_footer_bounds, no_info,
}
use execdb.Engine.Atomic.{write_image_atomic}
use execdb.Engine.Atomic as Atomic
use execdb.Engine.Atomic.Laws.{write_image_atomic-is_atomic, IsAtomicAt}
use execdb.Engine.Overwrite.{overwrite_self, stopped}
use execdb.Engine.Overwrite as Overwrite
use execdb.Engine.Overwrite.Laws.{overwrite_self-Survives, Survives, Ends, file_of}
use execdb.Engine.Sqlite.{Sqlite}
use execdb.Engine.Scratch as Scratch
use execdb.Engine.Db.{Db, snapshot, open_db, read_engine_prefix}
use execdb.Engine.Db.Laws.{open_db-snapshot, opened}
use execdb.Engine.Errors.{Result, sqlite_error}
use execdb.Engine.Footer.{Info}
use execdb.Engine.Db.{Loaded, inspect, overwrite, open_self}
use execdb.Engine.Db.Restart.{engine_length, open_self-overwrite}
use execdb.Engine.Live.{Handles, Live, open_live}
use execdb.Engine.Live as Live
use execdb.Engine.Live.Laws.{Opens, open_live-Opens}
use execdb.Engine.Live.Lives.{perform_all-Sound}
use execdb.Engine.Live.Sessions.{
  Life, Call, opens_session, closes_session, closes_db, perform_all, Sound,
}

abbrev elf : Bytes
elf = 127 ∷ 69 ∷ 76 ∷ []

abbrev blob : Bytes
blob = 1 ∷ 2 ∷ 3 ∷ 4 ∷ []

-- A database whose content is the bytes of its serialization.
abbrev plain : Sqlite
plain = record {
  Content = Bytes;
  empty = [];
  serialize = λ c. some c;
  deserialize = λ b. some b;
  restores = λ c b h. sym h;
}

abbrev self : Text
self = codes "/bin/execdb"

abbrev out : Text
out = codes "/tmp/out"

abbrev temp : Text
temp = codes "/tmp/.execdb_tmp_1"

abbrev disk : Files
disk = put (λ _. none) self (some (record { content = elf; mode = 493 }))

abbrev no_faults : Atomic.Faults
no_faults = record {
  create = false;
  write = none;
  chmod = false;
  close = false;
  rename = false;
  remove = false;
}

abbrev live : Db Bytes
live = record {
  content = blob;
  is_closed = false;
  source_path = self;
  engine_size = 3;
  info = no_info;
}

bounds_example :
    ((written_info elf blob).data_offset + (written_info elf blob).data_length + footer_size ≡ 39)
    × ((written_info elf blob).data_length ≤ max_data_size)
unfolding decode_footer encode_footer
bounds_example =
    decode_footer_bounds (encode_footer 3 4) 39 {info = written_info elf blob} (omega arith) refl
      refl

-- A magic with fields that do not fit the size is an error, a small file is none.
inspect_refusals :
    (inspect_bytes (encode_footer 5 0) ≡ err corrupt_footer)
    × (inspect_bytes (codes "EXECDB01") ≡ ok no_info)
unfolding inspect_bytes encode_footer
inspect_refusals = (refl, refl)

temp-ne-out : temp ≢ out
temp-ne-out e = cc

atomic_example :
    IsAtomicAt disk out temp
      (record { content = image_of elf blob; mode = 493 })
      false
      out
      (write_image_atomic disk out temp elf blob 493 (record no_faults { write = some 5 }))
unfolding put eq_text
atomic_example =
    write_image_atomic-is_atomic disk out temp temp-ne-out refl out elf blob 493
      (record no_faults { write = some 5 })

abbrev torn : Overwrite.Faults
torn = record {
  remove_leftover = false;
  move_aside = false;
  write = some (stopped 4);
  restore = true;
  remove_old = false;
}

overwrite_example :
    All
      (Survives self (file_of elf 493) (file_of (image_of elf blob) 493))
      (overwrite_self disk self elf blob torn).states
    × Ends self
        (file_of elf 493)
        (file_of (image_of elf blob) 493)
        true
        (overwrite_self disk self elf blob torn)
unfolding put eq_text
overwrite_example = overwrite_self-Survives disk self (file_of elf 493) elf blob torn refl

snapshot_example :
    (e : Bytes) × (read_engine_prefix disk self 3 ≡ ok e)
    × (open_db plain (snapshot plain live disk out temp false no_faults).1 out Scratch.no_faults
        ≡ ok (opened out blob e blob))
    × (read_engine_prefix (snapshot plain live disk out temp false no_faults).1 out (length e)
        ≡ ok e)
unfolding put eq_text snapshot
snapshot_example =
    open_db-snapshot plain live disk out temp false no_faults Scratch.no_faults blob refl
      (omega arith) (omega arith) (λ e. cc) temp-ne-out refl refl

abbrev calm : Overwrite.Faults
calm = record {
  remove_leftover = false;
  move_aside = false;
  write = none;
  restore = false;
  remove_old = true;
}

-- The sidecar stays at first, and the next start removes it.
restart_example :
    (e : Bytes) × (info : Info) × (inspect self elf ≡ ok info)
    × (read_engine_prefix disk self (engine_length info elf) ≡ ok e)
    × ((open_self plain
          (overwrite plain live disk self [] none false calm).1
          self
          false
          Scratch.no_faults).0
        ≡ ok (opened self blob e blob))
unfolding put eq_text overwrite
restart_example =
    open_self-overwrite plain live disk self [] none false calm (file_of elf 493) blob false
      Scratch.no_faults refl (omega arith) refl (omega arith) refl

abbrev no_handles : Handles
no_handles = record { is_open = λ k. false; next = 0; misused = false; seq = 0 }

abbrev found : Loaded
found = record { info = no_info; engine_size = 3; blob = some (0 ∷ []) }

-- The blob does not restore.
abbrev refuses : Bytes → Text → Result (Unit {0})
refuses b dsn = err sqlite_error

opens_example : Opens no_handles (open_live false false self (ok found) refuses no_handles)
opens_example = open_live-Opens false false self (ok found) refuses no_handles (λ k h. refl)

abbrev a_live : Live
a_live = record {
  sdb = 0;
  keeper = 1;
  dsn = [];
  is_closed = false;
  source_path = [];
  engine_size = 0;
  info = no_info;
}

abbrev a_life : Life
a_life = record { db = a_live; sessions = []; handles = Live.opened (Live.opened no_handles) }

abbrev calls : List Call
calls =
    opens_session false
    ∷ opens_session false
    ∷ closes_session 1
    ∷ closes_db
    ∷ opens_session false
    ∷ closes_session 1
    ∷ closes_db
    ∷ []

life_example : Sound (perform_all calls a_life)
life_example = perform_all-Sound calls a_life (refl, refl, omega arith, omega arith, refl)
