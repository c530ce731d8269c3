-- ===== src/Tests/Wired.antt =====
-- The shell's `.snapshot` on concrete files.
use execdb.Prelude.{
  true, false, none, some, [], ◌∷◌, ◌++◌, Text, codes, Bytes, ◌≡◌, ◌≢◌, refl, sym, eq_text, arith,
  inl, inr,
}
use execdb.Engine.Errors.{Error, ok}
use execdb.Engine.Files.{Files, put}
use execdb.Engine.Footer.{no_info}
use execdb.Engine.Atomic as Atomic
use execdb.Engine.Scratch as Scratch
use execdb.Engine.Sqlite.{Sqlite}
use execdb.Engine.Db.{Db, read_engine_prefix}
use execdb.Repl.Names.{Options, resolve_snapshot_filename}
use execdb.Repl.Output.{Printers}
use execdb.Repl.Import.{note}
use execdb.Repl.System.{System}
use execdb.Repl.Shell.Commands.{cmd_snapshot, cmd_load, snapshot_args}
use execdb.Repl.Wired.{disk_snapshot, snapshot_path}
use execdb.Repl.Wired.Load.{with_disk, shows, cmd_load-cmd_snapshot}
use execdb.Engine.Db.Restore.{info_at}

abbrev elf : Bytes
elf = 127 ∷ 69 ∷ 76 ∷ []

abbrev blob : Bytes
blob = 1 ∷ 2 ∷ 3 ∷ 4 ∷ []

-- A database whose content is the bytes of its serialization.
abbrev plain : Sqlite
plain = record {
  Content = Bytes;
  empty = [];
  serialize = λ c. some c;
  deserialize = λ b. some b;
  restores = λ c b h. sym h;
}

abbrev self : Text
self = codes "/bin/execdb"

abbrev out : Text
out = codes "/tmp/out"

abbrev temp : Text
temp = codes "/tmp/.execdb_tmp_1"

abbrev disk : Files
disk = put (λ _. none) self (some (record { content = elf; mode = 493 }))

abbrev no_faults : Atomic.Faults
no_faults = record {
  create = false;
  write = none;
  chmod = false;
  close = false;
  rename = false;
  remove = false;
}

abbrev live : Db Bytes
live = record {
  content = blob;
  is_closed = false;
  source_path = self;
  engine_size = 3;
  info = no_info;
}

abbrev text_of : Error → Text
text_of e = codes "failed"

abbrev DiskState : Type 0
DiskState = Files × Db Bytes

abbrev no_printers : Printers
no_printers = record {
  sprint_float = λ f. [];
  sprint_time = λ t. [];
  runes = λ b. b;
  marshal_string = λ s. s;
  marshal_float = λ f. none;
  csv_record = λ row. inr [];
}

abbrev calls : System DiskState
calls = record {
  query = λ w text. (w, inl (codes "no rows"));
  query_texts = λ w text args. (w, inl (codes "no rows"));
  query_count = λ w text args. (w, inr 0);
  exec = λ w text. (w, none);
  prepare = λ w text. (w, none);
  exec_prepared = λ w fields. (w, none);
  snapshot = λ w path. (w, none);
  overwrite = λ w. (w, none);
  load = λ w path. (w, none);
  inspect = λ w path. none;
  host = λ w. record { executable_base = none; now = []; goos = codes "linux" };
  open_csv = λ w path. inr [];
  atoi = λ a. none;
  is_complete = λ t. true;
  printers = no_printers;
}

abbrev options : Options
options = record {
  pg_addr = [];
  socket = [];
  snapshot_as = [];
  no_repl = false;
  quiet = false;
  timestamp = false;
  snapshot_interval = 0;
  user = [];
  password = [];
}

path_out :
    snapshot_path plain text_of temp false no_faults calls options (out ∷ []) (disk, live) ≡ out
unfolding resolve_snapshot_filename snapshot_args
path_out = refl

wrote :
    (cmd_snapshot
      (with_disk plain text_of temp false no_faults Scratch.no_faults calls)
      options
      (out ∷ [])
      (disk, live)).1
    ≡ note (
        codes "Wrote "
        ++ snapshot_path plain text_of temp false no_faults calls options (out ∷ []) (disk, live))
unfolding cmd_snapshot disk_snapshot put eq_text
wrote = refl

path_apart :
    temp ≢ snapshot_path plain text_of temp false no_faults calls options (out ∷ []) (disk, live)
path_apart q = let p = path_out in cc

abbrev wired : System DiskState
wired = with_disk plain text_of temp false no_faults Scratch.no_faults calls

abbrev saved : Files
saved = (cmd_snapshot wired options (out ∷ []) (disk, live)).0.0

-- A DB that holds something else by now.
abbrev later : Db Bytes
later = record live { content = 9 ∷ [] }

load_example :
    (e : Bytes) × (read_engine_prefix disk self 3 ≡ ok e)
    × (cmd_load wired
          (snapshot_path plain text_of temp false no_faults calls options (out ∷ []) (disk, live)
            ∷ [])
          (saved, later)
        ≡ shows plain text_of temp false no_faults Scratch.no_faults saved
            (snapshot_path plain text_of temp false no_faults calls options (out ∷ []) (disk, live))
            later
            (info_at
              (snapshot_path plain text_of temp false no_faults calls options
                (out ∷ [])
                (disk, live))
              e
              blob)
            blob)
unfolding put eq_text
load_example =
    cmd_load-cmd_snapshot plain text_of temp false no_faults Scratch.no_faults calls options
      (out ∷ []) disk live later blob refl (omega arith) (omega arith) path_apart refl refl wrote
