-- ===== src/Repl/Wired.antt =====
-- cmd/execdb/repl.go on engine/persist.go: the shell's `.snapshot` with the DB of Engine/Db behind it.
pub mod Load
use execdb.Prelude.{
  ◌^◌, ◌≤◌, ◌<◌, Bool, Option, none, some, List, [], ◌++◌, Text, codes, Bytes, length, ◌≡◌, ◌≢◌,
  refl, ap, ◌∙◌, arith,
}
use execdb.Engine.Errors.{Error, Result, ok, err}
use execdb.Engine.Files.{Files}
use execdb.Engine.Atomic as Atomic
use execdb.Engine.Scratch as Scratch
use execdb.Engine.Footer.{max_data_size}
use execdb.Engine.Sqlite.{Sqlite}
use execdb.Engine.Db.{Db, snapshot, open_db, read_engine_prefix}
use execdb.Engine.Db.Laws.{opened, unless_fault, open_db-snapshot}
use execdb.Repl.Names.{Options, resolve_snapshot_filename}
use execdb.Repl.Output.{Printed}
use execdb.Repl.Import.{note}
use execdb.Repl.System.{System}
use execdb.Repl.Shell.{report}
use execdb.Repl.Shell.Commands.{snapshot_args, cmd_snapshot}

module _ (s : Sqlite) (text_of : Error → Text) (tmp : Text) (is_busy : Bool)
    (f : Atomic.Faults) where
  -- The files, and the DB.
  abbrev pub Disk : Type 0
  Disk = Files × Db s.Content

  abbrev pub error_text : Result (Unit {0}) → Option Text
  error_text (ok _) = none
  error_text (err e) = some (text_of e)

  abbrev behind_snapshot : Db s.Content → Result (Unit {0}) × Files → Disk × Option Text
  behind_snapshot db (r, fs) = ((fs, db), error_text r)

  -- `Snapshot`, as the shell calls it.
  unfoldable pub disk_snapshot : Disk → Text → Disk × Option Text
  unfolding snapshot
  disk_snapshot (fs, db) path = behind_snapshot db (snapshot s db fs path tmp is_busy f)

  -- A system with the shell's other calls as they are.
  abbrev pub with_snapshot : System Disk → System Disk
  with_snapshot sys = record sys { snapshot = disk_snapshot }

  -- The path that `.snapshot` writes.
  abbrev pub snapshot_path : System Disk → Options → List Text → Disk → Text
  snapshot_path sys opts args w =
      resolve_snapshot_filename (sys.host w) opts (snapshot_args [] opts.timestamp args).0
        (snapshot_args [] opts.timestamp args).1

  pub wrote-ok :
      (r : Result (Unit {0})) (db : Db s.Content) (fs : Files) (path : Text)
      → (report (note (codes "Wrote " ++ path)) (behind_snapshot db (r, fs))).1
        ≡ note (codes "Wrote " ++ path)
      → r ≡ ok tt
  wrote-ok (ok tt) db fs path e = refl
  wrote-ok (err m) db fs path e = absurd (ground (arith, ap (λ p. p.err) e))

  pub files-report :
      (r : Result (Unit {0}) × Files) (db : Db s.Content) (p : Printed)
      → (report p (behind_snapshot db r)).0.0 ≡ r.1
  files-report (ok tt, fs) db p = refl
  files-report (err m, fs) db p = refl

  -- With the `Snapshot` of the model of the DB behind the shell, a serialization within the limit,
  -- an engine of fewer than 2 ^ 62 bytes, a name that is not empty and a temporary file that is new
  -- and not the target: when the command `.snapshot` says that it wrote a file, opening this file
  -- gives a DB with the content of the live database and with the size of the engine bytes that the
  -- snapshot read, unless a call of `loadBlobInto` fails.
  pub cmd_snapshot-open_db :
      (sys : System Disk) (opts : Options) (args : List Text) (fs : Files) (db : Db s.Content)
      (lf : Scratch.Faults) (d : Bytes)
      → s.serialize db.content ≡ some d
      → length d ≤ max_data_size
      → db.engine_size < 2 ^ 62
      → snapshot_path sys opts args (fs, db) ≢ []
      → tmp ≢ snapshot_path sys opts args (fs, db)
      → fs tmp ≡ none
      → (cmd_snapshot (with_snapshot sys) opts args (fs, db)).1
        ≡ note (codes "Wrote " ++ snapshot_path sys opts args (fs, db))
      → (e : Bytes) × (read_engine_prefix fs db.source_path db.engine_size ≡ ok e)
        × (open_db s
              (cmd_snapshot (with_snapshot sys) opts args (fs, db)).0.0
              (snapshot_path sys opts args (fs, db))
              lf
            ≡ unless_fault lf (opened (snapshot_path sys opts args (fs, db)) db.content e d))
  unfolding cmd_snapshot disk_snapshot
  cmd_snapshot-open_db sys opts args fs db lf d sd hd hn np ne fresh h =
      let path = snapshot_path sys opts args (fs, db) in
      let r = snapshot s db fs path tmp is_busy f in
      let k : r.0 ≡ ok tt = wrote-ok r.0 db r.1 path h in
      let (e, read, same, again) =
        open_db-snapshot s db fs path tmp is_busy f lf d sd hd hn np ne fresh k in
      (
        e,
        read,
        ap (λ g. open_db s g path lf) (files-report r db (note (codes "Wrote " ++ path))) ∙ same,
      )
