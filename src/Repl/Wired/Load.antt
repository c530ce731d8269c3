-- ===== src/Repl/Wired/Load.antt =====
-- cmd/execdb/repl.go on engine/persist.go: the shell's `.load` of what its `.snapshot` wrote.
use execdb.Prelude.{
  ◌^◌, ◌≤◌, ◌<◌, Bool, false, Option, none, some, List, [], ◌∷◌, ◌++◌, Text, codes, Bytes, length,
  ◌≡◌, ◌≢◌, refl, ap, ◌∙◌, ℕ, if◌then◌else◌, Bool-cases, inl, inr,
}
use execdb.Engine.Errors.{Error, Result, ok, err, sqlite_error}
use execdb.Engine.Files.{File, Files}
use execdb.Engine.Atomic as Atomic
use execdb.Engine.Footer.{Info, max_data_size}
use execdb.Engine.Sqlite.{Sqlite}
use execdb.Engine.Db.{Db, snapshot, inspect, load, read_engine_prefix}
use execdb.Engine.Scratch as Scratch
use execdb.Engine.Scratch.Laws.{any_fault, fails_early}
use execdb.Engine.Db.Loads.{loads_as}
use execdb.Engine.Db.Restore.{info_at, load-snapshot}
use execdb.Repl.Names.{Options}
use execdb.Repl.Output.{Printed, silent, print_error, also}
use execdb.Repl.Import.{note}
use execdb.Repl.System.{System}
use execdb.Repl.Shell.{report}
use execdb.Repl.Shell.Commands.{cmd_snapshot, cmd_load, version_warning}
use execdb.Repl.Wired.{
  Disk, error_text, disk_snapshot, with_snapshot, snapshot_path, wrote-ok, files-report,
}

module _ (s : Sqlite) (text_of : Error → Text) (tmp : Text) (is_busy : Bool) (f : Atomic.Faults)
    (lf : Scratch.Faults) where
  abbrev behind_load :
      Files → Result (Unit {0}) × Db s.Content → Disk s text_of tmp is_busy f × Option Text
  behind_load fs (r, db) = ((fs, db), error_text s text_of tmp is_busy f r)

  -- `Load`, as the shell calls it.
  unfoldable pub disk_load :
      Disk s text_of tmp is_busy f → Text → Disk s text_of tmp is_busy f × Option Text
  unfolding load
  disk_load (fs, db) path = behind_load fs (load s db fs path lf)

  abbrev inspected : Result Info → Option (Bool × ℕ)
  inspected (err e) = none
  inspected (ok info) = some (info.has_data, info.version)

  -- `Inspect`, as the shell calls it.
  unfoldable pub disk_inspect : Disk s text_of tmp is_busy f → Text → Option (Bool × ℕ)
  unfolding inspect
  disk_inspect (fs, db) path = elim (fs path) [
    | none ↦ none
    | some file ↦ inspected (inspect path file.content)
  ]

  -- A system with the `Snapshot`, the `Load` and the `Inspect` of the model of the DB.
  abbrev pub with_disk :
      System (Disk s text_of tmp is_busy f) → System (Disk s text_of tmp is_busy f)
  with_disk sys = record (with_snapshot s text_of tmp is_busy f sys) {
    load = disk_load;
    inspect = disk_inspect;
  }

  abbrev pub loaded_note : Text → Printed
  loaded_note path = note (codes "Loaded data from " ++ path)

  -- What `.load` leaves and prints, by the calls of the load that fail.
  abbrev pub shows :
      Files → Text → Db s.Content → Info → s.Content → Disk s text_of tmp is_busy f × Printed
  shows fs path other info c =
      if any_fault lf
      then (
        (fs, record other { content = if fails_early lf then other.content else c }),
        print_error (text_of sqlite_error),
      )
      else ((fs, record other { content = c; info = info }), loaded_note path)

  report-loads_as :
      (fs : Files) (path : Text) (other : Db s.Content) (info : Info) (c : s.Content)
      → report (loaded_note path) (behind_load fs (loads_as s lf other info c))
        ≡ shows fs path other info c
  report-loads_as fs path other info c = elim (Bool-cases (any_fault lf)) [
    | inl p ↦ rw p refl
    | inr p ↦ rw p refl
  ]

  silent-version :
      (sys : System (Disk s text_of tmp is_busy f)) (fs : Files) (path : Text) (db : Db s.Content)
      (file : File) (e d : Bytes)
      → fs path ≡ some file
      → inspect path file.content ≡ ok (info_at path e d)
      → version_warning (with_disk sys) path (disk_inspect (fs, db) path) ≡ silent
  unfolding disk_inspect version_warning
  silent-version sys fs path db file e d found h =
      rw (found, disk_inspect) (ap (λ r. version_warning (with_disk sys) path (inspected r)) h)

  cmd_load-loads_as :
      (sys : System (Disk s text_of tmp is_busy f)) (path : Text) (fs : Files)
      (other : Db s.Content) (info : Info) (c : s.Content)
      → version_warning (with_disk sys) path (disk_inspect (fs, other) path) ≡ silent
      → load s other fs path lf ≡ loads_as s lf other info c
      → cmd_load (with_disk sys) (path ∷ []) (fs, other) ≡ shows fs path other info c
  unfolding cmd_load disk_load
  cmd_load-loads_as sys path fs other info c quiet e =
      let run : Printed
          → Result (Unit {0}) × Db s.Content
          → Disk s text_of tmp is_busy f × Printed =
        λ warning r.
          let (w, p) = report (loaded_note path) (behind_load fs r) in (w, also warning p) in
      ap (λ p. run p (load s other fs path lf)) quiet
      ∙ ap (run silent) e
      ∙ report-loads_as fs path other info c

  -- With the `Snapshot`, the `Load` and the `Inspect` of the model of the DB behind the shell, a
  -- serialization within the limit, an engine of fewer than 2 ^ 62 bytes, and a temporary file that
  -- is new and not the target: when the command `.snapshot` says that it wrote a file, then `.load`
  -- of this file into a DB that is open, whatever it holds by then, prints no warning on the
  -- version; where no call of `loadBlobInto` fails, it gives the DB the content of that time and
  -- the origin, keeps the rest of it and the files, and says so; and else it prints the error, and
  -- changes nothing or, where only `Finish` fails, the content.
  pub cmd_load-cmd_snapshot :
      (sys : System (Disk s text_of tmp is_busy f)) (opts : Options) (args : List Text) (fs : Files)
      (db other : Db s.Content) (d : Bytes)
      → s.serialize db.content ≡ some d
      → length d ≤ max_data_size
      → db.engine_size < 2 ^ 62
      → tmp ≢ snapshot_path s text_of tmp is_busy f sys opts args (fs, db)
      → fs tmp ≡ none
      → other.is_closed ≡ false
      → (cmd_snapshot (with_disk sys) opts args (fs, db)).1
        ≡ note (codes "Wrote " ++ snapshot_path s text_of tmp is_busy f sys opts args (fs, db))
      → let path = snapshot_path s text_of tmp is_busy f sys opts args (fs, db) in
        let saved = (cmd_snapshot (with_disk sys) opts args (fs, db)).0.0 in
        (e : Bytes) × (read_engine_prefix fs db.source_path db.engine_size ≡ ok e)
        × (cmd_load (with_disk sys) (path ∷ []) (saved, other)
            ≡ shows saved path other (info_at path e d) db.content)
  unfolding cmd_snapshot disk_snapshot cmd_load disk_load
  cmd_load-cmd_snapshot sys opts args fs db other d sd hd hn ne fresh alive h =
      let path = snapshot_path s text_of tmp is_busy f sys opts args (fs, db) in
      let r = snapshot s db fs path tmp is_busy f in
      let k : r.0 ≡ ok tt = wrote-ok s text_of tmp is_busy f r.0 db r.1 path h in
      let (e, file, read, found, info, again) =
        load-snapshot s db other fs path tmp is_busy f lf d sd hd hn ne fresh alive k in
      let saved = (cmd_snapshot (with_disk sys) opts args (fs, db)).0.0 in
      let files = files-report s text_of tmp is_busy f r db (note (codes "Wrote " ++ path)) in
      (
        e,
        read,
        cmd_load-loads_as sys path saved other (info_at path e d) db.content
            (silent-version sys saved path other file e d (ap (λ g. g path) files ∙ found) info)
            (ap (λ g. load s other g path lf) files ∙ again),
      )
