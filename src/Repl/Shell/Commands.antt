-- ===== src/Repl/Shell/Commands.antt =====
-- cmd/execdb/repl.go: the commands of the shell on the database as a whole and on its tables.
use execdb.Prelude.{
  ℕ, Bool, true, not, ◌&&◌, Option, none, some, ◌==◌, if◌then◌else◌, List, [], ◌∷◌, ◌++◌, map, Text,
  codes, is_empty, eq_text, ◌⊎◌, inl, inr,
}
use execdb.Pg.Values.{decimal}
use execdb.Engine.Footer.{format_version}
use execdb.Repl.Names.{Options, resolve_snapshot_filename}
use execdb.Repl.Output.{Printed, silent, println, print_error, also, join}
use execdb.Repl.System.{System, Done, string_dest}
use execdb.Repl.Dump.{first, all_texts, print_texts}
use execdb.Repl.Import.{note}
use execdb.Repl.Shell.{Next, reads_on, returns, report}

-- The loop over the arguments of `.snapshot`: the file's name and `withTimestamp`.
unfoldable pub snapshot_args : Text → Bool → List Text → Text × Bool
unfolding eq_text
snapshot_args filename with_timestamp [] = (filename, with_timestamp)
snapshot_args filename with_timestamp (a ∷ args) =
    if eq_text a (codes "--timestamp")
    then snapshot_args filename true args
    else snapshot_args (if is_empty filename then a else filename) with_timestamp args

abbrev schema_base : Text
schema_base = codes "SELECT sql FROM sqlite_master WHERE sql IS NOT NULL AND "

abbrev scanned_error : Printed × (Text ⊎ Done) → Printed
scanned_error (p, inl message) = also p (print_error message)
scanned_error (p, inr _) = p

module _ {W : Type 0} (sys : System W) where
  -- `cmdTables`, which does not look at `rows.Err()`.
  unfoldable pub cmd_tables : W → W × Printed
  unfolding all_texts join
  cmd_tables w =
      let (w', r) =
        sys.query_texts w
          (codes
            "SELECT name FROM sqlite_master WHERE type = 'table' AND name NOT LIKE 'sqlite_%' ORDER BY name")
          [] in
      elim r [
        | inl message ↦ (w', print_error message)
        | inr rows ↦ elim (all_texts (string_dest ∷ []) rows.scans none) [
          | inl message ↦ (w', print_error message)
          | inr names ↦
              (w', if is_empty names then silent else println (join (codes "  ") (map first names)))
        ]
      ]

  -- `cmdSchema`, which does not look at `rows.Err()`.
  unfoldable pub cmd_schema : List Text → W → W × Printed
  unfolding print_texts
  cmd_schema args w =
      let (w', r) =
        if is_empty args
        then sys.query_texts w (schema_base ++ codes "name NOT LIKE 'sqlite_%' ORDER BY type, name")
            []
        else sys.query_texts w (schema_base ++ codes "name = ? ORDER BY type, name")
            (first args ∷ []) in
      elim r [
        | inl message ↦ (w', print_error message)
        | inr rows ↦ (
          w',
          scanned_error
              (print_texts (λ row. first row ++ codes ";") (string_dest ∷ []) rows.scans none),
        )
      ]

  -- `cmdSnapshot`.
  unfoldable pub cmd_snapshot : Options → List Text → W → W × Printed
  unfolding snapshot_args resolve_snapshot_filename
  cmd_snapshot opts args w =
      let (filename, with_timestamp) = snapshot_args [] opts.timestamp args in
      let path = resolve_snapshot_filename (sys.host w) opts filename with_timestamp in
      report (note (codes "Wrote " ++ path)) (sys.snapshot w path)

  -- `cmdOverwrite`.
  unfoldable pub cmd_overwrite : W → W × (Printed × Next)
  cmd_overwrite w =
      let (w', e) = sys.overwrite w in
      elim e [
        | some message ↦ (w', (print_error message, reads_on))
        | none ↦ (w', (note (codes "Overwrote the running executable."), returns))
      ]

  -- The warning of `cmdLoad`.
  unfoldable pub version_warning : Text → Option (Bool × ℕ) → Printed
  unfolding decimal
  version_warning path none = silent
  version_warning path (some (has_data, version)) =
      if has_data && not (version == format_version)
      then note (
          codes "Warning: "
          ++ (path
              ++ (codes " has ExecDB format version "
                  ++ (decimal version
                      ++ (codes "; this build is version "
                          ++ (decimal format_version ++ codes "."))))))
      else silent

  -- `cmdLoad`.
  unfoldable pub cmd_load : List Text → W → W × Printed
  unfolding version_warning
  cmd_load [] w = (w, note (codes "Usage: .load FILENAME"))
  cmd_load (path ∷ args) w =
      let (w', p) = report (note (codes "Loaded data from " ++ path)) (sys.load w path) in
      (w', also (version_warning path (sys.inspect w path)) p)
