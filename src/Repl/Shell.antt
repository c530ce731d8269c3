-- ===== src/Repl/Shell.antt =====
-- cmd/execdb/repl.go: the shell's commands and its statements. The reads of Ctrl+C are in Repl/Interrupts.
pub mod Commands
pub mod Loop
use execdb.Prelude.{
  ℕ, Bool, true, false, not, ◌&&◌, ◌||◌, Option, none, some, ◌==◌, if◌then◌else◌, List, [], ◌∷◌,
  ◌++◌, map, Text, codes, is_empty, eq_text, to_lower, trim_space, ◌⊎◌, inl, inr,
}
use execdb.Sql.Keyword.{looks_like_row_returning}
use execdb.Pg.Values.{decimal, quoted}
use execdb.Engine.Footer.{format_version}
use execdb.Repl.Names.{Options, resolve_snapshot_filename}
use execdb.Repl.Output.{
  OutputMode, mode_list, mode_column, mode_csv, mode_json, mode_line, Printed, Rows, silent,
  println, print_error, also, join, print_rows_list, print_rows_csv,
}
use execdb.Repl.Output.Columns.{print_rows_line, print_rows_column}
use execdb.Repl.Output.Json.{print_rows_json}
use execdb.Repl.System.{System, Done, string_dest}
use execdb.Repl.Dump.{first, all_texts, print_texts, cmd_dump}
use execdb.Repl.Import.{note, cmd_import}

-- What a command and a line leave to do: to read on, to return from `run`, or to exit with a code.
pub data Next : Type 0 where
  reads_on returns : Next
  exits : ℕ → Next

-- The fields of `repl` that the commands change, and the state behind `db` and `sess`.
pub record Shell (W : Type 0) : Type 0 where
  pub world : W
  pub mode : OutputMode
  pub headers : Bool

-- `validOutputModes[mode]`.
unfoldable pub output_mode : Text → Option OutputMode
unfolding eq_text
output_mode name =
    if eq_text name (codes "list")
    then some mode_list
    else if eq_text name (codes "column")
    then some mode_column
    else if eq_text name (codes "csv")
    then some mode_csv
    else if eq_text name (codes "json")
    then some mode_json
    else if eq_text name (codes "line")
    then some mode_line
    else none

abbrev is_column : OutputMode → Bool
is_column mode_column = true
is_column _ = false

module _ {W : Type 0} where
  abbrev pub in_world : Shell W → W × Printed → Shell W × Printed
  in_world sh (w, p) = (record sh { world = w }, p)

  abbrev pub report : Printed → W × Option Text → W × Printed
  report p (w, none) = (w, p)
  report p (w, some message) = (w, print_error message)

module _ {W : Type 0} (sys : System W) where
  -- `printRows`.
  unfoldable pub print_rows : Shell W → Rows → Printed
  unfolding print_rows_list print_rows_csv print_rows_line print_rows_column print_rows_json
  print_rows sh rows = elim rows.columns [
    | inl message ↦ print_error message
    | inr cols ↦ elim sh.mode [
      | mode_column ↦ print_rows_column sys.printers rows cols sh.headers
      | mode_csv ↦ print_rows_csv sys.printers rows cols sh.headers
      | mode_json ↦ print_rows_json sys.printers rows cols
      | mode_line ↦ print_rows_line sys.printers rows cols
      | mode_list ↦ print_rows_list sys.printers rows cols sh.headers
    ]
  ]

  abbrev print_queried : Shell W → W × (Text ⊎ Rows) → Shell W × Printed
  print_queried sh (w, inl message) = (record sh { world = w }, print_error message)
  print_queried sh (w, inr rows) = (record sh { world = w }, print_rows sh rows)

  -- `execSQL`.
  unfoldable pub exec_sql : Shell W → Text → Shell W × Printed
  unfolding trim_space looks_like_row_returning print_rows
  exec_sql sh stmt =
      let trimmed = trim_space stmt in
      if is_empty trimmed
      then (sh, silent)
      else if looks_like_row_returning trimmed
      then print_queried sh (sys.query sh.world stmt)
      else in_world sh (report silent (sys.exec sh.world stmt))

  -- `cmdExit`.
  unfoldable pub cmd_exit : List Text → Printed × Next
  cmd_exit [] = (silent, returns)
  cmd_exit (a ∷ args) = elim (sys.atoi a) [
    | none ↦ (note (codes "Error: invalid exit code " ++ quoted a), reads_on)
    | some code ↦ (silent, exits code)
  ]

  -- `cmdMode`.
  unfoldable pub cmd_mode : List Text → Shell W → Shell W × Printed
  unfolding to_lower output_mode quoted
  cmd_mode (a ∷ []) sh = elim (output_mode (map to_lower a)) [
    | none ↦ (
      sh,
      note (
          codes "Error: unknown mode "
          ++ (quoted a ++ codes ". Available modes: list, column, csv, json, line.")),
    )
    | some mode ↦ (record sh { mode = mode; headers = is_column mode || sh.headers }, silent)
  ]
  cmd_mode _ sh = (sh, note (codes "Usage: .mode MODE (list|column|csv|json|line)"))

  -- `cmdHeaders`.
  unfoldable pub cmd_headers : List Text → Shell W → Shell W × Printed
  unfolding to_lower eq_text quoted
  cmd_headers (a ∷ []) sh =
      if eq_text (map to_lower a) (codes "on")
      then (record sh { headers = true }, silent)
      else if eq_text (map to_lower a) (codes "off")
      then (record sh { headers = false }, silent)
      else (sh, note (codes "Error: expected \"on\" or \"off\", got " ++ quoted a))
  cmd_headers _ sh = (sh, note (codes "Usage: .headers on|off"))
