-- ===== src/Repl/Shell/Loop.antt =====
-- cmd/execdb/repl.go: `handleDotCommand` and `run`.
pub mod Laws
use execdb.Prelude.{
  ℕ, Bool, true, false, not, ◌&&◌, ◌||◌, Option, none, some, if◌then◌else◌, List, [], ◌∷◌, ◌++◌,
  map, Text, codes, is_empty, eq_text, has_prefix, trim_space, ◌⊎◌, inl, inr,
}
use execdb.Pg.Values.{quoted}
use execdb.Repl.Complete.{complete_statements}
use execdb.Repl.DotCommand.{
  split, start, plain, single, double, plain_escape, double_escape, parse_dot_command,
}
use execdb.Repl.Names.{Options}
use execdb.Repl.Output.{Printed, silent, print_error, print_failed, also}
use execdb.Repl.System.{System}
use execdb.Repl.Dump.{cmd_dump}
use execdb.Repl.Import.{note, cmd_import}
use execdb.Repl.Shell.{
  Shell, Next, reads_on, returns, exits, in_world, exec_sql, cmd_exit, cmd_mode, cmd_headers,
}
use execdb.Repl.Shell.Commands.{cmd_tables, cmd_schema, cmd_snapshot, cmd_overwrite, cmd_load}

-- The message of `parseDotCommand`.
unfoldable pub parse_error : Text → Text
unfolding split
parse_error line = elim (split start line).quoting [
  | single ↦ codes "unterminated '"
  | double ↦ codes "unterminated \""
  | double_escape ↦ codes "unterminated \""
  | plain ↦ codes "empty command"
  | plain_escape ↦ codes "empty command"
]

-- `printHelp`.
abbrev pub help : Printed
help = record {
  out = [];
  err =
      codes
        ".exit [CODE]              Exit this program\n.quit [CODE]              Exit this program (same as .exit)\n.help                     Show this message\n.mode MODE                Set output mode: list|column|csv|json|line\n.headers on|off           Show column names in output\n.tables                   List names of tables\n.schema [TABLE]           Show CREATE statements\n.dump [PATTERN]           Render the schema and data as SQL text\n.import FILE TABLE        Import CSV data into TABLE, creating it if needed\n.snapshot [FILE] [--timestamp]\n                          Write the current database to a new file\n.overwrite                Overwrite the running executable with the current\n                          database, then exit\n.load FILE                Replace the in-memory database with the data\n                          embedded in FILE\n";
}

-- What `run` keeps: the shell and `buf`.
pub record Loop (W : Type 0) : Type 0 where
  pub shell : Shell W
  pub buf : Text

-- What the `select` of `run` receives.
pub data Input : Type 0 where
  typed_line : Text → Input
  idle : Input

-- `startLineReader` (cmd/execdb/interrupt.go): what its channels give, the lines of the scanner up to
-- its end, and then its error.
abbrev pub start_line_reader : List Text → Option Text → List Input × Option Text
start_line_reader lines failed = (map typed_line lines, failed)

-- `fmt.Fprint` of the prompt.
abbrev pub prompt : Bool → Text → Printed
prompt interactive buf =
    if interactive
    then record { out = []; err = if is_empty buf then codes "execdb> " else codes "   ...> " }
    else silent

module _ {W : Type 0} where
  abbrev stays : Shell W × Printed → Shell W × (Printed × Next)
  stays (sh, p) = (sh, (p, reads_on))

  abbrev stops : Shell W → W × (Printed × Next) → Shell W × (Printed × Next)
  stops sh (w, r) = (record sh { world = w }, r)

  abbrev in_loop : Shell W × (Printed × Next) → Loop W × (Printed × Next)
  in_loop (sh, r) = (record { shell = sh; buf = [] }, r)

module _ {W : Type 0} (sys : System W) (opts : Options) where
  -- The `switch` of `handleDotCommand`.
  unfoldable pub dot_command : Text → List Text → Shell W → Shell W × (Printed × Next)
  unfolding eq_text cmd_exit cmd_mode cmd_headers cmd_tables cmd_schema cmd_dump cmd_import
      cmd_snapshot cmd_overwrite cmd_load quoted
  dot_command cmd args sh =
      if eq_text cmd (codes ".exit") || eq_text cmd (codes ".quit")
      then (sh, cmd_exit sys args)
      else if eq_text cmd (codes ".help")
      then (sh, (help, reads_on))
      else if eq_text cmd (codes ".mode")
      then stays (cmd_mode sys args sh)
      else if eq_text cmd (codes ".headers")
      then stays (cmd_headers sys args sh)
      else if eq_text cmd (codes ".tables")
      then stays (in_world sh (cmd_tables sys sh.world))
      else if eq_text cmd (codes ".schema")
      then stays (in_world sh (cmd_schema sys args sh.world))
      else if eq_text cmd (codes ".dump")
      then stays (in_world sh (cmd_dump sys args sh.world))
      else if eq_text cmd (codes ".import")
      then stays (in_world sh (cmd_import sys args sh.world))
      else if eq_text cmd (codes ".snapshot")
      then stays (in_world sh (cmd_snapshot sys opts args sh.world))
      else if eq_text cmd (codes ".overwrite")
      then stops sh (cmd_overwrite sys sh.world)
      else if eq_text cmd (codes ".load")
      then stays (in_world sh (cmd_load sys args sh.world))
      else (
        sh,
        (
          note (
              codes "Error: unknown command "
              ++ (quoted cmd ++ codes ". Enter \".help\" for usage hints.")),
          reads_on,
        ),
      )

  -- `handleDotCommand`.
  unfoldable pub handle_dot_command : Text → Shell W → Shell W × (Printed × Next)
  unfolding parse_dot_command parse_error dot_command
  handle_dot_command line sh = elim (parse_dot_command line) [
    | none ↦ (sh, (print_error (parse_error line), reads_on))
    | some (cmd, args) ↦ dot_command cmd args sh
  ]

  -- `for _, stmt := range complete`.
  unfoldable pub exec_all : List Text → Shell W → Shell W × Printed
  unfolding exec_sql
  exec_all [] sh = (sh, silent)
  exec_all (stmt ∷ stmts) sh =
      let (sh', p) = exec_sql sys sh stmt in let (sh'', q) = exec_all stmts sh' in (sh'', also p q)

  -- The part of `run` behind `buf.WriteString`, of a buffer with the line in it.
  unfoldable pub run_buffer : Text → Shell W → Loop W × (Printed × Next)
  unfolding complete_statements exec_all
  run_buffer typed sh =
      let (complete, remainder) = complete_statements sys.is_complete typed in
      let (sh', p) = exec_all complete sh in
      if not (is_empty (trim_space remainder))
      then (record { shell = sh; buf = typed }, (silent, reads_on))
      else (record { shell = sh'; buf = [] }, (p, reads_on))

  -- One line of `run`.
  unfoldable pub take_line : Text → Loop W → Loop W × (Printed × Next)
  unfolding trim_space has_prefix handle_dot_command run_buffer
  take_line line st =
      let trimmed = trim_space line in
      if is_empty st.buf && has_prefix trimmed (codes ".")
      then in_loop (handle_dot_command trimmed st.shell)
      else if is_empty st.buf && is_empty trimmed
      then (st, (silent, reads_on))
      else run_buffer (st.buf ++ (line ++ (b'\n' ∷ []))) st.shell

  unfoldable pub take_input : Input → Loop W → Loop W × (Printed × Next)
  unfolding take_line
  take_input (typed_line l) st = take_line l st
  take_input idle st = (record st { buf = [] }, (silent, reads_on))

  -- The loop of `run`, up to the end of the input with its error.
  unfoldable pub run : Bool → List Input → Option Text → Loop W → Loop W × (Printed × Next)
  unfolding take_input
  run interactive [] failed st =
      (st, (also (prompt interactive st.buf) (print_failed failed), returns))
  run interactive (i ∷ is) failed st =
      let (st', (p, next)) = take_input i st in
      let (st'', (q, next')) = run interactive is failed st' in
      let shown = also (prompt interactive st.buf) p in
      elim next [
        | reads_on ↦ (st'', (also shown q, next'))
        | returns ↦ (st', (shown, returns))
        | exits code ↦ (st', (shown, exits code))
      ]
