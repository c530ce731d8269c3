-- ===== src/Tests/Shell.antt =====
-- The shell on a database that is a list of rows.
use execdb.Prelude.{
  arith, true, false, Option, none, some, List, [], ◌∷◌, ◌++◌, map, Text, codes, eq_text,
  if◌then◌else◌, ◌≡◌, ◌⊎◌, inl, inr, refl,
}
use execdb.Sql.Quote.{quote_ident}
use execdb.Pg.Values.{decimal}
use execdb.Pg.Types.{int64, null}
use execdb.Repl.Names.{Options}
use execdb.Repl.Output.{Printers, mode_list}
use execdb.Repl.Output.Json.{print_rows_json}
use execdb.Repl.Output.Json.Laws.{array, scanned, print_rows_json-array}
use execdb.Repl.System.{System, TextRows}
use execdb.Repl.Dump.{columns_query, tables_query, others_query, sequence_query, insert_line}
use execdb.Repl.Dump.Laws.{Catalog, script, rows_of, one}
use execdb.Repl.Import.{import_rows, savepoint, rollback, release}
use execdb.Repl.Import.Laws.{Savepoints, EndsImport, import_rows-inl}
use execdb.Repl.Shell.{Shell}
use execdb.Repl.Shell.Loop.{run_buffer}
use execdb.Repl.Shell.Loop.Laws.{Kept, HasRun, run_buffer-HasRun}

abbrev TableRows : Type 0
TableRows = List (List Text)

-- The rows, and in a transaction what its savepoint has kept and what it began with.
abbrev State : Type 0
State = TableRows × Option (TableRows × TableRows)

abbrev rows_in : State → TableRows
rows_in w = w.0

abbrev kept_in : State → Option TableRows
kept_in (rows, none) = none
kept_in (rows, some (kept, start)) = some kept

abbrev began_in : State → TableRows
began_in (rows, none) = rows
began_in (rows, some (kept, start)) = start

abbrev rolled_back : State → State
rolled_back (rows, none) = (rows, none)
rolled_back (rows, some (kept, start)) = (kept, some (kept, start))

unfoldable exec_toy : State → Text → State × Option Text
unfolding eq_text
exec_toy w text =
    if eq_text text savepoint
    then ((w.0, some (w.0, began_in w)), none)
    else if eq_text text rollback
    then (rolled_back w, none)
    else if eq_text text release
    then ((w.0, none), none)
    else (w, none)

-- A row with no field undoes the transaction.
abbrev insert_toy : State → List Text → State × Option Text
insert_toy w [] = ((began_in w, none), some (codes "constraint failed"))
insert_toy w (field ∷ fields) = (((field ∷ fields) ∷ w.0, w.1), none)

-- An INSERT in a savepoint.
insert_toy-saved :
    (w : State) (fields : List Text) (c : TableRows)
    → kept_in w ≡ some c
    → ((kept_in (insert_toy w fields).0 ≡ some c) × (began_in (insert_toy w fields).0 ≡ began_in w))
      ⊎ (((message : Text) × ((insert_toy w fields).1 ≡ some message))
          × (kept_in (insert_toy w fields).0 ≡ none)
          × (rows_in (insert_toy w fields).0 ≡ began_in w))
insert_toy-saved w [] c h = inr ((_, refl), refl, refl)
insert_toy-saved (rows, some (kept, start)) (field ∷ fields) c h = inl (h, refl)
insert_toy-saved (rows, none) (field ∷ fields) c h = absurd (ground (arith, h))

rolled_back-rows : (w : State) (c : TableRows) → kept_in w ≡ some c → rows_in (rolled_back w) ≡ c
rolled_back-rows (rows, some (kept, start)) c h = ground (arith, h)
rolled_back-rows (rows, none) c h = absurd (ground (arith, h))

rolled_back-none : (w : State) → kept_in w ≡ none → rows_in (rolled_back w) ≡ rows_in w
rolled_back-none (rows, none) h = refl
rolled_back-none (rows, some (kept, start)) h = absurd (ground (arith, h))

abbrev printers : Printers
printers = record {
  sprint_float = λ f. codes "0.5";
  sprint_time = λ t. [];
  runes = λ b. b;
  marshal_string = λ s. codes "\"" ++ (s ++ codes "\"");
  marshal_float = λ f. none;
  csv_record = λ row. inr [];
}

abbrev catalog : Catalog
catalog = record {
  tables = (codes "t" ∷ codes "CREATE TABLE t(a)" ∷ []) ∷ [];
  columns = λ name. codes "a" ∷ [];
  values = λ name. (codes "1" ∷ []) ∷ [];
  sequences = 0;
  sequence = [];
  others = [];
}

unfoldable answer : Text → TextRows
unfolding eq_text
answer text =
    if eq_text text tables_query
    then rows_of catalog.tables
    else if eq_text text columns_query
    then rows_of (one (codes "a") ∷ [])
    else if eq_text text others_query
    then rows_of []
    else if eq_text text sequence_query
    then rows_of []
    else rows_of ((codes "1" ∷ []) ∷ [])

abbrev toy : System State
toy = record {
  query = λ w text. (w, inl (codes "no rows"));
  query_texts = λ w text args. (w, inr (answer text));
  query_count = λ w text args. (w, inr 0);
  exec = exec_toy;
  prepare = λ w text. (w, none);
  exec_prepared = insert_toy;
  snapshot = λ w path. (w, none);
  overwrite = λ w. (w, none);
  load = λ w path. (w, none);
  inspect = λ w path. none;
  host = λ w. record { executable_base = none; now = codes "20240102030405"; goos = codes "linux" };
  open_csv = λ w path. inr [];
  atoi = λ a. none;
  is_complete = λ t. true;
  printers = printers;
}

toy-Savepoints : Savepoints toy TableRows rows_in kept_in began_in
unfolding exec_toy
toy-Savepoints = record {
  opens = λ w e. (refl, refl);
  refuses = λ w message e. refl;
  prepares = λ w text. (refl, refl);
  inserts = insert_toy-saved;
  rolls_back = rolled_back-rows;
  refuses_rollback = rolled_back-none;
  releases = λ w. refl;
}

abbrev options : Options
options = record {
  pg_addr = [];
  socket = [];
  snapshot_as = [];
  no_repl = false;
  quiet = false;
  timestamp = false;
  snapshot_interval = 0;
  user = [];
  password = [];
}

abbrev empty_state : State
empty_state = ([], none)

abbrev shell : Shell State
shell = record { world = empty_state; mode = mode_list; headers = false }

abbrev reads : List (Text ⊎ List Text)
reads = inr (codes "1" ∷ []) ∷ inr (codes "1" ∷ codes "2" ∷ []) ∷ []

abbrev failed_message : Text
failed_message = codes "row 3: expected 1 fields, got 2"

failed_import :
    (import_rows toy reads (codes "t") (codes "a" ∷ []) 1 empty_state).1 ≡ inl failed_message
unfolding import_rows exec_toy decimal
failed_import = refl

import_failed_example :
    EndsImport toy TableRows rows_in kept_in began_in toy-Savepoints empty_state
      (import_rows toy reads (codes "t") (codes "a" ∷ []) 1 empty_state).0
import_failed_example =
    import_rows-inl toy TableRows rows_in kept_in began_in toy-Savepoints reads (codes "t")
      (codes "a" ∷ []) 1 empty_state failed_message failed_import

dump_tables :
    toy.query_texts empty_state tables_query (one (codes "%"))
    ≡ (empty_state, inr (rows_of catalog.tables))
unfolding answer
dump_tables = refl

dumped :
    script catalog
    ≡ codes
        "PRAGMA foreign_keys=OFF;\nBEGIN TRANSACTION;\nCREATE TABLE t(a);\nINSERT INTO \"t\" VALUES(1);\nCOMMIT;\n"
unfolding insert_line quote_ident
dumped = refl

json_example :
    (print_rows_json printers
      record {
        columns = inr (codes "n" ∷ []);
        scans = map scanned ((null ∷ []) ∷ (int64 2 ∷ []) ∷ []);
        failed = none;
      }
      (codes "n" ∷ [])).out
    ≡ array printers (codes "\"n\"" ∷ []) ((null ∷ []) ∷ (int64 2 ∷ []) ∷ [])
json_example = print_rows_json-array printers (codes "n" ∷ []) ((null ∷ []) ∷ (int64 2 ∷ []) ∷ [])

buffer_example :
    Kept toy options (codes "x;\n") shell (run_buffer toy options (codes "x;\n") shell)
    ⊎ HasRun toy options (codes "x;\n") shell (run_buffer toy options (codes "x;\n") shell)
buffer_example = run_buffer-HasRun toy options (codes "x;\n") shell refl
