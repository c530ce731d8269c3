-- ===== src/Repl/Dump.antt =====
-- cmd/execdb/dump.go: the text that `.dump` prints.
pub mod Laws
use execdb.Prelude.{
  ℕ, Bool, true, false, Option, none, some, ◌==◌, if◌then◌else◌, List, [], ◌∷◌, ◌++◌, map, Text,
  codes, is_empty, replicate, length, ◌⊎◌, inl, inr,
}
use execdb.Sql.Quote.{quote_ident}
use execdb.Repl.Output.{Printed, silent, print, println, print_error, also, join}
use execdb.Repl.System.{
  System, TextRows, Dest, string_dest, null_string_dest, Run, Done, done, fails, prints, and_then,
}

abbrev pub first : List Text → Text
first [] = []
first (a ∷ row) = a

abbrev pub second : List Text → Text
second [] = []
second (a ∷ row) = first row

-- A loop over the rows that appends each, and the test of `rows.Err()`.
unfoldable pub all_texts :
    List Dest → List (List Dest → Text ⊎ List Text) → Option Text → Text ⊎ List (List Text)
all_texts dests [] none = inr []
all_texts dests [] (some message) = inl message
all_texts dests (scan ∷ scans) failed =
    let rest = all_texts dests scans failed in
    elim (scan dests) [
      | inl message ↦ inl message
      | inr row ↦ elim rest [ inl message ↦ inl message | inr out ↦ inr (row ∷ out) ]
    ]

-- A loop over the rows that prints each, and the `rows.Err()` that is returned.
unfoldable pub print_texts :
    (List Text → Text)
    → List Dest
    → List (List Dest → Text ⊎ List Text)
    → Option Text
    → Printed × (Text ⊎ Done)
print_texts line dests [] none = (silent, inr tt)
print_texts line dests [] (some message) = (silent, inl message)
print_texts line dests (scan ∷ scans) failed =
    let (p, r) = print_texts line dests scans failed in
    elim (scan dests) [
      | inl message ↦ (silent, inl message)
      | inr row ↦ (also (println (line row)) p, r)
    ]

-- The texts of the queries.
abbrev pub tables_query : Text
tables_query =
    codes
      "SELECT name, sql FROM sqlite_master\n\t\t WHERE type = 'table' AND name NOT LIKE 'sqlite_%' AND name LIKE ?"

abbrev pub others_query : Text
others_query =
    codes
      "SELECT sql FROM sqlite_master\n\t\t WHERE sql IS NOT NULL AND type IN ('index', 'view', 'trigger')\n\t\t   AND tbl_name LIKE ? AND name NOT LIKE 'sqlite_%'"

abbrev pub has_sequence_query : Text
has_sequence_query =
    codes "SELECT count(*) FROM sqlite_master WHERE type = 'table' AND name = 'sqlite_sequence'"

abbrev pub sequence_query : Text
sequence_query = codes "SELECT quote(name), quote(seq) FROM sqlite_sequence"

abbrev pub columns_query : Text
columns_query = codes "SELECT name FROM pragma_table_info(?)"

-- The query of `dumpTableData`.
unfoldable pub data_query : Text → List Text → Text
unfolding join
data_query name cols =
    codes "SELECT "
    ++ (join (codes ", ") (map (λ c. codes "quote(" ++ (quote_ident c ++ codes ")")) cols)
        ++ (codes " FROM " ++ quote_ident name))

unfoldable pub insert_line : Text → List Text → Text
unfolding join
insert_line name vals =
    codes "INSERT INTO "
    ++ (quote_ident name ++ (codes " VALUES(" ++ (join (codes ",") vals ++ codes ");")))

abbrev pub sequence_line : List Text → Text
sequence_line row =
    codes "INSERT INTO "
    ++ (quote_ident (codes "sqlite_sequence")
        ++ (codes " VALUES(" ++ (first row ++ (codes "," ++ (second row ++ codes ");")))))

unfoldable pub print_lines : List Text → Printed
print_lines [] = silent
print_lines (l ∷ ls) = also (println l) (print_lines ls)

abbrev pub sequence_lines : List (List Text) → Printed
sequence_lines rows =
    if is_empty rows
    then silent
    else also (println (codes "DELETE FROM sqlite_sequence;"))
        (print_lines (map sequence_line rows))

abbrev pub dump_start : Text
dump_start = codes "PRAGMA foreign_keys=OFF;\nBEGIN TRANSACTION;\n"

module _ {W : Type 0} where
  abbrev pub scan_all :
      List Dest → W × (Text ⊎ TextRows) → W × (Printed × (Text ⊎ List (List Text)))
  scan_all dests (w, inl message) = (w, (silent, inl message))
  scan_all dests (w, inr rows) = (w, (silent, all_texts dests rows.scans rows.failed))

  abbrev pub scan_print :
      (List Text → Text) → List Dest → W × (Text ⊎ TextRows) → W × (Printed × (Text ⊎ Done))
  scan_print line dests (w, inl message) = (w, (silent, inl message))
  scan_print line dests (w, inr rows) = (w, print_texts line dests rows.scans rows.failed)

  -- The end of `cmdDump`.
  abbrev pub finish_dump : W × (Printed × (Text ⊎ Done)) → W × Printed
  finish_dump (w, (p, inl message)) = (w, also (print dump_start) (also p (print_error message)))
  finish_dump (w, (p, inr _)) = (w, also (print dump_start) (also p (println (codes "COMMIT;"))))

module _ {W : Type 0} (sys : System W) where
  -- `Query`, and the rows scanned by one of the two loops.
  unfoldable pub query_all : Text → List Text → List Dest → Run W (List (List Text))
  query_all text args dests w = scan_all dests (sys.query_texts w text args)

  unfoldable pub query_print : Text → List Text → List Dest → (List Text → Text) → Run W Done
  query_print text args dests line w = scan_print line dests (sys.query_texts w text args)

  -- `tableColumns`.
  unfoldable pub table_columns : Text → Run W (List Text)
  unfolding query_all and_then
  table_columns name =
      and_then (query_all columns_query (name ∷ []) (string_dest ∷ []))
        (λ rows. done (map first rows))

  -- `dumpTableData`.
  unfoldable pub dump_table_data : Text → Run W Done
  unfolding table_columns query_print data_query insert_line and_then
  dump_table_data name = and_then (table_columns name) (λ cols.
      if is_empty cols
      then done tt
      else query_print (data_query name cols) [] (replicate (length cols) string_dest)
          (insert_line name))

  unfoldable pub dump_each : List (List Text) → Run W Done
  unfolding dump_table_data and_then
  dump_each [] = done tt
  dump_each (row ∷ rows) =
      and_then (prints (println (second row ++ codes ";")))
        (λ _. and_then (dump_table_data (first row)) (λ _. dump_each rows))

  -- `dumpTables`.
  unfoldable pub dump_tables : Text → Run W Done
  unfolding query_all dump_each and_then
  dump_tables pattern =
      and_then (query_all tables_query (pattern ∷ []) (string_dest ∷ null_string_dest ∷ []))
        dump_each

  unfoldable pub count : Text → List Text → Run W ℕ
  count text args w = let r = sys.query_count w text args in (r.0, (silent, r.1))

  -- `dumpSequence`.
  unfoldable pub dump_sequence : Run W Done
  unfolding query_all count print_lines and_then
  dump_sequence = and_then (count has_sequence_query []) (λ exists.
      if exists == 0
      then done tt
      else and_then (query_all sequence_query [] (string_dest ∷ string_dest ∷ []))
          (λ rows. prints (sequence_lines rows)))

  -- `dumpOtherObjects`.
  unfoldable pub dump_other_objects : Text → Run W Done
  unfolding query_print
  dump_other_objects pattern =
      query_print others_query (pattern ∷ []) (string_dest ∷ []) (λ row. first row ++ codes ";")

  -- The three calls of `cmdDump` with their tests.
  unfoldable pub dump_all : Text → Run W Done
  unfolding dump_tables dump_sequence dump_other_objects and_then
  dump_all pattern =
      and_then (dump_tables pattern) (λ _. and_then dump_sequence (λ _. dump_other_objects pattern))

  -- `cmdDump`.
  unfoldable pub cmd_dump : List Text → W → W × Printed
  unfolding dump_all
  cmd_dump args w = finish_dump (dump_all (if is_empty args then codes "%" else first args) w)
