-- ===== src/Repl/Dump/Laws.antt =====
-- cmd/execdb/dump.go: what `.dump` prints of a database that answers its queries.
use execdb.Prelude.{
  ℕ, none, ◌==◌, if◌then◌else◌, List, [], ◌∷◌, ◌++◌, map, Text, codes, is_empty, ◌≡◌, ◌⊎◌, inr,
}
use execdb.Repl.Output.{Printed, print}
use execdb.Repl.System.{System, TextRows, Dest, Done}
use execdb.Repl.Dump.{first, second, data_query, insert_line, sequence_lines, columns_query}

-- Rows that `Scan` copies, whatever the variables are.
abbrev scanned : List Text → List Dest → Text ⊎ List Text
scanned row dests = inr row

abbrev pub rows_of : List (List Text) → TextRows
rows_of rows = record { scans = map scanned rows; failed = none }

abbrev pub one : Text → List Text
one t = t ∷ []

-- A database, as the queries of `.dump` see it: the names and the statements of the tables, their
-- columns and their rows in quoted values, the rows of `sqlite_sequence`, and the other statements.
pub record Catalog : Type 0 where
  pub tables : List (List Text)
  pub columns : Text → List Text
  pub values : Text → List (List Text)
  pub sequences : ℕ
  pub sequence : List (List Text)
  pub others : List Text

-- The lines, each with its end.
abbrev pub lines : List Text → Text
lines [] = []
lines (l ∷ ls) = (l ++ (b'\n' ∷ [])) ++ lines ls

abbrev pub table_text : Catalog → List (List Text) → Text
table_text c [] = []
table_text c (row ∷ rows) =
    ((second row ++ codes ";") ++ (b'\n' ∷ []))
    ++ ((if is_empty (c.columns (first row))
          then []
          else lines (map (insert_line (first row)) (c.values (first row))))
        ++ table_text c rows)

abbrev pub script : Catalog → Text
script c =
    codes "PRAGMA foreign_keys=OFF;\nBEGIN TRANSACTION;\n"
    ++ ((table_text c c.tables
          ++ ((if c.sequences == 0 then [] else (sequence_lines c.sequence).out)
              ++ lines (map (λ t. t ++ codes ";") c.others)))
        ++ codes "COMMIT;\n")

module _ {W : Type 0} (sys : System W) (w : W) (c : Catalog)
    (columns : (name : Text)
      → sys.query_texts w columns_query (one name) ≡ (w, inr (rows_of (map one (c.columns name)))))
    (values : (name : Text)
      → sys.query_texts w (data_query name (c.columns name)) []
        ≡ (w, inr (rows_of (c.values name)))) where
  -- It is found as it was left, and has printed that.
  abbrev Prints : (W × (Printed × (Text ⊎ Done))) → Text → Type 0
  Prints r t = r ≡ (w, (print t, inr tt))
