-- ===== src/Repl/Import.antt =====
-- cmd/execdb/import.go: `.import` of a CSV file.
pub mod Laws
use execdb.Prelude.{
  ℕ, zero, suc, ◌+◌, Bool, true, false, Option, none, some, ◌==◌, ltb, if◌then◌else◌, List, [], ◌∷◌,
  ◌++◌, Text, codes, length, ◌⊎◌, inl, inr,
}
use execdb.Sql.Quote.{quote_ident, create_table_sql, insert_sql}
use execdb.Pg.Values.{decimal}
use execdb.Repl.Output.{Printed, silent, print_error, also}
use execdb.Repl.System.{System, Run, Done, done, and_then}
use execdb.Repl.Dump.{count, table_columns}

abbrev pub note : Text → Printed
note t = record { out = []; err = t ++ (b'\n' ∷ []) }

abbrev row_error : ℕ → Text → Text
row_error line message = codes "row " ++ (decimal line ++ (codes ": " ++ message))

abbrev field_error : ℕ → ℕ → ℕ → Text
field_error line expected got =
    row_error line
      (codes "expected " ++ (decimal expected ++ (codes " fields, got " ++ decimal got)))

-- `bool, error` of `tableExists`.
abbrev pub exists_of : ℕ → Bool
exists_of n = ltb 0 n

abbrev pub savepoint : Text
savepoint = codes "SAVEPOINT execdb_import"

abbrev pub rollback : Text
rollback = codes "ROLLBACK TO execdb_import"

abbrev pub release : Text
release = codes "RELEASE execdb_import"

module _ {W : Type 0} (sys : System W) where
  -- The loop of `insertImportRows` behind `n` records and `line` lines, over what `cr.Read` gives until
  -- the end of the file.
  unfoldable pub insert_records : ℕ → ℕ → ℕ → List (Text ⊎ List Text) → W → W × (Text ⊎ ℕ)
  insert_records cols n line [] w = (w, inr n)
  insert_records cols n line (inl message ∷ reads) w = (w, inl (row_error (line + 1) message))
  insert_records cols n line (inr fields ∷ reads) w =
      let (w', e) = sys.exec_prepared w fields in
      let rest = insert_records cols (n + 1) (line + 1) reads w' in
      if length fields == cols
      then elim e [ some message ↦ (w', inl (row_error (line + 1) message)) | none ↦ rest ]
      else (w, inl (field_error (line + 1) cols (length fields)))

  -- `insertImportRows`.
  unfoldable pub insert_import_rows :
      List (Text ⊎ List Text) → Text → List Text → ℕ → W → W × (Text ⊎ ℕ)
  unfolding insert_records
  insert_import_rows reads table cols header_lines w =
      let (w', e) = sys.prepare w (insert_sql table cols) in
      elim e [
        | some message ↦ (w', inl message)
        | none ↦ insert_records (length cols) 0 header_lines reads w'
      ]

  -- What `importRows` does behind the rows; the errors of the rollback are dropped.
  unfoldable pub leave_savepoint : W × (Text ⊎ ℕ) → W × (Text ⊎ ℕ)
  leave_savepoint (w, inl message) = ((sys.exec (sys.exec w rollback).0 release).0, inl message)
  leave_savepoint (w, inr n) =
      let (w', e) = sys.exec w release in
      elim e [ some message ↦ (w', inl message) | none ↦ (w', inr n) ]

  -- `importRows`.
  unfoldable pub import_rows : List (Text ⊎ List Text) → Text → List Text → ℕ → W → W × (Text ⊎ ℕ)
  unfolding insert_import_rows leave_savepoint
  import_rows reads table cols header_lines w =
      let (w', e) = sys.exec w savepoint in
      elim e [
        | some message ↦ (w', inl message)
        | none ↦ leave_savepoint (insert_import_rows reads table cols header_lines w')
      ]

  -- The columns, the records that are left and `headerLines`, of a table that is not there.
  unfoldable pub create_from_header :
      Text
      → Text
      → List (Text ⊎ List Text)
      → W
      → W × (Printed ⊎ (List Text × (List (Text ⊎ List Text) × ℕ)))
  create_from_header path table [] w = (
    w,
    inl (
        note (
          codes "Error: "
          ++ (path
              ++ (codes " is empty; no header row to create "
                  ++ (quote_ident table ++ codes " from"))))),
  )
  create_from_header path table (inl message ∷ reads) w =
      (w, inl (note (codes "Error reading header: " ++ message)))
  create_from_header path table (inr header ∷ reads) w =
      let (w', e) = sys.exec w (create_table_sql table header) in
      elim e [
        | some message ↦ (w', inl (print_error message))
        | none ↦ (w', inr (header, (reads, 1)))
      ]

  -- The same, of a table that is there.
  unfoldable pub columns_of_table :
      Text
      → List (Text ⊎ List Text)
      → W
      → W × (Printed ⊎ (List Text × (List (Text ⊎ List Text) × ℕ)))
  unfolding table_columns
  columns_of_table table reads w =
      let (w', (p, r)) = table_columns sys table w in
      elim r [
        | inl message ↦ (w', inl (print_error message))
        | inr cols ↦ (w', inr (cols, (reads, 0)))
      ]

  -- The rows, and the last message of `cmdImport`.
  unfoldable pub import_into :
      Text → W × (Printed ⊎ (List Text × (List (Text ⊎ List Text) × ℕ))) → W × Printed
  unfolding import_rows
  import_into table (w, inl p) = (w, p)
  import_into table (w, inr (cols, (reads, header_lines))) =
      let (w', r) = import_rows reads table cols header_lines w in
      elim r [
        | inl message ↦ (w', print_error message)
        | inr n ↦ (
          w',
          note (
              codes "Inserted "
              ++ (decimal n ++ (codes " rows into " ++ (quote_ident table ++ codes ".")))),
        )
      ]

  -- `cmdImport` of a file that was opened.
  unfoldable pub import_csv : Text → Text → List (Text ⊎ List Text) → W → W × Printed
  unfolding count columns_of_table create_from_header import_into
  import_csv path table reads w =
      let (w', (p, r)) =
        count sys (codes "SELECT count(*) FROM sqlite_master WHERE type = 'table' AND name = ?")
          (table ∷ []) w in
      elim r [
        | inl message ↦ (w', print_error message)
        | inr n ↦ import_into table (
            if exists_of n
            then columns_of_table table reads w'
            else create_from_header path table reads w')
      ]

  -- `cmdImport`.
  unfoldable pub cmd_import : List Text → W → W × Printed
  unfolding import_csv
  cmd_import (path ∷ table ∷ []) w = elim (sys.open_csv w path) [
    | inl message ↦ (w, print_error message)
    | inr reads ↦ import_csv path table reads w
  ]
  cmd_import _ w = (w, note (codes "Usage: .import FILE TABLE"))
