-- ===== src/Sql/Quote/Single.antt =====
-- cmd/execdb/import.go: the statements that `.import` builds, in the scanner.
use execdb.Prelude.{
  true, false, List, [], ◌∷◌, ◌++◌, Text, codes, ◌≡◌, refl, is_blank, is_space, arith,
}
use execdb.Sql.Scan.{scan_statements, split_statements}
use execdb.Sql.Keyword.{first_keyword}
use execdb.Sql.Quote.Defs.{
  quote_ident, join_commas, column_defs, create_table_sql, column_names, placeholders, insert_sql,
}
use execdb.Sql.Quote.Inert.{
  IsInert, IsInert-append, IsInert-plain, all_plain, quote_ident-IsInert, scan_statements-IsInert,
}

pub literal : (t : Text) {rest : Text} → all_plain t ≡ true → IsInert rest → IsInert (t ++ rest)
literal t {rest} h r = IsInert-append t rest (IsInert-plain t h) r

quoted : (name : Text) {rest : Text} → IsInert rest → IsInert (quote_ident name ++ rest)
quoted name {rest} r = IsInert-append (quote_ident name) rest (quote_ident-IsInert name) r

abbrev AllInert : List Text → Type 0
AllInert [] = Unit
AllInert (p ∷ ps) = IsInert p × AllInert ps

join_commas-IsInert : (ps : List Text) → AllInert ps → IsInert (join_commas ps)
unfolding join_commas
join_commas-IsInert [] h = IsInert-plain [] refl
join_commas-IsInert (p ∷ []) h = h.0
join_commas-IsInert (p ∷ q ∷ ps) h =
    IsInert-append p (b',' ∷ join_commas (q ∷ ps)) h.0
      (literal (b',' ∷ []) refl (join_commas-IsInert (q ∷ ps) h.1))

column_defs-AllInert : (cols : List Text) → AllInert (column_defs cols)
unfolding column_defs
column_defs-AllInert [] = tt
column_defs-AllInert (c ∷ cols) =
    (quoted c (IsInert-plain (codes " TEXT") refl), column_defs-AllInert cols)

column_names-AllInert : (cols : List Text) → AllInert (column_names cols)
unfolding column_names
column_names-AllInert [] = tt
column_names-AllInert (c ∷ cols) = (quote_ident-IsInert c, column_names-AllInert cols)

placeholders-AllInert : (cols : List Text) → AllInert (placeholders cols)
unfolding placeholders
placeholders-AllInert [] = tt
placeholders-AllInert (c ∷ cols) = (IsInert-plain (codes "?") refl, placeholders-AllInert cols)

create_table_sql-IsInert : (table : Text) (cols : List Text) → IsInert (create_table_sql table cols)
unfolding create_table_sql
create_table_sql-IsInert table cols = literal (codes "CREATE TABLE ") refl (
    quoted table (
      literal (codes "(") refl (
        IsInert-append (join_commas (column_defs cols)) (codes ")")
          (join_commas-IsInert (column_defs cols) (column_defs-AllInert cols))
          (IsInert-plain (codes ")") refl))))

insert_sql-IsInert : (table : Text) (cols : List Text) → IsInert (insert_sql table cols)
unfolding insert_sql
insert_sql-IsInert table cols = literal (codes "INSERT INTO ") refl (
    quoted table (
      literal (codes "(") refl (
        IsInert-append (join_commas (column_names cols)) _
          (join_commas-IsInert (column_names cols) (column_names-AllInert cols))
          (literal (codes ") VALUES(") refl (
            IsInert-append (join_commas (placeholders cols)) (codes ")")
              (join_commas-IsInert (placeholders cols) (placeholders-AllInert cols))
              (IsInert-plain (codes ")") refl))))))

split-no_statements :
    (t : Text) → is_blank t ≡ false → scan_statements t ≡ ([], t) → split_statements t ≡ t ∷ []
unfolding split_statements
split-no_statements t b h = ground arith

-- Whatever the names of the table and the columns hold, quotes and `;` included, the texts that
-- `.import` executes and prepares are each one statement, beginning with CREATE and with INSERT.
pub import_sql-is_single :
    (table : Text) (cols : List Text)
    → (split_statements (create_table_sql table cols) ≡ create_table_sql table cols ∷ [])
      × (first_keyword (create_table_sql table cols) ≡ codes "CREATE")
      × (split_statements (insert_sql table cols) ≡ insert_sql table cols ∷ [])
      × (first_keyword (insert_sql table cols) ≡ codes "INSERT")
unfolding first_keyword create_table_sql insert_sql is_blank is_space
import_sql-is_single table cols = (
  split-no_statements (create_table_sql table cols) refl
      (scan_statements-IsInert (create_table_sql table cols) (create_table_sql-IsInert table cols)),
  refl,
  split-no_statements (insert_sql table cols) refl
      (scan_statements-IsInert (insert_sql table cols) (insert_sql-IsInert table cols)),
  refl,
)
