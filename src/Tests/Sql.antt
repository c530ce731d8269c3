-- ===== src/Tests/Sql.antt =====
-- cmd/execdb/access.go, cmd/execdb/dump.go, cmd/execdb/import.go on concrete texts.
use execdb.Prelude.{true, false, [], ◌∷◌, ◌++◌, none, some, Text, codes, ◌≡◌, refl, is_space}
use execdb.Sql.Scan.{scan, scan_statements, split_statements}
use execdb.Sql.Keyword.{first_keyword, looks_like_row_returning, has_returning_clause}
use execdb.Sql.Access.{
  check_external_access, check-semicolon, check-decoy, decoy, or_else, ddl_denied, keyword_denied,
}
use execdb.Sql.Quote.{create_table_sql, insert_sql, import_sql-is_single}

abbrev nested : Text
nested = codes "SELECT ';' AS \"a;b\" -- ;\n; /* ; */ SELECT 'it''s';tail"

scan_nested :
    scan_statements nested
    ≡ (codes "SELECT ';' AS \"a;b\" -- ;\n" ∷ codes " /* ; */ SELECT 'it''s'" ∷ [], codes "tail")
unfolding scan_statements
scan_nested = refl

keywords :
    (first_keyword (codes " -- x\n/* y */ drop table t") ≡ codes "DROP")
    × (first_keyword (codes "/* open") ≡ [])
    × (looks_like_row_returning (codes "insert into t values('returning')") ≡ false)
    × (looks_like_row_returning (codes "insert into t values(1) returning id") ≡ true)
    × (has_returning_clause (codes "delete from returning_log") ≡ false)
unfolding first_keyword looks_like_row_returning
keywords = (refl, refl, refl, refl, refl)

denials :
    (check_external_access (codes "SELECT 1; DROP TABLE t") ≡ some ddl_denied)
    × (check_external_access (codes "select 1; pragma x;") ≡ some (keyword_denied (codes "PRAGMA")))
    × (check_external_access (codes "SELECT 'DROP TABLE t; DROP'") ≡ none)
unfolding check_external_access is_space
denials = (refl, refl, refl)

smuggled :
    check_external_access (codes "SELECT ';'" ++ (b';' ∷ codes "DROP TABLE t"))
    ≡ or_else
        (check_external_access (codes "SELECT ';'"))
        (check_external_access (codes "DROP TABLE t"))
unfolding scan
smuggled = check-semicolon (codes "SELECT ';'") (codes "DROP TABLE t") refl

decoy_example :
    (scan_statements (decoy ++ codes " DROP TABLE t") ≡ ([], decoy ++ codes " DROP TABLE t"))
    × (first_keyword (decoy ++ codes " DROP TABLE t") ≡ codes "SELECT")
    × (check_external_access (decoy ++ codes " DROP TABLE t") ≡ none)
unfolding scan_statements
decoy_example = check-decoy (codes " DROP TABLE t") refl

import_example :
    (split_statements (create_table_sql (codes "a\";b") (codes "x;" ∷ []))
      ≡ create_table_sql (codes "a\";b") (codes "x;" ∷ []) ∷ [])
    × (first_keyword (create_table_sql (codes "a\";b") (codes "x;" ∷ [])) ≡ codes "CREATE")
    × (split_statements (insert_sql (codes "a\";b") (codes "x;" ∷ []))
        ≡ insert_sql (codes "a\";b") (codes "x;" ∷ []) ∷ [])
    × (first_keyword (insert_sql (codes "a\";b") (codes "x;" ∷ [])) ≡ codes "INSERT")
import_example = import_sql-is_single (codes "a\";b") (codes "x;" ∷ [])
