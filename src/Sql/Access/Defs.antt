-- ===== src/Sql/Access/Defs.antt =====
-- cmd/execdb/access.go: `checkExternalAccess`, and the error that it returns.
use execdb.Prelude.{
  List, [], ◌∷◌, ◌++◌, Option, none, some, if◌then◌else◌, Text, codes, eq_text, is_blank,
}
use execdb.Sql.Scan.{split_statements}
use execdb.Sql.Keyword.{first_keyword, any_text}

abbrev pub ddl_keywords : List Text
ddl_keywords = codes "CREATE" ∷ codes "DROP" ∷ codes "ALTER" ∷ codes "TRUNCATE" ∷ []

abbrev pub other_rejected_keywords : List Text
other_rejected_keywords =
    codes "ATTACH" ∷ codes "DETACH" ∷ codes "PRAGMA" ∷ codes "VACUUM" ∷ codes "REINDEX" ∷ []

-- `accessDeniedError`: `errDDLDenied`, or one that names its keyword.
pub data AccessDenied : Type 0 where
  ddl_denied : AccessDenied
  keyword_denied : Text → AccessDenied

-- `Error()`.
unfoldable pub denied_message : AccessDenied → Text
denied_message ddl_denied = codes "DDL statements are not allowed via external interface"
denied_message (keyword_denied kw) =
    kw ++ codes " statements are not allowed via external interface"

-- The body of the loop, for one statement; `none` goes on.
unfoldable pub check_statement : Text → Option AccessDenied
unfolding first_keyword eq_text is_blank
check_statement stmt =
    let kw = first_keyword stmt in
    if is_blank stmt
    then none
    else if any_text kw ddl_keywords
    then some ddl_denied
    else if any_text kw other_rejected_keywords
    then some (keyword_denied kw)
    else none

unfoldable pub check_statements : List Text → Option AccessDenied
unfolding check_statement
check_statements [] = none
check_statements (s ∷ ss) = elim (check_statement s) [
  | some e ↦ some e
  | none ↦ check_statements ss
]

unfoldable pub check_external_access : Text → Option AccessDenied
unfolding check_statements split_statements
check_external_access sql = check_statements (split_statements sql)
