-- ===== src/Sql/Quote/Defs.antt =====
-- cmd/execdb/dump.go: `quoteIdent`; cmd/execdb/import.go: the statements that `.import` builds.
use execdb.Prelude.{List, [], ◌∷◌, ◌++◌, ◌==◌, if◌then◌else◌, Text, codes}

-- `strings.ReplaceAll` of a `"` by two.
unfoldable pub double_quotes : Text → Text
double_quotes [] = []
double_quotes (c ∷ cs) =
    let rest = double_quotes cs in if c == b'"' then b'"' ∷ b'"' ∷ rest else c ∷ rest

unfoldable pub quote_ident : Text → Text
unfolding double_quotes
quote_ident name = b'"' ∷ (double_quotes name ++ (b'"' ∷ []))

-- `strings.Join(parts, ",")`.
unfoldable pub join_commas : List Text → Text
join_commas [] = []
join_commas (p ∷ []) = p
join_commas (p ∷ q ∷ ps) = p ++ (b',' ∷ join_commas (q ∷ ps))

unfoldable pub column_defs : List Text → List Text
unfolding quote_ident
column_defs [] = []
column_defs (c ∷ cols) = (quote_ident c ++ codes " TEXT") ∷ column_defs cols

-- The text that `createImportTable` executes.
unfoldable pub create_table_sql : Text → List Text → Text
unfolding quote_ident join_commas column_defs
create_table_sql table cols =
    codes "CREATE TABLE "
    ++ (quote_ident table ++ (b'(' ∷ (join_commas (column_defs cols) ++ codes ")")))

unfoldable pub column_names : List Text → List Text
unfolding quote_ident
column_names [] = []
column_names (c ∷ cols) = quote_ident c ∷ column_names cols

unfoldable pub placeholders : List Text → List Text
placeholders [] = []
placeholders (c ∷ cols) = codes "?" ∷ placeholders cols

-- The text that `insertImportRows` prepares.
unfoldable pub insert_sql : Text → List Text → Text
unfolding quote_ident join_commas column_names placeholders
insert_sql table cols =
    codes "INSERT INTO "
    ++ (quote_ident table
        ++ (b'('
            ∷ (join_commas (column_names cols)
                ++ (codes ") VALUES(" ++ (join_commas (placeholders cols) ++ codes ")")))))
