-- ===== src/Pg/Catalog/Typed.antt =====
-- cmd/execdb/pgcatalog.go and cmd/execdb/pgtype.go: the types that `pg_attribute` gives, beside those
-- that rows are described with.
use Prim.Native.String.{String}
use execdb.Prelude.{Bool, map, Text, codes, to_upper, contains}

-- The declared type contains the word, in any case.
unfoldable pub names : String → Text → Bool
unfolding to_upper contains
names word decl = contains (map to_upper decl) (codes word)
