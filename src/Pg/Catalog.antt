-- ===== src/Pg/Catalog.antt =====
-- cmd/execdb/pgcatalog.go: the views that `setupPGCatalog` defines, as functions of the schema.
pub mod Like
pub mod Typed
pub mod Joins
use execdb.Prelude.{
  ℕ, ◌+◌, Bool, true, false, Option, none, not, ◌&&◌, ◌||◌, ◌==◌, if◌then◌else◌, List, [], ◌∷◌,
  ◌++◌, map, Text, codes, to_upper,
}
use execdb.Pg.Types.{
  oid_bool, oid_bytea, oid_int8, oid_int2, oid_int4, oid_text, oid_float4, oid_float8,
  oid_timestamp, oid_numeric,
}

-- `LIKE` of SQLite, the pattern first: `%` is any text, `_` any character, and the case of ASCII
-- letters does not count.
unfoldable pub like : Text → Text → Bool
unfolding to_upper
like [] [] = true
like [] (c ∷ s) = false
like (p ∷ ps) [] = let rest = like ps [] in if p == b'%' then rest else false
like (p ∷ ps) (c ∷ s) =
    let skip = like ps (c ∷ s) in
    let more = like (p ∷ ps) s in
    let rest = like ps s in
    if p == b'%'
    then skip || more
    else if p == b'_' || to_upper p == to_upper c
    then rest
    else false

-- `sqlite_master.type`.
pub data Kind : Type 0 where
  table view index trigger : Kind

-- A row of `pragma_table_info`.
pub record ColumnInfo : Type 0 where
  pub cid : ℕ
  pub name : Text
  pub decl : Text
  pub notnull : Bool
  pub has_default : Bool

-- A row of `sqlite_master`, with the rows of `pragma_table_info` of its name.
pub record Object : Type 0 where
  pub kind : Kind
  pub name : Text
  pub rowid : ℕ
  pub columns : List ColumnInfo

abbrev pub is_relation : Kind → Bool
is_relation table = true
is_relation view = true
is_relation _ = false

-- `m.type IN ('table', 'view') AND m.name NOT LIKE 'sqlite_%'`.
unfoldable pub is_listed : Object → Bool
unfolding like
is_listed m = is_relation m.kind && not (like (codes "sqlite_%") m.name)

-- The only row of `pg_namespace`.
abbrev pub namespace_oid : ℕ
namespace_oid = 2200

-- `pg_namespace`.
unfoldable pub pg_namespace : List (ℕ × Text)
pg_namespace = (namespace_oid, codes "public") ∷ []

-- The columns of `pg_class` that are not constant, and the namespace.
pub record Class : Type 0 where
  pub oid : ℕ
  pub relname : Text
  pub relnamespace : ℕ
  pub relkind : ℕ

abbrev pub rel_kind : Kind → ℕ
rel_kind view = b'v'
rel_kind _ = b'r'

abbrev pub class_of : Object → Class
class_of m = record {
  oid = m.rowid;
  relname = m.name;
  relnamespace = namespace_oid;
  relkind = rel_kind m.kind;
}

unfoldable pub pg_class : List Object → List Class
unfolding is_listed
pg_class [] = []
pg_class (m ∷ objects) =
    let rest = pg_class objects in if is_listed m then class_of m ∷ rest else rest

-- The `CASE` of `atttypid`.
unfoldable pub att_type_id : Text → ℕ
unfolding like
att_type_id decl =
    let u = map to_upper decl in
    if like (codes "%BOOL%") u
    then 16
    else if like (codes "%BLOB%") u
    then 17
    else if like (codes "%INT%") u
    then 20
    else if like (codes "%CHAR%") u || like (codes "%CLOB%") u || like (codes "%TEXT%") u
    then 25
    else if like (codes "%REAL%") u || like (codes "%FLOA%") u || like (codes "%DOUB%") u
    then 701
    else 25

-- The columns of `pg_attribute` that are not constant.
pub record Attribute : Type 0 where
  pub attrelid : ℕ
  pub attname : Text
  pub atttypid : ℕ
  pub attnum : ℕ
  pub attnotnull : Bool
  pub atthasdef : Bool

unfoldable pub attribute_of : ℕ → ColumnInfo → Attribute
unfolding att_type_id
attribute_of rowid p = record {
  attrelid = rowid;
  attname = p.name;
  atttypid = att_type_id p.decl;
  attnum = p.cid + 1;
  attnotnull = p.notnull;
  atthasdef = p.has_default;
}

unfoldable pub attributes_of : Object → List Attribute
unfolding attribute_of
attributes_of m = map (attribute_of m.rowid) m.columns

unfoldable pub pg_attribute : List Object → List Attribute
unfolding is_listed attributes_of
pg_attribute [] = []
pg_attribute (m ∷ objects) =
    let rest = pg_attribute objects in if is_listed m then attributes_of m ++ rest else rest

-- The oids and the names of the rows of `pg_type`.
abbrev pub pg_type : List (ℕ × Text)
pg_type =
    (16, codes "bool")
    ∷ (17, codes "bytea")
    ∷ (20, codes "int8")
    ∷ (21, codes "int2")
    ∷ (23, codes "int4")
    ∷ (25, codes "text")
    ∷ (700, codes "float4")
    ∷ (701, codes "float8")
    ∷ (1114, codes "timestamp")
    ∷ (1700, codes "numeric")
    ∷ []

-- `pg_range` and `pg_attrdef`, which have no rows.
unfoldable pub pg_range : List (ℕ × ℕ)
pg_range = []

unfoldable pub pg_attrdef : List (ℕ × ℕ)
pg_attrdef = []

-- `current_schema()` and `pg_get_expr(...)`, as `init` registers them; `none` is NULL.
unfoldable pub current_schema : Text
current_schema = codes "public"

unfoldable pub pg_get_expr : Option Text → Option Text → Option Text
pg_get_expr node_tree relation = none
