-- ===== src/Pg/Catalog/Joins.antt =====
-- cmd/execdb/pgcatalog.go: `pg_attribute` beside `pg_class` and `pg_type`, as a client joins them.
use execdb.Prelude.{
  ℕ, Bool, true, false, if◌then◌else◌, ◌==◌, ◌||◌, List, [], ◌∷◌, ◌++◌, map, All, Text, ◌≡◌, ◌≢◌,
  refl, arith, append-nil,
}
use execdb.Pg.Catalog.{
  Object, Class, class_of, ColumnInfo, Attribute, is_listed, attribute_of, attributes_of,
  pg_attribute, pg_class, pg_type, att_type_id, pg_namespace, current_schema,
}

-- `WHERE attrelid = oid`.
unfoldable pub of_relation : ℕ → List Attribute → List Attribute
of_relation oid [] = []
of_relation oid (a ∷ attributes) =
    let rest = of_relation oid attributes in if a.attrelid == oid then a ∷ rest else rest

of_relation-append :
    (oid : ℕ) (xs ys : List Attribute)
    → of_relation oid (xs ++ ys) ≡ of_relation oid xs ++ of_relation oid ys
unfolding of_relation
of_relation-append oid [] ys = refl
of_relation-append oid (x ∷ xs) ys = ground (arith, of_relation-append oid xs ys)

of_relation-own :
    (rowid : ℕ) (columns : List ColumnInfo)
    → of_relation rowid (map (attribute_of rowid) columns) ≡ map (attribute_of rowid) columns
unfolding of_relation attribute_of
of_relation-own rowid [] = refl
of_relation-own rowid (p ∷ columns) = ground (arith, of_relation-own rowid columns)

of_relation-other :
    (oid rowid : ℕ) (columns : List ColumnInfo)
    → rowid ≢ oid
    → of_relation oid (map (attribute_of rowid) columns) ≡ []
unfolding of_relation attribute_of
of_relation-other oid rowid [] h = refl
of_relation-other oid rowid (p ∷ columns) h =
    ground (arith, h, of_relation-other oid rowid columns h)

-- No object of the list has the row number.
abbrev pub NoneHas : ℕ → List Object → Type 0
NoneHas oid objects = All (λ m. m.rowid ≢ oid) objects

of_relation-none :
    (oid : ℕ) (objects : List Object)
    → NoneHas oid objects
    → of_relation oid (pg_attribute objects) ≡ []
unfolding pg_attribute attributes_of of_relation
of_relation-none oid [] h = refl
of_relation-none oid (m ∷ objects) h =
    let split = of_relation-append oid (attributes_of m) (pg_attribute objects) in
    let head = of_relation-other oid m.rowid m.columns h.0 in
    let tail = of_relation-none oid objects h.1 in ground (arith, split, head, tail)

-- Where row numbers are distinct, the attributes with the row number of a listed table or view are
-- those of its columns, all of them, in their order.
pub of_relation-pg_attribute :
    (before : List Object) (m : Object) (after : List Object)
    → is_listed m ≡ true
    → NoneHas m.rowid before
    → NoneHas m.rowid after
    → of_relation m.rowid (pg_attribute (before ++ (m ∷ after)))
      ≡ map (attribute_of m.rowid) m.columns
unfolding pg_attribute attributes_of
of_relation-pg_attribute [] m after listed b a =
    let split = of_relation-append m.rowid (attributes_of m) (pg_attribute after) in
    let own = of_relation-own m.rowid m.columns in
    let tail = of_relation-none m.rowid after a in
    ground (arith, listed, split, own, tail, append-nil (attributes_of m))
of_relation-pg_attribute (o ∷ before) m after listed b a =
    let rest = pg_attribute (before ++ (m ∷ after)) in
    let split = of_relation-append m.rowid (attributes_of o) rest in
    let head = of_relation-other m.rowid o.rowid o.columns b.0 in
    let tail = of_relation-pg_attribute before m after listed b.1 a in
    ground (arith, split, head, tail)

-- Some row has the number.
unfoldable pub has_class : ℕ → List Class → Bool
has_class oid [] = false
has_class oid (c ∷ classes) = c.oid == oid || has_class oid classes

unfoldable pub has_type : ℕ → List (ℕ × Text) → Bool
has_type oid [] = false
has_type oid ((typ, typname) ∷ types) = typ == oid || has_type oid types

-- The row joins one of `pg_type`, and one of `pg_class`.
abbrev pub Joins : List Class → Attribute → Type 0
Joins classes a = (has_type a.atttypid pg_type ≡ true) × (has_class a.attrelid classes ≡ true)

att_type_id-has_type : (decl : Text) → has_type (att_type_id decl) pg_type ≡ true
unfolding att_type_id has_type
att_type_id-has_type decl = ground arith

own-Joins :
    (m : Object) (columns : List ColumnInfo) (classes : List Class)
    → All (Joins (class_of m ∷ classes)) (map (attribute_of m.rowid) columns)
unfolding attribute_of has_class
own-Joins m [] classes = tt
own-Joins m (p ∷ columns) classes =
    ((att_type_id-has_type p.decl, ground arith), own-Joins m columns classes)

also-Joins :
    (c : Class) (classes : List Class) (attributes : List Attribute)
    → All (Joins classes) attributes
    → All (Joins (c ∷ classes)) attributes
unfolding has_class
also-Joins c classes [] h = tt
also-Joins c classes (a ∷ attributes) h =
    ((h.0.0, ground (arith, h.0.1)), also-Joins c classes attributes h.1)

append-Joins :
    (classes : List Class) (xs ys : List Attribute)
    → All (Joins classes) xs
    → All (Joins classes) ys
    → All (Joins classes) (xs ++ ys)
append-Joins classes [] ys h k = k
append-Joins classes (x ∷ xs) ys h k = (h.0, append-Joins classes xs ys h.1 k)

pg_attribute-Joins : (objects : List Object) → All (Joins (pg_class objects)) (pg_attribute objects)
unfolding pg_attribute pg_class attributes_of
pg_attribute-Joins [] = tt
pg_attribute-Joins (m ∷ objects) =
    let rest = pg_attribute-Joins objects in
    elim (is_listed m)
      as (λ b.
        All (Joins (if b then class_of m ∷ pg_class objects else pg_class objects))
          (if b then attributes_of m ++ pg_attribute objects else pg_attribute objects)) [
            | true ↦
                append-Joins (class_of m ∷ pg_class objects) (attributes_of m)
                  (pg_attribute objects) (own-Joins m m.columns (pg_class objects))
                  (also-Joins (class_of m) (pg_class objects) (pg_attribute objects) rest)
            | false ↦ rest
          ]

-- The row joins the one of `pg_namespace` that `current_schema()` names.
abbrev pub InSchema : Class → Type 0
InSchema c = pg_namespace ≡ (c.relnamespace, current_schema) ∷ []

pg_class-InSchema : (objects : List Object) → All InSchema (pg_class objects)
unfolding pg_class pg_namespace current_schema
pg_class-InSchema [] = tt
pg_class-InSchema (m ∷ objects) =
    elim (is_listed m)
      as (λ b. All InSchema (if b then class_of m ∷ pg_class objects else pg_class objects)) [
        | true ↦ (refl, pg_class-InSchema objects)
        | false ↦ pg_class-InSchema objects
      ]

-- Whatever the schema: each attribute has the type of a row of `pg_type` and the number of a row of
-- `pg_class`, and each of these rows is in the only namespace, which `current_schema()` names.
pub pg_catalog-Joins :
    (objects : List Object)
    → All (Joins (pg_class objects)) (pg_attribute objects) × All InSchema (pg_class objects)
pg_catalog-Joins objects = (pg_attribute-Joins objects, pg_class-InSchema objects)
