-- ===== src/Pg/Extended/Describe.antt =====
-- cmd/execdb/pgextended.go: `handleDescribe`, `describeRowShape`, `rollbackDescribeSavepoint`; and
-- `isPGTypeByOIDLookupQuery` of cmd/execdb/pgcatalog.go.
use execdb.Prelude.{
  ℕ, Bool, true, false, ◌&&◌, Option, none, some, ◌==◌, if◌then◌else◌, List, [], ◌∷◌, ◌++◌, map,
  take, replicate, Text, codes, contains, Bytes, lookup, insert, inl, inr,
}
use execdb.Pg.Types.{Value, oid_oid, representative_value}
use execdb.Pg.Wire.{
  read_cstring, Reply, error_response, row_description, parameter_description, no_data,
  sqlstate_generic,
}
use execdb.Pg.Values.{quoted}
use execdb.Pg.Conn.{Driver, Rows, PreparedStatement, Portal, Conn, Handled, refuse}
use execdb.Pg.Extended.Statements.{named}
use execdb.Pg.Extended.Rows.{build_result_columns, oids_of}

-- `isPGTypeByOIDLookupQuery`.
unfoldable pub is_pg_type_by_oid_lookup_query : Text → Bool
unfolding contains
is_pg_type_by_oid_lookup_query query = contains query (codes "rngsubtype")

-- `oids` of the case 'S': what Parse declared, and 0 for the others.
abbrev pub declared_oids : PreparedStatement → List ℕ
declared_oids ps = take ps.num_params (ps.param_oids ++ replicate ps.num_params 0)

-- A single undeclared parameter.
abbrev pub is_one_unspecified : List ℕ → Bool
is_one_unspecified (oid ∷ []) = oid == 0
is_one_unspecified _ = false

-- The types that the statement keeps, and those that the answer has: the parameter of one query is
-- known, and kept.
unfoldable pub known_types : PreparedStatement → List ℕ × List ℕ
unfolding is_pg_type_by_oid_lookup_query
known_types ps =
    let oids = declared_oids ps in
    if is_one_unspecified oids && is_pg_type_by_oid_lookup_query ps.sql
    then (oid_oid ∷ [], oid_oid ∷ [])
    else (ps.param_oids, oids)

-- What `describeRowShape` comes to: `ok`, the OIDs, what was written, and the database.
abbrev pub Shape : Type 0 → Type 0
Shape S = Option (Bool × Option (List ℕ) × List Reply × S)

abbrev pub shape_error : {S : Type 0} → S → Text → Shape S
shape_error db message = some (false, none, error_response sqlstate_generic message ∷ [], db)

module _ (d : Driver) where
  abbrev S : Type 0
  S = d.State

  -- `rollbackDescribeSavepoint`, with the message of its error.
  unfoldable pub rollback_describe_savepoint : S → Option Text × S
  rollback_describe_savepoint db =
      let (rolled, db₁) = d.exec (codes "ROLLBACK TO execdb_describe") db in
      let (released, db₂) = d.exec (codes "RELEASE execdb_describe") db₁ in
      elim rolled [
        | inl message ↦ (some message, db₁)
        | inr _ ↦ (elim released [ inl message ↦ some message | inr _ ↦ none ], db₂)
      ]

  -- Behind the trial run and its rollback.
  unfoldable pub shape_of : List ℕ → Rows → S → Shape S
  unfolding build_result_columns
  shape_of formats rows db = elim rows.types [
    | inl message ↦ shape_error db message
    | inr cts ↦ elim (build_result_columns formats 0 cts) [
      | none ↦ none
      | some cols ↦ some (true, some (oids_of cols), row_description cols ∷ [], db)
    ]
  ]

  -- Behind the savepoint.
  unfoldable pub trial_run : PreparedStatement → List ℕ → List Value → S → Shape S
  unfolding rollback_describe_savepoint shape_of
  trial_run ps formats args db =
      let (run, db₁) = d.query_stmt ps.stmt args db in
      let (failed, db₂) = rollback_describe_savepoint db₁ in
      elim run [
        | inl message ↦ shape_error db₂ message
        | inr rows ↦ elim failed [
          | some message ↦ shape_error db₂ message
          | none ↦ shape_of formats rows db₂
        ]
      ]

  -- `describeRowShape`.
  unfoldable pub describe_row_shape : PreparedStatement → List ℕ → List Value → S → Shape S
  unfolding trial_run
  describe_row_shape ps formats args db =
      let (saved, db₁) = d.exec (codes "SAVEPOINT execdb_describe") db in
      let trial : Shape S = elim saved [
        | inl message ↦ shape_error db₁ message
        | inr _ ↦ trial_run ps formats args db₁
      ] in
      if ps.row_returning then trial else some (true, none, no_data ∷ [], db)

  -- The case 'S': the OIDs are kept with the statement.
  unfoldable pub describe_statement : Text → PreparedStatement → Conn S → Handled S
  unfolding known_types describe_row_shape insert representative_value
  describe_statement name found c =
      let (kept, oids) = known_types found in
      let ps : PreparedStatement = record found { param_oids = kept } in
      elim (describe_row_shape ps [] (map (representative_value d.zero_time) oids) c.db) [
        | none ↦ none
        | some (ok, roids, replies, db) ↦ some (
          ok,
          record c {
            statements = insert name (record ps { result_oids = roids }) c.statements;
            db = db;
          },
          parameter_description oids ∷ replies,
        )
      ]

  -- The case 'P': the OIDs are kept with the portal.
  unfoldable pub describe_portal : Text → Portal → PreparedStatement → Conn S → Handled S
  unfolding describe_row_shape insert
  describe_portal name p ps c = elim (describe_row_shape ps p.result_formats p.args c.db) [
    | none ↦ none
    | some (ok, poids, replies, db) ↦ some (
      ok,
      record c { portals = insert name (record p { result_oids = poids }) c.portals; db = db },
      replies,
    )
  ]

  abbrev pub no_statement : Text → Conn S → Handled S
  no_statement name c =
      refuse c sqlstate_generic (named (codes "prepared statement ") name (codes " does not exist"))

  abbrev pub no_portal : Text → Conn S → Handled S
  no_portal name c =
      refuse c sqlstate_generic (named (codes "portal ") name (codes " does not exist"))

  -- Behind the parsing of the message.
  unfoldable pub describe_target : ℕ → Text → Conn S → Handled S
  unfolding describe_statement describe_portal lookup quoted
  describe_target kind name c =
      let statement : Handled S = elim (lookup name c.statements) [
        | none ↦ no_statement name c
        | some ps ↦ describe_statement name ps c
      ] in
      let portal : Handled S = elim (lookup name c.portals) [
        | none ↦ no_portal name c
        | some p ↦ elim (lookup p.stmt_name c.statements) [
          | none ↦ no_statement p.stmt_name c
          | some ps ↦ describe_portal name p ps c
        ]
      ] in
      if kind == b'S'
      then statement
      else if kind == b'P'
      then portal
      else refuse c sqlstate_generic (codes "malformed Describe message: unknown target")

  -- `handleDescribe`.
  unfoldable pub handle_describe : Conn S → Bytes → Handled S
  unfolding read_cstring describe_target
  handle_describe c [] = refuse c sqlstate_generic (codes "malformed Describe message")
  handle_describe c (kind ∷ body) = elim (read_cstring body) [
    | none ↦ refuse c sqlstate_generic (codes "malformed Describe message")
    | some (name, _) ↦ describe_target kind name c
  ]
