-- ===== src/Pg/Extended/Statements.antt =====
-- cmd/execdb/pgextended.go: `handleParse`, `handleBind`, `handleClose`, `closeAll`; and
-- `rewritePGCatalogQuery` of cmd/execdb/pgcatalog.go.
use execdb.Prelude.{
  ℕ, zero, suc, ◌+◌, ◌-◌, not, Option, none, some, ◌==◌, if◌then◌else◌, List, [], ◌∷◌, ◌++◌,
  get_elem?, length, Text, codes, eq_text, has_prefix, Bytes, Map, lookup, insert, delete, inl, inr,
}
use execdb.Sql.Keyword.{looks_like_row_returning}
use execdb.Sql.Access.{check_external_access, denied_message}
use execdb.Pg.Types.{Value, null, string, decode_binary_param}
use execdb.Pg.Wire.{
  read_cstring, parse_complete, bind_complete, close_complete, sqlstate_generic,
  sqlstate_insufficient_privilege,
}
use execdb.Pg.Messages.{
  parse_parse_message, parse_bind_message, Bind, format_code_for, count_placeholders,
}
use execdb.Pg.Values.{quoted, decimal}
use execdb.Pg.Conn.{Driver, PreparedStatement, Portal, Conn, Handled, refuse, accept}

-- `strings.ReplaceAll(s, p, "")`, with the runes of a match that are still to skip.
unfoldable pub remove_all : Text → ℕ → Text → Text
unfolding has_prefix
remove_all p skip [] = []
remove_all p (suc skip) (c ∷ s) = remove_all p skip s
remove_all p zero (c ∷ s) =
    if has_prefix (c ∷ s) p then remove_all p (length p - 1) s else c ∷ remove_all p zero s

-- `rewritePGCatalogQuery`.
unfoldable pub rewrite_pg_catalog_query : Text → Text
unfolding remove_all
rewrite_pg_catalog_query query = remove_all (codes "pg_catalog.") zero query

-- `prepared statement %q does not exist`, and the like.
abbrev pub named : Text → Text → Text → Text
named what name rest = what ++ (quoted name ++ rest)

-- What the decoding of the parameters comes to.
pub data Bound : Type 0 where
  bound : List Value → Bound
  unsupported : ℕ → ℕ → Bound  -- a parameter, from 1, and its type
  out_of_range : Bound

abbrev pub bind_next : Value → Bound → Bound
bind_next v (bound vs) = bound (v ∷ vs)
bind_next v b = b

module _ (d : Driver) where
  abbrev S : Type 0
  S = d.State

  -- Behind the closing of the statement that had the name: `PrepareContext` and what follows.
  unfoldable pub prepare_as : Text → Text → List ℕ → Conn S → Handled S
  unfolding count_placeholders looks_like_row_returning insert
  prepare_as name query param_oids c =
      let (prepared, db) = d.prepare query c.db in
      elim prepared [
        | inl message ↦ refuse (record c { db = db }) sqlstate_generic message
        | inr stmt ↦
            let ps : PreparedStatement = record {
              sql = query;
              stmt = stmt;
              num_params = count_placeholders query;
              row_returning = looks_like_row_returning query;
              param_oids = param_oids;
              result_oids = none;
            } in
            accept (record c { statements = insert name ps c.statements; db = db })
              (parse_complete ∷ [])
      ]

  -- Behind the check of the access: a named statement must not exist, the unnamed one is closed.
  unfoldable pub replace_statement : Text → Text → List ℕ → Conn S → Handled S
  unfolding prepare_as eq_text lookup quoted
  replace_statement name query param_oids c = elim (lookup name c.statements) [
    | none ↦ prepare_as name query param_oids c
    | some old ↦
        if not (eq_text name [])
        then refuse c sqlstate_generic
            (named (codes "prepared statement ") name (codes " already exists"))
        else prepare_as name query param_oids (record c { db = d.close_stmt old.stmt c.db })
  ]

  -- Behind the parsing of the message.
  unfoldable pub parse_statement : Text → Text → List ℕ → Conn S → Handled S
  unfolding check_external_access denied_message replace_statement
  parse_statement name query param_oids c = elim (check_external_access query) [
    | some denied ↦ refuse c sqlstate_insufficient_privilege (denied_message denied)
    | none ↦ replace_statement name query param_oids c
  ]

  -- `handleParse`.
  unfoldable pub handle_parse : Conn S → Bytes → Handled S
  unfolding parse_parse_message parse_statement rewrite_pg_catalog_query
  handle_parse c body = elim (parse_parse_message body) [
    | none ↦ refuse c sqlstate_generic (codes "malformed Parse message")
    | some (name, query, param_oids) ↦
        parse_statement name (rewrite_pg_catalog_query query) param_oids c
  ]

  -- The declared type of a parameter, 0 beyond those that Parse declared.
  abbrev pub oid_at : List ℕ → ℕ → ℕ
  oid_at oids j = elim (get_elem? oids j) [ none ↦ 0 | some oid ↦ oid ]

  -- The loop over the values of the parameters, from the `j`th on.
  unfoldable pub bind_args : List ℕ → List ℕ → ℕ → List (Option Bytes) → Bound
  unfolding format_code_for decode_binary_param
  bind_args formats oids j [] = bound []
  bind_args formats oids j (none ∷ vs) = bind_next null (bind_args formats oids (j + 1) vs)
  bind_args formats oids j (some v ∷ vs) =
      let rest = bind_args formats oids (j + 1) vs in
      elim (format_code_for formats j) [
        | none ↦ out_of_range
        | some code ↦
            if not (code == 1)
            then bind_next (string v) rest
            else elim (decode_binary_param d.widen (oid_at oids j) v) [
              | none ↦ unsupported (j + 1) (oid_at oids j)
              | some val ↦ bind_next val rest
            ]
      ]

  -- Behind the decoding of the parameters.
  unfoldable pub open_portal : Bind → Bound → Conn S → Handled S
  unfolding lookup insert eq_text quoted decimal
  open_portal b out_of_range c = none
  open_portal b (unsupported j oid) c = refuse c sqlstate_generic (
      codes "binary-format parameter "
      ++ (decimal j
          ++ (codes " has an unsupported or unspecified type (OID " ++ (decimal oid ++ codes ")"))))
  open_portal b (bound args) c =
      let p : Portal = record {
        stmt_name = b.stmt_name;
        args = args;
        result_formats = b.result_formats;
        result_oids = none;
      } in
      let opened =
        accept (record c { portals = insert b.portal_name p c.portals }) (bind_complete ∷ []) in
      elim (lookup b.portal_name c.portals) [
        | none ↦ opened
        | some _ ↦
            if not (eq_text b.portal_name [])
            then refuse c sqlstate_generic
                (named (codes "portal ") b.portal_name (codes " already exists"))
            else opened
      ]

  -- Behind the lookup of the statement.
  unfoldable pub bind_statement : Bind → PreparedStatement → Conn S → Handled S
  unfolding bind_args open_portal decimal quoted
  bind_statement b ps c =
      if not (length b.param_values == ps.num_params)
      then refuse c sqlstate_generic (
          codes "bind message supplies "
          ++ (decimal (length b.param_values)
              ++ named (codes " parameters, but prepared statement ") b.stmt_name
                  (codes " requires " ++ decimal ps.num_params)))
      else open_portal b (bind_args b.param_formats ps.param_oids 0 b.param_values) c

  -- `handleBind`.
  unfoldable pub handle_bind : Conn S → Bytes → Handled S
  unfolding parse_bind_message lookup bind_statement quoted
  handle_bind c body = elim (parse_bind_message body) [
    | none ↦ refuse c sqlstate_generic (codes "malformed Bind message")
    | some b ↦ elim (lookup b.stmt_name c.statements) [
      | none ↦
          refuse c sqlstate_generic
            (named (codes "prepared statement ") b.stmt_name (codes " does not exist"))
      | some ps ↦ bind_statement b ps c
    ]
  ]

  -- The statement's handle is closed and its name is free again; nothing happens where there is
  -- none.
  unfoldable pub close_statement : Text → Conn S → Conn S
  unfolding lookup delete
  close_statement name c = elim (lookup name c.statements) [
    | none ↦ c
    | some ps ↦ record c { statements = delete name c.statements; db = d.close_stmt ps.stmt c.db }
  ]

  -- Behind the parsing of the message.
  unfoldable pub close_target : ℕ → Text → Conn S → Handled S
  unfolding close_statement delete
  close_target kind name c =
      if kind == b'S'
      then accept (close_statement name c) (close_complete ∷ [])
      else if kind == b'P'
      then accept (record c { portals = delete name c.portals }) (close_complete ∷ [])
      else refuse c sqlstate_generic (codes "malformed Close message: unknown target")

  -- `handleClose`.
  unfoldable pub handle_close : Conn S → Bytes → Handled S
  unfolding read_cstring close_target
  handle_close c [] = refuse c sqlstate_generic (codes "malformed Close message")
  handle_close c (kind ∷ body) = elim (read_cstring body) [
    | none ↦ refuse c sqlstate_generic (codes "malformed Close message")
    | some (name, _) ↦ close_target kind name c
  ]

  unfoldable pub close_stmts : Map PreparedStatement → S → S
  close_stmts [] db = db
  close_stmts ((name, ps) ∷ statements) db = close_stmts statements (d.close_stmt ps.stmt db)

  -- `closeAll`; the order of a Go map is any.
  unfoldable pub close_all : Conn S → S
  unfolding close_stmts
  close_all c = close_stmts c.statements c.db
