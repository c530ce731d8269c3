-- ===== src/Pg/Dispatch/Invariant/Statements.antt =====
-- cmd/execdb/pgextended.go: an invariant through Parse, Bind and Close.
use execdb.Prelude.{
  ℕ, not, none, some, ◌==◌, List, [], ◌∷◌, length, ◌≡◌, inl, inr, Bytes, Text, lookup, eq_text,
  Option-cases, Bool-cases, Sum-cases,
}
use execdb.Sql.Access.{check_external_access}
use execdb.Pg.Wire.{read_cstring}
use execdb.Pg.Conn.{Driver, Conn, PreparedStatement}
use execdb.Pg.Extended.Statements.{
  handle_parse, handle_bind, handle_close, prepare_as, replace_statement, parse_statement,
  rewrite_pg_catalog_query, bind_statement, open_portal, close_target, close_statement, bound,
  unsupported, out_of_range, Bound, bind_args,
}
use execdb.Pg.Messages.{Bind, parse_parse_message, parse_bind_message}
use execdb.Pg.Dispatch.Invariant.{Invariant, HoldsConn, HoldsHandled, if-Holds}

module _ (d : Driver) (i : Invariant d) where
  prepare_new-Holds :
      (name query : Text) (oids : List ℕ) (c : Conn d.State)
      → check_external_access query ≡ none
      → lookup name c.statements ≡ none
      → HoldsConn d i c
      → HoldsHandled d i (prepare_as d name query oids c)
  unfolding prepare_as
  prepare_new-Holds name query oids c e f h = elim (Sum-cases (d.prepare query c.db).0) [
    | inl (m, p) ↦ rw (p, HoldsHandled, prepare_as) (i.unprepared c.statements c.db query m p h)
    | inr (stmt, p) ↦
        rw (p, HoldsHandled, prepare_as)
          (i.prepare_new c.statements c.db name query oids stmt e f p h)
  ]

  prepare_over-Holds :
      (name query : Text) (oids : List ℕ) (c : Conn d.State) (old : PreparedStatement)
      → check_external_access query ≡ none
      → lookup name c.statements ≡ some old
      → HoldsConn d i c
      → HoldsHandled d i
          (prepare_as d name query oids (record c { db = d.close_stmt old.stmt c.db }))
  unfolding prepare_as
  prepare_over-Holds name query oids c old e f h =
      let db = d.close_stmt old.stmt c.db in
      elim (Sum-cases (d.prepare query db).0) [
        | inl (m, p) ↦
            rw (p, HoldsHandled, prepare_as)
              (i.unprepared c.statements db query m p (i.close_stmt c.statements c.db old.stmt h))
        | inr (stmt, p) ↦
            rw (p, HoldsHandled, prepare_as)
              (i.prepare_over c.statements c.db name query oids stmt old e f p h)
      ]

  replace-Holds :
      (name query : Text) (oids : List ℕ) (c : Conn d.State)
      → check_external_access query ≡ none
      → HoldsConn d i c
      → HoldsHandled d i (replace_statement d name query oids c)
  unfolding replace_statement
  replace-Holds name query oids c e h = elim (Option-cases (lookup name c.statements)) [
    | inl p ↦ rw (p, HoldsHandled, replace_statement) (prepare_new-Holds name query oids c e p h)
    | inr (old, p) ↦
        rw (p, HoldsHandled, replace_statement)
          (elim (Bool-cases (eq_text name [])) [
            | inl q ↦
                rw (q, HoldsHandled, replace_statement)
                  (prepare_over-Holds name query oids c old e p h)
            | inr q ↦ rw (q, HoldsHandled, replace_statement) h
          ])
  ]

  parse-Holds :
      (name query : Text) (oids : List ℕ) (c : Conn d.State)
      → HoldsConn d i c
      → HoldsHandled d i (parse_statement d name query oids c)
  unfolding parse_statement
  parse-Holds name query oids c h = elim (Option-cases (check_external_access query)) [
    | inl p ↦ rw (p, HoldsHandled, parse_statement) (replace-Holds name query oids c p h)
    | inr (old, p) ↦ rw (p, HoldsHandled, parse_statement) h
  ]

  pub handle_parse-Holds :
      (c : Conn d.State) (body : Bytes) → HoldsConn d i c → HoldsHandled d i (handle_parse d c body)
  unfolding handle_parse
  handle_parse-Holds c body h = elim (Option-cases (parse_parse_message body)) [
    | inl p ↦ rw (p, HoldsHandled, handle_parse) h
    | inr ((name, query, oids), p) ↦
        rw (p, HoldsHandled, handle_parse)
          (parse-Holds name (rewrite_pg_catalog_query query) oids c h)
  ]

  open_portal-Holds :
      (b : Bind) (args : Bound) (c : Conn d.State)
      → HoldsConn d i c
      → HoldsHandled d i (open_portal d b args c)
  unfolding open_portal
  open_portal-Holds b out_of_range c h = tt
  open_portal-Holds b (unsupported j oid) c h = h
  open_portal-Holds b (bound args) c h = elim (Option-cases (lookup b.portal_name c.portals)) [
    | inl p ↦ rw (p, HoldsHandled, open_portal) h
    | inr (old, p) ↦
        rw (p, HoldsHandled, open_portal)
          (elim (Bool-cases (eq_text b.portal_name [])) [
            | inl q ↦ rw (q, HoldsHandled, open_portal) h
            | inr q ↦ rw (q, HoldsHandled, open_portal) h
          ])
  ]

  bind_statement-Holds :
      (b : Bind) (ps : PreparedStatement) (c : Conn d.State)
      → HoldsConn d i c
      → HoldsHandled d i (bind_statement d b ps c)
  unfolding bind_statement
  bind_statement-Holds b ps c h =
      if-Holds d i (not (length b.param_values == ps.num_params)) _ _ h
        (open_portal-Holds b (bind_args d b.param_formats ps.param_oids 0 b.param_values) c h)

  pub handle_bind-Holds :
      (c : Conn d.State) (body : Bytes) → HoldsConn d i c → HoldsHandled d i (handle_bind d c body)
  unfolding handle_bind
  handle_bind-Holds c body h = elim (Option-cases (parse_bind_message body)) [
    | inl p ↦ rw (p, HoldsHandled, handle_bind) h
    | inr (b, p) ↦
        rw (p, HoldsHandled, handle_bind)
          (elim (Option-cases (lookup b.stmt_name c.statements)) [
            | inl q ↦ rw (q, HoldsHandled, handle_bind) h
            | inr (ps, q) ↦ rw (q, HoldsHandled, handle_bind) (bind_statement-Holds b ps c h)
          ])
  ]

  close_statement-Holds :
      (name : Text) (c : Conn d.State) → HoldsConn d i c → HoldsConn d i (close_statement d name c)
  unfolding close_statement
  close_statement-Holds name c h = elim (Option-cases (lookup name c.statements)) [
    | inl p ↦ rw (p, HoldsConn, close_statement) h
    | inr (ps, p) ↦ rw (p, HoldsConn, close_statement) (i.delete_stmt c.statements c.db name ps p h)
  ]

  pub handle_close-Holds :
      (c : Conn d.State) (body : Bytes) → HoldsConn d i c → HoldsHandled d i (handle_close d c body)
  unfolding handle_close close_target
  handle_close-Holds c [] h = h
  handle_close-Holds c (kind ∷ body) h = elim (Option-cases (read_cstring body)) [
    | inl p ↦ rw (p, HoldsHandled, handle_close) h
    | inr ((name, rest), p) ↦
        rw (p, HoldsHandled, handle_close)
          (if-Holds d i (kind == b'S') _ _ (close_statement-Holds name c h)
            (if-Holds d i (kind == b'P') _ _ h h))
  ]
