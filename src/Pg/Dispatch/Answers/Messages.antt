-- ===== src/Pg/Dispatch/Answers/Messages.antt =====
-- cmd/execdb/pgextended.go and cmd/execdb/pgwire.go: the answers to messages, and how many there are.
use execdb.Prelude.{
  ℕ, Bool, true, false, none, some, List, [], ◌∷◌, ◌≡◌, refl, arith, Bytes, Text, lookup, inl, inr,
  map, Sum-cases, Option-cases,
}
use execdb.Sql.Keyword.{first_keyword}
use execdb.Pg.Wire.{read_cstring, Message}
use execdb.Pg.Types.{Value, representative_value}
use execdb.Pg.Conn.{Driver, Conn, Handled, PreparedStatement, Portal, Rows}
use execdb.Pg.Extended.Describe.{
  handle_describe, describe_target, describe_statement, describe_portal, known_types,
  describe_row_shape, trial_run, shape_of, Shape,
}
use execdb.Pg.Extended.Execute.{
  handle_execute, execute_portal, settle, run_rows, run_exec, send_result, result_columns,
}
use execdb.Pg.Dispatch.{handle_extended}
use execdb.Pg.Dispatch.Answers.{
  count, answers, answered, send_data_rows-answers, handle_parse-answered, handle_bind-answered,
  handle_close-answered,
}

-- What `describeRowShape` writes.
unfoldable shaped : {S : Type 0} → Shape S → Bool
unfolding answers
shaped none = true
shaped (some (ok, oids, replies, db)) = answers ok replies

module _ (d : Driver) where
  shape_of-shaped :
      (formats : List ℕ) (rows : Rows) (db : d.State) → shaped (shape_of d formats rows db) ≡ true
  unfolding shape_of shaped answers count
  shape_of-shaped formats rows db = ground arith

  trial_run-shaped :
      (ps : PreparedStatement) (formats : List ℕ) (args : List Value) (db : d.State)
      → shaped (trial_run d ps formats args db) ≡ true
  unfolding trial_run shaped answers count
  trial_run-shaped ps formats args db =
      ground (arith, λ (rows : Rows) (db : d.State). shape_of-shaped formats rows db)

  describe_row_shape-shaped :
      (ps : PreparedStatement) (formats : List ℕ) (args : List Value) (db : d.State)
      → shaped (describe_row_shape d ps formats args db) ≡ true
  unfolding describe_row_shape shaped answers count
  describe_row_shape-shaped ps formats args db =
      ground (arith, λ (db : d.State). trial_run-shaped ps formats args db)

  describe_statement-answered :
      (name : Text) (found : PreparedStatement) (c : Conn d.State)
      → answered (describe_statement d name found c) ≡ true
  unfolding describe_statement answered shaped answers count
  describe_statement-answered name found c =
      let kept = (known_types found).0 in
      let args = map (representative_value d.zero_time) (known_types found).1 in
      let ps : PreparedStatement = record found { param_oids = kept } in
      ground (arith, describe_row_shape-shaped ps [] args c.db)

  describe_portal-answered :
      (name : Text) (p : Portal) (ps : PreparedStatement) (c : Conn d.State)
      → answered (describe_portal d name p ps c) ≡ true
  unfolding describe_portal answered shaped answers count
  describe_portal-answered name p ps c =
      ground (arith, describe_row_shape-shaped ps p.result_formats p.args c.db)

  handle_describe-answered :
      (c : Conn d.State) (body : Bytes) → answered (handle_describe d c body) ≡ true
  unfolding handle_describe describe_target answered answers count
  handle_describe-answered c [] = refl
  handle_describe-answered c (kind ∷ body) = ground (
    arith,
    λ (name : Text) (ps : PreparedStatement). describe_statement-answered name ps c,
    λ (name : Text) (p : Portal) (ps : PreparedStatement). describe_portal-answered name p ps c,
  )

  send_result-answered :
      (p : Portal) (ps : PreparedStatement) (rows : Rows) (c : Conn d.State)
      → answered (send_result d p ps rows c) ≡ true
  unfolding send_result answered answers count
  send_result-answered p ps rows c = elim (Option-cases (result_columns p ps rows)) [
    | inl q ↦ rw (q, answered, send_result) refl
    | inr (inl message, q) ↦ rw (q, answered, send_result) refl
    | inr (inr cols, q) ↦ rw (q, answered, send_result) (send_data_rows-answers d.formats cols rows)
  ]

  run_rows-answered :
      (p : Portal) (ps : PreparedStatement) (c : Conn d.State) → answered (run_rows d p ps c) ≡ true
  unfolding run_rows answered answers count
  run_rows-answered p ps c =
      let db = (d.query_stmt ps.stmt p.args c.db).1 in
      elim (Sum-cases (d.query_stmt ps.stmt p.args c.db).0) [
        | inl (message, q) ↦ rw (q, answered, run_rows) refl
        | inr (rows, q) ↦
            rw (q, answered, run_rows) (send_result-answered p ps rows (record c { db = db }))
      ]

  run_exec-answered :
      (p : Portal) (ps : PreparedStatement) (c : Conn d.State) → answered (run_exec d p ps c) ≡ true
  unfolding run_exec answered answers count
  run_exec-answered p ps c = ground arith

  settle-answered :
      (kw : Text) (r : Handled d.State) → answered r ≡ true → answered (settle d kw r) ≡ true
  unfolding settle answered answers count
  settle-answered kw none h = h
  settle-answered kw (some (true, c, replies)) h = h
  settle-answered kw (some (false, c, replies)) h = h

  execute_portal-answered :
      (p : Portal) (ps : PreparedStatement) (c : Conn d.State)
      → answered (execute_portal d p ps c) ≡ true
  unfolding execute_portal answered answers count
  execute_portal-answered p ps c =
      let kw = first_keyword ps.sql in
      let rows = settle-answered kw (run_rows d p ps c) (run_rows-answered p ps c) in
      let exec = settle-answered kw (run_exec d p ps c) (run_exec-answered p ps c) in
      ground (arith, rows, exec)

  handle_execute-answered :
      (c : Conn d.State) (body : Bytes) → answered (handle_execute d c body) ≡ true
  unfolding handle_execute answered answers count
  handle_execute-answered c body = elim (Option-cases (read_cstring body)) [
    | inl q ↦ rw (q, answered, handle_execute) refl
    | inr ((name, rest), q) ↦
        rw (q, answered, handle_execute)
          (elim (Option-cases (lookup name c.portals)) [
            | inl q ↦ rw (q, answered, handle_execute) refl
            | inr (p, q) ↦
                rw (q, answered, handle_execute)
                  (elim (Option-cases (lookup p.stmt_name c.statements)) [
                    | inl q ↦ rw (q, answered, handle_execute) refl
                    | inr (ps, q) ↦
                        rw (q, answered, handle_execute) (execute_portal-answered p ps c)
                  ])
          ])
  ]

  -- A handler that fails sends one error, one that succeeds sends none, and neither sends a
  -- ReadyForQuery.
  pub handle_extended-answered :
      (c : Conn d.State) (msg : Message) → answered (handle_extended d c msg) ≡ true
  unfolding handle_extended answered answers count
  handle_extended-answered c msg =
      let parse = handle_parse-answered d c msg.body in
      let bind = handle_bind-answered d c msg.body in
      let describe = handle_describe-answered c msg.body in
      let execute = handle_execute-answered c msg.body in
      let close = handle_close-answered d c msg.body in
      ground (arith, parse, bind, describe, execute, close)
