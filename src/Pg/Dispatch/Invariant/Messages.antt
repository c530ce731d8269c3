-- ===== src/Pg/Dispatch/Invariant/Messages.antt =====
-- cmd/execdb/pgwire.go: an invariant through the handling of messages.
use execdb.Prelude.{
  Bool, true, false, none, some, ◌==◌, if◌then◌else◌, List, [], ◌∷◌, inl, inr, Bytes, Text, lookup,
  Option-cases, Bool-cases, Sum-cases, trim_space, is_blank, Map,
}
use mathlib.Core.Path.{subst}
use execdb.Sql.Access.{check_external_access}
use execdb.Sql.Keyword.{first_keyword, looks_like_row_returning}
use execdb.Sql.Scan.{split_statements}
use execdb.Pg.Wire.{Message, read_cstring, cstring_from_body}
use execdb.Pg.Conn.{Driver, Conn, Handled, PreparedStatement, Portal, Rows}
use execdb.Pg.Session.{handle_session_command}
use execdb.Pg.Extended.Statements.{rewrite_pg_catalog_query}
use execdb.Pg.Extended.Execute.{
  handle_execute, execute_portal, settle, run_rows, run_exec, send_result, result_columns,
  is_refused,
}
use execdb.Pg.Dispatch.{
  dispatch, run, goes_on, ends, crashes, Outcome, is_extended, handle_extended, after_handler,
  handle_simple_query, run_query, run_statements, run_statement, exec_one_statement, Outcome-cases,
}
use execdb.Pg.Dispatch.Invariant.{Invariant, HoldsConn, HoldsHandled, if-Holds}
use execdb.Pg.Dispatch.Invariant.Statements.{
  handle_parse-Holds, handle_bind-Holds, handle_close-Holds,
}
use execdb.Pg.Dispatch.Invariant.Describe.{handle_describe-Holds}

module _ (d : Driver) (i : Invariant d) where
  send_result-Holds :
      (p : Portal) (ps : PreparedStatement) (rows : Rows) (c : Conn d.State)
      → HoldsConn d i c
      → HoldsHandled d i (send_result d p ps rows c)
  unfolding send_result
  send_result-Holds p ps rows c h = elim (Option-cases (result_columns p ps rows)) [
    | inl q ↦ rw (q, HoldsHandled, send_result) tt
    | inr (inl e, q) ↦ rw (q, HoldsHandled, send_result) h
    | inr (inr cols, q) ↦ rw (q, HoldsHandled, send_result) h
  ]

  run_rows-Holds :
      (p : Portal) (ps : PreparedStatement) (c : Conn d.State)
      → HoldsConn d i c
      → HoldsHandled d i (run_rows d p ps c)
  unfolding run_rows
  run_rows-Holds p ps c h =
      let k = i.query_stmt c.statements c.db ps.stmt p.args h in
      elim (Sum-cases (d.query_stmt ps.stmt p.args c.db).0) [
        | inl (e, q) ↦ rw (q, HoldsHandled, run_rows) k
        | inr (rows, q) ↦
            rw (q, HoldsHandled, run_rows)
              (send_result-Holds p ps rows (record c { db = (d.query_stmt ps.stmt p.args c.db).1 })
                k)
      ]

  run_exec-Holds :
      (p : Portal) (ps : PreparedStatement) (c : Conn d.State)
      → HoldsConn d i c
      → HoldsHandled d i (run_exec d p ps c)
  unfolding run_exec
  run_exec-Holds p ps c h =
      let k = i.exec_stmt c.statements c.db ps.stmt p.args h in
      elim (Sum-cases (d.exec_stmt ps.stmt p.args c.db).0) [
        | inl (e, q) ↦ rw (q, HoldsHandled, run_exec) k
        | inr (n, q) ↦ rw (q, HoldsHandled, run_exec) k
      ]

  settle-Holds :
      (kw : Text) (r : Handled d.State) → HoldsHandled d i r → HoldsHandled d i (settle d kw r)
  unfolding settle
  settle-Holds kw none h = h
  settle-Holds kw (some (false, c, replies)) h = h
  settle-Holds kw (some (true, c, replies)) h = h

  execute_portal-Holds :
      (p : Portal) (ps : PreparedStatement) (c : Conn d.State)
      → HoldsConn d i c
      → HoldsHandled d i (execute_portal d p ps c)
  unfolding execute_portal
  execute_portal-Holds p ps c h =
      let kw = first_keyword ps.sql in
      if-Holds d i (is_refused c.tx_state kw) _ _ h (
        settle-Holds kw _
          (if-Holds d i ps.row_returning _ _ (run_rows-Holds p ps c h) (run_exec-Holds p ps c h)))

  handle_execute-Holds :
      (c : Conn d.State) (body : Bytes)
      → HoldsConn d i c
      → HoldsHandled d i (handle_execute d c body)
  unfolding handle_execute
  handle_execute-Holds c body h = elim (Option-cases (read_cstring body)) [
    | inl q ↦ rw (q, HoldsHandled, handle_execute) h
    | inr ((name, rest), q) ↦
        rw (q, HoldsHandled, handle_execute)
          (elim (Option-cases (lookup name c.portals)) [
            | inl q ↦ rw (q, HoldsHandled, handle_execute) h
            | inr (p, q) ↦
                rw (q, HoldsHandled, handle_execute)
                  (elim (Option-cases (lookup p.stmt_name c.statements)) [
                    | inl q ↦ rw (q, HoldsHandled, handle_execute) h
                    | inr (ps, q) ↦
                        rw (q, HoldsHandled, handle_execute) (execute_portal-Holds p ps c h)
                  ])
          ])
  ]

  handle_extended-Holds :
      (c : Conn d.State) (msg : Message)
      → HoldsConn d i c
      → HoldsHandled d i (handle_extended d c msg)
  unfolding handle_extended
  handle_extended-Holds c msg h =
      if-Holds d i (msg.kind == b'P') _ _ (handle_parse-Holds d i c msg.body h) (
        if-Holds d i (msg.kind == b'B') _ _ (handle_bind-Holds d i c msg.body h) (
          if-Holds d i (msg.kind == b'D') _ _ (handle_describe-Holds d i c msg.body h) (
            if-Holds d i (msg.kind == b'E') _ _ (handle_execute-Holds c msg.body h)
              (if-Holds d i (msg.kind == b'C') _ _ (handle_close-Holds d i c msg.body h) h))))

  exec_one_statement-Holds :
      (m : Map PreparedStatement) (stmt : Text) (db : d.State)
      → i.Holds m db
      → i.Holds m (exec_one_statement d stmt db).2
  unfolding exec_one_statement
  exec_one_statement-Holds m stmt db h =
      elim (Bool-cases (looks_like_row_returning (trim_space stmt))) [
        | inl r ↦ elim (Sum-cases (d.query stmt db).0) [
          | inl (e, q) ↦
              rw (r, exec_one_statement) (rw (q, exec_one_statement) (i.query m db stmt h))
          | inr (e, q) ↦
              rw (r, exec_one_statement) (rw (q, exec_one_statement) (i.query m db stmt h))
        ]
        | inr r ↦ elim (Sum-cases (d.exec stmt db).0) [
          | inl (e, q) ↦
              rw (r, exec_one_statement) (rw (q, exec_one_statement) (i.exec m db stmt h))
          | inr (e, q) ↦
              rw (r, exec_one_statement) (rw (q, exec_one_statement) (i.exec m db stmt h))
        ]
      ]

  run_statement-Holds :
      (stmt : Text) (c : Conn d.State) → HoldsConn d i c → HoldsConn d i (run_statement d stmt c).1
  unfolding run_statement
  run_statement-Holds stmt c h =
      let trimmed = trim_space stmt in
      let kw = first_keyword trimmed in
      let k = exec_one_statement-Holds c.statements stmt c.db h in
      elim (Bool-cases (is_refused c.tx_state kw)) [
        | inl r ↦ rw (r, run_statement) h
        | inr r ↦
            rw (r, run_statement)
              (elim (Option-cases (handle_session_command c.params kw trimmed)) [
                | inr ((params, said), q) ↦ rw (q, run_statement) h
                | inl q ↦
                    rw (q, run_statement)
                      (elim (Bool-cases (exec_one_statement d stmt c.db).0) [
                        | inl o ↦ rw (o, run_statement) k
                        | inr o ↦ rw (o, run_statement) k
                      ])
              ])
      ]

  run_statements-Holds :
      (stmts : List Text) (c : Conn d.State)
      → HoldsConn d i c
      → HoldsConn d i (run_statements d stmts c).0
  unfolding run_statements
  run_statements-Holds [] c h = h
  run_statements-Holds (stmt ∷ stmts) c h =
      let k = run_statement-Holds stmt c h in
      elim (Bool-cases (is_blank stmt)) [
        | inl b ↦ rw (b, run_statements) (run_statements-Holds stmts c h)
        | inr b ↦
            rw (b, run_statements)
              (elim (Bool-cases (run_statement d stmt c).0) [
                | inl o ↦
                    rw (o, run_statements) (run_statements-Holds stmts (run_statement d stmt c).1 k)
                | inr o ↦ rw (o, run_statements) k
              ])
      ]

  run_query-Holds :
      (query : Text) (c : Conn d.State) → HoldsConn d i c → HoldsConn d i (run_query d query c).0
  unfolding run_query
  run_query-Holds query c h = elim (Option-cases (check_external_access query)) [
    | inr (e, q) ↦ rw (q, run_query) h
    | inl q ↦ rw (q, run_query) (run_statements-Holds (split_statements query) c h)
  ]

  handle_simple_query-Holds :
      (c : Conn d.State) (query : Text)
      → HoldsConn d i c
      → HoldsConn d i (handle_simple_query d c query).0
  unfolding handle_simple_query
  handle_simple_query-Holds c query h = elim (Bool-cases (is_blank query)) [
    | inl b ↦ rw (b, handle_simple_query) h
    | inr b ↦ rw (b, handle_simple_query) (run_query-Holds (rewrite_pg_catalog_query query) c h)
  ]

  abbrev pub HoldsOutcome : Outcome d → Type 0
  HoldsOutcome (goes_on c replies) = HoldsConn d i c
  HoldsOutcome ends = Unit
  HoldsOutcome crashes = Unit

  after_handler-Holds :
      (r : Handled d.State) → HoldsHandled d i r → HoldsOutcome (after_handler d r)
  unfolding after_handler
  after_handler-Holds none h = tt
  after_handler-Holds (some (true, c, replies)) h = h
  after_handler-Holds (some (false, c, replies)) h = h

  if-Outcome :
      (b : Bool) (x y : Outcome d)
      → HoldsOutcome x
      → HoldsOutcome y
      → HoldsOutcome (if b then x else y)
  if-Outcome true x y h k = h
  if-Outcome false x y h k = k

  -- Every message keeps the invariant.
  pub dispatch-Holds :
      (c : Conn d.State) (msg : Message) → HoldsConn d i c → HoldsOutcome (dispatch d c msg)
  unfolding dispatch
  dispatch-Holds c msg h =
      if-Outcome (msg.kind == b'Q') _ _ (handle_simple_query-Holds c (cstring_from_body msg.body) h)
        (if-Outcome (is_extended msg.kind) _ _
          (if-Outcome c.in_error _ _ h (after_handler-Holds _ (handle_extended-Holds c msg h)))
          (if-Outcome (msg.kind == b'S') _ _ h (if-Outcome (msg.kind == b'X') _ _ tt h)))

  -- So does every sequence of messages.
  pub run-Holds :
      (c : Conn d.State) (msgs : List Message) → HoldsConn d i c → HoldsOutcome (run d c msgs)
  unfolding run
  run-Holds c [] h = h
  run-Holds c (msg ∷ msgs) h = elim (Outcome-cases d (dispatch d c msg)) [
    | inl (c₁, replies, e) ↦
        rw (e, HoldsOutcome, run)
          (elim (Outcome-cases d (run d c₁ msgs)) [
            | inl (c₂, more, f) ↦
                let k = run-Holds c₁ msgs (subst HoldsOutcome e (dispatch-Holds c msg h)) in
                rw (f, HoldsOutcome, run) (subst HoldsOutcome f k)
            | inr (inl f) ↦ rw (f, HoldsOutcome, run) tt
            | inr (inr f) ↦ rw (f, HoldsOutcome, run) tt
          ])
    | inr (inl e) ↦ rw (e, HoldsOutcome, run) tt
    | inr (inr e) ↦ rw (e, HoldsOutcome, run) tt
  ]
