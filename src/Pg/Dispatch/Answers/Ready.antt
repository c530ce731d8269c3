-- ===== src/Pg/Dispatch/Answers/Ready.antt =====
-- cmd/execdb/pgwire.go: the ReadyForQuery messages of a connection.
use mathlib.Core.Path.{subst}
use execdb.Prelude.{
  ℕ, ◌+◌, Bool, true, false, not, ◌&&◌, Option, none, some, ◌==◌, if◌then◌else◌, List, [], ◌∷◌, ◌≡◌,
  refl, arith, Text, Map, inl, inr, Sum-cases, Option-cases, Bool-cases, is_blank, trim_space,
}
use execdb.Sql.Keyword.{first_keyword}
use execdb.Sql.Scan.{split_statements}
use execdb.Pg.Wire.{Reply, ready_for_query, Message, cstring_from_body}
use execdb.Pg.Session.{handle_session_command, handle_set, handle_show}
use execdb.Pg.Conn.{Driver, Conn, Handled}
use execdb.Pg.Extended.Statements.{rewrite_pg_catalog_query}
use execdb.Pg.Extended.Execute.{is_refused}
use execdb.Pg.Dispatch.{
  dispatch, run, goes_on, ends, crashes, Outcome, is_extended, handle_extended, after_handler,
  handle_simple_query, run_query, run_statements, run_statement, exec_one_statement, Outcome-cases,
}
use execdb.Pg.Dispatch.Answers.{count, count-append, is_ready, answers, answered, send_rows-answers}
use execdb.Pg.Dispatch.Answers.Messages.{handle_extended-answered}

abbrev readies : List Reply → ℕ
readies = count is_ready

abbrev said : {P : Type 0} → Option (P × List Reply) → ℕ
said none = 0
said (some (params, replies)) = readies replies

handle_session_command-ready :
    (params : Map Text) (kw stmt : Text) → said (handle_session_command params kw stmt) ≡ 0
unfolding handle_session_command handle_set handle_show count
handle_session_command-ready params kw stmt = ground arith

module _ (d : Driver) where
  exec_one_statement-ready :
      (stmt : Text) (db : d.State) → readies (exec_one_statement d stmt db).1 ≡ 0
  unfolding exec_one_statement count answers
  exec_one_statement-ready stmt db = elim (Sum-cases (d.query stmt db).0) [
    | inl (message, q) ↦ ground (arith, q)
    | inr (rows, q) ↦ ground (arith, q, send_rows-answers d.formats rows)
  ]

  run_statement-ready : (stmt : Text) (c : Conn d.State) → readies (run_statement d stmt c).2 ≡ 0
  unfolding run_statement count
  run_statement-ready stmt c =
      let kw = first_keyword (trim_space stmt) in
      let session = handle_session_command-ready c.params kw (trim_space stmt) in
      let executed = exec_one_statement-ready stmt c.db in
      elim (Bool-cases (is_refused c.tx_state kw)) [
        | inl r ↦ rw (r, run_statement, count) refl
        | inr r ↦
            rw (r, run_statement)
              (elim (Option-cases (handle_session_command c.params kw (trim_space stmt))) [
                | inr ((params, replies), q) ↦
                    rw (q, run_statement) (subst (λ x. said x ≡ 0) q session)
                | inl q ↦
                    rw (q, run_statement)
                      (elim (Bool-cases (exec_one_statement d stmt c.db).0) [
                        | inl o ↦ rw (o, run_statement) executed
                        | inr o ↦ rw (o, run_statement) executed
                      ])
              ])
      ]

  run_statements-ready :
      (stmts : List Text) (c : Conn d.State) → readies (run_statements d stmts c).1 ≡ 0
  unfolding run_statements count
  run_statements-ready [] c = refl
  run_statements-ready (stmt ∷ stmts) c =
      let (ok, c₁, replies) = run_statement d stmt c in
      let (c₂, more) = run_statements d stmts c₁ in
      let this = run_statement-ready stmt c in
      elim (Bool-cases (is_blank stmt)) [
        | inl b ↦ rw (b, run_statements) (run_statements-ready stmts c)
        | inr b ↦
            rw (b, run_statements)
              (elim (Bool-cases (run_statement d stmt c).0) [
                | inl o ↦
                    let rest = run_statements-ready stmts c₁ in
                    rw (o, run_statements)
                      (omega (arith, this, rest, count-append is_ready replies more))
                | inr o ↦ rw (o, run_statements) this
              ])
      ]

  handle_simple_query-ready :
      (c : Conn d.State) (query : Text) → readies (handle_simple_query d c query).1 ≡ 0
  unfolding handle_simple_query run_query count
  handle_simple_query-ready c query =
      ground (arith, run_statements-ready (split_statements (rewrite_pg_catalog_query query)) c)

  -- The messages that the server says to be ready behind.
  abbrev pub is_awaited : Message → Bool
  is_awaited msg = not (is_extended msg.kind) && not (msg.kind == b'X')

  abbrev pub awaited : List Message → ℕ
  awaited [] = 0
  awaited (msg ∷ msgs) = (if is_awaited msg then 1 else 0) + awaited msgs

  -- Where the connection goes on, so many answers are ReadyForQuery.
  unfoldable has_ready : ℕ → Outcome d → Bool
  unfolding count
  has_ready n (goes_on c replies) = readies replies == n
  has_ready n ends = true
  has_ready n crashes = true

  after_handler-has_ready :
      (r : Handled d.State) → answered r ≡ true → has_ready 0 (after_handler d r) ≡ true
  unfolding after_handler answered answers has_ready
  after_handler-has_ready none h = refl
  after_handler-has_ready (some (true, c, replies)) h = ground (arith, h)
  after_handler-has_ready (some (false, c, replies)) h = ground (arith, h)

  abbrev awaited_for : Message → ℕ
  awaited_for msg = if is_awaited msg then 1 else 0

  dispatch-has_ready :
      (c : Conn d.State) (msg : Message) → has_ready (awaited_for msg) (dispatch d c msg) ≡ true
  unfolding dispatch has_ready count is_extended
  dispatch-has_ready c msg =
      let (c₁, replies) = handle_simple_query d c (cstring_from_body msg.body) in
      let simple = handle_simple_query-ready c (cstring_from_body msg.body) in
      let extended = handle_extended-answered d c msg in
      let after = after_handler-has_ready (handle_extended d c msg) extended in
      let said = count-append is_ready replies (ready_for_query c₁.tx_state ∷ []) in
      ground (arith, simple, after, said)

  run-has_ready :
      (c : Conn d.State) (msgs : List Message) → has_ready (awaited msgs) (run d c msgs) ≡ true
  unfolding run has_ready count
  run-has_ready c [] = refl
  run-has_ready c (msg ∷ msgs) = elim (Outcome-cases d (dispatch d c msg)) [
    | inl (c₁, replies, e) ↦
        let this = subst (λ o. has_ready (awaited_for msg) o ≡ true) e (dispatch-has_ready c msg) in
        rw (e, run)
          (elim (Outcome-cases d (run d c₁ msgs)) [
            | inl (c₂, more, f) ↦
                let rest =
                  subst (λ o. has_ready (awaited msgs) o ≡ true) f (run-has_ready c₁ msgs) in
                rw (f, run) (ground (arith, this, rest, count-append is_ready replies more))
            | inr (inl f) ↦ rw (f, run) refl
            | inr (inr f) ↦ rw (f, run) refl
          ])
    | inr (inl e) ↦ rw (e, run) refl
    | inr (inr e) ↦ rw (e, run) refl
  ]

  -- While the connection goes on, the server sends as many ReadyForQuery messages as it has
  -- received messages that are neither of the extended protocol nor Terminate: one for each Query,
  -- Sync and message of an unknown type.
  pub run-readies :
      (c : Conn d.State) (msgs : List Message) {after : Conn d.State} {replies : List Reply}
      → run d c msgs ≡ goes_on after replies
      → count is_ready replies ≡ awaited msgs
  unfolding has_ready
  run-readies c msgs {after} {replies} e =
      ground (arith, subst (λ o. has_ready (awaited msgs) o ≡ true) e (run-has_ready c msgs))
