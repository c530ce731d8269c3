-- ===== src/Pg/Dispatch.antt =====
-- cmd/execdb/pgwire.go: `handleSimpleQuery`, and the loop of `handleConnection` over the messages.
pub mod Invariant
pub mod Safety
pub mod Skip
pub mod Handles
pub mod Answers
use execdb.Prelude.{
  ℕ, zero, suc, Bool, true, false, not, ◌&&◌, ◌||◌, Option, none, some, ◌==◌, if◌then◌else◌, List,
  [], ◌∷◌, ◌++◌, Text, codes, eq_text, is_blank, trim_space, Bytes, Map, ◌⊎◌, inl, inr, ◌≡◌, refl,
}
use execdb.Sql.Keyword.{first_keyword, looks_like_row_returning}
use execdb.Sql.Scan.{split_statements}
use execdb.Sql.Access.{AccessDenied, check_external_access, denied_message}
use execdb.Pg.Wire.{
  Reply, error_response, command_complete, ready_for_query, cstring_from_body, Message,
  sqlstate_generic, sqlstate_in_failed_transaction, sqlstate_insufficient_privilege,
}
use execdb.Pg.Session.{handle_session_command}
use execdb.Pg.Conn.{Driver, Conn, Handled, accept}
use execdb.Pg.Extended.Statements.{
  rewrite_pg_catalog_query, handle_parse, handle_bind, handle_close,
}
use execdb.Pg.Extended.Rows.{send_rows}
use execdb.Pg.Extended.Describe.{handle_describe}
use execdb.Pg.Extended.Execute.{
  command_tag, next_tx_state, is_refused, aborted_message, handle_execute,
}

-- An error moves an open transaction to a failed one.
abbrev pub fail_tx : ℕ → ℕ
fail_tx tx_state = if tx_state == b'T' then b'E' else tx_state

-- The messages that are skipped up to the next Sync behind an error.
unfoldable pub is_extended : ℕ → Bool
is_extended kind =
    kind == b'P' || kind == b'B' || kind == b'D' || kind == b'E' || kind == b'H' || kind == b'C'

module _ (d : Driver) where
  abbrev S : Type 0
  S = d.State

  -- `execOneStatement`: `ok`, what was written, and the database.
  unfoldable pub exec_one_statement : Text → S → Bool × List Reply × S
  unfolding looks_like_row_returning trim_space send_rows command_tag
  exec_one_statement stmt db =
      let (ran, db₁) = d.query stmt db in
      let (done, db₂) = d.exec stmt db in
      let queried : Bool × List Reply × S = elim ran [
        | inl message ↦ (false, error_response sqlstate_generic message ∷ [], db₁)
        | inr rows ↦ let (ok, replies) = send_rows d.formats rows in (ok, replies, db₁)
      ] in
      let executed : Bool × List Reply × S = elim done [
        | inl message ↦ (false, error_response sqlstate_generic message ∷ [], db₂)
        | inr n ↦ (true, command_complete (command_tag (trim_space stmt) n) ∷ [], db₂)
      ] in
      if looks_like_row_returning (trim_space stmt) then queried else executed

  -- One statement that is not blank: whether the loop goes on, the connection, what was written.
  unfoldable pub run_statement : Text → Conn S → Bool × Conn S × List Reply
  unfolding first_keyword is_refused handle_session_command next_tx_state trim_space
      exec_one_statement
  run_statement stmt c =
      let trimmed = trim_space stmt in
      let kw = first_keyword trimmed in
      let (ok, replies, db) = exec_one_statement stmt c.db in
      let run : Bool × Conn S × List Reply =
        if ok
        then (true, record c { db = db; tx_state = next_tx_state kw c.tx_state }, replies)
        else (false, record c { db = db; tx_state = fail_tx c.tx_state }, replies) in
      if is_refused c.tx_state kw
      then (false, c, error_response sqlstate_in_failed_transaction aborted_message ∷ [])
      else elim (handle_session_command c.params kw trimmed) [
        | some (params, said) ↦ (true, record c { params = params }, said)
        | none ↦ run
      ]

  -- The loop over the statements.
  unfoldable pub run_statements : List Text → Conn S → Conn S × List Reply
  unfolding run_statement is_blank
  run_statements [] c = (c, [])
  run_statements (stmt ∷ stmts) c =
      let (goes_on, c₁, replies) = run_statement stmt c in
      let (c₂, more) = run_statements stmts c₁ in
      if is_blank stmt
      then run_statements stmts c
      else if goes_on
      then (c₂, replies ++ more)
      else (c₁, replies)

  -- Behind the rewriting of the query.
  unfoldable pub run_query : Text → Conn S → Conn S × List Reply
  unfolding check_external_access denied_message split_statements run_statements
  run_query query c = elim (check_external_access query) [
    | some denied ↦ (
      record c { tx_state = fail_tx c.tx_state },
      error_response sqlstate_insufficient_privilege (denied_message denied) ∷ [],
    )
    | none ↦ run_statements (split_statements query) c
  ]

  -- `handleSimpleQuery`.
  unfoldable pub handle_simple_query : Conn S → Text → Conn S × List Reply
  unfolding is_blank run_query rewrite_pg_catalog_query
  handle_simple_query c query =
      if is_blank query then (c, []) else run_query (rewrite_pg_catalog_query query) c

  -- What a message does to the connection.
  pub data Outcome : Type 0 where
    goes_on : Conn S → List Reply → Outcome
    ends : Outcome
    crashes : Outcome

  -- Behind a handler of the extended protocol.
  unfoldable pub after_handler : Handled S → Outcome
  after_handler none = crashes
  after_handler (some (true, c, replies)) = goes_on c replies
  after_handler (some (false, c, replies)) =
      goes_on (record c { in_error = true; tx_state = fail_tx c.tx_state }) replies

  -- The handler of a message of the extended protocol.
  unfoldable pub handle_extended : Conn S → Message → Handled S
  unfolding handle_parse handle_bind handle_describe handle_execute handle_close
  handle_extended c msg =
      if msg.kind == b'P'
      then handle_parse d c msg.body
      else if msg.kind == b'B'
      then handle_bind d c msg.body
      else if msg.kind == b'D'
      then handle_describe d c msg.body
      else if msg.kind == b'E'
      then handle_execute d c msg.body
      else if msg.kind == b'C'
      then handle_close d c msg.body
      else accept c []

  -- One round of the loop.
  unfoldable pub dispatch : Conn S → Message → Outcome
  unfolding after_handler handle_extended handle_simple_query is_extended cstring_from_body
  dispatch c msg =
      let (c₁, replies) = handle_simple_query c (cstring_from_body msg.body) in
      if msg.kind == b'Q'
      then goes_on c₁ (replies ++ (ready_for_query c₁.tx_state ∷ []))
      else if is_extended msg.kind
      then (if c.in_error then goes_on c [] else after_handler (handle_extended c msg))
      else if msg.kind == b'S'
      then goes_on (record c { in_error = false }) (ready_for_query c.tx_state ∷ [])
      else if msg.kind == b'X'
      then ends
      else goes_on c (
          error_response sqlstate_generic
            (codes "unsupported message type '" ++ (msg.kind ∷ codes "'"))
          ∷ ready_for_query c.tx_state
          ∷ [])

  -- Behind a message, the loop over the others.
  unfoldable pub run : Conn S → List Message → Outcome
  run c [] = goes_on c []
  run c (msg ∷ msgs) = elim (dispatch c msg) [
    | ends ↦ ends
    | crashes ↦ crashes
    | goes_on c₁ replies ↦ elim (run c₁ msgs) [
      | ends ↦ ends
      | crashes ↦ crashes
      | goes_on c₂ more ↦ goes_on c₂ (replies ++ more)
    ]
  ]

  pub Outcome-cases :
      (o : Outcome)
      → ((c : Conn S) × (replies : List Reply) × (o ≡ goes_on c replies))
        ⊎ (o ≡ ends)
        ⊎ (o ≡ crashes)
  Outcome-cases (goes_on c replies) = inl (c, replies, refl)
  Outcome-cases ends = inr (inl refl)
  Outcome-cases crashes = inr (inr refl)
