-- ===== src/Pg/Extended/Execute.antt =====
-- cmd/execdb/pgextended.go: `handleExecute`; and `commandTag` of cmd/execdb/pgwire.go, with what a
-- statement does to the state of the transaction there and here.
use execdb.Prelude.{
  ℕ, Bool, true, false, not, ◌&&◌, Option, none, some, ◌==◌, if◌then◌else◌, List, [], ◌∷◌, ◌++◌,
  Text, codes, eq_text, Bytes, lookup, ◌⊎◌, inl, inr,
}
use execdb.Sql.Keyword.{first_keyword, any_text}
use execdb.Pg.Types.{Column}
use execdb.Pg.Wire.{
  read_cstring, command_complete, sqlstate_generic, sqlstate_in_failed_transaction,
}
use execdb.Pg.Values.{quoted, decimal}
use execdb.Pg.Conn.{Driver, Rows, PreparedStatement, Portal, Conn, Handled, refuse, accept}
use execdb.Pg.Extended.Rows.{build_result_columns, build_result_columns_from_oids, send_data_rows}
use execdb.Pg.Extended.Describe.{no_statement, no_portal}

-- The keywords that end a transaction.
abbrev pub is_end_of_transaction : Text → Bool
is_end_of_transaction kw = any_text kw (codes "COMMIT" ∷ codes "ROLLBACK" ∷ codes "END" ∷ [])

-- The state of the transaction behind a statement that succeeds.
unfoldable pub next_tx_state : Text → ℕ → ℕ
unfolding eq_text
next_tx_state kw tx_state =
    if eq_text kw (codes "BEGIN") then b'T' else if is_end_of_transaction kw then b'I' else tx_state

-- The guard of a transaction that has failed.
unfoldable pub is_refused : ℕ → Text → Bool
unfolding eq_text
is_refused tx_state kw = tx_state == b'E' && not (is_end_of_transaction kw)

abbrev pub aborted_message : Text
aborted_message =
    codes "current transaction is aborted, commands ignored until end of transaction block"

-- `commandTag`, with the number of rows affected.
unfoldable pub command_tag : Text → ℕ → Text
unfolding first_keyword eq_text decimal
command_tag stmt n =
    let kw = first_keyword stmt in
    if eq_text kw (codes "INSERT")
    then codes "INSERT 0 " ++ decimal n
    else if eq_text kw (codes "UPDATE")
    then codes "UPDATE " ++ decimal n
    else if eq_text kw (codes "DELETE")
    then codes "DELETE " ++ decimal n
    else kw

-- The OIDs that a Describe promised: the portal's own, else the statement's.
abbrev pub promised_oids : Portal → PreparedStatement → Option (List ℕ)
promised_oids p ps = elim p.result_oids [ some oids ↦ some oids | none ↦ ps.result_oids ]

-- The columns of the result; a message where their types are not to be had.
unfoldable pub result_columns : Portal → PreparedStatement → Rows → Option (Text ⊎ List Column)
unfolding build_result_columns_from_oids build_result_columns
result_columns p ps rows = elim (promised_oids p ps) [
  | some oids ↦ elim (build_result_columns_from_oids p.result_formats 0 oids) [
    | none ↦ none
    | some cols ↦ some (inr cols)
  ]
  | none ↦ elim rows.types [
    | inl message ↦ some (inl message)
    | inr cts ↦ elim (build_result_columns p.result_formats 0 cts) [
      | none ↦ none
      | some cols ↦ some (inr cols)
    ]
  ]
]

module _ (d : Driver) where
  abbrev S : Type 0
  S = d.State

  -- The rows that the query gives.
  unfoldable pub send_result : Portal → PreparedStatement → Rows → Conn S → Handled S
  unfolding result_columns send_data_rows
  send_result p ps rows c = elim (result_columns p ps rows) [
    | none ↦ none
    | some (inl message) ↦ refuse c sqlstate_generic message
    | some (inr cols) ↦
        let (ok, replies) = send_data_rows d.formats cols rows in some (ok, c, replies)
  ]

  unfoldable pub run_rows : Portal → PreparedStatement → Conn S → Handled S
  unfolding send_result
  run_rows p ps c =
      let (run, db) = d.query_stmt ps.stmt p.args c.db in
      elim run [
        | inl message ↦ refuse (record c { db = db }) sqlstate_generic message
        | inr rows ↦ send_result p ps rows (record c { db = db })
      ]

  unfoldable pub run_exec : Portal → PreparedStatement → Conn S → Handled S
  unfolding command_tag
  run_exec p ps c =
      let (run, db) = d.exec_stmt ps.stmt p.args c.db in
      elim run [
        | inl message ↦ refuse (record c { db = db }) sqlstate_generic message
        | inr n ↦ accept (record c { db = db }) (command_complete (command_tag ps.sql n) ∷ [])
      ]

  -- Behind a run: a success moves the transaction.
  unfoldable pub settle : Text → Handled S → Handled S
  unfolding next_tx_state
  settle kw none = none
  settle kw (some (false, c, replies)) = some (false, c, replies)
  settle kw (some (true, c, replies)) =
      some (true, record c { tx_state = next_tx_state kw c.tx_state }, replies)

  -- Behind the lookup of the portal and of its statement.
  unfoldable pub execute_portal : Portal → PreparedStatement → Conn S → Handled S
  unfolding first_keyword is_refused settle run_rows run_exec
  execute_portal p ps c =
      let kw = first_keyword ps.sql in
      if is_refused c.tx_state kw
      then refuse c sqlstate_in_failed_transaction aborted_message
      else settle kw (if ps.row_returning then run_rows p ps c else run_exec p ps c)

  -- `handleExecute`.
  unfoldable pub handle_execute : Conn S → Bytes → Handled S
  unfolding read_cstring lookup execute_portal quoted
  handle_execute c body = elim (read_cstring body) [
    | none ↦ refuse c sqlstate_generic (codes "malformed Execute message")
    | some (name, _) ↦ elim (lookup name c.portals) [
      | none ↦ no_portal d name c
      | some p ↦ elim (lookup p.stmt_name c.statements) [
        | none ↦ no_statement d p.stmt_name c
        | some ps ↦ execute_portal p ps c
      ]
    ]
  ]
