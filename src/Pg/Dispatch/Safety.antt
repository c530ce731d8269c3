-- ===== src/Pg/Dispatch/Safety.antt =====
-- cmd/execdb/pgwire.go: prepared statements and access, and the failed transaction.
use mathlib.Core.Path.{subst}
use execdb.Prelude.{
  false, none, some, List, [], ◌∷◌, All, ◌≡◌, refl, arith, Text, lookup, insert, delete,
  lookup-insert, lookup-delete, Map, trim_space,
}
use execdb.Sql.Access.{check_external_access}
use execdb.Sql.Keyword.{first_keyword}
use execdb.Sql.Scan.{split_statements}
use execdb.Pg.Wire.{Message, Reply}
use execdb.Pg.Conn.{Driver, Conn, PreparedStatement}
use execdb.Pg.Extended.Statements.{rewrite_pg_catalog_query}
use execdb.Pg.Extended.Execute.{is_refused, is_end_of_transaction}
use execdb.Pg.Dispatch.{run, goes_on, handle_simple_query, run_query, run_statements, run_statement}
use execdb.Pg.Dispatch.Invariant.{Invariant, parsed}
use execdb.Pg.Dispatch.Invariant.Messages.{run-Holds, HoldsOutcome}

-- Every prepared statement has passed the check of the access.
abbrev pub Allowed : Map PreparedStatement → Type 0
Allowed statements =
    (name : Text) (ps : PreparedStatement)
    → lookup name statements ≡ some ps
    → check_external_access ps.sql ≡ none

insert-Allowed :
    (name : Text) (ps : PreparedStatement) (m : Map PreparedStatement)
    → check_external_access ps.sql ≡ none
    → Allowed m
    → Allowed (insert name ps m)
insert-Allowed name ps m e h k p l = ground (arith, lookup-insert name k ps m, h k p)

delete-Allowed : (name : Text) (m : Map PreparedStatement) → Allowed m → Allowed (delete name m)
delete-Allowed name m h k p l = ground (arith, lookup-delete name k m, h k p)

module _ (d : Driver) where
  abbrev allowed : Invariant d
  allowed = record {
    Holds = λ m s. Allowed m;
    query_stmt = λ m s h args k. k;
    exec_stmt = λ m s h args k. k;
    query = λ m s q k. k;
    exec = λ m s q k. k;
    unprepared = λ m s q e p k. k;
    close_stmt = λ m s h k. k;
    prepare_new = λ m s name q oids h e f p k. insert-Allowed name (parsed q oids h) m e k;
    prepare_over = λ m s name q oids h old e f p k. insert-Allowed name (parsed q oids h) m e k;
    delete_stmt = λ m s name ps e k. delete-Allowed name m k;
    update_stmt = λ m s name ps poids roids e k.
        insert-Allowed name (record ps { param_oids = poids; result_oids = roids }) m (k name ps e)
          k;
  }

  -- Whatever messages a client sends on a new connection, every prepared statement that the
  -- connection has while it goes on passed `checkExternalAccess`.
  pub run-Allowed :
      (c : Conn d.State) (msgs : List Message) {after : Conn d.State} {replies : List Reply}
      (name : Text) (ps : PreparedStatement)
      → c.statements ≡ []
      → run d c msgs ≡ goes_on after replies
      → lookup name after.statements ≡ some ps
      → check_external_access ps.sql ≡ none
  unfolding lookup
  run-Allowed c msgs {after} {replies} name ps h e l =
      let none_yet : Allowed c.statements = λ k p f. ground (arith, h, f) in
      subst (HoldsOutcome d allowed) e (run-Holds d allowed c msgs none_yet) name ps l

  -- No statement of the text ends a transaction.
  abbrev pub EndsNone : List Text → Type 0
  EndsNone stmts = All (λ s. is_end_of_transaction (first_keyword (trim_space s)) ≡ false) stmts

  run_statements-failed :
      (stmts : List Text) (c : Conn d.State)
      → c.tx_state ≡ b'E'
      → EndsNone stmts
      → (run_statements d stmts c).0 ≡ c
  unfolding run_statements run_statement is_refused
  run_statements-failed [] c e h = refl
  run_statements-failed (stmt ∷ stmts) c e h =
      ground (arith, e, h.0, run_statements-failed stmts c e h.1)

  -- In a failed transaction, a query none of whose statements ends the transaction leaves the
  -- database, the state of the transaction and all else of the connection as it is.
  pub handle_simple_query-failed :
      (c : Conn d.State) (query : Text)
      → c.tx_state ≡ b'E'
      → EndsNone (split_statements (rewrite_pg_catalog_query query))
      → (handle_simple_query d c query).0 ≡ c
  unfolding handle_simple_query run_query
  handle_simple_query-failed c query e h =
      ground
        (arith, run_statements-failed (split_statements (rewrite_pg_catalog_query query)) c e h)
