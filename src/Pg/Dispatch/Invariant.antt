-- ===== src/Pg/Dispatch/Invariant.antt =====
-- cmd/execdb/pgwire.go: an invariant of the prepared statements and of the database.
pub mod Statements
pub mod Describe
pub mod Messages
use execdb.Prelude.{
  ℕ, Bool, true, false, not, ◌&&◌, ◌||◌, Option, none, some, ◌==◌, if◌then◌else◌, List, [], ◌∷◌,
  ◌++◌, map, length, All, ◌≡◌, ◌⊎◌, inl, inr, refl, ap, arith, Bytes, Text, lookup, insert, delete,
  lookup-insert, lookup-delete, eq_text, eq_text_iff, Option-cases, Bool-cases, Sum-cases,
  trim_space, is_blank, Map,
}
use execdb.Sql.Access.{check_external_access}
use execdb.Sql.Keyword.{first_keyword, looks_like_row_returning}
use execdb.Sql.Scan.{split_statements}
use execdb.Pg.Types.{Value, representative_value}
use execdb.Pg.Wire.{Message, Reply, read_cstring, cstring_from_body}
use execdb.Pg.Conn.{Driver, Conn, Handled, PreparedStatement, Portal, Rows}
use execdb.Pg.Session.{handle_session_command}
use execdb.Pg.Extended.Statements.{
  handle_parse, handle_bind, handle_close, prepare_as, replace_statement, parse_statement,
  rewrite_pg_catalog_query, bind_statement, open_portal, close_target, close_statement, bound,
  unsupported, out_of_range, Bound, bind_args,
}
use execdb.Pg.Messages.{Bind, parse_parse_message, parse_bind_message, count_placeholders}
use execdb.Pg.Extended.Rows.{build_result_columns, send_rows, send_data_rows}
use execdb.Pg.Extended.Describe.{
  handle_describe, describe_target, describe_statement, describe_portal, known_types,
  describe_row_shape, trial_run, shape_of, rollback_describe_savepoint, Shape,
}
use execdb.Pg.Extended.Execute.{
  handle_execute, execute_portal, settle, run_rows, run_exec, send_result, result_columns,
  is_refused,
}
use execdb.Pg.Dispatch.{
  dispatch, run, goes_on, ends, crashes, Outcome, is_extended, handle_extended, after_handler,
  handle_simple_query, run_query, run_statements, run_statement, exec_one_statement,
}

-- A statement as Parse makes it.
abbrev pub parsed : Text → List ℕ → ℕ → PreparedStatement
parsed query oids stmt = record {
  sql = query;
  stmt = stmt;
  num_params = count_placeholders query;
  row_returning = looks_like_row_returning query;
  param_oids = oids;
  result_oids = none;
}

-- A property that the statements and the database keep, with what it takes of each operation.
pub record Invariant (d : Driver) : Type 1 where
  pub Holds : Map PreparedStatement → d.State → Type 0
  pub query_stmt :
      (m : Map PreparedStatement) (s : d.State) (h : ℕ) (args : List Value)
      → Holds m s
      → Holds m (d.query_stmt h args s).1
  pub exec_stmt :
      (m : Map PreparedStatement) (s : d.State) (h : ℕ) (args : List Value)
      → Holds m s
      → Holds m (d.exec_stmt h args s).1
  pub query :
      (m : Map PreparedStatement) (s : d.State) (q : Text) → Holds m s → Holds m (d.query q s).1
  pub exec :
      (m : Map PreparedStatement) (s : d.State) (q : Text) → Holds m s → Holds m (d.exec q s).1
  pub unprepared :
      (m : Map PreparedStatement) (s : d.State) (q e : Text)
      → (d.prepare q s).0 ≡ inl e
      → Holds m s
      → Holds m (d.prepare q s).1
  pub close_stmt :
      (m : Map PreparedStatement) (s : d.State) (h : ℕ) → Holds m s → Holds m (d.close_stmt h s)
  pub prepare_new :
      (m : Map PreparedStatement) (s : d.State) (name q : Text) (oids : List ℕ) (h : ℕ)
      → check_external_access q ≡ none
      → lookup name m ≡ none
      → (d.prepare q s).0 ≡ inr h
      → Holds m s
      → Holds (insert name (parsed q oids h) m) (d.prepare q s).1
  pub prepare_over :
      (m : Map PreparedStatement) (s : d.State) (name q : Text) (oids : List ℕ) (h : ℕ)
      (old : PreparedStatement)
      → check_external_access q ≡ none
      → lookup name m ≡ some old
      → (d.prepare q (d.close_stmt old.stmt s)).0 ≡ inr h
      → Holds m s
      → Holds (insert name (parsed q oids h) m) (d.prepare q (d.close_stmt old.stmt s)).1
  pub delete_stmt :
      (m : Map PreparedStatement) (s : d.State) (name : Text) (ps : PreparedStatement)
      → lookup name m ≡ some ps
      → Holds m s
      → Holds (delete name m) (d.close_stmt ps.stmt s)
  pub update_stmt :
      (m : Map PreparedStatement) (s : d.State) (name : Text) (ps : PreparedStatement)
      (poids : List ℕ) (roids : Option (List ℕ))
      → lookup name m ≡ some ps
      → Holds m s
      → Holds (insert name (record ps { param_oids = poids; result_oids = roids }) m) s

module _ (d : Driver) (i : Invariant d) where
  abbrev pub HoldsConn : Conn d.State → Type 0
  HoldsConn c = i.Holds c.statements c.db

  abbrev pub HoldsHandled : Handled d.State → Type 0
  HoldsHandled none = Unit
  HoldsHandled (some (ok, c, replies)) = HoldsConn c

  pub if-Holds :
      (b : Bool) (x y : Handled d.State)
      → HoldsHandled x
      → HoldsHandled y
      → HoldsHandled (if b then x else y)
  if-Holds true x y h k = h
  if-Holds false x y h k = k

  abbrev pub HoldsShape : Map PreparedStatement → Shape d.State → Type 0
  HoldsShape m none = Unit
  HoldsShape m (some (ok, oids, replies, db)) = i.Holds m db
