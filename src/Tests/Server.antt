-- ===== src/Tests/Server.antt =====
-- A connection that serves concrete messages, on a database that answers every query alike.
use execdb.Prelude.{
  ℕ, true, false, not, ◌&&◌, List, [], ◌∷◌, ◌++◌, none, some, ◌==◌, if◌then◌else◌, Text, codes, ◌≡◌,
  ◌⊎◌, inr, refl, arith, put_be, length, lookup, eq_text, insert, is_space, is_blank, trim_space,
}
use execdb.Sql.Access.{check_external_access}
use execdb.Pg.Types.{int64, oid_int8, is_one_of}
use execdb.Pg.Wire.{Message, Reply, row_description}
use execdb.Pg.Conn.{Driver, Rows, Conn, PreparedStatement, Portal}
use execdb.Pg.Messages.Laws.{parse_bytes, bind_bytes, Sendable, parse_bind_message-bind_bytes}
use execdb.Pg.Extended.Statements.{close_all, handle_bind}
use execdb.Pg.Extended.Describe.{describe_row_shape}
use execdb.Pg.Extended.Execute.{result_columns}
use execdb.Pg.Extended.Rows.{oids_of, column}
use execdb.Pg.Extended.Laws.{result_columns-described}
use execdb.Pg.Extended.Formats.{handle_bind-short}
use execdb.Pg.Dispatch.{dispatch, run, goes_on, is_extended, handle_simple_query, Outcome}
use execdb.Pg.Dispatch.Answers.{count, is_ready, is_error}
use execdb.Pg.Dispatch.Answers.Ready.{run-readies}
use execdb.Pg.Dispatch.Answers.Errors.{run-errors}
use execdb.Pg.Dispatch.Skip.{sync, run-skips}
use execdb.Pg.Dispatch.Invariant.{parsed}
use execdb.Pg.Dispatch.Safety.{run-Allowed, handle_simple_query-failed}
use execdb.Pg.Dispatch.Handles.{Handles, close_all-run}
use execdb.Pg.Messages.{Bind, parse_bind_message}
use execdb.Sql.Scan.{split_statements}
use execdb.Sql.Keyword.{first_keyword}
use execdb.Pg.Extended.Statements.{rewrite_pg_catalog_query}
use execdb.Pg.Types.{Column, column_oid}
use execdb.Pg.Wire.{ready_for_query, fields_bytes}

abbrev one_row : Rows
one_row = record {
  types = inr (record { name = codes "n"; decl = codes "INTEGER"; sample = int64 0 } ∷ []);
  scans = (λ n. inr (int64 7 ∷ [])) ∷ [];
  failed = none;
}

abbrev close_handle : ℕ → List ℕ → List ℕ
close_handle h [] = []
close_handle h (k ∷ ks) = if k == h then close_handle h ks else k ∷ close_handle h ks

-- The state is the list of the open handles.
abbrev toy : Driver
toy = record {
  State = List ℕ;
  prepare = λ q s. (inr (length s), length s ∷ s);
  close_stmt = close_handle;
  query_stmt = λ h args s. (inr one_row, s);
  exec_stmt = λ h args s. (inr 1, s);
  query = λ q s. (inr one_row, s);
  exec = λ q s. (inr 1, s);
  widen = λ n. n;
  zero_time = 0;
  formats = record { format_float = λ f. []; format_time = λ t. [] };
}

close_handle-is_one_of :
    (s : List ℕ) (h k : ℕ) → is_one_of k (close_handle h s) ≡ (not (k == h) && is_one_of k s)
close_handle-is_one_of [] h k = ground arith
close_handle-is_one_of (j ∷ s) h k = ground (arith, close_handle-is_one_of s h k)

abbrev toy_handles : Handles toy
toy_handles = record {
  is_open = λ k s. is_one_of k s;
  opens = λ q s h k e. ground (arith, e);
  fails = λ q s m k e. absurd (ground (arith, e));
  closes = close_handle-is_one_of;
  query_stmt = λ s h args k. refl;
  exec_stmt = λ s h args k. refl;
  query = λ s q k. refl;
  exec = λ s q k. refl;
}

abbrev new_conn : Conn (List ℕ)
new_conn = record {
  statements = [];
  portals = [];
  in_error = false;
  tx_state = b'I';
  params = [];
  db = [];
}

abbrev parse : Text → Message
parse query = record { kind = b'P'; body = parse_bytes [] query [] }

abbrev execute : Message
execute = record { kind = b'E'; body = 0 ∷ 0 ∷ 0 ∷ 0 ∷ 0 ∷ [] }

abbrev a_bind : Bind
a_bind = record {
  portal_name = [];
  stmt_name = [];
  param_formats = [];
  param_values = [];
  result_formats = [];
}

abbrev bind : Message
bind = record { kind = b'B'; body = bind_bytes a_bind }

abbrev replies_of : Outcome toy → List Reply
replies_of (goes_on c replies) = replies
replies_of _ = []

abbrev messages : List Message
messages =
    parse (codes "SELECT 1") ∷ bind ∷ execute ∷ parse (codes "DROP TABLE t") ∷ execute ∷ sync ∷ []

-- The refused Parse and the Execute behind it are skipped.
served : length (replies_of (run toy new_conn messages)) ≡ 6
unfolding run dispatch put_be parse_bytes bind_bytes is_space lookup insert fields_bytes
served = refl

allowed_example : check_external_access (codes "SELECT 1") ≡ none
unfolding run dispatch put_be parse_bytes bind_bytes is_space lookup insert fields_bytes
allowed_example =
    run-Allowed toy new_conn messages [] (parsed (codes "SELECT 1") [] 0) refl refl refl

abbrev conn_of : Outcome toy → Conn (List ℕ)
conn_of (goes_on c replies) = c
conn_of _ = new_conn

handles_example : is_one_of 0 (close_all toy (conn_of (run toy new_conn messages))) ≡ false
unfolding run dispatch put_be parse_bytes bind_bytes is_space lookup insert fields_bytes
handles_example = close_all-run toy toy_handles new_conn messages 0 (λ j. refl) refl

readies_example : count is_ready (replies_of (run toy new_conn messages)) ≡ 1
unfolding run dispatch put_be parse_bytes bind_bytes is_space lookup insert fields_bytes is_extended
readies_example = run-readies toy new_conn messages refl

-- A Parse that is refused, and what is skipped behind it.
abbrev batch : List Message
batch = parse (codes "DROP TABLE t") ∷ bind ∷ execute ∷ []

errors_example :
    (count is_error (replies_of (run toy new_conn batch)) ≡ 0)
    ⊎ ((count is_error (replies_of (run toy new_conn batch)) ≡ 1)
        × (new_conn.in_error ≡ false)
        × ((conn_of (run toy new_conn batch)).in_error ≡ true))
unfolding run dispatch put_be parse_bytes bind_bytes is_space lookup insert fields_bytes is_extended
errors_example = run-errors toy new_conn batch (refl, (refl, (refl, tt))) refl

abbrev failed_conn : Conn (List ℕ)
failed_conn = record new_conn { in_error = true; tx_state = b'E' }

skips_example :
    run toy failed_conn ((bind ∷ execute ∷ []) ++ (sync ∷ []))
    ≡ goes_on (record failed_conn { in_error = false }) (ready_for_query b'E' ∷ [])
unfolding is_extended
skips_example = run-skips toy failed_conn (bind ∷ execute ∷ []) refl (refl, (refl, tt))

failed_example :
    (handle_simple_query toy failed_conn (codes "INSERT INTO t VALUES (1)")).0 ≡ failed_conn
unfolding split_statements is_space rewrite_pg_catalog_query first_keyword eq_text trim_space
    is_blank
failed_example =
    handle_simple_query-failed toy failed_conn (codes "INSERT INTO t VALUES (1)") refl (refl, tt)

abbrev a_statement : PreparedStatement
a_statement = record (parsed (codes "SELECT 1") [] 0) {
  row_returning = true;
  result_oids = some (oid_int8 ∷ []);
}

abbrev a_portal : Portal
a_portal = record { stmt_name = []; args = []; result_formats = 1 ∷ []; result_oids = none }

abbrev empty_row : Rows
empty_row = record { types = inr []; scans = []; failed = none }

described_example :
    (told : List Column) × (row_description (column (codes "n") oid_int8 0 ∷ []) ∷ []
      ≡ row_description told ∷ [])
    × (oids_of told ≡ oid_int8 ∷ [])
unfolding describe_row_shape result_columns column_oid
described_example =
    result_columns-described toy a_statement [] [] [] a_portal a_statement empty_row refl refl refl

abbrev three_params : Bind
three_params = record {
  portal_name = [];
  stmt_name = codes "s";
  param_formats = 0 ∷ 0 ∷ [];
  param_values = none ∷ some (1 ∷ []) ∷ some (2 ∷ []) ∷ [];
  result_formats = [];
}

three_params-Sendable : Sendable three_params
three_params-Sendable = (
  refl,
  refl,
  omega arith,
  (omega arith, (omega arith, tt)),
  omega arith,
  (tt, (omega arith, (omega arith, tt))),
  omega arith,
  tt,
)

bind_example : parse_bind_message (bind_bytes three_params) ≡ some three_params
bind_example = parse_bind_message-bind_bytes three_params three_params-Sendable

abbrev three : PreparedStatement
three = record a_statement { num_params = 3 }

abbrev prepared_conn : Conn (List ℕ)
prepared_conn = record new_conn { statements = (codes "s", three) ∷ [] }

short_example : handle_bind toy prepared_conn (bind_bytes three_params) ≡ none
unfolding lookup eq_text
short_example =
    handle_bind-short toy prepared_conn three_params three 2 (2 ∷ []) three_params-Sendable refl
      refl (omega arith) ((λ e. ground arith), ((λ e. ground arith), tt)) (omega arith) refl
