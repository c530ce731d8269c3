-- ===== src/Pg/Dispatch/Answers.antt =====
-- cmd/execdb/pgextended.go and cmd/execdb/pgwire.go: what the handlers answer.
pub mod Messages
pub mod Ready
pub mod Errors
use execdb.Prelude.{
  ℕ, zero, suc, ◌+◌, Bool, true, false, not, ◌&&◌, ◌||◌, none, some, ◌==◌, if◌then◌else◌, List, [],
  ◌∷◌, ◌++◌, length, ◌≡◌, refl, arith, Bytes, Text, eq_text, lookup, ◌⊎◌, inl, inr, Option, Map,
  map, Sum-cases,
}
use execdb.Sql.Access.{check_external_access}
use execdb.Pg.Wire.{Reply, ready_for_query, error_response, data_row, read_cstring, Message}
use execdb.Pg.Types.{Value, Column, ColumnType, column_oid}
use execdb.Pg.Values.{Formats}
use execdb.Pg.Conn.{Driver, Conn, Handled, PreparedStatement, Portal, Rows}
use execdb.Pg.Messages.{Bind, parse_parse_message, parse_bind_message}
use execdb.Pg.Extended.Statements.{
  handle_parse, handle_bind, handle_close, prepare_as, replace_statement, parse_statement,
  bind_statement, open_portal, close_target, Bound, bound, unsupported, out_of_range, bind_args,
}
use execdb.Pg.Extended.Rows.{send_rows_from, send_data_rows, send_rows}

-- How many of the answers pass a test.
unfoldable pub count : (Reply → Bool) → List Reply → ℕ
count test [] = 0
count test (r ∷ replies) = let rest = count test replies in if test r then suc rest else rest

abbrev pub is_ready : Reply → Bool
is_ready (ready_for_query status) = true
is_ready _ = false

abbrev pub is_error : Reply → Bool
is_error (error_response sqlstate message) = true
is_error _ = false

pub count-append :
    (test : Reply → Bool) (xs ys : List Reply)
    → count test (xs ++ ys) ≡ count test xs + count test ys
unfolding count
count-append test [] ys = omega arith
count-append test (r ∷ xs) ys = ground (arith, count-append test xs ys)

-- No ReadyForQuery, and an error where and only where the handler fails, a single one.
unfoldable pub answers : Bool → List Reply → Bool
unfolding count
answers ok replies = count is_ready replies == 0 && count is_error replies == (if ok then 0 else 1)

unfoldable pub answered : {S : Type 0} → Handled S → Bool
unfolding answers
answered none = true
answered (some (ok, c, replies)) = answers ok replies

send_rows_from-answers :
    (fmt : Formats) (cols : List Column) (n : ℕ) (scans : List (ℕ → Text ⊎ List Value))
    (failed : Option Text)
    → answers (send_rows_from fmt cols n scans failed).0 (send_rows_from fmt cols n scans failed).1
      ≡ true
unfolding send_rows_from answers count
send_rows_from-answers fmt cols n [] none = refl
send_rows_from-answers fmt cols n [] (some message) = refl
send_rows_from-answers fmt cols n (scan ∷ scans) failed =
    ground (arith, send_rows_from-answers fmt cols (suc n) scans failed)

pub send_data_rows-answers :
    (fmt : Formats) (cols : List Column) (rows : Rows)
    → answers (send_data_rows fmt cols rows).0 (send_data_rows fmt cols rows).1 ≡ true
unfolding send_data_rows
send_data_rows-answers fmt cols rows = send_rows_from-answers fmt cols 0 rows.scans rows.failed

pub send_rows-answers :
    (fmt : Formats) (rows : Rows) → answers (send_rows fmt rows).0 (send_rows fmt rows).1 ≡ true
unfolding send_rows send_data_rows answers count
send_rows-answers fmt rows = elim (Sum-cases rows.types) [
  | inl (message, e) ↦ ground (arith, e)
  | inr (cts, e) ↦
      let cols : List Column =
        map (λ ct. record { name = ct.name; oid = column_oid ct; binary = false }) cts in
      ground (arith, e, send_rows_from-answers fmt cols 0 rows.scans rows.failed)
]

module _ (d : Driver) where
  prepare_as-answered :
      (name query : Text) (oids : List ℕ) (c : Conn d.State)
      → answered (prepare_as d name query oids c) ≡ true
  unfolding prepare_as answered answers count
  prepare_as-answered name query oids c = ground arith

  replace_statement-answered :
      (name query : Text) (oids : List ℕ) (c : Conn d.State)
      → answered (replace_statement d name query oids c) ≡ true
  unfolding replace_statement answered answers count
  replace_statement-answered name query oids c =
      let fresh = prepare_as-answered name query oids c in
      ground (
        arith,
        fresh,
        λ (old : PreparedStatement).
            prepare_as-answered name query oids (record c { db = d.close_stmt old.stmt c.db }),
      )

  pub handle_parse-answered :
      (c : Conn d.State) (body : Bytes) → answered (handle_parse d c body) ≡ true
  unfolding handle_parse parse_statement answered answers count
  handle_parse-answered c body =
      ground
        (arith, λ (name query : Text) (oids : List ℕ). replace_statement-answered name query oids c)

  open_portal-answered :
      (b : Bind) (args : Bound) (c : Conn d.State) → answered (open_portal d b args c) ≡ true
  unfolding open_portal answered answers count
  open_portal-answered b out_of_range c = refl
  open_portal-answered b (unsupported j oid) c = refl
  open_portal-answered b (bound args) c = ground arith

  pub handle_bind-answered :
      (c : Conn d.State) (body : Bytes) → answered (handle_bind d c body) ≡ true
  unfolding handle_bind bind_statement answered answers count
  handle_bind-answered c body =
      ground (arith, λ (b : Bind) (args : Bound). open_portal-answered b args c)

  pub handle_close-answered :
      (c : Conn d.State) (body : Bytes) → answered (handle_close d c body) ≡ true
  unfolding handle_close close_target answered answers count
  handle_close-answered c [] = refl
  handle_close-answered c (kind ∷ body) = ground arith
