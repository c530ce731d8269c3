-- ===== src/Pg/Extended/Laws.antt =====
-- cmd/execdb/pgextended.go: the types that Describe and Execute use.
use execdb.Prelude.{
  ℕ, ◌+◌, Bool, some, List, [], ◌∷◌, ◌≡◌, sym, ◌∙◌, inl, inr, arith, codes, Option-cases, Sum-cases,
  Bool-cases,
}
use execdb.Pg.Types.{Value, Column}
use execdb.Pg.Wire.{Reply, row_description}
use execdb.Pg.Conn.{Driver, Rows, PreparedStatement, Portal}
use execdb.Pg.Extended.Rows.{build_result_columns_from_oids, oids_of}
use execdb.Pg.Extended.Describe.{
  describe_row_shape, trial_run, shape_of, rollback_describe_savepoint,
}
use execdb.Pg.Extended.Execute.{result_columns, promised_oids}

oids_of-from_oids :
    (formats : List ℕ) (i : ℕ) (oids : List ℕ) {cols : List Column}
    → build_result_columns_from_oids formats i oids ≡ some cols
    → oids_of cols ≡ oids
unfolding build_result_columns_from_oids
oids_of-from_oids formats i [] {cols} e = ground arith
oids_of-from_oids formats i (oid ∷ oids) {cols} e =
    elim (Option-cases (build_result_columns_from_oids formats (i + 1) oids)) [
      | inl p ↦ absurd (ground (arith, p, e))
      | inr (cs, p) ↦ ground (arith, p, e, oids_of-from_oids formats (i + 1) oids p)
    ]

-- A Describe that succeeds for a statement that returns rows has told the client its columns, and
-- what it keeps of them is their types.
shape_of-told :
    (d : Driver) (formats : List ℕ) (rows : Rows) (db : d.State) {ok : Bool} {oids : List ℕ}
    {replies : List Reply} {after : d.State}
    → shape_of d formats rows db ≡ some (ok, some oids, replies, after)
    → (cols : List Column) × (replies ≡ row_description cols ∷ []) × (oids_of cols ≡ oids)
unfolding shape_of
shape_of-told d formats rows db {ok} {oids} {replies} {after} e = ground arith

trial_run-told :
    (d : Driver) (ps : PreparedStatement) (formats : List ℕ) (args : List Value) (db : d.State)
    {ok : Bool} {oids : List ℕ} {replies : List Reply} {after : d.State}
    → trial_run d ps formats args db ≡ some (ok, some oids, replies, after)
    → (cols : List Column) × (replies ≡ row_description cols ∷ []) × (oids_of cols ≡ oids)
unfolding trial_run
trial_run-told d ps formats args db {ok} {oids} {replies} {after} e =
    let db₁ = (d.query_stmt ps.stmt args db).1 in
    elim (Sum-cases (d.query_stmt ps.stmt args db).0) [
      | inl (m, p) ↦ absurd (ground (arith, p, e))
      | inr (rows, p) ↦ elim (Option-cases (rollback_describe_savepoint d db₁).0) [
        | inr (m, q) ↦ absurd (ground (arith, p, q, e))
        | inl q ↦
            let db₂ = (rollback_describe_savepoint d db₁).1 in
            let f : shape_of d formats rows db₂ ≡ some (ok, some oids, replies, after) =
              ground (arith, p, q, e) in
            shape_of-told d formats rows db₂ f
      ]
    ]

describe_row_shape-told :
    (d : Driver) (ps : PreparedStatement) (formats : List ℕ) (args : List Value) (db : d.State)
    {ok : Bool} {oids : List ℕ} {replies : List Reply} {after : d.State}
    → describe_row_shape d ps formats args db ≡ some (ok, some oids, replies, after)
    → (cols : List Column) × (replies ≡ row_description cols ∷ []) × (oids_of cols ≡ oids)
unfolding describe_row_shape
describe_row_shape-told d ps formats args db {ok} {oids} {replies} {after} e =
    let (saved, db₁) = d.exec (codes "SAVEPOINT execdb_describe") db in
    elim (Bool-cases ps.row_returning) [
      | inr r ↦ absurd (ground (arith, r, e))
      | inl r ↦ elim (Sum-cases saved) [
        | inl (m, p) ↦ absurd (ground (arith, r, p, e))
        | inr (n, p) ↦
            let f : trial_run d ps formats args db₁ ≡ some (ok, some oids, replies, after) =
              ground (arith, r, p, e) in
            trial_run-told d ps formats args db₁ f
      ]
    ]

-- The columns that a Describe announced and those by which an Execute encodes its rows have the
-- same types, whatever the statement's result looks like by then, as long as the portal or its
-- statement still keeps what the Describe found.
pub result_columns-described :
    (d : Driver) (ps : PreparedStatement) (formats : List ℕ) (args : List Value) (db : d.State)
    (p : Portal) (ps' : PreparedStatement) (rows : Rows) {ok : Bool} {oids : List ℕ}
    {replies : List Reply} {after : d.State} {sent : List Column}
    → describe_row_shape d ps formats args db ≡ some (ok, some oids, replies, after)
    → promised_oids p ps' ≡ some oids
    → result_columns p ps' rows ≡ some (inr sent)
    → (told : List Column) × (replies ≡ row_description told ∷ []) × (oids_of told ≡ oids_of sent)
unfolding result_columns
result_columns-described d ps formats args db p ps' rows {ok} {oids} {replies} {after} {sent} e f
      g =
    let (told, r, t) = describe_row_shape-told d ps formats args db e in
    let sent_oids : oids_of sent ≡ oids =
      elim (Option-cases (build_result_columns_from_oids p.result_formats 0 oids)) [
        | inl q ↦ absurd (ground (arith, q, f, g))
        | inr (cs, q) ↦ ground (arith, q, f, g, oids_of-from_oids p.result_formats 0 oids q)
      ] in
    (told, r, t ∙ sym sent_oids)
