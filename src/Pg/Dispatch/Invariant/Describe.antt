-- ===== src/Pg/Dispatch/Invariant/Describe.antt =====
-- cmd/execdb/pgextended.go: an invariant through Describe.
use execdb.Prelude.{
  codes, ℕ, some, ◌==◌, List, [], ◌∷◌, map, ◌≡◌, inl, inr, Bytes, Text, lookup, Option-cases,
  Bool-cases, Sum-cases, Map,
}
use mathlib.Core.Path.{subst}
use execdb.Pg.Types.{Value, representative_value}
use execdb.Pg.Wire.{read_cstring}
use execdb.Pg.Conn.{Driver, Conn, PreparedStatement, Portal, Rows}
use execdb.Pg.Extended.Rows.{build_result_columns}
use execdb.Pg.Extended.Describe.{
  handle_describe, describe_target, describe_statement, describe_portal, known_types,
  describe_row_shape, trial_run, shape_of, rollback_describe_savepoint,
}
use execdb.Pg.Dispatch.Invariant.{Invariant, HoldsConn, HoldsHandled, HoldsShape}

module _ (d : Driver) (i : Invariant d) where
  rollback-Holds :
      (m : Map PreparedStatement) (db : d.State)
      → i.Holds m db
      → i.Holds m (rollback_describe_savepoint d db).1
  unfolding rollback_describe_savepoint
  rollback-Holds m db h =
      let db₁ = (d.exec (codes "ROLLBACK TO execdb_describe") db).1 in
      let h₁ = i.exec m db (codes "ROLLBACK TO execdb_describe") h in
      elim (Sum-cases (d.exec (codes "ROLLBACK TO execdb_describe") db).0) [
        | inl (e, p) ↦ rw (p, rollback_describe_savepoint) h₁
        | inr (n, p) ↦
            rw (p, rollback_describe_savepoint) (i.exec m db₁ (codes "RELEASE execdb_describe") h₁)
      ]

  shape_of-Holds :
      (m : Map PreparedStatement) (formats : List ℕ) (rows : Rows) (db : d.State)
      → i.Holds m db
      → HoldsShape d i m (shape_of d formats rows db)
  unfolding shape_of
  shape_of-Holds m formats rows db h = elim (Sum-cases rows.types) [
    | inl (e, p) ↦ rw (p, HoldsShape, shape_of) h
    | inr (cts, p) ↦
        rw (p, HoldsShape, shape_of)
          (elim (Option-cases (build_result_columns formats 0 cts)) [
            | inl q ↦ rw (q, HoldsShape, shape_of) tt
            | inr (cols, q) ↦ rw (q, HoldsShape, shape_of) h
          ])
  ]

  trial_run-Holds :
      (m : Map PreparedStatement) (ps : PreparedStatement) (formats : List ℕ) (args : List Value)
      (db : d.State)
      → i.Holds m db
      → HoldsShape d i m (trial_run d ps formats args db)
  unfolding trial_run
  trial_run-Holds m ps formats args db h =
      let db₁ = (d.query_stmt ps.stmt args db).1 in
      let db₂ = (rollback_describe_savepoint d db₁).1 in
      let h₂ : i.Holds m db₂ = rollback-Holds m db₁ (i.query_stmt m db ps.stmt args h) in
      elim (Sum-cases (d.query_stmt ps.stmt args db).0) [
        | inl (e, p) ↦ rw (p, HoldsShape, trial_run) h₂
        | inr (rows, p) ↦
            rw (p, HoldsShape, trial_run)
              (elim (Option-cases (rollback_describe_savepoint d db₁).0) [
                | inl q ↦ rw (q, HoldsShape, trial_run) (shape_of-Holds m formats rows db₂ h₂)
                | inr (e, q) ↦ rw (q, HoldsShape, trial_run) h₂
              ])
      ]

  describe_row_shape-Holds :
      (m : Map PreparedStatement) (ps : PreparedStatement) (formats : List ℕ) (args : List Value)
      (db : d.State)
      → i.Holds m db
      → HoldsShape d i m (describe_row_shape d ps formats args db)
  unfolding describe_row_shape
  describe_row_shape-Holds m ps formats args db h =
      let save = codes "SAVEPOINT execdb_describe" in
      let db₁ = (d.exec save db).1 in
      elim (Bool-cases ps.row_returning) [
        | inl r ↦
            rw (r, HoldsShape, describe_row_shape)
              (elim (Sum-cases (d.exec save db).0) [
                | inl (e, p) ↦ rw (p, HoldsShape, describe_row_shape) (i.exec m db save h)
                | inr (n, p) ↦
                    rw (p, HoldsShape, describe_row_shape)
                      (trial_run-Holds m ps formats args db₁ (i.exec m db save h))
              ])
        | inr r ↦ rw (r, HoldsShape, describe_row_shape) h
      ]

  describe_statement-Holds :
      (name : Text) (found : PreparedStatement) (c : Conn d.State)
      → lookup name c.statements ≡ some found
      → HoldsConn d i c
      → HoldsHandled d i (describe_statement d name found c)
  unfolding describe_statement
  describe_statement-Holds name found c e h =
      let kept = (known_types found).0 in
      let args = map (representative_value d.zero_time) (known_types found).1 in
      let ps : PreparedStatement = record found { param_oids = kept } in
      let shape = describe_row_shape d ps [] args c.db in
      let hs = describe_row_shape-Holds c.statements ps [] args c.db h in
      elim (Option-cases shape) [
        | inl q ↦ rw (q, HoldsHandled, describe_statement) tt
        | inr ((ok, roids, replies, db), q) ↦
            rw (q, HoldsHandled, describe_statement)
              (i.update_stmt c.statements db name found kept roids e
                (subst (HoldsShape d i c.statements) q hs))
      ]

  describe_portal-Holds :
      (name : Text) (p : Portal) (ps : PreparedStatement) (c : Conn d.State)
      → HoldsConn d i c
      → HoldsHandled d i (describe_portal d name p ps c)
  unfolding describe_portal
  describe_portal-Holds name p ps c h =
      let hs = describe_row_shape-Holds c.statements ps p.result_formats p.args c.db h in
      elim (Option-cases (describe_row_shape d ps p.result_formats p.args c.db)) [
        | inl q ↦ rw (q, HoldsHandled, describe_portal) tt
        | inr ((ok, poids, replies, db), q) ↦
            rw (q, HoldsHandled, describe_portal) (subst (HoldsShape d i c.statements) q hs)
      ]

  describe_target-Holds :
      (kind : ℕ) (name : Text) (c : Conn d.State)
      → HoldsConn d i c
      → HoldsHandled d i (describe_target d kind name c)
  unfolding describe_target
  describe_target-Holds kind name c h = elim (Bool-cases (kind == b'S')) [
    | inl s ↦
        rw (s, HoldsHandled, describe_target)
          (elim (Option-cases (lookup name c.statements)) [
            | inl q ↦ rw (q, HoldsHandled, describe_target) h
            | inr (ps, q) ↦
                rw (q, HoldsHandled, describe_target) (describe_statement-Holds name ps c q h)
          ])
    | inr s ↦
        rw (s, HoldsHandled, describe_target)
          (elim (Bool-cases (kind == b'P')) [
            | inr s ↦ rw (s, HoldsHandled, describe_target) h
            | inl s ↦
                rw (s, HoldsHandled, describe_target)
                  (elim (Option-cases (lookup name c.portals)) [
                    | inl q ↦ rw (q, HoldsHandled, describe_target) h
                    | inr (p, q) ↦
                        rw (q, HoldsHandled, describe_target)
                          (elim (Option-cases (lookup p.stmt_name c.statements)) [
                            | inl q ↦ rw (q, HoldsHandled, describe_target) h
                            | inr (ps, q) ↦
                                rw (q, HoldsHandled, describe_target)
                                  (describe_portal-Holds name p ps c h)
                          ])
                  ])
          ])
  ]

  pub handle_describe-Holds :
      (c : Conn d.State) (body : Bytes)
      → HoldsConn d i c
      → HoldsHandled d i (handle_describe d c body)
  unfolding handle_describe
  handle_describe-Holds c [] h = h
  handle_describe-Holds c (kind ∷ body) h = elim (Option-cases (read_cstring body)) [
    | inl p ↦ rw (p, HoldsHandled, handle_describe) h
    | inr ((name, rest), p) ↦
        rw (p, HoldsHandled, handle_describe) (describe_target-Holds kind name c h)
  ]
