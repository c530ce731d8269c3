-- ===== src/Pg/Dispatch/Handles.antt =====
-- cmd/execdb/pgextended.go: the prepared statements of database/sql, and who owns them.
use mathlib.Core.Path.{subst}
use execdb.Prelude.{
  ℕ, Bool, true, false, not, ◌&&◌, ◌||◌, some, ◌==◌, List, [], ◌∷◌, ◌≡◌, sym, ap, ◌∙◌, arith, Text,
  lookup, insert, delete, lookup-insert, lookup-delete, eq_text, eq_text_iff, eq_text_refl, Map,
  Bool-cases, ◌⊎◌, inl, inr,
}
use execdb.Pg.Types.{Value}
use execdb.Pg.Wire.{Message, Reply}
use execdb.Pg.Conn.{Driver, Conn, PreparedStatement}
use execdb.Pg.Extended.Statements.{close_all, close_stmts}
use execdb.Pg.Dispatch.{run, goes_on}
use execdb.Pg.Dispatch.Invariant.{Invariant, parsed}
use execdb.Pg.Dispatch.Invariant.Messages.{run-Holds, HoldsOutcome}

-- Which handles of database/sql are open, as its documentation has it: `Prepare` opens the one that
-- it gives, `Close` closes its own, and nothing else opens one.
pub record Handles (d : Driver) : Type 0 where
  pub is_open : ℕ → d.State → Bool
  pub opens :
      (q : Text) (s : d.State) (h k : ℕ)
      → (d.prepare q s).0 ≡ inr h
      → is_open k (d.prepare q s).1 ≡ (k == h || is_open k s)
  pub fails :
      (q : Text) (s : d.State) (e : Text) (k : ℕ)
      → (d.prepare q s).0 ≡ inl e
      → is_open k (d.prepare q s).1 ≡ is_open k s
  pub closes :
      (s : d.State) (h k : ℕ) → is_open k (d.close_stmt h s) ≡ (not (k == h) && is_open k s)
  pub query_stmt :
      (s : d.State) (h : ℕ) (args : List Value) (k : ℕ)
      → is_open k (d.query_stmt h args s).1 ≡ is_open k s
  pub exec_stmt :
      (s : d.State) (h : ℕ) (args : List Value) (k : ℕ)
      → is_open k (d.exec_stmt h args s).1 ≡ is_open k s
  pub query : (s : d.State) (q : Text) (k : ℕ) → is_open k (d.query q s).1 ≡ is_open k s
  pub exec : (s : d.State) (q : Text) (k : ℕ) → is_open k (d.exec q s).1 ≡ is_open k s

module _ (d : Driver) (o : Handles d) where
  -- Each open handle belongs to a statement of the connection.
  abbrev pub Owned : Map PreparedStatement → d.State → Type 0
  Owned m s =
      (k : ℕ)
      → o.is_open k s ≡ true
      → (name : Text) × (ps : PreparedStatement) × (lookup name m ≡ some ps) × (ps.stmt ≡ k)

  abbrev Owner : Map PreparedStatement → ℕ → Type 0
  Owner m k = (name : Text) × (ps : PreparedStatement) × (lookup name m ≡ some ps) × (ps.stmt ≡ k)

  -- The owner of another handle keeps it.
  insert-Owner :
      (m : Map PreparedStatement) (name : Text) (ps : PreparedStatement) (k : ℕ)
      → ((old : PreparedStatement)
          → lookup name m ≡ some old
          → (old.stmt ≡ ps.stmt) ⊎ (¬ (old.stmt ≡ k)))
      → Owner m k
      → Owner (insert name ps m) k
  insert-Owner m name ps k h (n, p, l, e) = elim (Bool-cases (eq_text name n)) [
    | inr q ↦ (n, p, ground (arith, q, l, lookup-insert name n ps m), e)
    | inl q ↦ elim (h p (ground (arith, q, l, eq_text_iff name n))) [
      | inl same ↦
          (name, ps, ground (arith, eq_text_refl name, lookup-insert name name ps m), sym same ∙ e)
      | inr other ↦ absurd (other e)
    ]
  ]

  delete-Owner :
      (m : Map PreparedStatement) (name : Text) (ps : PreparedStatement) (k : ℕ)
      → lookup name m ≡ some ps
      → ¬ (k ≡ ps.stmt)
      → Owner m k
      → Owner (delete name m) k
  delete-Owner m name ps k h ne (n, p, l, e) = elim (Bool-cases (eq_text name n)) [
    | inr q ↦ (n, p, ground (arith, q, l, lookup-delete name n m), e)
    | inl q ↦ absurd (ground (arith, q, l, h, ne, e, eq_text_iff name n))
  ]

  -- A new handle belongs to the statement that it is stored with.
  insert-Owned :
      (m : Map PreparedStatement) (s s' : d.State) (name : Text) (ps : PreparedStatement)
      → ((k : ℕ) → o.is_open k s' ≡ (k == ps.stmt || o.is_open k s))
      → ((old : PreparedStatement) → lookup name m ≡ some old → o.is_open old.stmt s ≡ false)
      → Owned m s
      → Owned (insert name ps m) s'
  insert-Owned m s s' name ps h closed owned k op = elim (Bool-cases (k == ps.stmt)) [
    | inl q ↦ (
      name,
      ps,
      ground (arith, eq_text_refl name, lookup-insert name name ps m),
      ground (arith, q),
    )
    | inr q ↦
        let still : o.is_open k s ≡ true = ground (arith, q, h k, op) in
        insert-Owner m name ps k
          (λ old l. inr (λ e. ground (arith, closed old l, ap (λ n. o.is_open n s) e, still)))
          (owned k still)
  ]

  close-Owned :
      (m : Map PreparedStatement) (s : d.State) (h : ℕ) → Owned m s → Owned m (d.close_stmt h s)
  close-Owned m s h owned k op = owned k (ground (arith, o.closes s h k, op))

  abbrev owned : Invariant d
  owned = record {
    Holds = λ m s. Owned m s;
    query_stmt = λ m s h args i k op. i k (sym (o.query_stmt s h args k) ∙ op);
    exec_stmt = λ m s h args i k op. i k (sym (o.exec_stmt s h args k) ∙ op);
    query = λ m s q i k op. i k (sym (o.query s q k) ∙ op);
    exec = λ m s q i k op. i k (sym (o.exec s q k) ∙ op);
    unprepared = λ m s q e p i k op. i k (sym (o.fails q s e k p) ∙ op);
    close_stmt = λ m s h i. close-Owned m s h i;
    prepare_new = λ m s name q oids h e f p i.
        insert-Owned m s (d.prepare q s).1 name (parsed q oids h) (λ k. o.opens q s h k p)
          (λ old l. absurd (ground (arith, f, l))) i;
    prepare_over = λ m s name q oids h old e f p i.
        let s₁ = d.close_stmt old.stmt s in
        insert-Owned m s₁ (d.prepare q s₁).1 name (parsed q oids h) (λ k. o.opens q s₁ h k p)
          (λ other l. ground (arith, f, l, o.closes s old.stmt old.stmt))
          (close-Owned m s old.stmt i);
    delete_stmt = λ m s name ps e i k op.
        delete-Owner m name ps k e (ground (arith, o.closes s ps.stmt k, op))
          (i k (ground (arith, o.closes s ps.stmt k, op)));
    update_stmt = λ m s name ps poids roids e i k op.
        insert-Owner m name (record ps { param_oids = poids; result_oids = roids }) k
          (λ old l. inl (ground (arith, e, l))) (i k op);
  }

  close_stmts-closed :
      (m : Map PreparedStatement) (s : d.State) (k : ℕ)
      → o.is_open k s ≡ false
      → o.is_open k (close_stmts d m s) ≡ false
  unfolding close_stmts
  close_stmts-closed [] s k h = h
  close_stmts-closed ((name, ps) ∷ m) s k h =
      close_stmts-closed m (d.close_stmt ps.stmt s) k (ground (arith, o.closes s ps.stmt k))

  close_stmts-Owner :
      (m : Map PreparedStatement) (s : d.State) (k : ℕ)
      → Owner m k
      → o.is_open k (close_stmts d m s) ≡ false
  unfolding close_stmts lookup
  close_stmts-Owner [] s k (n, p, l, e) = absurd (ground (arith, l))
  close_stmts-Owner ((name, ps) ∷ m) s k (n, p, l, e) = elim (Bool-cases (eq_text name n)) [
    | inl q ↦
        close_stmts-closed m (d.close_stmt ps.stmt s) k
          (ground (arith, q, l, e, o.closes s ps.stmt k))
    | inr q ↦ close_stmts-Owner m (d.close_stmt ps.stmt s) k (n, p, ground (arith, q, l), e)
  ]

  -- Whatever messages a client sends on a new connection of a session with no open statement, while
  -- it goes on, `closeAll` leaves no prepared statement open.
  pub close_all-run :
      (c : Conn d.State) (msgs : List Message) (k : ℕ) {after : Conn d.State} {replies : List Reply}
      → ((j : ℕ) → o.is_open j c.db ≡ false)
      → run d c msgs ≡ goes_on after replies
      → o.is_open k (close_all d after) ≡ false
  unfolding close_all
  close_all-run c msgs k {after} {replies} h e =
      let new : Owned c.statements c.db = λ j op. absurd (ground (arith, h j, op)) in
      let held : Owned after.statements after.db =
        subst (HoldsOutcome d owned) e (run-Holds d owned c msgs new) in
      elim (Bool-cases (o.is_open k after.db)) [
        | inl op ↦ close_stmts-Owner after.statements after.db k (held k op)
        | inr cl ↦ close_stmts-closed after.statements after.db k cl
      ]
