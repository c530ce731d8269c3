-- ===== src/Pg/Cancel/Called.antt =====
-- cmd/execdb/pgcancel.go: which queries the requests cancel.
use mathlib.Core.Path.{subst}
use mathlib.Core.List.{Memᴰ}
use mathlib.Core.List.Memᴰ
use execdb.Prelude.{ℕ, some, ◌==◌, [], ◌≡◌, inl, inr, sym, arith, Bool-cases}
use execdb.Pg.Cancel.{CancelKey, entry_of, unregister, begin, end}
use execdb.Pg.Cancel.Steps.{
  Requests, no_requests, Step, registers, unregisters, begins, ends, looks_up, reads_cancel,
  calls_cancel, Steps, no_step, after,
}
use execdb.Pg.Cancel.Attributed.{
  entry_of-remove_entry, begun-more, pair-eq, register-Registered, Attributed, Registered, Begun,
}

Step-Attributed : {v w : Requests} → Step v w → Attributed v → Attributed w
unfolding unregister begin end
Step-Attributed {v} (registers keys key cc r e) a =
    subst (Registered v) e (register-Registered keys v a)
Step-Attributed (unregisters key) a = record {
  numbered = a.numbered;
  owned = a.owned;
  entered = λ k cc e. a.entered k cc (entry_of-remove_entry key k _ e);
  runs = a.runs;
  finds = a.finds;
  has_read = a.has_read;
  has_called = a.has_called;
}
Step-Attributed {v} (begins cc q) a = record {
  numbered = a.numbered;
  owned = a.owned;
  entered = a.entered;
  runs = λ n p e. elim (Bool-cases (n == cc)) [
    | inl k ↦ Memᴰ.head (pair-eq (ground (arith, k)) (ground (arith, k, e)))
    | inr k ↦ Memᴰ.tail (a.runs n p (ground (arith, k, e)))
  ];
  finds = a.finds;
  has_read = λ k p m. begun-more cc q v k p (a.has_read k p m);
  has_called = λ k p m. begun-more cc q v k p (a.has_called k p m);
}
Step-Attributed (ends cc) a = record {
  numbered = a.numbered;
  owned = a.owned;
  entered = a.entered;
  runs = λ n p e. a.runs n p (ground (arith, e));
  finds = a.finds;
  has_read = a.has_read;
  has_called = a.has_called;
}
Step-Attributed (looks_up key cc e) a = record {
  numbered = a.numbered;
  owned = a.owned;
  entered = a.entered;
  runs = a.runs;
  finds = λ k n m. elim (Memᴰ.cases_cons m) [
    | inl p ↦ Memᴰ.cast p (a.entered key cc e)
    | inr m ↦ a.finds k n m
  ];
  has_read = a.has_read;
  has_called = a.has_called;
}
Step-Attributed {v} (reads_cancel key cc q m e) a = record {
  numbered = a.numbered;
  owned = a.owned;
  entered = a.entered;
  runs = a.runs;
  finds = a.finds;
  has_read = λ k p o. elim (Memᴰ.cases_cons o) [
    | inl same ↦
        let g = a.finds key cc m in
        let this : Begun v key q = (cc, a.owned key cc g, a.runs cc q e) in
        subst (λ x. Begun v x.0 x.1) (sym same) this
    | inr o ↦ a.has_read k p o
  ];
  has_called = a.has_called;
}
Step-Attributed {v} (calls_cancel key q m) a = record {
  numbered = a.numbered;
  owned = a.owned;
  entered = a.entered;
  runs = a.runs;
  finds = a.finds;
  has_read = a.has_read;
  has_called = λ k p o. elim (Memᴰ.cases_cons o) [
    | inl same ↦ subst (λ x. Begun v x.0 x.1) (sym same) (a.has_read key q m)
    | inr o ↦ a.has_called k p o
  ];
}

nothing_entered : (k : CancelKey) (n : ℕ) → ¬ (entry_of k [] ≡ some n)
unfolding entry_of
nothing_entered k n e = ground (arith, e)

Steps-Attributed : {w : Requests} → Steps no_requests w → Attributed w
Steps-Attributed steps = go steps start
  where
    start : Attributed no_requests
    start = record {
      numbered = λ k n m. absurd (Memᴰ.not-nil m);
      owned = λ k n m. absurd (Memᴰ.not-nil m);
      entered = λ k n e. absurd (nothing_entered k n e);
      runs = λ n q e. absurd (ground (arith, e));
      finds = λ k n m. absurd (Memᴰ.not-nil m);
      has_read = λ k q m. absurd (Memᴰ.not-nil m);
      has_called = λ k q m. absurd (Memᴰ.not-nil m);
    }

    go : {v w : Requests} → Steps v w → Attributed v → Attributed w
    go no_step a = a
    go (after steps step) a = Step-Attributed step (go steps a)

-- In whatever order connections come, run their queries and go, and requests take their steps, even
-- between the locks: a query that a request cancels was begun on a connection that was given the
-- key of the request, and that was given no other key.
pub Steps-called :
    {w : Requests} (key : CancelKey) (q : ℕ)
    → Steps no_requests w
    → Memᴰ (key, q) w.called
    → Begun w key q
Steps-called key q steps m = (Steps-Attributed steps).has_called key q m
