-- ===== src/Pg/Watch/Laws.antt =====
-- cmd/execdb/pgwire.go: when `watchForDisconnect` cancels a query, and what becomes of the bytes.
use execdb.Prelude.{
  ℕ, ◌≤◌, true, false, [], ◌∷◌, ◌++◌, append_assoc, Bytes, length, is_empty, ◌≡◌, ◌⊎◌, inl, inr,
  Bool-cases, refl, ap, ◌∙◌, arith,
}
use execdb.Pg.Watch.{
  Watch, reading, woken, done, stopping, expiring, stopped, watch_for_disconnect, Step, sends,
  hangs_up, reads, read_fails, chooses, closes_stopped, sets_deadline, clears_deadline, Steps,
  no_step, after,
}

-- What the client has done that the watcher can see.
abbrev pub Cause : Watch → Type 0
Cause w = (is_empty w.arrived ≡ false) ⊎ (w.hung_up ≡ true)

-- What holds of a connection from the start of the query on.
pub record Fine (w : Watch) : Type 0 where
  pub conserved : w.arrived ≡ w.taken ++ w.unread
  pub at_first : w.watcher ≡ reading → w.taken ≡ []
  pub at_most : length w.taken ≤ 1
  pub expired_closed : w.expired ≡ true → w.closed ≡ true
  pub stopping_closed : w.main ≡ stopping → w.closed ≡ true
  pub expiring_expired : w.main ≡ expiring → w.expired ≡ true
  pub woken_cause : w.watcher ≡ woken → w.closed ≡ false → Cause w
  pub cancelled_cause : w.cancelled ≡ true → Cause w
  pub stopped_done : w.main ≡ stopped → w.watcher ≡ done

is_empty-snoc : (xs : Bytes) (b : ℕ) → is_empty (xs ++ (b ∷ [])) ≡ false
is_empty-snoc [] b = refl
is_empty-snoc (x ∷ xs) b = refl

Step-Fine : {v w : Watch} → Step v w → Fine v → Fine w
Step-Fine {v} (sends b) f = record {
  conserved = ap (λ x. x ++ (b ∷ [])) f.conserved ∙ append_assoc v.taken v.unread (b ∷ []);
  at_first = f.at_first;
  at_most = f.at_most;
  expired_closed = f.expired_closed;
  stopping_closed = f.stopping_closed;
  expiring_expired = f.expiring_expired;
  woken_cause = λ e k. inl (is_empty-snoc v.arrived b);
  cancelled_cause = λ e. inl (is_empty-snoc v.arrived b);
  stopped_done = f.stopped_done;
}
Step-Fine hangs_up f = record {
  conserved = f.conserved;
  at_first = f.at_first;
  at_most = f.at_most;
  expired_closed = f.expired_closed;
  stopping_closed = f.stopping_closed;
  expiring_expired = f.expiring_expired;
  woken_cause = λ e k. inr refl;
  cancelled_cause = λ e. inr refl;
  stopped_done = f.stopped_done;
}
Step-Fine {v} (reads b bs e u) f = record {
  conserved = ground (arith, f.conserved, f.at_first e, u);
  at_first = λ k. ground arith;
  at_most = ground (arith, f.at_first e);
  expired_closed = f.expired_closed;
  stopping_closed = f.stopping_closed;
  expiring_expired = f.expiring_expired;
  woken_cause = λ k n. inl (ground (arith, f.conserved, f.at_first e, u));
  cancelled_cause = f.cancelled_cause;
  stopped_done = λ k. ground (arith, f.stopped_done k, e);
}
Step-Fine (read_fails e k) f = record {
  conserved = f.conserved;
  at_first = λ k. f.at_first e;
  at_most = f.at_most;
  expired_closed = f.expired_closed;
  stopping_closed = f.stopping_closed;
  expiring_expired = f.expiring_expired;
  woken_cause = λ w n. ground (arith, f.expired_closed, k, n);
  cancelled_cause = f.cancelled_cause;
  stopped_done = λ s. ground (arith, f.stopped_done s, e);
}
Step-Fine (chooses e) f = record {
  conserved = f.conserved;
  at_first = λ k. ground arith;
  at_most = f.at_most;
  expired_closed = f.expired_closed;
  stopping_closed = f.stopping_closed;
  expiring_expired = f.expiring_expired;
  woken_cause = λ k n. ground arith;
  cancelled_cause = λ k. ground (arith, k, f.cancelled_cause, f.woken_cause e);
  stopped_done = λ k. refl;
}
Step-Fine (closes_stopped e) f = record {
  conserved = f.conserved;
  at_first = f.at_first;
  at_most = f.at_most;
  expired_closed = λ k. refl;
  stopping_closed = λ k. refl;
  expiring_expired = λ k. ground arith;
  woken_cause = λ k n. ground arith;
  cancelled_cause = f.cancelled_cause;
  stopped_done = λ k. ground arith;
}
Step-Fine (sets_deadline e) f = record {
  conserved = f.conserved;
  at_first = f.at_first;
  at_most = f.at_most;
  expired_closed = λ k. f.stopping_closed e;
  stopping_closed = λ k. ground arith;
  expiring_expired = λ k. refl;
  woken_cause = f.woken_cause;
  cancelled_cause = f.cancelled_cause;
  stopped_done = λ k. ground arith;
}
Step-Fine (clears_deadline e k) f = record {
  conserved = f.conserved;
  at_first = f.at_first;
  at_most = f.at_most;
  expired_closed = λ k. ground arith;
  stopping_closed = λ k. ground arith;
  expiring_expired = λ k. ground arith;
  woken_cause = f.woken_cause;
  cancelled_cause = f.cancelled_cause;
  stopped_done = λ s. k;
}

pub Steps-Fine : {v w : Watch} → Steps v w → Fine v → Fine w
Steps-Fine no_step f = f
Steps-Fine (after steps step) f = Step-Fine step (Steps-Fine steps f)

pub start-Fine : Fine watch_for_disconnect
start-Fine = record {
  conserved = refl;
  at_first = λ k. refl;
  at_most = omega arith;
  expired_closed = λ k. ground arith;
  stopping_closed = λ k. ground arith;
  expiring_expired = λ k. ground arith;
  woken_cause = λ k n. ground arith;
  cancelled_cause = λ k. ground arith;
  stopped_done = λ k. ground arith;
}

-- In whatever order the client, the goroutine and the loop take their steps, the bytes that the
-- client has sent are those that the goroutine has read, one at most, in front of those that are
-- unread; and the query is not cancelled, or the client has sent something or hung up.
pub Steps-quiet :
    {w : Watch}
    → Steps watch_for_disconnect w
    → (w.arrived ≡ w.taken ++ w.unread) × (length w.taken ≤ 1) × ((w.cancelled ≡ false) ⊎ Cause w)
Steps-quiet {w} steps =
    let f = Steps-Fine steps start-Fine in
    let cause : (w.cancelled ≡ false) ⊎ Cause w = elim (Bool-cases w.cancelled) [
      | inl e ↦ inr (f.cancelled_cause e)
      | inr e ↦ inl e
    ] in
    (f.conserved, f.at_most, cause)
