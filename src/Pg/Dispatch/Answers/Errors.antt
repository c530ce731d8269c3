-- ===== src/Pg/Dispatch/Answers/Errors.antt =====
-- cmd/execdb/pgwire.go: the errors of the messages between two Syncs.
use mathlib.Core.Path.{subst}
use execdb.Prelude.{
  Bool, true, false, not, ◌&&◌, ◌||◌, none, some, ◌==◌, List, [], ◌∷◌, All, ◌≡◌, ◌⊎◌, refl, arith,
  inl, inr,
}
use execdb.Pg.Wire.{Reply, Message}
use execdb.Pg.Conn.{Driver, Conn, Handled}
use execdb.Pg.Dispatch.{
  dispatch, run, goes_on, ends, crashes, Outcome, is_extended, handle_extended, after_handler,
  Outcome-cases,
}
use execdb.Pg.Dispatch.Answers.{count, count-append, is_error, answers, answered}
use execdb.Pg.Dispatch.Answers.Messages.{handle_extended-answered}

module _ (d : Driver) where
  -- Where the connection goes on: the errors, if it was in the error state or not, and if it is.
  unfoldable has_errors : Bool → Outcome d → Bool
  unfolding count
  has_errors was (goes_on c replies) =
      (count is_error replies == 0 && (not was || c.in_error))
      || (count is_error replies == 1 && not was && c.in_error)
  has_errors was ends = true
  has_errors was crashes = true

  after_handler-has_errors :
      (r : Handled d.State) → answered r ≡ true → has_errors false (after_handler d r) ≡ true
  unfolding after_handler answered answers has_errors
  after_handler-has_errors none h = refl
  after_handler-has_errors (some (true, c, replies)) h = ground (arith, h)
  after_handler-has_errors (some (false, c, replies)) h = ground (arith, h)

  dispatch-has_errors :
      (c : Conn d.State) (msg : Message)
      → is_extended msg.kind ≡ true
      → has_errors c.in_error (dispatch d c msg) ≡ true
  unfolding dispatch has_errors count is_extended
  dispatch-has_errors c msg h =
      let after =
        after_handler-has_errors (handle_extended d c msg) (handle_extended-answered d c msg) in
      ground (arith, h, after)

  run-has_errors :
      (c : Conn d.State) (msgs : List Message)
      → All (λ msg. is_extended msg.kind ≡ true) msgs
      → has_errors c.in_error (run d c msgs) ≡ true
  unfolding run has_errors count
  run-has_errors c [] h = ground arith
  run-has_errors c (msg ∷ msgs) h = elim (Outcome-cases d (dispatch d c msg)) [
    | inl (c₁, replies, e) ↦
        let this = subst (λ o. has_errors c.in_error o ≡ true) e (dispatch-has_errors c msg h.0) in
        rw (e, run)
          (elim (Outcome-cases d (run d c₁ msgs)) [
            | inl (c₂, more, f) ↦
                let rest =
                  subst (λ o. has_errors c₁.in_error o ≡ true) f (run-has_errors c₁ msgs h.1) in
                rw (f, run) (ground (arith, this, rest, count-append is_error replies more))
            | inr (inl f) ↦ rw (f, run) refl
            | inr (inr f) ↦ rw (f, run) refl
          ])
    | inr (inl e) ↦ rw (e, run) refl
    | inr (inr e) ↦ rw (e, run) refl
  ]

  -- While the connection goes on, messages of the extended protocol, as many as there are, are
  -- answered with no error, or with a single one, where the connection was not in the error state
  -- before them and is in it behind them.
  pub run-errors :
      (c : Conn d.State) (msgs : List Message) {after : Conn d.State} {replies : List Reply}
      → All (λ msg. is_extended msg.kind ≡ true) msgs
      → run d c msgs ≡ goes_on after replies
      → (count is_error replies ≡ 0)
        ⊎ ((count is_error replies ≡ 1) × (c.in_error ≡ false) × (after.in_error ≡ true))
  unfolding has_errors
  run-errors c msgs {after} {replies} h e =
      let few = subst (λ o. has_errors c.in_error o ≡ true) e (run-has_errors c msgs h) in
      ground (arith, few)
