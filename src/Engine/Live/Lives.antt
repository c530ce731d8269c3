-- ===== src/Engine/Live/Lives.antt =====
-- engine/engine.go and engine/session.go: a DB and its sessions stay sound.
use mathlib.Core.Path.{subst}
use execdb.Prelude.{
  ◌+◌, Bool, true, false, List, [], ◌∷◌, ◌≡◌, ◌⊎◌, inl, inr, refl, ◌∙◌, sym, arith, Bool-cases,
}
use execdb.Engine.Errors.{Error, Result, ok, err, closed, sqlite_error}
use execdb.Engine.Live.{Handles, set_open, opened, released, Live, close, pooled, Session, session}
use execdb.Engine.Live.Sessions.{
  Life, Call, opens_session, closes_session, closes_db, keep, close_nth, perform, perform_all, Held,
  Sound, Held-bounds, Held-agree, close_nth-Kept, close_nth-Held,
}

session-cases :
    (db : Live) (fails : Bool) (w : Handles)
    → ((cause : Error) × (session db fails w ≡ (err cause, w)))
      ⊎ (session db fails w ≡ (ok (record { conn = w.next; is_closed = false }), opened w))
unfolding session pooled
session-cases db fails w = elim (Bool-cases db.is_closed) [
  | inl c ↦ inl (closed, rw (c, session) refl)
  | inr c ↦ elim (Bool-cases fails) [
    | inl f ↦ inl (sqlite_error, rw (c, session) (rw (f, session) refl))
    | inr f ↦ inr (rw (c, session) (rw (f, session) refl))
  ]
]

close-cases :
    (db : Live) (w : Handles)
    → (close db w ≡ (db, w))
      ⊎ ((db.is_closed ≡ false)
          × (close db w ≡ (record db { is_closed = true }, released db.sdb (released db.keeper w))))
unfolding close
close-cases db w = elim (Bool-cases db.is_closed) [
  | inl c ↦ inl (rw (c, close) refl)
  | inr c ↦ inr (c, rw (c, close) refl)
]

session-Sound : (fails : Bool) (l : Life) → Sound l → Sound (perform (opens_session fails) l)
session-Sound fails l (p, q, lt, h, m) =
    let w = l.handles in
    let from = Held-bounds w.is_open (l.db.keeper + 1) w.next l.sessions h in
    let same =
      Held-agree w.is_open (set_open w.next true w.is_open) (l.db.keeper + 1) w.next l.sessions
        (λ k b u. ground (arith, u)) h in
    let now : Life = record l {
      sessions = record { conn = w.next; is_closed = false } ∷ l.sessions;
      handles = opened w;
    } in
    let held : Sound now = (
      ground (arith, p, lt, from),
      ground (arith, q, from),
      lt,
      (omega arith, ground arith, same),
      m,
    ) in
    let holds = λ (x : Result Session × Handles).
      Sound (record l { sessions = keep l.sessions x.0; handles = x.1 }) in
    elim (session-cases l.db fails w) [
      | inl (cause, e) ↦ subst holds (sym e) (p, q, lt, h, m)
      | inr e ↦ subst holds (sym e) held
    ]

close-Sound : (l : Life) → Sound l → Sound (perform closes_db l)
close-Sound l (p, q, lt, h, m) =
    let w = l.handles in
    let same =
      Held-agree w.is_open (released l.db.sdb (released l.db.keeper w)).is_open (l.db.keeper + 1)
        w.next l.sessions (λ k b u. ground (arith, b, lt)) h in
    let now : Life = record l {
      db = record l.db { is_closed = true };
      handles = released l.db.sdb (released l.db.keeper w);
    } in
    let holds = λ (x : Live × Handles). Sound (record l { db = x.0; handles = x.1 }) in
    elim (close-cases l.db w) [
      | inl e ↦ subst holds (sym e) (p, q, lt, h, m)
      | inr (c, e) ↦
          let held : Sound now =
            (ground arith, ground arith, lt, same, ground (arith, p, q, lt, m, c)) in
          subst holds (sym e) held
    ]

perform-Sound : (c : Call) (l : Life) → Sound l → Sound (perform c l)
perform-Sound (opens_session fails) l h = session-Sound fails l h
perform-Sound closes_db l h = close-Sound l h
perform-Sound (closes_session i) l (p, q, lt, h, m) =
    let w = l.handles in
    let after = (close_nth i l.sessions w).1.is_open in
    let sessions = (close_nth i l.sessions w).0 in
    let (e, n, x) = close_nth-Kept i (l.db.keeper + 1) w.next l.sessions w h in
    let held = close_nth-Held i (l.db.keeper + 1) w.next l.sessions w h in
    (
      e l.db.sdb (inl (omega (arith, lt))) ∙ p,
      e l.db.keeper (inl (omega arith)) ∙ q,
      lt,
      subst (λ hi. Held after (l.db.keeper + 1) hi sessions) (sym x) held,
      n ∙ m,
    )

-- In whatever order sessions are opened and closed on a DB and the DB is closed, each as often as
-- it may be, from a sound state on: the pool and the keeper are open until the DB is closed, the
-- connection of each session is its own and open until the session is closed, and no handle is
-- closed that is not open.
pub perform_all-Sound : (calls : List Call) (l : Life) → Sound l → Sound (perform_all calls l)
perform_all-Sound [] l h = h
perform_all-Sound (c ∷ calls) l h = perform_all-Sound calls (perform c l) (perform-Sound c l h)
