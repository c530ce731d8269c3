-- ===== src/Engine/Live/Sessions.antt =====
-- engine/engine.go and engine/session.go: a DB and its sessions, opened and closed in any order.
use mathlib.Core.Path.{subst}
use execdb.Prelude.{
  ℕ, zero, suc, ◌+◌, ◌<◌, ◌≤◌, Bool, true, false, not, List, [], ◌∷◌, ◌≡◌, ◌⊎◌, inl, inr, refl, ◌∙◌,
  sym, arith, Bool-cases,
}
use execdb.Engine.Errors.{Result, ok, err}
use execdb.Engine.Live.{Handles, set_open, released, Live, close, Session, session, close_session}

-- A DB with the sessions that were opened on it, the last one first.
pub record Life : Type 0 where
  pub db : Live
  pub sessions : List Session
  pub handles : Handles

pub data Call : Type 0 where
  opens_session : Bool → Call  -- whether `sdb.Conn` fails
  closes_session : ℕ → Call
  closes_db : Call

abbrev pub keep : List Session → Result Session → List Session
keep sessions (err e) = sessions
keep sessions (ok s) = s ∷ sessions

-- `Session.Close` on the `i`th session.
abbrev pub close_nth : ℕ → List Session → Handles → List Session × Handles
close_nth i [] w = ([], w)
close_nth zero (s ∷ sessions) w = ((close_session s w).0 ∷ sessions, (close_session s w).1)
close_nth (suc i) (s ∷ sessions) w = (s ∷ (close_nth i sessions w).0, (close_nth i sessions w).1)

abbrev pub perform : Call → Life → Life
perform (opens_session fails) l =
    let (r, w) = session l.db fails l.handles in
    record l { sessions = keep l.sessions r; handles = w }
perform (closes_session i) l =
    let (sessions, w) = close_nth i l.sessions l.handles in
    record l { sessions = sessions; handles = w }
perform closes_db l = let (db, w) = close l.db l.handles in record l { db = db; handles = w }

abbrev pub perform_all : List Call → Life → Life
perform_all [] l = l
perform_all (c ∷ calls) l = perform_all calls (perform c l)

-- Below `hi` and from `lo` on, each session has a connection of its own, which is open until the
-- session is closed.
abbrev pub Held : (ℕ → Bool) → ℕ → ℕ → List Session → Type 0
Held is_open lo hi [] = lo ≤ hi
Held is_open lo hi (s ∷ sessions) =
    (s.conn < hi) × (is_open s.conn ≡ not s.is_closed) × Held is_open lo s.conn sessions

-- The pool and the keeper are open until the DB is closed, each session's connection until the
-- session is, and no handle was closed twice.
abbrev pub Sound : Life → Type 0
Sound l =
    (l.handles.is_open l.db.sdb ≡ not l.db.is_closed)
    × (l.handles.is_open l.db.keeper ≡ not l.db.is_closed)
    × (l.db.sdb < l.db.keeper)
    × Held l.handles.is_open (l.db.keeper + 1) l.handles.next l.sessions
    × (l.handles.misused ≡ false)

pub Held-bounds :
    (f : ℕ → Bool) (lo hi : ℕ) (sessions : List Session) → Held f lo hi sessions → lo ≤ hi
Held-bounds f lo hi [] h = h
Held-bounds f lo hi (s ∷ sessions) (b, o, r) = omega (arith, b, Held-bounds f lo s.conn sessions r)

pub Held-agree :
    (f g : ℕ → Bool) (lo hi : ℕ) (sessions : List Session)
    → ((k : ℕ) → lo ≤ k → k < hi → g k ≡ f k)
    → Held f lo hi sessions
    → Held g lo hi sessions
Held-agree f g lo hi [] e h = h
Held-agree f g lo hi (s ∷ sessions) e (b, o, r) =
    let from = Held-bounds f lo s.conn sessions r in
    (
      b,
      ground (arith, e s.conn from b, o),
      Held-agree f g lo s.conn sessions (λ k l u. e k l (omega (arith, u, b))) r,
    )

-- What `Session.Close` on one of the sessions does to the handles.
abbrev pub Kept : ℕ → ℕ → Handles → Handles → Type 0
Kept lo hi v w =
    ((k : ℕ) → (k < lo) ⊎ (hi ≤ k) → w.is_open k ≡ v.is_open k)
    × (w.misused ≡ v.misused)
    × (w.next ≡ v.next)

pub close_nth-Kept :
    (i lo hi : ℕ) (sessions : List Session) (w : Handles)
    → Held w.is_open lo hi sessions
    → Kept lo hi w (close_nth i sessions w).1
unfolding close_session
close_nth-Kept i lo hi [] w h = (λ k b. refl, refl, refl)
close_nth-Kept zero lo hi (s ∷ sessions) w (b, o, r) =
    let from = Held-bounds w.is_open lo s.conn sessions r in
    (λ k c. ground (arith, b, from, c), ground (arith, o), ground arith)
close_nth-Kept (suc i) lo hi (s ∷ sessions) w (b, o, r) =
    let (e, m, n) = close_nth-Kept i lo s.conn sessions w r in
    (λ k c. e k (elim c [ inl l ↦ inl l | inr u ↦ inr (omega (arith, b, u)) ]), m, n)

close_session-cases :
    (s : Session) (w : Handles)
    → (close_session s w ≡ (s, w))
      ⊎ (close_session s w ≡ (record s { is_closed = true }, released s.conn w))
unfolding close_session
close_session-cases s w = elim (Bool-cases s.is_closed) [
  | inl c ↦ inl (rw (c, close_session) refl)
  | inr c ↦ inr (rw (c, close_session) refl)
]

pub close_nth-Held :
    (i lo hi : ℕ) (sessions : List Session) (w : Handles)
    → Held w.is_open lo hi sessions
    → Held (close_nth i sessions w).1.is_open lo hi (close_nth i sessions w).0
unfolding close_session
close_nth-Held i lo hi [] w h = h
close_nth-Held zero lo hi (s ∷ sessions) w (b, o, r) =
    let agreed =
      Held-agree w.is_open (set_open s.conn false w.is_open) lo s.conn sessions
        (λ k l u. ground (arith, u)) r in
    let holds = λ (x : Session × Handles). Held x.1.is_open lo hi (x.0 ∷ sessions) in
    elim (close_session-cases s w) [
      | inl e ↦ subst holds (sym e) (b, o, r)
      | inr e ↦ subst holds (sym e) (b, ground arith, agreed)
    ]
close_nth-Held (suc i) lo hi (s ∷ sessions) w (b, o, r) =
    let (e, m, n) = close_nth-Kept i lo s.conn sessions w r in
    (b, e s.conn (inr (omega arith)) ∙ o, close_nth-Held i lo s.conn sessions w r)
