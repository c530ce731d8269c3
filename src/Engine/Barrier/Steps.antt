-- ===== src/Engine/Barrier/Steps.antt =====
-- engine/persist.go: the interleavings of `serializeBarrier` with the other sessions, as a step
-- relation.
use execdb.Prelude.{ℕ, Bool, true, false, Option, none, some, [], ◌∷◌, Bytes, ◌≡◌}
use execdb.Engine.Errors.{Result}
use execdb.Engine.Barrier.{World, Holder, barrier, session, pooled, returned, advance}

module _ {Content : Type 0} (serialization : Content → Option Bytes) where
  -- The environment is SQLite's: one session at a time writes, and nothing else changes the
  -- content. In `reuses`, the pool hands the barrier's connection to a session with its transaction
  -- still open.
  pub data Step (w : World Content) : World Content → Type 0 where
    code : (fails : Bool) → Step w (advance serialization fails w)
    begins : (k : ℕ) → w.lock ≡ none → Step w (record w { lock = some (session k w.committed) })
    writes :
        (k : ℕ) (old new : Content)
        → w.lock ≡ some (session k old)
        → Step w (record w { lock = some (session k new) })
    commits :
        (k : ℕ) (written : Content)
        → w.lock ≡ some (session k written)
        → Step w (record w { committed = written; history = written ∷ w.history; lock = none })
    rolls_back :
        (k : ℕ) (written : Content)
        → w.lock ≡ some (session k written)
        → Step w (record w { lock = none })
    closes : Step w (record w { is_closed = true })
    reuses :
        (k : ℕ) (r : Result Bytes)
        → w.next_call ≡ returned r
        → w.lock ≡ some barrier
        → Step w (record w { lock = some (session k w.committed) })

  pub data Reaches (w : World Content) : World Content → Type 0 where
    here : Reaches w w
    after : {u v : World Content} → Reaches w u → Step u v → Reaches w v

-- `serializeBarrier` is called while the other sessions do what they do.
abbrev pub called : {Content : Type 0} → Content → Option (Holder Content) → Bool → World Content
called c lock closed = record {
  committed = c;
  history = c ∷ [];
  lock = lock;
  is_closed = closed;
  next_call = pooled;
  rollback_failed = false;
}
