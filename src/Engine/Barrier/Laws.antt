-- ===== src/Engine/Barrier/Laws.antt =====
-- engine/persist.go: what `serializeBarrier` returns and what it leaves behind.
use mathlib.Core.Path.{subst}
use execdb.Prelude.{
  ℕ, Bool, true, false, Option, none, some, if◌then◌else◌, List, [], ◌∷◌, Bytes, ◌≡◌, ◌≢◌, ◌⊎◌, inl,
  inr, refl, sym, arith,
}
use execdb.Engine.Errors
use execdb.Engine.Errors.{Result, ok, err, too_large, busy, sqlite_error}
use execdb.Engine.Barrier.{
  World, Holder, barrier, session, Call, pooled, conn, begin, serialize, rollback, close, returned,
  advance, call, begin_immediate, checked_blob, visible_to, unlock, is_barrier,
}
use execdb.Engine.Barrier.Steps.{
  Step, code, begins, writes, commits, rolls_back, closes, reuses, Reaches, here, after, called,
}

-- A content that was committed at some time.
abbrev pub Was : {Content : Type 0} → Content → List Content → Type 0
Was c [] = ⊥
Was c (d ∷ history) = (c ≡ d) ⊎ Was c history

module _ {Content : Type 0} (serialization : Content → Option Bytes) where
  -- The blob is the serialization of a content that was committed.
  abbrev pub Captured : Result Bytes → List Content → Type 0
  Captured (err e) history = Unit
  Captured (ok blob) history =
      (c : Content) × Was c history × (serialization c ≡ some blob) × (blob ≢ [])

  -- The barrier has let the lock go, unless its ROLLBACK failed.
  abbrev pub Released : Option (Holder Content) → Bool → Type 0
  Released lock failed = (is_barrier lock ≡ false) ⊎ (failed ≡ true)

  -- The barrier's lock and its result, by its next call.
  abbrev Fits : Call → Option (Holder Content) → Bool → List Content → Type 0
  Fits serialize lock failed history = is_barrier lock ≡ true
  Fits (rollback r) lock failed history = (is_barrier lock ≡ true) × Captured r history
  Fits (close r) lock failed history = Released lock failed × Captured r history
  Fits (returned r) lock failed history = Released lock failed × Captured r history
  Fits _ lock failed history = is_barrier lock ≡ false

  abbrev Sound : World Content → Type 0
  Sound w = Was w.committed w.history × Fits w.next_call w.lock w.rollback_failed w.history

  checked_blob-Captured :
      (c : Content) (history : List Content)
      → Was c history
      → Captured (checked_blob (serialization c)) history
  checked_blob-Captured c history h = at (serialization c) refl
    where
      at : (o : Option Bytes) → serialization c ≡ o → Captured (checked_blob o) history
      at none e = tt
      at (some []) e = tt
      at (some (b ∷ bs)) e = (c, h, e, λ q. ground arith)

  begin-Sound :
      (fails : Bool) (lock : Option (Holder Content)) (w : World Content)
      → w.lock ≡ lock
      → Was w.committed w.history
      → is_barrier lock ≡ false
      → Sound (begin_immediate serialization fails lock w)
  unfolding begin_immediate
  begin-Sound fails (some holder) w e h n = (h, (inl (ground (arith, e, n)), tt))
  begin-Sound true none w e h n = (h, (inl (ground (arith, e, n)), tt))
  begin-Sound false none w e h n = (h, refl)

  unlock-is_barrier : (lock : Option (Holder Content)) → is_barrier (unlock lock) ≡ false
  unlock-is_barrier none = refl
  unlock-is_barrier (some barrier) = refl
  unlock-is_barrier (some (session k c)) = refl

  visible_to-committed :
      (c : Content) (lock : Option (Holder Content))
      → is_barrier lock ≡ true
      → visible_to c lock ≡ c
  visible_to-committed c (some barrier) h = refl
  visible_to-committed c none h = cc
  visible_to-committed c (some (session k d)) h = cc

  call-Sound :
      (fails : Bool) (k : Call) (w : World Content)
      → Was w.committed w.history
      → Fits k w.lock w.rollback_failed w.history
      → Sound (call serialization fails k w)
  unfolding call
  call-Sound fails pooled w h f = at w.is_closed
    where
      at :
          (b : Bool)
          → Sound (record w { next_call = if b then returned (err Errors.closed) else conn })
      at true = (h, (inl f, tt))
      at false = (h, f)
  call-Sound true conn w h f = (h, (inl f, tt))
  call-Sound false conn w h f = (h, f)
  call-Sound fails begin w h f = begin-Sound fails w.lock w refl h f
  call-Sound true serialize w h f = (h, (f, tt))
  call-Sound false serialize w h f = (
    h,
    (
      f,
      rw (visible_to-committed w.committed w.lock f)
          (checked_blob-Captured w.committed w.history h),
    ),
  )
  call-Sound true (rollback r) w h f = (h, (inr refl, f.1))
  call-Sound false (rollback r) w h f = (h, (inl (unlock-is_barrier w.lock), f.1))
  call-Sound fails (close r) w h f = (h, f)
  call-Sound fails (returned r) w h f = (h, f)

  Captured-cons :
      (r : Result Bytes) (c : Content) (history : List Content)
      → Captured r history
      → Captured r (c ∷ history)
  Captured-cons (err e) c history h = tt
  Captured-cons (ok b) c history (d, h, e, n) = (d, inr h, e, n)

  Fits-session :
      (k : Call) (lock : Option (Holder Content)) (new : Option (Holder Content)) (failed : Bool)
      (history : List Content)
      → is_barrier lock ≡ false
      → is_barrier new ≡ false
      → Fits k lock failed history
      → Fits k new failed history
  Fits-session serialize lock new failed history e n f = absurd (ground (arith, e, f))
  Fits-session (rollback r) lock new failed history e n f = absurd (ground (arith, e, f))
  Fits-session (close r) lock new failed history e n f = (inl n, f.1)
  Fits-session (returned r) lock new failed history e n f = (inl n, f.1)
  Fits-session pooled lock new failed history e n f = n
  Fits-session conn lock new failed history e n f = n
  Fits-session begin lock new failed history e n f = n

  Fits-cons :
      (k : Call) (lock : Option (Holder Content)) (failed : Bool) (c : Content)
      (history : List Content)
      → Fits k lock failed history
      → Fits k lock failed (c ∷ history)
  Fits-cons serialize lock failed c history f = f
  Fits-cons (rollback r) lock failed c history f = (f.0, Captured-cons r c history f.1)
  Fits-cons (close r) lock failed c history f = (f.0, Captured-cons r c history f.1)
  Fits-cons (returned r) lock failed c history f = (f.0, Captured-cons r c history f.1)
  Fits-cons pooled lock failed c history f = f
  Fits-cons conn lock failed c history f = f
  Fits-cons begin lock failed c history f = f

  Fits-reused :
      (k : Call) (lock : Option (Holder Content)) (failed : Bool) (history : List Content)
      (r : Result Bytes) (id : ℕ) (c : Content)
      → k ≡ returned r
      → Fits k lock failed history
      → Fits k (some (session id c)) failed history
  Fits-reused k lock failed history r id c e f =
      subst (λ j. Fits j (some (session id c)) failed history) (sym e)
        (inl refl, (subst (λ j. Fits j lock failed history) e f).1)

  Step-Sound : {w v : World Content} → Step serialization w v → Sound w → Sound v
  unfolding advance
  Step-Sound {w} (code fails) (h, f) = call-Sound fails w.next_call w h f
  Step-Sound {w} (begins k e) (h, f) =
      (h, Fits-session w.next_call w.lock _ w.rollback_failed w.history (ground (arith, e)) refl f)
  Step-Sound {w} (writes k old new e) (h, f) =
      (h, Fits-session w.next_call w.lock _ w.rollback_failed w.history (ground (arith, e)) refl f)
  Step-Sound {w} (commits k written e) (h, f) = (
    inl refl,
    Fits-cons w.next_call none w.rollback_failed written w.history (
        Fits-session w.next_call w.lock none w.rollback_failed w.history (ground (arith, e)) refl
          f),
  )
  Step-Sound {w} (rolls_back k written e) (h, f) = (
    h,
    Fits-session w.next_call w.lock none w.rollback_failed w.history (ground (arith, e)) refl f,
  )
  Step-Sound {w} closes (h, f) = (h, f)
  Step-Sound {w} (reuses k r e l) (h, f) =
      (h, Fits-reused w.next_call w.lock w.rollback_failed w.history r k w.committed e f)

  Reaches-Sound : {w v : World Content} → Reaches serialization w v → Sound w → Sound v
  Reaches-Sound here h = h
  Reaches-Sound (after r s) h = Step-Sound s (Reaches-Sound r h)

  -- However the calls of `serializeBarrier`, which does not hold the lock when it is called,
  -- interleave with sessions that begin, write, commit and roll back, and whichever of its calls
  -- fail: when it has returned, it does not hold the write lock, unless its ROLLBACK failed; and a
  -- blob that it returns is not empty and is the serialization of a content that was committed, at
  -- the call or since.
  pub Reaches-Captured :
      (c : Content) (lock : Option (Holder Content)) (closed : Bool) {w : World Content}
      (r : Result Bytes)
      → is_barrier lock ≡ false
      → Reaches serialization (called c lock closed) w
      → w.next_call ≡ returned r
      → Released w.lock w.rollback_failed × Captured r w.history
  Reaches-Captured c lock closed {w} r n s e =
      subst (λ k. Fits k w.lock w.rollback_failed w.history) e (Reaches-Sound s (inl refl, n)).1
