-- ===== src/Engine/Barrier.antt =====
-- engine/persist.go: `serializeBarrier` call by call, among the sessions that write to the same
-- database; with `serializeConn` of engine/serialize.go.
pub mod Steps
pub mod Laws
use execdb.Prelude.{ℕ, Bool, true, false, Option, none, some, if◌then◌else◌, List, [], ◌∷◌, Bytes}
use execdb.Engine.Errors.{Result, ok, err, closed, too_large, busy, sqlite_error}

-- The next call of `serializeBarrier`. Its two deferred calls come last, in reverse.
pub data Call : Type 0 where
  pooled conn begin serialize : Call
  rollback : Result Bytes → Call
  close : Result Bytes → Call
  returned : Result Bytes → Call

-- Who holds SQLite's write lock: the barrier, or a session with what it has written so far.
pub data Holder (Content : Type 0) : Type 0 where
  barrier : Holder Content
  session : ℕ → Content → Holder Content

-- The database and the barrier's place. `history` has every content that was committed, the last
-- one first, and `rollback_failed` whether the deferred ROLLBACK failed; the code keeps neither.
pub record World (Content : Type 0) : Type 0 where
  pub committed : Content
  pub history : List Content
  pub lock : Option (Holder Content)
  pub is_closed : Bool
  pub next_call : Call
  pub rollback_failed : Bool

-- What `serializeConn` returned, and the test for an empty blob.
abbrev pub checked_blob : Option Bytes → Result Bytes
checked_blob none = err sqlite_error
checked_blob (some []) = err too_large
checked_blob (some (b ∷ blob)) = ok (b ∷ blob)

module _ {Content : Type 0} where
  -- What a bare `Serialize` sees: the pages as they are, with a transaction that is not over.
  abbrev pub visible_to : Content → Option (Holder Content) → Content
  visible_to c none = c
  visible_to c (some barrier) = c
  visible_to c (some (session k written)) = written

  abbrev pub visible : World Content → Content
  visible w = visible_to w.committed w.lock

  -- The end of the barrier's own transaction, which wrote nothing.
  abbrev pub unlock : Option (Holder Content) → Option (Holder Content)
  unlock (some barrier) = none
  unlock lock = lock

  -- Whether the barrier holds the lock.
  abbrev pub is_barrier : Option (Holder Content) → Bool
  is_barrier (some barrier) = true
  is_barrier _ = false

  module _ (serialization : Content → Option Bytes) where
    -- BEGIN IMMEDIATE, which waits for the busy timeout at most.
    unfoldable pub begin_immediate : Bool → Option (Holder Content) → World Content → World Content
    begin_immediate fails (some holder) w = record w { next_call = close (err busy) }
    begin_immediate true none w = record w { next_call = close (err busy) }
    begin_immediate false none w = record w { lock = some barrier; next_call = serialize }

    unfoldable pub call : Bool → Call → World Content → World Content
    unfolding begin_immediate
    call fails pooled w = record w {
      next_call = if w.is_closed then returned (err closed) else conn;
    }
    call fails conn w = record w {
      next_call = if fails then returned (err sqlite_error) else begin;
    }
    call fails begin w = begin_immediate fails w.lock w
    call fails serialize w = record w {
      next_call =
          rollback (if fails then err sqlite_error else checked_blob (serialization (visible w)));
    }
    call fails (rollback r) w = record w {
      lock = if fails then w.lock else unlock w.lock;
      rollback_failed = fails;
      next_call = close r;
    }
    call fails (close r) w = record w { next_call = returned r }
    call fails (returned r) w = record w { next_call = returned r }

    -- One call of `serializeBarrier`, which may fail.
    unfoldable pub advance : Bool → World Content → World Content
    unfolding call
    advance fails w = call fails w.next_call w
