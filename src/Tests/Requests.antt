-- ===== src/Tests/Requests.antt =====
-- Requests to cancel beside a connection.
use mathlib.Core.List.Memᴰ
use execdb.Prelude.{[], ◌∷◌, none, refl}
use execdb.Pg.Cancel.{CancelKey, Registry, set_running, begin, end, register, entry_of}
use execdb.Pg.Cancel.Steps.{
  Requests, no_requests, Steps, no_step, after, registers, begins, ends, looks_up, reads_cancel,
  calls_cancel,
}
use execdb.Pg.Cancel.Attributed.{Begun}
use execdb.Pg.Cancel.Called.{Steps-called}

abbrev key : CancelKey
key = record { pid = 7; secret = 9 }

abbrev given_key : Registry
given_key = record {
  entries = (key, 0) ∷ [];
  running = set_running 0 none (λ cc. none);
  next_conn = 1;
  cancelled = [];
}

-- The second query begins between the two locks of the request.
abbrev cancelled_next : Requests
cancelled_next = record {
  registry = begin 0 2 (end 0 (begin 0 1 given_key));
  given = (key, 0) ∷ [];
  begun = (0, 2) ∷ (0, 1) ∷ [];
  found = (key, 0) ∷ [];
  read = (key, 2) ∷ [];
  called = (key, 2) ∷ [];
}

next_steps : Steps no_requests cancelled_next
unfolding register begin end entry_of
next_steps =
    let joined = after no_step (registers (key ∷ []) key 0 given_key refl) in
    let first = after joined (begins 0 1) in
    let looked = after first (looks_up key 0 refl) in
    let next = after (after looked (ends 0)) (begins 0 2) in
    after (after next (reads_cancel key 0 2 (Memᴰ.head refl) refl))
      (calls_cancel key 2 (Memᴰ.head refl))

called_example : Begun cancelled_next key 2
called_example = Steps-called key 2 next_steps (Memᴰ.head refl)
