-- ===== src/Pg/Cancel/Steps.antt =====
-- cmd/execdb/pgcancel.go: connections and requests side by side. A request looks its key up under one
-- lock, reads `cancel` under another, and calls it under none.
use mathlib.Core.List.{Memᴰ}
use execdb.Prelude.{ℕ, none, some, List, [], ◌∷◌, ◌≡◌}
use execdb.Pg.Cancel.{CancelKey, Registry, entry_of, register, unregister, begin, end}

-- The registry; the keys that were given to connections, and the queries that these began; and of the
-- requests, by their keys: the connections found, the queries read, and those cancelled.
pub record Requests : Type 0 where
  pub registry : Registry
  pub given : List (CancelKey × ℕ)
  pub begun : List (ℕ × ℕ)
  pub found : List (CancelKey × ℕ)
  pub read : List (CancelKey × ℕ)
  pub called : List (CancelKey × ℕ)

abbrev pub no_requests : Requests
no_requests = record {
  registry = record { entries = []; running = λ cc. none; next_conn = 0; cancelled = [] };
  given = [];
  begun = [];
  found = [];
  read = [];
  called = [];
}

pub data Step (w : Requests) : Requests → Type 0 where
  registers :
      (keys : List CancelKey) (key : CancelKey) (cc : ℕ) (r : Registry)
      → register keys w.registry ≡ some (key, cc, r)
      → Step w (record w { registry = r; given = (key, cc) ∷ w.given })
  unregisters : (key : CancelKey) → Step w (record w { registry = unregister key w.registry })
  begins :
      (cc q : ℕ) → Step w (record w { registry = begin cc q w.registry; begun = (cc, q) ∷ w.begun })
  ends : (cc : ℕ) → Step w (record w { registry = end cc w.registry })
  looks_up :
      (key : CancelKey) (cc : ℕ)
      → entry_of key w.registry.entries ≡ some cc
      → Step w (record w { found = (key, cc) ∷ w.found })
  reads_cancel :
      (key : CancelKey) (cc q : ℕ)
      → Memᴰ (key, cc) w.found
      → w.registry.running cc ≡ some q
      → Step w (record w { read = (key, q) ∷ w.read })
  calls_cancel :
      (key : CancelKey) (q : ℕ)
      → Memᴰ (key, q) w.read
      → Step w (record w { called = (key, q) ∷ w.called })

pub data Steps : Requests → Requests → Type 0 where
  no_step : {w : Requests} → Steps w w
  after : {u v w : Requests} → Steps u v → Step v w → Steps u w
