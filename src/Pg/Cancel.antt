-- ===== src/Pg/Cancel.antt =====
-- cmd/execdb/pgcancel.go: the registry through which a CancelRequest finds its connection.
pub mod Laws
pub mod Steps
pub mod Attributed
pub mod Called
use execdb.Prelude.{
  ℕ, ◌+◌, Bool, true, false, ◌&&◌, Option, none, some, ◌==◌, if◌then◌else◌, List, [], ◌∷◌,
}

-- `cancelKey`.
pub record CancelKey : Type 0 where
  pub pid : ℕ
  pub secret : ℕ

abbrev pub same_key : CancelKey → CancelKey → Bool
same_key a b = a.pid == b.pid && a.secret == b.secret

-- `cancelRegistry`, with the objects that it points to: the `connCancel` of each connection, by its
-- number, holds the query that its `cancel` belongs to. `cancelled` has the queries whose `cancel`
-- was called.
pub record Registry : Type 0 where
  pub entries : List (CancelKey × ℕ)
  pub running : ℕ → Option ℕ
  pub next_conn : ℕ
  pub cancelled : List ℕ

-- `r.entries[key]`.
unfoldable pub entry_of : CancelKey → List (CancelKey × ℕ) → Option ℕ
entry_of key [] = none
entry_of key ((k, cc) ∷ entries) = if same_key k key then some cc else entry_of key entries

-- `delete(r.entries, key)`.
unfoldable pub remove_entry : CancelKey → List (CancelKey × ℕ) → List (CancelKey × ℕ)
remove_entry key [] = []
remove_entry key ((k, cc) ∷ entries) =
    if same_key k key then remove_entry key entries else (k, cc) ∷ remove_entry key entries

-- The loop of `register` over the keys that `rand` gives; `none` where they are all in use.
unfoldable pub fresh_key : List CancelKey → List (CancelKey × ℕ) → Option CancelKey
unfolding entry_of
fresh_key [] entries = none
fresh_key (key ∷ keys) entries = elim (entry_of key entries) [
  | none ↦ some key
  | some _ ↦ fresh_key keys entries
]

abbrev pub set_running : ℕ → Option ℕ → (ℕ → Option ℕ) → ℕ → Option ℕ
set_running cc q running n = if n == cc then q else running n

-- `register`: the key, the connection, and the registry.
unfoldable pub register : List CancelKey → Registry → Option (CancelKey × ℕ × Registry)
unfolding fresh_key
register keys r = elim (fresh_key keys r.entries) [
  | none ↦ none
  | some key ↦ some (
    key,
    r.next_conn,
    record r {
      entries = (key, r.next_conn) ∷ r.entries;
      running = set_running r.next_conn none r.running;
      next_conn = r.next_conn + 1;
    },
  )
]

-- The function that `register` returns.
unfoldable pub unregister : CancelKey → Registry → Registry
unfolding remove_entry
unregister key r = record r { entries = remove_entry key r.entries }

-- `begin`, and the function that it returns.
unfoldable pub begin : ℕ → ℕ → Registry → Registry
begin cc q r = record r { running = set_running cc (some q) r.running }

unfoldable pub end : ℕ → Registry → Registry
end cc r = record r { running = set_running cc none r.running }

-- `cancelCurrent`.
unfoldable pub cancel_current : ℕ → Registry → Registry
cancel_current cc r = elim (r.running cc) [
  | none ↦ r
  | some q ↦ record r { cancelled = q ∷ r.cancelled }
]

-- `cancel`.
unfoldable pub cancel : CancelKey → Registry → Registry × Bool
unfolding entry_of cancel_current
cancel key r = elim (entry_of key r.entries) [
  | none ↦ (r, false)
  | some cc ↦ (cancel_current cc r, true)
]
