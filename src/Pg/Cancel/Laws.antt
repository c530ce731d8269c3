-- ===== src/Pg/Cancel/Laws.antt =====
-- cmd/execdb/pgcancel.go: keys and the queries that they cancel.
use execdb.Prelude.{
  ℕ, false, none, some, if◌then◌else◌, List, [], ◌∷◌, ◌≡◌, inl, inr, refl, arith, Option-cases,
}
use execdb.Pg.Cancel.{
  CancelKey, same_key, Registry, entry_of, remove_entry, fresh_key, register, unregister, begin,
  end, cancel_current, cancel,
}

pub fresh_key-is_fresh :
    (keys : List CancelKey) (entries : List (CancelKey × ℕ)) {key : CancelKey}
    → fresh_key keys entries ≡ some key
    → entry_of key entries ≡ none
unfolding fresh_key
fresh_key-is_fresh [] entries {key} e = absurd (ground arith)
fresh_key-is_fresh (k ∷ keys) entries {key} e = elim (Option-cases (entry_of k entries)) [
  | inl p ↦ ground (arith, p, e)
  | inr (cc, p) ↦ fresh_key-is_fresh keys entries (ground (arith, p, e))
]

-- A new connection's key was no one's, and every other key still finds its own connection; a
-- request with the new key, while the connection runs a query, cancels that query and nothing else,
-- and nothing once the query has ended.
pub cancel-register :
    (keys : List CancelKey) (r : Registry) (q : ℕ) (k : CancelKey) {key : CancelKey} {cc : ℕ}
    {r' : Registry}
    → register keys r ≡ some (key, cc, r')
    → (entry_of key r.entries ≡ none)
      × (entry_of k r'.entries ≡ (if same_key key k then some cc else entry_of k r.entries))
      × ((cancel key (begin cc q r')).0.cancelled ≡ q ∷ r.cancelled)
      × ((cancel key (end cc (begin cc q r'))).0.cancelled ≡ r.cancelled)
unfolding register cancel begin end cancel_current entry_of
cancel-register keys r q k {key} {cc} {r'} e = elim (Option-cases (fresh_key keys r.entries)) [
  | inl p ↦ absurd (ground (arith, p, e))
  | inr (j, p) ↦
      let f : entry_of key r.entries ≡ none =
        ground (arith, p, e, fresh_key-is_fresh keys r.entries p) in
      (f, ground (arith, p, e), ground (arith, p, e), ground (arith, p, e))
]

pub removed :
    (key : CancelKey) (entries : List (CancelKey × ℕ))
    → entry_of key (remove_entry key entries) ≡ none
unfolding entry_of remove_entry
removed key [] = refl
removed key ((k, cc) ∷ entries) = ground (arith, removed key entries)

-- Behind the end of a connection, its key cancels nothing.
pub cancel-unregister :
    (key : CancelKey) (r : Registry) → cancel key (unregister key r) ≡ (unregister key r, false)
unfolding cancel unregister
cancel-unregister key r = ground (arith, removed key r.entries)
