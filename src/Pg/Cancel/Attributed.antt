-- ===== src/Pg/Cancel/Attributed.antt =====
-- cmd/execdb/pgcancel.go: what holds of the keys, the connections and the requests.
use mathlib.Core.Path.{subst}
use mathlib.Core.List.{Memᴰ}
use mathlib.Core.List.Memᴰ
use execdb.Prelude.{
  ℕ, ◌<◌, true, Option, none, some, Option-cases, List, [], ◌∷◌, ◌≡◌, inl, inr, refl, ◌==◌,
  if◌then◌else◌, sym, ap, ◌∙◌, arith, Bool-cases,
}
use execdb.Pg.Cancel.Laws.{removed}
use execdb.Pg.Cancel.{
  CancelKey, same_key, Registry, entry_of, remove_entry, register, begin, fresh_key,
}
use execdb.Pg.Cancel.Steps.{Requests}

same_key-eq : (a b : CancelKey) → same_key a b ≡ true → a ≡ b
same_key-eq a b e =
    let p : a.pid ≡ b.pid = ground (arith, e) in
    let q : a.secret ≡ b.secret = ground (arith, e) in
    ap (λ x. record { pid = x; secret = a.secret }) p
    ∙ ap (λ y. record { pid = b.pid; secret = y }) q

pub entry_of-remove_entry :
    (key k : CancelKey) (entries : List (CancelKey × ℕ)) {cc : ℕ}
    → entry_of k (remove_entry key entries) ≡ some cc
    → entry_of k entries ≡ some cc
unfolding entry_of remove_entry
entry_of-remove_entry key k [] e = e
entry_of-remove_entry key k ((j, n) ∷ entries) {cc} e =
    let again = entry_of-remove_entry key k entries {cc = cc} in
    elim (Bool-cases (same_key j key)) [
      | inr p ↦ ground (arith, p, e, again)
      | inl p ↦ elim (Bool-cases (same_key j k)) [
        | inr q ↦ ground (arith, p, q, e, again)
        | inl q ↦
            let same : k ≡ key = sym (same_key-eq j k q) ∙ same_key-eq j key p in
            let gone =
              subst (λ x. entry_of x (remove_entry key entries) ≡ none) (sym same)
                (removed key entries) in
            absurd (ground (arith, p, e, gone))
      ]
    ]

-- The keys that a connection was given.
unfoldable pub keys_of : ℕ → List (CancelKey × ℕ) → List CancelKey
keys_of n [] = []
keys_of n ((key, cc) ∷ given) = let rest = keys_of n given in if cc == n then key ∷ rest else rest

-- A connection that is still to come has none.
keys_of-new :
    (n : ℕ) (given : List (CancelKey × ℕ))
    → ((key : CancelKey) (cc : ℕ) → Memᴰ (key, cc) given → cc < n)
    → keys_of n given ≡ []
unfolding keys_of
keys_of-new n [] h = refl
keys_of-new n ((key, cc) ∷ given) h =
    let below = h key cc (Memᴰ.head refl) in
    ground (arith, below, keys_of-new n given (λ k c m. h k c (Memᴰ.tail m)))

-- The query was begun on a connection that was given the key, and no other.
abbrev pub Begun : Requests → CancelKey → ℕ → Type 0
Begun w key q = (cc : ℕ) × (keys_of cc w.given ≡ key ∷ []) × Memᴰ (cc, q) w.begun

pub begun-more :
    (cc q : ℕ) (w : Requests) (key : CancelKey) (p : ℕ)
    → Begun w key p
    → Begun (record w { registry = begin cc q w.registry; begun = (cc, q) ∷ w.begun }) key p
begun-more cc q w key p (n, g, b) = (n, g, Memᴰ.tail b)

-- Each connection has one key, and what the requests have found, read and called is accounted for.
pub record Attributed (w : Requests) : Type 0 where
  pub numbered : (key : CancelKey) (cc : ℕ) → Memᴰ (key, cc) w.given → cc < w.registry.next_conn
  pub owned : (key : CancelKey) (cc : ℕ) → Memᴰ (key, cc) w.given → keys_of cc w.given ≡ key ∷ []
  pub entered :
      (key : CancelKey) (cc : ℕ)
      → entry_of key w.registry.entries ≡ some cc
      → Memᴰ (key, cc) w.given
  pub runs : (cc q : ℕ) → w.registry.running cc ≡ some q → Memᴰ (cc, q) w.begun
  pub finds : (key : CancelKey) (cc : ℕ) → Memᴰ (key, cc) w.found → Memᴰ (key, cc) w.given
  pub has_read : (key : CancelKey) (q : ℕ) → Memᴰ (key, q) w.read → Begun w key q
  pub has_called : (key : CancelKey) (q : ℕ) → Memᴰ (key, q) w.called → Begun w key q

-- What a registration leaves.
abbrev pub Registered : Requests → Option (CancelKey × ℕ × Registry) → Type 0
Registered v none = Unit
Registered v (some (key, n, r)) = Attributed (record v { registry = r; given = (key, n) ∷ v.given })

pub pair-eq : {A B : Type 0} {a b : A} {x y : B} → a ≡ b → x ≡ y → ◌≡◌ {A = A × B} (a, x) (b, y)
pair-eq {b = b} {x = x} p q = ap (λ c. (c, x)) p ∙ ap (λ z. (b, z)) q

owned-cons :
    (v : Requests) (key k : CancelKey) (n : ℕ)
    → Attributed v
    → Memᴰ (k, n) ((key, v.registry.next_conn) ∷ v.given)
    → keys_of n ((key, v.registry.next_conn) ∷ v.given) ≡ k ∷ []
unfolding keys_of
owned-cons v key k n a m =
    let none_yet = keys_of-new v.registry.next_conn v.given a.numbered in
    elim (Memᴰ.cases_cons m) [
      | inl p ↦
          let same : (v.registry.next_conn, key) ≡ (n, k) =
            pair-eq (sym (ap (λ x. x.1) p)) (sym (ap (λ x. x.0) p)) in
          subst (λ x. keys_of x.0 ((key, v.registry.next_conn) ∷ v.given) ≡ x.1 ∷ []) same
            (ground (arith, none_yet))
      | inr m ↦ ground (arith, a.numbered k n m, a.owned k n m)
    ]

entered-cons :
    (v : Requests) (key k : CancelKey) (n : ℕ)
    → Attributed v
    → entry_of k ((key, v.registry.next_conn) ∷ v.registry.entries) ≡ some n
    → Memᴰ (k, n) ((key, v.registry.next_conn) ∷ v.given)
unfolding entry_of
entered-cons v key k n a e = elim (Bool-cases (same_key key k)) [
  | inl p ↦ Memᴰ.head (pair-eq (sym (same_key-eq key k p)) (ground (arith, p, e)))
  | inr p ↦ Memᴰ.tail (a.entered k n (ground (arith, p, e)))
]

nil-cons : {x : CancelKey} {xs : List CancelKey} → ¬ ([] ≡ x ∷ xs)
nil-cons e = cc

given-more :
    (key k : CancelKey) (q : ℕ) (v : Requests)
    → Attributed v
    → Begun v k q
    → Begun (record v { given = (key, v.registry.next_conn) ∷ v.given }) k q
unfolding keys_of
given-more key k q v a (n, g, b) =
    let none_yet = keys_of-new v.registry.next_conn v.given a.numbered in
    (
      n,
      elim (Bool-cases (v.registry.next_conn == n)) [
        | inl p ↦
            let same : v.registry.next_conn ≡ n = ground (arith, p) in
            let gone = subst (λ x. keys_of x v.given ≡ []) same none_yet in
            absurd (nil-cons (sym gone ∙ g))
        | inr p ↦ ground (arith, p, g)
      ],
      b,
    )

pub register-Registered :
    (keys : List CancelKey) (v : Requests) → Attributed v → Registered v (register keys v.registry)
unfolding register
register-Registered keys v a = elim (Option-cases (fresh_key keys v.registry.entries)) [
  | inl p ↦ rw (p, Registered, register) tt
  | inr (key, p) ↦
      rw (p, Registered, register)
        record {
          numbered = λ k n m. elim (Memᴰ.cases_cons m) [
            | inl q ↦ omega (arith, ap (λ x. x.1) q)
            | inr m ↦ omega (arith, a.numbered k n m)
          ];
          owned = λ k n m. owned-cons v key k n a m;
          entered = λ k n e. entered-cons v key k n a e;
          runs = λ n q e. a.runs n q (ground (arith, e));
          finds = λ k n m. Memᴰ.tail (a.finds k n m);
          has_read = λ k q m. given-more key k q v a (a.has_read k q m);
          has_called = λ k q m. given-more key k q v a (a.has_called k q m);
        }
]
