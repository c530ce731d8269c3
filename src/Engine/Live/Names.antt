-- ===== src/Engine/Live/Names.antt =====
-- engine/engine.go: the names that `newLiveDB` gives to the databases of a process.
use native.Mathlib.Nat.{pow-suc}
use execdb.Prelude.{
  ℕ, zero, suc, ◌+◌, ◌*◌, ◌-◌, ◌/◌, ◌%◌, ◌^◌, ◌<◌, Bool, true, false, [], ◌∷◌, ◌++◌, Text, codes,
  ◌≡◌, ◌≢◌, ap, sym, ◌∙◌, arith, if◌then◌else◌, ltb, Bool-cases, inl, inr, append_assoc, drop, ◌≤◌,
}
use execdb.Pg.Values.{decimal, decimal_from}
use execdb.Engine.Live.{Handles, Live, new_live_db, dsn_of}
use execdb.Engine.Errors.{ok}

-- The number in front of the first character that is no digit, behind the digits read.
unfoldable number_from : ℕ → Text → ℕ
number_from n [] = n
number_from n (c ∷ s) =
    let rest = number_from (n * 10 + (c - b'0')) s in
    if ltb c b'0' then n else if ltb b'9' c then n else rest

tens : (n : ℕ) → n / 10 * 10 + (b'0' + n % 10 - b'0') ≡ n
tens n = omega arith

number_from-digit :
    (n : ℕ) (s : Text) → number_from (n / 10) ((b'0' + n % 10) ∷ s) ≡ number_from n s
unfolding number_from
number_from-digit n s = let same = ap (λ x. number_from x s) (tens n) in ground (arith, same)

number_from-short :
    (n : ℕ) (s : Text) → n < 10 → number_from 0 ((b'0' + n % 10) ∷ s) ≡ number_from n s
number_from-short n s h =
    ap (λ x. number_from x ((b'0' + n % 10) ∷ s)) (omega (arith, h)) ∙ number_from-digit n s

number_from-decimal_from :
    (k n : ℕ) (s : Text) → n < 10 ^ k → number_from 0 (decimal_from k n ++ s) ≡ number_from n s
unfolding decimal_from
number_from-decimal_from zero n s h = ap (λ x. number_from x s) (omega (arith, h))
number_from-decimal_from (suc k) n s h = elim (Bool-cases (ltb n 10)) [
  | inl b ↦ rw (b, decimal_from) (number_from-short n s (ground (arith, b)))
  | inr b ↦
      rw (b, decimal_from)
        (ap (number_from 0) (append_assoc (decimal_from k (n / 10)) ((b'0' + n % 10) ∷ []) s)
          ∙ number_from-decimal_from k (n / 10) ((b'0' + n % 10) ∷ s)
              (omega (arith, h, pow-suc 10 k))
          ∙ number_from-digit n s)
]

number_from-dsn_of : (n : ℕ) → n < 2 ^ 63 → number_from 0 (drop 12 (dsn_of n)) ≡ n
unfolding decimal number_from
number_from-dsn_of n h =
    number_from-decimal_from 20 n (codes "?vfs=memdb&_busy_timeout=5000") (omega (arith, h))

new_live_db-named :
    (open_fails conn_fails : Bool) (w : Handles) {v : Handles} {db : Live}
    → new_live_db open_fails conn_fails w ≡ (ok db, v)
    → (db.dsn ≡ dsn_of v.seq) × (v.seq ≡ w.seq + 1)
unfolding new_live_db
new_live_db-named true conn_fails w e = absurd (ground (arith, e))
new_live_db-named false true w e = absurd (ground (arith, e))
new_live_db-named false false w e = ground (arith, e)

-- The databases that two calls of `newLiveDB` open have different names, and so share no store,
-- whatever other calls come between.
pub new_live_db-dsn :
    (open_fails conn_fails open_fails₁ conn_fails₁ : Bool) (w w₁ : Handles) {v v₁ : Handles}
    {db db₁ : Live}
    → new_live_db open_fails conn_fails w ≡ (ok db, v)
    → v.seq ≤ w₁.seq
    → new_live_db open_fails₁ conn_fails₁ w₁ ≡ (ok db₁, v₁)
    → v₁.seq < 2 ^ 63
    → db.dsn ≢ db₁.dsn
new_live_db-dsn open_fails conn_fails open_fails₁ conn_fails₁ w w₁ {v} {v₁} {db} {db₁} e l f h
      same =
    let (a, b) = new_live_db-named open_fails conn_fails w e in
    let (a₁, b₁) = new_live_db-named open_fails₁ conn_fails₁ w₁ f in
    let numbered = ap (λ t. number_from 0 (drop 12 t)) (sym a ∙ same ∙ a₁) in
    let first = number_from-dsn_of v.seq (omega (arith, h, l, b₁)) in
    let second = number_from-dsn_of v₁.seq h in omega (arith, numbered, first, second, l, b₁)
