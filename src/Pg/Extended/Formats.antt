-- ===== src/Pg/Extended/Formats.antt =====
-- cmd/execdb/pgextended.go: Bind's list of format codes.
use mathlib.Core.Path.{subst}
use execdb.Prelude.{
  ℕ, zero, suc, ◌+◌, ◌≤◌, ◌<◌, Option, none, some, List, [], ◌∷◌, length, get_elem?, Bytes, ◌≡◌,
  ◌≢◌, ◌⊎◌, inl, inr, refl, arith, Option-cases, ap, All, lookup,
}
use execdb.Pg.Types.{Value, string, null, decode_binary_param}
use execdb.Pg.Messages.{format_code_for}
use execdb.Pg.Conn.{Driver, Conn, PreparedStatement}
use execdb.Pg.Messages.{Bind}
use execdb.Pg.Messages.Laws.{Sendable, bind_bytes, parse_bind_message-bind_bytes}
use execdb.Pg.Extended.Statements.{
  bind_args, bind_next, Bound, bound, unsupported, out_of_range, oid_at, handle_bind,
  bind_statement, open_portal,
}

get_elem?-lt : (xs : List ℕ) (i : ℕ) → i < length xs → get_elem? xs i ≢ none
get_elem?-lt [] i h e = absurd (omega arith)
get_elem?-lt (x ∷ xs) zero h e = ground arith
get_elem?-lt (x ∷ xs) (suc i) h e = get_elem?-lt xs i (omega arith) e

get_elem?-ge : (xs : List ℕ) (i : ℕ) → length xs ≤ i → get_elem? xs i ≡ none
get_elem?-ge [] i h = refl
get_elem?-ge (x ∷ xs) zero h = absurd (omega arith)
get_elem?-ge (x ∷ xs) (suc i) h = get_elem?-ge xs i (omega arith)

format_code_for-enough :
    (formats : List ℕ) (i : ℕ)
    → (length formats < 2) ⊎ (i < length formats)
    → format_code_for formats i ≢ none
unfolding format_code_for
format_code_for-enough [] i h e = ground arith
format_code_for-enough (x ∷ []) i h e = ground arith
format_code_for-enough (x ∷ y ∷ xs) i (inl h) e = absurd (omega arith)
format_code_for-enough (x ∷ y ∷ xs) i (inr h) e = get_elem?-lt (x ∷ y ∷ xs) i h e

get_elem?-All : (P : ℕ → Type 0) (xs : List ℕ) (i x : ℕ) → All P xs → get_elem? xs i ≡ some x → P x
get_elem?-All P [] i x a e = absurd (ground arith)
get_elem?-All P (y ∷ xs) zero x a e = let same : y ≡ x = ground arith in subst P same a.0
get_elem?-All P (y ∷ xs) (suc i) x a e = get_elem?-All P xs i x a.1 e

format_code_for-text :
    (formats : List ℕ) (i code : ℕ)
    → All (λ code. code ≢ 1) formats
    → format_code_for formats i ≡ some code
    → code ≢ 1
unfolding format_code_for
format_code_for-text [] i code a e = ground arith
format_code_for-text (x ∷ []) i code a e = get_elem?-All (λ c. c ≢ 1) (x ∷ []) 0 code a e
format_code_for-text (x ∷ y ∷ xs) i code a e = get_elem?-All (λ c. c ≢ 1) (x ∷ y ∷ xs) i code a e

module _ (d : Driver) where
  bind_next-ok : (v : Value) (b : Bound) → b ≢ out_of_range → bind_next v b ≢ out_of_range
  bind_next-ok v (bound vs) h e = ground arith
  bind_next-ok v (unsupported j o) h e = ground arith
  bind_next-ok v out_of_range h e = h e

  -- With no format code, one, or at least one for each parameter, the decoding of the parameters is
  -- never out of range.
  pub bind_args-enough :
      (formats oids : List ℕ) (j : ℕ) (values : List (Option Bytes))
      → (length formats < 2) ⊎ (j + length values ≤ length formats)
      → bind_args d formats oids j values ≢ out_of_range
  unfolding bind_args
  bind_args-enough formats oids j [] h e = ground arith
  bind_args-enough formats oids j (none ∷ vs) h e =
      bind_next-ok null _ (bind_args-enough formats oids (j + 1) vs (ground arith)) e
  bind_args-enough formats oids j (some v ∷ vs) h e =
      let rest = bind_args-enough formats oids (j + 1) vs (ground arith) in
      elim (Option-cases (format_code_for formats j)) [
        | inl p ↦ format_code_for-enough formats j (ground arith) p
        | inr (code, p) ↦ elim (Option-cases (decode_binary_param d.widen (oid_at d oids j) v)) [
          | inl q ↦ ground (arith, p, q, e, bind_next-ok (string v) _ rest)
          | inr (val, q) ↦
              ground (arith, p, q, e, bind_next-ok (string v) _ rest, bind_next-ok val _ rest)
        ]
      ]

  -- With two format codes or more but none for a parameter that is not NULL, the decoding is out of
  -- range.
  bind_args-short :
      (formats oids : List ℕ) (j : ℕ) (v : Bytes) (vs : List (Option Bytes))
      → 2 ≤ length formats
      → length formats ≤ j
      → bind_args d formats oids j (some v ∷ vs) ≡ out_of_range
  unfolding bind_args format_code_for
  bind_args-short [] oids j v vs h k = absurd (omega arith)
  bind_args-short (x ∷ []) oids j v vs h k = absurd (omega arith)
  bind_args-short (x ∷ y ∷ xs) oids j v vs h k = ground (arith, get_elem?-ge (x ∷ y ∷ xs) j k)

  -- The same, of a parameter further on, with no code that asks for the binary format.
  bind_args-short_texts :
      (formats oids : List ℕ) (j : ℕ) (values : List (Option Bytes)) (i : ℕ) (v : Bytes)
      → 2 ≤ length formats
      → All (λ code. code ≢ 1) formats
      → length formats ≤ j + i
      → get_elem? values i ≡ some (some v)
      → bind_args d formats oids j values ≡ out_of_range
  unfolding bind_args
  bind_args-short_texts formats oids j [] i v h a k e = absurd (ground arith)
  bind_args-short_texts formats oids j (none ∷ vs) zero v h a k e = absurd (ground arith)
  bind_args-short_texts formats oids j (some u ∷ vs) zero v h a k e =
      bind_args-short formats oids j u vs h (omega arith)
  bind_args-short_texts formats oids j (none ∷ vs) (suc i) v h a k e =
      ap (bind_next null) (bind_args-short_texts formats oids (j + 1) vs i v h a (omega arith) e)
  bind_args-short_texts formats oids j (some u ∷ vs) (suc i) v h a k e =
      let rest = bind_args-short_texts formats oids (j + 1) vs i v h a (omega arith) e in
      elim (Option-cases (format_code_for formats j)) [
        | inl p ↦ ground (arith, p)
        | inr (code, p) ↦ ground (arith, p, rest, format_code_for-text formats j code a p)
      ]

  -- A Bind message whose parts fit their fields, for a statement that is there and takes as many
  -- parameters, with two format codes or more, none of which asks for the binary format, but none
  -- for a parameter that is not NULL, indexes out of range, which stops the process.
  pub handle_bind-short :
      (c : Conn d.State) (b : Bind) (ps : PreparedStatement) (i : ℕ) (v : Bytes)
      → Sendable b
      → lookup b.stmt_name c.statements ≡ some ps
      → length b.param_values ≡ ps.num_params
      → 2 ≤ length b.param_formats
      → All (λ code. code ≢ 1) b.param_formats
      → length b.param_formats ≤ i
      → get_elem? b.param_values i ≡ some (some v)
      → handle_bind d c (bind_bytes b) ≡ none
  unfolding handle_bind bind_statement open_portal
  handle_bind-short c b ps i v sent found same h a k e = ground (
    arith,
    parse_bind_message-bind_bytes b sent,
    found,
    same,
    bind_args-short_texts b.param_formats ps.param_oids 0 b.param_values i v h a (omega arith) e,
  )
