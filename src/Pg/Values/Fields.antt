-- ===== src/Pg/Values/Fields.antt =====
-- cmd/execdb/pgtype.go: the fields of a row, beside what RowDescription says of their columns.
use mathlib.Core.Path.{subst}
use execdb.Prelude.{
  ℕ, true, some, none, length, Bytes, ◌≡◌, ◌≢◌, ◌⊎◌, inl, inr, arith, refl, Option-cases,
}
use execdb.Pg.Types.{
  Value, null, int64, float64, boolean, blob, string, time, encode_binary, pg_typ_len,
}
use execdb.Pg.Types.Width.{encode_binary-length}
use execdb.Pg.Values.{Formats, pg_encode_value, encode_present, text_of_value}

encode_present-length :
    (fmt : Formats) (oid : ℕ) (v : Value)
    → pg_typ_len oid ≢ 0xffff
    → (length (encode_present fmt oid true v) ≡ pg_typ_len oid)
      ⊎ ((encode_binary oid v ≡ none) × (encode_present fmt oid true v ≡ text_of_value fmt oid v))
unfolding encode_present
encode_present-length fmt oid v h = elim (Option-cases (encode_binary oid v)) [
  | inl e ↦ inr (e, rw (e, encode_present) refl)
  | inr (bs, e) ↦ elim (encode_binary-length oid v e) [
    | inl l ↦ inl (rw (e, encode_present) l)
    | inr l ↦ absurd (h l)
  ]
]

some-length :
    (fmt : Formats) (oid : ℕ) (v : Value) {bs : Bytes}
    → pg_typ_len oid ≢ 0xffff
    → some (encode_present fmt oid true v) ≡ some bs
    → (length bs ≡ pg_typ_len oid) ⊎ ((encode_binary oid v ≡ none) × (bs ≡ text_of_value fmt oid v))
some-length fmt oid v {bs} h e =
    let same : encode_present fmt oid true v ≡ bs = cc in
    subst
      (λ x.
        (length x ≡ pg_typ_len oid)
        ⊎ ((encode_binary oid v ≡ none) × (x ≡ text_of_value fmt oid v)))
      same (encode_present-length fmt oid v h)

-- In a column of a type of fixed size that is sent in binary format, a field that is not NULL has
-- the size that RowDescription says, or its value has no binary format for the type and its text is
-- sent.
pub pg_encode_value-length :
    (fmt : Formats) (oid : ℕ) (v : Value) {bs : Bytes}
    → pg_typ_len oid ≢ 0xffff
    → pg_encode_value fmt oid true v ≡ some bs
    → (length bs ≡ pg_typ_len oid) ⊎ ((encode_binary oid v ≡ none) × (bs ≡ text_of_value fmt oid v))
unfolding pg_encode_value
pg_encode_value-length fmt oid null h e = absurd (ground (arith, e))
pg_encode_value-length fmt oid (int64 x) h e = some-length fmt oid (int64 x) h e
pg_encode_value-length fmt oid (float64 x) h e = some-length fmt oid (float64 x) h e
pg_encode_value-length fmt oid (boolean x) h e = some-length fmt oid (boolean x) h e
pg_encode_value-length fmt oid (blob x) h e = some-length fmt oid (blob x) h e
pg_encode_value-length fmt oid (string x) h e = some-length fmt oid (string x) h e
pg_encode_value-length fmt oid (time x) h e = some-length fmt oid (time x) h e
