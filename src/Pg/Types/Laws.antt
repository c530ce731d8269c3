-- ===== src/Pg/Types/Laws.antt =====
-- cmd/execdb/pgtype.go: values in binary format.
use execdb.Prelude.{
  ℕ, ◌+◌, ◌-◌, ◌*◌, ◌/◌, ◌%◌, ◌^◌, ◌<◌, ◌≤◌, Bool, true, false, some, if◌then◌else◌, [], ◌∷◌, Bytes,
  put_be, ◌≡◌, refl, arith, get_be-put_be, ap, sym, ◌∙◌,
}
use execdb.Pg.Types.{
  Value, int64, float64, boolean, blob, time, oid_bool, oid_bytea, oid_int8, oid_int2, oid_int4,
  oid_oid, oid_text, oid_float4, oid_float8, oid_timestamp, oid_numeric, encode_binary,
  decode_binary_param, representative_value, scan_type_oid, truncate_micros, is_one_of,
}

-- The values that a column or a parameter of each type with a binary format holds: 64-bit patterns,
-- and times in whole microseconds.
pub data IsOf : ℕ → Value → Type 0 where
  an_int8 : (v : ℕ) → v < 2 ^ 64 → IsOf oid_int8 (int64 v)
  a_float8 : (v : ℕ) → v < 2 ^ 64 → IsOf oid_float8 (float64 v)
  a_bool : (b : Bool) → IsOf oid_bool (boolean b)
  a_bytea : (bs : Bytes) → IsOf oid_bytea (blob bs)
  a_time : (t : ℕ) → t < 2 ^ 63 → t % 1000 ≡ 0 → IsOf oid_timestamp (time t)
  an_earlier_time :
      (d : ℕ) → 0 < d → d ≤ 2 ^ 63 → d % 1000 ≡ 0 → IsOf oid_timestamp (time (2 ^ 64 - d))

truncate-nonneg : (t : ℕ) → t < 2 ^ 63 → truncate_micros t ≡ t / 1000
truncate-nonneg t h = ground arith

truncate-negative :
    (d : ℕ) → 0 < d → d ≤ 2 ^ 63 → d % 1000 ≡ 0 → truncate_micros (2 ^ 64 - d) ≡ 2 ^ 64 - d / 1000
truncate-negative d p h m = ground arith

decode-put_be_time :
    (widen : ℕ → ℕ) (t micros : ℕ)
    → micros < 2 ^ 64
    → micros * 1000 % 2 ^ 64 ≡ t
    → decode_binary_param widen oid_timestamp (put_be 8 micros) ≡ some (time t)
unfolding decode_binary_param put_be
decode-put_be_time widen t micros h e =
    ap (λ x. some (time (x * 1000 % 2 ^ 64))) (get_be-put_be 8 micros h) ∙ ap (λ x. some (time x)) e

-- `decodeBinaryParam` reads what `encodeBinary` wrote of a value that has the type of its OID,
-- times in whole microseconds.
pub decode-encode_binary :
    (widen : ℕ → ℕ) {oid : ℕ} {v : Value}
    → IsOf oid v
    → (bs : Bytes) × (encode_binary oid v ≡ some bs) × (decode_binary_param widen oid bs ≡ some v)
unfolding encode_binary decode_binary_param
decode-encode_binary widen (an_int8 v h) =
    (put_be 8 v, refl, ap (λ x. some (int64 x)) (get_be-put_be 8 v h))
decode-encode_binary widen (a_float8 v h) =
    (put_be 8 v, refl, ap (λ x. some (float64 x)) (get_be-put_be 8 v h))
decode-encode_binary widen (a_bool true) = (1 ∷ [], refl, refl)
decode-encode_binary widen (a_bool false) = (0 ∷ [], refl, refl)
decode-encode_binary widen (a_bytea bs) = (bs, refl, refl)
decode-encode_binary widen (a_time t h m) = (
  put_be 8 (t / 1000),
  rw (truncate-nonneg t h),
  decode-put_be_time widen t (t / 1000) (omega arith) (omega arith),
)
decode-encode_binary widen (an_earlier_time d p h m) = (
  put_be 8 (2 ^ 64 - d / 1000),
  rw (truncate-negative d p h m),
  decode-put_be_time widen (2 ^ 64 - d) (2 ^ 64 - d / 1000) (omega arith) (omega arith),
)

-- Two binary timestamps that lie 2 ^ 61 microseconds apart decode to the same time.
pub decode-timestamp_wraps :
    (widen : ℕ → ℕ) (micros : ℕ)
    → micros + 2 ^ 61 < 2 ^ 64
    → decode_binary_param widen oid_timestamp (put_be 8 micros)
      ≡ decode_binary_param widen oid_timestamp (put_be 8 (micros + 2 ^ 61))
decode-timestamp_wraps widen micros h =
    decode-put_be_time widen (micros * 1000 % 2 ^ 64) micros (omega arith) refl
    ∙ sym (
        decode-put_be_time widen (micros * 1000 % 2 ^ 64) (micros + 2 ^ 61) (omega arith)
          (omega arith))

-- The OID that a column with a value of the type `oid` for a sample is reported with.
unfoldable pub reported_oid : ℕ → ℕ
reported_oid oid =
    if is_one_of oid (oid_int2 ∷ oid_int4 ∷ oid_oid ∷ [])
    then oid_int8
    else if is_one_of oid (oid_float4 ∷ oid_numeric ∷ [])
    then oid_float8
    else if is_one_of oid (oid_bool ∷ oid_int8 ∷ oid_float8 ∷ oid_bytea ∷ oid_timestamp ∷ [])
    then oid
    else oid_text

-- The value that stands for a parameter in the trial run of a Describe is sampled as the type that
-- the client declared, with integers as int8 and floats as float8, and as text for any other OID.
pub scan_type_oid-representative :
    (zero_time oid : ℕ) → scan_type_oid (representative_value zero_time oid) ≡ reported_oid oid
unfolding scan_type_oid representative_value reported_oid
scan_type_oid-representative zero_time oid = ground arith
