-- ===== src/Pg/Types.antt =====
-- cmd/execdb/pgtype.go: type OIDs, and values on the wire. An int64, a float64 and a time's distance
-- from PostgreSQL's epoch in nanoseconds are their 64-bit patterns.
pub mod Laws
pub mod Width
use execdb.Prelude.{
  ℕ, ◌+◌, ◌-◌, ◌*◌, ◌/◌, ◌%◌, ◌^◌, Bool, true, false, not, ◌&&◌, ◌||◌, Option, none, some, ◌==◌,
  if◌then◌else◌, List, [], ◌∷◌, map, Text, codes, Bytes, put_be, get_be, get_be_from, length,
  contains, to_upper, is_negative,
}

abbrev pub oid_bool : ℕ
oid_bool = 16

abbrev pub oid_bytea : ℕ
oid_bytea = 17

abbrev pub oid_int8 : ℕ
oid_int8 = 20

abbrev pub oid_int2 : ℕ
oid_int2 = 21

abbrev pub oid_int4 : ℕ
oid_int4 = 23

abbrev pub oid_oid : ℕ
oid_oid = 26

abbrev pub oid_text : ℕ
oid_text = 25

abbrev pub oid_float4 : ℕ
oid_float4 = 700

abbrev pub oid_float8 : ℕ
oid_float8 = 701

abbrev pub oid_timestamp : ℕ
oid_timestamp = 1114

abbrev pub oid_numeric : ℕ
oid_numeric = 1700

-- A value of Go's `any`, as database/sql scans and binds them.
pub data Value : Type 0 where
  null : Value
  int64 : ℕ → Value
  float64 : ℕ → Value
  boolean : Bool → Value
  blob : Bytes → Value
  string : Text → Value
  time : ℕ → Value

-- `pgColumn`.
pub record Column : Type 0 where
  pub name : Text
  pub oid : ℕ
  pub binary : Bool

abbrev pub is_one_of : ℕ → List ℕ → Bool
is_one_of x [] = false
is_one_of x (y ∷ ys) = x == y || is_one_of x ys

-- `binaryCapableOIDs`.
unfoldable pub is_binary_capable : ℕ → Bool
is_binary_capable oid =
    is_one_of oid (oid_int8 ∷ oid_float8 ∷ oid_bool ∷ oid_bytea ∷ oid_timestamp ∷ [])

-- `pgTypLen`, as an int16 pattern: 0xffff is -1.
unfoldable pub pg_typ_len : ℕ → ℕ
pg_typ_len oid =
    if oid == oid_bool
    then 1
    else if is_one_of oid (oid_int8 ∷ oid_float8 ∷ oid_timestamp ∷ [])
    then 8
    else 0xffff

-- `affinityOID`; `none` where it does not match.
unfoldable pub affinity_oid : Text → Option ℕ
unfolding contains to_upper
affinity_oid decl =
    let u = map to_upper decl in
    if contains u (codes "BOOL")
    then some oid_bool
    else if contains u (codes "DATE") || contains u (codes "TIME")
    then some oid_timestamp
    else if contains u (codes "INT")
    then some oid_int8
    else if contains u (codes "CHAR") || contains u (codes "CLOB") || contains u (codes "TEXT")
    then some oid_text
    else if contains u (codes "BLOB")
    then some oid_bytea
    else if contains u (codes "REAL") || contains u (codes "FLOA") || contains u (codes "DOUB")
    then some oid_float8
    else none

-- `scanTypeOID` of the type of a sampled value; `null` stands for no type.
unfoldable pub scan_type_oid : Value → ℕ
scan_type_oid (time t) = oid_timestamp
scan_type_oid (int64 v) = oid_int8
scan_type_oid (float64 v) = oid_float8
scan_type_oid (boolean b) = oid_bool
scan_type_oid (blob b) = oid_bytea
scan_type_oid null = oid_text
scan_type_oid (string s) = oid_text

-- What `rows.ColumnTypes()` says of a column.
pub record ColumnType : Type 0 where
  pub name : Text
  pub decl : Text
  pub sample : Value

-- `columnOID`. An empty declared type matches no affinity.
unfoldable pub column_oid : ColumnType → ℕ
unfolding affinity_oid scan_type_oid
column_oid ct = elim (affinity_oid ct.decl) [ some oid ↦ oid | none ↦ scan_type_oid ct.sample ]

abbrev pub truncate_micros : ℕ → ℕ
truncate_micros t = if is_negative 64 t then (2 ^ 64 - (2 ^ 64 - t) / 1000) % 2 ^ 64 else t / 1000

-- `encodeBinary`, of a time less than 292 years from the epoch, where `Sub` does not saturate.
unfoldable pub encode_binary : ℕ → Value → Option Bytes
unfolding put_be
encode_binary oid (int64 v) =
    if oid == oid_int8
    then some (put_be 8 v)
    else if oid == oid_bool
    then some (if not (v == 0) then 1 ∷ [] else 0 ∷ [])
    else none
encode_binary oid (float64 v) = if oid == oid_float8 then some (put_be 8 v) else none
encode_binary oid (boolean b) =
    if oid == oid_bool then some (if b then 1 ∷ [] else 0 ∷ []) else none
encode_binary oid (blob b) = if oid == oid_bytea then some b else none
encode_binary oid (time t) =
    if oid == oid_timestamp then some (put_be 8 (truncate_micros t)) else none
encode_binary oid _ = none

-- `int64(int16(v))`, `int64(int32(v))`: a pattern of `w` bits to one of 64.
abbrev pub sign_extend : ℕ → ℕ → ℕ
sign_extend w v = if is_negative w v then v + 2 ^ 64 - 2 ^ w else v

abbrev of_width : ℕ → Bytes → Value → Option Value
of_width n data_bytes v = if length data_bytes == n then some v else none

-- `decodeBinaryParam`. A float32 is widened by the machine: `widen`.
module _ (widen : ℕ → ℕ) where
  unfoldable pub decode_binary_param : ℕ → Bytes → Option Value
  unfolding get_be_from
  decode_binary_param oid bs =
      let v = get_be bs in
      if oid == oid_text
      then some (string bs)
      else if oid == oid_int2
      then of_width 2 bs (int64 (sign_extend 16 v))
      else if oid == oid_int4
      then of_width 4 bs (int64 (sign_extend 32 v))
      else if oid == oid_oid
      then of_width 4 bs (int64 v)
      else if oid == oid_int8
      then of_width 8 bs (int64 v)
      else if oid == oid_float4
      then of_width 4 bs (float64 (widen v))
      else if oid == oid_float8
      then of_width 8 bs (float64 v)
      else if oid == oid_bool
      then of_width 1 bs (boolean (not (v == 0)))
      else if oid == oid_bytea
      then some (blob bs)
      else if oid == oid_timestamp
      then of_width 8 bs (time (v * 1000 % 2 ^ 64))
      else none

-- `representativeParamValues`, for one OID (cmd/execdb/pgextended.go). A zero `time.Time` is some
-- time, `zero_time`.
module _ (zero_time : ℕ) where
  unfoldable pub representative_value : ℕ → Value
  representative_value oid =
      if oid == oid_bool
      then boolean false
      else if is_one_of oid (oid_int2 ∷ oid_int4 ∷ oid_int8 ∷ oid_oid ∷ [])
      then int64 0
      else if is_one_of oid (oid_float4 ∷ oid_float8 ∷ oid_numeric ∷ [])
      then float64 0
      else if oid == oid_text
      then string []
      else if oid == oid_bytea
      then blob []
      else if oid == oid_timestamp
      then time zero_time
      else null
