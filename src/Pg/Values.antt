-- ===== src/Pg/Values.antt =====
-- cmd/execdb/pgtype.go: `pgEncodeValue`, and the verbs of `fmt` that the server's messages use.
pub mod Fields
use execdb.Prelude.{
  ℕ, zero, suc, ◌+◌, ◌-◌, ◌/◌, ◌%◌, ◌^◌, Bool, not, ◌&&◌, Option, none, some, ◌==◌, ltb,
  if◌then◌else◌, [], ◌∷◌, ◌++◌, Text, codes, Bytes, is_negative,
}
use execdb.Pg.Types.{
  Value, null, int64, float64, boolean, blob, string, time, oid_bool, encode_binary,
}

-- `%d` of a number with so many digits at most.
unfoldable pub decimal_from : ℕ → ℕ → Text
decimal_from zero n = []
decimal_from (suc k) n =
    let rest = decimal_from k (n / 10) in
    let digit = (b'0' + n % 10) ∷ [] in if ltb n 10 then digit else rest ++ digit

-- `%d` of a number of 64 bits: 20 digits are enough.
unfoldable pub decimal : ℕ → Text
unfolding decimal_from
decimal n = decimal_from 20 n

-- `strconv.FormatInt(x, 10)` of a pattern.
unfoldable pub format_int : ℕ → Text
unfolding decimal
format_int x = if is_negative 64 x then b'-' ∷ decimal (2 ^ 64 - x) else decimal x

unfoldable pub escaped : Text → Text
escaped [] = []
escaped (c ∷ s) =
    if c == b'"'
    then b'\\' ∷ b'"' ∷ escaped s
    else if c == b'\\'
    then b'\\' ∷ b'\\' ∷ escaped s
    else c ∷ escaped s

-- `%q` of a text that can be printed.
unfoldable pub quoted : Text → Text
unfolding escaped
quoted s = b'"' ∷ (escaped s ++ (b'"' ∷ []))

abbrev pub hex_digit : ℕ → ℕ
hex_digit n = if ltb n 10 then b'0' + n else b'a' + (n - 10)

-- `hex.EncodeToString`.
unfoldable pub hex : Bytes → Text
hex [] = []
hex (b ∷ bs) = hex_digit (b / 16) ∷ hex_digit (b % 16) ∷ hex bs

abbrev pub pg_bool_text : Bool → Text
pg_bool_text b = if b then codes "t" else codes "f"

-- What the program has of Go's formatting of a finite float and of a time.
pub record Formats : Type 0 where
  pub format_float : ℕ → Text
  pub format_time : ℕ → Text

abbrev pub mantissa : ℕ → ℕ
mantissa f = f % 2 ^ 52

abbrev pub is_special : ℕ → Bool
is_special f = f / 2 ^ 52 % 2048 == 2047

-- `formatPGFloat`, of the float's bits.
unfoldable pub format_pg_float : Formats → ℕ → Text
format_pg_float fmt f =
    if is_special f && not (mantissa f == 0)
    then codes "NaN"
    else if is_special f && ltb f (2 ^ 63)
    then codes "Infinity"
    else if is_special f
    then codes "-Infinity"
    else fmt.format_float f

-- The text of a value that is not NULL.
unfoldable pub text_of_value : Formats → ℕ → Value → Text
unfolding hex format_pg_float format_int
text_of_value fmt oid null = []
text_of_value fmt oid (blob x) = codes "\\x" ++ hex x
text_of_value fmt oid (float64 x) = format_pg_float fmt x
text_of_value fmt oid (int64 x) =
    if oid == oid_bool then pg_bool_text (not (x == 0)) else format_int x
text_of_value fmt oid (boolean x) = pg_bool_text x
text_of_value fmt oid (time x) = fmt.format_time x
text_of_value fmt oid (string x) = x

-- Behind the test for NULL.
unfoldable pub encode_present : Formats → ℕ → Bool → Value → Bytes
unfolding encode_binary text_of_value
encode_present fmt oid use_binary v =
    let data_or_text : Bytes = elim (encode_binary oid v) [
      | some bs ↦ bs
      | none ↦ text_of_value fmt oid v
    ] in
    if use_binary then data_or_text else text_of_value fmt oid v

-- `pgEncodeValue`; `none` is NULL.
unfoldable pub pg_encode_value : Formats → ℕ → Bool → Value → Option Bytes
unfolding encode_present
pg_encode_value fmt oid use_binary null = none
pg_encode_value fmt oid use_binary v = some (encode_present fmt oid use_binary v)
