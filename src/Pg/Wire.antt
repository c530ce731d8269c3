-- ===== src/Pg/Wire.antt =====
-- cmd/execdb/pgproto.go: the framing of messages, and the messages that the server writes. An int16
-- and an int32 are their bit patterns.
pub mod Laws
use execdb.Prelude.{
  ℕ, zero, suc, ◌+◌, ◌-◌, ◌^◌, Bool, true, false, not, ◌||◌, Option, none, some, ◌==◌, ltb, leb,
  if◌then◌else◌, List, [], ◌∷◌, ◌++◌, take, drop, length, Text, codes, Bytes, put_be, get_be,
  get_be_from, is_negative,
}
use execdb.Pg.Types.{Column, pg_typ_len}

-- `io.ReadFull` of `n` bytes.
unfoldable pub read_full : ℕ → Bytes → Option (Bytes × Bytes)
read_full n bs = if leb n (length bs) then some (take n bs, drop n bs) else none

-- `readCString`: the bytes before the next zero byte, and what follows it.
unfoldable pub read_cstring : Bytes → Option (Bytes × Bytes)
read_cstring [] = none
read_cstring (b ∷ bs) =
    let rest = read_cstring bs in
    if b == 0
    then some ([], bs)
    else elim rest [ none ↦ none | some (s, after) ↦ some (b ∷ s, after) ]

-- `cStringFromBody`: all of the body where no zero byte ends it.
unfoldable pub cstring_from_body : Bytes → Bytes
cstring_from_body [] = []
cstring_from_body (c ∷ body) = let rest = cstring_from_body body in if c == 0 then [] else c ∷ rest

-- `frontendMessage`.
pub record Message : Type 0 where
  pub kind : ℕ
  pub body : Bytes

-- Behind the type byte and the length, which must be at least 4.
unfoldable pub read_body : ℕ → ℕ → Bytes → Option (Message × Bytes)
unfolding read_full
read_body kind size rest =
    if is_negative 32 size || ltb size 4 then none else elim (read_full (size - 4) rest) [
      | none ↦ none
      | some (body, after) ↦ some (record { kind = kind; body = body }, after)
    ]

-- From the four bytes of the length on.
unfoldable pub read_sized : ℕ → Option (Bytes × Bytes) → Option (Message × Bytes)
unfolding read_body get_be_from
read_sized kind none = none
read_sized kind (some (len_buf, rest)) = read_body kind (get_be len_buf) rest

-- `readFrontendMessage`: a message and the bytes behind it; `none` ends the connection.
unfoldable pub read_frontend_message : Bytes → Option (Message × Bytes)
unfolding read_full read_sized
read_frontend_message [] = none
read_frontend_message (kind ∷ bs) = read_sized kind (read_full 4 bs)

-- `writeMessage`.
unfoldable pub frame : ℕ → Bytes → Bytes
unfolding put_be
frame kind body = kind ∷ (put_be 4 (4 + length body) ++ body)

-- `msgBuilder.cstring`.
abbrev pub cstring : Bytes → Bytes
cstring s = s ++ (0 ∷ [])

-- The messages of the server, one for each writer.
pub data Reply : Type 0 where
  authentication_ok authentication_cleartext_password : Reply
  parameter_status : Text → Text → Reply
  backend_key_data : ℕ → ℕ → Reply
  ready_for_query : ℕ → Reply
  row_description : List Column → Reply
  data_row : List (Option Bytes) → Reply
  command_complete : Text → Reply
  error_response : Text → Text → Reply
  parse_complete bind_complete close_complete no_data : Reply
  parameter_description : List ℕ → Reply

abbrev pub sqlstate_insufficient_privilege : Text
sqlstate_insufficient_privilege = codes "42501"

abbrev pub sqlstate_in_failed_transaction : Text
sqlstate_in_failed_transaction = codes "25P02"

abbrev pub sqlstate_invalid_password : Text
sqlstate_invalid_password = codes "28P01"

abbrev pub sqlstate_generic : Text
sqlstate_generic = codes "XX000"

unfoldable pub column_bytes : Column → Bytes
unfolding put_be pg_typ_len
column_bytes c =
    cstring c.name
    ++ (put_be 4 0
        ++ (put_be 2 0
            ++ (put_be 4 c.oid
                ++ (put_be 2 (pg_typ_len c.oid)
                    ++ (put_be 4 0xffff_ffff ++ put_be 2 (if c.binary then 1 else 0))))))

unfoldable pub columns_bytes : List Column → Bytes
unfolding column_bytes
columns_bytes [] = []
columns_bytes (c ∷ cols) = column_bytes c ++ columns_bytes cols

-- NULL is a length of -1 with no bytes.
unfoldable pub field_bytes : Option Bytes → Bytes
unfolding put_be
field_bytes none = put_be 4 0xffff_ffff
field_bytes (some bs) = put_be 4 (length bs) ++ bs

unfoldable pub fields_bytes : List (Option Bytes) → Bytes
unfolding field_bytes
fields_bytes [] = []
fields_bytes (v ∷ vs) = field_bytes v ++ fields_bytes vs

unfoldable pub oids_bytes : List ℕ → Bytes
unfolding put_be
oids_bytes [] = []
oids_bytes (o ∷ os) = put_be 4 o ++ oids_bytes os

-- The type byte and the body that each writer hands to `writeMessage`.
unfoldable pub kind_and_body : Reply → ℕ × Bytes
unfolding put_be columns_bytes fields_bytes oids_bytes
kind_and_body authentication_ok = (b'R', put_be 4 0)
kind_and_body authentication_cleartext_password = (b'R', put_be 4 3)
kind_and_body (parameter_status name value) = (b'S', cstring name ++ cstring value)
kind_and_body (backend_key_data pid secret) = (b'K', put_be 4 pid ++ put_be 4 secret)
kind_and_body (ready_for_query status) = (b'Z', status ∷ [])
kind_and_body (row_description cols) = (b'T', put_be 2 (length cols) ++ columns_bytes cols)
kind_and_body (data_row values) = (b'D', put_be 2 (length values) ++ fields_bytes values)
kind_and_body (command_complete tag) = (b'C', cstring tag)
kind_and_body (error_response sqlstate message) = (
  b'E',
  b'S'
      ∷ (cstring (codes "ERROR")
          ++ (b'C' ∷ (cstring sqlstate ++ (b'M' ∷ (cstring message ++ (0 ∷ [])))))),
)
kind_and_body parse_complete = (b'1', [])
kind_and_body bind_complete = (b'2', [])
kind_and_body close_complete = (b'3', [])
kind_and_body no_data = (b'n', [])
kind_and_body (parameter_description oids) = (b't', put_be 2 (length oids) ++ oids_bytes oids)

unfoldable pub reply_bytes : Reply → Bytes
unfolding frame kind_and_body
reply_bytes r = let (kind, body) = kind_and_body r in frame kind body

unfoldable pub replies_bytes : List Reply → Bytes
unfolding reply_bytes
replies_bytes [] = []
replies_bytes (r ∷ rs) = reply_bytes r ++ replies_bytes rs
