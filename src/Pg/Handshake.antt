-- ===== src/Pg/Handshake.antt =====
-- cmd/execdb/pgproto.go, cmd/execdb/pgwire.go, cmd/execdb/pgcancel.go and cmd/execdb/auth.go: what
-- happens on a connection before its first query. A connection is the bytes that the client sends.
pub mod Laws
use execdb.Prelude.{
  ℕ, zero, suc, ◌+◌, ◌-◌, ◌%◌, ◌^◌, Bool, true, false, not, ◌&&◌, ◌||◌, Option, none, some, ◌==◌,
  ltb, if◌then◌else◌, List, [], ◌∷◌, ◌++◌, take, drop, length, Text, codes, eq_text, Bytes, get_be,
  get_be_from, is_negative, Map, lookup, insert,
}
use execdb.Pg.Values.{quoted}
use execdb.Pg.Wire.{
  read_full, read_cstring, read_frontend_message, cstring_from_body, Message, Reply,
  authentication_ok, authentication_cleartext_password, error_response, sqlstate_invalid_password,
}

abbrev pub code_ssl_request : ℕ
code_ssl_request = 80877103

abbrev pub code_gssenc_request : ℕ
code_gssenc_request = 80877104

abbrev pub code_cancel_request : ℕ
code_cancel_request = 80877102

abbrev pub protocol_version3 : ℕ
protocol_version3 = 196608

-- `readStartupHeader`: the length, the code, and what follows.
pub record Header : Type 0 where
  pub size : ℕ
  pub request : ℕ
  pub rest : Bytes

unfoldable pub header_of : Option (Bytes × Bytes) → Option Header
unfolding get_be_from
header_of none = none
header_of (some (hdr, rest)) =
    some (record { size = get_be (take 4 hdr); request = get_be (drop 4 hdr); rest = rest })

unfoldable pub read_startup_header : Bytes → Option Header
unfolding read_full header_of
read_startup_header bs = header_of (read_full 8 bs)

-- A pair of the list, or `none` where it is malformed.
unfoldable pub read_param : Bytes → Option (Text × Text × Bytes)
unfolding read_cstring
read_param buf = elim (read_cstring buf) [
  | none ↦ none
  | some (key, next) ↦ elim (read_cstring next) [
    | none ↦ none
    | some (val, after) ↦ some (key, val, after)
  ]
]

-- The loop of `readStartupParams`. A pair takes two bytes or more, so that the length of the buffer
-- is enough fuel.
unfoldable pub params_loop : ℕ → Bytes → Map Text → Option (Map Text)
unfolding read_param insert
params_loop zero buf params = some params
params_loop (suc fuel) [] params = some params
params_loop (suc fuel) (b ∷ bs) params =
    let next : Option (Map Text) = elim (read_param (b ∷ bs)) [
      | none ↦ none
      | some (key, val, after) ↦ params_loop fuel after (insert key val params)
    ] in
    if b == 0 then some params else next

-- The pairs in a buffer.
unfoldable pub startup_params : Bytes → Option (Map Text)
unfolding params_loop
startup_params buf = params_loop (length buf) buf []

-- `int32(length - 8)`.
abbrev pub minus8 : ℕ → ℕ
minus8 size = (size + 2 ^ 32 - 8) % 2 ^ 32

-- `readStartupParams`, with the bytes that follow.
unfoldable pub read_startup_params : Bytes → ℕ → Option (Map Text × Bytes)
unfolding read_full startup_params
read_startup_params bs n = if is_negative 32 n then none else elim (read_full n bs) [
  | none ↦ none
  | some (buf, rest) ↦ elim (startup_params buf) [ none ↦ none | some params ↦ some (params, rest) ]
]

-- How the handling of a connection's first messages ends.
pub data Handshake : Type 0 where
  ready : Map Text → Bytes → Handshake  -- the parameters, and what the client sends next
  unusable : Handshake
  cancels : ℕ → ℕ → Handshake  -- a CancelRequest with this key
  panics : Handshake  -- `make` with a negative length, which stops the process
  waits : Handshake  -- out of fuel

-- `handleCancelRequest`, up to the lookup in the registry.
unfoldable pub handle_cancel_request : Bytes → ℕ → Handshake
unfolding read_full get_be_from
handle_cancel_request bs size =
    let n = minus8 size in
    let found : Handshake = elim (read_full n bs) [
      | none ↦ unusable
      | some (body, _) ↦
          if not (length body == 8)
          then unusable
          else cancels (get_be (take 4 body)) (get_be (drop 4 body))
    ] in
    if is_negative 32 n then panics else found

-- `performHandshake`, with the number of 'N's written. A round takes 8 bytes.
unfoldable pub perform_handshake : ℕ → Bytes → ℕ → Handshake × ℕ
perform_handshake zero bs sent = (waits, sent)
perform_handshake (suc fuel) bs sent = elim (read_startup_header bs) [
  | none ↦ (unusable, sent)
  | some h ↦
      let next = perform_handshake fuel h.rest (sent + 1) in
      if h.request == code_ssl_request || h.request == code_gssenc_request
      then next
      else if h.request == code_cancel_request
      then (handle_cancel_request h.rest h.size, sent)
      else if h.request == protocol_version3
      then elim (read_startup_params h.rest (minus8 h.size)) [
        | none ↦ (unusable, sent)
        | some (params, rest) ↦ (ready params rest, sent)
      ]
      else (unusable, sent)
]

-- `params["user"]`, which is "" where there is none.
abbrev pub user_of : Map Text → Text
user_of params = elim (lookup (codes "user") params) [ none ↦ [] | some u ↦ u ]

-- The password check of `authenticateConnection`, on the message that answers the challenge.
unfoldable pub check_password : Text → Text → Map Text → Message → Bool × List Reply
unfolding cstring_from_body eq_text quoted
check_password user password params msg =
    if not (msg.kind == b'p')
    then (false, authentication_cleartext_password ∷ [])
    else if not (eq_text (user_of params) user)
        || not (eq_text (cstring_from_body msg.body) password)
    then (
      false,
      authentication_cleartext_password
          ∷ error_response sqlstate_invalid_password
              (codes "password authentication failed for user " ++ quoted (user_of params))
          ∷ [],
    )
    else (true, authentication_cleartext_password ∷ authentication_ok ∷ [])

-- `authenticateConnection`: whether the connection is usable, what was written, and the bytes left.
unfoldable pub authenticate_connection : Bytes → Text → Text → Map Text → Bool × List Reply × Bytes
unfolding check_password read_frontend_message eq_text
authenticate_connection bs user password params =
    let challenged : Bool × List Reply × Bytes = elim (read_frontend_message bs) [
      | none ↦ (false, authentication_cleartext_password ∷ [], bs)
      | some (msg, rest) ↦
          let (usable, replies) = check_password user password params msg in (usable, replies, rest)
    ] in
    if eq_text user [] then (true, authentication_ok ∷ [], bs) else challenged
