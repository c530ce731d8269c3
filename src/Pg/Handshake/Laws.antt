-- ===== src/Pg/Handshake/Laws.antt =====
-- cmd/execdb/pgwire.go, cmd/execdb/auth.go: the handshake and authentication.
use execdb.Prelude.{
  ℕ, zero, suc, ◌+◌, ◌^◌, ◌<◌, Bool, true, false, some, if◌then◌else◌, List, [], ◌∷◌, ◌++◌, length,
  length-drop, Text, eq_text_iff, Bytes, get_be, Map, put_be, get_be-put_be, ◌≡◌, ◌≢◌, ◌⊎◌, inl,
  inr, ap, ◌∙◌, arith, Option-cases,
}
use execdb.Pg.Wire.{read_frontend_message, cstring_from_body, Message}
use execdb.Pg.Wire.Laws.{read_full-append}
use execdb.Pg.Handshake.{
  Header, header_of, read_startup_header, panics, waits, handle_cancel_request, perform_handshake,
  user_of, check_password, authenticate_connection, code_ssl_request, code_gssenc_request,
  code_cancel_request,
}

length-read_startup_header :
    (bs : Bytes) {h : Header} → read_startup_header bs ≡ some h → length h.rest + 8 ≡ length bs
unfolding read_startup_header
length-read_startup_header bs e = ground (arith, length-drop 8 bs)

handle_cancel_request-ends : (bs : Bytes) (size : ℕ) → handle_cancel_request bs size ≢ waits
unfolding handle_cancel_request
handle_cancel_request-ends bs size = ground arith

-- Whatever the client sends, the handshake comes to an end: any fuel above the length of the input
-- is enough.
pub perform_handshake-ends :
    (fuel : ℕ) (bs : Bytes) (sent : ℕ)
    → length bs < fuel
    → (perform_handshake fuel bs sent).0 ≢ waits
unfolding perform_handshake
perform_handshake-ends zero bs sent h = absurd (omega arith)
perform_handshake-ends (suc fuel) bs sent h = elim (Option-cases (read_startup_header bs)) [
  | inl e ↦ ground arith
  | inr (hd, e) ↦ ground (
    arith,
    length-read_startup_header bs e,
    handle_cancel_request-ends hd.rest hd.size,
    perform_handshake-ends fuel hd.rest (sent + 1),
  )
]

-- A header as a client writes it.
abbrev pub header : ℕ → ℕ → Bytes
header size request = put_be 4 size ++ put_be 4 request

read_startup_header-header :
    (size request : ℕ) (rest : Bytes)
    → size < 2 ^ 32
    → request < 2 ^ 32
    → read_startup_header (header size request ++ rest)
      ≡ some (record { size = size; request = request; rest = rest })
unfolding read_startup_header header_of put_be
read_startup_header-header size request rest hs hr =
    ap header_of (read_full-append (header size request) rest)
    ∙ ap (λ a. some (record { size = a; request = get_be (put_be 4 request); rest = rest }))
        (get_be-put_be 4 size hs)
    ∙ ap (λ a. some (record { size = size; request = a; rest = rest })) (get_be-put_be 4 request hr)

-- Requests for encryption, each of one header.
abbrev pub encryption_requests : List Bool → Bytes
encryption_requests [] = []
encryption_requests (gss ∷ rs) =
    header 8 (if gss then code_gssenc_request else code_ssl_request) ++ encryption_requests rs

round :
    (fuel : ℕ) (gss : Bool) (rest : Bytes) (sent : ℕ)
    → perform_handshake
        (suc fuel)
        (header 8 (if gss then code_gssenc_request else code_ssl_request) ++ rest)
        sent
      ≡ perform_handshake fuel rest (sent + 1)
unfolding perform_handshake
round fuel false rest sent =
    ground (arith, read_startup_header-header 8 code_ssl_request rest (omega arith) (omega arith))
round fuel true rest sent =
    ground
      (arith, read_startup_header-header 8 code_gssenc_request rest (omega arith) (omega arith))

-- Each of a client's requests for encryption is declined with one 'N', after which what follows is
-- handled as if it stood first.
pub perform_handshake-encryption_requests :
    (rs : List Bool) (fuel : ℕ) (rest : Bytes) (sent : ℕ)
    → perform_handshake (length rs + fuel) (encryption_requests rs ++ rest) sent
      ≡ perform_handshake fuel rest (sent + length rs)
unfolding put_be
perform_handshake-encryption_requests [] fuel rest sent =
    let e : sent ≡ sent + 0 = omega arith in
    let f : 0 + fuel ≡ fuel = omega arith in
    ap (λ k. perform_handshake k rest sent) f ∙ ap (perform_handshake fuel rest) e
perform_handshake-encryption_requests (gss ∷ rs) fuel rest sent =
    let tail = encryption_requests rs ++ rest in
    let code = if gss then code_gssenc_request else code_ssl_request in
    let e : suc (length rs) + fuel ≡ suc (length rs + fuel) = omega arith in
    let s : sent + 1 + length rs ≡ sent + suc (length rs) = omega arith in
    ap (λ k. perform_handshake k (header 8 code ++ tail) sent) e
    ∙ round (length rs + fuel) gss tail sent
    ∙ perform_handshake-encryption_requests rs fuel rest (sent + 1)
    ∙ ap (perform_handshake fuel rest) s

-- A CancelRequest whose length is below 8 stops the process, whatever follows.
pub perform_handshake-short_cancel :
    (fuel size : ℕ) (rest : Bytes) (sent : ℕ)
    → size < 8
    → perform_handshake (suc fuel) (header size code_cancel_request ++ rest) sent ≡ (panics, sent)
unfolding perform_handshake handle_cancel_request
perform_handshake-short_cancel fuel size rest sent h =
    ground
      (arith, read_startup_header-header size code_cancel_request rest (omega arith) (omega arith))

-- No user is required, or the next message is a password message with the password, from the user.
abbrev pub Admitted : Text → Text → Map Text → Bytes → Type 0
Admitted user password params bs =
    (user ≡ [])
    ⊎ ((m : Message) × (rest : Bytes) × (read_frontend_message bs ≡ some (m, rest))
        × (m.kind ≡ b'p')
        × (user_of params ≡ user)
        × (cstring_from_body m.body ≡ password))

-- Where `authenticateConnection` lets a client through, no user is required, or the client's next
-- message is a password message with the password, and the user of its startup is the one that is
-- required.
pub authenticate_connection-Admitted :
    (bs : Bytes) (user password : Text) (params : Map Text)
    → (authenticate_connection bs user password params).0 ≡ true
    → Admitted user password params bs
unfolding authenticate_connection check_password
authenticate_connection-Admitted bs user password params h =
    elim (Option-cases (read_frontend_message bs)) [
      | inl e ↦ inl (ground (arith, eq_text_iff user []))
      | inr ((m, rest), e) ↦ ground (
        arith,
        eq_text_iff user [],
        eq_text_iff (user_of params) user,
        eq_text_iff (cstring_from_body m.body) password,
      )
    ]
