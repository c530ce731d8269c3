-- ===== src/Pg/Wire/Laws.antt =====
-- cmd/execdb/pgproto.go: framed messages, read again.
use execdb.Prelude.{
  ℕ, zero, suc, ◌+◌, ◌-◌, ◌^◌, ◌<◌, Bool, true, not, ◌&&◌, none, some, ◌==◌, List, [], ◌∷◌, ◌++◌,
  take, drop, length, length-append, take-append, drop-append, Bytes, put_be, get_be-put_be,
  length-put_be, ◌≡◌, refl, sym, ap, ◌∙◌, arith,
}
use execdb.Pg.Wire.{
  read_full, read_cstring, cstring_from_body, read_body, read_sized, read_frontend_message, frame,
  Reply, kind_and_body, reply_bytes, replies_bytes,
}

pub read_full-append : (xs ys : Bytes) → read_full (length xs) (xs ++ ys) ≡ some (xs, ys)
unfolding read_full
read_full-append xs ys = ground (arith, length-append xs ys, take-append xs ys, drop-append xs ys)

read_body-append :
    (kind : ℕ) (body rest : Bytes)
    → 4 + length body < 2 ^ 31
    → read_body kind (4 + length body) (body ++ rest)
      ≡ some (record { kind = kind; body = body }, rest)
unfolding read_body
read_body-append kind body rest h =
    let e : 4 + length body - 4 ≡ length body = omega arith in
    ground (
      arith,
      length-append body rest,
      ap (λ n. take n (body ++ rest)) e,
      ap (λ n. drop n (body ++ rest)) e,
      take-append body rest,
      drop-append body rest,
    )

read_full-put_be :
    (n : ℕ) (rest : Bytes) → read_full 4 (put_be 4 n ++ rest) ≡ some (put_be 4 n, rest)
read_full-put_be n rest =
    ap (λ k. read_full k (put_be 4 n ++ rest)) (sym (length-put_be 4 n))
    ∙ read_full-append (put_be 4 n) rest

-- A message that is framed, and fits its length field, comes back whole, and the bytes behind it
-- are left for the next.
pub read_frontend_message-frame :
    (kind : ℕ) (body rest : Bytes)
    → 4 + length body < 2 ^ 31
    → read_frontend_message (frame kind body ++ rest)
      ≡ some (record { kind = kind; body = body }, rest)
unfolding read_frontend_message frame
read_frontend_message-frame kind body rest h =
    let size = 4 + length body in
    ap (read_sized kind) (read_full-put_be size (body ++ rest))
    ∙ ap (λ n. read_body kind n (body ++ rest)) (get_be-put_be 4 size (omega arith))
    ∙ read_body-append kind body rest h

abbrev pub no_zero : Bytes → Bool
no_zero [] = true
no_zero (b ∷ bs) = not (b == 0) && no_zero bs

pub read_cstring-cstring :
    (s rest : Bytes) → no_zero s ≡ true → read_cstring (s ++ (0 ∷ rest)) ≡ some (s, rest)
unfolding read_cstring
read_cstring-cstring [] rest h = refl
read_cstring-cstring (c ∷ s) rest h = ground (arith, read_cstring-cstring s rest)

pub cstring_from_body-cstring :
    (s rest : Bytes) → no_zero s ≡ true → cstring_from_body (s ++ (0 ∷ rest)) ≡ s
unfolding cstring_from_body
cstring_from_body-cstring [] rest h = refl
cstring_from_body-cstring (c ∷ s) rest h = ground (arith, cstring_from_body-cstring s rest)

-- A client that reads `n` messages, with the same framing.
unfoldable pub read_messages : ℕ → Bytes → List (ℕ × Bytes)
read_messages zero bs = []
read_messages (suc n) bs = elim (read_frontend_message bs) [
  | none ↦ []
  | some (m, rest) ↦ (m.kind, m.body) ∷ read_messages n rest
]

abbrev pub kinds_and_bodies : List Reply → List (ℕ × Bytes)
kinds_and_bodies [] = []
kinds_and_bodies (r ∷ rs) = kind_and_body r ∷ kinds_and_bodies rs

abbrev pub AllFit : List Reply → Type 0
AllFit [] = Unit
AllFit (r ∷ rs) = (4 + length (kind_and_body r).1 < 2 ^ 31) × AllFit rs

read_messages_reply :
    (n : ℕ) (r : Reply) (rest : Bytes)
    → 4 + length (kind_and_body r).1 < 2 ^ 31
    → read_messages (suc n) (reply_bytes r ++ rest) ≡ kind_and_body r ∷ read_messages n rest
unfolding read_messages reply_bytes
read_messages_reply n r rest h =
    ground (arith, read_frontend_message-frame (kind_and_body r).0 (kind_and_body r).1 rest h)

-- The server's output, whatever the replies are, as long as each fits its length field, splits at
-- the right places: a client finds the type and the body of each reply, in order.
pub read_messages-replies_bytes :
    (rs : List Reply)
    → AllFit rs
    → read_messages (length rs) (replies_bytes rs) ≡ kinds_and_bodies rs
unfolding replies_bytes
read_messages-replies_bytes [] h = unfold read_messages in refl
read_messages-replies_bytes (r ∷ rs) h =
    read_messages_reply (length rs) r (replies_bytes rs) h.0
    ∙ ap (◌∷◌ (kind_and_body r)) (read_messages-replies_bytes rs h.1)
