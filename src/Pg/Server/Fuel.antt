-- ===== src/Pg/Server/Fuel.antt =====
-- cmd/execdb/pgproto.go: `readFrontendMessage` in a loop, with fuel.
use execdb.Prelude.{
  ℕ, zero, suc, ◌-◌, ◌≤◌, ◌<◌, some, [], ◌∷◌, length, length-drop, Bytes, get_be, ◌≡◌, inl, inr,
  refl, arith, Option-cases,
}
use execdb.Pg.Wire.{Message, read_full, read_body, read_sized, read_frontend_message}
use execdb.Pg.Server.{messages}

read_full-le :
    (n : ℕ) (bs xs rest : Bytes) → read_full n bs ≡ some (xs, rest) → length rest ≤ length bs
unfolding read_full
read_full-le n bs xs rest e = let k = length-drop n bs in ground arith

read_body-le :
    (kind size : ℕ) (bs : Bytes) (m : Message) (rest : Bytes)
    → read_body kind size bs ≡ some (m, rest)
    → length rest ≤ length bs
unfolding read_body
read_body-le kind size bs m rest e = elim (Option-cases (read_full (size - 4) bs)) [
  | inl q ↦ absurd (ground arith)
  | inr ((xs, after), q) ↦ let k = read_full-le (size - 4) bs xs after q in ground arith
]

read_frontend_message-lt :
    (bs : Bytes) (m : Message) (rest : Bytes)
    → read_frontend_message bs ≡ some (m, rest)
    → length rest < length bs
unfolding read_frontend_message read_sized
read_frontend_message-lt [] m rest e = absurd (ground arith)
read_frontend_message-lt (kind ∷ bs) m rest e = elim (Option-cases (read_full 4 bs)) [
  | inl q ↦ absurd (ground arith)
  | inr ((size, after), q) ↦
      let k = read_full-le 4 bs size after q in
      let l = read_body-le kind (get_be size) after m rest in ground arith
]

-- Any fuel from the number of the bytes on gives the same messages.
pub messages-enough :
    (n k : ℕ) (bs : Bytes) → length bs ≤ n → length bs ≤ k → messages n bs ≡ messages k bs
unfolding messages read_frontend_message
messages-enough zero zero bs h j = refl
messages-enough zero (suc k) [] h j = refl
messages-enough (suc n) zero [] h j = refl
messages-enough zero (suc k) (b ∷ bs) h j = absurd (omega arith)
messages-enough (suc n) zero (b ∷ bs) h j = absurd (omega arith)
messages-enough (suc n) (suc k) bs h j = elim (Option-cases (read_frontend_message bs)) [
  | inl q ↦ ground arith
  | inr ((m, rest), q) ↦
      let l = read_frontend_message-lt bs m rest q in
      let ih = messages-enough n k rest (omega arith) (omega arith) in ground arith
]
