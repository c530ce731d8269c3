-- ===== src/Prelude/BigEndian.antt =====
-- Big-endian integers of `encoding/binary`, and the machine ranges.
use Prim.Native.Nat.{ℕ, zero, suc, ◌+◌, ◌*◌, ◌/◌, ◌%◌, ◌^◌, ◌<◌}
use mathlib.Core.Path.{◌≡◌, refl, ◌∙◌}
use mathlib.Core.Bool.{Bool}
use mathlib.Core.List.{List, [], ◌∷◌, ◌++◌}
use native.Mathlib.Omega.{arith}
use native.Mathlib.Nat.{pow-suc}
use execdb.Prelude.Tests.{leb}
use execdb.Prelude.Lists.{length, length-append}

abbrev pub Bytes : Type 0
Bytes = List ℕ

-- `binary.BigEndian.PutUint16/32/64` at widths of 2, 4 and 8 bytes.
unfoldable pub put_be : ℕ → ℕ → Bytes
put_be zero v = []
put_be (suc k) v = put_be k (v / 256) ++ (v % 256 ∷ [])

-- `binary.BigEndian.Uint16/32/64` of a slice.
unfoldable pub get_be_from : ℕ → Bytes → ℕ
get_be_from acc [] = acc
get_be_from acc (b ∷ bs) = get_be_from (acc * 256 + b) bs

abbrev pub get_be : Bytes → ℕ
get_be = get_be_from 0

-- A two's complement pattern of `w` bits whose number is negative.
abbrev pub is_negative : ℕ → ℕ → Bool
is_negative w v = leb (2 ^ w) (v * 2)

get_be_from-concat :
    (bs : Bytes) (acc b : ℕ) → get_be_from acc (bs ++ (b ∷ [])) ≡ get_be_from acc bs * 256 + b
unfolding get_be_from
get_be_from-concat [] acc b = refl
get_be_from-concat (c ∷ bs) acc b = get_be_from-concat bs (acc * 256 + c) b

pub length-put_be : (k v : ℕ) → length (put_be k v) ≡ k
unfolding put_be
length-put_be zero v = refl
length-put_be (suc k) v =
    omega (arith, length-append (put_be k (v / 256)) (v % 256 ∷ []), length-put_be k (v / 256))

pub get_be-put_be : (k v : ℕ) → v < 256 ^ k → get_be (put_be k v) ≡ v
unfolding put_be get_be_from
get_be-put_be zero v h = omega arith
get_be-put_be (suc k) v h =
    get_be_from-concat (put_be k (v / 256)) 0 (v % 256)
    ∙ rw (get_be-put_be k (v / 256) (omega (arith, pow-suc 256 k))) (omega arith)
