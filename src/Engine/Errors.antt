-- ===== src/Engine/Errors.antt =====
-- engine/errors.go, and the other errors that package engine returns, as values.
use execdb.Prelude.{◌≡◌, refl, ◌⊎◌, inl, inr}

pub data Error : Type 0 where
  not_overwritable closed no_data too_large busy : Error
  corrupt_footer : Error  -- of `decodeFooter`
  os_error : Error  -- a call of package os that fails
  sqlite_error : Error  -- an error of the driver

-- What an operation returns: its value, or the error that it stopped at.
pub data Result (Value : Type 0) : Type 0 where
  err : Error → Result Value
  ok : Value → Result Value

pub Result-cases :
    {V : Type 0} (r : Result V) → ((e : Error) × (r ≡ err e)) ⊎ ((v : V) × (r ≡ ok v))
Result-cases (err e) = inl (e, refl)
Result-cases (ok v) = inr (v, refl)

module _ {V W : Type 0} where
  -- `if err != nil { return err }`, and the next step.
  infixl 5 ◌>>=◌
  abbrev pub ◌>>=◌ : Result V → (V → Result W) → Result W
  err cause >>= next = err cause
  ok value >>= next = next value

  pub >>=-eq-ok :
      (first : Result V) (next : V → Result W) {w : W}
      → (first >>= next) ≡ ok w
      → (v : V) × (first ≡ ok v) × (next v ≡ ok w)
  >>=-eq-ok (ok v) next h = (v, refl, h)
  >>=-eq-ok (err cause) next h = cc
