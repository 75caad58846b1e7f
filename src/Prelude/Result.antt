-- ===== src/Prelude/Result.antt =====
-- Exceptions as values: the classes of src/api/error.js, JavaScript's own `TypeError`,
-- `ReferenceError` and `Error`, and an error thrown by a library.
use mathlib.Core.Path.{◌≡◌, refl}

pub data Error : Type 0 where
  invalid_parameter wrong_password not_support not_ready : Error
  timeout not_found not_implemented duplicate_record : Error
  logic_error runtime_error : Error
  type_error reference_error plain_error : Error

-- what a call returns, or what it throws
pub data Result {ℓ} (A : Type ℓ) : Type ℓ where
  err : Error → Result A
  ok : A → Result A

module _ {ℓ κ} {A : Type ℓ} {B : Type κ} where
  infixl 5 ◌>>=◌
  abbrev pub ◌>>=◌ : Result A → (A → Result B) → Result B
  err thrown >>= next = err thrown
  ok a >>= next = next a

  -- A sequence that returned went through its first call.
  pub >>=-eq-ok :
      (first : Result A) (next : A → Result B) {b : B}
      → (first >>= next) ≡ ok b
      → (a : A) × (first ≡ ok a) × (next a ≡ ok b)
  >>=-eq-ok (err thrown) next returned = cc
  >>=-eq-ok (ok a) next returned = (a, refl, returned)
