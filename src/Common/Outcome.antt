-- ===== src/Common/Outcome.antt =====
-- The outcome of a Go function that returns `(value, error)`, or that panics on a nil pointer.
use mathlib.Core.Path.{◌≡◌, refl}

pub data Result {ℓ κ} (E : Type κ) (A : Type ℓ) : Type (ℓ ⊔ κ) where
  ok : A → Result E A
  err : E → Result E A
  panic : Result E A

module _ {ℓ κ η} {E : Type η} {A : Type ℓ} {B : Type κ} where
  -- The call of a function after one that may fail or panic. It computes in every file.
  infixl 5 ◌>>=◌
  abbrev pub ◌>>=◌ : Result E A → (A → Result E B) → Result E B
  panic >>= next = panic
  err failure >>= next = err failure
  ok value >>= next = next value

  -- If the whole succeeds, so does the first call, and the second one on its value.
  pub >>=-eq-ok :
      (first : Result E A) (next : A → Result E B) {result : B}
      → (first >>= next) ≡ ok result
      → (value : A) × (first ≡ ok value) × (next value ≡ ok result)
  >>=-eq-ok panic next h = cc
  >>=-eq-ok (err failure) next h = cc
  >>=-eq-ok (ok value) next h = (value, refl, h)
