-- ===== src/Types/Float.antt =====
-- The arithmetic on `float64` that the scores use. The doubles are the parameter `Float64`: its laws
-- are those of correctly rounded operations on finite values, which are monotone.
use istio_llm_filter.Common.{Bool, false, ◌≡◌}
use istio_llm_filter.Common.Int.{ℤ, pos, ◌≤ℤ◌}
use istio_llm_filter.Common.Sort.{IsStrictWeak}

pub record Float64 : Type 1 where
  pub F : Type 0
  pub of_int : ℤ → F
  pub max_float64 : F
  pub sub : F → F → F
  pub mul : F → F → F
  pub div : F → F → F
  pub fmax : F → F → F
  pub fmin : F → F → F
  pub ceil : F → F
  pub eqb : F → F → Bool
  -- `cmp.Compare(x, y) < 0`
  pub less : F → F → Bool
  pub Le : F → F → Type 0
  pub le_refl : (a : F) → Le a a
  pub of_int_mono : (m n : ℤ) → m ≤ℤ n → Le (of_int m) (of_int n)
  pub sub_mono : (a b c d : F) → Le a b → Le d c → Le (sub a c) (sub b d)
  pub mul_mono : (w a b : F) → Le (of_int (pos 0)) w → Le a b → Le (mul w a) (mul w b)
  pub mul_nonneg :
      (a b : F) → Le (of_int (pos 0)) a → Le (of_int (pos 0)) b → Le (of_int (pos 0)) (mul a b)
  pub div_mono : (d a b : F) → Le (of_int (pos 1)) d → Le a b → Le (div a d) (div b d)
  pub div_nonneg :
      (a d : F) → Le (of_int (pos 0)) a → Le (of_int (pos 1)) d → Le (of_int (pos 0)) (div a d)
  pub ceil_nonneg : (a : F) → Le (of_int (pos 0)) a → Le (of_int (pos 0)) (ceil a)
  pub le-fmax : (a b c : F) → Le c a → Le c (fmax a b)
  pub less-IsStrictWeak : IsStrictWeak less
  pub not_less_of_le : (a b : F) → Le a b → less b a ≡ false
