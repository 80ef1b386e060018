-- ===== src/Common/Members.antt =====
-- Membership in the lists that the code indexes, cuts and maps.
use istio_llm_filter.Common.Sort.{Member, IsSorted}
use Prim.Native.Nat.{ℕ, zero, suc, ◌<◌}
use mathlib.Core.Path.{◌≡◌, refl}
use mathlib.Core.Logic.{inl, inr}
use mathlib.Core.Bool.{Bool, false}
use mathlib.Core.Option.{some}
use mathlib.Core.List.{List, [], ◌∷◌, map}
use native.Mathlib.Omega.{arith}
use istio_llm_filter.Common.Lists.{length, get_elem?, take, drop}

module _ {A : Type 0} where
  pub Member-get_elem? : (xs : List A) (i : ℕ) {x : A} → get_elem? xs i ≡ some x → Member x xs
  Member-get_elem? [] i h = absurd (cc h)
  Member-get_elem? (y ∷ xs) zero h = inl (cc)
  Member-get_elem? (y ∷ xs) (suc i) h = inr (Member-get_elem? xs i h)

  pub get_elem?_total : (xs : List A) (i : ℕ) → i < length xs → (x : A) × (get_elem? xs i ≡ some x)
  get_elem?_total [] i h = absurd (omega arith)
  get_elem?_total (x ∷ xs) zero h = (x, refl)
  get_elem?_total (x ∷ xs) (suc i) h = get_elem?_total xs i (omega arith)

  pub Member-take : (n : ℕ) (xs : List A) (x : A) → Member x (take n xs) → Member x xs
  Member-take zero xs x m = absurd m
  Member-take (suc n) [] x m = m
  Member-take (suc n) (y ∷ xs) x (inl e) = inl e
  Member-take (suc n) (y ∷ xs) x (inr m) = inr (Member-take n xs x m)

  pub Member-drop : (n : ℕ) (xs : List A) (x : A) → Member x (drop n xs) → Member x xs
  Member-drop zero xs x m = m
  Member-drop (suc n) [] x m = m
  Member-drop (suc n) (y ∷ xs) x m = inr (Member-drop n xs x m)

  -- In a sorted list nothing behind a place is less than anything before it.
  pub sorted_split :
      (less : A → A → Bool) (n : ℕ) (xs : List A) (x y : A)
      → IsSorted less xs
      → Member x (take n xs)
      → Member y (drop n xs)
      → less y x ≡ false
  sorted_split less zero xs x y s m k = absurd m
  sorted_split less (suc n) [] x y s m k = absurd m
  sorted_split less (suc n) (z ∷ xs) x y s (inl e) k = rw e (s.0 y (Member-drop n xs y k))
  sorted_split less (suc n) (z ∷ xs) x y s (inr m) k = sorted_split less n xs x y s.1 m k

pub Member-map :
    {A B : Type 0} (f : A → B) (xs : List A) (y : B)
    → Member y (map f xs)
    → (x : A) × Member x xs × (y ≡ f x)
Member-map f [] y m = absurd m
Member-map f (x ∷ xs) y (inl e) = (x, inl refl, e)
Member-map f (x ∷ xs) y (inr m) = let (z, n, e) = Member-map f xs y m in (z, inr n, e)
