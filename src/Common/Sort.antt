-- ===== src/Common/Sort.antt =====
-- Membership, and Go's `sort.Slice` and `slices.SortFunc` as an interface. Neither is stable, so all
-- that is known of the result is the documented contract: the same elements, in order.
use Prim.Native.Nat.{suc}
use mathlib.Core.Path.{◌≡◌, refl, ◌∙◌, ap}
use mathlib.Core.Logic.{◌⊎◌, inl, inr}
use mathlib.Core.Bool.{Bool, true, false}
use mathlib.Core.List.{List, [], ◌∷◌, Permᴰ}
use istio_llm_filter.Common.Tests.{Bool-cases, if◌then◌else◌}
use istio_llm_filter.Common.Lists.{length}

module _ {A : Type 0} where
  abbrev pub Member : A → List A → Type 0
  Member a [] = ⊥
  Member a (x ∷ xs) = (a ≡ x) ⊎ Member a xs

  pub Member-perm : (a : A) {xs ys : List A} → Permᴰ xs ys → Member a xs → Member a ys
  Member-perm a Permᴰ.nil m = m
  Member-perm a (Permᴰ.cons e p) (inl h) = inl (h ∙ e)
  Member-perm a (Permᴰ.cons e p) (inr m) = inr (Member-perm a p m)
  Member-perm a (Permᴰ.swap e f) (inl h) = inr (inl (h ∙ e))
  Member-perm a (Permᴰ.swap e f) (inr (inl h)) = inl (h ∙ f)
  Member-perm a (Permᴰ.swap e f) (inr (inr m)) = inr (inr m)
  Member-perm a (Permᴰ.trans p q) m = Member-perm a q (Member-perm a p m)

  pub length-perm : {xs ys : List A} → Permᴰ xs ys → length xs ≡ length ys
  length-perm Permᴰ.nil = refl
  length-perm (Permᴰ.cons e p) = ap suc (length-perm p)
  length-perm (Permᴰ.swap e f) = refl
  length-perm (Permᴰ.trans p q) = length-perm p ∙ length-perm q

  -- No element is less than one before it.
  abbrev pub IsSorted : (A → A → Bool) → List A → Type 0
  IsSorted less [] = Unit
  IsSorted less (x ∷ xs) = ((y : A) → Member y xs → less y x ≡ false) × IsSorted less xs

  -- What `sort.Slice` asks of `less`: a strict weak order.
  pub record IsStrictWeak (less : A → A → Bool) : Type 0 where
    pub asymm : (a b : A) → less a b ≡ true → less b a ≡ false
    pub not_less_trans : (a b c : A) → less b a ≡ false → less c b ≡ false → less c a ≡ false

pub record Sorting : Type 1 where
  pub sort : {A : Type 0} → (A → A → Bool) → List A → List A
  pub sort-perm : {A : Type 0} (less : A → A → Bool) (xs : List A) → Permᴰ (sort less xs) xs
  pub sort-IsSorted :
      {A : Type 0} (less : A → A → Bool) (xs : List A)
      → IsStrictWeak less
      → IsSorted less (sort less xs)

-- Insertion sort, an implementation of the interface.
module _ {A : Type 0} (less : A → A → Bool) where
  pub insert_sorted : A → List A → List A
  insert_sorted x [] = x ∷ []
  insert_sorted x (y ∷ ys) = if less y x then y ∷ insert_sorted x ys else x ∷ y ∷ ys

  unfoldable pub insertion_sort : List A → List A
  unfolding insert_sorted
  insertion_sort [] = []
  insertion_sort (x ∷ xs) = insert_sorted x (insertion_sort xs)

  insert_sorted-perm : (x : A) (xs : List A) → Permᴰ (insert_sorted x xs) (x ∷ xs)
  unfolding insert_sorted
  insert_sorted-perm x [] = Permᴰ.cons refl Permᴰ.nil
  insert_sorted-perm x (y ∷ ys) = elim (Bool-cases (less y x)) [
    | inl before ↦
        rw before (Permᴰ.trans (Permᴰ.cons refl (insert_sorted-perm x ys)) (Permᴰ.swap refl refl))
    | inr behind ↦ rw behind (Permᴰ.trans (Permᴰ.swap refl refl) (Permᴰ.swap refl refl))
  ]

  pub insertion_sort-perm : (xs : List A) → Permᴰ (insertion_sort xs) xs
  unfolding insertion_sort
  insertion_sort-perm [] = Permᴰ.nil
  insertion_sort-perm (x ∷ xs) =
      Permᴰ.trans (insert_sorted-perm x (insertion_sort xs))
        (Permᴰ.cons refl (insertion_sort-perm xs))

  insert_sorted-IsSorted :
      (w : IsStrictWeak less) (x : A) (xs : List A)
      → IsSorted less xs
      → IsSorted less (insert_sorted x xs)
  unfolding insert_sorted
  insert_sorted-IsSorted w x [] h = ((λ y m. elim m [ ]), tt)
  insert_sorted-IsSorted w x (y ∷ ys) h = elim (Bool-cases (less y x)) [
    | inl before ↦ rw before (
      (λ z m. elim (Member-perm z (insert_sorted-perm x ys) m) [
        | inl e ↦ rw e (w.asymm y x before)
        | inr n ↦ h.0 z n
      ]),
      insert_sorted-IsSorted w x ys h.1,
    )
    | inr behind ↦ rw behind (
      (λ z m. elim m [ inl e ↦ rw e behind | inr n ↦ w.not_less_trans x y z behind (h.0 z n) ]),
      h,
    )
  ]

  pub insertion_sort-IsSorted :
      IsStrictWeak less → (xs : List A) → IsSorted less (insertion_sort xs)
  unfolding insertion_sort
  insertion_sort-IsSorted w [] = tt
  insertion_sort-IsSorted w (x ∷ xs) =
      insert_sorted-IsSorted w x (insertion_sort xs) (insertion_sort-IsSorted w xs)

abbrev pub by_insertion : Sorting
by_insertion = record {
  sort = λ less xs. insertion_sort less xs;
  sort-perm = λ less xs. insertion_sort-perm less xs;
  sort-IsSorted = λ less xs w. insertion_sort-IsSorted less w xs;
}
