-- ===== src/Config/Defaults.antt =====
-- The default backend of pkg/config/config.go, written through the rules' pointers: what a store
-- says of the rules before and after.
use istio_llm_filter.Common.{
  ℕ, zero, suc, ◌≡◌, ◌≢◌, refl, sym, ◌∙◌, ap, ◌⊎◌, inl, inr, String, true, Option, none, some, List,
  [], ◌∷◌, get_elem?, set, str_eq_iff, if◌then◌else◌, arith, ◌==◌, Bool-cases,
}
use istio_llm_filter.Common.Sort.{Member}
use istio_llm_filter.Config.{Rule, Store, RulePtr, or_triton}

abbrev pub defaulted : Rule → Rule
defaulted r = record r { backend = or_triton r.backend }

abbrev pub map_option : (Rule → Rule) → Option Rule → Option Rule
map_option f none = none
map_option f (some r) = some (f r)

-- The second store differs from the first by default backends alone.
abbrev pub Defaulted : Store → Store → Type 0
Defaulted s s' =
    (q : RulePtr)
    → (get_elem? s' q ≡ get_elem? s q) ⊎ (get_elem? s' q ≡ map_option defaulted (get_elem? s q))

-- Address `p` holds a rule of cluster `c` whose backend, the default put in, is `b`.
abbrev pub HasRule : String → String → Store → RulePtr → Type 0
HasRule c b s p =
    (r : Rule) × (get_elem? s p ≡ some r) × (r.cluster ≡ c) × (or_triton r.backend ≡ b)

abbrev pub IsUniform : String → String → Store → List RulePtr → Type 0
IsUniform c b s ps = (p : RulePtr) → Member p ps → HasRule c b s p

pub or_triton_idem : (b : String) → or_triton (or_triton b) ≡ or_triton b
or_triton_idem b = ground (arith, str_eq_iff b "", str_eq_iff "triton" "")

pub or_triton-ne-empty : (b : String) → or_triton b ≢ ""
or_triton-ne-empty b h = ground (arith, str_eq_iff b "", str_eq_iff "triton" "")

defaulted_idem : (r : Rule) → defaulted (defaulted r) ≡ defaulted r
defaulted_idem r = ap (λ (b : String). record r { backend = b }) (or_triton_idem r.backend)

pub get_elem?-set :
    (s : Store) (i q : ℕ) {r : Rule} (v : Rule)
    → get_elem? s i ≡ some r
    → get_elem? (set s i v) q ≡ (if i == q then some v else get_elem? s q)
get_elem?-set [] i q v h = cc
get_elem?-set (x ∷ s) zero zero v h = refl
get_elem?-set (x ∷ s) zero (suc q) v h = ground arith
get_elem?-set (x ∷ s) (suc i) zero v h = ground arith
get_elem?-set (x ∷ s) (suc i) (suc q) v h = ground (arith, get_elem?-set s i q v h)

pub Defaulted-refl : (s : Store) → Defaulted s s
Defaulted-refl s q = inl refl

map_defaulted_idem :
    (o : Option Rule) → map_option defaulted (map_option defaulted o) ≡ map_option defaulted o
map_defaulted_idem none = refl
map_defaulted_idem (some r) = ap some (defaulted_idem r)

pub Defaulted-trans : (s t u : Store) → Defaulted s t → Defaulted t u → Defaulted s u
Defaulted-trans s t u h k q = elim (h q) [
  | inl a ↦ elim (k q) [ inl b ↦ inl (b ∙ a) | inr b ↦ inr (b ∙ ap (map_option defaulted) a) ]
  | inr a ↦ elim (k q) [
    | inl b ↦ inr (b ∙ a)
    | inr b ↦ inr (b ∙ ap (map_option defaulted) a ∙ map_defaulted_idem (get_elem? s q))
  ]
]

pub Defaulted-set :
    (s : Store) (p : RulePtr) {r : Rule}
    → get_elem? s p ≡ some r
    → Defaulted s (set s p (defaulted r))
Defaulted-set s p {r} h q = elim (Bool-cases (p == q)) [
  | inl same ↦
      let e : p ≡ q = ground arith in
      inr (get_elem?-set s p q (defaulted r) h ∙ rw (same, ← e, h) refl)
  | inr other ↦ inl (get_elem?-set s p q (defaulted r) h ∙ rw other refl)
]

-- Putting defaults in keeps what the rules say, in both directions.
pub HasRule-Defaulted :
    (c b : String) (s s' : Store) (p : RulePtr)
    → Defaulted s s'
    → HasRule c b s p
    → HasRule c b s' p
HasRule-Defaulted c b s s' p d (r, e, ec, eb) = elim (d p) [
  | inl same ↦ (r, same ∙ e, ec, eb)
  | inr new ↦ (defaulted r, new ∙ ap (map_option defaulted) e, ec, or_triton_idem r.backend ∙ eb)
]

some_inj : {r t : Rule} → some r ≡ some t → r ≡ t
some_inj h = cc

pub HasRule-Defaulted_rev :
    (c b : String) (s s' : Store) (p : RulePtr)
    → Defaulted s s'
    → HasRule c b s' p
    → HasRule c b s p
HasRule-Defaulted_rev c b s s' p d (r, e, ec, eb) = elim (d p) [
  | inl same ↦ (r, sym same ∙ e, ec, eb)
  | inr new ↦ go (get_elem? s p) refl new
]
  where
    go :
        (o : Option Rule)
        → get_elem? s p ≡ o
        → get_elem? s' p ≡ map_option defaulted (get_elem? s p)
        → HasRule c b s p
    go none old new = absurd (cc (new, e, ap (map_option defaulted) old))
    go (some r0) old new =
        let same : r ≡ defaulted r0 = some_inj (sym e ∙ new ∙ ap (map_option defaulted) old) in
        (
          r0,
          old,
          sym (ap (λ (x : Rule). x.cluster) same) ∙ ec,
          sym (or_triton_idem r0.backend) ∙ sym (ap (λ (x : Rule). or_triton x.backend) same) ∙ eb,
        )

-- Address `p` holds a rule of cluster `c` and backend `b`, with nothing left to default.
abbrev pub Resolved : String → String → Store → RulePtr → Type 0
Resolved c b s p = (r : Rule) × (get_elem? s p ≡ some r) × (r.cluster ≡ c) × (r.backend ≡ b)

pub Resolved-Defaulted :
    (c b : String) (s s' : Store) (p : RulePtr)
    → or_triton b ≡ b
    → Defaulted s s'
    → Resolved c b s p
    → Resolved c b s' p
Resolved-Defaulted c b s s' p full d (r, e, ec, eb) = elim (d p) [
  | inl same ↦ (r, same ∙ e, ec, eb)
  | inr new ↦ (defaulted r, new ∙ ap (map_option defaulted) e, ec, ap or_triton eb ∙ full)
]

pub Resolved-set :
    (c b : String) (s : Store) (p : RulePtr) {r : Rule}
    → get_elem? s p ≡ some r
    → r.cluster ≡ c
    → or_triton r.backend ≡ b
    → Resolved c b (set s p (defaulted r)) p
Resolved-set c b s p {r} live ec eb =
    let self : (p == p) ≡ true = ground arith in
    (defaulted r, get_elem?-set s p p (defaulted r) live ∙ rw self refl, ec, eb)
