-- ===== src/Config/Panics.antt =====
-- The nil pointers that `Parse` of pkg/config/config.go dereferences.
use istio_llm_filter.Common.{
  ◌≡◌, ◌≢◌, refl, sym, ◌∙◌, inl, inr, String, Option, none, some, List, [], ◌∷◌, ◌++◌, ok, err,
  panic, Result, Dict, get_elem?, set, str_eq, str_eq_iff, Bool-cases, Option-cases, arith,
}
use istio_llm_filter.Common.Sort.{Member}
use istio_llm_filter.Config.{
  Rule, Rules, Store, RulePtr, Error, LlmProxyConfig, or_triton, validate_loop, validate_rules,
  parse_loop, parse,
}
use istio_llm_filter.Config.Defaults.{Defaulted, Defaulted-set, defaulted, map_option}
use istio_llm_filter.Config.Validate.{validate_rules_sound, validate_loop_step, validate_rules_step}

-- One of the pointers is nil.
abbrev pub HasNil : Store → List RulePtr → Type 0
HasNil s ps = (p : RulePtr) × Member p ps × (get_elem? s p ≡ none)

-- A model's entry is null, or one of its rules is.
abbrev pub IsNull : Store → Option Rules → Type 0
IsNull s none = Unit
IsNull s (some rs) = HasNil s rs.rules

none_of_map : (o : Option Rule) → map_option defaulted o ≡ none → o ≡ none
none_of_map none h = refl
none_of_map (some r) h = absurd (cc h)

none-Defaulted :
    (s s' : Store) (p : RulePtr) → Defaulted s s' → get_elem? s' p ≡ none → get_elem? s p ≡ none
none-Defaulted s s' p d h = elim (d p) [
  | inl same ↦ sym same ∙ h
  | inr new ↦ none_of_map (get_elem? s p) (sym new ∙ h)
]

HasNil-Defaulted : (s s' : Store) (ps : List RulePtr) → Defaulted s s' → HasNil s' ps → HasNil s ps
HasNil-Defaulted s s' ps d (p, listed, nil) = (p, listed, none-Defaulted s s' p d nil)

IsNull-Defaulted : (s s' : Store) (r : Option Rules) → Defaulted s s' → IsNull s' r → IsNull s r
IsNull-Defaulted s s' none d h = tt
IsNull-Defaulted s s' (some rs) d h = HasNil-Defaulted s s' rs.rules d h

-- A loop over valid rules goes on with the rest.
validate_loop_rest :
    (c b : String) (p : RulePtr) (ps : List RulePtr) (s : Store) (r : Rule)
    → get_elem? s p ≡ some r
    → validate_loop c b (p ∷ ps) s ≡ panic
    → validate_loop c b ps (set s p (defaulted r)) ≡ panic
unfolding validate_loop
validate_loop_rest c b p ps s r live h = elim (Bool-cases (str_eq r.cluster c)) [
  | inr other ↦ absurd (ground arith)
  | inl same ↦ elim (Bool-cases (str_eq (or_triton r.backend) b)) [
    | inr other ↦ absurd (ground arith)
    | inl alike ↦
        sym (
          validate_loop_step c b p ps s live ((str_eq_iff r.cluster c).0 same)
            ((str_eq_iff (or_triton r.backend) b).0 alike))
        ∙ h
  ]
]

validate_loop_panic :
    (c b : String) (ps : List RulePtr) (s : Store) → validate_loop c b ps s ≡ panic → HasNil s ps
validate_loop_panic c b [] s h = absurd (unfold validate_loop in cc h)
validate_loop_panic c b (p ∷ ps) s h = elim (Option-cases (get_elem? s p)) [
  | inl nil ↦ (p, inl refl, nil)
  | inr (r, live) ↦
      let t = set s p (defaulted r) in
      let (q, listed, nil) =
        HasNil-Defaulted s t ps (Defaulted-set s p live)
          (validate_loop_panic c b ps t (validate_loop_rest c b p ps s r live h)) in
      (q, inr listed, nil)
]

validate_rules_loop :
    (p : RulePtr) (ps : List RulePtr) (s : Store) (r : Rule)
    → get_elem? s p ≡ some r
    → validate_rules (p ∷ ps) s ≡ panic
    → validate_loop r.cluster (or_triton r.backend) (p ∷ ps) s ≡ panic
validate_rules_loop p ps s r live h =
    go (validate_loop r.cluster (or_triton r.backend) (p ∷ ps) s) refl
  where
    go :
        (v : Result Error Store)
        → validate_loop r.cluster (or_triton r.backend) (p ∷ ps) s ≡ v
        → validate_loop r.cluster (or_triton r.backend) (p ∷ ps) s ≡ panic
    go (ok t) e = let k = sym (validate_rules_step p ps s live) ∙ h in absurd (cc (rw e at k))
    go (err x) e = let k = sym (validate_rules_step p ps s live) ∙ h in absurd (cc (rw e at k))
    go panic e = e

validate_rules_panic : (ps : List RulePtr) (s : Store) → validate_rules ps s ≡ panic → HasNil s ps
validate_rules_panic [] s h = absurd (unfold validate_rules in cc h)
validate_rules_panic (p ∷ ps) s h = elim (Option-cases (get_elem? s p)) [
  | inl nil ↦ (p, inl refl, nil)
  | inr (r, live) ↦
      validate_loop_panic r.cluster (or_triton r.backend) (p ∷ ps) s
        (validate_rules_loop p ps s r live h)
]

-- Some model of the map has a null.
abbrev HasNull : Store → Dict (Option Rules) → Type 0
HasNull s ms = (m : String) × (r : Option Rules) × Member (m, r) ms × IsNull s r

parse_loop_panic : (ms : Dict (Option Rules)) (s : Store) → parse_loop ms s ≡ panic → HasNull s ms
unfolding parse_loop
parse_loop_panic [] s h = absurd (cc h)
parse_loop_panic ((m, none) ∷ ms) s h = (m, none, inl refl, tt)
parse_loop_panic ((m, some rs) ∷ ms) s h = go (validate_rules rs.rules s) refl (parse_loop_panic ms)
  where
    go :
        (v : Result Error (String × String × Store))
        → validate_rules rs.rules s ≡ v
        → ((t : Store) → parse_loop ms t ≡ panic → HasNull t ms)
        → HasNull s ((m, some rs) ∷ ms)
    go panic e rest = (m, some rs, inl refl, validate_rules_panic rs.rules s e)
    go (err x) e rest = absurd (cc (rw (e, parse_loop) at h))
    go (ok (c, b, t)) e rest =
        let (k, r, listed, null) = rest t (rw (e, parse_loop) at h) in
        (k, r, inr listed, IsNull-Defaulted s t r (validate_rules_sound rs.rules s e).2 null)

parse_loop_null :
    (before after : Dict (Option Rules)) (m : String) (s t : Store)
    → parse_loop before s ≡ ok t
    → parse_loop (before ++ (m, none) ∷ after) s ≡ panic
unfolding parse_loop
parse_loop_null [] after m s t h = refl
parse_loop_null ((k, none) ∷ before) after m s t h = absurd (cc h)
parse_loop_null ((k, some rs) ∷ before) after m s t h =
    go (validate_rules rs.rules s) refl (λ u. parse_loop_null before after m u t)
  where
    go :
        (v : Result Error (String × String × Store))
        → validate_rules rs.rules s ≡ v
        → ((u : Store)
            → parse_loop before u ≡ ok t
            → parse_loop (before ++ (m, none) ∷ after) u ≡ panic)
        → parse_loop ((k, some rs) ∷ before ++ (m, none) ∷ after) s ≡ panic
    go panic e rest = absurd (cc (rw (e, parse_loop) at h))
    go (err x) e rest = absurd (cc (rw (e, parse_loop) at h))
    go (ok (c, b, u)) e rest = rw (e, parse_loop) (rest u (rw (e, parse_loop) at h))

-- `Parse` panics on nulls alone: where it does, the protocol is named, and the entry of some model in
-- `model_mapping_rule` is null, or one of the entry's rules is.
pub parse_panic :
    (c : LlmProxyConfig) (s : Store)
    → parse c s ≡ panic
    → (c.protocol ≢ "")
      × ((m : String) × (r : Option Rules) × Member (m, r) c.model_mapping_rule × IsNull s r)
unfolding parse
parse_panic c s h = elim (Bool-cases (str_eq c.protocol "")) [
  | inl empty ↦ absurd (cc (rw empty at h))
  | inr named ↦ (
    λ e. cc ((str_eq_iff c.protocol "").1 e),
    parse_loop_panic c.model_mapping_rule s (rw named at h),
  )
]

-- Where a protocol is named, a null entry in `model_mapping_rule` makes `Parse` panic once it comes to
-- it: whenever the models before it, in the order of the iteration, pass the validation, and whatever
-- the models after it are.
pub parse_null :
    (c : LlmProxyConfig) (s t : Store) (before after : Dict (Option Rules)) (m : String)
    → c.protocol ≢ ""
    → c.model_mapping_rule ≡ before ++ (m, none) ∷ after
    → parse_loop before s ≡ ok t
    → parse c s ≡ panic
unfolding parse
parse_null c s t before after m known map_order valid = elim (Bool-cases (str_eq c.protocol "")) [
  | inl empty ↦ absurd (known ((str_eq_iff c.protocol "").0 empty))
  | inr named ↦ rw (named, map_order) (parse_loop_null before after m s t valid)
]
