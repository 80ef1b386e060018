-- ===== src/Config/Validate.antt =====
-- What `validateRules` and `Parse` of pkg/config/config.go accept, and what they write.
use istio_llm_filter.Common.{
  ◌≡◌, ◌≢◌, refl, sym, subst, ◌∙◌, ap, inl, inr, String, some, List, [], ◌∷◌, ok, ◌>>=◌, >>=-eq-ok,
  get_elem?, set, str_eq, str_eq_iff, arith, Bool-cases,
}
use istio_llm_filter.Common.Sort.{Member}
use istio_llm_filter.Config.Defaults.{
  defaulted, Defaulted, IsUniform, or_triton_idem, or_triton-ne-empty, Defaulted-trans,
  Defaulted-set, HasRule-Defaulted, HasRule-Defaulted_rev, Resolved, Resolved-Defaulted,
  Resolved-set,
}
use istio_llm_filter.Config.{
  Rule, Store, RulePtr, Error, deref, or_triton, validate_loop, validate_rules,
}

-- What the loop has done when it ends without an error.
record Validated (c b : String) (ps : List RulePtr) (s s' : Store) : Type 0 where
  defaults : Defaulted s s'
  uniform : IsUniform c b s ps
  written : (p : RulePtr) → Member p ps → Resolved c b s' p

deref_inv :
    (s : Store) (p : RulePtr) {r : Rule} → deref {E = Error} s p ≡ ok r → get_elem? s p ≡ some r
deref_inv s p h = ground arith

validate_loop-cons :
    (c b : String) (p : RulePtr) (ps : List RulePtr) (s s' : Store)
    → validate_loop c b (p ∷ ps) s ≡ ok s'
    → (r : Rule) × (get_elem? s p ≡ some r)
      × (r.cluster ≡ c)
      × (or_triton r.backend ≡ b)
      × (validate_loop c b ps (set s p (defaulted r)) ≡ ok s')
unfolding validate_loop
validate_loop-cons c b p ps s s' h =
    let (r, live, h') = >>=-eq-ok (deref s p) _ h in
    elim (Bool-cases (str_eq r.cluster c)) [
      | inr other ↦ absurd (cc (rw other at h'))
      | inl same ↦ elim (Bool-cases (str_eq (or_triton r.backend) b)) [
        | inr other ↦ absurd (cc (rw (same, other) at h'))
        | inl alike ↦ (
          r,
          deref_inv s p live,
          (str_eq_iff r.cluster c).0 same,
          (str_eq_iff (or_triton r.backend) b).0 alike,
          rw (same, alike) at h',
        )
      ]
    ]

validate_loop-nil : (c b : String) {s s' : Store} → validate_loop c b [] s ≡ ok s' → s ≡ s'
unfolding validate_loop
validate_loop-nil c b h = cc

full_backend : (r : Rule) {b : String} → or_triton r.backend ≡ b → or_triton b ≡ b
full_backend r e = ap or_triton (sym e) ∙ or_triton_idem r.backend ∙ e

validate_loop-Validated :
    (c b : String) (ps : List RulePtr) (s s' : Store)
    → validate_loop c b ps s ≡ ok s'
    → Validated c b ps s s'
validate_loop-Validated c b [] s s' h = record {
  defaults = λ q. inl (ap (λ (x : Store). get_elem? x q) (sym (validate_loop-nil c b h)));
  uniform = λ p m. absurd m;
  written = λ p m. absurd m;
}
validate_loop-Validated c b (p ∷ ps) s s' h =
    let (r, live, ec, eb, h') = validate_loop-cons c b p ps s s' h in
    let t = set s p (defaulted r) in
    let v = validate_loop-Validated c b ps t s' h' in
    let first = Defaulted-set s p live in
    record {
      defaults = Defaulted-trans s t s' first v.defaults;
      uniform = λ q m. elim m [
        | inl e ↦ (r, ap (get_elem? s) e ∙ live, ec, eb)
        | inr n ↦ HasRule-Defaulted_rev c b s t q first (v.uniform q n)
      ];
      written = λ q m. elim m [
        | inl e ↦ subst (Resolved c b s') (sym e) (
            Resolved-Defaulted c b t s' p (full_backend r eb) v.defaults
              (Resolved-set c b s p live ec eb))
        | inr n ↦ v.written q n
      ];
    }

pub validate_loop_step :
    (c b : String) (p : RulePtr) (ps : List RulePtr) (s : Store) {r : Rule}
    → get_elem? s p ≡ some r
    → r.cluster ≡ c
    → or_triton r.backend ≡ b
    → validate_loop c b (p ∷ ps) s ≡ validate_loop c b ps (set s p (defaulted r))
unfolding validate_loop
validate_loop_step c b p ps s {r} live ec eb =
    let same = (str_eq_iff r.cluster c).1 ec in
    let alike = (str_eq_iff (or_triton r.backend) b).1 eb in ground arith

validate_loop_complete :
    (c b : String) (ps : List RulePtr) (s : Store)
    → IsUniform c b s ps
    → (s' : Store) × (validate_loop c b ps s ≡ ok s')
validate_loop_complete c b [] s h = (s, unfold validate_loop in refl)
validate_loop_complete c b (p ∷ ps) s h =
    let (r, live, ec, eb) = h p (inl refl) in
    let d = Defaulted-set s p live in
    let (s', e) =
      validate_loop_complete c b ps (set s p (defaulted r))
        (λ q m. HasRule-Defaulted c b s (set s p (defaulted r)) q d (h q (inr m))) in
    (s', validate_loop_step c b p ps s live ec eb ∙ e)

pub validate_rules_step :
    (p : RulePtr) (ps : List RulePtr) (s : Store) {r : Rule}
    → get_elem? s p ≡ some r
    → validate_rules (p ∷ ps) s ≡ (
        validate_loop r.cluster (or_triton r.backend) (p ∷ ps) s >>= λ s'.
        ok (r.cluster, or_triton r.backend, s'))
unfolding validate_rules
validate_rules_step p ps s live = ground arith

-- Once `validateRules` accepts the rules of a model and reports a cluster and a backend, there is a
-- rule, the backend is not empty, and every rule in the store that it leaves has just that cluster
-- and that backend; the store differs from the one before by default backends alone, and the rules
-- agreed before, an empty backend read as "triton".
pub validate_rules_sound :
    (ps : List RulePtr) (s : Store) {c b : String} {s' : Store}
    → validate_rules ps s ≡ ok (c, b, s')
    → (ps ≢ [])
      × (b ≢ "")
      × Defaulted s s'
      × IsUniform c b s ps
      × ((p : RulePtr) → Member p ps → Resolved c b s' p)
unfolding validate_rules
validate_rules_sound [] s h = absurd (cc h)
validate_rules_sound (p ∷ ps) s {c} {b} {s'} h =
    let (r, live, h1) = >>=-eq-ok (deref s p) _ h in
    let (t, looped, h2) =
      >>=-eq-ok (validate_loop r.cluster (or_triton r.backend) (p ∷ ps) s) _ h1 in
    let ec : r.cluster ≡ c = cc in
    let eb : or_triton r.backend ≡ b = cc in
    let et : t ≡ s' = cc in
    let v = validate_loop-Validated c b (p ∷ ps) s s' (
      subst (λ x. validate_loop x b (p ∷ ps) s ≡ ok s') ec
        (subst (λ x. validate_loop r.cluster x (p ∷ ps) s ≡ ok s') eb (looped ∙ ap ok et))) in
    (
      λ e. cc,
      subst (λ x. x ≢ "") eb (or_triton-ne-empty r.backend),
      v.defaults,
      v.uniform,
      v.written,
    )

-- Whenever a list of one rule or more agrees on a cluster and, an empty one read as "triton", on a
-- backend, `validateRules` accepts it and reports these two.
pub validate_rules_complete :
    (p : RulePtr) (ps : List RulePtr) (s : Store) (c b : String)
    → IsUniform c b s (p ∷ ps)
    → (s' : Store) × (validate_rules (p ∷ ps) s ≡ ok (c, b, s'))
validate_rules_complete p ps s c b h =
    let (r, live, ec, eb) = h p (inl refl) in
    let (s', looped) = validate_loop_complete c b (p ∷ ps) s h in
    (s', validate_rules_step p ps s live ∙ rw (ec, eb, looped))
