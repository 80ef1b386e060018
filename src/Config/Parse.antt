-- ===== src/Config/Parse.antt =====
-- What `Parse` of pkg/config/config.go guarantees of all models at once.
use istio_llm_filter.Common.{
  ◌≡◌, ◌≢◌, refl, sym, inl, inr, String, Option, none, some, [], ◌∷◌, ok, panic, err, Dict, str_eq,
  str_eq_iff, arith, Bool-cases, subst, Result,
}
use istio_llm_filter.Common.Sort.{Member}
use istio_llm_filter.Config.{
  Rules, Store, RulePtr, Error, LlmProxyConfig, or_triton, validate_rules, parse_loop, parse,
}
use istio_llm_filter.Config.Defaults.{
  Defaulted, Defaulted-refl, Defaulted-trans, Resolved, Resolved-Defaulted,
}
use istio_llm_filter.Config.Validate.{validate_rules_sound}

-- The rules of a model are there, and all name one cluster and one backend, which is not empty.
pub record IsServed (s : Store) (r : Option Rules) : Type 0 where
  pub entry : Rules
  pub present : r ≡ some entry
  pub not_empty : entry.rules ≢ []
  pub cluster : String
  pub backend : String
  pub backend_known : backend ≢ ""
  pub resolved : (p : RulePtr) → Member p entry.rules → Resolved cluster backend s p

or_triton_full : (b : String) → b ≢ "" → or_triton b ≡ b
or_triton_full b h = ground (arith, str_eq_iff b "")

IsServed-Defaulted :
    (s s' : Store) (r : Option Rules) → Defaulted s s' → IsServed s r → IsServed s' r
IsServed-Defaulted s s' r d v = record {
  entry = v.entry;
  present = v.present;
  not_empty = v.not_empty;
  cluster = v.cluster;
  backend = v.backend;
  backend_known = v.backend_known;
  resolved = λ p m.
      Resolved-Defaulted v.cluster v.backend s s' p (or_triton_full v.backend v.backend_known) d
        (v.resolved p m);
}

-- One model: its entry is not nil, and its rules are valid.
parse_loop-cons :
    (m : String) (r : Option Rules) (ms : Dict (Option Rules)) (s : Store) {s' : Store}
    → parse_loop ((m, r) ∷ ms) s ≡ ok s'
    → (t : Store) × Defaulted s t × IsServed t r × (parse_loop ms t ≡ ok s')
unfolding parse_loop
parse_loop-cons m none ms s h = absurd (cc h)
parse_loop-cons m (some rs) ms s {s'} h = go (validate_rules rs.rules s) refl h
  where
    go :
        (v : Result Error (String × String × Store))
        → validate_rules rs.rules s ≡ v
        → parse_loop ((m, some rs) ∷ ms) s ≡ ok s'
        → (t : Store) × Defaulted s t × IsServed t (some rs) × (parse_loop ms t ≡ ok s')
    go (ok (c, b, t)) e h' =
        let (full, known, d, _, all) = validate_rules_sound rs.rules s e in
        (
          t,
          d,
          record {
            entry = rs;
            present = refl;
            not_empty = full;
            cluster = c;
            backend = b;
            backend_known = known;
            resolved = all;
          },
          rw (e, parse_loop) at h',
        )
    go (err x) e h' = absurd (cc (rw (e, parse_loop) at h'))
    go panic e h' = absurd (cc (rw (e, parse_loop) at h'))

parse_loop_sound :
    (ms : Dict (Option Rules)) (s : Store) {s' : Store}
    → parse_loop ms s ≡ ok s'
    → Defaulted s s' × ((m : String) (r : Option Rules) → Member (m, r) ms → IsServed s' r)
parse_loop_sound [] s {s'} h =
    let e : s ≡ s' = unfold parse_loop in cc h in
    (subst (Defaulted s) e (Defaulted-refl s), λ m r n. absurd n)
parse_loop_sound ((m, r) ∷ ms) s {s'} h =
    let (t, d, first, h') = parse_loop-cons m r ms s h in
    let (d', rest) = parse_loop_sound ms t h' in
    (
      Defaulted-trans s t s' d d',
      λ k q n. elim n [
        | inl e ↦
            subst (λ (x : String × Option Rules). IsServed s' x.1) (sym e)
              (IsServed-Defaulted t s' r d' first)
        | inr n' ↦ rest k q n'
      ],
    )

-- A configuration that `Parse` accepts names a protocol, and in every model's entry of
-- `model_mapping_rule` there is a rule, and all the rules have, in the store that `Parse` leaves,
-- one cluster and one backend that is not empty; that store differs from the one before by default
-- backends alone.
pub parse_sound :
    (c : LlmProxyConfig) (s : Store) {s' : Store}
    → parse c s ≡ ok s'
    → (c.protocol ≢ "")
      × Defaulted s s'
      × ((m : String) (r : Option Rules) → Member (m, r) c.model_mapping_rule → IsServed s' r)
unfolding parse
parse_sound c s h = elim (Bool-cases (str_eq c.protocol "")) [
  | inl empty ↦ absurd (cc (rw empty at h))
  | inr named ↦
      let (d, all) = parse_loop_sound c.model_mapping_rule s (rw named at h) in
      (λ e. cc ((str_eq_iff c.protocol "").1 e), d, all)
]
