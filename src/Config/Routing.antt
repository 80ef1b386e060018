-- ===== src/Config/Routing.antt =====
-- `Init`, `Parse` and `GetCandidateRule` of pkg/config/config.go together: from a configuration to the
-- rule that a request is sent by.
use mathlib.Core.Path.{fun_ext}
use mathlib.Core.List.Permᴰ
use istio_llm_filter.Common.{
  ◌≡◌, ◌≢◌, ◌⊎◌, refl, sym, ap, ◌∙◌, subst, inl, inr, String, true, Option, none, some, List, [],
  ◌∷◌, map, ok, >>=-eq-ok, Dict, lookup, insert, lookup-insert, str_eq, str_eq_iff, arith,
  Bool-cases, Option-cases, length, get_elem?, leb, all, ◌||◌,
}
use istio_llm_filter.Common.Sort.{Member, IsSorted, IsStrictWeak, Sorting, Member-perm}
use istio_llm_filter.Config.{
  Rule, Rules, Store, RulePtr, Tuple, Mapping, LlmProxyConfig, get_rules, parse,
}
use istio_llm_filter.Config.Defaults.{Defaulted}
use istio_llm_filter.Config.Init.{
  headers_len, more_headers, to_tuple, sort_tuples, build_model_mappings, init, is_live,
}
use istio_llm_filter.Config.Parse.{parse_sound}
use istio_llm_filter.Config.Route.{get_model_mappings, is_empty, get_candidate_rule, candidate_loop}
use istio_llm_filter.Config.Select.{
  IsSelected, get_candidate_rule-eq-loop, candidate_loop-IsSelected,
}

more_headers-IsStrictWeak : (s : Store) → IsStrictWeak (more_headers s)
more_headers-IsStrictWeak s = record {
  asymm = λ a b h. ground arith;
  not_less_trans = λ a b c h k. ground arith;
}

headers_len-Defaulted :
    (s s' : Store) → Defaulted s s' → (t : Tuple) → headers_len s' t ≡ headers_len s t
headers_len-Defaulted s s' d t = elim (d t.target_model) [
  | inl same ↦ ground arith
  | inr new ↦ elim (Option-cases (get_elem? s t.target_model)) [
    | inl e ↦ ground arith
    | inr (r, e) ↦ ground arith
  ]
]

more_headers-Defaulted : (s s' : Store) → Defaulted s s' → more_headers s ≡ more_headers s'
more_headers-Defaulted s s' d =
    fun_ext λ t. fun_ext λ u. rw (headers_len-Defaulted s s' d t, headers_len-Defaulted s s' d u)

-- A selection does not depend on the order of the tuples.
IsSelected-perm :
    (store : Store) (get : String → Option String) (ts us : List Tuple) (r : Rule)
    → ((u : Tuple) → Member u ts → Member u us)
    → ((u : Tuple) → Member u us → Member u ts)
    → IsSelected store get ts r
    → IsSelected store get us r
IsSelected-perm store get ts us r to back v = record {
  tuple = v.tuple;
  listed = to v.tuple v.listed;
  live = v.live;
  matches = v.matches;
  most_specific = λ u r' n. v.most_specific u r' (back u n);
}

pub Member-to_tuple :
    (t : Tuple) (ps : List RulePtr) → Member t (map to_tuple ps) → Member t.target_model ps
Member-to_tuple t (p ∷ ps) (inl e) = inl (ap (λ (u : Tuple). u.target_model) e)
Member-to_tuple t (p ∷ ps) (inr m) = inr (Member-to_tuple t ps m)
Member-to_tuple t [] m = absurd m

pub get_model_mappings_missing :
    (ms : Dict Mapping) (name : String) → lookup name ms ≡ none → get_model_mappings ms name ≡ []
unfolding get_model_mappings
get_model_mappings_missing ms name h = rw (h, get_model_mappings)

pub get_model_mappings_found :
    (ms : Dict Mapping) (name : String) (m : Mapping)
    → lookup name ms ≡ some m
    → get_model_mappings ms name ≡ m.tuples
unfolding get_model_mappings
get_model_mappings_found ms name m h = rw (h, get_model_mappings)

pub nil_of_is_empty : {A : Type 0} (xs : List A) → is_empty xs ≡ true → xs ≡ []
nil_of_is_empty [] h = refl
nil_of_is_empty (x ∷ xs) h = absurd (cc h)

-- A configuration as it is decoded: where it maps no models, it brings no computed mappings of its
-- own either. (Where it maps models, `Init` computes the mappings anew.)
abbrev pub IsFresh : LlmProxyConfig → Type 0
IsFresh c = c.model_mapping_rule ≡ [] → c.model_mappings ≡ []

module _ (S : Sorting) (store : Store) where
  sort_tuples_lem :
      (ts us : List Tuple) → sort_tuples S store ts ≡ ok us → us ≡ S.sort (more_headers store) ts
  unfolding sort_tuples
  sort_tuples_lem ts us h = elim (Bool-cases (leb (length ts) 1 || all (is_live store) ts)) [
    | inl fine ↦ cc (rw fine at h)
    | inr dead ↦ absurd (cc (rw dead at h))
  ]

  -- Every mapping is the sorted rules of an entry of that name.
  abbrev pub IsBuilt : Dict (Option Rules) → String → Mapping → Type 0
  IsBuilt models k m =
      (r : Option Rules) × Member (k, r) models
      × (m.tuples ≡ S.sort (more_headers store) (map to_tuple (get_rules r)))

  build-cons :
      (n : String) (r : Option Rules) (models : Dict (Option Rules)) (before after : Dict Mapping)
      → build_model_mappings S store ((n, r) ∷ models) before ≡ ok after
      → (build_model_mappings S store models before ≡ ok after)
        ⊎ ((us : List Tuple) × (sort_tuples S store (map to_tuple (get_rules r)) ≡ ok us)
            × (build_model_mappings S store models (insert n (record { tuples = us }) before)
                ≡ ok after))
  unfolding build_model_mappings
  build-cons n r models before after h = elim (Bool-cases (is_empty (get_rules r))) [
    | inl skipped ↦ inl (rw skipped at h)
    | inr kept ↦ inr (>>=-eq-ok (sort_tuples S store (map to_tuple (get_rules r))) _ (rw kept at h))
  ]

  insert-IsBuilt :
      (every : Dict (Option Rules)) (before : Dict Mapping) (n : String) (m : Mapping)
      → IsBuilt every n m
      → ((k : String) (m' : Mapping) → lookup k before ≡ some m' → IsBuilt every k m')
      → (k : String) (m' : Mapping) → lookup k (insert n m before) ≡ some m'
      → IsBuilt every k m'
  insert-IsBuilt every before n m new old k m' found = elim (Bool-cases (str_eq n k)) [
    | inl same ↦
        let e : m ≡ m' = cc (rw (lookup-insert n k m before, same) at found) in
        subst (IsBuilt every k) e (subst (λ x. IsBuilt every x m) ((str_eq_iff n k).0 same) new)
    | inr other ↦ old k m' (rw (lookup-insert n k m before, other) at found)
  ]

  build-IsBuilt :
      (every models : Dict (Option Rules)) (before after : Dict Mapping)
      → ((k : String) (r : Option Rules) → Member (k, r) models → Member (k, r) every)
      → ((k : String) (m : Mapping) → lookup k before ≡ some m → IsBuilt every k m)
      → build_model_mappings S store models before ≡ ok after
      → (k : String) (m : Mapping) → lookup k after ≡ some m
      → IsBuilt every k m
  build-IsBuilt every [] before after sub inv h k m found =
      let e : before ≡ after = unfold build_model_mappings in cc h in
      inv k m (ap (lookup k) e ∙ found)
  build-IsBuilt every ((n, r) ∷ models) before after sub inv h k0 m0 found =
      elim (build-cons n r models before after h) [
        | inl h' ↦
            build-IsBuilt every models before after (λ k q i. sub k q (inr i)) inv h' k0 m0 found
        | inr (us, sorted, h') ↦
            build-IsBuilt every models (insert n (record { tuples = us }) before) after
              (λ k q i. sub k q (inr i))
              (insert-IsBuilt every before n (record { tuples = us })
                (r, sub n r (inl refl), sort_tuples_lem (map to_tuple (get_rules r)) us sorted) inv)
              h' k0 m0 found
      ]

  pub init_fields :
      (c c' : LlmProxyConfig)
      → init S store c ≡ ok c'
      → (c'.model_mapping_rule ≡ c.model_mapping_rule)
        × (((c.model_mapping_rule ≡ []) × (c'.model_mappings ≡ c.model_mappings))
            ⊎ (build_model_mappings S store c.model_mapping_rule [] ≡ ok c'.model_mappings))
  unfolding init
  init_fields c c' h = elim (Bool-cases (is_empty c.model_mapping_rule)) [
    | inl none_set ↦
        (ground arith, inl (nil_of_is_empty c.model_mapping_rule none_set, ground arith))
    | inr some_set ↦
        let (mappings, built, h') =
          >>=-eq-ok (build_model_mappings S store c.model_mapping_rule []) _ (rw some_set at h) in
        let e : c'.model_mappings ≡ mappings = ground arith in (ground arith, inr (rw e built))
  ]

  pub init-IsBuilt :
      (c c' : LlmProxyConfig)
      → IsFresh c
      → init S store c ≡ ok c'
      → (k : String) (m : Mapping) → lookup k c'.model_mappings ≡ some m
      → IsBuilt c.model_mapping_rule k m
  init-IsBuilt c c' fresh h k m found = elim (init_fields c c' h).1 [
    | inl (unmapped, same) ↦ absurd (cc (ap (lookup k) (same ∙ fresh unmapped), found))
    | inr built ↦
        build-IsBuilt c.model_mapping_rule c.model_mapping_rule [] c'.model_mappings (λ k q i. i)
          (λ k m none_yet. absurd (cc none_yet)) built k m found
  ]

  -- A configuration that has no computed mappings yet, or maps models, is accepted by `Init` and
  -- `Parse`, and a rule is selected for a model by the request's headers. Then the model has an
  -- entry, the rule is one of the entry's, its header conditions all hold, no rule of the entry whose
  -- conditions hold has more of them, and its backend is not empty, though `Init` sorted the rules
  -- before `Parse` put the default backends in.
  pub get_candidate_rule-IsSelected :
      {E : Type 0} (c c' : LlmProxyConfig) (store' : Store) (name : String)
      (get : String → Option String) (r : Rule)
      → IsFresh c
      → init S store c ≡ ok c'
      → parse c' store ≡ ok store'
      → get_candidate_rule {E = E} store' get (get_model_mappings c'.model_mappings name)
        ≡ ok (some r)
      → (entry : Rules) × Member (name, some entry) c.model_mapping_rule
        × IsSelected store' get (map to_tuple entry.rules) r
        × (r.backend ≢ "")
  get_candidate_rule-IsSelected {E} c c' store' name get r fresh inited parsed chosen =
      elim (Option-cases (lookup name c'.model_mappings)) [
        | inl missing ↦
            let e = get_model_mappings_missing c'.model_mappings name missing in
            absurd (unfold get_candidate_rule candidate_loop in cc (rw e at chosen))
        | inr (m, found) ↦
            let e = get_model_mappings_found c'.model_mappings name m found in
            let (ro, listed, sorted) = init-IsBuilt c c' fresh inited name m found in
            let (named, d, all) = parse_sound c' store parsed in
            let v =
              all name ro
                (subst (λ x. Member (name, ro) x) (sym (init_fields c c' inited).0) listed) in
            let less = more_headers store in
            let raw = map to_tuple v.entry.rules in
            let tuples : m.tuples ≡ S.sort less raw =
              sorted
              ∙ ap (λ (x : Option Rules). S.sort less (map to_tuple (get_rules x))) v.present
              ∙ unfold get_rules in refl in
            let looped : candidate_loop {E = E} store' get (S.sort less raw) ≡ ok (some r) =
              sym (get_candidate_rule-eq-loop store' get (S.sort less raw))
              ∙ ap (λ (x : List Tuple). get_candidate_rule {E = E} store' get x) (sym (e ∙ tuples))
              ∙ chosen in
            let order =
              subst (λ x. IsSorted x (S.sort less raw)) (more_headers-Defaulted store store' d)
                (S.sort-IsSorted less raw (more_headers-IsStrictWeak store)) in
            let perm = S.sort-perm less raw in
            let sel =
              IsSelected-perm store' get (S.sort less raw) raw r (λ u n. Member-perm u perm n)
                (λ u n. Member-perm u (Permᴰ.symm perm) n)
                (candidate_loop-IsSelected {E = E} store' get (S.sort less raw) r order looped) in
            let (r0, there, _, eb) =
              v.resolved sel.tuple.target_model
                (Member-to_tuple sel.tuple v.entry.rules sel.listed) in
            let same : r0 ≡ r = cc (sel.live) in
            (
              v.entry,
              subst (λ x. Member (name, x) c.model_mapping_rule) v.present listed,
              sel,
              λ empty. v.backend_known (sym eb ∙ ap (λ (x : Rule). x.backend) same ∙ empty),
            )
      ]
