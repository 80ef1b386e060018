-- ===== src/Config/Decides.antt =====
-- `GetCandidateRule` of pkg/config/config.go finds a rule whenever there is one.
use istio_llm_filter.Common.{
  ◌≡◌, refl, ap, ◌∙◌, ◌⊎◌, inl, inr, String, true, false, Option, none, some, List, [], ◌∷◌, ◌++◌,
  ok, panic, Bool-cases, get_elem?, arith,
}
use istio_llm_filter.Common.Sort.{Member}
use istio_llm_filter.Config.{HeaderValue, Rule, Store, Tuple}
use istio_llm_filter.Config.Route.{
  all_matched, header_matches, is_empty, candidate_loop, get_candidate_rule,
}
use istio_llm_filter.Config.Select.{
  get_candidate_rule-eq-loop, holds_of_is_empty, all_hold, all_matched_lem, NoNulls,
}

-- No pointer of the tuples is nil, and none among the headers of their rules.
abbrev pub IsReadable : Store → List Tuple → Type 0
IsReadable store ts =
    (t : Tuple)
    → Member t ts
    → (m : Rule) × (get_elem? store t.target_model ≡ some m) × NoNulls m.headers

module _ (store : Store) (get : String → Option String) where
  -- The rule is one that a tuple points to, and its conditions all hold.
  abbrev pub IsFound : List Tuple → Rule → Type 0
  IsFound ts r =
      (t : Tuple) × Member t ts
      × (get_elem? store t.target_model ≡ some r)
      × (all_hold get r.headers ≡ true)

  -- The conditions of no rule among the tuples all hold.
  abbrev pub IsUnmatched : List Tuple → Type 0
  IsUnmatched ts =
      (t : Tuple) (m : Rule)
      → Member t ts
      → get_elem? store t.target_model ≡ some m
      → all_hold get m.headers ≡ false

append_cons_is_empty :
    (before after : List (Option HeaderValue)) → is_empty (before ++ none ∷ after) ≡ false
append_cons_is_empty [] after = refl
append_cons_is_empty (h ∷ before) after = refl

module _ {E : Type 0} (store : Store) (get : String → Option String) where
  candidate_loop_found :
      (t : Tuple) (ts : List Tuple) (m : Rule)
      → get_elem? store t.target_model ≡ some m
      → NoNulls m.headers
      → all_hold get m.headers ≡ true
      → candidate_loop {E = E} store get (t ∷ ts) ≡ ok (some m)
  unfolding candidate_loop
  candidate_loop_found t ts m live full yes_all =
      let read = all_matched_lem {E = E} get m.headers full in
      elim (Bool-cases (is_empty m.headers)) [
        | inl default ↦ ground arith
        | inr some_headers ↦ ground arith
      ]

  candidate_loop_skipped :
      (t : Tuple) (ts : List Tuple) (m : Rule)
      → get_elem? store t.target_model ≡ some m
      → NoNulls m.headers
      → all_hold get m.headers ≡ false
      → candidate_loop {E = E} store get (t ∷ ts) ≡ candidate_loop {E = E} store get ts
  unfolding candidate_loop
  candidate_loop_skipped t ts m live full not_all =
      let read = all_matched_lem {E = E} get m.headers full in
      elim (Bool-cases (is_empty m.headers)) [
        | inl default ↦ let a = holds_of_is_empty get m default in absurd (cc (a, not_all))
        | inr some_headers ↦ ground arith
      ]

  candidate_loop_decides :
      (ts : List Tuple)
      → IsReadable store ts
      → ((r : Rule) × (candidate_loop {E = E} store get ts ≡ ok (some r)) × IsFound store get ts r)
        ⊎ ((candidate_loop {E = E} store get ts ≡ ok none) × IsUnmatched store get ts)
  candidate_loop_decides [] readable = inr (unfold candidate_loop in refl, λ t m n. absurd n)
  candidate_loop_decides (t ∷ ts) readable =
      let (m, live, full) = readable t (inl refl) in
      elim (Bool-cases (all_hold get m.headers)) [
        | inl yes_all ↦
            inl (m, candidate_loop_found t ts m live full yes_all, (t, inl refl, live, yes_all))
        | inr not_all ↦
            let skip = candidate_loop_skipped t ts m live full not_all in
            elim (candidate_loop_decides ts (λ u n. readable u (inr n))) [
              | inl (r, found, (u, n, l, y)) ↦ inl (r, skip ∙ found, (u, inr n, l, y))
              | inr (missing, others) ↦ inr (
                skip ∙ missing,
                λ u k n e. elim n [
                  | inl same ↦
                      let q : k ≡ m = cc in ap (λ (x : Rule). all_hold get x.headers) q ∙ not_all
                  | inr n' ↦ others u k n' e
                ],
              )
            ]
      ]

  matched_null :
      (before after : List (Option HeaderValue))
      → all_hold get before ≡ true
      → all_matched {E = E} get (before ++ none ∷ after) ≡ panic
  matched_null [] after h = refl
  matched_null (none ∷ before) after h = absurd (cc h)
  matched_null (some v ∷ before) after h = elim (Bool-cases (header_matches get v)) [
    | inl met ↦ rw met (matched_null before after (rw met at h))
    | inr missed ↦ absurd (cc (rw missed at h))
  ]

  candidate_loop_null :
      (earlier later : List Tuple) (t : Tuple) (r : Rule) (before after : List (Option HeaderValue))
      → IsReadable store earlier
      → IsUnmatched store get earlier
      → get_elem? store t.target_model ≡ some r
      → r.headers ≡ before ++ none ∷ after
      → all_hold get before ≡ true
      → candidate_loop {E = E} store get (earlier ++ t ∷ later) ≡ panic
  unfolding candidate_loop
  candidate_loop_null [] later t r before after readable unmatched live null met =
      let full : is_empty r.headers ≡ false =
        ap is_empty null ∙ append_cons_is_empty before after in
      let stop : all_matched {E = E} get r.headers ≡ panic =
        ap (all_matched {E = E} get) null ∙ matched_null before after met in
      ground arith
  candidate_loop_null (u ∷ earlier) later t r before after readable unmatched live null met =
      let (m, there, whole) = readable u (inl refl) in
      candidate_loop_skipped u (earlier ++ t ∷ later) m there whole (unmatched u m (inl refl) there)
      ∙ candidate_loop_null earlier later t r before after (λ v n. readable v (inr n))
          (λ v k n. unmatched v k (inr n)) live null met

  -- The selection panics at a null among a rule's headers that it comes to: the conditions of the
  -- rules before are not met, and those before the null are.
  pub get_candidate_rule_null :
      (earlier later : List Tuple) (t : Tuple) (r : Rule) (before after : List (Option HeaderValue))
      → IsReadable store earlier
      → IsUnmatched store get earlier
      → get_elem? store t.target_model ≡ some r
      → r.headers ≡ before ++ none ∷ after
      → all_hold get before ≡ true
      → get_candidate_rule {E = E} store get (earlier ++ t ∷ later) ≡ panic
  get_candidate_rule_null earlier later t r before after readable unmatched live null met =
      get_candidate_rule-eq-loop store get (earlier ++ t ∷ later)
      ∙ candidate_loop_null earlier later t r before after readable unmatched live null met

  -- Where no pointer to a rule is nil, and none among the headers of the rules, the selection neither
  -- fails nor panics: it finds a rule that a tuple points to and whose header conditions all hold, or it
  -- finds none and the header conditions of no rule among the tuples all hold.
  pub get_candidate_rule_decides :
      (ts : List Tuple)
      → IsReadable store ts
      → ((r : Rule) × (get_candidate_rule {E = E} store get ts ≡ ok (some r))
          × IsFound store get ts r)
        ⊎ ((get_candidate_rule {E = E} store get ts ≡ ok none) × IsUnmatched store get ts)
  get_candidate_rule_decides ts readable =
      let same = get_candidate_rule-eq-loop {E = E} store get ts in
      elim (candidate_loop_decides ts readable) [
        | inl (r, found, where_it_is) ↦ inl (r, same ∙ found, where_it_is)
        | inr (missing, others) ↦ inr (same ∙ missing, others)
      ]
