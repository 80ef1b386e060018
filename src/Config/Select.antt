-- ===== src/Config/Select.antt =====
-- Which rule `GetCandidateRule` of pkg/config/config.go selects from the rules that `Init` sorted.
use istio_llm_filter.Common.{
  ◌≤◌, ◌≡◌, ◌⊎◌, ◌&&◌, Bool, none, panic, refl, sym, ap, ◌∙◌, inl, inr, String, true, false, Option,
  some, List, [], ◌∷◌, ok, >>=-eq-ok, length, get_elem?, arith, Bool-cases,
}
use istio_llm_filter.Common.Sort.{Member, IsSorted}
use istio_llm_filter.Config.{HeaderValue, Rule, Store, Tuple, deref}
use istio_llm_filter.Config.Route.{
  header_matches, all_matched, is_empty, candidate_loop, get_candidate_rule,
}
use istio_llm_filter.Config.Init.{headers_len, more_headers}

-- Each header condition is there, and the request meets it.
abbrev pub all_hold : (String → Option String) → List (Option HeaderValue) → Bool
all_hold get [] = true
all_hold get (none ∷ vs) = false
all_hold get (some v ∷ vs) = header_matches get v && all_hold get vs

-- No element of a slice of pointers is nil.
abbrev pub NoNulls : {A : Type 0} → List (Option A) → Type 0
NoNulls [] = Unit
NoNulls (none ∷ xs) = ⊥
NoNulls (some x ∷ xs) = NoNulls xs

pub all_matched-cases :
    {E : Type 0} (get : String → Option String) (hs : List (Option HeaderValue))
    → (all_matched {E = E} get hs ≡ ok (all_hold get hs)) ⊎ (all_matched {E = E} get hs ≡ panic)
all_matched-cases get [] = inl refl
all_matched-cases get (none ∷ hs) = inr refl
all_matched-cases get (some h ∷ hs) = elim (Bool-cases (header_matches get h)) [
  | inl met ↦ rw met (all_matched-cases get hs)
  | inr missed ↦ inl (rw missed refl)
]

pub all_matched_lem :
    {E : Type 0} (get : String → Option String) (hs : List (Option HeaderValue))
    → NoNulls hs
    → all_matched {E = E} get hs ≡ ok (all_hold get hs)
all_matched_lem get [] n = refl
all_matched_lem get (none ∷ hs) n = absurd n
all_matched_lem get (some h ∷ hs) n = elim (Bool-cases (header_matches get h)) [
  | inl met ↦ rw met (all_matched_lem get hs n)
  | inr missed ↦ rw missed refl
]

pub holds_of_is_empty :
    (get : String → Option String) (r : Rule)
    → is_empty r.headers ≡ true
    → all_hold get r.headers ≡ true
holds_of_is_empty get r h = ground arith

module _ (store : Store) (get : String → Option String) where
  -- What a selection from tuples in order of their headers has found.
  pub record IsSelected (ts : List Tuple) (r : Rule) : Type 0 where
    pub tuple : Tuple
    pub listed : Member tuple ts
    pub live : get_elem? store tuple.target_model ≡ some r
    pub matches : all_hold get r.headers ≡ true
    pub most_specific :
        (u : Tuple) (r' : Rule)
        → Member u ts
        → get_elem? store u.target_model ≡ some r'
        → all_hold get r'.headers ≡ true
        → length r'.headers ≤ length r.headers

pub headers_len_live :
    (store : Store) (t : Tuple) {r : Rule}
    → get_elem? store t.target_model ≡ some r
    → headers_len store t ≡ length r.headers
headers_len_live store t h = ground arith

module _ {E : Type 0} (store : Store) (get : String → Option String) where
  -- The shortcut for one rule without headers changes nothing.
  pub get_candidate_rule-eq-loop :
      (ts : List Tuple) → get_candidate_rule {E = E} store get ts ≡ candidate_loop store get ts
  unfolding get_candidate_rule candidate_loop
  get_candidate_rule-eq-loop [] = refl
  get_candidate_rule-eq-loop (t ∷ []) = ground arith
  get_candidate_rule-eq-loop (t ∷ u ∷ ts) = refl

  candidate_loop-cons :
      (t : Tuple) (ts : List Tuple) (o : Option Rule)
      → candidate_loop {E = E} store get (t ∷ ts) ≡ ok o
      → (m : Rule) × (get_elem? store t.target_model ≡ some m)
        × (((all_hold get m.headers ≡ true) × (o ≡ some m))
            ⊎ ((all_hold get m.headers ≡ false) × (candidate_loop {E = E} store get ts ≡ ok o)))
  unfolding candidate_loop
  candidate_loop-cons t ts o h =
      let (m, live, h') = >>=-eq-ok (deref store t.target_model) _ h in
      (
        m,
        ground arith,
        elim (Bool-cases (is_empty m.headers)) [
          | inl default ↦ inl (holds_of_is_empty get m default, cc (rw default at h'))
          | inr some_headers ↦ elim (all_matched-cases {E = E} get m.headers) [
            | inr null ↦ absurd (cc (rw (some_headers, null) at h'))
            | inl read ↦ elim (Bool-cases (all_hold get m.headers)) [
              | inl yes_all ↦ inl (yes_all, cc (rw (some_headers, read, yes_all) at h'))
              | inr not_all ↦ inr (not_all, rw (some_headers, read, not_all) at h')
            ]
          ]
        ],
      )

  pub candidate_loop-IsSelected :
      (ts : List Tuple) (r : Rule)
      → IsSorted (more_headers store) ts
      → candidate_loop {E = E} store get ts ≡ ok (some r)
      → IsSelected store get ts r
  candidate_loop-IsSelected [] r s h = absurd (unfold candidate_loop in cc h)
  candidate_loop-IsSelected (t ∷ ts) r s h =
      let (m, live, found) = candidate_loop-cons t ts (some r) h in
      elim found [
        | inl (matched, e) ↦
            let same : r ≡ m = cc in
            record {
              tuple = t;
              listed = inl refl;
              live = live ∙ ap some (sym same);
              matches = ap (λ (x : Rule). all_hold get x.headers) same ∙ matched;
              most_specific = λ u r' n lu mu. elim n [
                | inl e' ↦
                    let q : r' ≡ r = cc in omega (arith, ap (λ (x : Rule). length x.headers) q)
                | inr n' ↦
                    let shorter = s.0 u n' in
                    let q = ap (λ (x : Rule). length x.headers) same in
                    let k = headers_len_live store u lu in
                    let l = headers_len_live store t live in ground arith
              ];
            }
        | inr (unmatched, h') ↦
            let v = candidate_loop-IsSelected ts r s.1 h' in
            record {
              tuple = v.tuple;
              listed = inr v.listed;
              live = v.live;
              matches = v.matches;
              most_specific = λ u r' n lu mu. elim n [
                | inl e' ↦
                    let q : r' ≡ m = cc in
                    absurd (cc (mu, unmatched, ap (λ (x : Rule). all_hold get x.headers) q))
                | inr n' ↦ v.most_specific u r' n' lu mu
              ];
            }
      ]
