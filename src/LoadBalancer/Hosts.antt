-- ===== src/LoadBalancer/Hosts.antt =====
-- The hosts that fit a selector, and the draw among candidates, in inference_lb.go.
use istio_llm_filter.Common.{
  ℕ, ◌≤◌, ◌<◌, ◌≡◌, refl, sym, ap, ◌∙◌, inl, inr, String, true, some, List, [], ◌∷◌, Dict, length,
  lookup_or_empty, str_eq, str_eq_iff, arith, Bool-cases,
}
use istio_llm_filter.Common.Sort.{Member}
use istio_llm_filter.Common.Members.{Member-get_elem?, get_elem?_total}
use istio_llm_filter.Types.{Host, Ctx, get_value_from_ctx, as_labels, key_lb_selector}
use istio_llm_filter.LoadBalancer.{
  labels_match, filter_hosts_by_selector, candidate_num_from_context, choose_from_candidates,
}
use istio_llm_filter.LoadBalancer.Choose.{candidate_hosts}

-- Whatever percentage the context holds, negative and above 100 included, from one host or more
-- the number of candidates is at least 1 and at most the number of hosts.
pub candidate_num_bounds :
    (ctx : Ctx) (n : ℕ)
    → 0 < n
    → (1 ≤ candidate_num_from_context ctx n) × (candidate_num_from_context ctx n ≤ n)
unfolding candidate_num_from_context
candidate_num_bounds ctx n h = ground arith

pub labels_match_lem :
    (labels selector : Dict String) (k v : String)
    → labels_match labels selector ≡ true
    → Member (k, v) selector
    → lookup_or_empty k labels ≡ v
labels_match_lem labels [] k v h m = absurd m
labels_match_lem labels ((j, w) ∷ selector) k v h m =
    elim (Bool-cases (str_eq (lookup_or_empty j labels) w)) [
      | inr other ↦ absurd (cc (rw other at h))
      | inl same ↦ elim m [
        | inl e ↦
            let ek : k ≡ j = ap (λ (p : String × String). p.0) e in
            let ev : v ≡ w = ap (λ (p : String × String). p.1) e in
            ap (λ (x : String). lookup_or_empty x labels) ek
            ∙ (str_eq_iff (lookup_or_empty j labels) w).0 same
            ∙ sym ev
        | inr n ↦ labels_match_lem labels selector k v (rw same at h) n
      ]
    ]

filter_hosts-Member :
    (hosts : List Host) (selector : Dict String) (h : Host)
    → Member h (filter_hosts_by_selector hosts selector)
    → Member h hosts × (labels_match h.labels selector ≡ true)
unfolding filter_hosts_by_selector
filter_hosts-Member [] selector h m = absurd m
filter_hosts-Member (g ∷ hosts) selector h m = elim (Bool-cases (labels_match g.labels selector)) [
  | inl fits ↦ elim (rw fits at m) [
    | inl e ↦ (inl e, ap (λ (x : Host). labels_match x.labels selector) e ∙ fits)
    | inr n ↦ let (n', e) = filter_hosts-Member hosts selector h n in (inr n', e)
  ]
  | inr unfit ↦ let (n, e) = filter_hosts-Member hosts selector h (rw unfit at m) in (inr n, e)
]

pub choose_from_candidates-Member :
    (intn : ℕ → ℕ) (hosts : List Host) (h : Host)
    → choose_from_candidates intn hosts ≡ some h
    → Member h hosts
unfolding choose_from_candidates
choose_from_candidates-Member intn [] h e = absurd (cc e)
choose_from_candidates-Member intn (g ∷ hosts) h e = Member-get_elem? (g ∷ hosts) _ e

-- What `rand.Intn` promises: a number below its bound, if that is positive.
abbrev pub IsIntn : (ℕ → ℕ) → Type 0
IsIntn intn = (n : ℕ) → 0 < n → intn n < n

pub choose_from_candidates_total :
    (intn : ℕ → ℕ) (hosts : List Host)
    → IsIntn intn
    → 0 < length hosts
    → (h : Host) × (choose_from_candidates intn hosts ≡ some h)
unfolding choose_from_candidates
choose_from_candidates_total intn [] r h = absurd (omega arith)
choose_from_candidates_total intn (g ∷ hosts) r h =
    get_elem?_total (g ∷ hosts) (intn (length (g ∷ hosts))) (r (length (g ∷ hosts)) h)

abbrev pub selector_of : Ctx → Dict String
selector_of ctx = get_value_from_ctx as_labels ctx key_lb_selector []

pub candidate_hosts-Member :
    (ctx : Ctx) (hosts : List Host) (h : Host)
    → Member h (candidate_hosts ctx hosts)
    → Member h hosts × (labels_match h.labels (selector_of ctx) ≡ true)
candidate_hosts-Member ctx hosts h m = go (selector_of ctx) m
  where
    go :
        (sel : Dict String)
        → Member h (elim sel [
          | [] ↦ hosts
          | kv ∷ selector ↦ filter_hosts_by_selector hosts (kv ∷ selector)
        ])
        → Member h hosts × (labels_match h.labels sel ≡ true)
    go [] n = (n, refl)
    go (kv ∷ selector) n = filter_hosts-Member hosts (kv ∷ selector) h n
