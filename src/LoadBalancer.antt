-- ===== src/LoadBalancer.antt =====
-- pkg/loadbalancer: the inference load balancer (inference_lb.go) and its entry (manager.go).
-- `rand.Intn` is the argument `intn`, the number that it returns for each bound.
pub mod Score
pub mod Choose
pub mod Hosts
pub mod Ranking
pub mod Chosen
pub mod Dominance
pub mod Live
pub mod Tests
use istio_llm_filter.Common.{
  ℕ, zero, suc, ◌+◌, ◌*◌, ◌/◌, String, Bool, true, false, ◌&&◌, Option, none, some, List, [], ◌∷◌,
  Dict, lookup, lookup_or_empty, length, get_elem?, ltb, str_eq, if◌then◌else◌,
}
use istio_llm_filter.Common.Int.{ℤ, pos, negsuc}
use istio_llm_filter.Types.{
  Host, Ctx, get_value_from_ctx, as_int, as_bool, key_candidate_percent, default_candidate_percent,
  key_load_aware_enable, key_cache_aware_enable, MetadataQueries,
}

-- The inner loop of `filterHostsBySelector`; a label that is missing reads as "".
abbrev pub labels_match : Dict String → Dict String → Bool
labels_match labels [] = true
labels_match labels ((k, v) ∷ selector) =
    str_eq (lookup_or_empty k labels) v && labels_match labels selector

-- `filterHostsBySelector`
unfoldable pub filter_hosts_by_selector : List Host → Dict String → List Host
filter_hosts_by_selector [] selector = []
filter_hosts_by_selector (h ∷ hosts) selector =
    if labels_match h.labels selector
    then h ∷ filter_hosts_by_selector hosts selector
    else filter_hosts_by_selector hosts selector

-- `len(hosts) * percent / 100`, of which only the positive values matter below.
abbrev pub percent_of : ℕ → ℤ → ℕ
percent_of n (pos p) = n * p / 100
percent_of n (negsuc p) = 0

-- `candidateNumFromContext`, for `len(hosts)`. A quotient that is 0 or negative is below 1.
unfoldable pub candidate_num_from_context : Ctx → ℕ → ℕ
candidate_num_from_context ctx n =
    let percent = get_value_from_ctx as_int ctx key_candidate_percent default_candidate_percent in
    let cand_num = percent_of n percent in
    let at_least_one = if ltb cand_num 1 then 1 else cand_num in
    if ltb n at_least_one then n else at_least_one

-- `chooseFromCandidates`
unfoldable pub choose_from_candidates : (ℕ → ℕ) → List Host → Option Host
choose_from_candidates intn [] = none
choose_from_candidates intn (h ∷ hosts) = get_elem? (h ∷ hosts) (intn (length (h ∷ hosts)))

-- `isLoadAwareEnabled` and `isCacheAwareEnabled`
unfoldable pub is_load_aware_enabled : MetadataQueries → Ctx → Bool
is_load_aware_enabled mc ctx = get_value_from_ctx as_bool ctx key_load_aware_enable mc.is_enabled

unfoldable pub is_cache_aware_enabled : MetadataQueries → Ctx → Bool
is_cache_aware_enabled mc ctx =
    get_value_from_ctx as_bool ctx key_cache_aware_enable mc.is_cache_enabled
