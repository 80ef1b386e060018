-- ===== src/LoadBalancer/Tests.antt =====
-- Small whole numbers in the place of the doubles, and the theorems at two hosts.
use native.Mathlib.Nat.{mul-le-mul_left, mul-div-le, le-div_iff_mul-le, mul_comm}
use istio_llm_filter.Common.{
  ℕ, ◌-◌, ◌*◌, ◌/◌, ◌≤◌, ◌≡◌, refl, inl, String, true, false, some, List, [], ◌∷◌, ltb, ◌==◌,
  if◌then◌else◌, arith, lookup_or_empty,
}
use istio_llm_filter.Common.Int.{ℤ, pos, negsuc, pos_part, ◌≤ℤ◌}
use istio_llm_filter.Common.Sort.{Member, by_insertion, insertion_sort}
use istio_llm_filter.Types.{Host, EndpointStats, MetadataQueries, get_value_from_ctx}
use istio_llm_filter.Types.Float.{Float64}
use istio_llm_filter.LoadBalancer.{
  candidate_num_from_context, is_load_aware_enabled, is_cache_aware_enabled, choose_from_candidates,
}
use istio_llm_filter.LoadBalancer.Score.{
  EndpointStatsWrapper, wrap, score_stat, weights, get_endpoint_stats, merge_stats_and_score,
  get_cache_stats, range_loop,
}
use istio_llm_filter.LoadBalancer.Choose.{choose_host, ranked_stats, get_candidate_by_stats}
use istio_llm_filter.LoadBalancer.Hosts.{IsIntn, selector_of}
use istio_llm_filter.LoadBalancer.Ranking.{ranked_stats_best}
use istio_llm_filter.LoadBalancer.Chosen.{choose_host-Member}
use istio_llm_filter.LoadBalancer.Dominance.{IsWeighted}

pub mul_mono_ℕ : (w a b : ℕ) → a ≤ b → w * a ≤ w * b
mul_mono_ℕ w a b h = mul-le-mul_left w h

pub div_mono_ℕ : (d a b : ℕ) → 1 ≤ d → a ≤ b → a / d ≤ b / d
div_mono_ℕ d a b p h = (le-div_iff_mul-le p).1 (omega (arith, mul-div-le a d, mul_comm d (a / d)))

pub of_int_mono_ℕ : (m n : ℤ) → m ≤ℤ n → pos_part m ≤ pos_part n
of_int_mono_ℕ (pos m) (pos n) h = omega arith
of_int_mono_ℕ (pos m) (negsuc n) h = omega arith
of_int_mono_ℕ (negsuc m) n h = omega arith

-- The numbers are rounded down, and a negative one to 0.
abbrev pub small_doubles : Float64
small_doubles = record {
  F = ℕ;
  of_int = pos_part;
  max_float64 = 1000000;
  sub = λ a b. a - b;
  mul = λ a b. a * b;
  div = λ a b. a / b;
  fmax = λ a b. if ltb a b then b else a;
  fmin = λ a b. if ltb a b then a else b;
  ceil = λ a. a;
  eqb = λ a b. a == b;
  less = ltb;
  Le = λ a b. a ≤ b;
  le_refl = λ a. omega arith;
  of_int_mono = λ m n h. of_int_mono_ℕ m n h;
  sub_mono = λ a b c d h k. omega arith;
  mul_mono = λ w a b p h. mul_mono_ℕ w a b h;
  mul_nonneg = λ a b p q. omega arith;
  div_mono = λ d a b p h. div_mono_ℕ d a b p h;
  div_nonneg = λ a d p q. omega arith;
  ceil_nonneg = λ a h. h;
  le-fmax = λ a b c h. ground arith;
  less-IsStrictWeak = record {
    asymm = λ a b h. ground arith;
    not_less_trans = λ a b c h k. ground arith;
  };
  not_less_of_le = λ a b h. ground arith;
}

abbrev pub host : String → Host
host ip = record { ip = ip; port = 80; address = ip; labels = [] }

abbrev pub hosts : List Host
hosts = host "a" ∷ host "b" ∷ []

abbrev pub busy : ℕ → EndpointStats
busy n = record { prefill_reqs = pos 0; total_reqs = pos n; prompt_length = pos (100 * n) }

-- Host "a" is idle, and "b" has many requests.
abbrev center : MetadataQueries
center = record {
  query_load = λ cluster. some (("a", busy 0) ∷ ("b", busy 40) ∷ []);
  query_kv_cache = λ cluster hashes top_k. some [];
  is_enabled = true;
  is_cache_enabled = true;
}

abbrev pub first_of : ℕ → ℕ
first_of n = 0

pub first_of-IsIntn : IsIntn first_of
first_of-IsIntn n h = h

abbrev stat_a : EndpointStatsWrapper small_doubles
stat_a = wrap small_doubles (("a", busy 0) ∷ []) (host "a")

abbrev stat_b : EndpointStatsWrapper small_doubles
stat_b = wrap small_doubles (("b", busy 40) ∷ []) (host "b")

choose_host_run : choose_host small_doubles by_insertion center first_of [] hosts ≡ some (host "a")
unfolding choose_host is_load_aware_enabled candidate_num_from_context get_value_from_ctx
    choose_from_candidates get_candidate_by_stats ranked_stats get_endpoint_stats insertion_sort
    merge_stats_and_score score_stat weights is_cache_aware_enabled get_cache_stats range_loop
choose_host_run = refl

choose_host-Member_example :
    Member (host "a") hosts
    × ((k v : String) → Member (k, v) (selector_of []) → lookup_or_empty k (host "a").labels ≡ v)
choose_host-Member_example =
    choose_host-Member small_doubles by_insertion center first_of [] hosts (host "a")
      choose_host_run

pub default_weights : IsWeighted small_doubles []
unfolding get_value_from_ctx
default_weights = record { cache = omega arith; request = omega arith; prefill = omega arith }

-- The idle host is ranked first.
abbrev scored : EndpointStatsWrapper small_doubles → EndpointStatsWrapper small_doubles
scored = score_stat small_doubles (weights small_doubles [] (stat_a ∷ stat_b ∷ [])) []

abbrev ranking : List (EndpointStatsWrapper small_doubles)
ranking = scored stat_a ∷ scored stat_b ∷ []

ranked : ranked_stats small_doubles by_insertion center [] "c" hosts ≡ some ranking
unfolding ranked_stats get_value_from_ctx get_endpoint_stats insertion_sort merge_stats_and_score
    score_stat weights is_cache_aware_enabled get_cache_stats range_loop
ranked = refl

ranked_stats_best_example :
    (ltb (scored stat_a).score (scored stat_b).score ≡ false)
    × Member (scored stat_a).host hosts
    × Member (scored stat_b).host hosts
ranked_stats_best_example =
    ranked_stats_best small_doubles by_insertion center [] "c" hosts ranking 1 (scored stat_a)
      (scored stat_b) ranked (inl refl) (inl refl)
