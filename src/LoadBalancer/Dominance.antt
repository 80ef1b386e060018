-- ===== src/LoadBalancer/Dominance.antt =====
-- The score of inference_lb.go orders the endpoints the right way.
use istio_llm_filter.Common.{◌≡◌, List, [], ◌∷◌, Dict, lookup, none, some, false, arith}
use istio_llm_filter.Common.Int.{pos, ◌≤ℤ◌}
use istio_llm_filter.Types.{
  Ctx, get_value_from_ctx, as_int, key_cache_ratio_weight, key_load_request_weight,
  key_load_prefill_weight, default_cache_ratio_weight, default_request_load_weight,
  default_prefill_load_weight,
}
use istio_llm_filter.Types.Float.{Float64}
use istio_llm_filter.LoadBalancer.Score.{
  EndpointStatsWrapper, EndpointCacheStats, Weights, score_stat, weights, range_loop, start_range,
  LoadRange,
}

module _ (D : Float64) where
  open D use {of_int, Le, F}

  -- The rate that the loop reads for an endpoint: 0 where the cache has no location of it.
  abbrev pub hit_rate : Dict (EndpointCacheStats D) → EndpointStatsWrapper D → F
  hit_rate cache stat = elim (lookup stat.host.ip cache) [
    | none ↦ of_int (pos 0)
    | some c ↦ c.cache_hit_score
  ]

  -- The configured weights are not negative.
  pub record IsWeighted (ctx : Ctx) : Type 0 where
    pub cache :
        pos 0 ≤ℤ get_value_from_ctx as_int ctx key_cache_ratio_weight default_cache_ratio_weight
    pub request :
        pos 0 ≤ℤ get_value_from_ctx as_int ctx key_load_request_weight default_request_load_weight
    pub prefill :
        pos 0 ≤ℤ get_value_from_ctx as_int ctx key_load_prefill_weight default_prefill_load_weight

  -- What the scoring loop relies on.
  record IsSound (w : Weights D) : Type 0 where
    cache_pos : Le (of_int (pos 0)) w.cache_hit_weight
    request_pos : Le (of_int (pos 0)) w.request_load_weight
    prefill_pos : Le (of_int (pos 0)) w.prefill_weight
    delta_pos : Le (of_int (pos 1)) w.delta
    prompt_pos : pos 1 ≤ℤ w.max_prompt_length

  range_loop_grows :
      (stats : List (EndpointStatsWrapper D)) (range : LoadRange D)
      → pos 1 ≤ℤ range.max_prompt_length
      → pos 1 ≤ℤ (range_loop D stats range).max_prompt_length
  unfolding range_loop
  range_loop_grows [] range h = h
  range_loop_grows (stat ∷ stats) range h = range_loop_grows stats _ (ground arith)

  weights-IsSound :
      (ctx : Ctx) (stats : List (EndpointStatsWrapper D))
      → IsWeighted ctx
      → IsSound (weights D ctx stats)
  unfolding weights
  weights-IsSound ctx stats v =
      let delta0 = D.le-fmax _ _ _ (D.of_int_mono (pos 0) (pos 2) (omega arith)) in
      record {
        cache_pos = D.of_int_mono _ _ v.cache;
        request_pos = D.mul_nonneg _ _ (D.of_int_mono _ _ v.request) (
            D.ceil_nonneg _
              (D.div_nonneg _ _ delta0 (D.of_int_mono (pos 1) (pos 5) (omega arith))));
        prefill_pos = D.of_int_mono _ _ v.prefill;
        delta_pos = D.le-fmax _ _ _ (D.of_int_mono (pos 1) (pos 2) (omega arith));
        prompt_pos = range_loop_grows stats (start_range D) (omega arith);
      }

  score_stat_mono :
      (w : Weights D) (cache : Dict (EndpointCacheStats D)) (a b : EndpointStatsWrapper D)
      → IsSound w
      → Le (hit_rate cache b) (hit_rate cache a)
      → a.endpoint_stats.total_reqs ≤ℤ b.endpoint_stats.total_reqs
      → a.endpoint_stats.prompt_length ≤ℤ b.endpoint_stats.prompt_length
      → Le (score_stat D w cache b).score (score_stat D w cache a).score
  unfolding score_stat
  score_stat_mono w cache a b v hit reqs len =
      D.sub_mono _ _ _ _
        (D.sub_mono _ _ _ _ (D.mul_mono _ _ _ v.cache_pos hit) (
          D.mul_mono _ _ _ v.request_pos (
            D.div_mono _ _ _ v.delta_pos
              (D.sub_mono _ _ _ _ (D.of_int_mono _ _ reqs) (D.le_refl _)))))
        (D.mul_mono _ _ _ v.prefill_pos
          (D.div_mono _ _ _ (D.of_int_mono _ _ v.prompt_pos) (D.of_int_mono _ _ len)))

  -- With configured weights that are not negative, an endpoint whose cache hit rate is at least
  -- another's, and whose running requests and prompt length are at most the other's, is never
  -- ranked by score behind it, whatever the loads of the other endpoints do to the weights.
  pub score_stat_dominates :
      (ctx : Ctx) (stats : List (EndpointStatsWrapper D)) (cache : Dict (EndpointCacheStats D))
      (a b : EndpointStatsWrapper D)
      → IsWeighted ctx
      → Le (hit_rate cache b) (hit_rate cache a)
      → a.endpoint_stats.total_reqs ≤ℤ b.endpoint_stats.total_reqs
      → a.endpoint_stats.prompt_length ≤ℤ b.endpoint_stats.prompt_length
      → D.less
          (score_stat D (weights D ctx stats) cache a).score
          (score_stat D (weights D ctx stats) cache b).score
        ≡ false
  score_stat_dominates ctx stats cache a b v hit reqs len =
      D.not_less_of_le _ _
        (score_stat_mono (weights D ctx stats) cache a b (weights-IsSound ctx stats v) hit reqs len)
