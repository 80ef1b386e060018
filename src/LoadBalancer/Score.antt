-- ===== src/LoadBalancer/Score.antt =====
-- Scoring of inference_lb.go: `getEndpointStats`, `getCacheStats` and `mergeStatsAndScore`.
use istio_llm_filter.Common.{
  ℕ, String, Option, none, some, List, [], ◌∷◌, map, Dict, lookup, insert, length, str_eq,
  if◌then◌else◌, ◌||◌, ◌==◌,
}
use istio_llm_filter.Common.Int.{ℤ, pos, ltb_ℤ}
use istio_llm_filter.Types.{
  Host, EndpointStats, KvCacheLocation, MetadataQueries, Ctx, get_value_from_ctx, as_int, as_text,
  as_hashes, key_cluster_name, key_prompt_hash, key_cache_ratio_weight, key_load_request_weight,
  key_load_prefill_weight, default_cache_ratio_weight, default_request_load_weight,
  default_prefill_load_weight,
}
use istio_llm_filter.Types.Float.{Float64}

abbrev pub default_top_k : ℕ
default_top_k = 10

module _ (D : Float64) where
  open D use {F, of_int, max_float64, sub, mul, div, fmax, fmin, ceil, eqb}

  pub record EndpointCacheStats : Type 0 where
    pub node_ip : String
    pub cache_hit_score : F
    pub cache_hit_length : ℤ

  -- `EndpointStatsWrapper`. `getEndpointStats` never leaves `EndpointStats` nil.
  pub record EndpointStatsWrapper : Type 0 where
    pub host : Host
    pub endpoint_stats : EndpointStats
    pub cache_stats : Option EndpointCacheStats
    pub request_load : F
    pub prefill_load : F
    pub cache_hit_rate : F
    pub score : F

  abbrev no_stats : EndpointStats
  no_stats = record { prefill_reqs = pos 0; total_reqs = pos 0; prompt_length = pos 0 }

  abbrev pub wrap : Dict EndpointStats → Host → EndpointStatsWrapper
  wrap ep_stats host = record {
    host = host;
    endpoint_stats = elim (lookup host.ip ep_stats) [ none ↦ no_stats | some stat ↦ stat ];
    cache_stats = none;
    request_load = of_int (pos 0);
    prefill_load = of_int (pos 0);
    cache_hit_rate = of_int (pos 0);
    score = of_int (pos 0);
  }

  -- `getEndpointStats`; `none` is the error of the query.
  unfoldable pub get_endpoint_stats :
      MetadataQueries → String → List Host → Option (List EndpointStatsWrapper)
  get_endpoint_stats mc cluster hosts = elim (mc.query_load cluster) [
    | none ↦ none
    | some ep_stats ↦ some (map (wrap ep_stats) hosts)
  ]

  -- The loop of `getCacheStats`; a later location of an address replaces an earlier one.
  unfoldable pub cache_stats_loop :
      ℕ → List KvCacheLocation → Dict EndpointCacheStats → Dict EndpointCacheStats
  cache_stats_loop hashes [] stats = stats
  cache_stats_loop hashes (r ∷ rs) stats = cache_stats_loop hashes rs (
      insert r.ip
        (record {
          node_ip = r.ip;
          cache_hit_score = div (of_int r.length) (of_int (pos hashes));
          cache_hit_length = r.length;
        })
        stats)

  -- `getCacheStats`; an error gives the nil map, which reads as an empty one.
  unfoldable pub get_cache_stats : MetadataQueries → Ctx → Dict EndpointCacheStats
  get_cache_stats mc ctx =
      let prompt_hash = get_value_from_ctx as_hashes ctx key_prompt_hash [] in
      let cluster_name = get_value_from_ctx as_text ctx key_cluster_name "" in
      if length prompt_hash == 0 || str_eq cluster_name ""
      then []
      else elim (mc.query_kv_cache cluster_name prompt_hash default_top_k) [
        | none ↦ []
        | some result ↦ cache_stats_loop (length prompt_hash) result []
      ]

  -- The range of the loads: `maxQueueSize`, `minQueueSize` and `maxPromptLength`.
  pub record LoadRange : Type 0 where
    pub max_queue_size : F
    pub min_queue_size : F
    pub max_prompt_length : ℤ

  unfoldable pub range_loop : List EndpointStatsWrapper → LoadRange → LoadRange
  range_loop [] range = range
  range_loop (stat ∷ stats) range =
      let size = of_int stat.endpoint_stats.total_reqs in
      let len = stat.endpoint_stats.prompt_length in
      range_loop stats (record {
        max_queue_size = fmax range.max_queue_size size;
        min_queue_size = fmin range.min_queue_size size;
        max_prompt_length =
            if ltb_ℤ range.max_prompt_length len then len else range.max_prompt_length;
      })

  abbrev pub start_range : LoadRange
  start_range = record {
    max_queue_size = of_int (pos 0);
    min_queue_size = max_float64;
    max_prompt_length = pos 1024;
  }

  -- What the scoring loop reads: the weights, the smallest queue, `delta` and the longest prompt.
  pub record Weights : Type 0 where
    pub cache_hit_weight : F
    pub prefill_weight : F
    pub request_load_weight : F
    pub min_queue_size : F
    pub delta : F
    pub max_prompt_length : ℤ

  unfoldable pub weights : Ctx → List EndpointStatsWrapper → Weights
  weights ctx load_stats =
      let range = range_loop load_stats start_range in
      let min_size =
        if eqb range.min_queue_size max_float64 then of_int (pos 0) else range.min_queue_size in
      let config_request_weight =
        of_int
          (get_value_from_ctx as_int ctx key_load_request_weight default_request_load_weight) in
      let delta = fmax (of_int (pos 2)) (sub range.max_queue_size min_size) in
      record {
        cache_hit_weight =
            of_int
              (get_value_from_ctx as_int ctx key_cache_ratio_weight default_cache_ratio_weight);
        prefill_weight =
            of_int
              (get_value_from_ctx as_int ctx key_load_prefill_weight default_prefill_load_weight);
        request_load_weight = mul config_request_weight (ceil (div delta (of_int (pos 5))));
        min_queue_size = min_size;
        delta = delta;
        max_prompt_length = range.max_prompt_length;
      }

  -- The body of the scoring loop.
  unfoldable pub score_stat :
      Weights → Dict EndpointCacheStats → EndpointStatsWrapper → EndpointStatsWrapper
  score_stat w cache_stats stat =
      let hit = lookup stat.host.ip cache_stats in
      let rate : F = elim hit [ none ↦ of_int (pos 0) | some c ↦ c.cache_hit_score ] in
      let request = div (sub (of_int stat.endpoint_stats.total_reqs) w.min_queue_size) w.delta in
      let prefill = div (of_int stat.endpoint_stats.prompt_length) (of_int w.max_prompt_length) in
      record stat {
        cache_stats = elim hit [ none ↦ stat.cache_stats | some c ↦ some c ];
        cache_hit_rate = rate;
        request_load = request;
        prefill_load = prefill;
        score =
            sub (sub (mul w.cache_hit_weight rate) (mul w.request_load_weight request))
              (mul w.prefill_weight prefill);
      }

  -- `mergeStatsAndScore`
  unfoldable pub merge_stats_and_score :
      Ctx → List EndpointStatsWrapper → Dict EndpointCacheStats → List EndpointStatsWrapper
  merge_stats_and_score ctx load_stats cache_stats =
      map (score_stat (weights ctx load_stats) cache_stats) load_stats
