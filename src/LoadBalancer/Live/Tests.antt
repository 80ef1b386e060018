-- ===== src/LoadBalancer/Live/Tests.antt =====
-- A metadata center that is down, one that knows two hosts, and the theorems at them.
use istio_llm_filter.Common.{
  ℕ, ◌*◌, ◌≡◌, refl, sym, subst, inl, inr, String, false, some, none, List, [], ◌∷◌, ok, arith,
  length, ltb,
}
use istio_llm_filter.Common.Int.{pos}
use istio_llm_filter.Common.Sort.{Member, by_insertion, insertion_sort}
use istio_llm_filter.Types.{Host, Ctx, CtxValue, key_prompt_hash, get_value_from_ctx}
use istio_llm_filter.Metadata.Environment.{Env}
use istio_llm_filter.Metadata.Client.{
  Client, Transport, EngineStats, LocationResponse, started, do_request, outcome, load_param,
  load_loop, query_load,
}
use istio_llm_filter.Metadata.Client.Answers.{inr_inj}
use istio_llm_filter.LoadBalancer.{is_cache_aware_enabled}
use istio_llm_filter.LoadBalancer.Score.{
  EndpointStatsWrapper, wrap, score_stat, weights, get_endpoint_stats, merge_stats_and_score,
  get_cache_stats, range_loop,
}
use istio_llm_filter.LoadBalancer.Choose.{ranked_stats}
use istio_llm_filter.LoadBalancer.Tests.{
  small_doubles, host, hosts, first_of, first_of-IsIntn, default_weights, busy,
}
use istio_llm_filter.LoadBalancer.Live.{live_queries, live_choose_server}
use istio_llm_filter.LoadBalancer.Live.Total.{HasNoNull, live_choose_server_total}
use istio_llm_filter.LoadBalancer.Live.Ties.{live_ranking_ties}

abbrev set : Env
set key = "1"

abbrev client : Client
client = started (λ s. none) set 1

abbrev engine : String → ℕ → EngineStats
engine ip n = record {
  ip = ip;
  queued_req_num = pos n;
  prompt_length = pos (100 * n);
  updated_time = pos 0;
}

abbrev engines : List EngineStats
engines = engine "a" 7 ∷ engine "b" 7 ∷ []

abbrev location : LocationResponse
location = record { ip = "b"; length = pos 2 }

abbrev transport : ℕ → Transport
transport status = record {
  new_request = λ r. none;
  exchange = λ r. inr (record { status_code = status; body = inr (1 ∷ []) });
  unmarshal_load = λ bytes. inr engines;
  unmarshal_locations = λ bytes. inr (some location ∷ []);
}

no_null : HasNoNull (transport 200)
no_null body items e m = elim (subst (Member none) (sym (inr_inj e)) m) [
  | inl k ↦ absurd (cc k)
  | inr n ↦ n
]

-- A request with a hash, so that the cache is asked.
abbrev hashed : Ctx
hashed = (key_prompt_hash, CtxValue.hashes (5 ∷ [])) ∷ []

live_choose_server_total_example :
    (h : Host) × (live_choose_server small_doubles by_insertion
        (transport 200)
        client
        set
        first_of
        hashed
        "c"
        "inference_lb"
        hosts
      ≡ ok (inr h))
    × Member h hosts
live_choose_server_total_example =
    live_choose_server_total (transport 200) client set small_doubles by_insertion first_of hashed
      "c" "inference_lb" hosts no_null first_of-IsIntn refl (omega arith)

-- Two hosts with the same load.
abbrev stat : ℕ → String → EndpointStatsWrapper small_doubles
stat n ip = wrap small_doubles ((ip, busy n) ∷ []) (host ip)

abbrev scored : ℕ → String → EndpointStatsWrapper small_doubles
scored n ip =
    score_stat small_doubles (weights small_doubles [] (stat 7 "a" ∷ stat 7 "b" ∷ [])) []
      (stat n ip)

abbrev ranking : List (EndpointStatsWrapper small_doubles)
ranking = scored 7 "a" ∷ scored 7 "b" ∷ []

answered :
    do_request (transport 200) client (load_param (transport 200) client set [] "c") ≡ inr (1 ∷ [])
unfolding do_request outcome
answered = refl

ranked :
    ranked_stats small_doubles by_insertion
      (live_queries (transport 200) client set [])
      []
      "c"
      hosts
    ≡ some ranking
unfolding ranked_stats get_value_from_ctx get_endpoint_stats insertion_sort merge_stats_and_score
    score_stat weights is_cache_aware_enabled get_cache_stats range_loop query_load do_request
    outcome load_loop
ranked = refl

live_ranking_ties_example :
    (ltb (scored 7 "a").score (scored 7 "b").score ≡ false)
    × (ltb (scored 7 "b").score (scored 7 "a").score ≡ false)
unfolding score_stat
live_ranking_ties_example =
    live_ranking_ties small_doubles by_insertion (transport 200) client set [] "c" hosts ranking
      (1 ∷ []) engines 1 (scored 7 "a") (scored 7 "b") refl answered refl ranked (inl refl)
      (inl refl) default_weights (omega arith) (omega arith) (omega arith)
