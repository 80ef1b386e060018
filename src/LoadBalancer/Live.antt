-- ===== src/LoadBalancer/Live.antt =====
-- pkg/loadbalancer with the client of pkg/metadata behind it: `GetClientOrNoop` answers the queries of
-- `getEndpointStats` and `getCacheStats`, by way of the HTTP exchange.
pub mod Unreachable
pub mod Ties
pub mod Total
mod Tests
use istio_llm_filter.Common.{
  ℕ, String, Bool, true, false, not, ◌&&◌, ◌||◌, ◌⊎◌, inl, inr, Option, none, some, List, [], ◌∷◌,
  Dict, Result, ok, err, panic, length, str_eq, ◌==◌, if◌then◌else◌,
}
use istio_llm_filter.Common.Sort.{Sorting}
use istio_llm_filter.Types.{
  Host, EndpointStats, KvCacheLocation, MetadataQueries, Ctx, CtxValue, with_value,
  get_value_from_ctx, as_hashes, as_text, key_cluster_name, key_prompt_hash,
}
use istio_llm_filter.Types.Float.{Float64}
use istio_llm_filter.Types.Response.{Message}
use istio_llm_filter.Metadata.Environment.{Env}
use istio_llm_filter.Metadata.Client.{
  Client, Transport, query_load, query_kv_cache, noop_query_load, noop_query_kv_cache,
}
use istio_llm_filter.LoadBalancer.{is_load_aware_enabled, is_cache_aware_enabled}
use istio_llm_filter.LoadBalancer.Score.{default_top_k}
use istio_llm_filter.LoadBalancer.Choose.{Error, candidate_hosts, choose_server}

-- A result as the load balancer reads it, which only tells a value from an error.
abbrev pub value_of : {A : Type 0} → Message ⊎ A → Option A
value_of (inl e) = none
value_of (inr a) = some a

abbrev pub returned : {A : Type 0} → Result Message A → Option A
returned (ok a) = some a
returned (err e) = none
returned panic = none

abbrev pub is_some : {A : Type 0} → Option A → Bool
is_some none = false
is_some (some a) = true

abbrev pub is_panic : {A : Type 0} → Result Message A → Bool
is_panic (ok a) = false
is_panic (err e) = false
is_panic panic = true

-- `IsEnabled`, in the environment that it was first called in.
abbrev pub is_enabled_in : Env → Bool
is_enabled_in env = not (str_eq (env "METADATA_CENTER_HOST") "")

module _ (T : Transport) (c : Client) (env : Env) (ctx : Ctx) where
  -- `GetClientOrNoop().QueryLoad` and `GetClientOrNoop().QueryKVCache`
  abbrev pub live_query_load : String → Message ⊎ Dict EndpointStats
  live_query_load cluster =
      if is_enabled_in env then query_load T c env ctx cluster else noop_query_load ctx cluster

  abbrev pub live_query_kv_cache : String → List ℕ → ℕ → Result Message (List KvCacheLocation)
  live_query_kv_cache cluster hashes top_k =
      if is_enabled_in env
      then query_kv_cache T c env ctx cluster hashes top_k
      else noop_query_kv_cache ctx cluster hashes top_k

  -- The interface of the load balancer, as the client fills it where it does not panic.
  abbrev pub live_queries : MetadataQueries
  live_queries = record {
    query_load = λ cluster. value_of (live_query_load cluster);
    query_kv_cache = λ cluster hashes top_k. returned (live_query_kv_cache cluster hashes top_k);
    is_enabled = is_enabled_in env;
    is_cache_enabled = is_enabled_in env;
  }

  -- Whether `ChooseHost` comes to `QueryKVCache`: there is a candidate, the load is asked for and
  -- known, the cache is asked for, and the request has hashes and a cluster.
  unfoldable pub asks_cache : List Host → Bool
  asks_cache hosts =
      let cluster = get_value_from_ctx as_text ctx key_cluster_name "" in
      not (length (candidate_hosts ctx hosts) == 0)
      && is_load_aware_enabled live_queries ctx
      && is_some (live_queries.query_load cluster)
      && is_cache_aware_enabled live_queries ctx
      && not (length (get_value_from_ctx as_hashes ctx key_prompt_hash []) == 0)
      && not (str_eq cluster "")

  unfoldable pub cache_panics : List Host → Bool
  unfolding asks_cache
  cache_panics hosts =
      asks_cache hosts
      && is_panic (
          live_query_kv_cache (get_value_from_ctx as_text ctx key_cluster_name "")
            (get_value_from_ctx as_hashes ctx key_prompt_hash []) default_top_k)

-- `ChooseServer` with the client behind it, which panics where `QueryKVCache` does.
module _ (D : Float64) (S : Sorting) (T : Transport) (c : Client) (env : Env) (intn : ℕ → ℕ) where
  abbrev pub in_cluster : Ctx → String → Ctx
  in_cluster ctx cluster = with_value ctx key_cluster_name (CtxValue.text cluster)

  unfoldable pub live_choose_server :
      Ctx → String → String → List Host → Result Message (Error ⊎ Host)
  live_choose_server ctx cluster lb_type hosts =
      let ctx' = in_cluster ctx cluster in
      if cache_panics T c env ctx' hosts
      then panic
      else ok (choose_server D S (live_queries T c env ctx') intn ctx cluster lb_type hosts)
