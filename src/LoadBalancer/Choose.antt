-- ===== src/LoadBalancer/Choose.antt =====
-- `GetCandidateByStats` and `ChooseHost` of inference_lb.go, and manager.go's `ChooseServer`.
use istio_llm_filter.Common.{
  ℕ, String, Bool, Option, none, some, List, [], ◌∷◌, map, Dict, ◌⊎◌, inl, inr, length, take,
  if◌then◌else◌, lookup,
}
use istio_llm_filter.Common.Sort.{Sorting}
use istio_llm_filter.Types.{
  Host, MetadataQueries, Ctx, with_value, CtxValue, get_value_from_ctx, as_text, as_labels,
  key_cluster_name, key_lb_selector,
}
use istio_llm_filter.Types.Float.{Float64}
use istio_llm_filter.LoadBalancer.{
  filter_hosts_by_selector, candidate_num_from_context, choose_from_candidates,
  is_load_aware_enabled, is_cache_aware_enabled,
}
use istio_llm_filter.LoadBalancer.Score.{
  EndpointStatsWrapper, get_endpoint_stats, get_cache_stats, merge_stats_and_score,
}

pub data Error : Type 0 where
  no_available_hosts : String → Error
  no_load_balancer : String → Error
  no_host_chosen : String → Error

-- `compareByScore`: the higher score first.
abbrev pub higher_score : (D : Float64) → EndpointStatsWrapper D → EndpointStatsWrapper D → Bool
higher_score D a b = D.less b.score a.score

-- The hosts that fit the selector of the context, if it holds one.
abbrev pub candidate_hosts : Ctx → List Host → List Host
candidate_hosts ctx hosts = elim (get_value_from_ctx as_labels ctx key_lb_selector []) [
  | [] ↦ hosts
  | kv ∷ selector ↦ filter_hosts_by_selector hosts (kv ∷ selector)
]

module _ (D : Float64) (S : Sorting) (mc : MetadataQueries) where
  -- The sorted statistics of `GetCandidateByStats`; `none` where the load query fails.
  unfoldable pub ranked_stats : Ctx → String → List Host → Option (List (EndpointStatsWrapper D))
  ranked_stats ctx cluster hosts = elim (get_endpoint_stats D mc cluster hosts) [
    | none ↦ none
    | some stats ↦
        let cache_stats = if is_cache_aware_enabled mc ctx then get_cache_stats D mc ctx else [] in
        some (S.sort (higher_score D) (merge_stats_and_score D ctx stats cache_stats))
  ]

  -- `GetCandidateByStats`: all hosts where the load is not known.
  unfoldable pub get_candidate_by_stats : Ctx → String → List Host → ℕ → List Host
  get_candidate_by_stats ctx cluster hosts cand_num = elim (ranked_stats ctx cluster hosts) [
    | none ↦ hosts
    | some stats ↦ map (λ s. s.host) (take cand_num stats)
  ]

module _ (D : Float64) (S : Sorting) (mc : MetadataQueries) (intn : ℕ → ℕ) where
  -- `ChooseHost`
  unfoldable pub choose_host : Ctx → List Host → Option Host
  choose_host ctx hosts =
      let candidates = candidate_hosts ctx hosts in
      let cluster_name = get_value_from_ctx as_text ctx key_cluster_name "" in
      let cand_num = candidate_num_from_context ctx (length candidates) in
      if is_load_aware_enabled mc ctx
      then choose_from_candidates intn
          (get_candidate_by_stats D S mc ctx cluster_name candidates cand_num)
      else choose_from_candidates intn candidates

  -- `CreateLbByType` over the registered types, of which `init` registers "inference_lb" alone: an
  -- unknown type falls back to it.
  unfoldable pub create_lb_by_type :
      Dict (Ctx → List Host → Option Host) → String → Option (Ctx → List Host → Option Host)
  create_lb_by_type factories lb_type = elim (lookup lb_type factories) [
    | some factory ↦ some factory
    | none ↦ lookup "inference_lb" factories
  ]

  abbrev pub lb_factories : Dict (Ctx → List Host → Option Host)
  lb_factories = ("inference_lb", choose_host) ∷ []

  -- `ChooseServer`
  unfoldable pub choose_server : Ctx → String → String → List Host → Error ⊎ Host
  choose_server ctx cluster lb_type [] = inl (no_available_hosts cluster)
  choose_server ctx cluster lb_type (h ∷ hosts) =
      let ctx' = with_value ctx key_cluster_name (CtxValue.text cluster) in
      elim (create_lb_by_type lb_factories lb_type) [
        | none ↦ inl (no_load_balancer lb_type)
        | some lb ↦ elim (lb ctx' (h ∷ hosts)) [
          | none ↦ inl (no_host_chosen cluster)
          | some host ↦ inr host
        ]
      ]
