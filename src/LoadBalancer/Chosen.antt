-- ===== src/LoadBalancer/Chosen.antt =====
-- Which hosts inference_lb.go and manager.go choose.
use istio_llm_filter.Common.{
  ℕ, ◌<◌, ◌≡◌, inl, inr, String, none, some, List, [], ◌∷◌, length, lookup, lookup_or_empty, arith,
  Bool-cases,
}
use istio_llm_filter.Common.Sort.{Member, Sorting}
use istio_llm_filter.Types.{
  Host, MetadataQueries, Ctx, CtxValue, with_value, get_value_from_ctx, key_lb_selector,
  key_cluster_name,
}
use istio_llm_filter.Types.Float.{Float64}
use istio_llm_filter.LoadBalancer.{is_load_aware_enabled}
use istio_llm_filter.LoadBalancer.Choose.{
  candidate_hosts, choose_host, create_lb_by_type, choose_server,
}
use istio_llm_filter.LoadBalancer.Hosts.{
  candidate_num_bounds, labels_match_lem, choose_from_candidates-Member,
  choose_from_candidates_total, candidate_hosts-Member, IsIntn, selector_of,
}
use istio_llm_filter.LoadBalancer.Ranking.{
  get_candidate_by_stats-Member, get_candidate_by_stats_pos,
}

pub candidate_hosts_all :
    (ctx : Ctx) (cluster : String) (hosts : List Host)
    → lookup key_lb_selector ctx ≡ none
    → candidate_hosts (with_value ctx key_cluster_name (CtxValue.text cluster)) hosts ≡ hosts
unfolding get_value_from_ctx
candidate_hosts_all ctx cluster hosts e = ground arith

module _ (D : Float64) (S : Sorting) (mc : MetadataQueries) (intn : ℕ → ℕ) where
  -- A host that `ChooseHost` returns is one of the cluster's, and has every label that the selector
  -- of the context asks for (a missing label counts as the empty text), load-aware or not.
  pub choose_host-Member :
      (ctx : Ctx) (hosts : List Host) (h : Host)
      → choose_host D S mc intn ctx hosts ≡ some h
      → Member h hosts
        × ((k v : String) → Member (k, v) (selector_of ctx) → lookup_or_empty k h.labels ≡ v)
  unfolding choose_host
  choose_host-Member ctx hosts h e =
      let fit = candidate_hosts ctx hosts in
      let cand : Member h fit = elim (Bool-cases (is_load_aware_enabled mc ctx)) [
        | inl aware ↦
            get_candidate_by_stats-Member D S mc ctx _ fit _ h
              (choose_from_candidates-Member intn _ h (rw aware at e))
        | inr blind ↦ choose_from_candidates-Member intn fit h (rw blind at e)
      ] in
      let (n, l) = candidate_hosts-Member ctx hosts h cand in
      (n, λ k v m. labels_match_lem h.labels (selector_of ctx) k v l m)

  -- One host that fits the selector is enough.
  pub choose_host_total :
      (ctx : Ctx) (hosts : List Host)
      → IsIntn intn
      → 0 < length (candidate_hosts ctx hosts)
      → (h : Host) × (choose_host D S mc intn ctx hosts ≡ some h)
  unfolding choose_host
  choose_host_total ctx hosts r h =
      let fit = candidate_hosts ctx hosts in
      elim (Bool-cases (is_load_aware_enabled mc ctx)) [
        | inl aware ↦ rw aware (
            choose_from_candidates_total intn _ r (
              get_candidate_by_stats_pos D S mc ctx _ fit _ h
                (omega (arith, candidate_num_bounds ctx (length fit) h))))
        | inr blind ↦ rw blind (choose_from_candidates_total intn fit r h)
      ]

  -- For one host or more, of whatever balancer type, `ChooseServer` returns a host of the cluster
  -- and no error, whether or not the metadata center answers, as long as the context holds no
  -- label selector and `rand.Intn` stays below its bound.
  pub choose_server_total :
      (ctx : Ctx) (cluster lb_type : String) (hosts : List Host)
      → IsIntn intn
      → lookup key_lb_selector ctx ≡ none
      → 0 < length hosts
      → (h : Host) × (choose_server D S mc intn ctx cluster lb_type hosts ≡ inr h) × Member h hosts
  unfolding choose_server create_lb_by_type
  choose_server_total ctx cluster lb_type [] r e h = absurd (omega arith)
  choose_server_total ctx cluster lb_type (g ∷ hosts) r e h =
      let ctx' = with_value ctx key_cluster_name (CtxValue.text cluster) in
      let (x, chosen) =
        choose_host_total ctx' (g ∷ hosts) r
          (rw (candidate_hosts_all ctx cluster (g ∷ hosts) e) h) in
      (x, ground arith, (choose_host-Member ctx' (g ∷ hosts) x chosen).0)
