-- ===== src/LoadBalancer/Ranking.antt =====
-- `GetCandidateByStats` of inference_lb.go: the ranking by score and its first hosts.
use istio_llm_filter.Common.{
  ℕ, ◌<◌, ◌≡◌, refl, sym, ap, ◌∙◌, subst, inl, inr, String, false, none, some, List, [], map, Dict,
  length, take, drop, if◌then◌else◌, arith, Option-cases, length-take, length-map,
}
use istio_llm_filter.Common.Sort.{Member, Member-perm, IsSorted, IsStrictWeak, Sorting, length-perm}
use istio_llm_filter.Common.Members.{Member-take, Member-drop, sorted_split, Member-map}
use istio_llm_filter.Types.{Host, EndpointStats, MetadataQueries, Ctx}
use istio_llm_filter.Types.Float.{Float64}
use istio_llm_filter.LoadBalancer.{is_cache_aware_enabled}
use istio_llm_filter.LoadBalancer.Score.{
  EndpointStatsWrapper, EndpointCacheStats, wrap, get_endpoint_stats, get_cache_stats, score_stat,
  weights, Weights, merge_stats_and_score,
}
use istio_llm_filter.LoadBalancer.Choose.{higher_score, ranked_stats, get_candidate_by_stats}

module _ (D : Float64) (S : Sorting) (mc : MetadataQueries) where
  ranked_stats_inv :
      (ctx : Ctx) (cluster : String) (hosts : List Host) (stats : List (EndpointStatsWrapper D))
      → ranked_stats D S mc ctx cluster hosts ≡ some stats
      → (ep : Dict EndpointStats) × (cache : Dict (EndpointCacheStats D)) × (stats
          ≡ S.sort (higher_score D) (merge_stats_and_score D ctx (map (wrap D ep) hosts) cache))
  unfolding ranked_stats get_endpoint_stats
  ranked_stats_inv ctx cluster hosts stats e = elim (Option-cases (mc.query_load cluster)) [
    | inl failed ↦ absurd (ground arith)
    | inr (ep, found) ↦
        (ep, if is_cache_aware_enabled mc ctx then get_cache_stats D mc ctx else [], ground arith)
  ]

  scored_host :
      (w : Weights D) (cache : Dict (EndpointCacheStats D)) (t : EndpointStatsWrapper D)
      → (score_stat D w cache t).host ≡ t.host
  unfolding score_stat
  scored_host w cache t = refl

  merged-Member :
      (ctx : Ctx) (ep : Dict EndpointStats) (hosts : List Host)
      (cache : Dict (EndpointCacheStats D)) (s : EndpointStatsWrapper D)
      → Member s (merge_stats_and_score D ctx (map (wrap D ep) hosts) cache)
      → Member s.host hosts
  unfolding merge_stats_and_score
  merged-Member ctx ep hosts cache s m =
      let (t, n, e) =
        Member-map (score_stat D (weights D ctx (map (wrap D ep) hosts)) cache)
          (map (wrap D ep) hosts) s m in
      let (h, k, f) = Member-map (wrap D ep) hosts t n in
      let same : h ≡ s.host = sym (
        ap (λ (x : EndpointStatsWrapper D). x.host) e
        ∙ scored_host (weights D ctx (map (wrap D ep) hosts)) cache t
        ∙ ap (λ (x : EndpointStatsWrapper D). x.host) f) in
      subst (λ x. Member x hosts) same k

  ranked_stats-Member :
      (ctx : Ctx) (cluster : String) (hosts : List Host) (stats : List (EndpointStatsWrapper D))
      (s : EndpointStatsWrapper D)
      → ranked_stats D S mc ctx cluster hosts ≡ some stats
      → Member s stats
      → Member s.host hosts
  ranked_stats-Member ctx cluster hosts stats s e m =
      let (ep, cache, sorted) = ranked_stats_inv ctx cluster hosts stats e in
      merged-Member ctx ep hosts cache s
        (Member-perm s (S.sort-perm (higher_score D) _) (subst (Member s) sorted m))

  pub candidates_unknown :
      (ctx : Ctx) (cluster : String) (hosts : List Host) (n : ℕ)
      → ranked_stats D S mc ctx cluster hosts ≡ none
      → get_candidate_by_stats D S mc ctx cluster hosts n ≡ hosts
  unfolding get_candidate_by_stats
  candidates_unknown ctx cluster hosts n e = ground arith

  candidates_ranked :
      (ctx : Ctx) (cluster : String) (hosts : List Host) (n : ℕ)
      {stats : List (EndpointStatsWrapper D)}
      → ranked_stats D S mc ctx cluster hosts ≡ some stats
      → get_candidate_by_stats D S mc ctx cluster hosts n ≡ map (λ s. s.host) (take n stats)
  unfolding get_candidate_by_stats
  candidates_ranked ctx cluster hosts n e = ground arith

  length-merged :
      (ctx : Ctx) (ep : Dict EndpointStats) (hosts : List Host)
      (cache : Dict (EndpointCacheStats D))
      → length (merge_stats_and_score D ctx (map (wrap D ep) hosts) cache) ≡ length hosts
  unfolding merge_stats_and_score
  length-merged ctx ep hosts cache =
      length-map (map (wrap D ep) hosts)
        (score_stat D (weights D ctx (map (wrap D ep) hosts)) cache)
      ∙ length-map hosts (wrap D ep)

  length-ranked_stats :
      (ctx : Ctx) (cluster : String) (hosts : List Host) (stats : List (EndpointStatsWrapper D))
      → ranked_stats D S mc ctx cluster hosts ≡ some stats
      → length stats ≡ length hosts
  length-ranked_stats ctx cluster hosts stats e =
      let (ep, cache, sorted) = ranked_stats_inv ctx cluster hosts stats e in
      ap (λ (l : List (EndpointStatsWrapper D)). length l) sorted
      ∙ length-perm (S.sort-perm (higher_score D) _)
      ∙ length-merged ctx ep hosts cache

  pub get_candidate_by_stats-Member :
      (ctx : Ctx) (cluster : String) (hosts : List Host) (n : ℕ) (h : Host)
      → Member h (get_candidate_by_stats D S mc ctx cluster hosts n)
      → Member h hosts
  get_candidate_by_stats-Member ctx cluster hosts n h m =
      elim (Option-cases (ranked_stats D S mc ctx cluster hosts)) [
        | inl unknown ↦ rw (candidates_unknown ctx cluster hosts n unknown) at m
        | inr (stats, e) ↦
            let (s, k, eh) =
              Member-map (λ (x : EndpointStatsWrapper D). x.host) (take n stats) h
                (rw (candidates_ranked ctx cluster hosts n e) at m) in
            subst (λ x. Member x hosts) (sym eh)
              (ranked_stats-Member ctx cluster hosts stats s e (Member-take n stats s k))
      ]

  -- At least one candidate is left where there is a host and a place.
  pub get_candidate_by_stats_pos :
      (ctx : Ctx) (cluster : String) (hosts : List Host) (n : ℕ)
      → 0 < length hosts
      → 0 < n
      → 0 < length (get_candidate_by_stats D S mc ctx cluster hosts n)
  get_candidate_by_stats_pos ctx cluster hosts n h k =
      elim (Option-cases (ranked_stats D S mc ctx cluster hosts)) [
        | inl unknown ↦ rw (candidates_unknown ctx cluster hosts n unknown) h
        | inr (stats, e) ↦
            rw
              (
                candidates_ranked ctx cluster hosts n e,
                length-map (take n stats) (λ (x : EndpointStatsWrapper D). x.host),
              )
              (omega (arith, length-take n stats, length-ranked_stats ctx cluster hosts stats e))
      ]

  -- The candidates are the best: after the ranking, no endpoint that is left out scores higher than
  -- one that is among the first n, for every n, and the ranking holds hosts of the cluster alone.
  pub ranked_stats_best :
      (ctx : Ctx) (cluster : String) (hosts : List Host) (stats : List (EndpointStatsWrapper D))
      (n : ℕ) (chosen left_out : EndpointStatsWrapper D)
      → ranked_stats D S mc ctx cluster hosts ≡ some stats
      → Member chosen (take n stats)
      → Member left_out (drop n stats)
      → (D.less chosen.score left_out.score ≡ false)
        × Member chosen.host hosts
        × Member left_out.host hosts
  ranked_stats_best ctx cluster hosts stats n a b e ma mb =
      let (ep, cache, sorted) = ranked_stats_inv ctx cluster hosts stats e in
      let order =
        subst (IsSorted (higher_score D)) (sym sorted)
          (S.sort-IsSorted (higher_score D) _ (higher_score-IsStrictWeak)) in
      (
        sorted_split (higher_score D) n stats a b order ma mb,
        ranked_stats-Member ctx cluster hosts stats a e (Member-take n stats a ma),
        ranked_stats-Member ctx cluster hosts stats b e (Member-drop n stats b mb),
      )
    where
      higher_score-IsStrictWeak : IsStrictWeak (higher_score D)
      higher_score-IsStrictWeak = record {
        asymm = λ x y. D.less-IsStrictWeak.asymm y.score x.score;
        not_less_trans =
            λ x y z p q. D.less-IsStrictWeak.not_less_trans z.score y.score x.score q p;
      }
