-- ===== src/LoadBalancer/Live/Ties.antt =====
-- From the metadata center's response to the ranking of inference_lb.go.
use istio_llm_filter.Common.{
  ℕ, ◌≡◌, refl, sym, ap, ◌∙◌, subst, inr, String, true, false, none, some, Option, List, [], Dict,
  map, take, drop, arith, if◌then◌else◌,
}
use istio_llm_filter.Common.Sort.{Sorting, Member, Member-perm}
use istio_llm_filter.Common.Members.{Member-take, Member-drop, Member-map}
use istio_llm_filter.Common.Int.{pos, ◌≤ℤ◌}
use istio_llm_filter.Types.{Host, EndpointStats, MetadataQueries, Ctx}
use istio_llm_filter.Types.Float.{Float64}
use istio_llm_filter.Metadata.Environment.{Env}
use istio_llm_filter.Metadata.Client.{
  Client, Transport, EngineStats, do_request, load_param, query_load, load_loop,
}
use istio_llm_filter.Metadata.Client.Answers.{last_engine, lookup-load_loop_nil}
use istio_llm_filter.LoadBalancer.{is_cache_aware_enabled}
use istio_llm_filter.LoadBalancer.Score.{
  EndpointStatsWrapper, EndpointCacheStats, wrap, score_stat, weights, merge_stats_and_score,
  get_endpoint_stats, get_cache_stats,
}
use istio_llm_filter.LoadBalancer.Choose.{higher_score, ranked_stats}
use istio_llm_filter.LoadBalancer.Ranking.{ranked_stats_best}
use istio_llm_filter.LoadBalancer.Dominance.{IsWeighted, score_stat_dominates}
use istio_llm_filter.LoadBalancer.Live.{live_queries, is_enabled_in}

-- What a response says of an address: its last engine there, or no load.
abbrev or_no_load : Option EndpointStats → EndpointStats
or_no_load none = record { prefill_reqs = pos 0; total_reqs = pos 0; prompt_length = pos 0 }
or_no_load (some stats) = stats

abbrev pub reported : List EngineStats → String → EndpointStats
reported engines ip = or_no_load (last_engine ip engines)

module _ (D : Float64) (S : Sorting) (mc : MetadataQueries) where
  -- Each entry of the ranking is the score of a host of the cluster, over one load and one cache.
  record IsScored (ctx : Ctx) (ep : Dict EndpointStats) (cache : Dict (EndpointCacheStats D))
      (hosts : List Host) (s : EndpointStatsWrapper D) : Type 0 where
    host : Host
    same : s ≡ score_stat D (weights D ctx (map (wrap D ep) hosts)) cache (wrap D ep host)

  scored :
      (ctx : Ctx) (ep : Dict EndpointStats) (cache : Dict (EndpointCacheStats D))
      (hosts : List Host) (s : EndpointStatsWrapper D)
      → Member s (merge_stats_and_score D ctx (map (wrap D ep) hosts) cache)
      → IsScored ctx ep cache hosts s
  unfolding merge_stats_and_score
  scored ctx ep cache hosts s m =
      let w = weights D ctx (map (wrap D ep) hosts) in
      let (t, n, e) = Member-map (score_stat D w cache) (map (wrap D ep) hosts) s m in
      let (h, k, f) = Member-map (wrap D ep) hosts t n in
      record { host = h; same = e ∙ ap (score_stat D w cache) f }

  ranked_scored :
      (ctx : Ctx) (cluster : String) (hosts : List Host) (stats : List (EndpointStatsWrapper D))
      (ep : Dict EndpointStats)
      → mc.query_load cluster ≡ some ep
      → ranked_stats D S mc ctx cluster hosts ≡ some stats
      → (cache : Dict (EndpointCacheStats D)) × ((s : EndpointStatsWrapper D)
          → Member s stats
          → IsScored ctx ep cache hosts s)
  unfolding ranked_stats get_endpoint_stats
  ranked_scored ctx cluster hosts stats ep known e =
      let cache = if is_cache_aware_enabled mc ctx then get_cache_stats D mc ctx else [] in
      let sorted : stats
          ≡ S.sort (higher_score D) (merge_stats_and_score D ctx (map (wrap D ep) hosts) cache) =
        ground arith in
      (
        cache,
        λ s m.
            scored ctx ep cache hosts s
              (Member-perm s (S.sort-perm (higher_score D) _) (subst (Member s) sorted m)),
      )

  -- The second entry is no worse than the first, and does not score below it.
  abbrev IsBelow : EndpointStatsWrapper D → EndpointStatsWrapper D → Type 0
  IsBelow a b =
      D.Le a.cache_hit_rate b.cache_hit_rate
      → b.endpoint_stats.total_reqs ≤ℤ a.endpoint_stats.total_reqs
      → b.endpoint_stats.prompt_length ≤ℤ a.endpoint_stats.prompt_length
      → D.less b.score a.score ≡ false

  score_stat-IsBelow :
      (ctx : Ctx) (stats : List (EndpointStatsWrapper D)) (cache : Dict (EndpointCacheStats D))
      (a b : EndpointStatsWrapper D)
      → IsWeighted D ctx
      → IsBelow
          (score_stat D (weights D ctx stats) cache a)
          (score_stat D (weights D ctx stats) cache b)
  score_stat-IsBelow ctx stats cache a b v = λ hit reqs len.
      score_stat_dominates D ctx stats cache b a v (unfold score_stat in hit)
        (unfold score_stat in reqs) (unfold score_stat in len)

  -- Of two entries on both sides of a cut, the one left out is no worse: then they tie.
  ranked_ties :
      (ctx : Ctx) (cluster : String) (hosts : List Host) (stats : List (EndpointStatsWrapper D))
      (ep : Dict EndpointStats) (n : ℕ) (chosen left_out : EndpointStatsWrapper D)
      → mc.query_load cluster ≡ some ep
      → ranked_stats D S mc ctx cluster hosts ≡ some stats
      → Member chosen (take n stats)
      → Member left_out (drop n stats)
      → IsWeighted D ctx
      → D.Le chosen.cache_hit_rate left_out.cache_hit_rate
      → left_out.endpoint_stats.total_reqs ≤ℤ chosen.endpoint_stats.total_reqs
      → left_out.endpoint_stats.prompt_length ≤ℤ chosen.endpoint_stats.prompt_length
      → (D.less chosen.score left_out.score ≡ false) × (D.less left_out.score chosen.score ≡ false)
  ranked_ties ctx cluster hosts stats ep n a b known e ma mb v hit reqs len =
      let (cache, all) = ranked_scored ctx cluster hosts stats ep known e in
      let sa = all a (Member-take n stats a ma) in
      let sb = all b (Member-drop n stats b mb) in
      (
        (ranked_stats_best D S mc ctx cluster hosts stats n a b e ma mb).0,
        subst (λ x. IsBelow x b) (sym sa.same)
            (subst
              (λ y.
                IsBelow
                  (score_stat D (weights D ctx (map (wrap D ep) hosts)) cache (wrap D ep sa.host))
                  y)
              (sym sb.same)
              (score_stat-IsBelow ctx (map (wrap D ep) hosts) cache (wrap D ep sa.host)
                (wrap D ep sb.host) v))
            hit reqs len,
      )

module _ (D : Float64) (S : Sorting) (T : Transport) (c : Client) (env : Env) where
  load_known :
      (ctx : Ctx) (cluster : String) (body : List ℕ) (engines : List EngineStats)
      → is_enabled_in env ≡ true
      → do_request T c (load_param T c env ctx cluster) ≡ inr body
      → T.unmarshal_load body ≡ inr engines
      → (live_queries T c env ctx).query_load cluster ≡ some (load_loop engines [])
  unfolding query_load
  load_known ctx cluster body engines on answered decoded = rw (on, answered, decoded) refl

  scored_load :
      (ctx : Ctx) (cluster : String) (hosts : List Host) (stats : List (EndpointStatsWrapper D))
      (engines : List EngineStats) (s : EndpointStatsWrapper D)
      → (live_queries T c env ctx).query_load cluster ≡ some (load_loop engines [])
      → ranked_stats D S (live_queries T c env ctx) ctx cluster hosts ≡ some stats
      → Member s stats
      → s.endpoint_stats ≡ reported engines s.host.ip
  scored_load ctx cluster hosts stats engines s known e m =
      let (cache, all) =
        ranked_scored D S (live_queries T c env ctx) ctx cluster hosts stats _ known e in
      let t = all s m in
      subst (λ (x : EndpointStatsWrapper D). x.endpoint_stats ≡ reported engines x.host.ip)
        (sym t.same) (unfold score_stat in ap or_no_load (lookup-load_loop_nil t.host.ip engines))

  -- From the response to the choice. With the center enabled, `QueryLoad` answered by a body that is
  -- decoded to some engines, and configured weights that are not negative: of two entries of the
  -- ranking, take one among the first n and one that is left out. If the one left out has at least
  -- the cache hit rate of the other, and if by the last engine of its address in the response it has
  -- no more requests and no longer prompts, then the two have scores of which neither is the less. So
  -- for no better endpoint is a worse one taken, but at a tie.
  pub live_ranking_ties :
      (ctx : Ctx) (cluster : String) (hosts : List Host) (stats : List (EndpointStatsWrapper D))
      (body : List ℕ) (engines : List EngineStats) (n : ℕ)
      (chosen left_out : EndpointStatsWrapper D)
      → is_enabled_in env ≡ true
      → do_request T c (load_param T c env ctx cluster) ≡ inr body
      → T.unmarshal_load body ≡ inr engines
      → ranked_stats D S (live_queries T c env ctx) ctx cluster hosts ≡ some stats
      → Member chosen (take n stats)
      → Member left_out (drop n stats)
      → IsWeighted D ctx
      → D.Le chosen.cache_hit_rate left_out.cache_hit_rate
      → (reported engines left_out.host.ip).total_reqs
        ≤ℤ (reported engines chosen.host.ip).total_reqs
      → (reported engines left_out.host.ip).prompt_length
        ≤ℤ (reported engines chosen.host.ip).prompt_length
      → (D.less chosen.score left_out.score ≡ false) × (D.less left_out.score chosen.score ≡ false)
  live_ranking_ties ctx cluster hosts stats body engines n a b on answered decoded e ma mb v hit
        reqs len =
      let known = load_known ctx cluster body engines on answered decoded in
      let la = scored_load ctx cluster hosts stats engines a known e (Member-take n stats a ma) in
      let lb = scored_load ctx cluster hosts stats engines b known e (Member-drop n stats b mb) in
      ranked_ties D S (live_queries T c env ctx) ctx cluster hosts stats (load_loop engines []) n a
        b known e ma mb v hit (rw (la, lb) reqs) (rw (la, lb) len)
