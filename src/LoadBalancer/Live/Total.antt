-- ===== src/LoadBalancer/Live/Total.antt =====
-- The host that ChooseServer of pkg/loadbalancer chooses with the client of pkg/metadata behind it.
use istio_llm_filter.Common.{
  ℕ, ◌<◌, ◌≡◌, refl, inl, inr, ◌⊎◌, String, Bool, true, false, ◌&&◌, none, some, Option, List, [],
  ◌∷◌, length, lookup, Result, ok, err, panic, ◌>>=◌, Bool-cases,
}
use istio_llm_filter.Common.Sort.{Sorting, Member}
use istio_llm_filter.Types.{Host, Ctx, key_lb_selector}
use istio_llm_filter.Types.Float.{Float64}
use istio_llm_filter.Types.Response.{Message}
use istio_llm_filter.Metadata.Environment.{Env}
use istio_llm_filter.Metadata.Client.{
  Client, Transport, LocationResponse, locations_loop, locations_of, cache_answer, query_kv_cache,
}
use istio_llm_filter.LoadBalancer.Hosts.{IsIntn}
use istio_llm_filter.LoadBalancer.Chosen.{choose_server_total}
use istio_llm_filter.LoadBalancer.Live.{
  live_queries, live_query_kv_cache, asks_cache, cache_panics, live_choose_server, in_cluster,
  is_enabled_in, is_panic,
}

-- No response of the cache query that is decoded has a null among its locations.
abbrev pub HasNoNull : Transport → Type 0
HasNoNull T =
    (body : List ℕ) (items : List (Option LocationResponse))
    → T.unmarshal_locations body ≡ inr items
    → ¬ Member none items

is_panic_bind :
    {A B : Type 0} (m : Result Message A) (f : A → B)
    → is_panic m ≡ false
    → is_panic (m >>= λ a. ok (f a)) ≡ false
is_panic_bind (ok a) f h = refl
is_panic_bind (err e) f h = refl
is_panic_bind panic f h = cc h

locations_loop_returns :
    (items : List (Option LocationResponse))
    → ¬ Member none items
    → is_panic (locations_loop items) ≡ false
unfolding locations_loop
locations_loop_returns [] h = refl
locations_loop_returns (none ∷ items) h = absurd (h (inl refl))
locations_loop_returns (some item ∷ items) h =
    is_panic_bind (locations_loop items) _ (locations_loop_returns items (λ m. h (inr m)))

locations_of_returns :
    (decoded : Message ⊎ List (Option LocationResponse))
    → ((items : List (Option LocationResponse)) → decoded ≡ inr items → ¬ Member none items)
    → is_panic (locations_of decoded) ≡ false
locations_of_returns (inl e) h = refl
locations_of_returns (inr items) h = locations_loop_returns items (h items refl)

cache_answer_returns :
    (T : Transport) (answer : Message ⊎ List ℕ)
    → HasNoNull T
    → is_panic (cache_answer T answer) ≡ false
cache_answer_returns T (inl e) h = refl
cache_answer_returns T (inr body) h = locations_of_returns (T.unmarshal_locations body) (h body)

module _ (T : Transport) (c : Client) (env : Env) where
  live_query_kv_cache_returns :
      (ctx : Ctx) (cluster : String) (hashes : List ℕ) (top_k : ℕ)
      → HasNoNull T
      → is_panic (live_query_kv_cache T c env ctx cluster hashes top_k) ≡ false
  unfolding query_kv_cache
  live_query_kv_cache_returns ctx cluster hashes top_k h = elim (Bool-cases (is_enabled_in env)) [
    | inl on ↦ rw on (cache_answer_returns T _ h)
    | inr off ↦ rw off refl
  ]

  cache_panics_never :
      (ctx : Ctx) (hosts : List Host) → HasNoNull T → cache_panics T c env ctx hosts ≡ false
  unfolding cache_panics
  cache_panics_never ctx hosts h =
      rw (live_query_kv_cache_returns ctx _ _ _ h) (and_false (asks_cache T c env ctx hosts))
    where
      and_false : (b : Bool) → (b && false) ≡ false
      and_false true = refl
      and_false false = refl

  module _ (D : Float64) (S : Sorting) (intn : ℕ → ℕ) where
    -- Whatever the transport does, but for a null location that is decoded from an answer to the
    -- cache query, `ChooseServer` with the client behind it neither panics nor reports an error:
    -- of one host or more, where the context has no selector and `rand.Intn` stays below its
    -- bound, it returns a host of the cluster.
    pub live_choose_server_total :
        (ctx : Ctx) (cluster lb_type : String) (hosts : List Host)
        → HasNoNull T
        → IsIntn intn
        → lookup key_lb_selector ctx ≡ none
        → 0 < length hosts
        → (h : Host) × (live_choose_server D S T c env intn ctx cluster lb_type hosts ≡ ok (inr h))
          × Member h hosts
    unfolding live_choose_server
    live_choose_server_total ctx cluster lb_type hosts no_null r e p =
        let ctx' = in_cluster D S T c env intn ctx cluster in
        let (h, chosen, m) =
          choose_server_total D S (live_queries T c env ctx') intn ctx cluster lb_type hosts r e
            p in
        (h, rw (cache_panics_never ctx' hosts no_null, chosen) refl, m)
