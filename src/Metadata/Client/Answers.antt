-- ===== src/Metadata/Client/Answers.antt =====
-- What the queries of pkg/metadata/client.go answer.
use istio_llm_filter.Common.{
  map, ℕ, ◌≡◌, ◌↔◌, ◌⊎◌, refl, sym, ap, ◌∙◌, inl, inr, String, Option, none, some, List, [], ◌∷◌,
  Dict, lookup, insert, lookup-insert, str_eq, if◌then◌else◌, ok, panic, arith, Bool-cases,
  Option-cases,
}
use istio_llm_filter.Common.Sort.{Member}
use istio_llm_filter.Common.Int.{pos, ◌≤ℤ◌}
use istio_llm_filter.Types.{EndpointStats, KvCacheLocation, Ctx}
use istio_llm_filter.Types.Response.{Message}
use istio_llm_filter.Metadata.Environment.{Env}
use istio_llm_filter.Metadata.Client.{
  Client, Transport, HttpResponse, RequestParam, EngineStats, LocationResponse, http_request,
  read_response, outcome, do_request, endpoint_of, load_loop, locations_loop, load_param,
  query_load, load_of, load_answer, cache_param, locations_of, cache_answer, query_kv_cache,
}

-- The statistics that a list of engines gives to an address: those of the last engine there.
abbrev pub last_engine : String → List EngineStats → Option EndpointStats
last_engine ip [] = none
last_engine ip (engine ∷ engines) = elim (last_engine ip engines) [
  | some stats ↦ some stats
  | none ↦ if str_eq engine.ip ip then some (endpoint_of engine) else none
]

or_none : (o : Option EndpointStats) → elim o [ some s ↦ some s | none ↦ none ] ≡ o
or_none none = refl
or_none (some s) = refl

lookup-load_loop :
    (ip : String) (engines : List EngineStats) (stats : Dict EndpointStats)
    → lookup ip (load_loop engines stats)
      ≡ elim (last_engine ip engines) [ some s ↦ some s | none ↦ lookup ip stats ]
unfolding load_loop
lookup-load_loop ip [] stats = refl
lookup-load_loop ip (engine ∷ engines) stats =
    lookup-load_loop ip engines (insert engine.ip (endpoint_of engine) stats)
    ∙ elim (Option-cases (last_engine ip engines)) [
      | inl later ↦ rw later (ground (arith, lookup-insert engine.ip ip (endpoint_of engine) stats))
      | inr (s, e) ↦ rw e
    ]

pub lookup-load_loop_nil :
    (ip : String) (engines : List EngineStats)
    → lookup ip (load_loop engines []) ≡ last_engine ip engines
lookup-load_loop_nil ip engines = lookup-load_loop ip engines [] ∙ or_none (last_engine ip engines)

last_engine_natural :
    (ip : String) (engines : List EngineStats) (s : EndpointStats)
    → last_engine ip engines ≡ some s
    → (pos 0 ≤ℤ s.prompt_length) × (s.prefill_reqs ≡ pos 0)
last_engine_natural ip [] s h = absurd (cc h)
last_engine_natural ip (engine ∷ engines) s h = elim (Option-cases (last_engine ip engines)) [
  | inl later ↦ elim (Bool-cases (str_eq engine.ip ip)) [
    | inl here ↦
        let e : endpoint_of engine ≡ s = cc (rw (later, here) at h) in rw (← e) (ground arith)
    | inr other ↦ absurd (cc (rw (later, other) at h))
  ]
  | inr (t, e) ↦ last_engine_natural ip engines s (e ∙ rw e at h)
]

abbrev pub location_of : LocationResponse → KvCacheLocation
location_of item = record { ip = item.ip; length = item.length }

locations_loop_null :
    (items : List (Option LocationResponse)) → Member none items → locations_loop items ≡ panic
unfolding locations_loop
locations_loop_null [] m = absurd m
locations_loop_null (none ∷ items) m = refl
locations_loop_null (some x ∷ items) (inl e) = absurd (cc e)
locations_loop_null (some x ∷ items) (inr m) = rw (locations_loop_null items m)

locations_loop_all :
    (ls : List LocationResponse) → locations_loop (map some ls) ≡ ok (map location_of ls)
unfolding locations_loop
locations_loop_all [] = refl
locations_loop_all (x ∷ ls) = rw (locations_loop_all ls)

pub inr_inj : {A B : Type 0} {a b : B} → ◌≡◌ {A = A ⊎ B} (inr a) (inr b) → a ≡ b
inr_inj {A} {B} {a} h = ap (λ (s : A ⊎ B). elim s [ inl x ↦ a | inr y ↦ y ]) h

read_response_iff :
    (status : ℕ) (read : Message ⊎ List ℕ) (body : List ℕ)
    → (read_response status read ≡ inr body) ↔ ((status ≡ 200) × (read ≡ inr body))
read_response_iff status (inl e) body = (λ h. absurd (cc h), λ (ok_status, h). absurd (cc h))
read_response_iff status (inr b) body = (λ h. ground arith, λ (ok_status, h). ground arith)

outcome_iff :
    (made : Option Message) (answer : Message ⊎ HttpResponse) (body : List ℕ)
    → (outcome made answer ≡ inr body) ↔ (
        (resp : HttpResponse) × (made ≡ none)
        × (answer ≡ inr resp)
        × (resp.status_code ≡ 200)
        × (resp.body ≡ inr body))
unfolding outcome
outcome_iff (some e) answer body = (λ h. absurd (cc h), λ (r, m, a, s, b). absurd (cc m))
outcome_iff none (inl e) body = (λ h. absurd (cc h), λ (r, m, a, s, b). absurd (cc a))
outcome_iff none (inr resp) body = (
  λ h.
      let (fine, read) = (read_response_iff resp.status_code resp.body body).0 h in
      (resp, refl, refl, fine, read),
  λ (r, m, a, s, b).
      let same : resp ≡ r = inr_inj a in
      (read_response_iff resp.status_code resp.body body).1 (
        ap (λ (x : HttpResponse). x.status_code) same ∙ s,
        ap (λ (x : HttpResponse). x.body) same ∙ b,
      ),
)

module _ (T : Transport) (c : Client) where
  -- `doRequest` gives a body exactly if the request can be made, the exchange gives a response of
  -- status 200, and that is the body that is read from it.
  pub do_request_iff :
      (param : RequestParam) (body : List ℕ)
      → (do_request T c param ≡ inr body) ↔ (
          (resp : HttpResponse) × (T.new_request (http_request c param) ≡ none)
          × (T.exchange (http_request c param) ≡ inr resp)
          × (resp.status_code ≡ 200)
          × (resp.body ≡ inr body))
  unfolding do_request
  do_request_iff param body = outcome_iff _ _ body

  -- The statistics that a successful exchange gives.
  pub record IsLoad (param : RequestParam) (stats : Dict EndpointStats) : Type 0 where
    pub body : List ℕ
    pub engines : List EngineStats
    pub answered : do_request T c param ≡ inr body
    pub decoded : T.unmarshal_load body ≡ inr engines
    pub reads : (ip : String) → lookup ip stats ≡ last_engine ip engines
    pub natural :
        (ip : String) (s : EndpointStats)
        → lookup ip stats ≡ some s
        → (pos 0 ≤ℤ s.prompt_length) × (s.prefill_reqs ≡ pos 0)

  loaded-IsLoad :
      (param : RequestParam) (stats : Dict EndpointStats) (body : List ℕ)
      (decoded : Message ⊎ List EngineStats)
      → do_request T c param ≡ inr body
      → T.unmarshal_load body ≡ decoded
      → load_of decoded ≡ inr stats
      → IsLoad param stats
  loaded-IsLoad param stats body (inl e) d u h = absurd (cc h)
  loaded-IsLoad param stats body (inr engines) d u h =
      let same : load_loop engines [] ≡ stats = inr_inj h in
      let reads = λ (ip : String). ap (lookup ip) (sym same) ∙ lookup-load_loop_nil ip engines in
      record {
        body = body;
        engines = engines;
        answered = d;
        decoded = u;
        reads = reads;
        natural = λ ip s found. last_engine_natural ip engines s (sym (reads ip) ∙ found);
      }

  answered-IsLoad :
      (param : RequestParam) (stats : Dict EndpointStats) (answer : Message ⊎ List ℕ)
      → do_request T c param ≡ answer
      → load_answer T answer ≡ inr stats
      → IsLoad param stats
  answered-IsLoad param stats (inl e) d h = absurd (cc h)
  answered-IsLoad param stats (inr body) d h =
      loaded-IsLoad param stats body (T.unmarshal_load body) d refl h

  -- What `QueryLoad` returns on success says of each address what the last engine there in the
  -- response says: its queued requests, its prompt length or 0 if that is negative, and no prefills.
  -- So no prompt length in it is negative.
  query_load_lem :
      (env : Env) (ctx : Ctx) (cluster : String) (stats : Dict EndpointStats)
      → query_load T c env ctx cluster ≡ inr stats
      → IsLoad (load_param T c env ctx cluster) stats
  unfolding query_load
  query_load_lem env ctx cluster stats h =
      answered-IsLoad (load_param T c env ctx cluster) stats _ refl h

  -- Where the exchange of `QueryKVCache` gives a body that is decoded, it returns the address and the
  -- length of each location, in order, if no location is null; and it panics if one is.
  pub query_kv_cache_lem :
      (env : Env) (ctx : Ctx) (cluster : String) (prompt_hash : List ℕ) (top_k : ℕ) (body : List ℕ)
      (items : List (Option LocationResponse))
      → do_request T c (cache_param T c env ctx cluster prompt_hash top_k) ≡ inr body
      → T.unmarshal_locations body ≡ inr items
      → (Member none items → query_kv_cache T c env ctx cluster prompt_hash top_k ≡ panic)
        × ((ls : List LocationResponse)
            → items ≡ map some ls
            → query_kv_cache T c env ctx cluster prompt_hash top_k ≡ ok (map location_of ls))
  unfolding query_kv_cache
  query_kv_cache_lem env ctx cluster prompt_hash top_k body items d u =
      let read : query_kv_cache T c env ctx cluster prompt_hash top_k ≡ locations_loop items =
        ap (cache_answer T) d ∙ ap locations_of u in
      (
        λ m. read ∙ locations_loop_null items m,
        λ ls e. read ∙ ap locations_loop e ∙ locations_loop_all ls,
      )
