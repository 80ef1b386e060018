-- ===== src/Filter/Request.antt =====
-- The request path of pkg/filter/filter.go: `DecodeHeaders`, `DecodeData` and `processRequest`.
use istio_llm_filter.Common.{
  Result, ok, err, panic, ℕ, String, Bool, ◌&&◌, Option, none, some, List, [], ◌∷◌, inl, inr,
  length, str_eq, if◌then◌else◌, ltb,
}
use istio_llm_filter.Common.Sort.{Sorting}
use istio_llm_filter.Config.{LlmProxyConfig, find_lb_mapping_rule, get_algorithm, get_protocol}
use istio_llm_filter.Hash.{Hash64, prompt_to_hash, new, default_text_chunk_len}
use istio_llm_filter.Common.Int.{pos}
use istio_llm_filter.Types.{
  Host, MetadataQueries, Ctx, CtxValue, with_value, key_trace_id, key_model_name, key_cluster_name,
  key_prompt_hash, key_load_aware_enable, key_cache_aware_enable, key_candidate_percent,
  key_load_request_weight, key_load_prefill_weight, key_cache_ratio_weight,
}
use istio_llm_filter.Types.Float.{Float64}
use istio_llm_filter.LoadBalancer.Choose.{Error, choose_server}
use istio_llm_filter.Types.Response.{Message, text, format}
use istio_llm_filter.Types.Request.{RequestData, LbOptions, get_lora_id, PromptMessageContext}
use istio_llm_filter.Filter.{
  Filter, State, Transcoder, Headers, set_header, Status, continue, stop_and_buffer, local_reply,
  bad_request, no_upstream, is_cache_aware_enabled,
}
use istio_llm_filter.Filter.Prompt.{add_request}

-- `getTraceID`; `uuid` is the id that is generated where no header names one.
unfoldable pub get_trace_id : String → Headers → String
get_trace_id uuid headers = elim (headers "x-request-id") [
  | some id ↦ if str_eq id "" then from_trace_header else id
  | none ↦ from_trace_header
]
  where
    from_trace_header : String
    from_trace_header = elim (headers "x-trace-id") [
      | some id ↦ if str_eq id "" then uuid else id
      | none ↦ uuid
    ]

-- What the load balancer's errors say.
abbrev pub lb_message : Error → Message
lb_message (Error.no_available_hosts cluster) = format "no available hosts in cluster %s" cluster
lb_message (Error.no_load_balancer lb_type) =
    format "failed to create load balancer for type %s" lb_type
lb_message (Error.no_host_chosen cluster) = format "failed to choose host from cluster %s" cluster

-- `proxyModelName`: the LoRA adapter of the rule, if it names one.
abbrev pub proxy_model_name : String → Option LbOptions → String
proxy_model_name model_name options =
    if str_eq (get_lora_id options) "" then model_name else get_lora_id options

module _ (X : Transcoder) (config : LlmProxyConfig) where
  -- `initLoadBalanceContext`
  unfoldable pub init_load_balance_context : Filter X → Ctx
  init_load_balance_context f =
      let base =
        with_value
          (with_value
            (with_value (with_value [] key_trace_id (CtxValue.text f.trace_id)) key_model_name
              (CtxValue.text f.model_name))
            key_cluster_name (CtxValue.text f.cluster))
          "metacenter.traceId" (CtxValue.text f.trace_id) in
      let hashed =
        if ltb 0 (length f.prompt_hash)
        then with_value base key_prompt_hash (CtxValue.hashes f.prompt_hash)
        else base in
      elim (find_lb_mapping_rule config f.model_name) [
        | none ↦ hashed
        | some lb ↦
            with_value
              (with_value
                (with_value
                  (with_value
                    (with_value
                      (with_value hashed key_load_aware_enable (CtxValue.bool lb.load_aware_enable))
                      key_cache_aware_enable (CtxValue.bool lb.cache_aware_enable))
                    key_candidate_percent (CtxValue.int lb.candidate_percent))
                  key_load_request_weight (CtxValue.int lb.request_load_weight))
                key_load_prefill_weight (CtxValue.int lb.prefill_load_weight))
              key_cache_ratio_weight (CtxValue.int lb.cache_radio_weight)
      ]

  -- `getClusterHosts`, which the source leaves to be written: it returns no host.
  unfoldable pub get_cluster_hosts : Filter X → List Host
  get_cluster_hosts f = []

  -- `computePromptHash`
  unfoldable pub compute_prompt_hash : Hash64 → Option PromptMessageContext → State X → State X
  compute_prompt_hash H none (f, w) = (f, w)
  compute_prompt_hash H (some context) (f, w) =
      let prompt = context.prompt_content in
      let f' = record f { prompt_length = length prompt } in
      if is_cache_aware_enabled config f.model_name w.center && ltb 0 (length prompt)
      then elim (prompt_to_hash H (new (some (record { chunk_len = pos default_text_chunk_len })))
          prompt) [ none ↦ (f', w) | some hashes ↦ (record f' { prompt_hash = hashes }, w) ]
      else (f', w)

-- What the rest of the system gives the filter: the hasher, the doubles, the sort, the queries of the
-- metadata center, the random numbers, a fresh id and the time.
pub record Env : Type 1 where
  pub hasher : Hash64
  pub doubles : Float64
  pub sorting : Sorting
  pub queries : MetadataQueries
  pub intn : ℕ → ℕ
  pub uuid : String
  pub now : ℕ

module _ (X : Transcoder) (config : LlmProxyConfig) (env : Env) where
  -- Steps 8 to 11 of `processRequest`: the host is chosen.
  unfoldable pub send_to : Host → RequestData → X.T → State X → State X × Status
  send_to host req t (f0, w) =
      let f = record f0 { server_ip = host.ip } in
      let (t', encoded) =
        X.encode_request (proxy_model_name f.model_name req.lb_options) f.backend_protocol t in
      let f1 = record f { transcoder = some t' } in
      elim encoded [
        | inl e ↦ (bad_request e (f1, w), local_reply)
        | inr context ↦
            let (f2, w') =
              add_request X config env.uuid env.now
                (record f1 { is_stream = context.is_stream }, w) in
            (
              (
                record f2 {
                  send_finish_timestamp = env.now;
                  req_headers = set_header "x-upstream-host" host.address f2.req_headers;
                },
                w',
              ),
              continue,
            )
      ]

  -- Steps 4 to 7, on the hosts of the cluster: the request is parsed.
  unfoldable pub route_to : List Host → RequestData → X.T → State X → State X × Status
  route_to [] req t (f, w) =
      (no_upstream (format "no hosts in cluster %s" f.cluster) (f, w), local_reply)
  route_to (h ∷ hosts) req t (f, w) =
      elim (choose_server env.doubles env.sorting env.queries env.intn
        (init_load_balance_context X config f) f.cluster (get_algorithm config) (h ∷ hosts)) [
          | inl e ↦ (no_upstream (lb_message e) (f, w), local_reply)
          | inr host ↦ send_to host req t (f, w)
        ]

  -- `transcoder.GetFactory` over the registered protocols, of which there is one.
  abbrev pub has_factory : String → Bool
  has_factory protocol = str_eq protocol "openai"

  -- The fields that `processRequest` takes from the parsed request.
  abbrev pub accept : RequestData → X.T → Filter X → Filter X
  accept req t f = record f {
    transcoder = some t;
    model_name = req.model_name;
    backend_protocol = req.backend_protocol;
    cluster = req.cluster;
  }

  -- The steps of `processRequest` after `GetRequestData`, by what it returns.
  unfoldable pub on_parsed :
      State X → X.T → Result Message RequestData → Result Message (State X × Status)
  on_parsed s t panic = panic
  on_parsed (f, w) t (err e) = ok (bad_request e (record f { transcoder = some t }, w), local_reply)
  on_parsed (f, w) t (ok req) =
      let (f', w') =
        compute_prompt_hash X config env.hasher req.prompt_context (accept req t f, w) in
      ok (route_to (get_cluster_hosts X config f') req t (f', w'))

  -- `processRequest`, which panics where the transcoder does.
  unfoldable pub process_request : List ℕ → State X → Result Message (State X × Status)
  process_request body (f0, w) =
      let f = record f0 { trace_id = get_trace_id env.uuid f0.req_headers } in
      let (t, parsed) = X.get_request_data f.req_headers body X.fresh in
      if has_factory (get_protocol config)
      then on_parsed (f, w) t parsed
      else ok (
        bad_request (format "transcoder not found for protocol %s" (get_protocol config)) (f, w),
        local_reply,
      )

  -- `DecodeHeaders` and `DecodeData`
  unfoldable pub decode_headers : Headers → Bool → State X → State X × Status
  decode_headers header end_stream (f, w) =
      let s : State X = (record f { req_headers = header }, w) in
      if end_stream
      then (bad_request (text "no request body") s, local_reply)
      else (s, stop_and_buffer)

  unfoldable pub decode_data : List ℕ → Bool → State X → Result Message (State X × Status)
  unfolding process_request
  decode_data buffer end_stream s =
      if end_stream then process_request buffer s else ok (s, stop_and_buffer)

  -- `DecodeTrailers`
  abbrev pub decode_trailers : State X → State X × Status
  decode_trailers s = (s, continue)
