-- ===== src/Filter/Laws.antt =====
-- What the handlers of pkg/filter/filter.go answer.
use istio_llm_filter.Common.{
  sym, subst, ◌≢◌, Result, err, ℕ, ◌≤◌, ◌≡◌, refl, ◌⊎◌, inl, inr, String, Bool, true, false, Option,
  none, some, List, [], ◌∷◌, ◌++◌, ok, panic, arith, Bool-cases,
}
use istio_llm_filter.Types.Request.{RequestData, PromptMessageContext}
use istio_llm_filter.Config.{LlmProxyConfig, get_protocol}
use istio_llm_filter.Types.Response.{Message}
use istio_llm_filter.Filter.{
  Filter, World, State, Transcoder, Headers, Status, bad_request, no_upstream, LocalReply, continue,
  stop_and_buffer, local_reply,
}
use istio_llm_filter.Filter.Prompt.{delete_prompt_length, record_token_time}
use istio_llm_filter.Filter.Request.{
  Env, process_request, on_parsed, accept, has_factory, get_trace_id, route_to, compute_prompt_hash,
  get_cluster_hosts,
}
use istio_llm_filter.Filter.Response.{encode_headers, encode_data, process_response_data}

module _ (X : Transcoder) (config : LlmProxyConfig) (uuid : String) where
  -- The fields that steer the response.
  pub record SameResponse (f g : Filter X) : Type 0 where
    pub transcoder : g.transcoder ≡ f.transcoder
    pub is_stream : g.is_stream ≡ f.is_stream
    pub resp_header : g.resp_header ≡ f.resp_header
    pub drop_resp_data : g.drop_resp_data ≡ f.drop_resp_data

  delete_prompt_length-SameResponse :
      (s : State X) → SameResponse s.0 (delete_prompt_length X config uuid s).0
  unfolding delete_prompt_length
  delete_prompt_length-SameResponse (f, w) = ground arith

  pub record_token_time-SameResponse :
      (now : ℕ) (s : State X) → SameResponse s.0 (record_token_time X config uuid now s).0
  unfolding record_token_time
  record_token_time-SameResponse now (f, w) =
      ground
        (arith, delete_prompt_length-SameResponse (record f { first_token_timestamp = now }, w))

  -- A request on which the transcoder reports an error for the first chunk of an error response (a
  -- status of 400 or more) panics if it streams: `EncodeHeaders` has left the stored response headers
  -- nil, and the error handler writes through them. The filter has a transcoder and does not drop
  -- data yet; the chunk, the times and the end-of-stream flags are arbitrary.
  encode_data-panic :
      (hostname : String) (decimal : ℕ → String) (header : Headers) (status now : ℕ)
      (buffer : List ℕ) (end1 end2 : Bool) (t : X.T) (s : State X) (e : Message)
      → 400 ≤ status
      → s.0.is_stream ≡ true
      → s.0.drop_resp_data ≡ false
      → s.0.resp_header ≡ none
      → s.0.transcoder ≡ some t
      → (X.get_response_data buffer t).2 ≡ some e
      → encode_data X config hostname decimal uuid now buffer end2
          (encode_headers X config hostname decimal header status end1 s).0
        ≡ panic
  unfolding encode_data encode_headers process_response_data
  encode_data-panic hostname decimal header status now buffer end1 end2 t (f, w) e h hs hd hr ht
        he =
      ground (arith, record_token_time-SameResponse now (f, w))

  -- Once a stream has been ended by an error (data is dropped, and the filter streams no more), no
  -- byte of the response goes on: `EncodeData` holds every further chunk back, or passes the last
  -- one on emptied, and never leaves that condition, whatever the transcoder is.
  pub encode_data_drops :
      (hostname : String) (decimal : ℕ → String) (now : ℕ) (buffer : List ℕ) (end_stream : Bool)
      (s : State X)
      → s.0.drop_resp_data ≡ true
      → s.0.is_stream ≡ false
      → (s' : State X) × (out : List ℕ) × (status : Status) × (encode_data X config hostname decimal
            uuid now buffer end_stream s
          ≡ ok (s', out, status))
        × ((out ≡ []) ⊎ (status ≡ stop_and_buffer))
        × (s'.0.drop_resp_data ≡ true)
        × (s'.0.is_stream ≡ false)
  unfolding encode_data process_response_data
  encode_data_drops hostname decimal now buffer true s hd hs =
      let r = record_token_time X config uuid now s in
      let a = record_token_time-SameResponse now s in
      let b = delete_prompt_length-SameResponse r in
      (
        delete_prompt_length X config uuid r,
        [],
        continue,
        ground arith,
        inl refl,
        ground arith,
        ground arith,
      )
  encode_data_drops hostname decimal now buffer false s hd hs =
      let r = record_token_time X config uuid now s in
      let a = record_token_time-SameResponse now s in
      (r, buffer, stop_and_buffer, ground arith, inr refl, ground arith, ground arith)

module _ (X : Transcoder) (config : LlmProxyConfig) (env : Env) where
  -- Hashing the prompt touches neither the replies nor the metadata center.
  compute_prompt_hash-world :
      (prompt : Option PromptMessageContext) (s : State X)
      → (compute_prompt_hash X config env.hasher prompt s).1 ≡ s.1
  unfolding compute_prompt_hash
  compute_prompt_hash-world none (f, w) = refl
  compute_prompt_hash-world (some p) (f, w) = ground arith

  -- One local reply, of status 400 or 404, and nothing reported.
  pub IsRefused : State X → State X × Status → Type 0
  IsRefused s (s', status) =
      (status ≡ local_reply)
      × (s'.1.center ≡ s.1.center)
      × ((r : LocalReply) × (s'.1.replies ≡ s.1.replies ++ r ∷ [])
          × ((r.status ≡ 400) ⊎ (r.status ≡ 404)))

  bad_request-IsRefused :
      (s : State X) (message : Message) (f' : Filter X)
      → IsRefused s (bad_request message (f', s.1), local_reply)
  unfolding IsRefused
  bad_request-IsRefused s message f' = (refl, refl, (_, refl, inl refl))

  no_upstream-IsRefused :
      (s t : State X) (message : Message)
      → t.1 ≡ s.1
      → IsRefused s (no_upstream message t, local_reply)
  unfolding IsRefused
  no_upstream-IsRefused s (f, w) message same =
      subst (λ (v : World X). IsRefused s (no_upstream message (f, v), local_reply)) (sym same)
        (refl, refl, (_, refl, inr refl))

  -- The code returns, and what it returns is a refusal.
  abbrev pub Refuses : State X → Result Message (State X × Status) → Type 0
  Refuses s r = (x : State X × Status) × (r ≡ ok x) × IsRefused s x

  parsed-Refuses :
      (s : State X) (f : Filter X) (t : X.T) (parsed : Result Message RequestData)
      → parsed ≢ panic
      → Refuses s (on_parsed X config env (f, s.1) t parsed)
  unfolding on_parsed route_to get_cluster_hosts
  parsed-Refuses s f t panic h = absurd (h refl)
  parsed-Refuses s f t (err e) h = (_, refl, bad_request-IsRefused s e _)
  parsed-Refuses s f t (ok req) h =
      let hashed =
        compute_prompt_hash X config env.hasher req.prompt_context
          (accept X config env req t f, s.1) in
      let same = compute_prompt_hash-world req.prompt_context (accept X config env req t f, s.1) in
      (_, refl, no_upstream-IsRefused s hashed _ same)

  -- As `getClusterHosts` stands, no request is ever forwarded: where the transcoder does not panic on
  -- it, `processRequest` answers each one with one local reply, of status 400 or 404, whatever the
  -- configuration and the body are, and reports nothing to the metadata center.
  pub process_request-Refuses :
      (body : List ℕ) (s : State X)
      → (X.get_request_data s.0.req_headers body X.fresh).1 ≢ panic
      → Refuses s (process_request X config env body s)
  unfolding process_request
  process_request-Refuses body s h =
      let f = record s.0 { trace_id = get_trace_id env.uuid s.0.req_headers } in
      let r = X.get_request_data f.req_headers body X.fresh in
      elim (Bool-cases (has_factory X config env (get_protocol config))) [
        | inl found ↦ rw found (parsed-Refuses s f r.0 r.1 h)
        | inr missing ↦ rw missing (_, refl, bad_request-IsRefused s _ f)
      ]
