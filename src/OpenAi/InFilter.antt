-- ===== src/OpenAi/InFilter.antt =====
-- The filter of pkg/filter/filter.go with the transcoder of pkg/transcoder/openai/transcoder.go and a
-- configuration that pkg/filter/config.go accepted: the three together.
use istio_llm_filter.Common.{
  ℕ, ◌≡◌, ◌≢◌, ◌↔◌, refl, sym, ap, ◌∙◌, String, Bool, true, false, none, some, List, ok, panic,
  arith, Bool-cases, inl, inr, if◌then◌else◌,
}
use istio_llm_filter.Common.Sort.{Sorting}
use istio_llm_filter.Config.{LlmProxyConfig, Store}
use istio_llm_filter.Types.Response.{Message, format_bytes}
use istio_llm_filter.FilterConfig.{Unmarshal, parse_config}
use istio_llm_filter.FilterConfig.Ready.{NamesNoMappings, parse_config-IsReady}
use istio_llm_filter.Filter.{State, Transcoder}
use istio_llm_filter.Filter.Request.{Env, decode_data}
use istio_llm_filter.Filter.Response.{encode_data, process_response_data}
use istio_llm_filter.Filter.Prompt.{record_token_time}
use istio_llm_filter.Filter.Laws.{Refuses, process_request-Refuses, record_token_time-SameResponse}
use istio_llm_filter.OpenAi.{Codec, OpenAi, open_ai, new_transcoder}
use istio_llm_filter.OpenAi.Total.{get_request_data-ne-panic, HasNoNulls}
use istio_llm_filter.OpenAi.Transparency.{is_stream_error, get_response_data_transparent}

module _ (C : Codec) (S : Sorting) (store : Store) (config : LlmProxyConfig) where
  -- Under a configuration that Envoy passed and the filter accepted, and whose rules have no null
  -- among their headers and subsets, no request body crashes the filter with the OpenAI transcoder:
  -- for all bytes and headers, the decoder included, `DecodeData` returns at the end of the request;
  -- and as `getClusterHosts` stands, it has answered with one local reply of status 400 or 404. The
  -- document may not, mapping no models, fill in the computed mappings itself.
  pub decode_data-Refuses :
      (unmarshal : Unmarshal) (bytes : List ℕ) (env : Env) (buffer : List ℕ)
      (s : State (open_ai C store config))
      → NamesNoMappings unmarshal bytes
      → parse_config S unmarshal bytes ≡ ok (config, store)
      → HasNoNulls store
      → Refuses
          (open_ai C store config)
          config
          env
          s
          (decode_data (open_ai C store config) config env buffer true s)
  unfolding decode_data
  decode_data-Refuses unmarshal bytes env buffer s names accepted full =
      process_request-Refuses (open_ai C store config) config env buffer s (
        get_request_data-ne-panic C store config s.0.req_headers buffer new_transcoder full
          (parse_config-IsReady S unmarshal bytes config store names accepted).0)

if_true : {A : Type 0} (b : Bool) (x y : A) → b ≡ true → (if b then x else y) ≡ x
if_true true x y h = refl
if_true false x y h = absurd (cc h)

-- A chunk on a request that streams, by whether the transcoder reports an error for it.
module _ (X : Transcoder) (config : LlmProxyConfig) (hostname : String) (decimal : ℕ → String) where
  error_panic :
      (buffer : List ℕ) (t : X.T) (m : Message) (s : State X)
      → s.0.is_stream ≡ true
      → s.0.transcoder ≡ some t
      → (X.get_response_data buffer t).2 ≡ some m
      → (process_response_data X config hostname decimal buffer s ≡ panic)
        ↔ ((s.0.drop_resp_data ≡ false) × (s.0.resp_header ≡ none))
  unfolding process_response_data
  error_panic buffer t m (f, w) hs ht he = (λ h. ground arith, λ (hd, hr). ground arith)

  passed-ne-panic :
      (buffer : List ℕ) (t : X.T) (s : State X)
      → s.0.is_stream ≡ true
      → s.0.transcoder ≡ some t
      → (X.get_response_data buffer t).2 ≡ none
      → process_response_data X config hostname decimal buffer s ≢ panic
  unfolding process_response_data
  passed-ne-panic buffer t (f, w) hs ht he = λ h. ground arith

module _ (C : Codec) (store : Store) (config : LlmProxyConfig) (hostname : String)
    (decimal : ℕ → String) where
  processed_panic :
      (buffer : List ℕ) (t : OpenAi) (s : State (open_ai C store config))
      → s.0.is_stream ≡ true
      → s.0.transcoder ≡ some t
      → (process_response_data (open_ai C store config) config hostname decimal buffer s ≡ panic)
        ↔ ((s.0.drop_resp_data ≡ false)
            × (s.0.resp_header ≡ none)
            × (is_stream_error buffer t ≡ true))
  processed_panic buffer t s hs ht =
      let X = open_ai C store config in
      let (out, e, same) = get_response_data_transparent C store config buffer t in
      elim (Bool-cases (is_stream_error buffer t)) [
        | inl bad ↦
            let both = error_panic X config hostname decimal buffer t _ s hs ht (
              e
              ∙ ap (λ (b : Bool). if b then some (format_bytes "stream error: %s" buffer) else none)
                  bad) in
            (λ h. let (hd, hr) = both.0 h in (hd, hr, bad), λ (hd, hr, he). both.1 (hd, hr))
        | inr good ↦
            let fine = passed-ne-panic X config hostname decimal buffer t s hs ht (
              e
              ∙ ap (λ (b : Bool). if b then some (format_bytes "stream error: %s" buffer) else none)
                  good) in
            (λ h. absurd (fine h), λ (hd, hr, he). absurd (cc (good, he)))
      ]

  -- A streaming response crashes the filter with the OpenAI transcoder exactly if a chunk comes that
  -- ends the stream (an error object from a backend that is not transcoded) while the filter drops no
  -- data yet and has stored no response headers, which it has not after a response of status 400 or
  -- more. The filter has the transcoder's state; times and the end-of-stream flag are arbitrary.
  pub encode_data_panic_iff :
      (uuid : String) (now : ℕ) (buffer : List ℕ) (end_stream : Bool) (t : OpenAi)
      (s : State (open_ai C store config))
      → s.0.is_stream ≡ true
      → s.0.transcoder ≡ some t
      → (encode_data (open_ai C store config) config hostname decimal uuid now buffer end_stream s
          ≡ panic)
        ↔ ((s.0.drop_resp_data ≡ false)
            × (s.0.resp_header ≡ none)
            × (is_stream_error buffer t ≡ true))
  unfolding encode_data
  encode_data_panic_iff uuid now buffer end_stream t s hs ht =
      let X = open_ai C store config in
      let r = record_token_time X config uuid now s in
      let same = record_token_time-SameResponse X config uuid now s in
      let both = processed_panic buffer t r (same.is_stream ∙ hs) (same.transcoder ∙ ht) in
      let passed = if_true r.0.is_stream _ _ (same.is_stream ∙ hs) in
      (
        λ h.
            let (hd, hr, he) = both.0 (sym passed ∙ h) in
            (sym same.drop_resp_data ∙ hd, sym same.resp_header ∙ hr, he),
        λ (hd, hr, he). passed ∙ both.1 (same.drop_resp_data ∙ hd, same.resp_header ∙ hr, he),
      )
