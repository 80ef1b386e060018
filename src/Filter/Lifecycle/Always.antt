-- ===== src/Filter/Lifecycle/Always.antt =====
-- What holds over the whole life of a filter of pkg/filter/filter.go: the response path, and all calls
-- together.
use istio_llm_filter.Common.{
  ℕ, String, Bool, true, false, List, ◌≡◌, ◌≢◌, refl, ok, Option, none, some, ◌>>=◌, inl, inr,
  arith, Bool-cases, Option-cases, leb,
}
use istio_llm_filter.Config.{LlmProxyConfig}
use istio_llm_filter.Types.Response.{Message, err_inference_server}
use istio_llm_filter.Filter.{Filter, World, State, Transcoder, Headers, Status, continue}
use istio_llm_filter.Filter.Prompt.{delete_prompt_length, save_kv_cache, record_token_time}
use istio_llm_filter.Filter.Request.{Env}
use istio_llm_filter.Filter.Response.{
  encode_headers, encode_data, finish_headers, process_response_data, set_content_length,
  after_error, output_bytes,
}
use istio_llm_filter.Filter.Lifecycle.{
  Call, headers_in, data_in, headers_out, data_out, timer, destroyed, elsewhere, Reach, here, next,
}
use istio_llm_filter.Filter.Lifecycle.Keeps.{
  AllCoherent, Keeps, Keeps-refl, Keeps-trans, Keeps-quiet, Keeps-filter, Keeps-reply, Yields,
  Yields-if, Yields-after, Yields-eq-ok, Keeps-delete_prompt_length, Keeps-save_kv_cache,
  Keeps-timer_fired, Keeps-on_destroy, Keeps-record_token_time, Keeps-decode_headers,
  Yields-decode_data,
}

-- The response path.
module _ (X : Transcoder) (config : LlmProxyConfig) (hostname : String) (decimal : ℕ → String) where
  Keeps-finish_headers :
      (end_stream : Bool) (header : Headers) (s : State X)
      → Keeps s (finish_headers X config hostname decimal end_stream header s).0
  unfolding finish_headers
  Keeps-finish_headers true header s = Keeps-reply 503 err_inference_server _ _ s refl
  Keeps-finish_headers false header (f, w) = Keeps-quiet (f, w) _ (λ h. ground arith) (ground arith)

  Keeps-encode_headers :
      (header : Headers) (status : ℕ) (end_stream : Bool) (s0 : State X)
      → Keeps s0 (encode_headers X config hostname decimal header status end_stream s0).0
  unfolding encode_headers save_kv_cache
  Keeps-encode_headers header status end_stream s0 =
      let s = save_kv_cache X config s0 in
      elim (Bool-cases (leb 400 status)) [
        | inl failed ↦ rw (failed, encode_headers) (Keeps-refl s0)
        | inr fine ↦
            Keeps-trans s0 s _ (Keeps-save_kv_cache X config "" s0)
              (elim (Option-cases s.0.transcoder) [
                | inl missing ↦
                    rw (fine, missing, encode_headers) (Keeps-finish_headers end_stream _ s)
                | inr (t, found) ↦
                    let f' = record s.0 { transcoder = some (X.decode_headers t).0 } in
                    Keeps-trans s (f', s.1) _ (Keeps-filter s.0 f' s.1 refl)
                      (elim (Option-cases (X.decode_headers t).1) [
                        | inl good ↦
                            rw (fine, found, good, encode_headers)
                              (Keeps-finish_headers end_stream _ (f', s.1))
                        | inr (m, bad) ↦
                            rw (fine, found, bad, encode_headers)
                              (Keeps-reply 503 err_inference_server _ m (f', s.1) refl)
                      ])
              ])
      ]

  set_content_length_id :
      (out : Option (List ℕ)) (f : Filter X)
      → (set_content_length X config hostname decimal out f).unique_id ≡ f.unique_id
  set_content_length_id out f = ground arith

  -- The filter's mode and stored headers are arguments here, so that the clauses decide on them.
  Yields-error :
      (out : Option (List ℕ)) (e : Message) (streams : Bool) (header : Option Headers)
      (f0 : Filter X) (w : World X)
      → let f = record f0 { is_stream = streams; resp_header = header } in
        Yields
          (f, w)
          (λ (x : State X × List ℕ × Status). x.0)
          (after_error X config hostname decimal (some e) f >>= λ f'. ok (
            (set_content_length X config hostname decimal out f', w),
            output_bytes X config hostname decimal out,
            continue,
          ))
  Yields-error out e true none f w = tt
  Yields-error out e true (some h) f w = Keeps-filter _ _ w refl
  Yields-error out e false none f w = Keeps-filter _ _ w refl
  Yields-error out e false (some h) f w = Keeps-filter _ _ w refl

  Yields-after_error :
      (out : Option (List ℕ)) (e : Option Message) (f : Filter X) (w : World X)
      → Yields
          (f, w)
          (λ (x : State X × List ℕ × Status). x.0)
          (after_error X config hostname decimal e f >>= λ f'. ok (
            (set_content_length X config hostname decimal out f', w),
            output_bytes X config hostname decimal out,
            continue,
          ))
  Yields-after_error out none f w = Keeps-filter f _ w (set_content_length_id out f)
  Yields-after_error out (some e) f w = Yields-error out e f.is_stream f.resp_header f w

  Yields-processed :
      (buffer : List ℕ) (dropped : Bool) (t : Option X.T) (f0 : Filter X) (w : World X)
      → let f = record f0 { drop_resp_data = dropped; transcoder = t } in
        Yields
          (f, w)
          (λ (x : State X × List ℕ × Status). x.0)
          (process_response_data X config hostname decimal buffer (f, w))
  unfolding process_response_data
  Yields-processed buffer true t f0 w = Keeps-refl _
  Yields-processed buffer false none f0 w = Keeps-refl _
  Yields-processed buffer false (some t) f0 w =
      let f = record f0 { drop_resp_data = false; transcoder = some t } in
      let r = X.get_response_data buffer t in
      let f' = record f { transcoder = some r.0 } in
      Yields-after (f, w) (f', w) (λ (x : State X × List ℕ × Status). x.0) _
        (Keeps-filter f f' w refl) (Yields-after_error r.1 r.2 f' w)

  Yields-process_response_data :
      (buffer : List ℕ) (s : State X)
      → Yields s
          (λ (x : State X × List ℕ × Status). x.0)
          (process_response_data X config hostname decimal buffer s)
  Yields-process_response_data buffer (f, w) =
      Yields-processed buffer f.drop_resp_data f.transcoder f w

  Yields-encode_data :
      (uuid : String) (now : ℕ) (buffer : List ℕ) (end_stream : Bool) (s : State X)
      → Yields s
          (λ (x : State X × List ℕ × Status). x.0)
          (encode_data X config hostname decimal uuid now buffer end_stream s)
  unfolding encode_data
  Yields-encode_data uuid now buffer end_stream s0 =
      let s = record_token_time X config uuid now s0 in
      let first = λ (x : State X × List ℕ × Status). x.0 in
      Yields-after s0 s first _ (Keeps-record_token_time X config uuid now s0) (
        Yields-if s.0.is_stream s first _ _ (Yields-process_response_data buffer s) (
          Yields-if end_stream s first _ _
            (Yields-after s _ first _ (Keeps-delete_prompt_length X config uuid s)
              (Yields-process_response_data buffer (delete_prompt_length X config uuid s)))
            (Keeps-refl s)))

module _ (X : Transcoder) (config : LlmProxyConfig) (env : Env) (hostname : String)
    (decimal : ℕ → String) where
  Call-Keeps : (s s' : State X) → Call X config env hostname decimal s s' → Keeps s s'
  Call-Keeps s _ (headers_in header end_stream) =
      Keeps-decode_headers X config env header end_stream s
  Call-Keeps s s' (data_in buffer end_stream status h) =
      Yields-eq-ok s (λ x. x.0) _ (s', status) h
        (Yields-decode_data X config env buffer end_stream s)
  Call-Keeps s _ (headers_out header status end_stream) =
      Keeps-encode_headers X config hostname decimal header status end_stream s
  Call-Keeps s s' (data_out uuid now buffer out end_stream status h) =
      Yields-eq-ok s (λ x. x.0) _ (s', out, status) h
        (Yields-encode_data X config hostname decimal uuid now buffer end_stream s)
  Call-Keeps s _ (timer uuid) = Keeps-timer_fired X config uuid s
  Call-Keeps s _ (destroyed uuid) = Keeps-on_destroy X config uuid s
  Call-Keeps (f, w) _ (elsewhere e) = Keeps-quiet (f, w) _ (λ h. refl) refl

  Reach-Keeps : (s s' : State X) → Reach X config env hostname decimal s s' → Keeps s s'
  Reach-Keeps s _ here = Keeps-refl s
  Reach-Keeps s u (next {t} r c) = Keeps-trans s t u (Reach-Keeps s t r) (Call-Keeps t u c)

  -- Over the life of a filter, in any order of Envoy's calls, the timer and other users of the queue, a
  -- request that has an id keeps it.
  pub Reach-unique_id :
      (s s' : State X)
      → Reach X config env hostname decimal s s'
      → s.0.unique_id ≢ ""
      → s'.0.unique_id ≡ s.0.unique_id
  Reach-unique_id s s' r = (Reach-Keeps s s' r).id

  -- Over the life of a filter, in any order of Envoy's calls, the timer and other users of the queue, the
  -- body of each local reply says the status that it is sent with, if that holds of those sent before.
  pub Reach-AllCoherent :
      (s s' : State X)
      → Reach X config env hostname decimal s s'
      → AllCoherent s.1.replies
      → AllCoherent s'.1.replies
  Reach-AllCoherent s s' r = (Reach-Keeps s s' r).coherent
