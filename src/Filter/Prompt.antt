-- ===== src/Filter/Prompt.antt =====
-- The metadata-center operations of pkg/filter/filter.go: what is reported of a request.
use istio_llm_filter.Common.{
  ltb, ◌-◌, ℕ, ◌+◌, ◌*◌, ◌/◌, String, Bool, true, false, not, ◌||◌, none, some, ◌==◌, length,
  str_eq, if◌then◌else◌,
}
use istio_llm_filter.Config.{LlmProxyConfig}
use istio_llm_filter.Metadata.{
  add_request as center_add_request, delete_request, delete_request_prompt,
  save_kv_cache as center_save_kv_cache,
}
use istio_llm_filter.Filter.{
  Filter, State, Transcoder, is_load_aware_enabled, is_cache_aware_enabled,
}

-- `UniqueId`: the id of the request, made when it is first asked for.
abbrev pub with_unique_id : {X : Transcoder} → String → Filter X → Filter X
with_unique_id uuid f = if str_eq f.unique_id "" then record f { unique_id = uuid } else f

-- `estimateTTFT` (milliseconds) and the timer's delay.
unfoldable pub estimate_ttft : ℕ → ℕ
estimate_ttft prompt_length = 100 + prompt_length / 1000 * 50

unfoldable pub prompt_delay_ms : ℕ → ℕ
prompt_delay_ms prompt_length = estimate_ttft prompt_length * 12 / 10

module _ (X : Transcoder) (config : LlmProxyConfig) where
  abbrev pub load_aware : State X → Bool
  load_aware (f, w) = is_load_aware_enabled config f.model_name w.center

  abbrev pub cache_aware : State X → Bool
  cache_aware (f, w) = is_cache_aware_enabled config f.model_name w.center

  -- `addRequest`. A request that does not stream gets a timer for its prompt length.
  unfoldable pub add_request : String → ℕ → State X → State X
  add_request uuid now (f, w) =
      if load_aware (f, w)
      then (let f' = with_unique_id uuid f in
          let (center, e) =
            center_add_request f'.trace_id f'.unique_id f'.cluster f'.server_ip f'.prompt_length now
              w.center in
          elim e [
            | some _ ↦ (f', record w { center = center })
            | none ↦ (
              record f' {
                is_increase_recorded = true;
                timer_set = if f'.is_stream then f'.timer_set else true;
              },
              record w { center = center },
            )
          ])
      else (f, w)

  -- `deletePromptLength`; the pending timer is stopped before the client is called.
  unfoldable pub delete_prompt_length : String → State X → State X
  delete_prompt_length uuid (f, w) =
      if not (load_aware (f, w)) || not f.is_increase_recorded || f.is_prompt_length_deleted
      then (f, w)
      else (let f' = with_unique_id uuid (record f { timer_set = false }) in
          let (center, e) = delete_request_prompt f'.trace_id f'.unique_id w.center in
          elim e [
            | some _ ↦ (f', record w { center = center })
            | none ↦ (record f' { is_prompt_length_deleted = true }, record w { center = center })
          ])

  -- The callback of the timer, which runs once if the timer is still pending.
  unfoldable pub timer_fired : String → State X → State X
  timer_fired uuid (f, w) = if f.timer_set then delete_prompt_length uuid (f, w) else (f, w)

  -- `decreaseRequest`
  unfoldable pub decrease_request : String → State X → State X
  decrease_request uuid (f, w) =
      if load_aware (f, w)
      then (let f' = with_unique_id uuid (record f { timer_set = false }) in
          let (center, e) = delete_request f'.trace_id f'.unique_id w.center in
          (f', record w { center = center }))
      else (f, w)

  -- `saveKVCache`
  unfoldable pub save_kv_cache : State X → State X
  save_kv_cache (f, w) =
      if not (cache_aware (f, w)) || length f.prompt_hash == 0
      then (f, w)
      else (let (center, e) =
            center_save_kv_cache f.trace_id f.cluster f.server_ip f.prompt_hash w.center in
          (f, record w { center = center }))

  -- `recordTokenTime`
  unfoldable pub record_token_time : String → ℕ → State X → State X
  record_token_time uuid now (f, w) =
      let first = delete_prompt_length uuid (record f { first_token_timestamp = now }, w) in
      let (f', w') = if f.first_token_timestamp == 0 then first else (f, w) in
      (record f' { last_token_timestamp = now }, w')

  -- `OnDestroy`
  unfoldable pub on_destroy : String → State X → State X
  on_destroy uuid (f, w) = if f.is_increase_recorded then decrease_request uuid (f, w) else (f, w)

-- `getTTFT`, in microseconds.
unfoldable pub get_ttft : {X : Transcoder} → Filter X → ℕ
get_ttft f =
    if f.first_token_timestamp == 0 || f.send_finish_timestamp == 0
    then 0
    else (if ltb f.first_token_timestamp f.send_finish_timestamp
        then 0
        else f.first_token_timestamp - f.send_finish_timestamp)
