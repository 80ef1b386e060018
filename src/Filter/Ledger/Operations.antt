-- ===== src/Filter/Ledger/Operations.antt =====
-- Each operation of pkg/filter/filter.go that tells the metadata center something follows the ledger.
use istio_llm_filter.Common.{
  ℕ, ◌≡◌, refl, sym, ◌∙◌, subst, String, Bool, true, false, not, ◌||◌, Option, none, some, List, [],
  ◌∷◌, if◌then◌else◌, arith, ◌==◌, length,
}
use istio_llm_filter.Config.{LlmProxyConfig}
use istio_llm_filter.Metadata.{
  Center, is_enabled, add_request as center_add_request, delete_request, delete_request_prompt,
  save_kv_cache as center_save_kv_cache, load_stats_path, load_prompt_path, cache_save_path,
}
use istio_llm_filter.Metadata.Queue.{Body, Error}
use istio_llm_filter.Metadata.Queue.Order.{IsValid}
use istio_llm_filter.Filter.{Filter, State, Transcoder}
use istio_llm_filter.Filter.Prompt.{
  with_unique_id, add_request, delete_prompt_length, decrease_request, save_kv_cache, timer_fired,
  record_token_time, on_destroy, load_aware, cache_aware,
}
use istio_llm_filter.Filter.Ledger.{
  Report, Ledger, Told, reports, withdraws_prompt, withdraws, caches, ledger, request_id, send-Sent,
  IsOpen, Follows, Follows-refl, Follows-trans, Follows-filter, Follows-answered,
  unique_id-with_unique_id, request_id_kept, Sent,
}

withdraws_prompt_at :
    (id : String) (b d : Bool)
    → b ≡ true
    → d ≡ false
    → Told id (b, d) (("DELETE", load_prompt_path, Body.inference id "" "" 0 0) ∷ []) (b, true)
withdraws_prompt_at id true false h k = withdraws_prompt
withdraws_prompt_at id true true h k = absurd (cc k)
withdraws_prompt_at id false d h k = absurd (cc h)

withdraws_at :
    (id : String) (b d : Bool)
    → b ≡ true
    → Told id (b, d) (("DELETE", load_stats_path, Body.inference id "" "" 0 0) ∷ []) (b, d)
withdraws_at id true d h = withdraws d
withdraws_at id false d h = absurd (cc h)

module _ (w : ℕ) (c : Center) (on : is_enabled c ≡ true) (v : IsValid w c.queue) where
  Sent-add_request :
      (trace id cluster ip : String) (len now : ℕ)
      → Sent w
          ("POST", load_stats_path, Body.inference id cluster ip len now)
          c
          (center_add_request trace id cluster ip len now c)
  unfolding center_add_request
  Sent-add_request trace id cluster ip len now = send-Sent w _ c on v

  Sent-delete_request :
      (trace id : String)
      → Sent w
          ("DELETE", load_stats_path, Body.inference id "" "" 0 0)
          c
          (delete_request trace id c)
  unfolding delete_request
  Sent-delete_request trace id = send-Sent w _ c on v

  Sent-delete_request_prompt :
      (trace id : String)
      → Sent w
          ("DELETE", load_prompt_path, Body.inference id "" "" 0 0)
          c
          (delete_request_prompt trace id c)
  unfolding delete_request_prompt
  Sent-delete_request_prompt trace id = send-Sent w _ c on v

  Sent-save_kv_cache :
      (trace cluster ip : String) (hashes : List ℕ)
      → Sent w
          ("POST", cache_save_path, Body.cache_save cluster ip hashes)
          c
          (center_save_kv_cache trace cluster ip hashes c)
  unfolding center_save_kv_cache
  Sent-save_kv_cache trace cluster ip hashes = send-Sent w _ c on v

module _ (X : Transcoder) (config : LlmProxyConfig) (w : ℕ) (uuid : String) where
  Follows-if :
      (b : Bool) (s x y : State X)
      → (b ≡ true → Follows w uuid s x)
      → (b ≡ false → Follows w uuid s y)
      → Follows w uuid s (if b then x else y)
  Follows-if true s x y p q = p refl
  Follows-if false s x y p q = q refl

  -- The ledger allows reports that name the id that the filter gives the request.
  named :
      (f f' : Filter X) (l l' : Ledger) (xs : String → List Report)
      → f'.unique_id ≡ (with_unique_id uuid f).unique_id
      → l' ≡ l
      → ((id : String) → Told id (ledger f) (xs id) l)
      → Told (request_id uuid f) (ledger f) (xs f'.unique_id) l'
  named f f' l l' xs same told all =
      subst (λ m. Told (request_id uuid f) (ledger f) (xs f'.unique_id) m) (sym told)
        (subst (λ id. Told id (ledger f) (xs f'.unique_id) l)
          (same ∙ unique_id-with_unique_id w uuid f) (all f'.unique_id))

  pub Follows-add_request :
      (now : ℕ) (s : State X) → IsOpen w uuid s → Follows w uuid s (add_request X config uuid now s)
  unfolding add_request
  Follows-add_request now (f, v) o =
      let f' = with_unique_id uuid f in
      let g = record f' {
        is_increase_recorded = true;
        timer_set = if f'.is_stream then f'.timer_set else true;
      } in
      let sent =
        Sent-add_request w v.center o.on o.valid f'.trace_id f'.unique_id f'.cluster f'.server_ip
          f'.prompt_length now in
      Follows-if (load_aware X config (f, v)) (f, v) _ _
        (λ h.
          Follows-answered w uuid f g f' v _ _ o sent
            (named f f' (true, f.is_prompt_length_deleted) (ledger g)
              (λ id.
                (
                  "POST",
                  load_stats_path,
                  Body.inference id f'.cluster f'.server_ip f'.prompt_length now,
                )
                ∷ [])
              refl (ground arith)
              (λ id.
                reports f.is_increase_recorded f.is_prompt_length_deleted f'.cluster f'.server_ip
                  f'.prompt_length now))
            (ground arith) (request_id_kept w uuid f g refl) (request_id_kept w uuid f f' refl))
        (λ h. Follows-refl w uuid (f, v) o)

  pub Follows-delete_prompt_length :
      (s : State X) → IsOpen w uuid s → Follows w uuid s (delete_prompt_length X config uuid s)
  unfolding delete_prompt_length
  Follows-delete_prompt_length (f, v) o =
      let f' = with_unique_id uuid (record f { timer_set = false }) in
      let g = record f' { is_prompt_length_deleted = true } in
      let kept : f'.unique_id ≡ (with_unique_id uuid f).unique_id = ground arith in
      Follows-if
        (not (load_aware X config (f, v))
          || not f.is_increase_recorded
          || f.is_prompt_length_deleted)
        (f, v) _ _ (λ h. Follows-refl w uuid (f, v) o)
        (λ h.
          Follows-answered w uuid f g f' v _ _ o
            (Sent-delete_request_prompt w v.center o.on o.valid f'.trace_id f'.unique_id)
            (named f f' (f.is_increase_recorded, true) (ledger g)
              (λ id. ("DELETE", load_prompt_path, Body.inference id "" "" 0 0) ∷ []) kept
              (ground arith)
              (λ id.
                withdraws_prompt_at id f.is_increase_recorded f.is_prompt_length_deleted
                  (ground arith) (ground arith)))
            (ground arith) (request_id_kept w uuid f g kept) (request_id_kept w uuid f f' kept))

  -- The filter ends alike whether the withdrawal is accepted or not.
  either : {A : Type 0} (e : Option Error) (x : A) → elim e [ some _ ↦ x | none ↦ x ] ≡ x
  either none x = refl
  either (some e) x = refl

  pub Follows-on_destroy :
      (s : State X) → IsOpen w uuid s → Follows w uuid s (on_destroy X config uuid s)
  unfolding on_destroy decrease_request
  Follows-on_destroy (f, v) o =
      let f' = with_unique_id uuid (record f { timer_set = false }) in
      let kept : f'.unique_id ≡ (with_unique_id uuid f).unique_id = ground arith in
      Follows-if f.is_increase_recorded (f, v) _ _
        (λ recorded.
          Follows-if (load_aware X config (f, v)) (f, v) _ _
            (λ h.
              subst (Follows w uuid (f, v))
                (either (delete_request f'.trace_id f'.unique_id v.center).1 _)
                (Follows-answered w uuid f f' f' v _ _ o
                  (Sent-delete_request w v.center o.on o.valid f'.trace_id f'.unique_id)
                  (named f f' (ledger f) (ledger f')
                    (λ id. ("DELETE", load_stats_path, Body.inference id "" "" 0 0) ∷ []) kept
                    (ground arith)
                    (λ id.
                      withdraws_at id f.is_increase_recorded f.is_prompt_length_deleted recorded))
                  (ground arith) (request_id_kept w uuid f f' kept)
                  (request_id_kept w uuid f f' kept)))
            (λ h. Follows-refl w uuid (f, v) o))
        (λ h. Follows-refl w uuid (f, v) o)

  pub Follows-save_kv_cache :
      (s : State X) → IsOpen w uuid s → Follows w uuid s (save_kv_cache X config s)
  unfolding save_kv_cache
  Follows-save_kv_cache (f, v) o =
      Follows-if (not (cache_aware X config (f, v)) || length f.prompt_hash == 0) (f, v) _ _
        (λ h. Follows-refl w uuid (f, v) o)
        (λ h.
          subst (Follows w uuid (f, v))
            (either (center_save_kv_cache f.trace_id f.cluster f.server_ip f.prompt_hash v.center).1
              _)
            (Follows-answered w uuid f f f v _ _ o
              (Sent-save_kv_cache w v.center o.on o.valid f.trace_id f.cluster f.server_ip
                f.prompt_hash)
              (caches (ledger f) f.cluster f.server_ip f.prompt_hash) refl refl refl))

  pub Follows-timer_fired :
      (s : State X) → IsOpen w uuid s → Follows w uuid s (timer_fired X config uuid s)
  unfolding timer_fired
  Follows-timer_fired (f, v) o =
      Follows-if f.timer_set (f, v) _ _ (λ h. Follows-delete_prompt_length (f, v) o)
        (λ h. Follows-refl w uuid (f, v) o)

  Follows-stamped :
      (now : ℕ) (s t : State X)
      → Follows w uuid s t
      → Follows w uuid s (record t.0 { last_token_timestamp = now }, t.1)
  Follows-stamped now s t k =
      Follows-trans w uuid s t _ k (
        Follows-filter w uuid t.0 (record t.0 { last_token_timestamp = now }) t.1 refl refl k.still)

  pub Follows-record_token_time :
      (now : ℕ) (s : State X)
      → IsOpen w uuid s
      → Follows w uuid s (record_token_time X config uuid now s)
  unfolding record_token_time
  Follows-record_token_time now (f, v) o =
      let f1 = record f { first_token_timestamp = now } in
      Follows-stamped now (f, v) _
        (Follows-if (f.first_token_timestamp == 0) (f, v) _ _
          (λ h.
            let start = Follows-filter w uuid f f1 v refl refl o in
            Follows-trans w uuid (f, v) (f1, v) _ start
              (Follows-delete_prompt_length (f1, v) start.still))
          (λ h. Follows-refl w uuid (f, v) o))
