-- ===== src/Filter/Lifecycle/Keeps.antt =====
-- What the calls on the filter of pkg/filter/filter.go keep, by the request path and the reports: the
-- id of the request, and that the local replies say the status they are sent with.
use istio_llm_filter.Common.{
  ◌==◌, ℕ, String, Bool, true, false, List, [], ◌∷◌, ◌++◌, ◌≡◌, ◌≢◌, refl, sym, ◌∙◌, subst, Result,
  ok, err, panic, Option, none, some, if◌then◌else◌, ◌⊎◌, inl, inr, str_eq_iff, arith,
}
use istio_llm_filter.Config.{LlmProxyConfig, get_protocol, get_algorithm}
use istio_llm_filter.LoadBalancer.Choose.{choose_server}
use istio_llm_filter.Types.{Host}
use istio_llm_filter.Types.Request.{RequestData, PromptMessageContext}
use istio_llm_filter.Types.Response.{
  Message, ErrCode, format_gateway_response, err_bad_request, err_not_found,
}
use istio_llm_filter.Filter.{Filter, World, State, Transcoder, Headers, Status, LocalReply, reply}
use istio_llm_filter.Filter.Prompt.{
  add_request, delete_prompt_length, timer_fired, decrease_request, save_kv_cache,
  record_token_time, on_destroy,
}
use istio_llm_filter.Filter.Request.{
  Env, decode_headers, decode_data, process_request, on_parsed, route_to, send_to,
  compute_prompt_hash, get_cluster_hosts, proxy_model_name, lb_message, accept, get_trace_id,
  has_factory, init_load_balance_context,
}

-- The body of a local reply says the status that it is sent with.
abbrev pub AllCoherent : List LocalReply → Type 0
AllCoherent [] = Unit
AllCoherent (r ∷ rs) = (r.body.error.code ≡ r.status) × AllCoherent rs

AllCoherent-append :
    (rs : List LocalReply) (r : LocalReply)
    → AllCoherent rs
    → r.body.error.code ≡ r.status
    → AllCoherent (rs ++ r ∷ [])
AllCoherent-append [] r h e = (e, tt)
AllCoherent-append (q ∷ rs) r h e = (h.0, AllCoherent-append rs r h.1 e)

sum-cases : {A B : Type 0} (e : A ⊎ B) → ((a : A) × (e ≡ inl a)) ⊎ ((b : B) × (e ≡ inr b))
sum-cases (inl a) = inl (a, refl)
sum-cases (inr b) = inr (b, refl)

module _ {X : Transcoder} where
  pub record Keeps (s s' : State X) : Type 0 where
    pub id : s.0.unique_id ≢ "" → s'.0.unique_id ≡ s.0.unique_id
    pub coherent : AllCoherent s.1.replies → AllCoherent s'.1.replies

  pub Keeps-refl : (s : State X) → Keeps s s
  Keeps-refl s = record { id = λ h. refl; coherent = λ h. h }

  pub Keeps-trans : (s t u : State X) → Keeps s t → Keeps t u → Keeps s u
  Keeps-trans s t u p q = record {
    id = λ h. q.id (λ e. h (sym (p.id h) ∙ e)) ∙ p.id h;
    coherent = λ h. q.coherent (p.coherent h);
  }

  pub Keeps-quiet :
      (s s' : State X)
      → (s.0.unique_id ≢ "" → s'.0.unique_id ≡ s.0.unique_id)
      → s'.1.replies ≡ s.1.replies
      → Keeps s s'
  Keeps-quiet s s' same quiet = record {
    id = same;
    coherent = λ h. subst AllCoherent (sym quiet) h;
  }

  Keeps-if : (b : Bool) (s t u : State X) → Keeps s t → Keeps s u → Keeps s (if b then t else u)
  Keeps-if true s t u p q = p
  Keeps-if false s t u p q = q

  Keeps-sent :
      (now : ℕ) (header : Headers) (s t : State X)
      → Keeps s t
      → Keeps s (record t.0 { send_finish_timestamp = now; req_headers = header }, t.1)
  Keeps-sent now header s t k = record { id = k.id; coherent = k.coherent }

  -- If a call returns, it keeps what is to be kept.
  abbrev pub Yields : {A : Type 0} → State X → (A → State X) → Result Message A → Type 0
  Yields s state (ok a) = Keeps s (state a)
  Yields s state (err e) = Unit
  Yields s state panic = Unit

  pub Yields-if :
      {A : Type 0} (b : Bool) (s : State X) (state : A → State X) (p q : Result Message A)
      → Yields s state p
      → Yields s state q
      → Yields s state (if b then p else q)
  Yields-if true s state p q hp hq = hp
  Yields-if false s state p q hp hq = hq

  pub Yields-after :
      {A : Type 0} (s t : State X) (state : A → State X) (p : Result Message A)
      → Keeps s t
      → Yields t state p
      → Yields s state p
  Yields-after s t state (ok a) k h = Keeps-trans s t (state a) k h
  Yields-after s t state (err e) k h = tt
  Yields-after s t state panic k h = tt

  pub Yields-eq-ok :
      {A : Type 0} (s : State X) (state : A → State X) (p : Result Message A) (a : A)
      → p ≡ ok a
      → Yields s state p
      → Keeps s (state a)
  Yields-eq-ok s state p a e h = subst (Yields s state) e h

  -- A step that changes the filter alone, and not its id.
  pub Keeps-filter :
      (f g : Filter X) (w : World X) → g.unique_id ≡ f.unique_id → Keeps (f, w) (g, w)
  Keeps-filter f g w same = Keeps-quiet (f, w) (g, w) (λ h. same) refl

  pub Keeps-reply :
      (status : ℕ) (err_code : ErrCode) (details : String) (message : Message) (s : State X)
      → err_code.code ≡ status
      → Keeps s (reply status err_code details message s)
  unfolding format_gateway_response
  Keeps-reply status err_code details message s e = record {
    id = λ h. refl;
    coherent = λ h. AllCoherent-append s.1.replies _ h e;
  }

-- The reports to the metadata center make an id only where there is none.
module _ (X : Transcoder) (config : LlmProxyConfig) (uuid : String) where
  Keeps-add_request : (now : ℕ) (s : State X) → Keeps s (add_request X config uuid now s)
  unfolding add_request
  Keeps-add_request now (f, w) =
      Keeps-quiet (f, w) _ (λ h. ground (arith, str_eq_iff f.unique_id "")) (ground arith)

  pub Keeps-delete_prompt_length : (s : State X) → Keeps s (delete_prompt_length X config uuid s)
  unfolding delete_prompt_length
  Keeps-delete_prompt_length (f, w) =
      Keeps-quiet (f, w) _ (λ h. ground (arith, str_eq_iff f.unique_id "")) (ground arith)

  Keeps-decrease_request : (s : State X) → Keeps s (decrease_request X config uuid s)
  unfolding decrease_request
  Keeps-decrease_request (f, w) =
      Keeps-quiet (f, w) _ (λ h. ground (arith, str_eq_iff f.unique_id "")) (ground arith)

  pub Keeps-save_kv_cache : (s : State X) → Keeps s (save_kv_cache X config s)
  unfolding save_kv_cache
  Keeps-save_kv_cache (f, w) = Keeps-quiet (f, w) _ (λ h. ground arith) (ground arith)

  pub Keeps-timer_fired : (s : State X) → Keeps s (timer_fired X config uuid s)
  unfolding timer_fired
  Keeps-timer_fired (f, w) =
      Keeps-if f.timer_set (f, w) _ _ (Keeps-delete_prompt_length (f, w)) (Keeps-refl (f, w))

  pub Keeps-on_destroy : (s : State X) → Keeps s (on_destroy X config uuid s)
  unfolding on_destroy
  Keeps-on_destroy (f, w) =
      Keeps-if f.is_increase_recorded (f, w) _ _ (Keeps-decrease_request (f, w)) (Keeps-refl (f, w))

  Keeps-stamped :
      (now : ℕ) (s t : State X)
      → Keeps s t
      → Keeps s (record t.0 { last_token_timestamp = now }, t.1)
  Keeps-stamped now s t k = record { id = k.id; coherent = k.coherent }

  pub Keeps-record_token_time :
      (now : ℕ) (s : State X) → Keeps s (record_token_time X config uuid now s)
  unfolding record_token_time
  Keeps-record_token_time now (f, w) =
      let first : State X = (record f { first_token_timestamp = now }, w) in
      Keeps-stamped now (f, w) _
        (Keeps-if (f.first_token_timestamp == 0) (f, w) _ _
          (Keeps-trans (f, w) first _ (Keeps-filter f first.0 w refl)
            (Keeps-delete_prompt_length first))
          (Keeps-refl (f, w)))

-- The request path.
module _ (X : Transcoder) (config : LlmProxyConfig) (env : Env) where
  Keeps-compute_prompt_hash :
      (prompt : Option PromptMessageContext) (s : State X)
      → Keeps s (compute_prompt_hash X config env.hasher prompt s)
  unfolding compute_prompt_hash
  Keeps-compute_prompt_hash none (f, w) = Keeps-refl (f, w)
  Keeps-compute_prompt_hash (some p) (f, w) =
      Keeps-quiet (f, w) _ (λ h. ground arith) (ground arith)

  Keeps-send_to :
      (host : Host) (req : RequestData) (t : X.T) (s : State X)
      → Keeps s (send_to X config env host req t s).0
  unfolding send_to
  Keeps-send_to host req t (f0, w) =
      let f = record f0 { server_ip = host.ip } in
      let r =
        X.encode_request (proxy_model_name f.model_name req.lb_options) f.backend_protocol t in
      let f1 = record f { transcoder = some r.0 } in
      elim (sum-cases r.1) [
        | inl (e, refused) ↦
            rw (refused, send_to)
              (Keeps-trans (f0, w) (f1, w) _ (Keeps-filter f0 f1 w refl)
                (Keeps-reply 400 err_bad_request _ e (f1, w) refl))
        | inr (context, encoded) ↦
            let s1 : State X = (record f1 { is_stream = context.is_stream }, w) in
            rw (encoded, send_to)
              (Keeps-sent _ _ (f0, w) _
                (Keeps-trans (f0, w) s1 _ (Keeps-filter f0 s1.0 w refl)
                  (Keeps-add_request X config env.uuid env.now s1)))
      ]

  Keeps-route_to :
      (hosts : List Host) (req : RequestData) (t : X.T) (s : State X)
      → Keeps s (route_to X config env hosts req t s).0
  unfolding route_to
  Keeps-route_to [] req t s = Keeps-reply 404 err_not_found _ _ s refl
  Keeps-route_to (h ∷ hosts) req t (f, w) =
      elim (sum-cases (
        choose_server env.doubles env.sorting env.queries env.intn
          (init_load_balance_context X config f) f.cluster (get_algorithm config) (h ∷ hosts))) [
            | inl (e, failed) ↦
                rw (failed, route_to) (Keeps-reply 404 err_not_found _ (lb_message e) (f, w) refl)
            | inr (host, chosen) ↦ rw (chosen, route_to) (Keeps-send_to host req t (f, w))
          ]

  Yields-on_parsed :
      (f : Filter X) (w : World X) (t : X.T) (parsed : Result Message RequestData)
      → Yields (f, w) (λ (x : State X × Status). x.0) (on_parsed X config env (f, w) t parsed)
  unfolding on_parsed
  Yields-on_parsed f w t panic = tt
  Yields-on_parsed f w t (err e) =
      let f' = record f { transcoder = some t } in
      Keeps-trans (f, w) (f', w) _ (Keeps-filter f f' w refl)
        (Keeps-reply 400 err_bad_request _ e (f', w) refl)
  Yields-on_parsed f w t (ok req) =
      let f' = accept X config env req t f in
      let hashed = compute_prompt_hash X config env.hasher req.prompt_context (f', w) in
      Keeps-trans (f, w) (f', w) _ (Keeps-filter f f' w refl)
        (Keeps-trans (f', w) hashed _ (Keeps-compute_prompt_hash req.prompt_context (f', w))
          (Keeps-route_to (get_cluster_hosts X config hashed.0) req t hashed))

  Yields-process_request :
      (body : List ℕ) (s : State X)
      → Yields s (λ (x : State X × Status). x.0) (process_request X config env body s)
  unfolding process_request
  Yields-process_request body (f0, w) =
      let f = record f0 { trace_id = get_trace_id env.uuid f0.req_headers } in
      Yields-if (has_factory X config env (get_protocol config)) (f0, w)
        (λ (x : State X × Status). x.0) _ _
        (Yields-after (f0, w) (f, w) (λ (x : State X × Status). x.0) _ (Keeps-filter f0 f w refl)
          (Yields-on_parsed f w _ _))
        (Keeps-trans (f0, w) (f, w) _ (Keeps-filter f0 f w refl)
          (Keeps-reply 400 err_bad_request _ _ (f, w) refl))

  pub Keeps-decode_headers :
      (header : Headers) (end_stream : Bool) (s : State X)
      → Keeps s (decode_headers X config env header end_stream s).0
  unfolding decode_headers
  Keeps-decode_headers header true (f, w) =
      Keeps-trans (f, w) (record f { req_headers = header }, w) _
        (Keeps-filter f (record f { req_headers = header }) w refl)
        (Keeps-reply 400 err_bad_request _ _ (record f { req_headers = header }, w) refl)
  Keeps-decode_headers header false (f, w) =
      Keeps-filter f (record f { req_headers = header }) w refl

  pub Yields-decode_data :
      (buffer : List ℕ) (end_stream : Bool) (s : State X)
      → Yields s (λ (x : State X × Status). x.0) (decode_data X config env buffer end_stream s)
  unfolding decode_data
  Yields-decode_data buffer true s = Yields-process_request buffer s
  Yields-decode_data buffer false s = Keeps-refl s
