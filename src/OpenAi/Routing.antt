-- ===== src/OpenAi/Routing.antt =====
-- `GetRequestData` of pkg/transcoder/openai/transcoder.go under a configuration that the filter
-- accepted: it routes by the most specific rule.
use istio_llm_filter.Common.{
  ℕ, ◌≡◌, ◌≢◌, ◌⊎◌, refl, sym, ap, ◌∙◌, subst, inl, inr, false, Option, none, some, List, [], ◌∷◌,
  map, Result, ok, err, panic, str_eq, str_eq_iff, Bool-cases,
}
use istio_llm_filter.Common.Sort.{Member, Sorting}
use istio_llm_filter.Config.{Rule, Rules, Store, Tuple, LlmProxyConfig}
use istio_llm_filter.Config.Init.{to_tuple}
use istio_llm_filter.Config.Route.{get_model_mappings, get_candidate_rule, is_empty}
use istio_llm_filter.Config.Routing.{get_candidate_rule-IsSelected, init_fields, nil_of_is_empty}
use istio_llm_filter.Config.Select.{IsSelected}
use istio_llm_filter.Types.Request.{RequestData, LbOptions}
use istio_llm_filter.Types.Response.{Message}
use istio_llm_filter.Filter.{Headers}
use istio_llm_filter.FilterConfig.Ready.{IsAccepted, NamesNoMappings, parse_config-IsAccepted}
use istio_llm_filter.FilterConfig.{Unmarshal, parse_config}
use istio_llm_filter.OpenAi.{
  Codec, OpenAi, ChatCompletionRequest, get_request_data, request_data, on_decoded, route_by,
  on_candidate, on_options, routed,
}
use istio_llm_filter.OpenAi.Options.{build_lb_options}
use istio_llm_filter.OpenAi.Prompt.{extract_prompt_context}

-- What the data of a request say of it and of its route. The route is left open where the
-- configuration maps no models, and else it is that of the rule selected for the model.
pub record IsRouted (store : Store) (config : LlmProxyConfig) (headers : Headers)
    (request : ChatCompletionRequest) (req : RequestData) : Type 0 where
  pub spoken : request.messages ≢ []
  pub named : request.model ≢ ""
  pub model : req.model_name ≡ request.model
  pub prompt : req.prompt_context ≡ some (extract_prompt_context request.messages)
  pub route :
      ((config.model_mappings ≡ []) × (req.cluster ≡ "") × (req.lb_options ≡ none))
      ⊎ ((entry : Rules) × (r : Rule) × Member (request.model, some entry) config.model_mapping_rule
          × IsSelected store headers (map to_tuple entry.rules) r
          × (req.cluster ≡ r.cluster)
          × (req.scene_name ≡ r.scene_name)
          × (req.backend_protocol ≡ r.backend)
          × (r.backend ≢ "")
          × (build_lb_options (some r) ≡ ok req.lb_options))

ok_or : {A : Type 0} → A → Result Message A → A
ok_or d (ok a) = a
ok_or d (err e) = d
ok_or d panic = d

ok_inj : {A : Type 0} {a b : A} → ◌≡◌ {A = Result Message A} (ok a) (ok b) → a ≡ b
unfolding ok_or
ok_inj {A} {a} h = ap (ok_or a) h

ne_nil_of_is_empty : {A : Type 0} (xs : List A) → is_empty xs ≡ false → xs ≢ []
ne_nil_of_is_empty [] h = absurd (cc h)
ne_nil_of_is_empty (x ∷ xs) h = λ k. cc k

module _ (C : Codec) (S : Sorting) (store : Store) (config : LlmProxyConfig) where
  -- What the data of a request say that a rule routes.
  abbrev IsRoutedBy : OpenAi → Rule → RequestData → Type 0
  IsRoutedBy t r req =
      (options : Option LbOptions) × (build_lb_options (some r) ≡ ok options)
      × (req ≡ record (routed t.request.model r options) {
        prompt_context = some (extract_prompt_context t.request.messages);
      })

  options_inv :
      (t : OpenAi) (r : Rule) (res : Result Message (Option LbOptions)) (req : RequestData)
      → (on_options t r res).1 ≡ ok req
      → (options : Option LbOptions) × (res ≡ ok options)
        × (req ≡ record (routed t.request.model r options) {
          prompt_context = some (extract_prompt_context t.request.messages);
        })
  unfolding on_options
  options_inv t r panic req h = absurd (cc h)
  options_inv t r (err e) req h = absurd (cc h)
  options_inv t r (ok options) req h = (options, refl, sym (ok_inj h))

  -- The answer to a request that is routed by a candidate.
  candidate_inv :
      (t : OpenAi) (res : Result Message (Option Rule)) (req : RequestData)
      → (on_candidate t res).1 ≡ ok req
      → (r : Rule) × (res ≡ ok (some r)) × IsRoutedBy t r req
  unfolding on_candidate
  candidate_inv t panic req h = absurd (cc h)
  candidate_inv t (err e) req h = absurd (cc h)
  candidate_inv t (ok none) req h = absurd (cc h)
  candidate_inv t (ok (some r)) req h =
      (r, refl, options_inv (record t { model_name = r.scene_name }) r _ req h)

  route_by_inv :
      (headers : Headers) (ts : List Tuple) (t : OpenAi) (req : RequestData)
      → (route_by C store config headers ts t).1 ≡ ok req
      → (r : Rule) × (get_candidate_rule {E = Message} store headers ts ≡ ok (some r))
        × IsRoutedBy t r req
  unfolding route_by
  route_by_inv headers [] t req h = absurd (cc h)
  route_by_inv headers (u ∷ us) t req h =
      candidate_inv t (get_candidate_rule {E = Message} store headers (u ∷ us)) req h

  request_data-IsRouted :
      (headers : Headers) (t : OpenAi) (req : RequestData)
      → IsAccepted S config store
      → (request_data C store config headers t).1 ≡ ok req
      → IsRouted store config headers t.request req
  unfolding request_data
  request_data-IsRouted headers t req v h = elim (Bool-cases (is_empty t.request.messages)) [
    | inl silent ↦ absurd (cc (rw silent at h))
    | inr spoken ↦ elim (Bool-cases (str_eq t.request.model "")) [
      | inl nameless ↦ absurd (cc (rw (spoken, nameless) at h))
      | inr named ↦ elim (Bool-cases (is_empty config.model_mappings)) [
        | inl unmapped ↦
            let same = ok_inj (rw (spoken, named, unmapped) at h) in
            record {
              spoken = ne_nil_of_is_empty t.request.messages spoken;
              named = λ e. cc (named, (str_eq_iff t.request.model "").1 e);
              model = sym (ap (λ (q : RequestData). q.model_name) same);
              prompt = sym (ap (λ (q : RequestData). q.prompt_context) same);
              route = inl (
                nil_of_is_empty config.model_mappings unmapped,
                sym (ap (λ (q : RequestData). q.cluster) same),
                sym (ap (λ (q : RequestData). q.lb_options) same),
              );
            }
        | inr mapped ↦
            let (r, chosen, (options, built, same)) =
              route_by_inv headers (get_model_mappings config.model_mappings t.request.model) t req
                (rw (spoken, named, mapped) at h) in
            let (entry, listed, selected, known) =
              get_candidate_rule-IsSelected S v.store v.cfg config store t.request.model headers r
                v.fresh v.inited v.parsed chosen in
            record {
              spoken = ne_nil_of_is_empty t.request.messages spoken;
              named = λ e. cc (named, (str_eq_iff t.request.model "").1 e);
              model = ap (λ (q : RequestData). q.model_name) same;
              prompt = ap (λ (q : RequestData). q.prompt_context) same;
              route = inr (
                entry,
                r,
                subst (λ rules. Member (t.request.model, some entry) rules)
                    (sym (init_fields S v.store v.cfg config v.inited).0) listed,
                selected,
                ap (λ (q : RequestData). q.cluster) same,
                ap (λ (q : RequestData). q.scene_name) same,
                ap (λ (q : RequestData). q.backend_protocol) same,
                known,
                built ∙ ap ok (sym (ap (λ (q : RequestData). q.lb_options) same)),
              );
            }
      ]
    ]
  ]

  on_decoded-IsRouted :
      (headers : Headers) (t : OpenAi) (failure : Option Message) (req : RequestData)
      → IsAccepted S config store
      → (on_decoded C store config headers t failure).1 ≡ ok req
      → IsRouted store config headers t.request req
  unfolding on_decoded
  on_decoded-IsRouted headers t none req v h = request_data-IsRouted headers t req v h
  on_decoded-IsRouted headers t (some e) req v h = absurd (cc h)

  -- Under a configuration that Envoy passed and the filter accepted, each request whose data
  -- `GetRequestData` returns has a message and names a model; the data hold that model and the text
  -- of the messages; and if the configuration maps models, the model has an entry, and the cluster,
  -- the scene, the backend (which is known) and the balancing options are those of a rule of the
  -- entry whose header conditions all hold, no rule of the entry whose conditions hold having more of
  -- them. The document may not, mapping no models, fill in the computed mappings itself.
  pub get_request_data-IsRouted :
      (unmarshal : Unmarshal) (bytes : List ℕ) (headers : Headers) (body : List ℕ) (t : OpenAi)
      (req : RequestData)
      → NamesNoMappings unmarshal bytes
      → parse_config S unmarshal bytes ≡ ok (config, store)
      → (get_request_data C store config headers body t).1 ≡ ok req
      → IsRouted store config headers (C.unmarshal_request body t.request).0 req
  unfolding get_request_data
  get_request_data-IsRouted unmarshal bytes headers body t req names accepted h =
      on_decoded-IsRouted headers _ _ req
        (parse_config-IsAccepted S unmarshal bytes config store names accepted) h
