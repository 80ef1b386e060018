-- ===== src/OpenAi/Total.antt =====
-- `GetRequestData` of pkg/transcoder/openai/transcoder.go never panics under a configuration that the
-- filter accepted and whose rules have no nulls.
use istio_llm_filter.Common.{
  ℕ, ◌≡◌, ◌≢◌, sym, subst, get_elem?, inl, inr, String, Option, none, some, List, [], ◌∷◌, panic,
  lookup, str_eq, Bool-cases, Option-cases,
}
use istio_llm_filter.Config.{Rule, RulePtr, Store, Tuple, LlmProxyConfig}
use istio_llm_filter.Config.Decides.{IsReadable, get_candidate_rule_decides}
use istio_llm_filter.Config.Ready.{IsReady, IsUsable}
use istio_llm_filter.Config.Route.{get_model_mappings, get_candidate_rule, is_empty}
use istio_llm_filter.Config.Routing.{get_model_mappings_found, get_model_mappings_missing}
use istio_llm_filter.Config.Select.{NoNulls}
use istio_llm_filter.Types.Response.{Message}
use istio_llm_filter.Filter.{Headers}
use istio_llm_filter.OpenAi.{
  Codec, OpenAi, get_request_data, request_data, on_decoded, route_by, on_candidate, on_options,
}
use istio_llm_filter.OpenAi.Options.{build_lb_options}
use istio_llm_filter.OpenAi.Options.Laws.{build_lb_options_total}

-- No rule that the configuration points to has a null among its headers or its subsets.
abbrev pub HasNoNulls : Store → Type 0
HasNoNulls store =
    (p : RulePtr) (r : Rule) → get_elem? store p ≡ some r → NoNulls r.headers × NoNulls r.subset

IsUsable-IsReadable :
    (store : Store) (ts : List Tuple) → HasNoNulls store → IsUsable store ts → IsReadable store ts
IsUsable-IsReadable store ts full v t m =
    let (r, e, _, _) = v.resolved t m in (r, e, (full t.target_model r e).0)

on_options-ne-panic :
    (t : OpenAi) (r : Rule)
    → NoNulls r.headers
    → NoNulls r.subset
    → (on_options t r (build_lb_options (some r))).1 ≢ panic
unfolding on_options
on_options-ne-panic t r nh ns =
    let (opts, e, _) = build_lb_options_total r nh ns in rw e (λ k. cc k)

on_candidate-ne-panic :
    (t : OpenAi) (store : Store) (get : Headers) (ts : List Tuple)
    → HasNoNulls store
    → IsReadable store ts
    → (on_candidate t (get_candidate_rule {E = Message} store get ts)).1 ≢ panic
unfolding on_candidate
on_candidate-ne-panic t store get ts full readable =
    elim (get_candidate_rule_decides {E = Message} store get ts readable) [
      | inl (r, found, (u, _, live, _)) ↦
          let (nh, ns) = full u.target_model r live in
          rw found (on_options-ne-panic (record t { model_name = r.scene_name }) r nh ns)
      | inr (missing, others) ↦ rw missing (λ k. cc k)
    ]

module _ (C : Codec) (store : Store) (config : LlmProxyConfig) where
  route_by-ne-panic :
      (headers : Headers) (ts : List Tuple) (t : OpenAi)
      → HasNoNulls store
      → IsReadable store ts
      → (route_by C store config headers ts t).1 ≢ panic
  unfolding route_by
  route_by-ne-panic headers [] t full readable = λ k. cc k
  route_by-ne-panic headers (u ∷ us) t full readable =
      on_candidate-ne-panic t store headers (u ∷ us) full readable

  mappings-IsReadable :
      (name : String)
      → HasNoNulls store
      → IsReady store config
      → IsReadable store (get_model_mappings config.model_mappings name)
  mappings-IsReadable name full ready = elim (Option-cases (lookup name config.model_mappings)) [
    | inl missing ↦
        subst (IsReadable store)
          (sym (get_model_mappings_missing config.model_mappings name missing)) (λ t m. absurd m)
    | inr (m, found) ↦
        subst (IsReadable store) (sym (get_model_mappings_found config.model_mappings name m found))
          (IsUsable-IsReadable store m.tuples full (ready.usable name m found))
  ]

  request_data-ne-panic :
      (headers : Headers) (t : OpenAi)
      → HasNoNulls store
      → IsReady store config
      → (request_data C store config headers t).1 ≢ panic
  unfolding request_data
  request_data-ne-panic headers t full ready = elim (Bool-cases (is_empty t.request.messages)) [
    | inl silent ↦ rw silent (λ k. cc k)
    | inr spoken ↦ elim (Bool-cases (str_eq t.request.model "")) [
      | inl nameless ↦ rw (spoken, nameless) (λ k. cc k)
      | inr named ↦ elim (Bool-cases (is_empty config.model_mappings)) [
        | inl unmapped ↦ rw (spoken, named, unmapped) (λ k. cc k)
        | inr mapped ↦
            rw (spoken, named, mapped)
              (route_by-ne-panic headers _ t full (mappings-IsReadable t.request.model full ready))
      ]
    ]
  ]

  on_decoded-ne-panic :
      (headers : Headers) (t : OpenAi) (failure : Option Message)
      → HasNoNulls store
      → IsReady store config
      → (on_decoded C store config headers t failure).1 ≢ panic
  unfolding on_decoded
  on_decoded-ne-panic headers t none full ready = request_data-ne-panic headers t full ready
  on_decoded-ne-panic headers t (some e) full ready = λ k. cc k

  -- Under a ready configuration without nulls in its rules `GetRequestData` never panics: for every
  -- header map, every body and every state of the transcoder it returns the request's data or an
  -- error.
  pub get_request_data-ne-panic :
      (headers : Headers) (body : List ℕ) (t : OpenAi)
      → HasNoNulls store
      → IsReady store config
      → (get_request_data C store config headers body t).1 ≢ panic
  unfolding get_request_data
  get_request_data-ne-panic headers body t = on_decoded-ne-panic headers _ _
