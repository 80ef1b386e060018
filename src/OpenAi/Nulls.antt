-- ===== src/OpenAi/Nulls.antt =====
-- A null among the header conditions of a rule, which pkg/config/config.go accepts: what becomes of the
-- requests in pkg/transcoder/openai/transcoder.go and in pkg/filter/filter.go.
mod Tests
use istio_llm_filter.Common.{
  ℕ, ◌≡◌, ◌≢◌, refl, sym, ap, ◌∙◌, String, true, false, Option, none, some, List, [], ◌∷◌, ◌++◌,
  panic, str_eq, str_eq_iff, Bool-cases, inl, inr, get_elem?,
}
use istio_llm_filter.Config.{HeaderValue, Rule, LlmProxyConfig, Store, Tuple, get_protocol}
use istio_llm_filter.Config.Decides.{IsReadable, IsUnmatched, get_candidate_rule_null}
use istio_llm_filter.Config.Route.{get_model_mappings, get_candidate_rule, is_empty}
use istio_llm_filter.Config.Select.{all_hold}
use istio_llm_filter.Types.Response.{Message}
use istio_llm_filter.Filter.{State, Headers}
use istio_llm_filter.Filter.Request.{Env, decode_data, process_request, on_parsed}
use istio_llm_filter.OpenAi.{
  Codec, OpenAi, ChatCompletionRequest, open_ai, no_request, new_transcoder, get_request_data,
  on_decoded, request_data, route_by, on_candidate,
}

is_empty_of_ne : {A : Type 0} (xs : List A) → xs ≢ [] → is_empty xs ≡ false
is_empty_of_ne [] n = absurd (n refl)
is_empty_of_ne (x ∷ xs) n = refl

str_eq_of_ne : (a b : String) → a ≢ b → str_eq a b ≡ false
str_eq_of_ne a b n = elim (Bool-cases (str_eq a b)) [
  | inl same ↦ absurd (n ((str_eq_iff a b).0 same))
  | inr other ↦ other
]

mapped_of_found :
    (config : LlmProxyConfig) (name : String)
    → get_model_mappings config.model_mappings name ≢ []
    → config.model_mappings ≢ []
unfolding get_model_mappings
mapped_of_found config name n e = n (ap (λ x. get_model_mappings x name) e)

append-ne-nil : {A : Type 0} (xs : List A) (y : A) (ys : List A) → xs ++ y ∷ ys ≢ []
append-ne-nil [] y ys = λ e. cc e
append-ne-nil (x ∷ xs) y ys = λ e. cc e

module _ (C : Codec) (store : Store) (config : LlmProxyConfig) where
  route_null :
      (headers : Headers) (t : OpenAi) (ts : List Tuple)
      → ts ≢ []
      → get_candidate_rule {E = Message} store headers ts ≡ panic
      → (route_by C store config headers ts t).1 ≡ panic
  unfolding route_by on_candidate
  route_null headers t [] n null = absurd (n refl)
  route_null headers t (u ∷ us) n null = rw null refl

  request_null :
      (headers : Headers) (t : OpenAi) (ts : List Tuple)
      → t.request.messages ≢ []
      → t.request.model ≢ ""
      → ts ≢ []
      → get_model_mappings config.model_mappings t.request.model ≡ ts
      → get_candidate_rule {E = Message} store headers ts ≡ panic
      → (request_data C store config headers t).1 ≡ panic
  unfolding request_data
  request_null headers t ts spoken named listed rules null =
      let s = is_empty_of_ne t.request.messages spoken in
      let n = str_eq_of_ne t.request.model "" named in
      let m =
        is_empty_of_ne config.model_mappings
          (mapped_of_found config t.request.model (λ e. listed (sym rules ∙ e))) in
      rw (s, n, m, rules) (route_null headers t ts listed null)

  -- A request for a model crashes the filter if the selection comes to a null among a rule's headers:
  -- the header conditions of the rules before that one are not all met, and those before the null are.
  -- The body is decoded to a request with a message and a model, and the protocol is the transcoder's.
  pub decode_data_null :
      (env : Env) (buffer : List ℕ) (s : State (open_ai C store config))
      (request : ChatCompletionRequest) (earlier later : List Tuple) (t : Tuple) (r : Rule)
      (before after : List (Option HeaderValue))
      → get_protocol config ≡ "openai"
      → C.unmarshal_request buffer no_request ≡ (request, none)
      → request.messages ≢ []
      → request.model ≢ ""
      → get_model_mappings config.model_mappings request.model ≡ earlier ++ t ∷ later
      → IsReadable store earlier
      → IsUnmatched store s.0.req_headers earlier
      → get_elem? store t.target_model ≡ some r
      → r.headers ≡ before ++ none ∷ after
      → all_hold s.0.req_headers before ≡ true
      → decode_data (open_ai C store config) config env buffer true s ≡ panic
  unfolding decode_data process_request get_request_data on_decoded on_parsed
  decode_data_null env buffer s request earlier later t r before after protocol decoded spoken named
        rules readable unmatched live null met =
      let stop =
        request_null s.0.req_headers (record new_transcoder { request = request })
          (earlier ++ t ∷ later) spoken named (append-ne-nil earlier t later) rules
          (get_candidate_rule_null {E = Message} store s.0.req_headers earlier later t r before
            after readable unmatched live null met) in
      rw (decoded, protocol, stop) refl
