-- ===== src/OpenAi.antt =====
-- pkg/transcoder/openai/transcoder.go: the transcoder for OpenAI requests, an implementation of the
-- filter's transcoder interface. The JSON codec of package sonic is the parameter `Codec`. The fields
-- of a request that the code decodes and never reads (the sampling parameters) are left out.
pub mod Json
pub mod Prompt
pub mod Options
pub mod Transparency
pub mod Blocks
pub mod Total
pub mod Routing
pub mod InFilter
pub mod Nulls
pub mod Tests
use istio_llm_filter.Common.{
  codes, ℕ, String, Bool, true, false, ◌&&◌, ◌||◌, ◌⊎◌, inl, inr, Option, none, some, List, [], ◌∷◌,
  Result, ok, err, panic, str_eq, if◌then◌else◌,
}
use istio_llm_filter.Common.Int.{ℤ, pos}
use istio_llm_filter.Config.{Rule, Store, Tuple, LlmProxyConfig}
use istio_llm_filter.Config.Route.{get_model_mappings, get_candidate_rule, is_empty}
use istio_llm_filter.Types.Request.{RequestData, RequestContext, LbOptions}
use istio_llm_filter.Types.Response.{Message, text, format, format_bytes, wrap, LlmLogItems}
use istio_llm_filter.Filter.{Transcoder, Headers}
use istio_llm_filter.OpenAi.Json.{has_prefix, contains}
use istio_llm_filter.OpenAi.Prompt.{ChatMessage, extract_prompt_context}
use istio_llm_filter.OpenAi.Options.{build_lb_options}

pub record ChatCompletionRequest : Type 0 where
  pub model : String
  pub messages : List ChatMessage
  pub stream : Bool

-- `sonic.Unmarshal` at the two types that the code decodes: a request, over the one that is there,
-- with the error if there is one; and the prompt and completion tokens of `usage`.
pub record Codec : Type 0 where
  pub unmarshal_request : List ℕ → ChatCompletionRequest → ChatCompletionRequest × Option Message
  pub unmarshal_usage : List ℕ → Option (ℤ × ℤ)

-- The struct `Transcoder`, less the callbacks and the configuration, which are arguments below.
pub record OpenAi : Type 0 where
  pub request : ChatCompletionRequest
  pub model_name : String
  pub backend_protocol : String
  pub is_stream : Bool
  pub log_items : LlmLogItems

abbrev pub no_request : ChatCompletionRequest
no_request = record { model = ""; messages = []; stream = false }

-- `NewTranscoder`
abbrev pub new_transcoder : OpenAi
new_transcoder = record {
  request = no_request;
  model_name = "";
  backend_protocol = "";
  is_stream = false;
  log_items = record {
    model_name = "";
    input_tokens = pos 0;
    output_tokens = pos 0;
    error_message = "";
  };
}

-- `BackendVLLM`, `BackendSGLang` and `BackendTensorRT`: the backends that speak the same protocol.
abbrev pub is_direct : String → Bool
is_direct backend = str_eq backend "vllm" || str_eq backend "sglang" || str_eq backend "tensorrt"

-- The end of `GetRequestData`: the prompt, and the name for the log.
abbrev pub finish_data : OpenAi → RequestData → OpenAi × Result Message RequestData
finish_data t req = (
  record t { log_items = record t.log_items { model_name = req.model_name } },
  ok (record req { prompt_context = some (extract_prompt_context t.request.messages) }),
)

-- The data of a request before its route is known.
abbrev pub unrouted : String → RequestData
unrouted model = record {
  model_name = model;
  scene_name = "";
  env = "";
  cluster = "";
  backend_protocol = "";
  lb_options = none;
  prompt_context = none;
}

-- The fields that `GetRequestData` takes from the selected rule.
abbrev pub routed : String → Rule → Option LbOptions → RequestData
routed model rule options = record (unrouted model) {
  scene_name = rule.scene_name;
  backend_protocol = rule.backend;
  cluster = rule.cluster;
  lb_options = options;
}

-- What follows `buildLbOptions`, by what it returns.
unfoldable pub on_options :
    OpenAi → Rule → Result Message (Option LbOptions) → OpenAi × Result Message RequestData
on_options t rule panic = (t, panic)
on_options t rule (err e) = (t, err e)
on_options t rule (ok options) = finish_data t (routed t.request.model rule options)

-- What follows `GetCandidateRule`, by what it returns.
unfoldable pub on_candidate :
    OpenAi → Result Message (Option Rule) → OpenAi × Result Message RequestData
unfolding on_options
on_candidate t panic = (t, panic)
on_candidate t (err e) = (t, err e)
on_candidate t (ok none) = (t, err (format "no matching rule found for model %s" t.request.model))
on_candidate t (ok (some rule)) =
    on_options (record t { model_name = rule.scene_name }) rule (build_lb_options (some rule))

module _ (C : Codec) (store : Store) (config : LlmProxyConfig) where
  -- The routing of `GetRequestData`, over the tuples of the model.
  unfoldable pub route_by : Headers → List Tuple → OpenAi → OpenAi × Result Message RequestData
  route_by headers [] t = (t, err (format "model %s not found in mapping rules" t.request.model))
  route_by headers (u ∷ us) t = on_candidate t (get_candidate_rule store headers (u ∷ us))

  -- `GetRequestData` after the request has been decoded.
  unfoldable pub request_data : Headers → OpenAi → OpenAi × Result Message RequestData
  request_data headers t =
      if is_empty t.request.messages
      then (t, err (text "messages is empty"))
      else (if str_eq t.request.model ""
          then (t, err (text "model is empty"))
          else (if is_empty config.model_mappings
              then finish_data t (unrouted t.request.model)
              else route_by headers (get_model_mappings config.model_mappings t.request.model) t))

  -- What follows the decoding, by its error.
  unfoldable pub on_decoded :
      Headers → OpenAi → Option Message → OpenAi × Result Message RequestData
  on_decoded headers t none = request_data headers t
  on_decoded headers t (some e) = (t, err (wrap "failed to parse request: %w" e))

  -- `GetRequestData`
  unfoldable pub get_request_data : Headers → List ℕ → OpenAi → OpenAi × Result Message RequestData
  get_request_data headers body t =
      let (request, failure) = C.unmarshal_request body t.request in
      on_decoded headers (record t { request = request }) failure

  -- `EncodeRequest`, which forwards the request as it is on every backend.
  abbrev pub encode_request : String → String → OpenAi → OpenAi × (Message ⊎ RequestContext)
  encode_request model_name backend t = (
    record t { is_stream = t.request.stream; backend_protocol = backend },
    inr (record { is_stream = t.request.stream }),
  )

  -- `processNonStreamResponse`
  unfoldable pub process_non_stream_response :
      List ℕ → OpenAi → OpenAi × Option (List ℕ) × Option Message
  process_non_stream_response body t =
      if contains body (codes "\"error\"")
      then (t, some body, none)
      else (elim (C.unmarshal_usage body) [
        | none ↦ (t, some body, none)
        | some (input, output) ↦ (
          record t {
            log_items = record t.log_items { input_tokens = input; output_tokens = output };
          },
          some body,
          none,
        )
      ])

  -- `processStreamResponse`
  unfoldable pub process_stream_response :
      List ℕ → OpenAi → OpenAi × Option (List ℕ) × Option Message
  process_stream_response body t =
      if has_prefix body (codes "{") && contains body (codes "\"error\"")
      then (t, none, some (format_bytes "stream error: %s" body))
      else (t, some body, none)

  -- `processOpenAIResponse`
  unfoldable pub process_open_ai_response :
      List ℕ → OpenAi → OpenAi × Option (List ℕ) × Option Message
  unfolding process_non_stream_response process_stream_response
  process_open_ai_response body t =
      if t.is_stream then process_stream_response body t else process_non_stream_response body t

  -- `GetResponseData`
  unfoldable pub get_response_data : List ℕ → OpenAi → OpenAi × Option (List ℕ) × Option Message
  unfolding process_open_ai_response
  get_response_data body t =
      if is_direct t.backend_protocol then process_open_ai_response body t else (t, some body, none)

  -- The transcoder that `NewTranscoder` gives the filter. `DecodeHeaders` accepts all headers.
  abbrev pub open_ai : Transcoder
  open_ai = record {
    T = OpenAi;
    fresh = new_transcoder;
    get_request_data = get_request_data;
    encode_request = encode_request;
    decode_headers = λ t. (t, none);
    get_response_data = get_response_data;
  }
