-- ===== src/Filter.antt =====
-- pkg/filter/filter.go: the stream filter. Envoy's objects are plain data here: a header map is the
-- function that looks a header up, a buffer is its bytes, a local reply is recorded. Times and fresh
-- UUIDs are arguments. The transcoder is the interface of pkg/transcoder/transcoder.go.
pub mod Prompt
pub mod Request
pub mod Response
pub mod Accounting
pub mod Laws
pub mod Ledger
pub mod Race
pub mod Lifecycle
pub mod Tests
use istio_llm_filter.Common.{
  Result, ℕ, String, Bool, true, false, Option, none, some, List, [], ◌∷◌, ◌++◌, ◌⊎◌, Dict, str_eq,
  if◌then◌else◌,
}
use istio_llm_filter.Types.Response.{
  Message, ErrCode, err_bad_request, err_not_found, err_inference_server, GatewayErrorResponse,
  format_gateway_response,
}
use istio_llm_filter.Types.Request.{RequestData, RequestContext}
use istio_llm_filter.Config.{LlmProxyConfig, find_lb_mapping_rule}
use istio_llm_filter.Metadata.{Center, is_enabled, is_cache_enabled}

abbrev pub Headers : Type 0
Headers = String → Option String

-- `header.Set`
abbrev pub set_header : String → String → Headers → Headers
set_header k v h x = if str_eq k x then some v else h x

-- `header.Add`, as `Get` sees it: a value that is there stays the first.
abbrev pub add_header : String → String → Headers → Headers
add_header k v h x = if str_eq k x then (elim (h x) [ none ↦ some v | some u ↦ some u ]) else h x

-- `api.StatusType`, as far as the filter returns it.
pub data Status : Type 0 where
  continue : Status
  stop_and_buffer : Status
  local_reply : Status

-- The arguments of `SendLocalReply` that differ.
pub record LocalReply : Type 0 where
  pub status : ℕ
  pub body : GatewayErrorResponse
  pub details : String

-- `transcoder.Transcoder`: a state and what its methods do to it; an error is its message.
pub record Transcoder : Type 1 where
  pub T : Type 0
  pub fresh : T
  pub get_request_data : Headers → List ℕ → T → T × Result Message RequestData
  pub encode_request : String → String → T → T × (Message ⊎ RequestContext)
  pub decode_headers : T → T × Option Message
  -- the output, nil where there is an error, and the error
  pub get_response_data : List ℕ → T → T × Option (List ℕ) × Option Message

module _ (X : Transcoder) where
  -- The filter of one request. `timer_set` says that the prompt timer is pending.
  pub record Filter : Type 0 where
    pub transcoder : Option X.T
    pub trace_id : String
    pub model_name : String
    pub cluster : String
    pub server_ip : String
    pub backend_protocol : String
    pub is_stream : Bool
    pub unique_id : String
    pub prompt_length : ℕ
    pub prompt_hash : List ℕ
    pub is_increase_recorded : Bool
    pub is_prompt_length_deleted : Bool
    pub timer_set : Bool
    pub req_headers : Headers
    pub resp_header : Option Headers
    pub drop_resp_data : Bool
    pub send_finish_timestamp : ℕ
    pub first_token_timestamp : ℕ
    pub last_token_timestamp : ℕ

  -- What the filter acts on: the metadata center and the local replies sent so far.
  pub record World : Type 0 where
    pub center : Center
    pub replies : List LocalReply

  abbrev pub State : Type 0
  State = Filter × World

abbrev pub reply : {X : Transcoder} → ℕ → ErrCode → String → Message → State X → State X
reply status err_code details message (f, w) = (
  f,
  record w {
    replies =
        w.replies
        ++ record {
          status = status;
          body = format_gateway_response err_code f.trace_id message;
          details = details;
        }
          ∷ [];
  },
)

-- `badRequest`, `noUpstream` and `badResponse`
abbrev pub bad_request : {X : Transcoder} → Message → State X → State X
bad_request = reply 400 err_bad_request "bad_request"

abbrev pub no_upstream : {X : Transcoder} → Message → State X → State X
no_upstream = reply 404 err_not_found "no_upstream"

abbrev pub bad_response : {X : Transcoder} → Message → State X → State X
bad_response = reply 503 err_inference_server "bad_response"

-- `isLoadAwareEnabled` and `isCacheAwareEnabled`: the model's configuration, or else whether the
-- metadata center is enabled.
unfoldable pub is_load_aware_enabled : LlmProxyConfig → String → Center → Bool
is_load_aware_enabled config model_name center = elim (find_lb_mapping_rule config model_name) [
  | none ↦ is_enabled center
  | some lb ↦ lb.load_aware_enable
]

unfoldable pub is_cache_aware_enabled : LlmProxyConfig → String → Center → Bool
is_cache_aware_enabled config model_name center = elim (find_lb_mapping_rule config model_name) [
  | none ↦ is_cache_enabled center
  | some lb ↦ lb.cache_aware_enable
]
