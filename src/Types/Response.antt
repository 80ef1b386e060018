-- ===== src/Types/Response.antt =====
-- pkg/types/response.go: what the gateway answers where a request fails. `json.Marshal` cannot fail on
-- these types, so a body is kept as the value that is marshalled.
use istio_llm_filter.Common.{ℕ, String, List}
use istio_llm_filter.Common.Int.{ℤ}

-- The text of an error: a constant, or a format with one verb and the text or the bytes for it.
pub data Message : Type 0 where
  text : String → Message
  format : String → String → Message
  format_bytes : String → List ℕ → Message
  wrap : String → Message → Message
  format_status : String → ℕ → List ℕ → Message

pub record LlmLogItems : Type 0 where
  pub model_name : String
  pub input_tokens : ℤ
  pub output_tokens : ℤ
  pub error_message : String

abbrev pub set_error_message : String → LlmLogItems → LlmLogItems
set_error_message msg l = record l { error_message = msg }

-- `ErrCode`; its field `Type` is `kind` here.
pub record ErrCode : Type 0 where
  pub code : ℕ
  pub kind : String
  pub msg : String

abbrev pub err_bad_request : ErrCode
err_bad_request = record { code = 400; kind = "bad_request"; msg = "Bad Request" }

abbrev pub err_not_found : ErrCode
err_not_found = record { code = 404; kind = "not_found"; msg = "Not Found" }

abbrev pub err_inference_server : ErrCode
err_inference_server = record {
  code = 503;
  kind = "inference_server_error";
  msg = "Inference Server Error";
}

-- `GatewayError` and `GatewayErrorResponse`, whose pointer to the error is never nil.
pub record GatewayError : Type 0 where
  pub code : ℕ
  pub kind : String
  pub message : Message

pub record GatewayErrorResponse : Type 0 where
  pub error : GatewayError
  pub trace_id : String

-- `FormatGatewayResponse`
unfoldable pub format_gateway_response : ErrCode → String → Message → GatewayErrorResponse
format_gateway_response err_code trace_id message = record {
  error = record { code = err_code.code; kind = err_code.kind; message = message };
  trace_id = trace_id;
}
