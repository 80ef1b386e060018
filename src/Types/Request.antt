-- ===== src/Types/Request.antt =====
-- pkg/types/request.go: what a transcoder makes of a request. `GetHeaderString` and `GetSubsetString`,
-- which nothing calls, are left out.
use istio_llm_filter.Common.{ℕ, String, Bool, Option, none, some, List, Dict}

-- `LoadBalancerOptions`
pub record LbOptions : Type 0 where
  pub route_name : String
  pub lora_id : String
  pub headers : Dict String
  pub selector : Dict String

-- `GetLoraID`, which accepts a nil receiver.
abbrev pub get_lora_id : Option LbOptions → String
get_lora_id none = ""
get_lora_id (some o) = o.lora_id

pub record PromptMessageContext : Type 0 where
  pub is_vl_model : Bool
  pub prompt_content : List ℕ

pub record RequestData : Type 0 where
  pub model_name : String
  pub scene_name : String
  pub env : String
  pub cluster : String
  pub backend_protocol : String
  pub lb_options : Option LbOptions
  pub prompt_context : Option PromptMessageContext

pub record RequestContext : Type 0 where
  pub is_stream : Bool
