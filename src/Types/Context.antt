-- ===== src/Types/Context.antt =====
-- pkg/types/context.go: the values that a request's context carries, under string keys.
use istio_llm_filter.Common.{ℕ, String, Bool, Option, none, some, List, ◌∷◌, Dict, lookup}
use istio_llm_filter.Common.Int.{ℤ, pos}

-- The dynamic types that the code stores in a context.
pub data CtxValue : Type 0 where
  text : String → CtxValue
  int : ℤ → CtxValue
  bool : Bool → CtxValue
  hashes : List ℕ → CtxValue
  labels : Dict String → CtxValue

abbrev pub Ctx : Type 0
Ctx = Dict CtxValue

-- `context.WithValue`: the newest value of a key hides the older ones.
abbrev pub with_value : Ctx → String → CtxValue → Ctx
with_value ctx key v = (key, v) ∷ ctx

abbrev pub key_cluster_name : String
key_cluster_name = "lb.clusterName"

abbrev pub key_model_name : String
key_model_name = "lb.modelName"

abbrev pub key_trace_id : String
key_trace_id = "lb.traceId"

abbrev pub key_prompt_hash : String
key_prompt_hash = "lb.promptHash"

abbrev pub key_lb_selector : String
key_lb_selector = "lb.selector"

abbrev pub key_load_aware_enable : String
key_load_aware_enable = "lb.load_aware_enable"

abbrev pub key_cache_aware_enable : String
key_cache_aware_enable = "lb.cache_aware_enable"

abbrev pub key_candidate_percent : String
key_candidate_percent = "lb.candidate_percent"

abbrev pub key_cache_ratio_weight : String
key_cache_ratio_weight = "lb.cache_ratio_weight"

abbrev pub key_load_request_weight : String
key_load_request_weight = "lb.request_load_weight"

abbrev pub key_load_prefill_weight : String
key_load_prefill_weight = "lb.prefill_load_weight"

abbrev pub default_cache_ratio_weight : ℤ
default_cache_ratio_weight = pos 2

abbrev pub default_request_load_weight : ℤ
default_request_load_weight = pos 1

abbrev pub default_prefill_load_weight : ℤ
default_prefill_load_weight = pos 3

abbrev pub default_candidate_percent : ℤ
default_candidate_percent = pos 5

-- The type assertions `v.(T)`.
abbrev pub as_text : CtxValue → Option String
as_text (CtxValue.text s) = some s
as_text _ = none

abbrev pub as_int : CtxValue → Option ℤ
as_int (CtxValue.int n) = some n
as_int _ = none

abbrev pub as_bool : CtxValue → Option Bool
as_bool (CtxValue.bool b) = some b
as_bool _ = none

abbrev pub as_hashes : CtxValue → Option (List ℕ)
as_hashes (CtxValue.hashes h) = some h
as_hashes _ = none

abbrev pub as_labels : CtxValue → Option (Dict String)
as_labels (CtxValue.labels l) = some l
as_labels _ = none

-- `GetValueFromCtx`: the default where the key is missing or its value has another type.
unfoldable pub get_value_from_ctx : {A : Type 0} → (CtxValue → Option A) → Ctx → String → A → A
get_value_from_ctx assert ctx key default = elim (lookup key ctx) [
  | none ↦ default
  | some v ↦ elim (assert v) [ none ↦ default | some a ↦ a ]
]

-- `MustGetValueFromCtx`, with the zero value of the type: it does not panic.
abbrev pub must_get_value_from_ctx : {A : Type 0} → (CtxValue → Option A) → A → Ctx → String → A
must_get_value_from_ctx assert zero_value ctx key = get_value_from_ctx assert ctx key zero_value
