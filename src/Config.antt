-- ===== src/Config.antt =====
-- pkg/config/config.go: the filter's configuration. The rules are shared by pointers: a pointer is
-- an address of a store, and an address outside the store is the nil pointer.
pub mod Route
pub mod Init
pub mod Defaults
pub mod Validate
pub mod Parse
pub mod Panics
pub mod Select
pub mod Decides
pub mod Ready
pub mod Routing
pub mod Tests
use istio_llm_filter.Common.{
  ℕ, ◌≡◌, String, Bool, true, false, Option, none, some, List, [], ◌∷◌, Result, ok, err, panic,
  ◌>>=◌, Dict, lookup, length, get_elem?, set, str_eq, if◌then◌else◌,
}
use istio_llm_filter.Common.Int.{ℤ}

pub record HeaderValue : Type 0 where
  pub key : String
  pub value : String

pub record Subset : Type 0 where
  pub name : String
  pub labels : Dict String
  pub lora : String
  pub weight : ℤ

-- A nil in `[]*HeaderValue` or `[]*Subset`, which a null of the JSON document gives, is `none`.
pub record Rule : Type 0 where
  pub scene_name : String
  pub chain_name : String
  pub backend : String
  pub route_name : String
  pub headers : List (Option HeaderValue)
  pub subset : List (Option Subset)
  pub cluster : String

-- `*Rule`, and the heap that holds the rules.
abbrev pub RulePtr : Type 0
RulePtr = ℕ

abbrev pub Store : Type 0
Store = List Rule

-- `Tuple` and `Mapping`
pub record Tuple : Type 0 where
  pub target_model : RulePtr

pub record Mapping : Type 0 where
  pub tuples : List Tuple

pub record Rules : Type 0 where
  pub rules : List RulePtr

pub record LbConfig : Type 0 where
  pub load_aware_enable : Bool
  pub cache_aware_enable : Bool
  pub candidate_percent : ℤ
  pub request_load_weight : ℤ
  pub prefill_load_weight : ℤ
  pub cache_radio_weight : ℤ

pub record LogConfig : Type 0 where
  pub enabled : Bool
  pub path : String

-- `LLMProxyConfig` with the embedded `Config`. A `nil` in a map of pointers is `none`.
pub record LlmProxyConfig : Type 0 where
  pub protocol : String
  pub algorithm : String
  pub model_mapping_rule : Dict (Option Rules)
  pub lb_mapping_rule : Dict (Option LbConfig)
  pub log : Option LogConfig
  pub model_mappings : Dict Mapping
  pub lb_mapping_configs : Dict (Option LbConfig)

pub data Error : Type 0 where
  protocol_required : Error
  rules_empty : Error
  mismatched_cluster : String → String → Error
  mismatched_backend : String → String → Error
  rules_validation : String → Error → Error

abbrev pub inference_lb : String
inference_lb = "inference_lb"

pub get_protocol : LlmProxyConfig → String
get_protocol c = c.protocol

pub get_algorithm : LlmProxyConfig → String
get_algorithm c = if str_eq c.algorithm "" then inference_lb else c.algorithm

-- `(*Rules).GetRules`, which accepts a nil receiver.
unfoldable pub get_rules : Option Rules → List RulePtr
get_rules none = []
get_rules (some r) = r.rules

-- `(*LogConfig).GetEnabled` and `GetPath`
pub get_enabled : Option LogConfig → Bool
get_enabled none = false
get_enabled (some l) = l.enabled

pub get_path : Option LogConfig → String
get_path none = ""
get_path (some l) = l.path

-- Reading through a pointer.
abbrev pub deref : {E : Type 0} → Store → RulePtr → Result E Rule
deref store p = elim (get_elem? store p) [ none ↦ panic | some r ↦ ok r ]

unfoldable pub find_lb_mapping_rule : LlmProxyConfig → String → Option LbConfig
find_lb_mapping_rule c model_name =
    if str_eq model_name ""
    then none
    else elim (lookup model_name c.lb_mapping_configs) [ none ↦ none | some lb ↦ lb ]

-- `if rules[i].Backend == "" { rules[i].Backend = "triton" }`
abbrev pub or_triton : String → String
or_triton b = if str_eq b "" then "triton" else b

-- The loop of `validateRules` over the rules, which writes the default backend through the pointer.
pub validate_loop : String → String → List RulePtr → Store → Result Error Store
validate_loop cluster backend [] store = ok store
validate_loop cluster backend (p ∷ ps) store = do
  r ← deref store p
  let r' = record r { backend = or_triton r.backend }
  let rest = validate_loop cluster backend ps (set store p r')
  if str_eq r.cluster cluster
      then (if str_eq r'.backend backend then rest else err (mismatched_backend r'.backend backend))
      else err (mismatched_cluster r.cluster cluster)

-- `validateRules`: the cluster and the backend of the model, and the store with the defaults.
pub validate_rules : List RulePtr → Store → Result Error (String × String × Store)
validate_rules [] store = err rules_empty
validate_rules (p ∷ ps) store = do
  first ← deref store p
  let backend = or_triton first.backend
  store' ← validate_loop first.cluster backend (p ∷ ps) store
  ok (first.cluster, backend, store')

-- The loop of `Parse` over the models. `rule.Rules` is read through a pointer that may be nil.
pub parse_loop : Dict (Option Rules) → Store → Result Error Store
parse_loop [] store = ok store
parse_loop ((model, none) ∷ models) store = panic
parse_loop ((model, some r) ∷ models) store = elim (validate_rules r.rules store) [
  | ok (cluster, backend, store') ↦ parse_loop models store'
  | err e ↦ err (rules_validation model e)
  | panic ↦ panic
]

-- `(*LLMProxyConfig).Parse`
unfoldable pub parse : LlmProxyConfig → Store → Result Error Store
parse c store =
    if str_eq c.protocol "" then err protocol_required else parse_loop c.model_mapping_rule store
