-- ===== src/Config/Tests.antt =====
-- A configuration of two rules for one model, and the theorems at it.
use istio_llm_filter.Common.{
  ◌⊎◌, ◌≡◌, ◌≢◌, refl, String, Option, none, some, List, [], ◌∷◌, map, ok, panic, inl, inr,
}
use istio_llm_filter.Common.Sort.{Member, by_insertion, insertion_sort}
use istio_llm_filter.Config.{
  Tuple, Rule, Rules, Store, RulePtr, LlmProxyConfig, Error, parse, validate_rules, parse_loop,
  validate_loop, get_rules, get_protocol,
}
use istio_llm_filter.Config.Defaults.{Defaulted, IsUniform}
use istio_llm_filter.Config.Validate.{validate_rules_complete}
use istio_llm_filter.Config.Parse.{parse_sound, IsServed}
use istio_llm_filter.Config.Panics.{parse_panic, parse_null, IsNull}
use istio_llm_filter.Config.Init.{init, to_tuple, build_model_mappings, sort_tuples}
use istio_llm_filter.Config.Route.{get_candidate_rule, get_model_mappings}
use istio_llm_filter.Config.Select.{IsSelected}
use istio_llm_filter.Config.Decides.{IsReadable, IsFound, IsUnmatched, get_candidate_rule_decides}
use istio_llm_filter.Config.Routing.{get_candidate_rule-IsSelected}

abbrev plain : Rule
plain = record {
  scene_name = "s";
  chain_name = "c";
  backend = "";
  route_name = "plain";
  headers = [];
  subset = [];
  cluster = "gpu";
}

abbrev pub canary : Rule
canary = record plain {
  backend = "triton";
  route_name = "canary";
  headers = some (record { key = "env"; value = "canary" }) ∷ [];
}

abbrev pub store : Store
store = plain ∷ canary ∷ []

abbrev pub defaulted_store : Store
defaulted_store = record plain { backend = "triton" } ∷ canary ∷ []

abbrev pub entry : Rules
entry = record { rules = 0 ∷ 1 ∷ [] }

abbrev triton : String
triton = "triton"

abbrev both : List RulePtr
both = 0 ∷ 1 ∷ []

abbrev pub config : LlmProxyConfig
config = record {
  protocol = "openai";
  algorithm = "";
  model_mapping_rule = ("m", some entry) ∷ [];
  lb_mapping_rule = [];
  log = none;
  model_mappings = [];
  lb_mapping_configs = [];
}

abbrev pub ready : LlmProxyConfig
ready = record config {
  model_mappings =
      ("m", record { tuples = record { target_model = 1 } ∷ record { target_model = 0 } ∷ [] })
      ∷ [];
}

abbrev pub canary_headers : String → Option String
canary_headers key = some "canary"

pub init-ready : init by_insertion store config ≡ ok ready
unfolding init build_model_mappings get_rules sort_tuples insertion_sort
init-ready = refl

validated : validate_rules (0 ∷ 1 ∷ []) store ≡ ok ("gpu", "triton", defaulted_store)
unfolding validate_rules validate_loop
validated = refl

pub parsed : parse ready store ≡ ok defaulted_store
unfolding parse parse_loop validate_rules validate_loop
parsed = refl

pub ready_protocol : get_protocol ready ≡ "openai"
unfolding get_protocol
ready_protocol = refl

-- The more specific of the two rules has a null header.
abbrev pub null_rule : Rule
null_rule = record canary { headers = none ∷ [] }

abbrev pub null_store : Store
null_store = record plain { backend = "triton" } ∷ null_rule ∷ []

pub init_null : init by_insertion null_store config ≡ ok ready
unfolding init build_model_mappings get_rules sort_tuples insertion_sort
init_null = refl

pub parsed_null : parse ready null_store ≡ ok null_store
unfolding parse parse_loop validate_rules validate_loop
parsed_null = refl

chosen :
    get_candidate_rule {E = Error} defaulted_store canary_headers
      (get_model_mappings ready.model_mappings "m")
    ≡ ok (some canary)
unfolding get_candidate_rule get_model_mappings
chosen = refl

uniform : IsUniform "gpu" "triton" store (0 ∷ 1 ∷ [])
uniform p (inl e) = rw e (plain, refl, refl, refl)
uniform p (inr (inl e)) = rw e (canary, refl, refl, refl)
uniform p (inr (inr m)) = absurd m

get_candidate_rule-IsSelected_example :
    (e : Rules) × Member ("m", some e) config.model_mapping_rule
    × IsSelected defaulted_store canary_headers (map to_tuple e.rules) canary
    × (canary.backend ≢ "")
get_candidate_rule-IsSelected_example =
    get_candidate_rule-IsSelected by_insertion store config ready defaulted_store "m" canary_headers
      canary (λ unmapped. refl) init-ready parsed chosen

parse_sound_example :
    (ready.protocol ≢ "")
    × Defaulted store defaulted_store
    × ((m : String) (r : Option Rules)
        → Member (m, r) ready.model_mapping_rule
        → IsServed defaulted_store r)
parse_sound_example = parse_sound ready store parsed

validate_rules_complete_example :
    (s' : Store) × (validate_rules (0 ∷ 1 ∷ []) store ≡ ok ("gpu", "triton", s'))
validate_rules_complete_example = validate_rules_complete 0 (1 ∷ []) store "gpu" "triton" uniform

-- A second model, whose entry is null.
abbrev null_entry : LlmProxyConfig
null_entry = record config { model_mapping_rule = ("m", some entry) ∷ ("n", none) ∷ [] }

first_model : parse_loop (("m", some entry) ∷ []) store ≡ ok defaulted_store
unfolding parse_loop validate_rules validate_loop
first_model = refl

parse_null_example : parse null_entry store ≡ panic
parse_null_example =
    parse_null null_entry store defaulted_store (("m", some entry) ∷ []) [] "n" (λ e. cc e) refl
      first_model

null_entry_panic : parse null_entry store ≡ panic
unfolding parse parse_loop validate_rules validate_loop
null_entry_panic = refl

parse_panic_example :
    (null_entry.protocol ≢ "")
    × ((m : String) × (r : Option Rules) × Member (m, r) null_entry.model_mapping_rule
        × IsNull store r)
parse_panic_example = parse_panic null_entry store null_entry_panic

-- The mapping of "m" as `Init` leaves it.
abbrev sorted_tuples : List Tuple
sorted_tuples = record { target_model = 1 } ∷ record { target_model = 0 } ∷ []

readable : IsReadable defaulted_store sorted_tuples
readable t (inl e) = rw e (canary, refl, tt)
readable t (inr (inl e)) = rw e (record plain { backend = "triton" }, refl, tt)
readable t (inr (inr m)) = absurd m

get_candidate_rule_decides_example :
    ((r : Rule) × (get_candidate_rule {E = Error} defaulted_store canary_headers sorted_tuples
        ≡ ok (some r))
      × IsFound defaulted_store canary_headers sorted_tuples r)
    ⊎ ((get_candidate_rule {E = Error} defaulted_store canary_headers sorted_tuples ≡ ok none)
        × IsUnmatched defaulted_store canary_headers sorted_tuples)
get_candidate_rule_decides_example =
    get_candidate_rule_decides {E = Error} defaulted_store canary_headers sorted_tuples readable
