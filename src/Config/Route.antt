-- ===== src/Config/Route.antt =====
-- Rule selection of pkg/config/config.go: `GetModelMappings` and `GetCandidateRule`. Envoy's request
-- header map is the function `get` that looks a header up.
use istio_llm_filter.Common.{
  String, Bool, true, false, Option, none, some, List, [], ◌∷◌, Result, ok, panic, ◌>>=◌, Dict,
  lookup, str_eq, if◌then◌else◌,
}
use istio_llm_filter.Config.{HeaderValue, Rule, Store, Tuple, Mapping, deref}

-- `GetModelMappings`; a nil slice and an empty one are alike to its callers.
unfoldable pub get_model_mappings : Dict Mapping → String → List Tuple
get_model_mappings mappings model_name = elim (lookup model_name mappings) [
  | none ↦ []
  | some m ↦ m.tuples
]

-- `reqHeaderValue, ok := headers.Get(v.Key); !ok || reqHeaderValue != v.Value`, negated.
abbrev pub header_matches : (String → Option String) → HeaderValue → Bool
header_matches get v = elim (get v.key) [ none ↦ false | some x ↦ str_eq x v.value ]

-- The inner loop of `GetCandidateRule`, which breaks at the first mismatch. `v.Key` of a nil header
-- panics.
abbrev pub all_matched :
    {E : Type 0} → (String → Option String) → List (Option HeaderValue) → Result E Bool
all_matched get [] = ok true
all_matched get (none ∷ vs) = panic
all_matched get (some v ∷ vs) = if header_matches get v then all_matched get vs else ok false

abbrev pub is_empty {ℓ} : {A : Type ℓ} → List A → Bool
is_empty [] = true
is_empty (x ∷ xs) = false

module _ {E : Type 0} (store : Store) (get : String → Option String) where
  -- The outer loop of `GetCandidateRule`.
  unfoldable pub candidate_loop : List Tuple → Result E (Option Rule)
  candidate_loop [] = ok none
  candidate_loop (t ∷ ts) = do
    model ← deref store t.target_model
    let rest = candidate_loop ts
    let matching =
        all_matched get model.headers >>= λ matched. if matched then ok (some model) else rest
    if is_empty model.headers then ok (some model) else matching

  -- `GetCandidateRule`, with its shortcut for a single rule without headers.
  unfoldable pub get_candidate_rule : List Tuple → Result E (Option Rule)
  unfolding candidate_loop
  get_candidate_rule (t ∷ []) = do
    model ← deref store t.target_model
    let loop = candidate_loop (t ∷ [])
    if is_empty model.headers then ok (some model) else loop
  get_candidate_rule tuples = candidate_loop tuples
