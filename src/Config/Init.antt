-- ===== src/Config/Init.antt =====
-- `SortTuples`, `buildModelMappings` and `Init` of pkg/config/config.go. `sort.Slice` is the
-- parameter `Sorting`.
use istio_llm_filter.Common.{
  ℕ, Bool, true, false, ◌||◌, Option, none, some, List, [], ◌∷◌, map, Result, ok, panic, ◌>>=◌,
  Dict, insert, length, get_elem?, ltb, leb, if◌then◌else◌, all,
}
use istio_llm_filter.Common.Sort.{Sorting}
use istio_llm_filter.Config.{
  Rules, Store, RulePtr, Tuple, Mapping, LlmProxyConfig, Error, get_rules,
}
use istio_llm_filter.Config.Route.{is_empty}

-- `len(tuple.TargetModel.Headers)`, where the pointer is not nil.
abbrev pub headers_len : Store → Tuple → ℕ
headers_len store t = elim (get_elem? store t.target_model) [ none ↦ 0 | some r ↦ length r.headers ]

abbrev pub is_live : Store → Tuple → Bool
is_live store t = elim (get_elem? store t.target_model) [ none ↦ false | some r ↦ true ]

-- The `less` of `SortTuples`: more headers first.
abbrev pub more_headers : Store → Tuple → Tuple → Bool
more_headers store s t = ltb (headers_len store t) (headers_len store s)

abbrev pub to_tuple : RulePtr → Tuple
to_tuple p = record { target_model = p }

module _ (S : Sorting) (store : Store) where
  -- `SortTuples`. With two tuples or more each one is compared, and a nil pointer panics.
  unfoldable pub sort_tuples : List Tuple → Result Error (List Tuple)
  sort_tuples tuples =
      if leb (length tuples) 1 || all (is_live store) tuples
      then ok (S.sort (more_headers store) tuples)
      else panic

  -- `buildModelMappings`: the loop over the map, with the mappings built so far.
  unfoldable pub build_model_mappings :
      Dict (Option Rules) → Dict Mapping → Result Error (Dict Mapping)
  build_model_mappings [] mappings = ok mappings
  build_model_mappings ((model, r) ∷ models) mappings =
      let skip = build_model_mappings models mappings in
      let keep = sort_tuples (map to_tuple (get_rules r)) >>= λ tuples.
      build_model_mappings models (insert model (record { tuples = tuples }) mappings) in
      if is_empty (get_rules r) then skip else keep

  -- `Init`
  unfoldable pub init : LlmProxyConfig → Result Error LlmProxyConfig
  init c =
      let with_lb = λ (d : LlmProxyConfig).
        if is_empty d.lb_mapping_rule
        then d
        else record d { lb_mapping_configs = d.lb_mapping_rule } in
      if is_empty c.model_mapping_rule then ok (with_lb c) else do
        mappings ← build_model_mappings c.model_mapping_rule []
        ok (with_lb (record c { model_mappings = mappings }))
