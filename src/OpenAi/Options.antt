-- ===== src/OpenAi/Options.antt =====
-- `buildLbOptions` of pkg/transcoder/openai/transcoder.go.
pub mod Laws
use istio_llm_filter.Common.{
  String, Option, none, some, List, [], ◌∷◌, Dict, Result, ok, panic, ◌>>=◌, insert, str_eq,
  if◌then◌else◌,
}
use istio_llm_filter.Config.{HeaderValue, Subset, Rule}
use istio_llm_filter.Types.Request.{LbOptions}
use istio_llm_filter.Types.Response.{Message}

-- The loop over the headers of the rule. `h.Key` of a nil header panics.
unfoldable pub put_headers : List (Option HeaderValue) → Dict String → Result Message (Dict String)
put_headers [] m = ok m
put_headers (none ∷ hs) m = panic
put_headers (some h ∷ hs) m = put_headers hs (insert h.key h.value m)

-- The inner loop over the labels of a subset.
unfoldable pub put_labels : Dict String → Dict String → Dict String
put_labels [] m = m
put_labels ((k, v) ∷ labels) m = put_labels labels (insert k v m)

-- The loop over the subsets. `s.Lora` of a nil subset panics.
unfoldable pub put_subsets : List (Option Subset) → LbOptions → Result Message LbOptions
put_subsets [] opts = ok opts
put_subsets (none ∷ ss) opts = panic
put_subsets (some s ∷ ss) opts = put_subsets ss (record opts {
  lora_id = if str_eq s.lora "" then opts.lora_id else s.lora;
  selector = put_labels s.labels opts.selector;
})

-- `buildLbOptions`; a nil map reads as an empty one.
unfoldable pub build_lb_options : Option Rule → Result Message (Option LbOptions)
build_lb_options none = ok none
build_lb_options (some rule) = do
  headers ← put_headers rule.headers []
  opts ←
      put_subsets rule.subset
        (record { route_name = rule.route_name; lora_id = ""; headers = headers; selector = [] })
  ok (some opts)
