-- ===== src/FilterConfig/Tests.antt =====
-- A decoder that gives one configuration for all bytes, and the theorem at it.
use istio_llm_filter.Common.{◌≡◌, ◌≢◌, refl, sym, ap, List, [], ◌∷◌, ℕ, Result, ok, err, panic}
use istio_llm_filter.Common.Sort.{by_insertion}
use istio_llm_filter.Config.{LlmProxyConfig, Store}
use istio_llm_filter.Config.Ready.{IsReady}
use istio_llm_filter.Config.Tests.{config, store, ready, defaulted_store, init-ready, parsed}
use istio_llm_filter.Types.Response.{Message}
use istio_llm_filter.FilterConfig.{Unmarshal, parse_config}
use istio_llm_filter.FilterConfig.Ready.{NamesNoMappings, parse_config-IsReady}

abbrev pub decode : Unmarshal
decode bytes = ok (config, store)

abbrev pub braces : List ℕ
braces = b'{' ∷ b'}' ∷ []

pub decode-NamesNoMappings : NamesNoMappings decode braces
decode-NamesNoMappings c s h unmapped = sym (
    ap
      (λ (r : Result Message (LlmProxyConfig × Store)). elim r [
        | ok p ↦ p.0.model_mappings
        | err e ↦ []
        | panic ↦ []
      ])
      h)

pub accepted : parse_config by_insertion decode braces ≡ ok (ready, defaulted_store)
unfolding parse_config
accepted = rw (init-ready, parsed) refl

parse_config-IsReady_example : IsReady defaulted_store ready × (braces ≢ [])
parse_config-IsReady_example =
    parse_config-IsReady by_insertion decode braces ready defaulted_store decode-NamesNoMappings
      accepted
