-- ===== src/OpenAi/Nulls/Tests.antt =====
-- A configuration with a null header that is accepted, and a request that it makes crash.
use istio_llm_filter.Common.{◌≡◌, refl, true, [], ◌∷◌, ok, panic}
use istio_llm_filter.Common.Sort.{by_insertion}
use istio_llm_filter.Config.Route.{get_model_mappings}
use istio_llm_filter.Common.Int.{pos}
use istio_llm_filter.Config.Tests.{
  config, ready, null_rule, null_store, init_null, parsed_null, ready_protocol,
}
use istio_llm_filter.FilterConfig.{Unmarshal, parse_config, factory}
use istio_llm_filter.FilterConfig.Tests.{braces}
use istio_llm_filter.Filter.{State, Transcoder}
use istio_llm_filter.Filter.Request.{decode_data}
use istio_llm_filter.Filter.Tests.{env}
use istio_llm_filter.Metadata.Queue.{new_async_queue}
use istio_llm_filter.OpenAi.{open_ai}
use istio_llm_filter.OpenAi.Nulls.{decode_data_null}
use istio_llm_filter.OpenAi.Tests.{codec, request}

-- The decoder of a document with these rules.
abbrev decode_null : Unmarshal
decode_null bytes = ok (config, null_store)

null_accepted : parse_config by_insertion decode_null braces ≡ ok (ready, null_store)
unfolding parse_config
null_accepted = rw (init_null, parsed_null) refl

abbrev transcoder : Transcoder
transcoder = open_ai codec null_store ready

abbrev fresh_filter : State transcoder
fresh_filter = (
  factory transcoder,
  record {
    center = record { host_env = "center"; queue = new_async_queue 4 1 (pos 5) };
    replies = [];
  },
)

rules_run :
    get_model_mappings ready.model_mappings "m"
    ≡ record { target_model = 1 } ∷ record { target_model = 0 } ∷ []
unfolding get_model_mappings
rules_run = refl

decode_data_null_example : decode_data transcoder ready env braces true fresh_filter ≡ panic
decode_data_null_example =
    decode_data_null codec null_store ready env braces fresh_filter request []
      (record { target_model = 0 } ∷ []) (record { target_model = 1 }) null_rule [] []
      ready_protocol refl (λ e. cc e) (λ e. cc e) rules_run (λ t m. absurd m) (λ t m n. absurd n)
      refl refl refl
