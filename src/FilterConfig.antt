-- ===== src/FilterConfig.antt =====
-- pkg/filter/config.go: how Envoy's configuration becomes the filter's. The JSON decoder of package
-- sonic is the parameter `unmarshal`. The field `MC`, which nothing reads, is left out.
pub mod Ready
pub mod Tests
use istio_llm_filter.Common.{
  ℕ, Bool, true, false, Option, none, some, List, [], ◌∷◌, Result, ok, err, panic, ◌>>=◌,
  if◌then◌else◌,
}
use istio_llm_filter.Common.Sort.{Sorting}
use istio_llm_filter.Config.{LlmProxyConfig, Store, Error, parse}
use istio_llm_filter.Config.Init.{init}
use istio_llm_filter.Config.Route.{is_empty}
use istio_llm_filter.Types.Response.{Message}
use istio_llm_filter.Filter.{Transcoder, Filter}

-- The error of `ConfigParser.Parse`: the decoder's, or that of `Init` or `Parse`.
pub data ConfigError : Type 0 where
  malformed : Message → ConfigError
  invalid : Error → ConfigError

abbrev pub map_err {ℓ} : {E F : Type 0} {A : Type ℓ} → (E → F) → Result E A → Result F A
map_err f (ok a) = ok a
map_err f (err e) = err (f e)
map_err f panic = panic

abbrev pub empty_config : LlmProxyConfig
empty_config = record {
  protocol = "";
  algorithm = "";
  model_mapping_rule = [];
  lb_mapping_rule = [];
  log = none;
  model_mappings = [];
  lb_mapping_configs = [];
}

-- `sonic.Unmarshal` into an empty configuration: the configuration, and the rules that it points to.
abbrev pub Unmarshal : Type 0
Unmarshal = List ℕ → Result Message (LlmProxyConfig × Store)

module _ (S : Sorting) (unmarshal : Unmarshal) where
  -- The decoding of `ConfigParser.Parse`; a configuration of no bytes is not decoded.
  abbrev pub decoded : List ℕ → Result ConfigError (LlmProxyConfig × Store)
  decoded bytes =
      if is_empty bytes then ok (empty_config, []) else map_err malformed (unmarshal bytes)

  -- `ConfigParser.Parse`
  unfoldable pub parse_config : List ℕ → Result ConfigError (LlmProxyConfig × Store)
  parse_config bytes = do
    (cfg, store) ← decoded bytes
    cfg' ← map_err invalid (init S store cfg)
    store' ← map_err invalid (parse cfg' store)
    ok (cfg', store')

-- `ConfigParser.Merge`
abbrev pub merge {ℓ} : {A : Type ℓ} → Option A → Option A → Option A
merge parent none = parent
merge parent (some child) = some child

-- `Factory`: the filter of a new request.
abbrev pub factory : (X : Transcoder) → Filter X
factory X = record {
  transcoder = none;
  trace_id = "";
  model_name = "";
  cluster = "";
  server_ip = "";
  backend_protocol = "";
  is_stream = false;
  unique_id = "";
  prompt_length = 0;
  prompt_hash = [];
  is_increase_recorded = false;
  is_prompt_length_deleted = false;
  timer_set = false;
  req_headers = λ name. none;
  resp_header = none;
  drop_resp_data = false;
  send_finish_timestamp = 0;
  first_token_timestamp = 0;
  last_token_timestamp = 0;
}
