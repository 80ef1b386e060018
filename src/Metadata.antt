-- ===== src/Metadata.antt =====
-- pkg/metadata: the client of the metadata center. `Queue` is async_queue.go; here are the operations
-- of client.go that write to it. `Client` is its HTTP exchange, `Environment` its settings.
pub mod Queue
pub mod Environment
pub mod Settings
pub mod Client
mod Tests
use istio_llm_filter.Common.{
  ℕ, String, Bool, not, Option, none, some, List, [], if◌then◌else◌, str_eq,
}
use istio_llm_filter.Common.Int.{pos}
use istio_llm_filter.Metadata.Queue.{Task, Body, AsyncQueue, Error, dispatch}

abbrev pub load_stats_path : String
load_stats_path = "/v1/load/stats"

abbrev pub load_prompt_path : String
load_prompt_path = "/v1/load/prompt"

abbrev pub cache_save_path : String
cache_save_path = "/v1/cache/save"

-- The process's view of the metadata center: `METADATA_CENTER_HOST`, read once, and the client's
-- queue.
pub record Center : Type 0 where
  pub host_env : String
  pub queue : AsyncQueue

-- `IsEnabled` and `IsCacheEnabled`
abbrev pub is_enabled : Center → Bool
is_enabled c = not (str_eq c.host_env "")

abbrev pub is_cache_enabled : Center → Bool
is_cache_enabled c = is_enabled c

-- `GetClientOrNoop`: a disabled center accepts every write and does nothing.
abbrev pub send : Task → Center → Center × Option Error
send task c =
    if is_enabled c
    then (let (q, e) = dispatch task c.queue in (record c { queue = q }, e))
    else (c, none)

-- `(*Client).AddRequest`; `now` is the time stamp.
unfoldable pub add_request :
    String → String → String → String → ℕ → ℕ → Center → Center × Option Error
add_request trace_id request_id cluster ip prompt_length now = send (record {
  hash_key = cluster;
  method = "POST";
  url = load_stats_path;
  body = Body.inference request_id cluster ip prompt_length now;
  trace_id = trace_id;
  timeout = pos 0;
})

-- `(*Client).DeleteRequest`
unfoldable pub delete_request : String → String → Center → Center × Option Error
delete_request trace_id request_id = send (record {
  hash_key = "";
  method = "DELETE";
  url = load_stats_path;
  body = Body.inference request_id "" "" 0 0;
  trace_id = trace_id;
  timeout = pos 0;
})

-- `(*Client).DeleteRequestPrompt`
unfoldable pub delete_request_prompt : String → String → Center → Center × Option Error
delete_request_prompt trace_id request_id = send (record {
  hash_key = "";
  method = "DELETE";
  url = load_prompt_path;
  body = Body.inference request_id "" "" 0 0;
  trace_id = trace_id;
  timeout = pos 0;
})

-- `(*Client).SaveKVCache`
unfoldable pub save_kv_cache : String → String → String → List ℕ → Center → Center × Option Error
save_kv_cache trace_id cluster ip prompt_hash = send (record {
  hash_key = cluster;
  method = "POST";
  url = cache_save_path;
  body = Body.cache_save cluster ip prompt_hash;
  trace_id = trace_id;
  timeout = pos 0;
})
