-- ===== src/Metadata/Client.antt =====
-- The HTTP exchanges of pkg/metadata/client.go. The transport and the JSON decoder are parameters; a
-- request is kept as the fields that make it up. Timeouts are in nanoseconds.
pub mod Answers
pub mod Startup
pub mod Singleton
mod Tests
use istio_llm_filter.Common.{
  ℕ, ◌*◌, String, Bool, true, false, ltb, ◌||◌, ◌⊎◌, inl, inr, Option, none, some, List, [], ◌∷◌,
  Dict, insert, Result, ok, err, panic, ◌>>=◌, ◌==◌, if◌then◌else◌,
}
use istio_llm_filter.Common.Int.{ℤ, pos, negsuc, ltb_ℤ, pos_part}
use istio_llm_filter.Types.{EndpointStats, KvCacheLocation, Ctx, get_value_from_ctx, as_text}
use istio_llm_filter.Types.Response.{Message, text, wrap, format_status}
use istio_llm_filter.Metadata.Queue.{Body, Task, AsyncQueue, new_async_queue}
use istio_llm_filter.Metadata.Environment.{
  Env, get_env_string, get_env_int, get_env_duration, milliseconds,
}

abbrev pub cache_query_path : String
cache_query_path = "/v1/cache/query"

abbrev pub ctx_key_trace_id : String
ctx_key_trace_id = "metacenter.traceId"

pub record EngineStats : Type 0 where
  pub ip : String
  pub queued_req_num : ℤ
  pub prompt_length : ℤ
  pub updated_time : ℤ

pub record LocationResponse : Type 0 where
  pub ip : String
  pub length : ℤ

pub record RequestParam : Type 0 where
  pub trace_id : String
  pub hash_key : String
  pub method : String
  pub path : String
  pub query : Dict String
  pub body : Option Body
  pub timeout : ℤ

-- `Client`
pub record Client : Type 0 where
  pub async_queue : AsyncQueue
  pub host : String
  pub port : ℤ
  pub failover_retry : ℤ

-- The request that `doRequest` builds: its URL by parts, and the content type where it has a body.
pub record HttpRequest : Type 0 where
  pub method : String
  pub host : String
  pub port : ℤ
  pub path : String
  pub query : Dict String
  pub body : Option Body
  pub content_type : Option String
  pub trace_id : String
  pub timeout : ℤ

-- A response, with its body or the error of reading it.
pub record HttpResponse : Type 0 where
  pub status_code : ℕ
  pub body : Message ⊎ List ℕ

-- What net/http does with a request: why it cannot be made, and the exchange; and `json.Unmarshal` at
-- the two types of responses. A location may be null.
pub record Transport : Type 0 where
  pub new_request : HttpRequest → Option Message
  pub exchange : HttpRequest → Message ⊎ HttpResponse
  pub unmarshal_load : List ℕ → Message ⊎ List EngineStats
  pub unmarshal_locations : List ℕ → Message ⊎ List (Option LocationResponse)

-- The client that `NewClient` makes with a queue of the given size. No worker is started for a negative
-- number of workers. The settings of the dialer are left to the transport.
abbrev pub started : (String → Option ℤ) → Env → ℕ → Client
started parse_duration env queue_size = record {
  async_queue =
      new_async_queue queue_size
        (pos_part (get_env_int env "METADATA_CENTER_WORKER_COUNT" (pos 100)))
        (get_env_duration parse_duration env "METADATA_CENTER_UPDATE_STATS_TIMEOUT"
          (pos 100000000));
  host = get_env_string env "METADATA_CENTER_HOST" "localhost";
  port = get_env_int env "METADATA_CENTER_PORT" (pos 80);
  failover_retry = get_env_int env "METADATA_CENTER_MAX_FAILOVER_RETRY" (pos 1);
}

-- `NewClient`: `make` panics on a channel of negative size, and of one whose buffer the runtime cannot
-- address; `chan_limit` is the largest number of pointers that it can.
unfoldable pub new_client : ℕ → (String → Option ℤ) → Env → Result Message Client
new_client chan_limit parse_duration env =
    let queue_size = get_env_int env "METADATA_CENTER_QUEUE_SIZE" (pos 1000) in
    if ltb_ℤ queue_size (pos 0) || ltb chan_limit (pos_part queue_size)
    then panic
    else ok (started parse_duration env (pos_part queue_size))

abbrev pub json_type : Option Body → Option String
json_type none = none
json_type (some body) = some "application/json"

abbrev pub http_request : Client → RequestParam → HttpRequest
http_request c param = record {
  method = param.method;
  host = c.host;
  port = c.port;
  path = param.path;
  query = param.query;
  body = param.body;
  content_type = json_type param.body;
  trace_id = param.trace_id;
  timeout = param.timeout;
}

-- `doRequest` from the response on, by the result of reading its body.
abbrev pub read_response : ℕ → Message ⊎ List ℕ → Message ⊎ List ℕ
read_response status (inl e) = inl (wrap "read response body failed: %w" e)
read_response status (inr body) =
    if status == 200
    then inr body
    else inl (format_status "unexpected status code %v, body: %s" status body)

-- `doRequest` by why the request cannot be made, and by what the exchange gives if it can.
unfoldable pub outcome : Option Message → Message ⊎ HttpResponse → Message ⊎ List ℕ
outcome (some e) answer = inl (wrap "create request failed: %w" e)
outcome none (inl e) = inl (wrap "http request failed: %w" e)
outcome none (inr resp) = read_response resp.status_code resp.body

-- The loop of `QueryLoad`: a negative length counts as 0, and a later engine of an address replaces
-- an earlier one.
abbrev pub endpoint_of : EngineStats → EndpointStats
endpoint_of engine = record {
  prefill_reqs = pos 0;
  total_reqs = engine.queued_req_num;
  prompt_length = if ltb_ℤ engine.prompt_length (pos 0) then pos 0 else engine.prompt_length;
}

unfoldable pub load_loop : List EngineStats → Dict EndpointStats → Dict EndpointStats
load_loop [] stats = stats
load_loop (engine ∷ engines) stats = load_loop engines (insert engine.ip (endpoint_of engine) stats)

-- The loop of `QueryKVCache`, which reads through pointers that may be nil.
unfoldable pub locations_loop :
    List (Option LocationResponse) → Result Message (List KvCacheLocation)
locations_loop [] = ok []
locations_loop (none ∷ items) = panic
locations_loop (some item ∷ items) = do
  rest ← locations_loop items
  ok (record { ip = item.ip; length = item.length } ∷ rest)

-- `QueryLoad` from the decoded response on, and from the answer of `doRequest` on.
abbrev pub load_of : Message ⊎ List EngineStats → Message ⊎ Dict EndpointStats
load_of (inl e) = inl e
load_of (inr engines) = inr (load_loop engines [])

abbrev pub load_answer : Transport → Message ⊎ List ℕ → Message ⊎ Dict EndpointStats
load_answer T (inl e) = inl (wrap "failed to query load: %v" e)
load_answer T (inr body) = load_of (T.unmarshal_load body)

-- `QueryKVCache` likewise. No location at all is no error.
abbrev pub locations_of :
    Message ⊎ List (Option LocationResponse) → Result Message (List KvCacheLocation)
locations_of (inl e) = err (wrap "parse cache response error: %s" e)
locations_of (inr items) = locations_loop items

abbrev pub cache_answer : Transport → Message ⊎ List ℕ → Result Message (List KvCacheLocation)
cache_answer T (inl e) = err (wrap "failed to query cache: %v" e)
cache_answer T (inr body) = locations_of (T.unmarshal_locations body)

module _ (T : Transport) (c : Client) where
  -- `doRequest`
  unfoldable pub do_request : RequestParam → Message ⊎ List ℕ
  do_request param =
      outcome (T.new_request (http_request c param)) (T.exchange (http_request c param))

  abbrev pub load_param : Env → Ctx → String → RequestParam
  load_param env ctx cluster = record {
    trace_id = get_value_from_ctx as_text ctx ctx_key_trace_id "";
    hash_key = cluster;
    method = "GET";
    path = "/v1/load/stats";
    query = ("cluster", cluster) ∷ [];
    body = none;
    timeout = milliseconds (get_env_int env "METADATA_CENTER_FETCH_METRIC_TIMEOUT" (pos 100));
  }

  -- `QueryLoad`
  unfoldable pub query_load : Env → Ctx → String → Message ⊎ Dict EndpointStats
  query_load env ctx cluster = load_answer T (do_request (load_param env ctx cluster))

  abbrev pub cache_param : Env → Ctx → String → List ℕ → ℕ → RequestParam
  cache_param env ctx cluster prompt_hash top_k = record {
    trace_id = get_value_from_ctx as_text ctx ctx_key_trace_id "";
    hash_key = cluster;
    method = "POST";
    path = cache_query_path;
    query = [];
    body = some (Body.cache_query cluster prompt_hash top_k);
    timeout = milliseconds (get_env_int env "METADATA_CENTER_FETCH_CACHE_TIMEOUT" (pos 100));
  }

  -- `QueryKVCache`
  unfoldable pub query_kv_cache :
      Env → Ctx → String → List ℕ → ℕ → Result Message (List KvCacheLocation)
  query_kv_cache env ctx cluster prompt_hash top_k =
      cache_answer T (do_request (cache_param env ctx cluster prompt_hash top_k))

  -- `HandleRequest`: the error, if there is one.
  unfoldable pub handle_request : Task → Option Message
  handle_request task =
      elim (do_request (record {
        trace_id = task.trace_id;
        hash_key = task.hash_key;
        method = task.method;
        path = task.url;
        query = [];
        body = some task.body;
        timeout = task.timeout;
      })) [ inl e ↦ some e | inr body ↦ none ]

-- The queries of `noopClient`, which takes the place of a disabled center.
abbrev pub noop_query_load : Ctx → String → Message ⊎ Dict EndpointStats
noop_query_load ctx cluster = inl (text "metadata center disabled")

abbrev pub noop_query_kv_cache : Ctx → String → List ℕ → ℕ → Result Message (List KvCacheLocation)
noop_query_kv_cache ctx cluster prompt_hash top_k = err (text "metadata center disabled")
