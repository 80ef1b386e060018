-- ===== src/Filter/Tests.antt =====
-- A filter with a small transcoder in the place of the OpenAI one, and the theorems at it.
use istio_llm_filter.Common.{
  ℕ, ◌≤◌, ◌≡◌, ◌⊎◌, refl, inr, String, true, false, Option, none, some, List, [], ◌∷◌, ok,
}
use istio_llm_filter.Common.Sort.{by_insertion}
use istio_llm_filter.Types.Request.{RequestData}
use istio_llm_filter.Config.{LlmProxyConfig}
use istio_llm_filter.Common.Int.{pos}
use istio_llm_filter.Metadata.Queue.{new_async_queue}
use istio_llm_filter.Common.Int.{pos}
use istio_llm_filter.Metadata.Queue.Order.{new_async_queue-IsValid}
use istio_llm_filter.Types.Response.{Message, text}
use istio_llm_filter.Filter.{Transcoder, Filter, World, State, Headers, Status, stop_and_buffer}
use istio_llm_filter.Filter.Accounting.{
  Event, timer, token, finished, elsewhere, sent_over, prompt_length_deleted_once,
}
use istio_llm_filter.Filter.Ledger.Runs as Runs
use istio_llm_filter.Filter.Ledger.Runs.{Kept, run_follows}
use istio_llm_filter.Filter.Lifecycle.{Reach, here, next, headers_in, timer as fires}
use istio_llm_filter.Filter.Lifecycle.Keeps.{AllCoherent}
use istio_llm_filter.Filter.Lifecycle.Always.{Reach-unique_id, Reach-AllCoherent}
use istio_llm_filter.Filter.Prompt.{timer_fired}
use istio_llm_filter.Filter.Response.{encode_data}
use istio_llm_filter.Filter.Laws.{encode_data_drops, IsRefused, process_request-Refuses}
use istio_llm_filter.Filter.Request.{Env, process_request, decode_headers}
use istio_llm_filter.LoadBalancer.Tests.{small_doubles}
use istio_llm_filter.Hash.Tests.{keep_bytes}
use istio_llm_filter.Common.Int.{pos}
use istio_llm_filter.Metadata.Queue as Queue

abbrev request : RequestData
request = record {
  model_name = "m";
  scene_name = "s";
  env = "";
  cluster = "c";
  backend_protocol = "triton";
  lb_options = none;
  prompt_context = some (record { is_vl_model = false; prompt_content = 1 ∷ 2 ∷ [] });
}

-- It accepts each request, passes a chunk on, and takes an empty chunk for an error.
abbrev chunk_error : List ℕ → Option Message
chunk_error [] = some (text "invalid response")
chunk_error (b ∷ bs) = none

abbrev pub pass_through : Transcoder
pass_through = record {
  T = ℕ;
  fresh = 0;
  get_request_data = λ headers body t. (t, ok request);
  encode_request = λ model backend t. (t, inr (record { is_stream = true }));
  decode_headers = λ t. (t, none);
  get_response_data = λ bytes t. (t, some bytes, chunk_error bytes);
}

abbrev pub config : LlmProxyConfig
config = record {
  protocol = "openai";
  algorithm = "";
  model_mapping_rule = [];
  lb_mapping_rule = [];
  log = none;
  model_mappings = [];
  lb_mapping_configs = [];
}

abbrev pub no_headers : Headers
no_headers x = none

-- A streaming request that was sent and reported, before its first token.
abbrev streaming : Filter pass_through
streaming = record {
  transcoder = some 0;
  trace_id = "t";
  model_name = "m";
  cluster = "c";
  server_ip = "1.2.3.4";
  backend_protocol = "triton";
  is_stream = true;
  unique_id = "u";
  prompt_length = 2;
  prompt_hash = [];
  is_increase_recorded = true;
  is_prompt_length_deleted = false;
  timer_set = true;
  req_headers = no_headers;
  resp_header = none;
  drop_resp_data = false;
  send_finish_timestamp = 1;
  first_token_timestamp = 0;
  last_token_timestamp = 0;
}

abbrev pub world : World pass_through
world = record {
  center = record { host_env = "center"; queue = new_async_queue 4 1 (pos 5) };
  replies = [];
}

abbrev pub start : State pass_through
start = (streaming, world)

abbrev dropping : State pass_through
dropping = (record streaming { is_stream = false; drop_resp_data = true }, world)

abbrev pub one_digit : ℕ → String
one_digit n = "1"

abbrev events : List Event
events = elsewhere Queue.received ∷ timer ∷ token 3 ∷ finished ∷ []

prompt_length_deleted_once_example :
    (sent_over pass_through config "u" events start ≤ 1)
    × (start.0.is_prompt_length_deleted ≡ true → sent_over pass_through config "u" events start ≡ 0)
    × (start.0.is_increase_recorded ≡ false → sent_over pass_through config "u" events start ≡ 0)
prompt_length_deleted_once_example = prompt_length_deleted_once pass_through config "u" events start

encode_data_drops_example :
    (s' : State pass_through) × (out : List ℕ) × (status : Status) × (encode_data pass_through
        config "" one_digit "u" 9
        (1 ∷ [])
        true
        dropping
      ≡ ok (s', out, status))
    × ((out ≡ []) ⊎ (status ≡ stop_and_buffer))
    × (s'.0.drop_resp_data ≡ true)
    × (s'.0.is_stream ≡ false)
encode_data_drops_example =
    encode_data_drops pass_through config "u" "" one_digit 9 (1 ∷ []) true dropping refl refl

abbrev pub env : Env
env = record {
  hasher = keep_bytes;
  doubles = small_doubles;
  sorting = by_insertion;
  queries = record {
    query_load = λ cluster. none;
    query_kv_cache = λ cluster hashes top_k. none;
    is_enabled = true;
    is_cache_enabled = true;
  };
  intn = λ n. 0;
  uuid = "u";
  now = 1;
}

process_request-Refuses_example :
    (x : State pass_through × Status) × (process_request pass_through config env (1 ∷ 2 ∷ []) start
      ≡ ok x)
    × IsRefused pass_through config env start x
process_request-Refuses_example =
    process_request-Refuses pass_through config env (1 ∷ 2 ∷ []) start (λ h. cc h)

-- Request headers without a body, which are refused, and then the timer.
abbrev timed : State pass_through
timed =
    timer_fired pass_through config "u"
      (decode_headers pass_through config env no_headers true start).0

abbrev refused_then_timed : Reach pass_through config env "" one_digit start timed
refused_then_timed = next (next here (headers_in no_headers true)) (fires "u")

Reach-unique_id_example : timed.0.unique_id ≡ "u"
Reach-unique_id_example =
    Reach-unique_id pass_through config env "" one_digit start timed refused_then_timed (λ h. cc h)

Reach-AllCoherent_example : AllCoherent timed.1.replies
Reach-AllCoherent_example =
    Reach-AllCoherent pass_through config env "" one_digit start timed refused_then_timed tt

-- The filter before the request is sent, and its life beside a worker of the queue.
abbrev unsent : State pass_through
unsent =
    (record streaming { unique_id = ""; is_increase_recorded = false; timer_set = false }, world)

abbrev life : List Runs.Event
life =
    Runs.requested 1
    ∷ Runs.elsewhere Queue.received
    ∷ Runs.token 3
    ∷ Runs.timer
    ∷ Runs.elsewhere Queue.received
    ∷ Runs.finished
    ∷ Runs.answered
    ∷ Runs.destroyed
    ∷ []

run_follows_example : Kept pass_through config 1 "u" life unsent
run_follows_example =
    run_follows pass_through config 1 "u" life unsent
      (record { on = refl; valid = new_async_queue-IsValid 4 1 (pos 5) })
