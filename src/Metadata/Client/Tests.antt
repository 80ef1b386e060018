-- ===== src/Metadata/Client/Tests.antt =====
-- Environments and a transport that answers all requests alike, and the theorems at them.
use istio_llm_filter.Common.{
  ◌-◌, ◌<◌, ◌≤◌, ◌≡◌, ◌↔◌, refl, inr, String, Option, none, some, List, [], ◌∷◌, map, ok, panic,
  suc, codes, arith,
}
use istio_llm_filter.Common.Sort.{Member}
use istio_llm_filter.Common.Int.{ℤ, pos, negsuc}
use istio_llm_filter.Metadata.Queue.Order.{IsValid}
use istio_llm_filter.Metadata.Environment.{
  Env, get_env_int, get_env_duration, int_limit, minus, milliseconds, residue, signed, word, atoi,
  natural, digits,
}
use istio_llm_filter.Metadata.Environment.Duration.{IsWrapped, get_env_duration-decimal}
use istio_llm_filter.Metadata.Environment.Decimal.{decimal, print_digits, get_env_int-decimal}
use istio_llm_filter.Metadata.Client.{
  Client, Transport, HttpResponse, EngineStats, LocationResponse, started, new_client, http_request,
  do_request, outcome, load_param, cache_param, query_kv_cache,
}
use istio_llm_filter.Metadata.Client.Answers.{do_request_iff, query_kv_cache_lem, location_of}
use istio_llm_filter.Metadata.Client.Startup.{new_client_queue, queue_variable, workers}
use istio_llm_filter.Common.{◌≢◌, ℕ}
use istio_llm_filter.Metadata.Client.Singleton

abbrev forty_two : Env
forty_two key = "42"

abbrev no_duration : String → Option ℤ
no_duration s = none

read_run : get_env_int forty_two queue_variable (pos 7) ≡ pos 42
unfolding get_env_int atoi natural digits
read_run = refl

out_of_range : atoi (codes "9223372036854775808") ≡ none
unfolding atoi natural digits
out_of_range = refl

get_env_int-decimal_example :
    (codes "42" ≡ decimal 42
      → 42 < int_limit
      → get_env_int forty_two queue_variable (pos 7) ≡ pos 42)
    × (codes "42" ≡ b'-' ∷ decimal 42
        → 42 ≤ int_limit
        → get_env_int forty_two queue_variable (pos 7) ≡ minus 42)
get_env_int-decimal_example = get_env_int-decimal forty_two queue_variable (pos 7) 42

forty_two-decimal : codes (forty_two queue_variable) ≡ decimal 42
unfolding decimal print_digits
forty_two-decimal = refl

get_env_duration-decimal_example :
    (42 < int_limit → IsWrapped 42 (get_env_duration no_duration forty_two queue_variable (pos 7)))
    × (int_limit ≤ 42 → get_env_duration no_duration forty_two queue_variable (pos 7) ≡ pos 7)
get_env_duration-decimal_example =
    get_env_duration-decimal no_duration forty_two queue_variable (pos 7) 42 forty_two-decimal refl

-- Ten to the thirteenth milliseconds are a negative duration.
overflow_run : milliseconds (pos 10000000000000) ≡ negsuc (word - 1 - 10000000000000000000)
unfolding milliseconds residue signed
overflow_run = refl

new_client_queue_example :
    (codes (forty_two queue_variable) ≡ decimal 42
      → 42 ≤ 1000
      → (c : Client) × (new_client 1000 no_duration forty_two ≡ ok c)
        × (c.async_queue.queue_size ≡ 42)
        × IsValid (workers forty_two) c.async_queue)
    × (codes (forty_two queue_variable) ≡ decimal 42
        → 1000 < 42
        → new_client 1000 no_duration forty_two ≡ panic)
    × (codes (forty_two queue_variable) ≡ b'-' ∷ decimal (suc 42)
        → new_client 1000 no_duration forty_two ≡ panic)
new_client_queue_example = new_client_queue 1000 no_duration forty_two 42 (omega arith)

abbrev engine : EngineStats
engine = record {
  ip = "1.2.3.4";
  queued_req_num = pos 3;
  prompt_length = negsuc 4;
  updated_time = pos 0;
}

abbrev location : LocationResponse
location = record { ip = "1.2.3.4"; length = pos 2 }

abbrev transport : Transport
transport = record {
  new_request = λ r. none;
  exchange = λ r. inr (record { status_code = 200; body = inr (1 ∷ []) });
  unmarshal_load = λ bytes. inr (engine ∷ []);
  unmarshal_locations = λ bytes. inr (some location ∷ []);
}

abbrev client : Client
client = started no_duration forty_two 42

answered :
    do_request transport client (cache_param transport client forty_two [] "c" (5 ∷ []) 1)
    ≡ inr (1 ∷ [])
unfolding do_request outcome
answered = refl

do_request_iff_example :
    (do_request transport client (load_param transport client forty_two [] "c") ≡ inr (1 ∷ [])) ↔ (
      (resp : HttpResponse) × (transport.new_request
          (http_request client (load_param transport client forty_two [] "c"))
        ≡ none)
      × (transport.exchange (http_request client (load_param transport client forty_two [] "c"))
          ≡ inr resp)
      × (resp.status_code ≡ 200)
      × (resp.body ≡ inr (1 ∷ [])))
do_request_iff_example =
    do_request_iff transport client (load_param transport client forty_two [] "c") (1 ∷ [])

query_kv_cache_lem_example :
    (Member none (some location ∷ [])
      → query_kv_cache transport client forty_two [] "c" (5 ∷ []) 1 ≡ panic)
    × ((ls : List LocationResponse)
        → some location ∷ [] ≡ map some ls
        → query_kv_cache transport client forty_two [] "c" (5 ∷ []) 1 ≡ ok (map location_of ls))
query_kv_cache_lem_example =
    query_kv_cache_lem transport client forty_two [] "c" (5 ∷ []) 1 (1 ∷ []) (some location ∷ [])
      answered refl

client_made : new_client 1000 no_duration forty_two ≡ ok client
unfolding new_client get_env_int atoi natural digits
client_made = refl

abbrev both_called :
    (s : Singleton.System) × Singleton.Reach 1000 no_duration forty_two s
    × (s.pc 0 ≡ Singleton.returned (some 0))
    × (s.pc 1 ≡ Singleton.returned (some 0))
both_called = Singleton.two_calls 1000 no_duration forty_two client client_made

get_client_once_example :
    (both_called.0.mem.made ≡ 1)
    × (◌≡◌ {A = Option ℕ} (some 0) (some 0))
    × (◌≢◌ {A = Option ℕ} (some 0) none)
    × (both_called.0.mem.global ≡ some 0)
get_client_once_example =
    Singleton.get_client_once 1000 no_duration forty_two both_called.0 0 1 (some 0) (some 0)
      both_called.1 both_called.2 both_called.3
