-- ===== src/Metadata/Tests.antt =====
-- Runs of the task queue, and the theorem at them.
use istio_llm_filter.Common.{ℕ, ◌≡◌, ◌≤◌, refl, List, [], ◌∷◌, ◌++◌, length}
use istio_llm_filter.Common.{false, map}
use istio_llm_filter.Common.Int.{pos}
use istio_llm_filter.Metadata.Environment.{Env, get_env_int, atoi, natural, digits}
use istio_llm_filter.Metadata.Settings.{
  Setting, enabled, cache_enabled, fetch_metric_timeout, switch, timeout, initial, read, answers,
}
use istio_llm_filter.Metadata.Settings.Frozen.{stated, first_env, answers_frozen}
use istio_llm_filter.Metadata.Queue.{
  Task, Body, Event, sent, received, run, accepted, new_async_queue, dispatch, receive, step,
  receive_from, with_timeout,
}
use istio_llm_filter.Metadata.Queue.Order.{run-new_async_queue_fifo}
use istio_llm_filter.Common.{◌+◌, ◌⊎◌, none, true}
use istio_llm_filter.Metadata.Queue.Workers.{
  Pool, stopped, new_pool, close, send, Step, buffered, received, processed, ended, closing, Reach,
  here, next,
}
use istio_llm_filter.Metadata.Queue.Workers.Kept.{in_flight}
use istio_llm_filter.Metadata.Queue.Workers.InOrder.{one_worker_in_order, two_workers_overtake}
use istio_llm_filter.Metadata.Queue.Workers.Drain.{
  Steps, none_yet, one_more, steps_left, IsDone, close_drains,
}

abbrev a_task : ℕ → Task
a_task n = record {
  hash_key = "";
  method = "POST";
  url = "/v1/load/stats";
  body = Body.inference "r" "c" "1.2.3.4" n 0;
  trace_id = "t";
  timeout = pos 0;
}

-- One worker and room for one task: the third send finds the queue full.
abbrev history : List Event
history = sent (a_task 1) ∷ sent (a_task 2) ∷ received ∷ sent (a_task 3) ∷ []

run-history : length (run history (new_async_queue 1 1 (pos 5))).taken ≡ 1
unfolding run step dispatch receive receive_from new_async_queue
run-history = refl

accepted-history :
    accepted history (new_async_queue 1 1 (pos 5))
    ≡ with_timeout (pos 5) (a_task 1) ∷ with_timeout (pos 5) (a_task 3) ∷ []
unfolding accepted step dispatch receive receive_from new_async_queue
accepted-history = refl

run-new_async_queue_fifo_example :
    ((run history (new_async_queue 1 1 (pos 5))).taken
        ++ (run history (new_async_queue 1 1 (pos 5))).task_chan
      ≡ accepted history (new_async_queue 1 1 (pos 5)))
    × (length (run history (new_async_queue 1 1 (pos 5))).task_chan ≤ 1)
run-new_async_queue_fifo_example = run-new_async_queue_fifo 1 1 (pos 5) history

-- A worker that has not started yet, a task in the buffer, and then `Close`.
abbrev buffering : Pool
buffering = record (new_pool 1 1 (pos 5)) {
  queue = record (new_async_queue 1 1 (pos 5)) { task_chan = with_timeout (pos 5) (a_task 1) ∷ [] };
}

abbrev shut_pool : Pool
shut_pool = record buffering {
  closed = true;
  queue = record buffering.queue { waiting = 0; busy = 1 };
}

abbrev drained_pool : Pool
drained_pool = record shut_pool {
  handled = with_timeout (pos 5) (a_task 1) ∷ [];
  workers = stopped ∷ [];
  queue = record shut_pool.queue {
    task_chan = [];
    taken = with_timeout (pos 5) (a_task 1) ∷ [];
    busy = 0;
  };
}

reach_buffering : Reach (new_pool 1 1 (pos 5)) buffering
unfolding new_pool send dispatch new_async_queue
reach_buffering = next here (buffered (a_task 1) _ none refl refl)

reach_shut : Reach (new_pool 1 1 (pos 5)) shut_pool
unfolding close new_pool new_async_queue
reach_shut = next reach_buffering (closing _ refl)

three-Steps : Steps shut_pool 3 drained_pool
unfolding receive receive_from new_pool new_async_queue
three-Steps =
    one_more
      (one_more (one_more none_yet (received (with_timeout (pos 5) (a_task 1)) [] [] [] refl refl))
        (processed (with_timeout (pos 5) (a_task 1)) [] [] refl))
      (ended [] [] refl refl refl)

close_drains_example :
    (3 + steps_left drained_pool ≡ steps_left shut_pool)
    × (IsDone drained_pool ⊎ ((p : Pool) × Step drained_pool p))
close_drains_example =
    close_drains 1 0 (pos 5) 3 shut_pool drained_pool reach_shut closed_now three-Steps
  where
    closed_now : shut_pool.closed ≡ true
    closed_now = refl

one_worker_in_order_example :
    (current : List Task) × (length current ≤ 1)
    × (buffering.handled ++ current ≡ buffering.queue.taken)
one_worker_in_order_example = one_worker_in_order 1 (pos 5) buffering reach_buffering

two_workers_overtake_example :
    (p : Pool) × Reach (new_pool 4 2 (pos 5)) p
    × (p.queue.taken ≡ with_timeout (pos 5) (a_task 1) ∷ with_timeout (pos 5) (a_task 2) ∷ [])
    × (p.handled ≡ with_timeout (pos 5) (a_task 2) ∷ [])
    × (in_flight p.workers ≡ with_timeout (pos 5) (a_task 1) ∷ [])
two_workers_overtake_example = two_workers_overtake 4 (pos 5) (a_task 1) (a_task 2)

-- The host is set after the first question for the cache, and the center stays disabled.
abbrev no_host : Env
no_host key = ""

abbrev any_host : Env
any_host key = "7"

abbrev reads : List (Setting × Env)
reads =
    (cache_enabled, no_host)
    ∷ (enabled, any_host)
    ∷ (fetch_metric_timeout, any_host)
    ∷ (fetch_metric_timeout, no_host)
    ∷ []

answers_run :
    answers reads initial ≡ switch false ∷ switch false ∷ timeout (pos 7) ∷ timeout (pos 7) ∷ []
unfolding answers read get_env_int atoi natural digits
answers_run = refl

answers_frozen_example : answers reads initial ≡ map (λ e. stated (first_env e.0 reads) e.0) reads
answers_frozen_example = answers_frozen reads
