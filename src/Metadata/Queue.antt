-- ===== src/Metadata/Queue.antt =====
-- pkg/metadata/async_queue.go: a buffered channel and the workers that receive from it. A task's body
-- is kept as the value that is marshalled: `json.Marshal` cannot fail on these types.
pub mod Order
pub mod Workers
use istio_llm_filter.Common.{
  ℕ, zero, suc, ◌+◌, ◌-◌, ◌≤◌, ◌<◌, ◌≡◌, refl, ap, ◌∙◌, String, Bool, true, false, Option, none,
  some, List, [], ◌∷◌, ◌++◌, length, ltb, ◌==◌, if◌then◌else◌, arith, Bool-cases, inl, inr,
  length-append,
}
use mathlib.Core.List.{append_assoc, append-nil}
use istio_llm_filter.Common.Int.{ℤ, pos, negsuc}

pub data Body : Type 0 where
  -- request id, cluster, ip, prompt length, time stamp
  inference : String → String → String → ℕ → ℕ → Body
  -- cluster, ip, prompt hash
  cache_save : String → String → List ℕ → Body
  -- cluster, prompt hash, top k
  cache_query : String → List ℕ → ℕ → Body

pub record Task : Type 0 where
  pub hash_key : String
  pub method : String
  pub url : String
  pub body : Body
  pub trace_id : String
  pub timeout : ℤ

pub data Error : Type 0 where
  queue_full : Error

-- The channel with its buffer, the workers that wait in a receive and those that process a task,
-- and all tasks that were handed to a worker so far, the oldest first.
pub record AsyncQueue : Type 0 where
  pub task_chan : List Task
  pub queue_size : ℕ
  pub default_timeout : ℤ
  pub waiting : ℕ
  pub busy : ℕ
  pub taken : List Task

-- `NewAsyncQueue`: every worker is about to receive for the first time.
unfoldable pub new_async_queue : ℕ → ℕ → ℤ → AsyncQueue
new_async_queue queue_size worker_count default_timeout = record {
  task_chan = [];
  queue_size = queue_size;
  default_timeout = default_timeout;
  waiting = 0;
  busy = worker_count;
  taken = [];
}

-- A `time.Duration` in nanoseconds, which may be negative.
abbrev pub is_zero : ℤ → Bool
is_zero (pos n) = n == 0
is_zero (negsuc n) = false

abbrev pub with_timeout : ℤ → Task → Task
with_timeout default_timeout task =
    if is_zero task.timeout then record task { timeout = default_timeout } else task

-- `Dispatch`: the `select` sends to a waiting worker or to the buffer, and gives up where neither
-- takes the task.
unfoldable pub dispatch : Task → AsyncQueue → AsyncQueue × Option Error
dispatch task q =
    let task' = with_timeout q.default_timeout task in
    if ltb 0 q.waiting
    then (
      record q { waiting = q.waiting - 1; busy = q.busy + 1; taken = q.taken ++ task' ∷ [] },
      none,
    )
    else (if ltb (length q.task_chan) q.queue_size
        then (record q { task_chan = q.task_chan ++ task' ∷ [] }, none)
        else (q, some queue_full))

-- A receive of `worker`'s `range` loop, on the buffer: the next task, or a wait.
unfoldable pub receive_from : List Task → AsyncQueue → AsyncQueue
receive_from [] q = record q { waiting = q.waiting + 1; busy = q.busy - 1 }
receive_from (t ∷ ts) q = record q { task_chan = ts; taken = q.taken ++ t ∷ [] }

-- The loop's next receive, by a worker that is not waiting already.
unfoldable pub receive : AsyncQueue → AsyncQueue
unfolding receive_from
receive q = if ltb 0 q.busy then receive_from q.task_chan q else q

-- What can happen to the queue.
pub data Event : Type 0 where
  sent : Task → Event
  received : Event

unfoldable pub step : Event → AsyncQueue → AsyncQueue
step (sent t) q = (dispatch t q).0
step received q = receive q

unfoldable pub run : List Event → AsyncQueue → AsyncQueue
run [] q = q
run (e ∷ es) q = run es (step e q)

-- The tasks of a history that `Dispatch` accepted, with the timeout that it gave them.
abbrev pub accepted_by : Option Error → Task → List Task
accepted_by none t = t ∷ []
accepted_by (some e) t = []

unfoldable pub accepted : List Event → AsyncQueue → List Task
accepted [] q = []
accepted (sent t ∷ es) q =
    accepted_by (dispatch t q).1 (with_timeout q.default_timeout t) ++ accepted es (step (sent t) q)
accepted (received ∷ es) q = accepted es (step received q)
