-- ===== src/Metadata/Queue/Workers.antt =====
-- The workers of pkg/metadata/async_queue.go one by one: `worker`, `processTask` and `Close`. The queue
-- keeps how many workers wait; here each is a goroutine of its own, with the task that it handles.
pub mod Counts
pub mod Kept
pub mod Drain
pub mod InOrder
use istio_llm_filter.Common.{
  ℕ, zero, suc, ◌+◌, ◌-◌, ◌≡◌, Bool, true, false, Option, List, [], ◌∷◌, ◌++◌, Result, ok, panic,
  map, if◌then◌else◌,
}
use istio_llm_filter.Types.Response.{Message}
use istio_llm_filter.Common.Int.{ℤ}
use istio_llm_filter.Metadata.Queue.{
  Task, Error, AsyncQueue, new_async_queue, with_timeout, dispatch, receive,
}

-- Where a worker stands in its `range` loop: before the receive, blocked in it, in `processTask`, or
-- after the loop.
pub data Worker : Type 0 where
  ready : Worker
  parked : Worker
  working : Task → Worker
  stopped : Worker

-- The queue with its workers, whether it was closed, and the tasks whose handler has returned, the
-- first one first. The handler's error is only logged.
pub record Pool : Type 0 where
  pub queue : AsyncQueue
  pub workers : List Worker
  pub closed : Bool
  pub handled : List Task

-- The loop of `NewAsyncQueue` that starts the workers.
abbrev pub start_workers : ℕ → List Worker
start_workers zero = []
start_workers (suc n) = ready ∷ start_workers n

unfoldable pub new_pool : ℕ → ℕ → ℤ → Pool
unfolding new_async_queue
new_pool queue_size worker_count default_timeout = record {
  queue = new_async_queue queue_size worker_count default_timeout;
  workers = start_workers worker_count;
  closed = false;
  handled = [];
}

-- A receive that is blocked when the channel is closed goes on.
abbrev pub wake : Worker → Worker
wake parked = ready
wake w = w

-- `Close`: a channel that is closed already panics.
unfoldable pub close : Pool → Result Message Pool
close p =
    if p.closed
    then panic
    else ok (record p {
      closed = true;
      workers = map wake p.workers;
      queue = record p.queue { waiting = 0; busy = p.queue.busy + p.queue.waiting };
    })

-- `Dispatch` on the queue alone: a send on a closed channel panics, in a `select` too.
unfoldable pub send : Task → Pool → Result Message (AsyncQueue × Option Error)
send t p = if p.closed then panic else ok (dispatch t p.queue)

-- What the goroutines can do, in any order.
pub data Step (p : Pool) : Pool → Type 0 where
  -- a send that a blocked worker takes
  handed :
      (t : Task) (q : AsyncQueue) (e : Option Error) (before after : List Worker)
      → send t p ≡ ok (q, e)
      → p.workers ≡ before ++ parked ∷ after
      → Step p (record p {
        queue = q;
        workers = before ++ working (with_timeout p.queue.default_timeout t) ∷ after;
      })
  -- a send that goes to the buffer, or that is refused
  buffered :
      (t : Task) (q : AsyncQueue) (e : Option Error)
      → send t p ≡ ok (q, e)
      → p.queue.waiting ≡ 0
      → Step p (record p { queue = q })
  received :
      (t : Task) (ts : List Task) (before after : List Worker)
      → p.queue.task_chan ≡ t ∷ ts
      → p.workers ≡ before ++ ready ∷ after
      → Step p (record p { queue = receive p.queue; workers = before ++ working t ∷ after })
  blocked :
      (before after : List Worker)
      → p.queue.task_chan ≡ []
      → p.closed ≡ false
      → p.workers ≡ before ++ ready ∷ after
      → Step p (record p { queue = receive p.queue; workers = before ++ parked ∷ after })
  -- the end of the `range` loop
  ended :
      (before after : List Worker)
      → p.queue.task_chan ≡ []
      → p.closed ≡ true
      → p.workers ≡ before ++ ready ∷ after
      → Step p (record p {
        queue = record p.queue { busy = p.queue.busy - 1 };
        workers = before ++ stopped ∷ after;
      })
  -- the return of `processTask`
  processed :
      (t : Task) (before after : List Worker)
      → p.workers ≡ before ++ working t ∷ after
      → Step p (record p { handled = p.handled ++ t ∷ []; workers = before ++ ready ∷ after })
  closing : (p' : Pool) → close p ≡ ok p' → Step p p'

pub data Reach (p : Pool) : Pool → Type 0 where
  here : Reach p p
  next : {q r : Pool} → Reach p q → Step q r → Reach p r
