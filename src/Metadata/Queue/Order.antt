-- ===== src/Metadata/Queue/Order.antt =====
-- The bounds of the task queue, and the order in which its workers take tasks.
use mathlib.Core.List.{append_assoc, append-nil}
use istio_llm_filter.Common.{
  ℕ, ◌+◌, ◌-◌, ◌≤◌, ◌<◌, ◌≡◌, refl, ap, sym, ◌∙◌, true, false, none, some, List, [], ◌∷◌, ◌++◌,
  length, ltb, arith, Bool-cases, inl, inr, length-append,
}
use istio_llm_filter.Common.Int.{ℤ}
use istio_llm_filter.Metadata.Queue.{
  Task, AsyncQueue, queue_full, Event, sent, received, new_async_queue, with_timeout, dispatch,
  receive, receive_from, step, run, accepted, accepted_by,
}

-- What holds of the queue of `w` workers between two events.
pub record IsValid (w : ℕ) (q : AsyncQueue) : Type 0 where
  pub bounded : length q.task_chan ≤ q.queue_size
  pub idle_empty : 0 < q.waiting → q.task_chan ≡ []
  pub workers : q.waiting + q.busy ≡ w

pub new_async_queue-IsValid : (n w : ℕ) (d : ℤ) → IsValid w (new_async_queue n w d)
unfolding new_async_queue
new_async_queue-IsValid n w d = ground arith

-- A send, accepted or not, and a receive keep the buffer within its size, keep a worker from
-- waiting beside a buffered task, and keep the number of workers.
pub step-IsValid : (w : ℕ) (e : Event) (q : AsyncQueue) → IsValid w q → IsValid w (step e q)
unfolding step dispatch receive
step-IsValid w (sent t) q v =
    ground (arith, length-append {0} q.task_chan (with_timeout q.default_timeout t ∷ []))
step-IsValid w received q v = receive-IsValid q.task_chan refl
  where
    receive-IsValid : (ts : List Task) → q.task_chan ≡ ts → IsValid w (step received q)
    receive-IsValid [] e = ground arith
    receive-IsValid (t ∷ ts) e = ground (arith, ap (λ (l : List Task). length l) e)

-- Every task that was taken or waits in the buffer, the oldest first.
abbrev pub log : AsyncQueue → List Task
log q = q.taken ++ q.task_chan

pub log-received : (q : AsyncQueue) → log (step received q) ≡ log q
unfolding step receive
log-received q = go q.task_chan refl
  where
    go : (ts : List Task) → q.task_chan ≡ ts → log (step received q) ≡ log q
    go [] e = ground (arith, e)
    go (t ∷ ts) e = elim (Bool-cases (ltb 0 q.busy)) [
      | inl some_busy ↦ rw (some_busy, e, receive_from) (append_assoc q.taken (t ∷ []) ts)
      | inr all_idle ↦ rw all_idle
    ]

module _ (t : Task) (q : AsyncQueue) where
  dispatch_idle :
      ltb 0 q.waiting ≡ true
      → dispatch t q ≡ (
        record q {
          waiting = q.waiting - 1;
          busy = q.busy + 1;
          taken = q.taken ++ with_timeout q.default_timeout t ∷ [];
        },
        none,
      )
  unfolding dispatch
  dispatch_idle idle = rw (idle, dispatch)

  dispatch_room :
      ltb 0 q.waiting ≡ false
      → ltb (length q.task_chan) q.queue_size ≡ true
      → dispatch t q
        ≡ (record q { task_chan = q.task_chan ++ with_timeout q.default_timeout t ∷ [] }, none)
  unfolding dispatch
  dispatch_room busy room = rw (busy, room, dispatch)

  dispatch_full :
      ltb 0 q.waiting ≡ false
      → ltb (length q.task_chan) q.queue_size ≡ false
      → dispatch t q ≡ (q, some queue_full)
  unfolding dispatch
  dispatch_full busy full = rw (busy, full, dispatch)

pub log-sent :
    (w : ℕ) (t : Task) (q : AsyncQueue)
    → IsValid w q
    → log (dispatch t q).0
      ≡ log q ++ accepted_by (dispatch t q).1 (with_timeout q.default_timeout t)
log-sent w t q v =
    let t' = with_timeout q.default_timeout t in
    elim (Bool-cases (ltb 0 q.waiting)) [
      | inl idle ↦
          let e : q.task_chan ≡ [] = v.idle_empty (ground arith) in
          rw (dispatch_idle t q idle) (
            ap (λ (l : List Task). (q.taken ++ t' ∷ []) ++ l) e
            ∙ append-nil (q.taken ++ t' ∷ [])
            ∙ ap (λ (l : List Task). l ++ t' ∷ [])
                (sym (ap (λ (l : List Task). q.taken ++ l) e ∙ append-nil q.taken)))
      | inr busy ↦ elim (Bool-cases (ltb (length q.task_chan) q.queue_size)) [
        | inl room ↦
            rw (dispatch_room t q busy room) (sym (append_assoc q.taken q.task_chan (t' ∷ [])))
        | inr full ↦ rw (dispatch_full t q busy full) (sym (append-nil (q.taken ++ q.task_chan)))
      ]
    ]

run_log :
    (w : ℕ) (es : List Event) (q : AsyncQueue)
    → IsValid w q
    → log (run es q) ≡ log q ++ accepted es q
unfolding run accepted step
run_log w [] q v = sym (append-nil (log q))
run_log w (sent t ∷ es) q v =
    run_log w es (step (sent t) q) (step-IsValid w (sent t) q v)
    ∙ ap (λ (l : List Task). l ++ accepted es (step (sent t) q)) (log-sent w t q v)
    ∙ append_assoc (log q) _ _
run_log w (received ∷ es) q v =
    run_log w es (step received q) (step-IsValid w received q v)
    ∙ ap (λ (l : List Task). l ++ accepted es (step received q)) (log-received q)

run-IsValid : (w : ℕ) (es : List Event) (q : AsyncQueue) → IsValid w q → IsValid w (run es q)
unfolding run
run-IsValid w [] q v = v
run-IsValid w (e ∷ es) q v = run-IsValid w es (step e q) (step-IsValid w e q v)

run-queue_size : (es : List Event) (q : AsyncQueue) → (run es q).queue_size ≡ q.queue_size
unfolding run step dispatch receive
run-queue_size [] q = refl
run-queue_size (sent t ∷ es) q = run-queue_size es _ ∙ ground arith
run-queue_size (received ∷ es) q = run-queue_size es _ ∙ go q.task_chan refl
  where
    go : (ts : List Task) → q.task_chan ≡ ts → (receive q).queue_size ≡ q.queue_size
    go [] e = ground (arith, e)
    go (t ∷ ts) e = ground (arith, e)

-- The queue is first in, first out and loses nothing that it accepted: after any interleaving of
-- sends and receives from a new queue, the tasks handed to workers followed by those in the buffer
-- are exactly the accepted tasks in the order in which they were sent, each with its timeout, and
-- the buffer never holds more than the queue size.
pub run-new_async_queue_fifo :
    (queue_size workers : ℕ) (default_timeout : ℤ) (es : List Event)
    → let q = run es (new_async_queue queue_size workers default_timeout) in
      (q.taken ++ q.task_chan ≡ accepted es (new_async_queue queue_size workers default_timeout))
      × (length q.task_chan ≤ queue_size)
run-new_async_queue_fifo n w d es =
    let start = new_async_queue n w d in
    let v = new_async_queue-IsValid n w d in
    (
      unfold new_async_queue in run_log w es start v,
      omega (arith, run-IsValid w es start v, start_size),
    )
  where
    start_size : (run es (new_async_queue n w d)).queue_size ≡ n
    start_size = run-queue_size es (new_async_queue n w d) ∙ unfold new_async_queue in refl
