-- ===== src/Metadata/Queue/Workers/InOrder.antt =====
-- The order in which the workers of pkg/metadata/async_queue.go handle their tasks.
use mathlib.Core.List.{append-nil}
use istio_llm_filter.Common.{
  ℕ, ◌≡◌, ◌≢◌, refl, sym, ap, ◌∙◌, subst, List, [], ◌∷◌, ◌++◌, map, arith, Option, none, length,
  ◌≤◌,
}
use istio_llm_filter.Common.Int.{ℤ}
use istio_llm_filter.Metadata.Queue.{Task, AsyncQueue, with_timeout, dispatch, receive, Error}
use istio_llm_filter.Metadata.Queue.Workers.{
  Worker, ready, parked, working, stopped, Pool, new_pool, wake, send, Step, handed, buffered,
  received, blocked, ended, processed, closing, Reach, here, next,
}
use istio_llm_filter.Metadata.Queue.Workers.Counts.{
  IsCounted, total_at, waits, runs, sent_ok, dispatch_parked, dispatch_busy, receive_task,
  receive_empty, close_ok,
}
use istio_llm_filter.Metadata.Queue.Workers.Kept.{task_of, in_flight, Reach-IsCounted}

-- One worker: it handles the tasks in the order in which they are handed out.
pub record IsSerial (p : Pool) : Type 0 where
  pub worker : Worker
  pub alone : p.workers ≡ worker ∷ []
  pub serial : p.handled ++ task_of worker ≡ p.queue.taken

no_split :
    (w x y : Worker) (before after : List Worker)
    → ◌≢◌ {A = List Worker} (w ∷ []) (x ∷ before ++ y ∷ after)
no_split w x y before after e =
    short before (ap (λ (l : List Worker). elim l [ [] ↦ [] | z ∷ zs ↦ zs ]) e)
  where
    short : (b : List Worker) → ◌≢◌ {A = List Worker} [] (b ++ y ∷ after)
    short [] k = cc
    short (z ∷ b) k = cc

alone_split :
    (w x : Worker) (before after : List Worker)
    → w ∷ [] ≡ before ++ x ∷ after
    → (before ≡ []) × (after ≡ []) × (x ≡ w)
alone_split w x [] after e = (refl, cc, cc)
alone_split w x (y ∷ before) after e = absurd (no_split w y x before after e)

-- The worker of the pool is the one that a step names, and what follows it.
serial_at :
    (p : Pool) (v : IsSerial p) (before : List Worker) (x : Worker) (after : List Worker)
    → p.workers ≡ before ++ x ∷ after
    → (p.handled ++ task_of x ≡ p.queue.taken) × ((x' : Worker) → before ++ x' ∷ after ≡ x' ∷ [])
serial_at p v before x after at =
    let (e1, e2, e3) = alone_split v.worker x before after (sym v.alone ∙ at) in
    (rw e3 v.serial, λ x'. rw (e1, e2))

Step-IsSerial : (p p' : Pool) → Step p p' → IsCounted p → IsSerial p → IsSerial p'
Step-IsSerial p _ (handed t q e before after sent at) v k =
    let (opened, same) = sent_ok t p q e sent in
    let w = total_at waits p.workers before parked after at in
    let waits_now = v.waiting in
    let (_, _, _, more) = dispatch_parked t p.queue (omega arith) in
    let (past, alone) = serial_at p k before parked after at in
    record {
      worker = _;
      alone = alone _;
      serial =
          ap (λ l. l ++ with_timeout p.queue.default_timeout t ∷ [])
            (sym (append-nil p.handled) ∙ past)
          ∙ sym (sym (ap (λ (x : AsyncQueue × Option Error). x.0.taken) same) ∙ more);
    }
Step-IsSerial p _ (buffered t q e sent none_waits) v k =
    let (opened, same) = sent_ok t p q e sent in
    let (_, _, more) = dispatch_busy t p.queue none_waits in
    record {
      worker = k.worker;
      alone = k.alone;
      serial = k.serial ∙ sym (sym (ap (λ (x : AsyncQueue × Option Error). x.0.taken) same) ∙ more);
    }
Step-IsSerial p _ (received t ts before after chan at) v k =
    let r = total_at runs p.workers before ready after at in
    let runs_now = v.busy in
    let more = ap (λ (x : AsyncQueue). x.taken) (receive_task t ts p.queue (omega arith) chan) in
    let (past, alone) = serial_at p k before ready after at in
    record {
      worker = _;
      alone = alone _;
      serial = ap (λ l. l ++ t ∷ []) (sym (append-nil p.handled) ∙ past) ∙ sym more;
    }
Step-IsSerial p _ (blocked before after chan opened at) v k =
    let r = total_at runs p.workers before ready after at in
    let runs_now = v.busy in
    let more = ap (λ (x : AsyncQueue). x.taken) (receive_empty p.queue (omega arith) chan) in
    let (past, alone) = serial_at p k before ready after at in
    record { worker = _; alone = alone parked; serial = past ∙ sym more }
Step-IsSerial p _ (ended before after chan over at) v k =
    let (past, alone) = serial_at p k before ready after at in
    record { worker = _; alone = alone stopped; serial = past }
Step-IsSerial p _ (processed t before after at) v k =
    let (past, alone) = serial_at p k before (working t) after at in
    record { worker = _; alone = alone ready; serial = append-nil (p.handled ++ t ∷ []) ∙ past }
Step-IsSerial p p' (closing _ h) v k =
    let (opened, e) = close_ok p p' h in
    subst IsSerial (sym e) (record {
      worker = wake k.worker;
      alone = ap (map wake) k.alone;
      serial = ap (λ l. p.handled ++ l) (task_of-wake k.worker) ∙ k.serial;
    })
  where
    task_of-wake : (w : Worker) → task_of (wake w) ≡ task_of w
    task_of-wake ready = refl
    task_of-wake parked = refl
    task_of-wake (working t) = refl
    task_of-wake stopped = refl

Reach-IsSerial : (n : ℕ) (d : ℤ) (p : Pool) → Reach (new_pool n 1 d) p → IsSerial p
unfolding new_pool
Reach-IsSerial n d _ here = record { worker = ready; alone = refl; serial = refl }
Reach-IsSerial n d p (next {q} r s) =
    Step-IsSerial q p s (Reach-IsCounted n 1 d q r).0 (Reach-IsSerial n d q r)

-- A queue with one worker handles its tasks in the order in which they were handed out, whatever else
-- happens, closing included: those handled, and then the one in hand if there is one, are all that
-- were handed out so far.
pub one_worker_in_order :
    (queue_size : ℕ) (default_timeout : ℤ) (p : Pool)
    → Reach (new_pool queue_size 1 default_timeout) p
    → (current : List Task) × (length current ≤ 1) × (p.handled ++ current ≡ p.queue.taken)
one_worker_in_order n d p r =
    let v = Reach-IsSerial n d p r in (task_of v.worker, at_most_one v.worker, v.serial)
  where
    at_most_one : (w : Worker) → length (task_of w) ≤ 1
    at_most_one ready = omega arith
    at_most_one parked = omega arith
    at_most_one (working t) = omega arith
    at_most_one stopped = omega arith

-- With two workers the later of two tasks can be handled while the earlier one is still in hand,
-- whatever the tasks are: the report of a request and its withdrawal can arrive in the wrong order.
pub two_workers_overtake :
    (queue_size : ℕ) (default_timeout : ℤ) (t u : Task)
    → (p : Pool) × Reach (new_pool queue_size 2 default_timeout) p
      × (p.queue.taken ≡ with_timeout default_timeout t ∷ with_timeout default_timeout u ∷ [])
      × (p.handled ≡ with_timeout default_timeout u ∷ [])
      × (in_flight p.workers ≡ with_timeout default_timeout t ∷ [])
unfolding new_pool send dispatch receive
two_workers_overtake n d t u =
    let t' = with_timeout d t in
    let u' = with_timeout d u in
    (
      _,
      next
          (next
            (next
              (next (next here (blocked [] (ready ∷ []) refl refl refl))
                (blocked (parked ∷ []) [] refl refl refl))
              (handed t _ none [] (parked ∷ []) refl refl))
            (handed u _ none (working t' ∷ []) [] refl refl))
          (processed u' (working t' ∷ []) [] refl),
      refl,
      refl,
      refl,
    )
