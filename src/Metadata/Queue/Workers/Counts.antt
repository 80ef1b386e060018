-- ===== src/Metadata/Queue/Workers/Counts.antt =====
-- The counts that the queue of pkg/metadata/async_queue.go keeps of its workers are those of the
-- workers.
use istio_llm_filter.Common.{
  ℕ, zero, suc, ◌+◌, ◌-◌, ◌<◌, ◌≡◌, refl, sym, ap, ◌∙◌, subst, true, false, Option, List, [], ◌∷◌,
  ◌++◌, Result, ok, err, panic, map, ltb, arith, Bool-cases, inl, inr,
}
use istio_llm_filter.Types.Response.{Message}
use istio_llm_filter.Common.Int.{ℤ}
use istio_llm_filter.Metadata.Queue.{Task, Error, AsyncQueue, with_timeout, dispatch, receive}
use istio_llm_filter.Metadata.Queue.Workers.{
  Worker, ready, parked, working, stopped, Pool, start_workers, new_pool, wake, close, send, Step,
  handed, buffered, received, blocked, ended, processed, closing,
}

abbrev pub waits : Worker → ℕ
waits parked = 1
waits w = 0

abbrev pub runs : Worker → ℕ
runs ready = 1
runs (working t) = 1
runs w = 0

abbrev pub gone : Worker → ℕ
gone stopped = 1
gone w = 0

abbrev pub total : (Worker → ℕ) → List Worker → ℕ
total f [] = 0
total f (w ∷ ws) = f w + total f ws

pub total-split :
    (f : Worker → ℕ) (before : List Worker) (w : Worker) (after : List Worker)
    → total f (before ++ w ∷ after) ≡ total f before + f w + total f after
total-split f [] w after = omega arith
total-split f (x ∷ before) w after = omega (arith, total-split f before w after)

-- `Close` wakes all workers that wait.
pub total-wake :
    (ws : List Worker)
    → (total waits (map wake ws) ≡ 0)
      × (total runs (map wake ws) ≡ total runs ws + total waits ws)
      × (total gone (map wake ws) ≡ total gone ws)
total-wake [] = omega arith
total-wake (ready ∷ ws) = omega (arith, total-wake ws)
total-wake (parked ∷ ws) = omega (arith, total-wake ws)
total-wake (working t ∷ ws) = omega (arith, total-wake ws)
total-wake (stopped ∷ ws) = omega (arith, total-wake ws)

-- What holds of a pool between two steps.
pub record IsCounted (p : Pool) : Type 0 where
  pub waiting : p.queue.waiting ≡ total waits p.workers
  pub busy : p.queue.busy ≡ total runs p.workers
  pub idle_empty : 0 < p.queue.waiting → p.queue.task_chan ≡ []
  -- a worker leaves its loop only at a closed, empty channel
  pub drained : 0 < total gone p.workers → (p.closed ≡ true) × (p.queue.task_chan ≡ [])
  pub shut_awake : p.closed ≡ true → p.queue.waiting ≡ 0

pub sent_ok :
    (t : Task) (p : Pool) (q : AsyncQueue) (e : Option Error)
    → send t p ≡ ok (q, e)
    → (p.closed ≡ false) × (dispatch t p.queue ≡ (q, e))
unfolding send
sent_ok t p q e h = elim (Bool-cases p.closed) [
  | inl shut ↦ absurd (cc (rw shut at h))
  | inr opened ↦ (opened, ok_inj (rw opened at h))
]
  where
    open_or :
        AsyncQueue × Option Error
        → Result Message (AsyncQueue × Option Error)
        → AsyncQueue × Option Error
    open_or d r = elim r [ ok x ↦ x | err x ↦ d | panic ↦ d ]

    ok_inj :
        {a b : AsyncQueue × Option Error}
        → ◌≡◌ {A = Result Message (AsyncQueue × Option Error)} (ok a) (ok b)
        → a ≡ b
    ok_inj {a} k = ap (open_or a) k

pub dispatch_parked :
    (t : Task) (q : AsyncQueue)
    → 0 < q.waiting
    → ((dispatch t q).0.waiting + 1 ≡ q.waiting)
      × ((dispatch t q).0.busy ≡ q.busy + 1)
      × ((dispatch t q).0.task_chan ≡ q.task_chan)
      × ((dispatch t q).0.taken ≡ q.taken ++ with_timeout q.default_timeout t ∷ [])
unfolding dispatch
dispatch_parked t q h = ground arith

pub dispatch_busy :
    (t : Task) (q : AsyncQueue)
    → q.waiting ≡ 0
    → ((dispatch t q).0.waiting ≡ 0)
      × ((dispatch t q).0.busy ≡ q.busy)
      × ((dispatch t q).0.taken ≡ q.taken)
unfolding dispatch
dispatch_busy t q h = ground arith

pub receive_task :
    (t : Task) (ts : List Task) (q : AsyncQueue)
    → 0 < q.busy
    → q.task_chan ≡ t ∷ ts
    → receive q ≡ record q { task_chan = ts; taken = q.taken ++ t ∷ [] }
unfolding receive
receive_task t ts q h e = ground (arith, e)

pub receive_empty :
    (q : AsyncQueue)
    → 0 < q.busy
    → q.task_chan ≡ []
    → receive q ≡ record q { waiting = q.waiting + 1; busy = q.busy - 1 }
unfolding receive
receive_empty q h e = ground (arith, e)

-- The counts of a pool in which one worker stands out.
pub total_at :
    (f : Worker → ℕ) (ws before : List Worker) (w : Worker) (after : List Worker)
    → ws ≡ before ++ w ∷ after
    → total f ws ≡ total f before + f w + total f after
total_at f ws before w after e = ap (total f) e ∙ total-split f before w after

pub close_ok :
    (p p' : Pool)
    → close p ≡ ok p'
    → (p.closed ≡ false)
      × (p' ≡ record p {
        closed = true;
        workers = map wake p.workers;
        queue = record p.queue { waiting = 0; busy = p.queue.busy + p.queue.waiting };
      })
unfolding close
close_ok p p' h = elim (Bool-cases p.closed) [
  | inl shut ↦ absurd (cc (rw shut at h))
  | inr opened ↦ (opened, sym (ok_inj (rw opened at h)))
]
  where
    pool_or : Pool → Result Message Pool → Pool
    pool_or d r = elim r [ ok x ↦ x | err x ↦ d | panic ↦ d ]

    ok_inj : {a b : Pool} → ◌≡◌ {A = Result Message Pool} (ok a) (ok b) → a ≡ b
    ok_inj {a} k = ap (pool_or a) k

pub new_pool-IsCounted : (n w : ℕ) (d : ℤ) → IsCounted (new_pool n w d)
unfolding new_pool
new_pool-IsCounted n w d = record {
  waiting = sym (started w).0;
  busy = sym (started w).1;
  idle_empty = λ h. absurd (omega arith);
  drained = λ h. absurd (omega (arith, started w));
  shut_awake = λ h. refl;
}
  where
    started :
        (k : ℕ)
        → (total waits (start_workers k) ≡ 0)
          × (total runs (start_workers k) ≡ k)
          × (total gone (start_workers k) ≡ 0)
    started zero = (refl, refl, refl)
    started (suc k) = omega (arith, started k)

-- No worker waits beside a task.
no_task_waits :
    (p : Pool) (t : Task) (ts : List Task)
    → IsCounted p
    → p.queue.task_chan ≡ t ∷ ts
    → p.queue.waiting ≡ 0
no_task_waits p t ts v chan = elim (Bool-cases (ltb 0 p.queue.waiting)) [
  | inl some_wait ↦ absurd (cc (chan, v.idle_empty (ground arith)))
  | inr none_waits ↦ ground arith
]

pub Step-IsCounted : (p p' : Pool) → Step p p' → IsCounted p → IsCounted p'
Step-IsCounted p _ (handed t q e before after sent at) v =
    let (opened, same) = sent_ok t p q e sent in
    let w = total_at waits p.workers before parked after at in
    let r = total_at runs p.workers before parked after at in
    let g = total_at gone p.workers before parked after at in
    let chan = v.idle_empty (omega arith) in
    let (w', r', chan', _) = dispatch_parked t p.queue (omega arith) in
    let q_w = ap (λ (x : AsyncQueue × Option Error). x.0.waiting) same in
    let q_r = ap (λ (x : AsyncQueue × Option Error). x.0.busy) same in
    let q_chan = ap (λ (x : AsyncQueue × Option Error). x.0.task_chan) same in
    record {
      waiting = omega (
        arith,
        total-split waits before (working (with_timeout p.queue.default_timeout t)) after,
      );
      busy =
          omega (
            arith,
            total-split runs before (working (with_timeout p.queue.default_timeout t)) after,
          );
      idle_empty = λ h. sym q_chan ∙ chan' ∙ chan;
      drained = λ h. (
        cc (
          opened,
          (v.drained (
              omega (
                arith,
                total-split gone before (working (with_timeout p.queue.default_timeout t)) after,
              ))).0,
        ),
        sym q_chan ∙ chan' ∙ chan,
      );
      shut_awake = λ h. absurd (cc (h, opened));
    }
Step-IsCounted p _ (buffered t q e sent none_waits) v =
    let (opened, same) = sent_ok t p q e sent in
    let (w', r', _) = dispatch_busy t p.queue none_waits in
    let q_w = ap (λ (x : AsyncQueue × Option Error). x.0.waiting) same in
    let q_r = ap (λ (x : AsyncQueue × Option Error). x.0.busy) same in
    record {
      waiting = omega (arith, v.waiting);
      busy = omega (arith, v.busy);
      idle_empty = λ h. absurd (omega arith);
      drained = λ h. absurd (cc ((v.drained h).0, opened));
      shut_awake = λ h. absurd (cc (h, opened));
    }
Step-IsCounted p _ (received t ts before after chan at) v =
    let w = total_at waits p.workers before ready after at in
    let r = total_at runs p.workers before ready after at in
    let g = total_at gone p.workers before ready after at in
    let q = receive_task t ts p.queue (omega arith) chan in
    let q_w = ap (λ (x : AsyncQueue). x.waiting) q in
    let q_r = ap (λ (x : AsyncQueue). x.busy) q in
    let awake : p.queue.waiting ≡ 0 = no_task_waits p t ts v chan in
    record {
      waiting = omega (arith, total-split waits before (working t) after);
      busy = omega (arith, total-split runs before (working t) after);
      idle_empty = λ h. absurd (omega arith);
      drained = λ h.
          absurd
            (cc (chan, (v.drained (omega (arith, total-split gone before (working t) after))).1));
      shut_awake = λ h. q_w ∙ awake;
    }
Step-IsCounted p _ (blocked before after chan opened at) v =
    let w = total_at waits p.workers before ready after at in
    let r = total_at runs p.workers before ready after at in
    let g = total_at gone p.workers before ready after at in
    let q = receive_empty p.queue (omega arith) chan in
    let q_w = ap (λ (x : AsyncQueue). x.waiting) q in
    let q_r = ap (λ (x : AsyncQueue). x.busy) q in
    let q_chan = ap (λ (x : AsyncQueue). x.task_chan) q in
    record {
      waiting = omega (arith, total-split waits before parked after);
      busy = omega (arith, total-split runs before parked after);
      idle_empty = λ h. q_chan ∙ chan;
      drained = λ h.
          absurd (cc (opened, (v.drained (omega (arith, total-split gone before parked after))).0));
      shut_awake = λ h. absurd (cc (h, opened));
    }
Step-IsCounted p _ (ended before after chan over at) v =
    let w = total_at waits p.workers before ready after at in
    let r = total_at runs p.workers before ready after at in
    record {
      waiting = omega (arith, total-split waits before stopped after);
      busy = omega (arith, total-split runs before stopped after);
      idle_empty = λ h. chan;
      drained = λ h. (over, chan);
      shut_awake = λ h. v.shut_awake over;
    }
Step-IsCounted p _ (processed t before after at) v =
    let w = total_at waits p.workers before (working t) after at in
    let r = total_at runs p.workers before (working t) after at in
    let g = total_at gone p.workers before (working t) after at in
    record {
      waiting = omega (arith, total-split waits before ready after);
      busy = omega (arith, total-split runs before ready after);
      idle_empty = v.idle_empty;
      drained = λ h. v.drained (omega (arith, total-split gone before ready after));
      shut_awake = v.shut_awake;
    }
Step-IsCounted p p' (closing _ h) v =
    let (opened, e) = close_ok p p' h in
    let woken = total-wake p.workers in
    subst IsCounted (sym e) (record {
      waiting = sym woken.0;
      busy = omega arith;
      idle_empty = λ k. absurd (omega arith);
      drained = λ k. absurd (cc (opened, (v.drained (omega arith)).0));
      shut_awake = λ k. refl;
    })
