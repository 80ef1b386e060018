-- ===== src/Metadata/Queue/Workers/Drain.antt =====
-- What follows `Close` of pkg/metadata/async_queue.go.
use mathlib.Core.List.{Perm, append-nil}
use istio_llm_filter.Common.{
  ℕ, zero, suc, ◌+◌, ◌*◌, ◌<◌, ◌≡◌, ◌⊎◌, refl, sym, ap, ◌∙◌, subst, true, List, [], ◌∷◌, ◌++◌, map,
  length, ltb, arith, Bool-cases, inl, inr,
}
use istio_llm_filter.Common.Int.{ℤ}
use istio_llm_filter.Metadata.Queue.{Task, AsyncQueue}
use istio_llm_filter.Metadata.Queue.Workers.{
  Worker, ready, parked, working, stopped, Pool, start_workers, new_pool, wake, Step, handed,
  buffered, received, blocked, ended, processed, closing, Reach, here, next,
}
use istio_llm_filter.Metadata.Queue.Workers.Counts.{
  IsCounted, total_at, total-split, waits, runs, gone, total, sent_ok, receive_task, close_ok,
}
use istio_llm_filter.Metadata.Queue.Workers.Kept.{in_flight, Reach-IsCounted}

-- The steps that a worker has before it at a closed channel, but for the tasks that wait.
abbrev pub weight : Worker → ℕ
weight ready = 1
weight parked = 1
weight (working t) = 2
weight stopped = 0

-- The steps left after `Close`: a receive and a return for each buffered task, and the workers' own.
abbrev pub steps_left : Pool → ℕ
steps_left p = 2 * length p.queue.task_chan + total weight p.workers

closed-Step :
    (p p' : Pool)
    → p.closed ≡ true
    → IsCounted p
    → Step p p'
    → (p'.closed ≡ true) × (steps_left p' + 1 ≡ steps_left p)
closed-Step p _ c v (handed t q e before after sent at) = absurd (cc (c, (sent_ok t p q e sent).0))
closed-Step p _ c v (buffered t q e sent none_waits) = absurd (cc (c, (sent_ok t p q e sent).0))
closed-Step p _ c v (received t ts before after chan at) =
    let r = total_at runs p.workers before ready after at in
    let runs_now = v.busy in
    let w = total_at weight p.workers before ready after at in
    let n = ap (λ (l : List Task). length l) chan in
    let n' =
      ap (λ (x : AsyncQueue). length x.task_chan) (receive_task t ts p.queue (omega arith) chan) in
    (c, omega (arith, total-split weight before (working t) after))
closed-Step p _ c v (blocked before after chan opened at) = absurd (cc (c, opened))
closed-Step p _ c v (ended before after chan over at) =
    let w = total_at weight p.workers before ready after at in
    (c, omega (arith, total-split weight before stopped after))
closed-Step p _ c v (processed t before after at) =
    let w = total_at weight p.workers before (working t) after at in
    (c, omega (arith, total-split weight before ready after))
closed-Step p p' c v (closing _ h) = absurd (cc (c, (close_ok p p' h).0))

-- The first worker that is in its loop and does not wait.
runner :
    (ws : List Worker)
    → 0 < total runs ws
    → (before after : List Worker) × ((ws ≡ before ++ ready ∷ after)
        ⊎ ((t : Task) × (ws ≡ before ++ working t ∷ after)))
runner [] h = absurd (omega arith)
runner (ready ∷ ws) h = ([], ws, inl refl)
runner (working t ∷ ws) h = ([], ws, inr (t, refl))
runner (parked ∷ ws) h =
    let (before, after, found) = runner ws (omega arith) in
    elim found [
      | inl e ↦ (parked ∷ before, after, inl (ap (λ l. parked ∷ l) e))
      | inr (t, e) ↦ (parked ∷ before, after, inr (t, ap (λ l. parked ∷ l) e))
    ]
runner (stopped ∷ ws) h =
    let (before, after, found) = runner ws (omega arith) in
    elim found [
      | inl e ↦ (stopped ∷ before, after, inl (ap (λ l. stopped ∷ l) e))
      | inr (t, e) ↦ (stopped ∷ before, after, inr (t, ap (λ l. stopped ∷ l) e))
    ]

runner_steps : (p : Pool) → p.closed ≡ true → 0 < total runs p.workers → (p' : Pool) × Step p p'
runner_steps p c h =
    let (before, after, found) = runner p.workers h in
    elim found [
      | inr (t, e) ↦ (_, processed t before after e)
      | inl e ↦ receives before after e p.queue.task_chan refl
    ]
  where
    receives :
        (before after : List Worker)
        → p.workers ≡ before ++ ready ∷ after
        → (ts : List Task) → p.queue.task_chan ≡ ts
        → (p' : Pool) × Step p p'
    receives before after e [] chan = (_, ended before after chan c e)
    receives before after e (t ∷ ts) chan = (_, received t ts before after chan e)

-- No worker that runs or waits has steps of its own.
weightless : (ws : List Worker) → total runs ws ≡ 0 → total waits ws ≡ 0 → total weight ws ≡ 0
weightless [] h k = refl
weightless (ready ∷ ws) h k = absurd (omega arith)
weightless (parked ∷ ws) h k = absurd (omega arith)
weightless (working t ∷ ws) h k = absurd (omega arith)
weightless (stopped ∷ ws) h k = omega (arith, weightless ws (omega arith) (omega arith))

pub all_gone :
    (ws : List Worker) → total weight ws ≡ 0 → (in_flight ws ≡ []) × (total gone ws ≡ length ws)
all_gone [] h = (refl, refl)
all_gone (ready ∷ ws) h = absurd (omega arith)
all_gone (parked ∷ ws) h = absurd (omega arith)
all_gone (working t ∷ ws) h = absurd (omega arith)
all_gone (stopped ∷ ws) h = let (e, n) = all_gone ws (omega arith) in (e, omega arith)

-- A run of k steps.
pub data Steps (p : Pool) : ℕ → Pool → Type 0 where
  none_yet : Steps p 0 p
  one_more : {k : ℕ} {q r : Pool} → Steps p k q → Step q r → Steps p (suc k) r

abbrev staff : Worker → ℕ
staff w = 1

staff-wake : (ws : List Worker) → total staff (map wake ws) ≡ total staff ws
staff-wake [] = refl
staff-wake (w ∷ ws) = omega (arith, staff-wake ws)

staff_at :
    (ws before : List Worker) (w w' : Worker) (after : List Worker)
    → ws ≡ before ++ w ∷ after
    → total staff (before ++ w' ∷ after) ≡ total staff ws
staff_at ws before w w' after e =
    total-split staff before w' after ∙ sym (total_at staff ws before w after e)

Step-staff : (p p' : Pool) → Step p p' → total staff p'.workers ≡ total staff p.workers
Step-staff p _ (handed t q e before after sent at) = staff_at p.workers before parked _ after at
Step-staff p _ (buffered t q e sent none_waits) = refl
Step-staff p _ (received t ts before after chan at) = staff_at p.workers before ready _ after at
Step-staff p _ (blocked before after chan opened at) = staff_at p.workers before ready _ after at
Step-staff p _ (ended before after chan over at) = staff_at p.workers before ready _ after at
Step-staff p _ (processed t before after at) = staff_at p.workers before (working t) _ after at
Step-staff p p' (closing _ h) =
    ap (λ (x : Pool). total staff x.workers) (close_ok p p' h).1 ∙ staff-wake p.workers

Reach-staff : (n w : ℕ) (d : ℤ) (p : Pool) → Reach (new_pool n w d) p → total staff p.workers ≡ w
unfolding new_pool
Reach-staff n w d _ here = started w
  where
    started : (k : ℕ) → total staff (start_workers k) ≡ k
    started zero = refl
    started (suc k) = omega (arith, started k)
Reach-staff n w d p (next {q} r s) = Step-staff q p s ∙ Reach-staff n w d q r

Reach-Steps : {p q r : Pool} {k : ℕ} → Reach p q → Steps q k r → Reach p r
Reach-Steps r none_yet = r
Reach-Steps r (one_more ss s) = next (Reach-Steps r ss) s

-- Nothing is left to do: the buffer is empty, each worker has left its loop, and all tasks that were
-- ever handed out have been handled, each as often as it was sent.
pub record IsDone (p : Pool) : Type 0 where
  pub drained : p.queue.task_chan ≡ []
  pub all_stopped : total gone p.workers ≡ length p.workers
  pub all_handled : Perm p.handled p.queue.taken

closed-Steps :
    (n w : ℕ) (d : ℤ) (p : Pool) (k : ℕ) (p' : Pool)
    → Reach (new_pool n w d) p
    → p.closed ≡ true
    → Steps p k p'
    → (p'.closed ≡ true) × (k + steps_left p' ≡ steps_left p)
closed-Steps n w d p _ _ r c none_yet = (c, omega arith)
closed-Steps n w d p _ p' r c (one_more {k} {q} ss s) =
    let (c', e) = closed-Steps n w d p k q r c ss in
    let (c'', e') = closed-Step q p' c' (Reach-IsCounted n w d q (Reach-Steps r ss)).0 s in
    (c'', omega arith)

idle_pool :
    (n w : ℕ) (d : ℤ) (p : Pool)
    → Reach (new_pool n (suc w) d) p
    → p.closed ≡ true
    → total runs p.workers ≡ 0
    → IsDone p
idle_pool n w d p r c idle =
    let (v, kept) = Reach-IsCounted n (suc w) d p r in
    let counted = v.waiting in
    let awake = v.shut_awake c in
    let (none_held, gone_all) = all_gone p.workers (weightless p.workers idle (omega arith)) in
    let staffed = Reach-staff n (suc w) d p r in
    let size = staff_length p.workers in
    record {
      drained = (v.drained (omega arith)).1;
      all_stopped = gone_all;
      all_handled =
          subst (λ l. Perm l p.queue.taken) (append-nil p.handled)
            (subst (λ l. Perm (p.handled ++ l) p.queue.taken) none_held kept);
    }
  where
    staff_length : (ws : List Worker) → total staff ws ≡ length ws
    staff_length [] = refl
    staff_length (w ∷ ws) = omega (arith, staff_length ws)

-- After `Close` a queue with one worker or more comes to an end, in whatever order its workers go on:
-- each step uses up one of the steps that are left at first (two for each buffered task and each task
-- in hand, one for each worker), so that no run is longer; and a run that has not handled all tasks
-- that were accepted and stopped all workers can go on.
pub close_drains :
    (queue_size workers : ℕ) (default_timeout : ℤ) (k : ℕ) (p p' : Pool)
    → Reach (new_pool queue_size (suc workers) default_timeout) p
    → p.closed ≡ true
    → Steps p k p'
    → (k + steps_left p' ≡ steps_left p) × (IsDone p' ⊎ ((next_pool : Pool) × Step p' next_pool))
close_drains n w d k p p' r c ss =
    let (c', e) = closed-Steps n (suc w) d p k p' r c ss in
    (
      e,
      elim (Bool-cases (ltb 0 (total runs p'.workers))) [
        | inl some_run ↦ inr (runner_steps p' c' (ground arith))
        | inr none_runs ↦ inl (idle_pool n w d p' (Reach-Steps r ss) c' (ground arith))
      ],
    )
