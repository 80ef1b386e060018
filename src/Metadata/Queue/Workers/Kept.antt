-- ===== src/Metadata/Queue/Workers/Kept.antt =====
-- What becomes of the tasks that the workers of pkg/metadata/async_queue.go take.
use mathlib.Core.List.Perm
use mathlib.Core.List.{Perm, perm_middle, append_assoc, append-nil}
use istio_llm_filter.Common.{
  ℕ, zero, suc, ◌-◌, ◌≡◌, refl, sym, ap, ◌∙◌, subst, List, [], ◌∷◌, ◌++◌, map, arith, Option,
}
use istio_llm_filter.Common.Int.{ℤ}
use istio_llm_filter.Metadata.Queue.{Task, AsyncQueue, receive, Error}
use istio_llm_filter.Metadata.Queue.Workers.{
  Worker, ready, parked, working, stopped, Pool, start_workers, new_pool, wake, Step, handed,
  buffered, received, blocked, ended, processed, closing, Reach, here, next,
}
use istio_llm_filter.Metadata.Queue.Workers.Counts.{
  IsCounted, total_at, waits, runs, sent_ok, dispatch_parked, dispatch_busy, receive_task,
  receive_empty, close_ok, new_pool-IsCounted, Step-IsCounted,
}

-- The tasks in `processTask`.
abbrev pub task_of : Worker → List Task
task_of (working t) = t ∷ []
task_of w = []

abbrev pub in_flight : List Worker → List Task
in_flight [] = []
in_flight (w ∷ ws) = task_of w ++ in_flight ws

in_flight-split :
    (before : List Worker) (w : Worker) (after : List Worker)
    → in_flight (before ++ w ∷ after) ≡ in_flight before ++ (task_of w ++ in_flight after)
in_flight-split [] w after = refl
in_flight-split (x ∷ before) w after =
    ap (λ l. task_of x ++ l) (in_flight-split before w after)
    ∙ sym (append_assoc (task_of x) (in_flight before) (task_of w ++ in_flight after))

in_flight-wake : (ws : List Worker) → in_flight (map wake ws) ≡ in_flight ws
in_flight-wake [] = refl
in_flight-wake (ready ∷ ws) = in_flight-wake ws
in_flight-wake (parked ∷ ws) = in_flight-wake ws
in_flight-wake (working t ∷ ws) = ap (λ l. t ∷ l) (in_flight-wake ws)
in_flight-wake (stopped ∷ ws) = in_flight-wake ws

-- A worker that handles nothing before and after.
in_flight_idle :
    (ws before : List Worker) (w w' : Worker) (after : List Worker)
    → ws ≡ before ++ w ∷ after
    → task_of w ≡ task_of w'
    → in_flight (before ++ w' ∷ after) ≡ in_flight ws
in_flight_idle ws before w w' after e same =
    in_flight-split before w' after
    ∙ ap (λ l. in_flight before ++ (l ++ in_flight after)) (sym same)
    ∙ sym (in_flight-split before w after)
    ∙ sym (ap in_flight e)

in_flight_takes :
    (ws before : List Worker) (w : Worker) (t : Task) (after : List Worker)
    → ws ≡ before ++ w ∷ after
    → task_of w ≡ []
    → Perm (in_flight (before ++ working t ∷ after)) (t ∷ in_flight ws)
in_flight_takes ws before w t after e same =
    subst (λ l. Perm l (t ∷ in_flight ws)) (sym (in_flight-split before (working t) after))
      (subst (λ l. Perm (in_flight before ++ t ∷ in_flight after) (t ∷ l))
        (sym (
          ap in_flight e
          ∙ in_flight-split before w after
          ∙ ap (λ l. in_flight before ++ (l ++ in_flight after)) same))
        (perm_middle (in_flight before) (in_flight after)))

-- Nothing that a worker took is lost or handled twice.
abbrev pub IsKept : Pool → Type 0
IsKept p = Perm (p.handled ++ in_flight p.workers) p.queue.taken

taken_one :
    (hs fs gs taken : List Task) (t : Task)
    → Perm (hs ++ fs) taken
    → Perm gs (t ∷ fs)
    → Perm (hs ++ gs) (taken ++ t ∷ [])
taken_one hs fs gs taken t h k = Perm.trans (Perm.append_left hs k) (
    Perm.trans (perm_middle hs fs) (
      Perm.trans (Perm.cons t h) (
        Perm.symm
          (subst (λ l. Perm (taken ++ t ∷ []) (t ∷ l)) (append-nil taken) (perm_middle taken [])))))

abbrev with_queue : Pool → AsyncQueue → List Worker → Pool
with_queue p q ws = record p { queue = q; workers = ws }

-- A worker takes a task that the queue hands out.
takes-IsKept :
    (p : Pool) (q : AsyncQueue) (before : List Worker) (w : Worker) (t : Task) (after : List Worker)
    → p.workers ≡ before ++ w ∷ after
    → task_of w ≡ []
    → q.taken ≡ p.queue.taken ++ t ∷ []
    → IsKept p
    → IsKept (with_queue p q (before ++ working t ∷ after))
takes-IsKept p q before w t after at idle more k =
    subst (λ l. Perm (p.handled ++ in_flight (before ++ working t ∷ after)) l) (sym more)
      (taken_one p.handled (in_flight p.workers) _ p.queue.taken t k
        (in_flight_takes p.workers before w t after at idle))

same-IsKept :
    (p : Pool) (q : AsyncQueue) (ws : List Worker)
    → in_flight ws ≡ in_flight p.workers
    → q.taken ≡ p.queue.taken
    → IsKept p
    → IsKept (with_queue p q ws)
same-IsKept p q ws same more k =
    subst (λ l. Perm (p.handled ++ l) q.taken) (sym same)
      (subst (λ l. Perm (p.handled ++ in_flight p.workers) l) (sym more) k)

pub Step-IsKept : (p p' : Pool) → Step p p' → IsCounted p → IsKept p → IsKept p'
Step-IsKept p _ (handed t q e before after sent at) v k =
    let (opened, same) = sent_ok t p q e sent in
    let w = total_at waits p.workers before parked after at in
    let waits_now = v.waiting in
    let (_, _, _, more) = dispatch_parked t p.queue (omega arith) in
    takes-IsKept p q before parked _ after at refl
      (sym (ap (λ (x : AsyncQueue × Option Error). x.0.taken) same) ∙ more) k
Step-IsKept p _ (buffered t q e sent none_waits) v k =
    let (opened, same) = sent_ok t p q e sent in
    let (_, _, more) = dispatch_busy t p.queue none_waits in
    same-IsKept p q p.workers refl
      (sym (ap (λ (x : AsyncQueue × Option Error). x.0.taken) same) ∙ more) k
Step-IsKept p _ (received t ts before after chan at) v k =
    let r = total_at runs p.workers before ready after at in
    let runs_now = v.busy in
    takes-IsKept p (receive p.queue) before ready t after at refl
      (ap (λ (x : AsyncQueue). x.taken) (receive_task t ts p.queue (omega arith) chan)) k
Step-IsKept p _ (blocked before after chan opened at) v k =
    let r = total_at runs p.workers before ready after at in
    let runs_now = v.busy in
    same-IsKept p (receive p.queue) (before ++ parked ∷ after)
      (in_flight_idle p.workers before ready parked after at refl)
      (ap (λ (x : AsyncQueue). x.taken) (receive_empty p.queue (omega arith) chan)) k
Step-IsKept p _ (ended before after chan over at) v k =
    same-IsKept p (record p.queue { busy = p.queue.busy - 1 }) (before ++ stopped ∷ after)
      (in_flight_idle p.workers before ready stopped after at refl) refl k
Step-IsKept p _ (processed t before after at) v k =
    let back = in_flight_takes (before ++ ready ∷ after) before ready t after refl refl in
    subst (λ l. Perm l p.queue.taken)
      (sym (append_assoc p.handled (t ∷ []) (in_flight (before ++ ready ∷ after))))
      (Perm.trans
        (Perm.append_left p.handled (
          Perm.symm (
            subst (λ ws. Perm (in_flight ws) (t ∷ in_flight (before ++ ready ∷ after))) (sym at)
              back)))
        k)
Step-IsKept p p' (closing _ h) v k =
    let (opened, e) = close_ok p p' h in
    subst IsKept (sym e)
      (subst (λ l. Perm (p.handled ++ l) p.queue.taken) (sym (in_flight-wake p.workers)) k)

started-in_flight : (n : ℕ) → in_flight (start_workers n) ≡ []
started-in_flight zero = refl
started-in_flight (suc n) = started-in_flight n

-- From a new queue, whatever its workers do and in whatever order, closing included.
pub Reach-IsCounted :
    (n w : ℕ) (d : ℤ) (p : Pool) → Reach (new_pool n w d) p → IsCounted p × IsKept p
unfolding new_pool
Reach-IsCounted n w d _ here = (
  unfold new_pool in new_pool-IsCounted n w d,
  subst (λ l. Perm l []) (sym (started-in_flight w)) (Perm.refl []),
)
Reach-IsCounted n w d p (next {q} r s) =
    let (v, k) = Reach-IsCounted n w d q r in (Step-IsCounted q p s v, Step-IsKept q p s v k)
