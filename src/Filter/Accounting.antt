-- ===== src/Filter/Accounting.antt =====
-- What one request of pkg/filter/filter.go writes to the metadata center about its prompt length, over
-- any interleaving of its timer, its tokens, its end and the rest of the process.
use istio_llm_filter.Common.{
  ℕ, ◌+◌, ◌-◌, ◌≤◌, ◌≡◌, refl, String, true, false, Option, none, some, List, [], ◌∷◌, length,
  if◌then◌else◌, arith, length-append,
}
use istio_llm_filter.Config.{LlmProxyConfig}
use istio_llm_filter.Metadata.{Center, send, delete_request_prompt}
use istio_llm_filter.Metadata.Queue as Queue
use istio_llm_filter.Metadata.Queue.{Task, AsyncQueue, Error, queue_full, dispatch, with_timeout}
use istio_llm_filter.Filter.{State, Transcoder}
use istio_llm_filter.Filter.Prompt.{
  delete_prompt_length, timer_fired, record_token_time, with_unique_id,
}

-- The tasks that the center's queue has accepted so far.
abbrev pub size : Center → ℕ
size c = length c.queue.taken + length c.queue.task_chan

abbrev pub count_sent : Option Error → ℕ
count_sent none = 1
count_sent (some e) = 0

pub size-dispatch :
    (t : Task) (q : AsyncQueue)
    → length (dispatch t q).0.taken + length (dispatch t q).0.task_chan
      ≡ length q.taken + length q.task_chan + count_sent (dispatch t q).1
unfolding dispatch
size-dispatch t q =
    let t' = with_timeout q.default_timeout t in
    ground (arith, length-append {0} q.taken (t' ∷ []), length-append {0} q.task_chan (t' ∷ []))

size-send : (t : Task) (c : Center) → size (send t c).0 ≤ size c + count_sent (send t c).1
size-send t c = ground (arith, size-dispatch t c.queue)

size-delete_request_prompt :
    (trace_id id : String) (c : Center)
    → size (delete_request_prompt trace_id id c).0
      ≤ size c + count_sent (delete_request_prompt trace_id id c).1
unfolding delete_request_prompt
size-delete_request_prompt trace_id id c = size-send _ c

-- What can happen to a request between its dispatch and its end: the timer fires, a token comes,
-- the response ends, or something else in the process sends a task or a worker receives one.
pub data Event : Type 0 where
  timer : Event
  token : ℕ → Event
  finished : Event
  elsewhere : Queue.Event → Event

module _ (X : Transcoder) (config : LlmProxyConfig) (uuid : String) where
  unfoldable pub step : Event → State X → State X
  step timer s = timer_fired X config uuid s
  step (token now) s = record_token_time X config uuid now s
  step finished s = delete_prompt_length X config uuid s
  step (elsewhere e) (f, w) =
      (f, record w { center = record w.center { queue = Queue.step e w.center.queue } })

  -- How many tasks the request itself has the queue accept in one event.
  abbrev pub sent_in : Event → State X → ℕ
  sent_in (elsewhere e) s = 0
  sent_in timer s = size (step timer s).1.center - size s.1.center
  sent_in (token now) s = size (step (token now) s).1.center - size s.1.center
  sent_in finished s = size (step finished s).1.center - size s.1.center

  unfoldable pub sent_over : List Event → State X → ℕ
  sent_over [] s = 0
  sent_over (e ∷ es) s = sent_in e s + sent_over es (step e s)

  -- 1 once the prompt length has been deleted.
  abbrev deleted : State X → ℕ
  deleted (f, w) = if f.is_prompt_length_deleted then 1 else 0

  delete_spends :
      (s : State X)
      → let s' = delete_prompt_length X config uuid s in
        size s'.1.center + deleted s ≤ size s.1.center + deleted s'
  unfolding delete_prompt_length
  delete_spends (f, w) =
      let g = with_unique_id uuid (record f { timer_set = false }) in
      ground (arith, size-delete_request_prompt g.trace_id g.unique_id w.center)

  delete_keeps : (s : State X) → deleted s ≤ deleted (delete_prompt_length X config uuid s)
  unfolding delete_prompt_length
  delete_keeps (f, w) = ground arith

  event_spends : (e : Event) (s : State X) → sent_in e s + deleted s ≤ deleted (step e s)
  unfolding step timer_fired record_token_time
  event_spends timer (f, w) = ground (arith, delete_spends (f, w), delete_keeps (f, w))
  event_spends (token now) (f, w) =
      let t : State X = (record f { first_token_timestamp = now }, w) in
      ground (arith, delete_spends t, delete_keeps t)
  event_spends finished (f, w) = ground (arith, delete_spends (f, w), delete_keeps (f, w))
  event_spends (elsewhere e) (f, w) = omega arith

  sent_over_spends : (es : List Event) (s : State X) → sent_over es s + deleted s ≤ 1
  unfolding sent_over
  sent_over_spends [] (f, w) = ground arith
  sent_over_spends (e ∷ es) s = omega (arith, event_spends e s, sent_over_spends es (step e s))

  delete_unrecorded :
      (s : State X) → s.0.is_increase_recorded ≡ false → delete_prompt_length X config uuid s ≡ s
  unfolding delete_prompt_length
  delete_unrecorded (f, w) h = ground arith

  event_unrecorded :
      (e : Event) (s : State X)
      → s.0.is_increase_recorded ≡ false
      → (sent_in e s ≡ 0) × ((step e s).0.is_increase_recorded ≡ false)
  unfolding step timer_fired record_token_time
  event_unrecorded timer (f, w) h = ground (arith, delete_unrecorded (f, w) h)
  event_unrecorded (token now) (f, w) h =
      ground (arith, delete_unrecorded (record f { first_token_timestamp = now }, w) h)
  event_unrecorded finished (f, w) h = ground (arith, delete_unrecorded (f, w) h)
  event_unrecorded (elsewhere e) (f, w) h = (refl, h)

  unrecorded_silent :
      (es : List Event) (s : State X) → s.0.is_increase_recorded ≡ false → sent_over es s ≡ 0
  unfolding sent_over
  unrecorded_silent [] s h = refl
  unrecorded_silent (e ∷ es) s h =
      let (none_now, still) = event_unrecorded e s h in
      omega (arith, unrecorded_silent es (step e s) still)

  -- From any state of the filter and over any order of the calls of its timer, its tokens, its end
  -- and other traffic on the queue, each call whole, the queue accepts at most one deletion of the
  -- request's prompt length, none if it was deleted before, and none if the request was never
  -- reported; a deletion that the full queue refuses may be tried again.
  pub prompt_length_deleted_once :
      (es : List Event) (s : State X)
      → (sent_over es s ≤ 1)
        × (s.0.is_prompt_length_deleted ≡ true → sent_over es s ≡ 0)
        × (s.0.is_increase_recorded ≡ false → sent_over es s ≡ 0)
  prompt_length_deleted_once es (f, w) =
      let spent = sent_over_spends es (f, w) in
      (omega arith, λ h. ground (arith), unrecorded_silent es (f, w))
