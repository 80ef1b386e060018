-- ===== src/Filter/Race.antt =====
-- `deletePromptLength` of pkg/filter/filter.go, access by access. The timer's callback runs in a goroutine
-- of its own and shares the filter with the handlers, without a lock. The guard counts as one access:
-- of what it reads, only `isPromptLengthDeleted` changes while the calls run.
pub mod Accesses
pub mod Overlap
mod Tests
use istio_llm_filter.Common.{
  ℕ, zero, suc, String, true, false, not, ◌||◌, none, some, List, [], ◌∷◌, if◌then◌else◌,
}
use istio_llm_filter.Config.{LlmProxyConfig}
use istio_llm_filter.Metadata.{delete_request_prompt}
use istio_llm_filter.Filter.{State, Transcoder}
use istio_llm_filter.Filter.Prompt.{with_unique_id, load_aware}

-- What a call does next: the guard, the test for a timer, its `Stop`, its reset to nil, the deletion at
-- the client, and the flag; or it has returned, or panicked.
pub data Pc : Type 0 where
  guard : Pc
  test_timer : Pc
  stop_timer : Pc
  clear_timer : Pc
  send_deletion : Pc
  set_deleted : Pc
  returned : Pc
  panicked : Pc

pub data Caller : Type 0 where
  timer : Caller
  handler : Caller

module _ (X : Transcoder) (config : LlmProxyConfig) (uuid : String) where
  -- One access. `Stop` panics on a nil timer.
  unfoldable pub advance : Pc → State X → Pc × State X
  advance guard (f, w) =
      if not (load_aware X config (f, w))
        || not f.is_increase_recorded
        || f.is_prompt_length_deleted
      then (returned, (f, w))
      else (test_timer, (f, w))
  advance test_timer (f, w) = if f.timer_set then (stop_timer, (f, w)) else (send_deletion, (f, w))
  advance stop_timer (f, w) = if f.timer_set then (clear_timer, (f, w)) else (panicked, (f, w))
  advance clear_timer (f, w) = (send_deletion, (record f { timer_set = false }, w))
  advance send_deletion (f, w) =
      let f' = with_unique_id uuid f in
      let (center, e) = delete_request_prompt f'.trace_id f'.unique_id w.center in
      elim e [
        | some _ ↦ (returned, (f', record w { center = center }))
        | none ↦ (set_deleted, (f', record w { center = center }))
      ]
  advance set_deleted (f, w) = (returned, (record f { is_prompt_length_deleted = true }, w))
  advance returned s = (returned, s)
  advance panicked s = (panicked, s)

  -- A call that nothing interrupts, for some accesses.
  unfoldable pub uninterrupted : ℕ → Pc × State X → Pc × State X
  uninterrupted zero c = c
  uninterrupted (suc n) (pc, s) = uninterrupted n (advance pc s)

  -- The calls of the timer's callback and of a handler, and the filter that they share.
  pub record Calls : Type 0 where
    pub timer_at : Pc
    pub handler_at : Pc
    pub shared : State X

  unfoldable pub interleave : List Caller → Calls → Calls
  interleave [] c = c
  interleave (timer ∷ cs) c =
      let (pc, s) = advance c.timer_at c.shared in
      interleave cs (record c { timer_at = pc; shared = s })
  interleave (handler ∷ cs) c =
      let (pc, s) = advance c.handler_at c.shared in
      interleave cs (record c { handler_at = pc; shared = s })

  abbrev pub both_called : State X → Calls
  both_called s = record { timer_at = guard; handler_at = guard; shared = s }
