-- ===== src/Filter/Race/Overlap.antt =====
-- Two calls of `deletePromptLength` of pkg/filter/filter.go that overlap.
use istio_llm_filter.Common.{
  ℕ, suc, ◌+◌, ◌≤◌, ◌≡◌, refl, ap, ◌∙◌, String, true, false, Option, none, some, List, [], ◌∷◌,
  ◌++◌, length, arith, length-append,
}
use istio_llm_filter.Config.{LlmProxyConfig}
use istio_llm_filter.Metadata.{Center, is_enabled, send, delete_request_prompt}
use istio_llm_filter.Metadata.Queue.{Task, AsyncQueue, Error, dispatch, with_timeout}
use istio_llm_filter.Filter.{Filter, World, State, Transcoder}
use istio_llm_filter.Filter.Prompt.{load_aware}
use istio_llm_filter.Filter.Accounting.{size, size-dispatch}
use istio_llm_filter.Filter.Race.{
  Pc, guard, test_timer, stop_timer, clear_timer, send_deletion, returned, panicked, Caller, timer,
  handler, advance, uninterrupted, Calls, interleave, both_called,
}
use istio_llm_filter.Filter.Race.Accesses.{
  deletion, is_barred, advance_guard, advance_test, advance_stop, advance_clear, past_guard,
}

-- The center is enabled, and the buffer of its queue has room for n more tasks.
pub record HasRoom (n : ℕ) (c : Center) : Type 0 where
  pub on : is_enabled c ≡ true
  pub room : length c.queue.task_chan + n ≤ c.queue.queue_size

-- What an accepted task leaves.
record Accepted (n : ℕ) (c : Center) (r : Center × Option Error) : Type 0 where
  no_error : r.1 ≡ none
  counted : size r.0 ≡ size c + 1
  room : HasRoom n r.0

dispatch_room :
    (n : ℕ) (t : Task) (q : AsyncQueue)
    → length q.task_chan + suc n ≤ q.queue_size
    → ((dispatch t q).1 ≡ none)
      × (length (dispatch t q).0.task_chan + n ≤ (dispatch t q).0.queue_size)
unfolding dispatch
dispatch_room n t q h =
    ground (arith, length-append {0} q.task_chan (with_timeout q.default_timeout t ∷ []))

send-Accepted : (n : ℕ) (t : Task) (c : Center) → HasRoom (suc n) c → Accepted n c (send t c)
send-Accepted n t c h =
    let (fine, room) = dispatch_room n t c.queue h.room in
    record {
      no_error = ground arith;
      counted = ground (arith, size-dispatch t c.queue);
      room = record { on = ground arith; room = ground arith };
    }

module _ (X : Transcoder) (config : LlmProxyConfig) (uuid : String) where
  abbrev at : Pc → Pc → State X → Calls X config uuid
  at a b s = record { timer_at = a; handler_at = b; shared = s }

  interleave_nil : (c : Calls X config uuid) → interleave X config uuid [] c ≡ c
  unfolding interleave
  interleave_nil c = refl

  by_timer :
      (cs : List Caller) (a b a' : Pc) (s s' : State X)
      → advance X config uuid a s ≡ (a', s')
      → interleave X config uuid (timer ∷ cs) (at a b s) ≡ interleave X config uuid cs (at a' b s')
  unfolding interleave
  by_timer cs a b a' s s' e =
      ap (λ (p : Pc × State X). interleave X config uuid cs (at p.0 b p.1)) e

  by_handler :
      (cs : List Caller) (a b b' : Pc) (s s' : State X)
      → advance X config uuid b s ≡ (b', s')
      → interleave X config uuid (handler ∷ cs) (at a b s)
        ≡ interleave X config uuid cs (at a b' s')
  unfolding interleave
  by_handler cs a b b' s s' e =
      ap (λ (p : Pc × State X). interleave X config uuid cs (at a p.0 p.1)) e

  -- Both calls have passed the guard.
  both_pass :
      (cs : List Caller) (s : State X)
      → is_barred X config uuid s ≡ false
      → interleave X config uuid (timer ∷ handler ∷ cs) (both_called X config uuid s)
        ≡ interleave X config uuid cs (at test_timer test_timer s)
  both_pass cs s passes =
      let pass = advance_guard X config uuid s ∙ rw passes refl in
      by_timer (handler ∷ cs) guard guard test_timer s s pass
      ∙ by_handler cs test_timer guard test_timer s s pass

  abbrev five : Caller → List Caller → List Caller
  five c cs = c ∷ c ∷ c ∷ c ∷ c ∷ cs

  timer_runs :
      (cs : List Caller) (b : Pc) (s : State X)
      → interleave X config uuid (five timer cs) (at test_timer b s)
        ≡ interleave X config uuid cs (at returned b (deletion X config uuid s))
  unfolding interleave uninterrupted
  timer_runs cs b s =
      ap (λ (p : Pc × State X). interleave X config uuid cs (at p.0 b p.1))
        (past_guard X config uuid s)

  handler_runs :
      (cs : List Caller) (a : Pc) (s : State X)
      → interleave X config uuid (five handler cs) (at a test_timer s)
        ≡ interleave X config uuid cs (at a returned (deletion X config uuid s))
  unfolding interleave uninterrupted
  handler_runs cs a s =
      ap (λ (p : Pc × State X). interleave X config uuid cs (at a p.0 p.1))
        (past_guard X config uuid s)

  abbrev settled : Filter X → World X → Center × Option Error → State X
  settled f w r = elim r.1 [
    | some _ ↦ (f, record w { center = r.0 })
    | none ↦ (record f { is_prompt_length_deleted = true }, record w { center = r.0 })
  ]

  settled_counts :
      (n : ℕ) (f : Filter X) (w : World X) (r : Center × Option Error)
      → Accepted n w.center r
      → (size (settled f w r).1.center ≡ size w.center + 1) × HasRoom n (settled f w r).1.center
  settled_counts n f w (c, none) k = (k.counted, k.room)
  settled_counts n f w (c, some e) k = absurd (cc k.no_error)

  deletion_counts :
      (n : ℕ) (s : State X)
      → HasRoom (suc n) s.1.center
      → (size (deletion X config uuid s).1.center ≡ size s.1.center + 1)
        × HasRoom n (deletion X config uuid s).1.center
  unfolding deletion delete_request_prompt
  deletion_counts n (f, w) h = settled_counts n _ w _ (send-Accepted n _ w.center h)

  -- Two calls that overlap, where the request was reported, its prompt length was not deleted, and the
  -- client has room for two tasks: by one order of the accesses both calls return and the queue has
  -- accepted two deletions of the one prompt length.
  pub overlap_deletes_twice :
      (s : State X)
      → load_aware X config s ≡ true
      → s.0.is_increase_recorded ≡ true
      → s.0.is_prompt_length_deleted ≡ false
      → HasRoom 2 s.1.center
      → (cs : List Caller) × (t : State X) × (interleave X config uuid cs
            (both_called X config uuid s)
          ≡ record { timer_at = returned; handler_at = returned; shared = t })
        × (size t.1.center ≡ size s.1.center + 2)
  overlap_deletes_twice s aware recorded kept h =
      let passes : is_barred X config uuid s ≡ false = rw (aware, recorded, kept) refl in
      let (one, room) = deletion_counts 1 s h in
      let (two, _) = deletion_counts 0 (deletion X config uuid s) room in
      (
        timer ∷ handler ∷ five timer (five handler []),
        deletion X config uuid (deletion X config uuid s),
        both_pass (five timer (five handler [])) s passes
            ∙ timer_runs (five handler []) test_timer s
            ∙ handler_runs [] returned (deletion X config uuid s)
            ∙ interleave_nil _,
        omega (arith, one, two),
      )

  abbrev both_at_test : List Caller
  both_at_test = timer ∷ handler ∷ timer ∷ handler ∷ []

  both_stop :
      (cs : List Caller) (f : Filter X) (w : World X)
      → is_barred X config uuid (f, w) ≡ false
      → f.timer_set ≡ true
      → interleave X config uuid (both_at_test ++ cs) (both_called X config uuid (f, w))
        ≡ interleave X config uuid cs (at stop_timer stop_timer (f, w))
  both_stop cs f w passes pending =
      both_pass (timer ∷ handler ∷ cs) (f, w) passes
      ∙ by_timer (handler ∷ cs) test_timer test_timer stop_timer (f, w) (f, w)
          (advance_test X config uuid f w true pending)
      ∙ by_handler cs stop_timer test_timer stop_timer (f, w) (f, w)
          (advance_test X config uuid f w true pending)

  timer_clears :
      (cs : List Caller) (f : Filter X) (w : World X)
      → f.timer_set ≡ true
      → interleave X config uuid (timer ∷ timer ∷ cs) (at stop_timer stop_timer (f, w))
        ≡ interleave X config uuid cs
            (at send_deletion stop_timer (record f { timer_set = false }, w))
  timer_clears cs f w pending =
      by_timer (timer ∷ cs) stop_timer stop_timer clear_timer (f, w) (f, w)
        (advance_stop X config uuid f w true pending)
      ∙ by_timer cs clear_timer stop_timer send_deletion (f, w) _ (advance_clear X config uuid f w)

  handler_clears :
      (cs : List Caller) (f : Filter X) (w : World X)
      → f.timer_set ≡ true
      → interleave X config uuid (handler ∷ handler ∷ cs) (at stop_timer stop_timer (f, w))
        ≡ interleave X config uuid cs
            (at stop_timer send_deletion (record f { timer_set = false }, w))
  handler_clears cs f w pending =
      by_handler (handler ∷ cs) stop_timer stop_timer clear_timer (f, w) (f, w)
        (advance_stop X config uuid f w true pending)
      ∙ by_handler cs stop_timer clear_timer send_deletion (f, w) _
          (advance_clear X config uuid f w)

  -- Two calls that overlap, where the request was reported, its prompt length was not deleted, and the
  -- timer is set: by some order of the accesses the handler's call panics in `Stop`, and by another one
  -- the call of the timer's goroutine does.
  pub overlap_panics :
      (s : State X)
      → load_aware X config s ≡ true
      → s.0.is_increase_recorded ≡ true
      → s.0.is_prompt_length_deleted ≡ false
      → s.0.timer_set ≡ true
      → ((cs : List Caller) × ((interleave X config uuid cs
              (both_called X config uuid s)).handler_at
            ≡ panicked))
        × ((cs : List Caller) × ((interleave X config uuid cs
                (both_called X config uuid s)).timer_at
              ≡ panicked))
  overlap_panics (f, w) aware recorded kept pending =
      let passes : is_barred X config uuid (f, w) ≡ false = rw (aware, recorded, kept) refl in
      (
        (
          both_at_test ++ timer ∷ timer ∷ handler ∷ [],
          ap (λ (c : Calls X config uuid). c.handler_at)
              (both_stop (timer ∷ timer ∷ handler ∷ []) f w passes pending
                ∙ timer_clears (handler ∷ []) f w pending
                ∙ by_handler [] send_deletion stop_timer panicked _ _
                    (advance_stop X config uuid _ w false refl)
                ∙ interleave_nil _),
        ),
        (
          both_at_test ++ handler ∷ handler ∷ timer ∷ [],
          ap (λ (c : Calls X config uuid). c.timer_at)
              (both_stop (handler ∷ handler ∷ timer ∷ []) f w passes pending
                ∙ handler_clears (timer ∷ []) f w pending
                ∙ by_timer [] stop_timer send_deletion panicked _ _
                    (advance_stop X config uuid _ w false refl)
                ∙ interleave_nil _),
        ),
      )
