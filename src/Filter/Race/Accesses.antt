-- ===== src/Filter/Race/Accesses.antt =====
-- A call of `deletePromptLength` of pkg/filter/filter.go access by access, against the whole function.
use istio_llm_filter.Common.{
  ℕ, zero, suc, ◌≡◌, refl, sym, ap, ◌∙◌, String, Bool, true, false, not, ◌||◌, none, some,
  if◌then◌else◌, arith, Bool-cases, inl, inr,
}
use istio_llm_filter.Config.{LlmProxyConfig}
use istio_llm_filter.Metadata.{delete_request_prompt}
use istio_llm_filter.Filter.{Filter, World, State, Transcoder}
use istio_llm_filter.Filter.Prompt.{with_unique_id, load_aware, delete_prompt_length}
use istio_llm_filter.Filter.Race.{
  Pc, guard, test_timer, stop_timer, clear_timer, send_deletion, returned, panicked, advance,
  uninterrupted,
}

module _ (X : Transcoder) (config : LlmProxyConfig) (uuid : String) where
  -- What a call does once it has passed the guard.
  unfoldable pub deletion : State X → State X
  deletion (f, w) =
      let f' = with_unique_id uuid (record f { timer_set = false }) in
      let (center, e) = delete_request_prompt f'.trace_id f'.unique_id w.center in
      elim e [
        | some _ ↦ (f', record w { center = center })
        | none ↦ (record f' { is_prompt_length_deleted = true }, record w { center = center })
      ]

  abbrev pub is_barred : State X → Bool
  is_barred (f, w) =
      not (load_aware X config (f, w)) || not f.is_increase_recorded || f.is_prompt_length_deleted

  pub delete_prompt_length_cases :
      (s : State X) → delete_prompt_length X config uuid s ≡ (if is_barred s then s else deletion s)
  unfolding delete_prompt_length deletion
  delete_prompt_length_cases (f, w) = refl

  pub advance_guard :
      (s : State X)
      → advance X config uuid guard s ≡ (if is_barred s then (returned, s) else (test_timer, s))
  unfolding advance
  advance_guard (f, w) = refl

  pub advance_test :
      (f : Filter X) (w : World X) (b : Bool)
      → f.timer_set ≡ b
      → advance X config uuid test_timer (f, w)
        ≡ (if b then (stop_timer, (f, w)) else (send_deletion, (f, w)))
  unfolding advance
  advance_test f w b e = rw e refl

  pub advance_stop :
      (f : Filter X) (w : World X) (b : Bool)
      → f.timer_set ≡ b
      → advance X config uuid stop_timer (f, w)
        ≡ (if b then (clear_timer, (f, w)) else (panicked, (f, w)))
  unfolding advance
  advance_stop f w b e = rw e refl

  pub advance_clear :
      (f : Filter X) (w : World X)
      → advance X config uuid clear_timer (f, w)
        ≡ (send_deletion, (record f { timer_set = false }, w))
  unfolding advance
  advance_clear f w = refl

  stays_returned :
      (n : ℕ) (s : State X) → uninterrupted X config uuid n (returned, s) ≡ (returned, s)
  unfolding uninterrupted advance
  stays_returned zero s = refl
  stays_returned (suc n) s = stays_returned n s

  after_clear :
      (f : Filter X) (w : World X)
      → uninterrupted X config uuid 2 (send_deletion, (record f { timer_set = false }, w))
        ≡ (returned, deletion (f, w))
  unfolding uninterrupted advance deletion
  after_clear f w = ground arith

  -- From the test for the timer on, with nothing between the accesses.
  pub past_guard :
      (s : State X) → uninterrupted X config uuid 5 (test_timer, s) ≡ (returned, deletion s)
  unfolding uninterrupted
  past_guard (f, w) = elim (Bool-cases f.timer_set) [
    | inl pending ↦
        ap (λ (c : Pc × State X). uninterrupted X config uuid 4 c) (advance_test f w true pending)
        ∙ ap (λ (c : Pc × State X). uninterrupted X config uuid 3 c) (advance_stop f w true pending)
        ∙ ap (λ (c : Pc × State X). uninterrupted X config uuid 2 c) (advance_clear f w)
        ∙ after_clear f w
    | inr idle ↦
        let same : ◌≡◌ {A = Filter X} f (record f { timer_set = false }) =
          ap (λ (b : Bool). record f { timer_set = b }) idle in
        ap (λ (c : Pc × State X). uninterrupted X config uuid 4 c)
          (advance_test f w false idle ∙ ap (λ (g : Filter X). (send_deletion, (g, w))) same)
        ∙ ap (λ (c : Pc × State X). uninterrupted X config uuid 2 c) (after_clear f w)
        ∙ stays_returned 2 (deletion (f, w))
  ]

  -- A call that nothing interrupts is `delete_prompt_length`: from every state it returns after six
  -- accesses at most, and leaves the filter and the queue as the whole function does.
  uninterrupted_lem :
      (s : State X)
      → uninterrupted X config uuid 6 (guard, s) ≡ (returned, delete_prompt_length X config uuid s)
  unfolding uninterrupted
  uninterrupted_lem s = elim (Bool-cases (is_barred s)) [
    | inl barred ↦
        ap (λ (c : Pc × State X). uninterrupted X config uuid 5 c)
          (advance_guard s ∙ rw barred refl)
        ∙ stays_returned 5 s
        ∙ ap (λ (t : State X). (returned, t)) (sym (delete_prompt_length_cases s ∙ rw barred refl))
    | inr passes ↦
        ap (λ (c : Pc × State X). uninterrupted X config uuid 5 c)
          (advance_guard s ∙ rw passes refl)
        ∙ past_guard s
        ∙ ap (λ (t : State X). (returned, t)) (sym (delete_prompt_length_cases s ∙ rw passes refl))
  ]
