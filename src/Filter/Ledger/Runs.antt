-- ===== src/Filter/Ledger/Runs.antt =====
-- The life of one request of pkg/filter/filter.go beside other users of the queue, against the ledger.
use mathlib.Core.List.{append-nil, append_assoc, map-append}
use istio_llm_filter.Common.{ℕ, ◌≡◌, refl, sym, ap, ◌∙◌, subst, String, List, [], ◌∷◌, ◌++◌, map}
use istio_llm_filter.Config.{LlmProxyConfig}
use istio_llm_filter.Metadata.Queue as Queue
use istio_llm_filter.Metadata.Queue.{Task, AsyncQueue, dispatch, with_timeout, accepted_by}
use istio_llm_filter.Metadata.Queue.Order.{step-IsValid, log, log-sent, log-received}
use istio_llm_filter.Filter.{State, Transcoder}
use istio_llm_filter.Filter.Prompt.{
  add_request, delete_prompt_length, save_kv_cache, timer_fired, record_token_time, on_destroy,
}
use istio_llm_filter.Filter.Ledger.{
  Report, report_of, Told, quiet, after, said, ledger, request_id, IsOpen, Follows,
}
use istio_llm_filter.Filter.Ledger.Operations.{
  Follows-add_request, Follows-delete_prompt_length, Follows-save_kv_cache, Follows-timer_fired,
  Follows-record_token_time, Follows-on_destroy,
}

-- What can happen: the request is sent, the timer fires, a token comes, the response ends, its headers
-- come, the filter is destroyed, or something else in the process uses the queue.
pub data Event : Type 0 where
  requested : ℕ → Event
  timer : Event
  token : ℕ → Event
  finished : Event
  answered : Event
  destroyed : Event
  elsewhere : Queue.Event → Event

-- Two lists of reports woven into one, each in its order.
pub data Woven : List Report → List Report → List Report → Type 0 where
  nothing : Woven [] [] []
  left :
      {xs ys zs : List Report} (new : List Report)
      → Woven xs ys zs
      → Woven (new ++ xs) ys (new ++ zs)
  right :
      {xs ys zs : List Report} (new : List Report)
      → Woven xs ys zs
      → Woven xs (new ++ ys) (new ++ zs)

module _ (X : Transcoder) (config : LlmProxyConfig) (w : ℕ) (uuid : String) where
  unfoldable pub step : Event → State X → State X
  step (requested now) s = add_request X config uuid now s
  step timer s = timer_fired X config uuid s
  step (token now) s = record_token_time X config uuid now s
  step finished s = delete_prompt_length X config uuid s
  step answered s = save_kv_cache X config s
  step destroyed s = on_destroy X config uuid s
  step (elsewhere e) (f, v) =
      (f, record v { center = record v.center { queue = Queue.step e v.center.queue } })

  unfoldable pub run : List Event → State X → State X
  run [] s = s
  run (e ∷ es) s = run es (step e s)

  -- What the others have the queue accept.
  abbrev pub others_in : Event → State X → List Report
  others_in (elsewhere (Queue.sent t)) s =
      let q = s.1.center.queue in
      map report_of (accepted_by (dispatch t q).1 (with_timeout q.default_timeout t))
  others_in e s = []

  unfoldable pub others_over : List Event → State X → List Report
  others_over [] s = []
  others_over (e ∷ es) s = others_in e s ++ others_over es (step e s)

  -- The reports of the request itself over a run, and all that the queue accepted in it.
  pub record Kept (es : List Event) (s : State X) : Type 0 where
    pub own : List Report
    pub all : List Report
    pub allowed : Told (request_id uuid s.0) (ledger s.0) own (ledger (run es s).0)
    pub woven : Woven own (others_over es s) all
    pub told : said (run es s).1.center ≡ said s.1.center ++ all

  -- One event of the request itself, and the rest of the run.
  own_event :
      (e : Event) (es : List Event) (s : State X)
      → others_in e s ≡ []
      → Follows w uuid s (step e s)
      → Kept es (step e s)
      → Kept (e ∷ es) s
  unfolding run others_over
  own_event e es s none_else k r = record {
    own = k.made ++ r.own;
    all = k.made ++ r.all;
    allowed = after k.allowed (
        subst (λ id. Told id (ledger (step e s).0) r.own (ledger (run es (step e s)).0)) k.same_id
          r.allowed);
    woven =
        subst (λ l. Woven (k.made ++ r.own) (l ++ others_over es (step e s)) (k.made ++ r.all))
          (sym none_else) (left k.made r.woven);
    told = r.told ∙ ap (λ l. l ++ r.all) k.told ∙ append_assoc (said s.1.center) k.made r.all;
  }

  -- One event of the others, and the rest of the run.
  other_event :
      (e : Queue.Event) (es : List Event) (s : State X)
      → said (step (elsewhere e) s).1.center ≡ said s.1.center ++ others_in (elsewhere e) s
      → Kept es (step (elsewhere e) s)
      → Kept (elsewhere e ∷ es) s
  unfolding run others_over step
  other_event e es (f, v) more r = record {
    own = r.own;
    all = others_in (elsewhere e) (f, v) ++ r.all;
    allowed = r.allowed;
    woven = right (others_in (elsewhere e) (f, v)) r.woven;
    told = r.told ∙ ap (λ l. l ++ r.all) more ∙ append_assoc (said v.center) _ r.all;
  }

  said-elsewhere :
      (e : Queue.Event) (s : State X)
      → IsOpen w uuid s
      → said (step (elsewhere e) s).1.center ≡ said s.1.center ++ others_in (elsewhere e) s
  unfolding step Queue.step
  said-elsewhere (Queue.sent t) (f, v) o =
      let q = v.center.queue in
      ap (map report_of) (log-sent w t q o.valid)
      ∙ map-append report_of (log q)
          (accepted_by (dispatch t q).1 (with_timeout q.default_timeout t))
  said-elsewhere Queue.received (f, v) o =
      ap (map report_of) (unfold Queue.step in log-received v.center.queue)
      ∙ sym (append-nil (said v.center))

  IsOpen-elsewhere :
      (e : Queue.Event) (s : State X) → IsOpen w uuid s → IsOpen w uuid (step (elsewhere e) s)
  unfolding step
  IsOpen-elsewhere e (f, v) o = record {
    on = o.on;
    valid = step-IsValid w e v.center.queue o.valid;
  }

  -- With an enabled center and a valid queue, over any order of the request's events, each a whole
  -- call, of the events of others at the queue, and of its workers' receives, and with one id
  -- generated at the first use: what the request has the queue accept is allowed by the ledger,
  -- from where the filter stands to where it ends. So it withdraws only after its accepted report,
  -- withdraws its prompt length at most once, and gives one id. The queue accepts just these
  -- reports woven with those of the others, each in order.
  pub run_follows : (es : List Event) (s : State X) → IsOpen w uuid s → Kept es s
  unfolding run others_over step
  run_follows [] s o = record {
    own = [];
    all = [];
    allowed = quiet (ledger s.0);
    woven = nothing;
    told = sym (append-nil (said s.1.center));
  }
  run_follows (requested now ∷ es) s o =
      let k = Follows-add_request X config w uuid now s o in
      own_event (requested now) es s refl k (run_follows es _ k.still)
  run_follows (timer ∷ es) s o =
      let k = Follows-timer_fired X config w uuid s o in
      own_event timer es s refl k (run_follows es _ k.still)
  run_follows (token now ∷ es) s o =
      let k = Follows-record_token_time X config w uuid now s o in
      own_event (token now) es s refl k (run_follows es _ k.still)
  run_follows (finished ∷ es) s o =
      let k = Follows-delete_prompt_length X config w uuid s o in
      own_event finished es s refl k (run_follows es _ k.still)
  run_follows (answered ∷ es) s o =
      let k = Follows-save_kv_cache X config w uuid s o in
      own_event answered es s refl k (run_follows es _ k.still)
  run_follows (destroyed ∷ es) s o =
      let k = Follows-on_destroy X config w uuid s o in
      own_event destroyed es s refl k (run_follows es _ k.still)
  run_follows (elsewhere e ∷ es) s o =
      other_event e es s (said-elsewhere e s o) (run_follows es _ (IsOpen-elsewhere e s o))
