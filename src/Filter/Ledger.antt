-- ===== src/Filter/Ledger.antt =====
-- What one request of pkg/filter/filter.go tells the metadata center, as an abstract ledger, and that
-- the operations of the filter follow it.
pub mod Operations
pub mod Runs
use mathlib.Core.List.{append-nil, append_assoc, map-append}
use istio_llm_filter.Common.{
  ℕ, ◌≡◌, ◌⊎◌, refl, sym, ap, ◌∙◌, subst, inl, inr, String, Bool, true, false, not, ◌||◌, Option,
  none, some, List, [], ◌∷◌, ◌++◌, map, str_eq, str_eq_iff, if◌then◌else◌, arith, Bool-cases, ◌==◌,
  length,
}
use istio_llm_filter.Config.{LlmProxyConfig}
use istio_llm_filter.Common.Int.{ℤ}
use istio_llm_filter.Metadata.{
  Center, is_enabled, send, add_request as center_add_request, delete_request,
  delete_request_prompt, save_kv_cache as center_save_kv_cache, load_stats_path, load_prompt_path,
  cache_save_path,
}
use istio_llm_filter.Metadata.Queue as Queue
use istio_llm_filter.Metadata.Queue.{
  Task, Body, Error, AsyncQueue, dispatch, with_timeout, accepted_by,
}
use istio_llm_filter.Metadata.Queue.Order.{IsValid, log, log-sent, log-received, step-IsValid}
use istio_llm_filter.Filter.{Filter, World, State, Transcoder}
use istio_llm_filter.Filter.Prompt.{
  with_unique_id, add_request, delete_prompt_length, decrease_request, save_kv_cache, timer_fired,
  record_token_time, on_destroy, load_aware,
}

-- A request to the metadata center: its method, its path and its body.
abbrev pub Report : Type 0
Report = String × String × Body

abbrev pub report_of : Task → Report
report_of t = (t.method, t.url, t.body)

-- All that the queue has accepted so far.
abbrev pub said : Center → List Report
said c = map report_of (log c.queue)

-- Whether the request is reported, and whether its prompt length is withdrawn.
abbrev pub Ledger : Type 0
Ledger = Bool × Bool

-- What may be told of the request with an id. A withdrawal of the prompt length comes once, after the
-- report; the request is withdrawn only after the report; and all of these name the same id.
pub data Told (id : String) : Ledger → List Report → Ledger → Type 0 where
  quiet : (l : Ledger) → Told id l [] l
  reports :
      (b d : Bool) (cluster ip : String) (len now : ℕ)
      → Told id
          (b, d)
          (("POST", load_stats_path, Body.inference id cluster ip len now) ∷ [])
          (true, d)
  withdraws_prompt :
      Told id
        (true, false)
        (("DELETE", load_prompt_path, Body.inference id "" "" 0 0) ∷ [])
        (true, true)
  withdraws :
      (d : Bool)
      → Told id (true, d) (("DELETE", load_stats_path, Body.inference id "" "" 0 0) ∷ []) (true, d)
  caches :
      (l : Ledger) (cluster ip : String) (hashes : List ℕ)
      → Told id l (("POST", cache_save_path, Body.cache_save cluster ip hashes) ∷ []) l
  after :
      {l m n : Ledger} {xs ys : List Report}
      → Told id l xs m
      → Told id m ys n
      → Told id l (xs ++ ys) n

abbrev pub answered : Option Error → Report → List Report
answered none r = r ∷ []
answered (some e) r = []

report_of-with_timeout : (d : ℤ) (t : Task) → report_of (with_timeout d t) ≡ report_of t
report_of-with_timeout d t = ground arith

answered_lem :
    (e : Option Error) (d : ℤ) (t : Task)
    → map report_of (accepted_by e (with_timeout d t)) ≡ answered e (report_of t)
answered_lem none d t = ap (λ (r : Report). r ∷ []) (report_of-with_timeout d t)
answered_lem (some e) d t = refl

-- What a send to an enabled center with a valid queue leaves.
pub record Sent (w : ℕ) (x : Report) (c : Center) (r : Center × Option Error) : Type 0 where
  pub told : said r.0 ≡ said c ++ answered r.1 x
  pub valid : IsValid w r.0.queue
  pub enabled : r.0.host_env ≡ c.host_env

pub if_true : {A : Type 0} (b : Bool) (x y : A) → b ≡ true → (if b then x else y) ≡ x
if_true true x y h = refl
if_true false x y h = absurd (cc h)

pub send-Sent :
    (w : ℕ) (t : Task) (c : Center)
    → is_enabled c ≡ true
    → IsValid w c.queue
    → Sent w (report_of t) c (send t c)
unfolding Queue.step
send-Sent w t c on v =
    let (q, e) = dispatch t c.queue in
    let sent : send t c ≡ (record c { queue = q }, e) = if_true (is_enabled c) _ _ on in
    subst (Sent w (report_of t) c) (sym sent) (record {
      told =
          ap (map report_of) (log-sent w t c.queue v)
          ∙ map-append report_of (log c.queue)
              (accepted_by e (with_timeout c.queue.default_timeout t))
          ∙ ap (λ l. said c ++ l) (answered_lem e c.queue.default_timeout t);
      valid = step-IsValid w (Queue.sent t) c.queue v;
      enabled = refl;
    })

-- The id of the request, once it is asked for.
abbrev pub request_id : {X : Transcoder} → String → Filter X → String
request_id uuid f = if str_eq f.unique_id "" then uuid else f.unique_id

abbrev pub ledger : {X : Transcoder} → Filter X → Ledger
ledger f = (f.is_increase_recorded, f.is_prompt_length_deleted)

module _ {X : Transcoder} (w : ℕ) (uuid : String) where
  -- What holds between the events of a request.
  pub record IsOpen (s : State X) : Type 0 where
    pub on : is_enabled s.1.center ≡ true
    pub valid : IsValid w s.1.center.queue

  -- A step of the filter tells the center some reports, and the ledger allows them.
  pub record Follows (s s' : State X) : Type 0 where
    pub made : List Report
    pub told : said s'.1.center ≡ said s.1.center ++ made
    pub allowed : Told (request_id uuid s.0) (ledger s.0) made (ledger s'.0)
    pub same_id : request_id uuid s'.0 ≡ request_id uuid s.0
    pub still : IsOpen s'

  pub Follows-refl : (s : State X) → IsOpen s → Follows s s
  Follows-refl s o = record {
    made = [];
    told = sym (append-nil (said s.1.center));
    allowed = quiet (ledger s.0);
    same_id = refl;
    still = o;
  }

  pub Follows-trans : (s t u : State X) → Follows s t → Follows t u → Follows s u
  Follows-trans s t u p q = record {
    made = p.made ++ q.made;
    told = q.told ∙ ap (λ l. l ++ q.made) p.told ∙ append_assoc (said s.1.center) p.made q.made;
    allowed =
        after p.allowed
          (subst (λ id. Told id (ledger t.0) q.made (ledger u.0)) p.same_id q.allowed);
    same_id = q.same_id ∙ p.same_id;
    still = q.still;
  }

  -- The filter changes in what the ledger does not see.
  pub Follows-filter :
      (f g : Filter X) (v : World X)
      → ledger g ≡ ledger f
      → request_id uuid g ≡ request_id uuid f
      → IsOpen (f, v)
      → Follows (f, v) (g, v)
  Follows-filter f g v same id o = record {
    made = [];
    told = sym (append-nil (said v.center));
    allowed = subst (λ l. Told (request_id uuid f) (ledger f) [] l) (sym same) (quiet (ledger f));
    same_id = id;
    still = record { on = o.on; valid = o.valid };
  }

  pub unique_id-with_unique_id :
      (f : Filter X) → (with_unique_id uuid f).unique_id ≡ request_id uuid f
  unique_id-with_unique_id f = ground arith

  -- The id stays once it was asked for.
  pub request_id_kept :
      (f g : Filter X)
      → g.unique_id ≡ (with_unique_id uuid f).unique_id
      → request_id uuid g ≡ request_id uuid f
  request_id_kept f g h = ground (arith, str_eq_iff f.unique_id "", str_eq_iff uuid "")

  -- A report that the queue answers: the filter goes to g if it was accepted, and else to h.
  pub Follows-answered :
      (f g h : Filter X) (v : World X) (x : Report) (r : Center × Option Error)
      → IsOpen (f, v)
      → Sent w x v.center r
      → Told (request_id uuid f) (ledger f) (x ∷ []) (ledger g)
      → ledger h ≡ ledger f
      → request_id uuid g ≡ request_id uuid f
      → request_id uuid h ≡ request_id uuid f
      → Follows
          (f, v)
          (elim r.1 [
            | some _ ↦ (h, record v { center = r.0 })
            | none ↦ (g, record v { center = r.0 })
          ])
  Follows-answered f g h v x (c, none) o k allowed quiet_h id_g id_h = record {
    made = x ∷ [];
    told = k.told;
    allowed = allowed;
    same_id = id_g;
    still = record {
      on = ap (λ (e : String). not (str_eq e "")) k.enabled ∙ o.on;
      valid = k.valid;
    };
  }
  Follows-answered f g h v x (c, some e) o k allowed quiet_h id_g id_h = record {
    made = [];
    told = k.told;
    allowed =
        subst (λ l. Told (request_id uuid f) (ledger f) [] l) (sym quiet_h) (quiet (ledger f));
    same_id = id_h;
    still = record {
      on = ap (λ (e : String). not (str_eq e "")) k.enabled ∙ o.on;
      valid = k.valid;
    };
  }
