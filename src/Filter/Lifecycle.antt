-- ===== src/Filter/Lifecycle.antt =====
-- The life of one filter of pkg/filter/filter.go: Envoy's calls, its timer and the rest of the process,
-- in any order, as a step relation.
pub mod Keeps
pub mod Always
use istio_llm_filter.Common.{ℕ, String, Bool, List, ◌≡◌, Result, ok}
use istio_llm_filter.Config.{LlmProxyConfig}
use istio_llm_filter.Metadata.Queue as Queue
use istio_llm_filter.Filter.{State, Transcoder, Headers, Status}
use istio_llm_filter.Filter.Prompt.{timer_fired, on_destroy}
use istio_llm_filter.Filter.Request.{Env, decode_headers, decode_data}
use istio_llm_filter.Filter.Response.{encode_headers, encode_data}

module _ (X : Transcoder) (config : LlmProxyConfig) (env : Env) (hostname : String)
    (decimal : ℕ → String) where
  -- One call that returns. `uuid` is the id that is generated if none is there yet.
  pub data Call : State X → State X → Type 0 where
    headers_in :
        {s : State X} (header : Headers) (end_stream : Bool)
        → Call s (decode_headers X config env header end_stream s).0
    data_in :
        {s s' : State X} (buffer : List ℕ) (end_stream : Bool) (status : Status)
        → decode_data X config env buffer end_stream s ≡ ok (s', status)
        → Call s s'
    headers_out :
        {s : State X} (header : Headers) (status : ℕ) (end_stream : Bool)
        → Call s (encode_headers X config hostname decimal header status end_stream s).0
    data_out :
        {s s' : State X} (uuid : String) (now : ℕ) (buffer out : List ℕ) (end_stream : Bool)
        (status : Status)
        → encode_data X config hostname decimal uuid now buffer end_stream s ≡ ok (s', out, status)
        → Call s s'
    timer : {s : State X} (uuid : String) → Call s (timer_fired X config uuid s)
    destroyed : {s : State X} (uuid : String) → Call s (on_destroy X config uuid s)
    elsewhere :
        {s : State X} (e : Queue.Event)
        → Call s (
          s.0,
          record s.1 { center = record s.1.center { queue = Queue.step e s.1.center.queue } },
        )

  pub data Reach (s : State X) : State X → Type 0 where
    here : Reach s s
    next : {t u : State X} → Reach s t → Call t u → Reach s u
