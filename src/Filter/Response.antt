-- ===== src/Filter/Response.antt =====
-- The response path of pkg/filter/filter.go: `EncodeHeaders`, `EncodeData` and `processResponseData`.
-- A write through the nil header map panics.
use istio_llm_filter.Common.{
  ℕ, String, Bool, true, false, Option, none, some, List, [], Result, ok, panic, ◌>>=◌, length, leb,
  str_eq, if◌then◌else◌,
}
use istio_llm_filter.Config.{LlmProxyConfig}
use istio_llm_filter.Types.Response.{Message, text}
use istio_llm_filter.Filter.{
  Filter, State, Transcoder, Headers, set_header, add_header, Status, continue, stop_and_buffer,
  local_reply, bad_response,
}
use istio_llm_filter.Filter.Prompt.{save_kv_cache, delete_prompt_length, record_token_time}

-- `fmt.Sprintf("%d", n)` is the argument `decimal`.
module _ (X : Transcoder) (config : LlmProxyConfig) (hostname : String) (decimal : ℕ → String) where
  -- What a handler of the response leaves: the state, the headers or the buffer, and the status.
  abbrev pub add_via : Headers → Headers
  add_via header =
      if str_eq hostname "" then header else add_header "x-llm-proxy-via" hostname header

  -- The end of `EncodeHeaders`, after the transcoder has accepted the headers.
  unfoldable pub finish_headers : Bool → Headers → State X → State X × Headers × Status
  finish_headers true header s = (bad_response (text "no response data") s, header, local_reply)
  finish_headers false header (f, w) =
      if f.is_stream
      then (let h =
            set_header "x-accel-buffering" "no"
              (set_header "content-type" "text/event-stream;charset=UTF-8" header) in
          ((record f { resp_header = some h }, w), h, continue))
      else (let h = set_header "content-type" "application/json" header in
          ((record f { resp_header = some h }, w), h, stop_and_buffer))

  -- `EncodeHeaders`, for a response of the given status.
  unfoldable pub encode_headers : Headers → ℕ → Bool → State X → State X × Headers × Status
  unfolding finish_headers
  encode_headers header0 status end_stream s0 =
      let header = add_via header0 in
      if leb 400 status
      then (s0, header, continue)
      else (let (f, w) = save_kv_cache X config s0 in
          elim f.transcoder [
            | none ↦ finish_headers end_stream header (f, w)
            | some t ↦
                let (t', e) = X.decode_headers t in
                let f' = record f { transcoder = some t' } in
                elim e [
                  | some message ↦ (bad_response message (f', w), header, local_reply)
                  | none ↦ finish_headers end_stream header (f', w)
                ]
          ])

  -- The branch of `processResponseData` for an error of the transcoder: a stream is ended.
  abbrev pub after_error : Option Message → Filter X → Result Message (Filter X)
  after_error none f = ok f
  after_error (some e) f =
      if f.is_stream
      then elim f.resp_header [
        | none ↦ panic
        | some h ↦ ok (record f {
          resp_header = some (set_header ":status" "400" h);
          is_stream = false;
          drop_resp_data = true;
        })
      ]
      else ok f

  -- `len(outputBuf)`, and the bytes that the buffer is left with.
  abbrev pub output_bytes : Option (List ℕ) → List ℕ
  output_bytes none = []
  output_bytes (some bytes) = bytes

  abbrev pub set_content_length : Option (List ℕ) → Filter X → Filter X
  set_content_length out f = if f.is_stream then f else elim f.resp_header [
    | none ↦ f
    | some h ↦ record f {
      resp_header = some (set_header "content-length" (decimal (length (output_bytes out))) h);
    }
  ]

  -- `processResponseData` on the stored response headers: the state and the buffer that goes on.
  unfoldable pub process_response_data :
      List ℕ → State X → Result Message (State X × List ℕ × Status)
  process_response_data buffer (f, w) =
      if f.drop_resp_data then ok ((f, w), [], continue) else elim f.transcoder [
        | none ↦ ok ((f, w), buffer, continue)
        | some t ↦
            let (t', out, e) = X.get_response_data buffer t in
            after_error e (record f { transcoder = some t' }) >>= λ f'.
            ok ((set_content_length out f', w), output_bytes out, continue)
      ]

  -- `EncodeData`: the state, what the buffer is left with, and the status.
  unfoldable pub encode_data :
      String → ℕ → List ℕ → Bool → State X → Result Message (State X × List ℕ × Status)
  encode_data uuid now buffer end_stream s0 =
      let s = record_token_time X config uuid now s0 in
      if s.0.is_stream
      then process_response_data buffer s
      else (if end_stream
          then process_response_data buffer (delete_prompt_length X config uuid s)
          else ok (s, buffer, stop_and_buffer))

  -- `EncodeTrailers`
  abbrev pub encode_trailers : State X → State X × Status
  encode_trailers s = (s, continue)
