-- ===== src/OpenAi/Transparency.antt =====
-- `GetResponseData` of pkg/transcoder/openai/transcoder.go passes responses on unchanged.
use istio_llm_filter.Common.{
  codes, ℕ, ◌≡◌, refl, Bool, ◌&&◌, none, some, List, if◌then◌else◌, arith, Bool-cases, inl, inr,
}
use istio_llm_filter.Config.{Store, LlmProxyConfig}
use istio_llm_filter.Types.Response.{format_bytes}
use istio_llm_filter.OpenAi.Json.{has_prefix, contains}
use istio_llm_filter.OpenAi.{Codec, OpenAi, is_direct, get_response_data}

-- A chunk that ends a stream: the transcoder streams to a backend of its own protocol, and the chunk
-- is a JSON object that holds the word "error" in quotes.
abbrev pub is_stream_error : List ℕ → OpenAi → Bool
is_stream_error body t =
    is_direct t.backend_protocol
    && (t.is_stream && (has_prefix body (codes "{") && contains body (codes "\"error\"")))

-- What stays of the transcoder over a response: all but the token counts of the log.
pub record SameRoute (t u : OpenAi) : Type 0 where
  pub request : u.request ≡ t.request
  pub backend_protocol : u.backend_protocol ≡ t.backend_protocol
  pub is_stream : u.is_stream ≡ t.is_stream
  pub model_name : u.model_name ≡ t.model_name

module _ (C : Codec) (store : Store) (config : LlmProxyConfig) where
  -- Each chunk of a response either goes on byte for byte and without an error, or, exactly if it is
  -- an error object in a stream from a backend that is not transcoded, is replaced by an error that
  -- quotes it; the request, the backend and the mode of the transcoder stay, so that the next chunk
  -- is treated by the same test.
  pub get_response_data_transparent :
      (body : List ℕ) (t : OpenAi)
      → let (u, out, e) = get_response_data C store config body t in
        (out ≡ (if is_stream_error body t then none else some body))
        × (e ≡ (
            if is_stream_error body t then some (format_bytes "stream error: %s" body) else none))
        × SameRoute t u
  unfolding get_response_data
  get_response_data_transparent body t = elim (Bool-cases (is_direct t.backend_protocol)) [
    | inr other ↦ rw other (
      refl,
      refl,
      record { request = refl; backend_protocol = refl; is_stream = refl; model_name = refl },
    )
    | inl direct ↦ elim (Bool-cases t.is_stream) [
      | inl streams ↦ ground arith
      | inr whole ↦ ground arith
    ]
  ]
