-- ===== src/OpenAi/Tests.antt =====
-- One request with a decoder that knows it, and the theorems at it.
use istio_llm_filter.Common.{
  ℕ, zero, suc, ◌≡◌, ◌⊎◌, refl, subst, Option, true, none, some, List, [], ◌∷◌, ◌++◌, length, ok,
  panic, codes, arith, if◌then◌else◌,
}
use istio_llm_filter.Common.Sort.{by_insertion}
use istio_llm_filter.Common.Int.{pos}
use istio_llm_filter.Config.{Rule}
use istio_llm_filter.Config.Ready.{IsReady}
use istio_llm_filter.Config.Route.{get_candidate_rule, get_model_mappings}
use istio_llm_filter.Config.Tests.{ready, defaulted_store, canary, canary_headers}
use istio_llm_filter.Types.Request.{RequestData, LbOptions}
use istio_llm_filter.Types.Response.{format_bytes}
use istio_llm_filter.Hash.{prompt_to_hash}
use istio_llm_filter.Hash.Tests.{keep_bytes, by_two}
use istio_llm_filter.FilterConfig.Tests.{decode, braces, decode-NamesNoMappings, accepted}
use istio_llm_filter.FilterConfig.Ready.{parse_config-IsReady}
use istio_llm_filter.OpenAi.{
  Codec, OpenAi, ChatCompletionRequest, new_transcoder, get_request_data, request_data, on_decoded,
  route_by, on_candidate, get_response_data,
}
use istio_llm_filter.OpenAi.Json.{contains, has_prefix, Json, cons, nil, field, end, get_field}
use istio_llm_filter.OpenAi.Prompt.{
  ChatMessage, extract_prompt_context, write_messages, write_content, write_parts, write_part,
}
use istio_llm_filter.OpenAi.Prompt.Laws.{extract_prompt_context_lem, prompt_image, prompt_text}
use istio_llm_filter.OpenAi.Options.{build_lb_options, put_headers, put_subsets}
use istio_llm_filter.OpenAi.Options.Laws.{build_lb_options_lem, last_lora, last_label, IsOptions}
use istio_llm_filter.OpenAi.Transparency.{get_response_data_transparent, is_stream_error, SameRoute}
use istio_llm_filter.OpenAi.Blocks.{conversation_blocks}
use istio_llm_filter.OpenAi.Routing.{get_request_data-IsRouted, IsRouted}
use istio_llm_filter.OpenAi.Total.{HasNoNulls}
use istio_llm_filter.Config.Select.{NoNulls}
use istio_llm_filter.Common.{◌↔◌, false}
use istio_llm_filter.Filter.{State, Transcoder}
use istio_llm_filter.Filter.Laws.{Refuses}
use istio_llm_filter.Filter.Request.{decode_data}
use istio_llm_filter.Filter.Response.{encode_data}
use istio_llm_filter.Filter.Tests.{env, one_digit}
use istio_llm_filter.FilterConfig.{factory}
use istio_llm_filter.Metadata.Queue.{new_async_queue}
use istio_llm_filter.OpenAi.{open_ai}
use istio_llm_filter.OpenAi.InFilter.{decode_data-Refuses, encode_data_panic_iff}

-- Four bytes of text, two in the content itself and two in a part beside an image.
abbrev image : Json
image = Json.object (field "type" (Json.string (codes "image_url")) end)

abbrev part : Json
part =
    Json.object
      (field "type" (Json.string (codes "text")) (field "text" (Json.string (codes "cd")) end))

abbrev messages : List ChatMessage
messages =
    record { role = "user"; content = Json.string (codes "ab") }
    ∷ record { role = "user"; content = Json.array (cons image (cons part nil)) }
    ∷ []

abbrev pub request : ChatCompletionRequest
request = record { model = "m"; messages = messages; stream = true }

abbrev pub codec : Codec
codec = record { unmarshal_request = λ body r. (request, none); unmarshal_usage = λ body. none }

abbrev canary_options : LbOptions
canary_options = record {
  route_name = "canary";
  lora_id = "";
  headers = ("env", "canary") ∷ [];
  selector = [];
}

abbrev data_of_request : RequestData
data_of_request = record {
  model_name = "m";
  scene_name = "s";
  env = "";
  cluster = "gpu";
  backend_protocol = "triton";
  lb_options = some canary_options;
  prompt_context = some (extract_prompt_context messages);
}

request_run :
    (get_request_data codec defaulted_store ready canary_headers [] new_transcoder).1
    ≡ ok data_of_request
unfolding get_request_data on_decoded request_data route_by on_candidate get_candidate_rule
    get_model_mappings build_lb_options put_headers put_subsets
request_run = refl

prompt_run : (extract_prompt_context messages).prompt_content ≡ codes "abcd"
unfolding extract_prompt_context write_messages write_content write_parts write_part get_field
prompt_run = refl

is_ready : IsReady defaulted_store ready
is_ready =
    (parse_config-IsReady by_insertion decode braces ready defaulted_store decode-NamesNoMappings
      accepted).0

get_request_data-IsRouted_example :
    IsRouted defaulted_store ready canary_headers request data_of_request
get_request_data-IsRouted_example =
    get_request_data-IsRouted codec by_insertion defaulted_store ready decode braces canary_headers
      [] new_transcoder data_of_request decode-NamesNoMappings accepted request_run

extract_prompt_context_lem_example :
    extract_prompt_context messages
    ≡ record { is_vl_model = prompt_image messages; prompt_content = prompt_text messages }
extract_prompt_context_lem_example = extract_prompt_context_lem messages

-- A rule with two subsets: the second names another adapter and another value of the label "a".
abbrev adapted : Rule
adapted = record canary {
  subset =
      some (record { name = ""; weight = pos 0; lora = "x"; labels = ("a", "1") ∷ ("b", "2") ∷ [] })
      ∷ some (record { name = ""; weight = pos 0; lora = "y"; labels = ("a", "3") ∷ [] })
      ∷ [];
}

lora_run : last_lora "" adapted.subset ≡ "y"
lora_run = refl

label_run : last_label "a" adapted.subset ≡ some "3"
label_run = refl

build_lb_options_lem_example :
    (NoNulls adapted.headers
      × NoNulls adapted.subset
      × ((opts : LbOptions) × (build_lb_options (some adapted) ≡ ok (some opts))
          × IsOptions adapted opts))
    ⊎ ((¬ (NoNulls adapted.headers × NoNulls adapted.subset))
        × (build_lb_options (some adapted) ≡ panic))
build_lb_options_lem_example = build_lb_options_lem adapted

-- A stream from a backend that is not transcoded, and a chunk that ends it.
abbrev direct : OpenAi
direct = record new_transcoder { request = request; backend_protocol = "vllm"; is_stream = true }

abbrev error_chunk : List ℕ
error_chunk = codes "{\"error\":1}"

error_run : is_stream_error error_chunk direct ≡ true
unfolding contains has_prefix
error_run = refl

get_response_data_transparent_example :
    let (u, out, e) = get_response_data codec defaulted_store ready error_chunk direct in
    (out ≡ (if is_stream_error error_chunk direct then none else some error_chunk))
    × (e ≡ (
        if is_stream_error error_chunk direct
        then some (format_bytes "stream error: %s" error_chunk)
        else none))
    × SameRoute direct u
get_response_data_transparent_example =
    get_response_data_transparent codec defaulted_store ready error_chunk direct

whole : length (extract_prompt_context messages).prompt_content ≡ 4
unfolding extract_prompt_context write_messages write_content write_parts write_part get_field
whole = refl

conversation_blocks_example :
    (hs more : List ℕ) × (length hs ≡ 2)
    × (prompt_to_hash keep_bytes by_two (extract_prompt_context messages).prompt_content ≡ some hs)
    × (prompt_to_hash keep_bytes by_two
          (extract_prompt_context (messages ++ messages)).prompt_content
        ≡ some (hs ++ more))
conversation_blocks_example =
    conversation_blocks keep_bytes by_two 2 messages messages (omega arith) whole

-- The filter of a new request with this transcoder, on an idle metadata center.
abbrev transcoder : Transcoder
transcoder = open_ai codec defaulted_store ready

abbrev fresh_filter : State transcoder
fresh_filter = (
  factory transcoder,
  record {
    center = record { host_env = "center"; queue = new_async_queue 4 1 (pos 5) };
    replies = [];
  },
)

abbrev Full : Option Rule → Type 0
Full none = Unit
Full (some r) = NoNulls r.headers × NoNulls r.subset

no_nulls : HasNoNulls defaulted_store
no_nulls zero r e = subst (λ (o : Option Rule). Full o) e (tt, tt)
no_nulls (suc zero) r e = subst (λ (o : Option Rule). Full o) e (tt, tt)
no_nulls (suc (suc p)) r e = absurd (cc e)

decode_data-Refuses_example :
    Refuses transcoder ready env fresh_filter
      (decode_data transcoder ready env braces true fresh_filter)
decode_data-Refuses_example =
    decode_data-Refuses codec by_insertion defaulted_store ready decode braces env braces
      fresh_filter decode-NamesNoMappings accepted no_nulls

-- A streaming request whose response headers were not stored.
abbrev streaming : State transcoder
streaming =
    (record (factory transcoder) { transcoder = some direct; is_stream = true }, fresh_filter.1)

encode_data_panic_iff_example :
    (encode_data transcoder ready "" one_digit "u" 9 error_chunk false streaming ≡ panic) ↔ (
      (streaming.0.drop_resp_data ≡ false)
      × (streaming.0.resp_header ≡ none)
      × (is_stream_error error_chunk direct ≡ true))
encode_data_panic_iff_example =
    encode_data_panic_iff codec defaulted_store ready "" one_digit "u" 9 error_chunk false direct
      streaming refl refl
