-- ===== src/OpenAi/Prompt.antt =====
-- `extractPromptContext` of pkg/transcoder/openai/transcoder.go.
pub mod Laws
use istio_llm_filter.Common.{
  codes, ℕ, String, Bool, true, false, List, [], ◌∷◌, ◌++◌, if◌then◌else◌,
}
use istio_llm_filter.Types.Request.{PromptMessageContext}
use istio_llm_filter.OpenAi.Json.{Json, Items, nil, cons, Fields, get_field, is_text, text_or_empty}

-- `ChatMessage`; the content is a text or a list of parts.
pub record ChatMessage : Type 0 where
  pub role : String
  pub content : Json

abbrev pub text_kind : List ℕ
text_kind = codes "text"

abbrev pub image_kind : List ℕ
image_kind = codes "image_url"

abbrev pub write_string : List ℕ → PromptMessageContext → PromptMessageContext
write_string s ctx = record ctx { prompt_content = ctx.prompt_content ++ s }

-- The body of the loop over the parts of a message. A part that is no object is passed over.
unfoldable pub write_part : Json → PromptMessageContext → PromptMessageContext
write_part (Json.object fs) ctx =
    if is_text text_kind (get_field "type" fs)
    then write_string (text_or_empty (get_field "text" fs)) ctx
    else (if is_text image_kind (get_field "type" fs)
        then record ctx { is_vl_model = true }
        else ctx)
write_part _ ctx = ctx

unfoldable pub write_parts : Items → PromptMessageContext → PromptMessageContext
write_parts nil ctx = ctx
write_parts (cons part parts) ctx = write_parts parts (write_part part ctx)

-- The type switch on the content of a message.
unfoldable pub write_content : Json → PromptMessageContext → PromptMessageContext
write_content (Json.string s) ctx = write_string s ctx
write_content (Json.array parts) ctx = write_parts parts ctx
write_content _ ctx = ctx

unfoldable pub write_messages : List ChatMessage → PromptMessageContext → PromptMessageContext
write_messages [] ctx = ctx
write_messages (m ∷ ms) ctx = write_messages ms (write_content m.content ctx)

-- `extractPromptContext`
unfoldable pub extract_prompt_context : List ChatMessage → PromptMessageContext
extract_prompt_context ms = write_messages ms (record { is_vl_model = false; prompt_content = [] })
