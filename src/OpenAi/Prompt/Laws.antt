-- ===== src/OpenAi/Prompt/Laws.antt =====
-- The prompt of a conversation, by an independent description, and how it grows.
use mathlib.Core.List.{append_assoc, append-nil}
use istio_llm_filter.Common.{
  ℕ, ◌≡◌, refl, sym, ap, ◌∙◌, Bool, true, false, ◌||◌, List, [], ◌∷◌, ◌++◌, if◌then◌else◌,
  Bool-cases, inl, inr,
}
use istio_llm_filter.Types.Request.{PromptMessageContext}
use istio_llm_filter.OpenAi.Json.{Json, Items, nil, cons, get_field, is_text, text_or_empty}
use istio_llm_filter.OpenAi.Prompt.{
  ChatMessage, text_kind, image_kind, write_part, write_parts, write_content, write_messages,
  extract_prompt_context,
}

-- The text of a part, and whether it is an image.
pub part_text : Json → List ℕ
part_text (Json.object fs) =
    if is_text text_kind (get_field "type" fs) then text_or_empty (get_field "text" fs) else []
part_text _ = []

pub is_image : Json → Bool
is_image (Json.object fs) =
    if is_text text_kind (get_field "type" fs)
    then false
    else is_text image_kind (get_field "type" fs)
is_image _ = false

abbrev pub parts_text : Items → List ℕ
parts_text nil = []
parts_text (cons p ps) = part_text p ++ parts_text ps

abbrev pub any_image : Items → Bool
any_image nil = false
any_image (cons p ps) = is_image p || any_image ps

pub content_text : Json → List ℕ
content_text (Json.string s) = s
content_text (Json.array ps) = parts_text ps
content_text _ = []

pub content_image : Json → Bool
content_image (Json.array ps) = any_image ps
content_image _ = false

-- All texts of a conversation in order, and whether it shows an image.
abbrev pub prompt_text : List ChatMessage → List ℕ
prompt_text [] = []
prompt_text (m ∷ ms) = content_text m.content ++ prompt_text ms

abbrev pub prompt_image : List ChatMessage → Bool
prompt_image [] = false
prompt_image (m ∷ ms) = content_image m.content || prompt_image ms

-- A context with more text, and an image if there is one.
abbrev pub extended : PromptMessageContext → List ℕ → Bool → PromptMessageContext
extended ctx s image = record {
  is_vl_model = ctx.is_vl_model || image;
  prompt_content = ctx.prompt_content ++ s;
}

or_assoc : (a b c : Bool) → ((a || b) || c) ≡ (a || (b || c))
or_assoc true b c = refl
or_assoc false b c = refl

or_false : (a : Bool) → (a || false) ≡ a
or_false true = refl
or_false false = refl

or_true : (a : Bool) → (a || true) ≡ true
or_true true = refl
or_true false = refl

extended_nothing : (ctx : PromptMessageContext) → extended ctx [] false ≡ ctx
extended_nothing ctx = simp (append-nil, or_false)

extended-extended :
    (ctx : PromptMessageContext) (s t : List ℕ) (a b : Bool)
    → extended (extended ctx s a) t b ≡ extended ctx (s ++ t) (a || b)
extended-extended ctx s t a b = simp (append_assoc, or_assoc)

write_part_lem :
    (p : Json) (ctx : PromptMessageContext)
    → write_part p ctx ≡ extended ctx (part_text p) (is_image p)
unfolding write_part part_text is_image
write_part_lem (Json.object fs) ctx = elim (Bool-cases (is_text text_kind (get_field "type" fs))) [
  | inl is_it ↦ rw is_it (simp or_false)
  | inr other ↦ elim (Bool-cases (is_text image_kind (get_field "type" fs))) [
    | inl is_it ↦ rw (other, is_it) (simp (append-nil, or_true))
    | inr neither ↦ rw (other, neither) (simp (append-nil, or_false))
  ]
]
write_part_lem Json.null ctx = sym (extended_nothing ctx)
write_part_lem (Json.boolean b) ctx = sym (extended_nothing ctx)
write_part_lem (Json.number n) ctx = sym (extended_nothing ctx)
write_part_lem (Json.string s) ctx = sym (extended_nothing ctx)
write_part_lem (Json.array xs) ctx = sym (extended_nothing ctx)

write_parts_lem :
    (ps : Items) (ctx : PromptMessageContext)
    → write_parts ps ctx ≡ extended ctx (parts_text ps) (any_image ps)
unfolding write_parts
write_parts_lem nil ctx = sym (extended_nothing ctx)
write_parts_lem (cons p ps) ctx =
    ap (write_parts ps) (write_part_lem p ctx)
    ∙ write_parts_lem ps (extended ctx (part_text p) (is_image p))
    ∙ extended-extended ctx (part_text p) (parts_text ps) (is_image p) (any_image ps)

write_content_lem :
    (c : Json) (ctx : PromptMessageContext)
    → write_content c ctx ≡ extended ctx (content_text c) (content_image c)
unfolding write_content content_text content_image
write_content_lem (Json.string s) ctx = simp or_false
write_content_lem (Json.array ps) ctx = write_parts_lem ps ctx
write_content_lem Json.null ctx = sym (extended_nothing ctx)
write_content_lem (Json.boolean b) ctx = sym (extended_nothing ctx)
write_content_lem (Json.number n) ctx = sym (extended_nothing ctx)
write_content_lem (Json.object fs) ctx = sym (extended_nothing ctx)

write_messages_lem :
    (ms : List ChatMessage) (ctx : PromptMessageContext)
    → write_messages ms ctx ≡ extended ctx (prompt_text ms) (prompt_image ms)
unfolding write_messages
write_messages_lem [] ctx = sym (extended_nothing ctx)
write_messages_lem (m ∷ ms) ctx =
    ap (write_messages ms) (write_content_lem m.content ctx)
    ∙ write_messages_lem ms (extended ctx (content_text m.content) (content_image m.content))
    ∙ extended-extended ctx (content_text m.content) (prompt_text ms) (content_image m.content)
        (prompt_image ms)

-- The prompt that is hashed is the text of all messages in order, a part of a list counting where its
-- type is "text", and the model is asked to see where some part is an image.
pub extract_prompt_context_lem :
    (ms : List ChatMessage)
    → extract_prompt_context ms
      ≡ record { is_vl_model = prompt_image ms; prompt_content = prompt_text ms }
unfolding extract_prompt_context
extract_prompt_context_lem ms = write_messages_lem ms _

pub prompt_text-append :
    (ms ns : List ChatMessage) → prompt_text (ms ++ ns) ≡ prompt_text ms ++ prompt_text ns
prompt_text-append [] ns = refl
prompt_text-append (m ∷ ms) ns =
    ap (λ s. content_text m.content ++ s) (prompt_text-append ms ns)
    ∙ sym (append_assoc (content_text m.content) (prompt_text ms) (prompt_text ns))
