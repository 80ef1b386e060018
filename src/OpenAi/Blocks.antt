-- ===== src/OpenAi/Blocks.antt =====
-- A conversation that goes on: pkg/transcoder/openai/transcoder.go and pkg/hash/hash.go together.
use istio_llm_filter.Common.{ℕ, ◌*◌, ◌<◌, ◌≡◌, sym, ap, ◌∙◌, some, List, ◌++◌, length}
use istio_llm_filter.Types.Request.{PromptMessageContext}
use istio_llm_filter.Hash.{Hash64, Hash, prompt_to_hash}
use istio_llm_filter.Hash.Prefix.{prompt_to_hash-append}
use istio_llm_filter.OpenAi.Prompt.{ChatMessage, extract_prompt_context}
use istio_llm_filter.OpenAi.Prompt.Laws.{
  extract_prompt_context_lem, prompt_text-append, prompt_text,
}

prompt_content_lem :
    (ms : List ChatMessage) → (extract_prompt_context ms).prompt_content ≡ prompt_text ms
prompt_content_lem ms =
    ap (λ (c : PromptMessageContext). c.prompt_content) (extract_prompt_context_lem ms)

extract_prompt_context-append :
    (ms ns : List ChatMessage)
    → (extract_prompt_context (ms ++ ns)).prompt_content
      ≡ (extract_prompt_context ms).prompt_content ++ (extract_prompt_context ns).prompt_content
extract_prompt_context-append ms ns =
    prompt_content_lem (ms ++ ns)
    ∙ prompt_text-append ms ns
    ∙ sym (
        ap (λ s. s ++ (extract_prompt_context ns).prompt_content) (prompt_content_lem ms)
        ∙ ap (λ s. prompt_text ms ++ s) (prompt_content_lem ns))

-- The next turn of a conversation finds the blocks of the turns before it: if the text of some
-- messages is k whole chunks (the chunk length positive), then it hashes to k hashes, and however
-- the conversation goes on, the hashes of the longer one begin with those k.
pub conversation_blocks :
    (H : Hash64) (h : Hash) (k : ℕ) (ms ns : List ChatMessage)
    → 0 < h.chunk_len
    → length (extract_prompt_context ms).prompt_content ≡ k * h.chunk_len
    → (hs more : List ℕ) × (length hs ≡ k)
      × (prompt_to_hash H h (extract_prompt_context ms).prompt_content ≡ some hs)
      × (prompt_to_hash H h (extract_prompt_context (ms ++ ns)).prompt_content ≡ some (hs ++ more))
conversation_blocks H h k ms ns pos whole = rw (extract_prompt_context-append ms ns) (
    prompt_to_hash-append H h k (extract_prompt_context ms).prompt_content
      (extract_prompt_context ns).prompt_content pos whole)
