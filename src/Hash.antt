-- ===== src/Hash.antt =====
-- pkg/hash/hash.go: the prompt hash. A `[]byte` is a list of numbers. The murmur3 hasher of a
-- third-party package is the parameter `Hash64`.
pub mod Chunks
pub mod Prefix
pub mod Tests
use istio_llm_filter.Common.{
  ℕ, zero, suc, ◌+◌, ◌-◌, ◌/◌, ◌≡◌, Option, none, some, List, [], ◌∷◌, ◌++◌, length, slice, ltb,
  leb, ◌==◌, if◌then◌else◌,
}
use istio_llm_filter.Common.Int.{ℤ, pos, ltb_ℤ}

-- `hash.Hash64` as its documentation describes it: `Write` adds bytes to the running hash, and
-- `Sum64` does not change the state.
pub record Hash64 : Type 1 where
  pub State : Type 0
  pub initial : State
  pub write : State → List ℕ → State
  pub sum64 : State → ℕ
  pub write_nil : (s : State) → write s [] ≡ s
  pub write-write : (s : State) (xs ys : List ℕ) → write (write s xs) ys ≡ write s (xs ++ ys)

abbrev pub default_text_chunk_len : ℕ
default_text_chunk_len = 512

-- The JSON field `chunk_len`, an `int` that may be 0 or negative.
pub record Config : Type 0 where
  pub chunk_len : ℤ

-- The calculator that `New` makes: its chunk length is positive.
pub record Hash : Type 0 where
  pub chunk_len : ℕ

positive_or_default : ℤ → ℕ
positive_or_default (pos (suc n)) = suc n
positive_or_default _ = default_text_chunk_len

pub new : Option Config → Hash
unfolding positive_or_default
new none = record { chunk_len = default_text_chunk_len }
new (some config) = record { chunk_len = positive_or_default config.chunk_len }

pub get_chunk_len : Hash → ℕ
get_chunk_len h = h.chunk_len

-- `numChunks`
abbrev pub num_chunks : ℕ → ℕ → ℕ
num_chunks plen chunk_len = (plen + chunk_len - 1) / chunk_len

module _ (H : Hash64) where
  open H use {State, initial, write, sum64}

  -- The `for` loop over the chunks, on fuel; `none` means that the fuel ran out.
  pub chunk_loop : ℕ → ℕ → List ℕ → ℕ → State → List ℕ → Option (List ℕ)
  chunk_loop zero chunk_len prompt start hasher buf = none
  chunk_loop (suc fuel) chunk_len prompt start hasher buf =
      let plen = length prompt in
      let stop = if ltb plen (start + chunk_len) then plen else start + chunk_len in
      let hasher' = write hasher (slice prompt start stop) in
      let rest =
        chunk_loop fuel chunk_len prompt (start + chunk_len) hasher' (buf ++ sum64 hasher' ∷ []) in
      if ltb start plen then rest else some buf

  -- `PromptToHash`. A round more than the bytes of the prompt is fuel enough.
  pub prompt_to_hash : Hash → List ℕ → Option (List ℕ)
  prompt_to_hash h prompt =
      let plen = length prompt in
      let chunks = chunk_loop (suc plen) h.chunk_len prompt 0 initial [] in
      if plen == 0
      then some []
      else if leb plen h.chunk_len
      then some (sum64 (write initial prompt) ∷ [])
      else chunks
