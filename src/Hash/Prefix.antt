-- ===== src/Hash/Prefix.antt =====
-- What the prompt hash computes: one hash for each prefix that ends at a chunk's end.
use istio_llm_filter.Common.{
  ℕ, zero, suc, ◌+◌, ◌-◌, ◌*◌, ◌≤◌, ◌<◌, ◌≡◌, refl, sym, ap, ◌∙◌, some, List, [], ◌∷◌, ◌++◌, ◌==◌,
  length, take, slice, arith, ltb, leb, if◌then◌else◌, Bool-cases, false, true, leb→le, inl, inr,
  take_all, take-append-slice, length-append, take-append_le, ltb→lt,
}
use mathlib.Core.List.{append_assoc, append-nil}
use native.Mathlib.Nat.{sub-zero, add-sub_of_le}
use Prim.Native.Nat.add
use istio_llm_filter.Hash.Chunks.{
  IsChunkCount, num_chunks-IsChunkCount, no_chunk, one_chunk, whole_chunks, num_chunks_pos,
  num_chunks_ge,
}
use istio_llm_filter.Hash.{Hash64, Hash, num_chunks, chunk_loop, prompt_to_hash}

module _ (H : Hash64) where
  open H use {State, initial, write, sum64, write_nil, write-write}

  -- The hashes of the prefixes of `rounds` successive chunk ends from `i + chunk_len` on. A prefix
  -- that would go past the end is the whole prompt.
  abbrev pub prefix_hashes : ℕ → List ℕ → ℕ → ℕ → List ℕ
  prefix_hashes chunk_len prompt zero i = []
  prefix_hashes chunk_len prompt (suc rounds) i =
      sum64 (write initial (take (i + chunk_len) prompt))
      ∷ prefix_hashes chunk_len prompt rounds (i + chunk_len)

  stop_take :
      (stop n : ℕ) (prompt : List ℕ)
      → stop ≡ (if ltb (length prompt) n then length prompt else n)
      → take stop prompt ≡ take n prompt
  stop_take stop n prompt e = elim (Bool-cases (ltb (length prompt) n)) [
    | inl past ↦
        rw (e, past)
          (take_all _ prompt (omega arith)
            ∙ sym (take_all n prompt (omega (arith, ltb→lt _ _ past))))
    | inr within ↦ rw (e, within)
  ]

  -- What one round of the loop writes to the hasher.
  written :
      (c start : ℕ) (prompt : List ℕ) (hasher : State)
      → hasher ≡ write initial (take start prompt)
      → let stop = if ltb (length prompt) (start + c) then length prompt else start + c in
        start ≤ stop
        → write hasher (slice prompt start stop) ≡ write initial (take (start + c) prompt)
  written c start prompt hasher hh hs = rw hh (
      write-write initial (take start prompt) (slice prompt start _)
      ∙ ap (write initial)
          (take-append-slice start _ prompt hs ∙ stop_take _ (start + c) prompt refl))

  chunk_loop_lem :
      (fuel rounds c : ℕ) (prompt : List ℕ) (start : ℕ) (hasher : State) (buf : List ℕ)
      → 0 < c
      → IsChunkCount rounds (length prompt - start) c
      → length prompt - start < fuel
      → hasher ≡ write initial (take start prompt)
      → chunk_loop H fuel c prompt start hasher buf
        ≡ some (buf ++ prefix_hashes c prompt rounds start)
  unfolding chunk_loop
  chunk_loop_lem zero rounds c prompt start hasher buf hc hr hf hh = absurd (omega arith)
  chunk_loop_lem (suc fuel) zero c prompt start hasher buf hc hr hf hh =
      let past : ltb start (length prompt) ≡ false = ground arith in rw (past, append-nil)
  chunk_loop_lem (suc fuel) (suc rounds) c prompt start hasher buf hc hr hf hh =
      let within : ltb start (length prompt) ≡ true = ground arith in
      let e = written c start prompt hasher hh (ground arith) in
      rw
        (
          within,
          e,
          chunk_loop_lem fuel rounds c prompt (start + c) (write initial (take (start + c) prompt))
              (buf ++ sum64 (write initial (take (start + c) prompt)) ∷ []) hc (ground arith)
              (omega arith) refl,
        )
        (ap some (append_assoc buf _ _))

  -- On a calculator with a positive chunk length the loop always ends, and the prompt hash is the
  -- list of the hashes of the prefixes at each multiple of the chunk length, the last one of the
  -- whole prompt; there are as many as the prompt has chunks, the last of them rounded up.
  pub prompt_to_hash-eq-prefix_hashes :
      (h : Hash) (prompt : List ℕ)
      → 0 < h.chunk_len
      → prompt_to_hash H h prompt
        ≡ some (prefix_hashes h.chunk_len prompt (num_chunks (length prompt) h.chunk_len) 0)
  unfolding prompt_to_hash
  prompt_to_hash-eq-prefix_hashes h prompt hc = elim (Bool-cases (length prompt == 0)) [
    | inl empty ↦ rw (empty, no_chunk h.chunk_len (length prompt) hc (ground arith))
    | inr more ↦ elim (Bool-cases (leb (length prompt) h.chunk_len)) [
      | inl short ↦
          rw (more, short, one_chunk h.chunk_len (length prompt) hc (ground arith) (ground arith))
            (rw (take_all (0 + h.chunk_len) prompt (omega (arith, leb→le _ _ short))))
      | inr long ↦
          rw (more, long)
            (chunk_loop_lem (suc (length prompt)) (num_chunks (length prompt) h.chunk_len)
              h.chunk_len prompt 0 initial [] hc
              (rw (sub-zero (length prompt))
                (num_chunks-IsChunkCount (length prompt) h.chunk_len hc))
              (omega arith) (sym (write_nil initial)))
    ]
  ]

  prefix_hashes-append :
      (c : ℕ) (p q : List ℕ) (r i : ℕ)
      → i + r * c ≤ length p
      → prefix_hashes c (p ++ q) r i ≡ prefix_hashes c p r i
  prefix_hashes-append c p q zero i h = refl
  prefix_hashes-append c p q (suc r) i h =
      rw (
        take-append_le (i + c) p q (omega arith),
        prefix_hashes-append c p q r (i + c) (omega arith),
      )

  prefix_hashes-add :
      (c : ℕ) (p : List ℕ) (r s i : ℕ)
      → prefix_hashes c p (r + s) i ≡ prefix_hashes c p r i ++ prefix_hashes c p s (i + r * c)
  prefix_hashes-add c p zero s i = rw (add.zero s) (ap (prefix_hashes c p s) (omega arith))
  prefix_hashes-add c p (suc r) s i =
      rw (add.suc r s, prefix_hashes-add c p r s (i + c))
        (ap
          (λ (j : ℕ).
            sum64 (write initial (take (i + c) p))
            ∷ (prefix_hashes c p r (i + c) ++ prefix_hashes c p s j))
          (omega arith))

  length-prefix_hashes : (c : ℕ) (p : List ℕ) (r i : ℕ) → length (prefix_hashes c p r i) ≡ r
  length-prefix_hashes c p zero i = refl
  length-prefix_hashes c p (suc r) i = ap suc (length-prefix_hashes c p r (i + c))

  -- On a calculator with a positive chunk length, a prompt of n bytes has ⌈n / chunk length⌉
  -- hashes, the count that the code allocates for: at least one for a prompt that is not empty.
  length-prompt_to_hash :
      (h : Hash) (prompt : List ℕ)
      → 0 < h.chunk_len
      → (hs : List ℕ) × (prompt_to_hash H h prompt ≡ some hs)
        × (length hs ≡ num_chunks (length prompt) h.chunk_len)
        × (0 < length prompt → 0 < length hs)
  length-prompt_to_hash h prompt hc =
      let n = num_chunks (length prompt) h.chunk_len in
      let e = length-prefix_hashes h.chunk_len prompt n 0 in
      (
        prefix_hashes h.chunk_len prompt n 0,
        prompt_to_hash-eq-prefix_hashes h prompt hc,
        e,
        λ p. omega (arith, num_chunks_pos h.chunk_len (length prompt) hc p, e),
      )

  -- A prompt of k whole chunks (the chunk length positive) hashes to k hashes, and every
  -- continuation of it, of any length, hashes to those same k hashes followed by more: a lookup of
  -- the longer prompt finds the blocks that were cached for the shorter one.
  pub prompt_to_hash-append :
      (h : Hash) (k : ℕ) (p q : List ℕ)
      → 0 < h.chunk_len
      → length p ≡ k * h.chunk_len
      → (hs more : List ℕ) × (length hs ≡ k)
        × (prompt_to_hash H h p ≡ some hs)
        × (prompt_to_hash H h (p ++ q) ≡ some (hs ++ more))
  prompt_to_hash-append h k p q hc hp =
      let c = h.chunk_len in
      let s = num_chunks (length (p ++ q)) c - k in
      let split : num_chunks (length (p ++ q)) c ≡ k + s = sym (
        add-sub_of_le
          (num_chunks_ge c (length (p ++ q)) hc k (omega (arith, length-append p q)))) in
      (
        prefix_hashes c p k 0,
        prefix_hashes c (p ++ q) s (0 + k * c),
        length-prefix_hashes c p k 0,
        rw (prompt_to_hash-eq-prefix_hashes h p hc, whole_chunks c (length p) hc k hp),
        prompt_to_hash-eq-prefix_hashes h (p ++ q) hc
            ∙ ap (λ (n : ℕ). some (prefix_hashes c (p ++ q) n 0)) split
            ∙ ap some (
                prefix_hashes-add c (p ++ q) k s 0
                ∙ ap (λ (l : List ℕ). l ++ prefix_hashes c (p ++ q) s (0 + k * c))
                    (prefix_hashes-append c p q k 0 (omega arith))),
      )
