-- ===== src/Hash/Chunks.antt =====
-- The arithmetic of `numChunks` in pkg/hash/hash.go: how many chunks of `c` bytes `m` bytes need.
use native.Mathlib.Nat.{lt_of_mul-lt-mul_right, le_antisymm}
use istio_llm_filter.Common.{ℕ, suc, ◌+◌, ◌*◌, ◌≤◌, ◌<◌, ◌≡◌, arith}
use istio_llm_filter.Hash.{num_chunks}

abbrev pub IsChunkCount : ℕ → ℕ → ℕ → Type 0
IsChunkCount r m c = (m ≤ r * c) × (r * c < m + c)

pub num_chunks-IsChunkCount : (m c : ℕ) → 0 < c → IsChunkCount (num_chunks m c) m c
num_chunks-IsChunkCount m c h = omega arith

chunk_count_le : (m c r s : ℕ) → IsChunkCount r m c → IsChunkCount s m c → r ≤ s
chunk_count_le m c r s hr hs =
    let p : r * c < suc s * c = omega arith in omega (arith, lt_of_mul-lt-mul_right c p)

pub chunk_count_unique : (m c r s : ℕ) → IsChunkCount r m c → IsChunkCount s m c → r ≡ s
chunk_count_unique m c r s hr hs =
    le_antisymm (chunk_count_le m c r s hr hs) (chunk_count_le m c s r hs hr)

module _ (c m : ℕ) (hc : 0 < c) where
  pub no_chunk : m ≡ 0 → num_chunks m c ≡ 0
  no_chunk h = chunk_count_unique m c _ 0 (num_chunks-IsChunkCount m c hc) (omega arith)

  pub one_chunk : 0 < m → m ≤ c → num_chunks m c ≡ 1
  one_chunk h k = chunk_count_unique m c _ 1 (num_chunks-IsChunkCount m c hc) (omega arith)

  pub whole_chunks : (k : ℕ) → m ≡ k * c → num_chunks m c ≡ k
  whole_chunks k e = chunk_count_unique m c _ k (num_chunks-IsChunkCount m c hc) (omega arith)

  pub num_chunks_pos : 0 < m → 0 < num_chunks m c
  num_chunks_pos h = grind (arith, num_chunks-IsChunkCount m c hc)

  pub num_chunks_ge : (k : ℕ) → k * c ≤ m → k ≤ num_chunks m c
  num_chunks_ge k h =
      let p : k * c < suc (num_chunks m c) * c = omega (arith, num_chunks-IsChunkCount m c hc) in
      omega (arith, lt_of_mul-lt-mul_right c p)
