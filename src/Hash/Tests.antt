-- ===== src/Hash/Tests.antt =====
-- Runs of the prompt hash with a small hasher in the place of murmur3, and the theorems at them.
use mathlib.Core.List.{append_assoc, append-nil}
use istio_llm_filter.Common.{ℕ, ◌+◌, ◌*◌, ◌≡◌, refl, some, List, [], ◌∷◌, ◌++◌, arith}
use istio_llm_filter.Common.Int.{negsuc}
use istio_llm_filter.Hash.{Hash64, Hash, num_chunks, new, get_chunk_len, chunk_loop, prompt_to_hash}
use istio_llm_filter.Hash.Prefix.{prefix_hashes, prompt_to_hash-eq-prefix_hashes}

abbrev digest : List ℕ → ℕ
digest [] = 7
digest (b ∷ bs) = b + 31 * digest bs

-- A hasher that keeps the bytes and folds them at the end.
abbrev pub keep_bytes : Hash64
keep_bytes = record {
  State = List ℕ;
  initial = [];
  write = λ s xs. s ++ xs;
  sum64 = digest;
  write_nil = append-nil;
  write-write = append_assoc;
}

abbrev pub by_two : Hash
by_two = record { chunk_len = 2 }

new_default : get_chunk_len (new (some (record { chunk_len = negsuc 3 }))) ≡ 512
unfolding new get_chunk_len
new_default = refl

hash_run :
    prompt_to_hash keep_bytes by_two (1 ∷ 2 ∷ 3 ∷ [])
    ≡ some (digest (1 ∷ 2 ∷ []) ∷ digest (1 ∷ 2 ∷ 3 ∷ []) ∷ [])
unfolding prompt_to_hash chunk_loop
hash_run = refl

prompt_to_hash-eq-prefix_hashes_example :
    prompt_to_hash keep_bytes by_two (1 ∷ 2 ∷ 3 ∷ [])
    ≡ some (prefix_hashes keep_bytes 2 (1 ∷ 2 ∷ 3 ∷ []) (num_chunks 3 2) 0)
prompt_to_hash-eq-prefix_hashes_example =
    prompt_to_hash-eq-prefix_hashes keep_bytes by_two (1 ∷ 2 ∷ 3 ∷ []) (omega arith)
