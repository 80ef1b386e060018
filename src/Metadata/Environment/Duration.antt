-- ===== src/Metadata/Environment/Duration.antt =====
-- A number of milliseconds in a variable, as `getEnvDuration` of pkg/metadata/client.go reads it.
use istio_llm_filter.Common.{
  ℕ, ◌-◌, ◌*◌, ◌%◌, ◌≤◌, ◌<◌, ◌≡◌, sym, ◌∙◌, String, none, some, Option, codes, str_eq, arith,
  Bool-cases, inl, inr,
}
use istio_llm_filter.Common.Int.{ℤ, pos, negsuc, pos_part, neg_part}
use istio_llm_filter.Metadata.Environment.{
  Env, positive, int_limit, word, atoi, residue, signed, milliseconds, get_env_duration,
}
use istio_llm_filter.Metadata.Environment.Decimal.{
  decimal, atoi-positive, positive_small, decimal-ne-nil, codes_empty,
}

-- The range of an `int64`.
pub record IsInt64 (z : ℤ) : Type 0 where
  pub above : neg_part z ≤ int_limit
  pub below : pos_part z < int_limit

signed-IsInt64 : (r : ℕ) → r < word → IsInt64 (signed r)
unfolding signed
signed-IsInt64 r h = ground arith

residue-signed : (r : ℕ) → r < word → residue (signed r) ≡ r
unfolding signed residue
residue-signed r h = ground arith

-- What n milliseconds come to: an `int64` that is right modulo 2 ^ 64, right below the limit, and
-- negative from the limit on to 2 ^ 64.
pub record IsWrapped (n : ℕ) (z : ℤ) : Type 0 where
  pub in_range : IsInt64 z
  pub congruent : residue z ≡ n * 1000000 % word
  pub exact : n * 1000000 < int_limit → z ≡ pos (n * 1000000)
  pub negative : int_limit ≤ n * 1000000 → n * 1000000 < word → z ≡ negsuc (word - 1 - n * 1000000)

milliseconds-IsWrapped : (n : ℕ) → IsWrapped n (milliseconds (pos n))
unfolding milliseconds residue
milliseconds-IsWrapped n =
    let r = n * 1000000 % word in
    let small : r < word = omega arith in
    record {
      in_range = signed-IsInt64 r small;
      congruent = residue-signed r small;
      exact = λ h. unfold signed in ground arith;
      negative = λ h k. unfold signed in ground arith;
    }

get_env_duration_parsed :
    (parse_duration : String → Option ℤ) (env : Env) (key : String) (default : ℤ) (n : ℕ)
    → codes (env key) ≡ decimal n
    → parse_duration (env key) ≡ none
    → get_env_duration parse_duration env key default
      ≡ elim (atoi (decimal n)) [ none ↦ default | some ms ↦ milliseconds ms ]
unfolding get_env_duration
get_env_duration_parsed parse_duration env key default n e p =
    elim (Bool-cases (str_eq (env key) "")) [
      | inl unset ↦ absurd (decimal-ne-nil n (sym e ∙ codes_empty (env key) unset))
      | inr is_set ↦ rw (is_set, p, e)
    ]

positive_large : (n : ℕ) → int_limit ≤ n → positive (some n) ≡ none
positive_large n h = ground arith

-- A variable that holds n in decimal, which `time.ParseDuration` refuses for want of a unit, is read as
-- n milliseconds in the arithmetic of `int64`: the result is an `int64` and right modulo 2 ^ 64; it is
-- exact where n milliseconds are below 2 ^ 63 ns, and negative from there up to 2 ^ 64 ns. An n that is
-- no `int` gives the default.
pub get_env_duration-decimal :
    (parse_duration : String → Option ℤ) (env : Env) (key : String) (default : ℤ) (n : ℕ)
    → codes (env key) ≡ decimal n
    → parse_duration (env key) ≡ none
    → (n < int_limit → IsWrapped n (get_env_duration parse_duration env key default))
      × (int_limit ≤ n → get_env_duration parse_duration env key default ≡ default)
get_env_duration-decimal parse_duration env key default n e p =
    let read = get_env_duration_parsed parse_duration env key default n e p in
    (
      λ h. rw (read, atoi-positive n, positive_small n h) (milliseconds-IsWrapped n),
      λ h. rw (read, atoi-positive n, positive_large n h),
    )
