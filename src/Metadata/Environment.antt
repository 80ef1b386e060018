-- ===== src/Metadata/Environment.antt =====
-- The settings that pkg/metadata/client.go reads from environment variables. `os.Getenv` is the
-- function `env`, empty for a variable that is not set. Texts are compared whole, and parsed as bytes.
pub mod Decimal
pub mod Duration
use istio_llm_filter.Common.{
  ℕ, ◌+◌, ◌-◌, ◌*◌, ◌%◌, ◌≤◌, ◌<◌, String, Bool, true, false, ◌&&◌, Option, none, some, List, [],
  ◌∷◌, ltb, leb, ◌==◌, str_eq, codes, if◌then◌else◌,
}
use istio_llm_filter.Common.Int.{ℤ, pos, negsuc}

abbrev pub Env : Type 0
Env = String → String

abbrev pub is_digit : ℕ → Bool
is_digit c = leb b'0' c && leb c b'9'

-- The value of decimal digits after the value of those read before.
unfoldable pub digits : List ℕ → ℕ → Option ℕ
digits [] value = some value
digits (c ∷ cs) value =
    let rest = digits cs (value * 10 + (c - b'0')) in if is_digit c then rest else none

unfoldable pub natural : List ℕ → Option ℕ
natural [] = none
natural (c ∷ cs) = digits (c ∷ cs) 0

abbrev pub int_limit : ℕ
int_limit = 9223372036854775808

abbrev pub positive : Option ℕ → Option ℤ
positive none = none
positive (some n) = if ltb n int_limit then some (pos n) else none

abbrev pub minus : ℕ → ℤ
minus n = if n == 0 then pos 0 else negsuc (n - 1)

abbrev pub negative : Option ℕ → Option ℤ
negative none = none
negative (some n) = if leb n int_limit then some (minus n) else none

-- `strconv.Atoi` on a 64-bit machine: a sign if any, and digits, within the range of an `int`.
unfoldable pub atoi : List ℕ → Option ℤ
atoi [] = none
atoi (c ∷ cs) =
    if c == b'-'
    then negative (natural cs)
    else (if c == b'+' then positive (natural cs) else positive (natural (c ∷ cs)))

-- `getEnvString`
abbrev pub get_env_string : Env → String → String → String
get_env_string env key default = if str_eq (env key) "" then default else env key

-- `getEnvInt`
unfoldable pub get_env_int : Env → String → ℤ → ℤ
get_env_int env key default =
    if str_eq (env key) ""
    then default
    else elim (atoi (codes (env key))) [ none ↦ default | some i ↦ i ]

abbrev pub word : ℕ
word = 18446744073709551616

-- The bit pattern of a number in 64 bits, and the `int64` that a bit pattern stands for.
unfoldable pub residue : ℤ → ℕ
residue (pos n) = n % word
residue (negsuc n) = word - 1 - n % word

unfoldable pub signed : ℕ → ℤ
signed r = if ltb r int_limit then pos r else negsuc (word - 1 - r)

abbrev pub nanoseconds : ℤ → ℤ
nanoseconds (pos n) = pos (n * 1000000)
nanoseconds (negsuc n) = negsuc (n * 1000000 + 999999)

-- `time.Duration(ms) * time.Millisecond`, in nanoseconds: a product of `int64`, which wraps around.
unfoldable pub milliseconds : ℤ → ℤ
milliseconds ms = signed (residue (nanoseconds ms))

-- `getEnvDuration`, in nanoseconds, where `time.ParseDuration` is the argument.
unfoldable pub get_env_duration : (String → Option ℤ) → Env → String → ℤ → ℤ
get_env_duration parse_duration env key default =
    if str_eq (env key) "" then default else (elim (parse_duration (env key)) [
      | some d ↦ d
      | none ↦ elim (atoi (codes (env key))) [ none ↦ default | some ms ↦ milliseconds ms ]
    ])
