-- ===== src/Metadata/Environment/Decimal.antt =====
-- A number that is written in decimal is read back by `getEnvInt` of pkg/metadata/client.go.
use istio_llm_filter.Common.{
  codes, ℕ, zero, suc, ◌+◌, ◌-◌, ◌*◌, ◌/◌, ◌%◌, ◌≤◌, ◌<◌, ◌≡◌, ◌≢◌, refl, sym, ap, ◌∙◌, String,
  true, some, List, [], ◌∷◌, ltb, str_eq, str_eq_iff, if◌then◌else◌, arith, Bool-cases, inl, inr,
}
use istio_llm_filter.Common.Int.{ℤ, pos}
use istio_llm_filter.Metadata.Environment.{
  Env, is_digit, digits, natural, positive, minus, int_limit, atoi, get_env_int,
}

-- The digits of a number in front of some bytes.
unfoldable pub print_digits : ℕ → ℕ → List ℕ → List ℕ
print_digits zero n rest = rest
print_digits (suc fuel) n rest =
    let more = print_digits fuel (n / 10) ((b'0' + n % 10) ∷ rest) in
    if ltb n 10 then (b'0' + n) ∷ rest else more

-- The usual decimal notation.
unfoldable pub decimal : ℕ → List ℕ
decimal n = print_digits (suc n) n []

digits_step :
    (d value : ℕ) (rest : List ℕ)
    → d < 10
    → digits ((b'0' + d) ∷ rest) value ≡ digits rest (value * 10 + d)
unfolding digits
digits_step d value rest h = rw (is_it, same) refl
  where
    is_it : is_digit (b'0' + d) ≡ true
    is_it = ground arith

    same : b'0' + d - b'0' ≡ d
    same = omega arith

digits-print_digits :
    (fuel n : ℕ) (rest : List ℕ) → n < fuel → digits (print_digits fuel n rest) 0 ≡ digits rest n
unfolding print_digits
digits-print_digits zero n rest h = absurd (omega arith)
digits-print_digits (suc fuel) n rest h = elim (Bool-cases (ltb n 10)) [
  | inl single ↦ rw single (
      digits_step n 0 rest (ground arith)
      ∙ ap (digits rest) (let e : 0 * 10 + n ≡ n = omega arith in e))
  | inr more ↦ rw more (
      digits-print_digits fuel (n / 10) ((b'0' + n % 10) ∷ rest) (ground arith)
      ∙ digits_step (n % 10) (n / 10) rest (omega arith)
      ∙ ap (digits rest) (let e : n / 10 * 10 + n % 10 ≡ n = omega arith in e))
]

-- The notation begins with a digit, so that no sign is read.
print_digits_head :
    (fuel n : ℕ) (rest : List ℕ)
    → n < fuel
    → (c : ℕ) × (cs : List ℕ) × (print_digits fuel n rest ≡ c ∷ cs) × (b'0' ≤ c)
unfolding print_digits
print_digits_head zero n rest h = absurd (omega arith)
print_digits_head (suc fuel) n rest h = elim (Bool-cases (ltb n 10)) [
  | inl single ↦ (b'0' + n, rest, rw single, omega arith)
  | inr more ↦ rw more (print_digits_head fuel (n / 10) ((b'0' + n % 10) ∷ rest) (ground arith))
]

natural-decimal : (n : ℕ) → natural (decimal n) ≡ some n
unfolding natural decimal
natural-decimal n =
    let (c, cs, e, _) = print_digits_head (suc n) n [] (omega arith) in
    rw e (
      ap (λ l. digits l 0) (sym e)
      ∙ digits-print_digits (suc n) n [] (omega arith)
      ∙ unfold digits in refl)

atoi_unsigned : (s cs : List ℕ) (c : ℕ) → s ≡ c ∷ cs → b'0' ≤ c → atoi s ≡ positive (natural s)
unfolding atoi
atoi_unsigned s cs c e h = rw e (ground arith)

pub atoi-positive : (n : ℕ) → atoi (decimal n) ≡ positive (some n)
unfolding decimal
atoi-positive n =
    let (c, cs, e, d) = print_digits_head (suc n) n [] (omega arith) in
    atoi_unsigned (print_digits (suc n) n []) cs c e d
    ∙ ap positive (unfold decimal in natural-decimal n)

pub positive_small : (n : ℕ) → n < int_limit → positive (some n) ≡ some (pos n)
positive_small n h = ground arith

atoi-decimal : (n : ℕ) → n < int_limit → atoi (decimal n) ≡ some (pos n)
atoi-decimal n h = atoi-positive n ∙ positive_small n h

atoi-minus : (n : ℕ) → n ≤ int_limit → atoi (b'-' ∷ decimal n) ≡ some (minus n)
unfolding atoi
atoi-minus n h = rw (natural-decimal n) (ground arith)

pub decimal-ne-nil : (n : ℕ) → decimal n ≢ []
unfolding decimal
decimal-ne-nil n k =
    let (c, cs, e, _) = print_digits_head (suc n) n [] (omega arith) in cc (sym e ∙ k)

pub codes_empty : (s : String) → str_eq s "" ≡ true → codes s ≡ []
codes_empty s h = ap codes ((str_eq_iff s "").0 h)

-- A variable that is set to the decimal notation of an `int`, with a minus sign for a negative one, is
-- read as that number, whatever the default is.
pub get_env_int-decimal :
    (env : Env) (key : String) (default : ℤ) (n : ℕ)
    → (codes (env key) ≡ decimal n → n < int_limit → get_env_int env key default ≡ pos n)
      × (codes (env key) ≡ b'-' ∷ decimal n → n ≤ int_limit → get_env_int env key default ≡ minus n)
unfolding get_env_int
get_env_int-decimal env key default n = elim (Bool-cases (str_eq (env key) "")) [
  | inl unset ↦ (
    λ e h. absurd (decimal-ne-nil n (sym e ∙ codes_empty (env key) unset)),
    λ e h. absurd (cc (sym (codes_empty (env key) unset) ∙ e)),
  )
  | inr is_set ↦ (λ e h. rw (is_set, e, atoi-decimal n h), λ e h. rw (is_set, e, atoi-minus n h))
]
