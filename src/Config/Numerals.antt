-- ===== src/Config/Numerals.antt =====
-- The integers of the environment, written in decimal digits.
use mentor_ia_worker.Prelude.{
  ℕ, suc, zero, ◌+◌, ◌*◌, ◌/◌, ◌%◌, ◌<◌, ◌≡◌, refl, sym, ap, ◌∙◌, String, true, false, some, [],
  ◌∷◌, ℤ, pos, two_63, ◌==◌, arith, inl, inr, Bool-cases,
}
use mentor_ia_worker.Text.{Bytes, decimal, decimal_digits, trim_space, is_empty}
use mentor_ia_worker.Domain.Errors.{ok}
use mentor_ia_worker.Config.{Environment, parsed_int, get_env_int}
use mentor_ia_worker.Config.Decimal.{is_digit, digits_value, magnitude, positive, atoi}

digit-is_digit : (n : ℕ) → is_digit (b'0' + n % 10) ≡ true
unfolding is_digit
digit-is_digit n = ground arith

-- A digit, read after others.
digits_value-digit :
    (acc n : ℕ) (cs : Bytes)
    → digits_value acc ((b'0' + n % 10) ∷ cs) ≡ digits_value (acc * 10 + n % 10) cs
unfolding digits_value
digits_value-digit acc n cs = rw (digit-is_digit n) (ap (λ k. digits_value k cs) (omega arith))

digits_value-decimal_digits :
    (fuel n : ℕ) (cs : Bytes)
    → n < fuel
    → digits_value 0 (decimal_digits fuel n cs) ≡ digits_value n cs
unfolding decimal_digits
digits_value-decimal_digits zero n cs h = absurd (omega (arith, h))
digits_value-decimal_digits (suc fuel) n cs h = elim (Bool-cases (n / 10 == 0)) [
  | inl e ↦ rw e (digits_value-digit 0 n cs ∙ ap (λ k. digits_value k cs) (ground arith))
  | inr e ↦ rw e (
      digits_value-decimal_digits fuel (n / 10) ((b'0' + n % 10) ∷ cs) (ground arith)
      ∙ digits_value-digit (n / 10) n cs
      ∙ ap (λ k. digits_value k cs) (ground arith))
]

-- A text that starts with a digit.
abbrev StartsWithDigit : Bytes → Type 0
StartsWithDigit s = (c : ℕ) × (cs : Bytes) × (s ≡ c ∷ cs) × (is_digit c ≡ true)

decimal_digits-StartsWithDigit :
    (fuel n : ℕ) (c : ℕ) (cs : Bytes)
    → is_digit c ≡ true
    → StartsWithDigit (decimal_digits fuel n (c ∷ cs))
unfolding decimal_digits
decimal_digits-StartsWithDigit zero n c cs h = (c, cs, refl, h)
decimal_digits-StartsWithDigit (suc fuel) n c cs h = elim (Bool-cases (n / 10 == 0)) [
  | inl e ↦ rw e (b'0' + n % 10, c ∷ cs, refl, digit-is_digit n)
  | inr e ↦
      rw e
        (decimal_digits-StartsWithDigit fuel (n / 10) (b'0' + n % 10) (c ∷ cs) (digit-is_digit n))
]

decimal-StartsWithDigit : (n : ℕ) → StartsWithDigit (decimal n)
unfolding decimal decimal_digits
decimal-StartsWithDigit n = elim (Bool-cases (n / 10 == 0)) [
  | inl e ↦ rw e (b'0' + n % 10, [], refl, digit-is_digit n)
  | inr e ↦ rw e (decimal_digits-StartsWithDigit n (n / 10) (b'0' + n % 10) [] (digit-is_digit n))
]

decimal-digits_value : (n : ℕ) → digits_value 0 (decimal n) ≡ some n
unfolding decimal digits_value
decimal-digits_value n = digits_value-decimal_digits (suc n) n [] (omega arith)

atoi-digits :
    (c : ℕ) (cs : Bytes) → is_digit c ≡ true → atoi (c ∷ cs) ≡ positive (digits_value 0 (c ∷ cs))
unfolding atoi magnitude is_digit
atoi-digits c cs h = ground arith

atoi-decimal : (n : ℕ) → n < two_63 → atoi (decimal n) ≡ some (pos n)
unfolding positive
atoi-decimal n h =
    let (c, cs, same, digit) = decimal-StartsWithDigit n in
    ap atoi same
    ∙ atoi-digits c cs digit
    ∙ ap (λ s. positive (digits_value 0 s)) (sym same)
    ∙ ap positive (decimal-digits_value n)
    ∙ in_range
  where
    in_range : positive (some n) ≡ some (pos n)
    in_range = ground arith

decimal-is_empty : (n : ℕ) → is_empty (decimal n) ≡ false
decimal-is_empty n =
    let (c, cs, same, digit) = decimal-StartsWithDigit n in ap is_empty same ∙ not_empty c cs
  where
    not_empty : (c : ℕ) (cs : Bytes) → is_empty (c ∷ cs) ≡ false
    not_empty c cs = ground arith

-- An integer variable whose text, without the spaces around it, is a number below 2 ^ 63 in decimal
-- digits, is read as that number.
pub get_env_int-decimal :
    (env : Environment) (key : String) (fallback : ℤ) (n : ℕ)
    → trim_space (env key) ≡ decimal n
    → n < two_63
    → get_env_int env key fallback ≡ ok (pos n)
unfolding get_env_int parsed_int
get_env_int-decimal env key fallback n e h = rw (e, decimal-is_empty n, atoi-decimal n h) refl
