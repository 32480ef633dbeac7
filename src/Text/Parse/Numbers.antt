-- ===== src/Text/Parse/Numbers.antt =====
-- Numbers that were printed in decimal are read back, so the rounds that printing takes are always enough.
use cyberia_vpn.Prelude.{
  ℕ, zero, suc, ◌+◌, ◌/◌, ◌%◌, ◌≤◌, ◌<◌, ◌≡◌, ap, ◌∙◌, inl, inr, some, [], ◌∷◌, arith, ◌==◌,
  Bool-cases, u64_max,
}
use cyberia_vpn.Text.{Text, digits_from, decimal}
use cyberia_vpn.Text.Parse.{digits_value, parse_u64}

last_digit :
    (n : ℕ) (out : Text)
    → n ≤ u64_max
    → digits_value (n / 10) ((b'0' + n % 10) ∷ out) ≡ digits_value n out
unfolding digits_value
last_digit n out h = ground arith

digits_value-digits_from :
    (f n : ℕ) (out : Text)
    → n < f
    → n ≤ u64_max
    → digits_value 0 (digits_from f n out) ≡ digits_value n out
unfolding digits_from
digits_value-digits_from zero n out lt h = absurd (omega arith)
digits_value-digits_from (suc f) n out lt h = elim (Bool-cases (n / 10 == 0)) [
  | inl e ↦
      rw e (ap (λ m. digits_value m ((b'0' + n % 10) ∷ out)) (ground arith) ∙ last_digit n out h)
  | inr e ↦ rw e (
      digits_value-digits_from f (n / 10) ((b'0' + n % 10) ∷ out) (ground arith) (omega arith)
      ∙ last_digit n out h)
]

-- The first byte is a digit.
abbrev pub StartsWithDigit : Text → Type 0
StartsWithDigit [] = ⊥
StartsWithDigit (b ∷ bs) = (b'0' ≤ b) × (b ≤ b'9')

pub digits_from-StartsWithDigit :
    (f n : ℕ) (out : Text) → n < f → StartsWithDigit (digits_from f n out)
unfolding digits_from
digits_from-StartsWithDigit zero n out lt = absurd (omega arith)
digits_from-StartsWithDigit (suc f) n out lt = elim (Bool-cases (n / 10 == 0)) [
  | inl e ↦ rw e (omega arith, omega arith)
  | inr e ↦ rw e (digits_from-StartsWithDigit f (n / 10) ((b'0' + n % 10) ∷ out) (ground arith))
]

parse_u64-digits : (t : Text) → StartsWithDigit t → parse_u64 t ≡ digits_value 0 t
unfolding parse_u64
parse_u64-digits [] h = absurd h
parse_u64-digits (b ∷ []) h = ground arith
parse_u64-digits (b ∷ c ∷ bs) h = ground arith

-- The fuel of `decimal` is enough: a number that fits `u64` is read back from what it prints.
pub parse_u64-decimal : (n : ℕ) → n ≤ u64_max → parse_u64 (decimal n) ≡ some n
unfolding decimal digits_value
parse_u64-decimal n h =
    parse_u64-digits (digits_from (suc n) n [])
      (digits_from-StartsWithDigit (suc n) n [] (omega arith))
    ∙ digits_value-digits_from (suc n) n [] (omega arith) h
