-- ===== src/Net/Parse/Digits.antt =====
-- Reading back the numbers that an address is shown by: decimal up to 255, and groups in hexadecimal.
use cyberia_vpn.Prelude.{
  ℕ, zero, suc, ◌+◌, ◌*◌, ◌/◌, ◌%◌, ◌≤◌, ◌<◌, ◌≡◌, refl, ap, ◌∙◌, inl, inr, Bool, true, false, ◌&&◌,
  none, some, List, [], ◌∷◌, ◌++◌, map, arith, ltb, ◌==◌, if◌then◌else◌, ==_iff, Bool-cases, length,
  All,
}
use cyberia_vpn.Text.{Text, decimal, text_eq, text_eq_iff}
use cyberia_vpn.Text.Reader.{starts_with_zero, to_digit, read_digits, read_number}
use cyberia_vpn.Net.Show.{hex_digit, hex_group}
use cyberia_vpn.Net.Parse.{read_octet, read_group}

-- A text that does not go on with a digit.
abbrev pub Stops : ℕ → Text → Type 0
Stops radix [] = Unit {0}
Stops radix (b ∷ bs) = to_digit radix b ≡ none

-- The number that digits spell behind another.
abbrev pub spelled : ℕ → ℕ → List ℕ → ℕ
spelled radix value [] = value
spelled radix value (d ∷ ds) = spelled radix (value * radix + d) ds

read_no_digit :
    (radix maximum value count : ℕ) (rest : Text)
    → Stops radix rest
    → read_digits radix maximum value count rest ≡ some ((value, count), rest)
unfolding read_digits
read_no_digit radix maximum value count [] h = refl
read_no_digit radix maximum value count (b ∷ bs) h = rw (h, read_digits) refl

pub read_digits-spelled :
    (radix maximum : ℕ) (letter : ℕ → ℕ) (ds : List ℕ) (value count : ℕ) (rest : Text)
    → All (λ d. to_digit radix (letter d) ≡ some d) ds
    → count + length ds ≤ maximum
    → Stops radix rest
    → read_digits radix maximum value count (map letter ds ++ rest)
      ≡ some ((spelled radix value ds, count + length ds), rest)
unfolding read_digits
read_digits-spelled radix maximum letter [] value count rest h m s =
    read_no_digit radix maximum value count rest s ∙ ap (λ n. some ((value, n), rest)) (omega arith)
read_digits-spelled radix maximum letter (d ∷ ds) value count rest h m s =
    let fits : ltb maximum (suc count) ≡ false = ground arith in
    rw (h.0, read_digits)
      (rw (fits, read_digits)
        (read_digits-spelled radix maximum letter ds (value * radix + d) (suc count) rest h.1
            (omega arith) s
          ∙ ap (λ n. some ((spelled radix (value * radix + d) ds, n), rest)) (omega arith)))

to_digit-decimal : (d : ℕ) → d < 10 → to_digit 10 (b'0' + d) ≡ some d
unfolding to_digit
to_digit-decimal d h = ground arith

to_digit-hex : (d : ℕ) → d < 16 → to_digit 16 (hex_digit d) ≡ some d
unfolding to_digit hex_digit
to_digit-hex d h = ground arith

-- The digits of a number below a thousand, and of one below 65536.
abbrev decimal_digits : ℕ → List ℕ
decimal_digits n =
    if ltb n 10
    then n ∷ []
    else if ltb n 100
    then n / 10 ∷ n % 10 ∷ []
    else n / 100 ∷ n / 10 % 10 ∷ n % 10 ∷ []

abbrev pub hex_digits : ℕ → List ℕ
hex_digits g =
    if ltb g 16
    then g ∷ []
    else if ltb g 256
    then g / 16 ∷ g % 16 ∷ []
    else if ltb g 4096
    then g / 256 ∷ g / 16 % 16 ∷ g % 16 ∷ []
    else g / 4096 ∷ g / 256 % 16 ∷ g / 16 % 16 ∷ g % 16 ∷ []

abbrev decimal_letter : ℕ → ℕ
decimal_letter d = b'0' + d

-- A number is printed by its digits, tested and for every number below a bound.
printed_by_digits : ℕ → Bool
printed_by_digits n = text_eq (decimal n) (map decimal_letter (decimal_digits n))

printed_up_to : ℕ → Bool
printed_up_to zero = true
printed_up_to (suc bound) = printed_up_to bound && printed_by_digits bound

printed_up_to_octets : printed_up_to 256 ≡ true
unfolding printed_by_digits decimal text_eq printed_up_to
printed_up_to_octets = refl

printed_below : (bound n : ℕ) → n < bound → printed_up_to bound ≡ true → printed_by_digits n ≡ true
unfolding printed_up_to
printed_below zero n lt h = absurd (omega arith)
printed_below (suc bound) n lt h = elim (Bool-cases (n == bound)) [
  | inl e ↦ rw ((==_iff n bound).0 e) (ground arith)
  | inr e ↦ printed_below bound n (ground arith) (ground arith)
]

decimal-digits : (n : ℕ) → n < 256 → decimal n ≡ map decimal_letter (decimal_digits n)
unfolding printed_by_digits
decimal-digits n h = (text_eq_iff _ _).0 (printed_below 256 n h printed_up_to_octets)

pub hex_group-digits : (g : ℕ) → hex_group g ≡ map hex_digit (hex_digits g)
unfolding hex_group
hex_group-digits g = ground arith

decimal_value : (n : ℕ) → spelled 10 0 (decimal_digits n) ≡ n
decimal_value n = ground arith

hex_value : (g : ℕ) → spelled 16 0 (hex_digits g) ≡ g
hex_value g = ground arith

decimal_count : (n : ℕ) → (1 ≤ length (decimal_digits n)) × (length (decimal_digits n) ≤ 3)
decimal_count n = ground arith

hex_count : (g : ℕ) → (1 ≤ length (hex_digits g)) × (length (hex_digits g) ≤ 4)
hex_count g = ground arith

decimal_letters :
    (n : ℕ) → n < 256 → All (λ d. to_digit 10 (decimal_letter d) ≡ some d) (decimal_digits n)
decimal_letters n h = elim (Bool-cases (ltb n 10)) [
  | inl e ↦ rw e (to_digit-decimal (n) (ground arith), tt)
  | inr e ↦ elim (Bool-cases (ltb n 100)) [
    | inl q ↦
        rw (e, q)
          (to_digit-decimal (n / 10) (ground arith), (to_digit-decimal (n % 10) (omega arith), tt))
    | inr q ↦
        rw (e, q)
          (
            to_digit-decimal (n / 100) (omega arith),
            (
              to_digit-decimal (n / 10 % 10) (omega arith),
              (to_digit-decimal (n % 10) (omega arith), tt),
            ),
          )
  ]
]

hex_letters : (g : ℕ) → g < 65536 → All (λ d. to_digit 16 (hex_digit d) ≡ some d) (hex_digits g)
hex_letters g h = elim (Bool-cases (ltb g 16)) [
  | inl e ↦ rw e (to_digit-hex (g) (ground arith), tt)
  | inr e ↦ elim (Bool-cases (ltb g 256)) [
    | inl q ↦
        rw (e, q) (to_digit-hex (g / 16) (ground arith), (to_digit-hex (g % 16) (omega arith), tt))
    | inr q ↦ elim (Bool-cases (ltb g 4096)) [
      | inl r ↦
          rw (e, q, r)
            (
              to_digit-hex (g / 256) (ground arith),
              (to_digit-hex (g / 16 % 16) (omega arith), (to_digit-hex (g % 16) (omega arith), tt)),
            )
      | inr r ↦
          rw (e, q, r)
            (
              to_digit-hex (g / 4096) (omega arith),
              (
                to_digit-hex (g / 256 % 16) (omega arith),
                (
                  to_digit-hex (g / 16 % 16) (omega arith),
                  (to_digit-hex (g % 16) (omega arith), tt),
                ),
              ),
            )
    ]
  ]
]

no_zero_prefix :
    (n : ℕ) (rest : Text)
    → starts_with_zero (map decimal_letter (decimal_digits n) ++ rest)
        && ltb 1 (length (decimal_digits n))
      ≡ false
no_zero_prefix n rest = elim (Bool-cases (ltb n 10)) [
  | inl e ↦ rw e (ground arith)
  | inr e ↦ elim (Bool-cases (ltb n 100)) [
    | inl q ↦ rw (e, q) (ground arith)
    | inr q ↦ rw (e, q) (ground arith)
  ]
]

-- A number below 256 is read back from its decimal digits.
pub read_octet-decimal :
    (n : ℕ) (rest : Text)
    → n < 256
    → Stops 10 rest
    → read_octet (decimal n ++ rest) ≡ some (n, rest)
unfolding read_octet read_number
read_octet-decimal n rest h s = rw (decimal-digits n h) (
    rw
      (read_digits-spelled 10 3 decimal_letter (decimal_digits n) 0 0 rest (decimal_letters n h)
        (omega (arith, decimal_count n)) s)
      (ground (arith, decimal_value n, decimal_count n, no_zero_prefix n rest)))

-- A group is read back from its hexadecimal digits.
pub read_group-hex_group :
    (g : ℕ) (rest : Text)
    → g < 65536
    → Stops 16 rest
    → read_group (hex_group g ++ rest) ≡ some (g, rest)
unfolding read_group read_number
read_group-hex_group g rest h s = rw (hex_group-digits g) (
    rw
      (read_digits-spelled 16 4 hex_digit (hex_digits g) 0 0 rest (hex_letters g h)
        (omega (arith, hex_count g)) s)
      (ground (arith, hex_value g, hex_count g)))
