-- ===== src/Text.antt =====
-- Rust's `String` and `&str` as the list of their UTF-8 bytes, with the operations of the standard
-- library that the sources call on them.
pub mod Order
pub mod Parse
pub mod Reader
use Prim.Native.Char.{code}
use Prim.Native.String.{String}
use cyberia_vpn.Prelude.{
  [], ℕ, zero, suc, ◌+◌, ◌/◌, ◌%◌, ◌≡◌, ◌↔◌, refl, Bool, true, false, ◌&&◌, ◌||◌, List, ◌∷◌, Option,
  none, some, compare, Ordering, arith, leb, ◌==◌, if◌then◌else◌,
}

abbrev pub Text : Type 0
Text = List ℕ

-- A text literal of the source, which is ASCII everywhere.
unfoldable pub lit : String → Text
lit String.[] = []
lit (String.◌∷◌ c s) = code c ∷ lit s

-- `==` on texts.
unfoldable pub text_eq : Text → Text → Bool
text_eq [] [] = true
text_eq [] (y ∷ ys) = false
text_eq (x ∷ xs) [] = false
text_eq (x ∷ xs) (y ∷ ys) = (x == y) && text_eq xs ys

-- `Ord::cmp` on texts: bytes are compared from the front, and a prefix comes first.
unfoldable pub text_cmp : Text → Text → Ordering
text_cmp [] [] = Ordering.eq
text_cmp [] (y ∷ ys) = Ordering.lt
text_cmp (x ∷ xs) [] = Ordering.gt
text_cmp (x ∷ xs) (y ∷ ys) =
    let rest = text_cmp xs ys in
    elim (compare x y) [
      | Ordering.eq ↦ rest
      | Ordering.lt ↦ Ordering.lt
      | Ordering.gt ↦ Ordering.gt
    ]

pub is_empty : Text → Bool
is_empty [] = true
is_empty (x ∷ xs) = false

-- `char::is_whitespace` on the characters of one byte.
is_whitespace : ℕ → Bool
is_whitespace b = (leb 9 b && leb b 13) || b == 32

-- The white space of more than one byte: U+0085, U+00A0, U+1680, U+2000 to U+200A, U+2028, U+2029,
-- U+202F, U+205F and U+3000.
is_wide_whitespace : ℕ → ℕ → ℕ → Bool
is_wide_whitespace a b c =
    (a == 0xe1 && b == 0x9a && c == 0x80)
    || (a == 0xe2
        && ((b == 0x80 && ((leb 0x80 c && leb c 0x8a) || c == 0xa8 || c == 0xa9 || c == 0xaf))
            || (b == 0x81 && c == 0x9f)))
    || (a == 0xe3 && b == 0x80 && c == 0x80)

-- How far a character of white space has been read.
pub data Pending : Type 0 where
  start : Pending
  one : ℕ → Pending
  two : ℕ → ℕ → Pending

read_blank : Pending → ℕ → Option Pending
unfolding is_whitespace is_wide_whitespace
read_blank start b =
    if is_whitespace b
    then some start
    else if b == 0xc2 || b == 0xe1 || b == 0xe2 || b == 0xe3
    then some (one b)
    else none
read_blank (one a) b =
    if a == 0xc2 then (if b == 0x85 || b == 0xa0 then some start else none) else some (two a b)
read_blank (two a b) c = if is_wide_whitespace a b c then some start else none

blank_from : Pending → Text → Bool
unfolding read_blank
blank_from start [] = true
blank_from _ [] = false
blank_from p (b ∷ rest) = elim (read_blank p b) [ none ↦ false | some q ↦ blank_from q rest ]

-- `s.trim().is_empty()`: every character is white space.
unfoldable pub is_blank : Text → Bool
unfolding blank_from
is_blank s = blank_from start s

-- `u8::is_ascii_alphanumeric`.
unfoldable pub is_ascii_alphanumeric : ℕ → Bool
is_ascii_alphanumeric b =
    (leb b'0' b && leb b b'9') || (leb b'A' b && leb b b'Z') || (leb b'a' b && leb b b'z')

-- The decimal digits of a number, by fuel; `n + 1` rounds are always enough.
unfoldable pub digits_from : ℕ → ℕ → Text → Text
digits_from zero n out = out
digits_from (suc f) n out =
    let out' = (b'0' + n % 10) ∷ out in
    let rest = digits_from f (n / 10) out' in if n / 10 == 0 then out' else rest

-- `to_string` of an unsigned integer.
unfoldable pub decimal : ℕ → Text
unfolding digits_from
decimal n = digits_from (suc n) n []

pub text_eq_iff : (a b : Text) → (text_eq a b ≡ true) ↔ (a ≡ b)
unfolding text_eq
text_eq_iff [] [] = ground arith
text_eq_iff [] (y ∷ ys) = ground arith
text_eq_iff (x ∷ xs) [] = ground arith
text_eq_iff (x ∷ xs) (y ∷ ys) = ground (arith, text_eq_iff xs ys)

is_blank_test : (is_blank (lit "  ") ≡ true) × (is_blank (lit " a") ≡ false)
unfolding is_blank lit
is_blank_test = (refl, refl)

decimal_test : decimal 1420 ≡ lit "1420"
unfolding decimal lit
decimal_test = refl
