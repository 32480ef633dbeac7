-- ===== src/Text/Parse.antt =====
-- How the sources take text apart: `str::from_utf8`, `lines`, `split_ascii_whitespace` and `parse::<u64>`
-- of the standard library.
pub mod Numbers
use cyberia_vpn.Prelude.{
  ℕ, ◌+◌, ◌-◌, ◌*◌, ◌≡◌, refl, Bool, true, false, ◌&&◌, ◌||◌, Option, none, some, List, [], ◌∷◌,
  ◌++◌, ltb, leb, ◌==◌, if◌then◌else◌, length, keep, u64_max,
}
use cyberia_vpn.Text.{Text, lit}

abbrev Range : Type 0
Range = ℕ × ℕ

abbrev within : Range → ℕ → Bool
within r b = leb r.0 b && leb b r.1

-- The bytes that have to follow the first one of a character.
unfoldable pub lead : ℕ → Option (List Range)
lead b =
    let tail : Range = (0x80, 0xbf) in
    if ltb b 0x80
    then some []
    else if within (0xc2, 0xdf) b
    then some (tail ∷ [])
    else if b == 0xe0
    then some ((0xa0, 0xbf) ∷ tail ∷ [])
    else if b == 0xed
    then some ((0x80, 0x9f) ∷ tail ∷ [])
    else if within (0xe1, 0xef) b
    then some (tail ∷ tail ∷ [])
    else if b == 0xf0
    then some ((0x90, 0xbf) ∷ tail ∷ tail ∷ [])
    else if within (0xf1, 0xf3) b
    then some (tail ∷ tail ∷ tail ∷ [])
    else if b == 0xf4
    then some ((0x80, 0x8f) ∷ tail ∷ tail ∷ [])
    else none

unfoldable pub utf8_from : List Range → Text → Bool
unfolding lead
utf8_from [] [] = true
utf8_from (r ∷ rs) [] = false
utf8_from [] (b ∷ bs) = elim (lead b) [ none ↦ false | some rs ↦ utf8_from rs bs ]
utf8_from (r ∷ rs) (b ∷ bs) = within r b && utf8_from rs bs

unfoldable pub is_utf8 : Text → Bool
unfolding utf8_from
is_utf8 t = utf8_from [] t

-- The pieces between the bytes that a test picks; there is always one.
unfoldable pub split_at : (ℕ → Bool) → Text → Text × List Text
split_at p [] = ([], [])
split_at p (b ∷ bs) =
    let rest = split_at p bs in if p b then ([], rest.0 ∷ rest.1) else (b ∷ rest.0, rest.1)

-- A carriage return at the end of a line belongs to the line's end.
unfoldable pub strip_return : Text → Text
strip_return [] = []
strip_return (b ∷ []) = if b == 13 then [] else b ∷ []
strip_return (b ∷ c ∷ bs) = b ∷ strip_return (c ∷ bs)

-- The last piece is a line only if it is not empty, and its carriage return is not stripped.
unfoldable pub lines_of : Text → List Text → List Text
lines_of [] [] = []
lines_of (b ∷ bs) [] = (b ∷ bs) ∷ []
lines_of first (next ∷ rest) = strip_return first ∷ lines_of next rest

unfoldable pub lines : Text → List Text
unfolding split_at lines_of strip_return
lines t = let parts = split_at (λ b. b == 10) t in lines_of parts.0 parts.1

abbrev is_ascii_whitespace : ℕ → Bool
is_ascii_whitespace b = b == 9 || b == 10 || b == 12 || b == 13 || b == 32

abbrev not_empty : Text → Bool
not_empty t = ltb 0 (length t)

unfoldable pub fields : Text → List Text
unfolding split_at
fields t = let parts = split_at is_ascii_whitespace t in keep not_empty (parts.0 ∷ parts.1)

-- The digits of a number that fits `u64`.
unfoldable pub digits_value : ℕ → Text → Option ℕ
digits_value n [] = some n
digits_value n (b ∷ bs) =
    let next = n * 10 + (b - b'0') in
    let rest = digits_value next bs in
    if leb b'0' b && leb b b'9' && leb next u64_max then rest else none

unfoldable pub parse_u64 : Text → Option ℕ
unfolding digits_value
parse_u64 [] = none
parse_u64 (b ∷ []) = if b == b'+' then none else digits_value 0 (b ∷ [])
parse_u64 (b ∷ c ∷ bs) = digits_value 0 (if b == b'+' then c ∷ bs else b ∷ c ∷ bs)

parse_test :
    (parse_u64 (lit "1700000000") ≡ some 1700000000)
    × (parse_u64 (lit "18446744073709551616") ≡ none)
    × (lines (lit "ab" ++ (13 ∷ 10 ∷ []) ++ lit "c") ≡ lit "ab" ∷ lit "c" ∷ [])
    × (fields (lit " a  bc ") ≡ lit "a" ∷ lit "bc" ∷ [])
    × (is_utf8 (0xe2 ∷ 0x82 ∷ 0xac ∷ []) ≡ true)
    × (is_utf8 (0xc0 ∷ 0x80 ∷ []) ≡ false)
unfolding lit parse_u64 digits_value lines split_at lines_of strip_return fields is_utf8 utf8_from
    lead
parse_test = (refl, refl, refl, refl, refl, refl)
