-- ===== src/Text/Reader.antt =====
-- Reading a text from its front, as `core::net::parser` and the number parsers of the standard library do.
-- A reader that fails leaves the text where it was.
use cyberia_vpn.Prelude.{
  ℕ, zero, suc, ◌+◌, ◌-◌, ◌*◌, ◌≡◌, refl, Bool, true, false, not, ◌&&◌, ◌||◌, Option, none, some,
  [], ◌∷◌, ltb, leb, ◌==◌, if◌then◌else◌,
}
use cyberia_vpn.Text.{Text, lit}

abbrev pub Reader {ℓ} : Type ℓ → Type ℓ
Reader A = Text → Option (A × Text)

module _ {ℓ κ} {A : Type ℓ} {B : Type κ} where
  infixl 5 ◌>>=◌ ◌>>◌
  abbrev pub go_on : Option (A × Text) → (A → Reader B) → Option (B × Text)
  go_on none f = none
  go_on (some (a, rest)) f = f a rest

  abbrev pub ◌>>=◌ : Reader A → (A → Reader B) → Reader B
  ◌>>=◌ m f t = go_on (m t) f

  abbrev pub ◌>>◌ : Reader A → Reader B → Reader B
  m >> n = m >>= λ _. n

module _ {ℓ} {A : Type ℓ} where
  abbrev pub pure : A → Reader A
  pure a t = some (a, t)

  abbrev pub otherwise : Option (A × Text) → Option (A × Text) → Option (A × Text)
  otherwise none other = other
  otherwise (some r) other = some r

-- `read_given_char`.
unfoldable pub given : ℕ → Reader (Unit {0})
given c [] = none
given c (b ∷ bs) = if b == c then some (tt, bs) else none

-- `read_separator`: there is none in front of the item at place 0.
module _ {ℓ} {A : Type ℓ} where
  abbrev pub separated : ℕ → ℕ → Reader A → Reader A
  separated separator zero m t = m t
  separated separator (suc i) m t = (given separator >> m) t

-- `char::to_digit`.
unfoldable pub to_digit : ℕ → ℕ → Option ℕ
to_digit radix b =
    let d =
      if leb b'0' b && leb b b'9'
      then b - b'0'
      else if leb b'a' b && leb b b'z'
      then b - b'a' + 10
      else if leb b'A' b && leb b b'Z'
      then b - b'A' + 10
      else radix in
    if ltb d radix then some d else none

-- The digits at the front: their value, how many they are, and what follows them; it fails when there are
-- more than `maximum`.
unfoldable pub read_digits : ℕ → ℕ → ℕ → ℕ → Text → Option ((ℕ × ℕ) × Text)
read_digits radix maximum value count [] = some ((value, count), [])
read_digits radix maximum value count (b ∷ bs) = elim (to_digit radix b) [
  | none ↦ some ((value, count), b ∷ bs)
  | some d ↦ elim (ltb maximum (suc count)) [
    | true ↦ none
    | false ↦ read_digits radix maximum (value * radix + d) (suc count) bs
  ]
]

abbrev pub starts_with_zero : Text → Bool
starts_with_zero [] = false
starts_with_zero (b ∷ bs) = b == b'0'

-- `read_number`, into a number of at most `bound`.
unfoldable pub read_number : ℕ → ℕ → Bool → ℕ → Reader ℕ
unfolding read_digits
read_number radix maximum allow_zero_prefix bound t =
    (do
      (value, count) ← read_digits radix maximum 0 0
      λ rest.
          if count == 0
            || (not allow_zero_prefix && starts_with_zero t && ltb 1 count)
            || ltb bound value
          then none
          else some (value, rest))
      t

-- The value of a text of digits, where every step has to fit.
unfoldable pub unsigned_value : ℕ → ℕ → ℕ → Text → Option ℕ
unsigned_value radix bound value [] = some value
unsigned_value radix bound value (b ∷ bs) = elim (to_digit radix b) [
  | none ↦ none
  | some d ↦ elim (leb (value * radix + d) bound) [
    | false ↦ none
    | true ↦ unsigned_value radix bound (value * radix + d) bs
  ]
]

-- `from_str_radix` and `parse` of an unsigned type whose largest number is `bound`; a plus sign may stand
-- in front.
unfoldable pub from_str_radix : ℕ → ℕ → Text → Option ℕ
unfolding unsigned_value
from_str_radix radix bound [] = none
from_str_radix radix bound (b ∷ []) =
    if b == b'+' then none else unsigned_value radix bound 0 (b ∷ [])
from_str_radix radix bound (b ∷ c ∷ bs) =
    unsigned_value radix bound 0 (if b == b'+' then c ∷ bs else b ∷ c ∷ bs)

-- `str::split_once`.
unfoldable pub split_once : ℕ → Text → Option (Text × Text)
split_once c [] = none
split_once c (b ∷ bs) =
    let rest = split_once c bs in
    if b == c then some ([], bs) else elim rest [ none ↦ none | some (l, r) ↦ some (b ∷ l, r) ]

reader_test :
    (from_str_radix 16 255 (lit "+f") ≡ some 15)
    × (from_str_radix 10 255 (lit "256") ≡ none)
    × (from_str_radix 10 255 (lit "+") ≡ none)
    × (split_once b'/' (lit "a/b/c") ≡ some (lit "a", lit "b/c"))
unfolding from_str_radix unsigned_value to_digit split_once lit
reader_test = (refl, refl, refl, refl)
