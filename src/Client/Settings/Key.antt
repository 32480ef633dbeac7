-- ===== src/Client/Settings/Key.antt =====
-- `decode_key` of apps/linux-client/src/lib.rs: exactly which texts it decodes, and on which it panics.
use cyberia_vpn.Prelude.{
  ℕ, ◌+◌, ◌*◌, ◌%◌, ◌<◌, ◌≡◌, refl, ap, subst, ◌∙◌, ◌↔◌, inl, inr, true, false, some, List, [], ◌∷◌,
  arith, ◌==◌, le→leb, ==_iff, Bool-cases, Option-cases, Result-cases, ok, err, length,
}
use cyberia_vpn.Result.{ok_injective, panicked}
use cyberia_vpn.Text.{Text}
use cyberia_vpn.Text.Reader.{to_digit, from_str_radix, unsigned_value}
use cyberia_vpn.Client.Settings.{at_boundary, decode_bytes, decode_key}

-- Two bytes spell a byte: two hexadecimal digits, or a plus sign and one.
pub data SpellsByte : ℕ → ℕ → ℕ → Type 0 where
  digits :
      {a b : ℕ} (x y : ℕ)
      → to_digit 16 a ≡ some x
      → to_digit 16 b ≡ some y
      → SpellsByte a b (x * 16 + y)
  signed : {a b : ℕ} (y : ℕ) → a ≡ b'+' → to_digit 16 b ≡ some y → SpellsByte a b y

-- A text spells bytes.
pub data Spells : Text → List ℕ → Type 0 where
  done : Spells [] []
  next :
      {a b byte : ℕ} {rest : Text} {bytes : List ℕ}
      → SpellsByte a b byte
      → Spells rest bytes
      → Spells (a ∷ b ∷ rest) (byte ∷ bytes)

-- Behind some pairs that are decoded stands one whose end is inside a character.
pub data Cuts : Text → Type 0 where
  now : {a b : ℕ} {rest : Text} → at_boundary rest ≡ false → Cuts (a ∷ b ∷ rest)
  later :
      {a b byte : ℕ} {rest : Text}
      → at_boundary rest ≡ true
      → SpellsByte a b byte
      → Cuts rest
      → Cuts (a ∷ b ∷ rest)

-- A digit is an ASCII byte.
to_digit_below : (b x : ℕ) → to_digit 16 b ≡ some x → (b < 128) × (x < 16)
unfolding to_digit
to_digit_below b x h = ground arith

one_digit :
    (b x value : ℕ)
    → to_digit 16 b ≡ some x
    → value < 16
    → unsigned_value 16 255 value (b ∷ []) ≡ some (value * 16 + x)
unfolding unsigned_value
one_digit b x value h lt =
    let small = (to_digit_below b x h).1 in
    rw (h, unsigned_value, le→leb (value * 16 + x) 255 (omega arith)) refl

two_digits :
    (a b x y : ℕ)
    → to_digit 16 a ≡ some x
    → to_digit 16 b ≡ some y
    → unsigned_value 16 255 0 (a ∷ b ∷ []) ≡ some (x * 16 + y)
unfolding unsigned_value
two_digits a b x y h k =
    let small = (to_digit_below a x h).1 in
    rw (h, unsigned_value, le→leb (0 * 16 + x) 255 (omega arith))
      (one_digit b y (0 * 16 + x) k (omega arith) ∙ ap some (omega arith))

digit_of_one :
    (b value n : ℕ)
    → value < 16
    → unsigned_value 16 255 value (b ∷ []) ≡ some n
    → (y : ℕ) × (to_digit 16 b ≡ some y) × (n ≡ value * 16 + y)
unfolding unsigned_value
digit_of_one b value n lt h = elim (Option-cases (to_digit 16 b)) [
  | inl none_b ↦ ground (arith, none_b, h)
  | inr (y, e) ↦ (y, e, ground (arith, e, h))
]

-- A plus sign is no digit.
plus_no_digit : (a x : ℕ) → to_digit 16 a ≡ some x → (a == b'+') ≡ false
unfolding to_digit
plus_no_digit a x h = ground arith

byte_of_pair : (a b byte : ℕ) → SpellsByte a b byte → from_str_radix 16 255 (a ∷ b ∷ []) ≡ some byte
unfolding from_str_radix
byte_of_pair a b _ (digits x y p q) = rw (plus_no_digit a x p) (two_digits a b x y p q)
byte_of_pair a b _ (signed y p q) = rw p (one_digit b y 0 q (omega arith) ∙ ap some (omega arith))

pair_of_byte : (a b byte : ℕ) → from_str_radix 16 255 (a ∷ b ∷ []) ≡ some byte → SpellsByte a b byte
unfolding from_str_radix unsigned_value
pair_of_byte a b byte h = elim (Bool-cases (a == b'+')) [
  | inl e ↦
      let (y, q, same) = digit_of_one b 0 byte (omega arith) (rw e at h) in
      subst (SpellsByte a b) (omega (arith, same)) (signed y ((==_iff a b'+').0 e) q)
  | inr e ↦ elim (Option-cases (to_digit 16 a)) [
    | inl none_a ↦ absurd (ground (arith, none_a, e, h))
    | inr (x, p) ↦
        let below = (to_digit_below a x p).1 in
        let (y, q, same) =
          digit_of_one b (0 * 16 + x) byte (omega (arith, below))
            (rw (e, unsigned_value, p, le→leb (0 * 16 + x) 255 (omega (arith, below))) at h) in
        subst (SpellsByte a b) (omega (arith, same)) (digits x y p q)
  ]
]

spelled_boundary : (v : Text) (bytes : List ℕ) → Spells v bytes → at_boundary v ≡ true
unfolding at_boundary
spelled_boundary [] _ done = refl
spelled_boundary (a ∷ []) _ s = elim s [ ]
spelled_boundary (a ∷ b ∷ rest) _ (next (digits x y p q) more) =
    ground (arith, to_digit_below a x p)
spelled_boundary (a ∷ b ∷ rest) _ (next (signed y p q) more) = ground (arith, p)

spelled-decode_bytes : (v : Text) (bytes : List ℕ) → Spells v bytes → decode_bytes v ≡ ok bytes
unfolding decode_bytes
spelled-decode_bytes [] _ done = refl
spelled-decode_bytes (a ∷ []) _ s = elim s [ ]
spelled-decode_bytes (a ∷ b ∷ rest) [] s = elim s [ ]
spelled-decode_bytes (a ∷ b ∷ rest) (byte ∷ bytes) (next s more) =
    rw
      (
        spelled_boundary rest bytes more,
        byte_of_pair a b byte s,
        spelled-decode_bytes rest bytes more,
      )
      refl

decode_bytes-Spells : (v : Text) (bytes : List ℕ) → decode_bytes v ≡ ok bytes → Spells v bytes
unfolding decode_bytes
decode_bytes-Spells [] bytes h = subst (Spells []) (ok_injective h) done
decode_bytes-Spells (a ∷ []) bytes h = absurd (ground arith)
decode_bytes-Spells (a ∷ b ∷ rest) bytes h = elim (Bool-cases (at_boundary rest)) [
  | inr e ↦ absurd (ground (arith, e, h))
  | inl e ↦ elim (Option-cases (from_str_radix 16 255 (a ∷ b ∷ []))) [
    | inl none_ab ↦ absurd (ground (arith, none_ab, e, h))
    | inr (byte, p) ↦ elim (Result-cases (decode_bytes rest)) [
      | inr (t, q) ↦ absurd (ground (arith, q, p, e, h))
      | inl (others, q) ↦
          subst (Spells (a ∷ b ∷ rest)) (ok_injective (rw (e, p, q) at h))
            (next (pair_of_byte a b byte p) (decode_bytes-Spells rest others q))
    ]
  ]
]

cut-decode_bytes : (v : Text) → Cuts v → decode_bytes v ≡ err panicked
unfolding decode_bytes
cut-decode_bytes [] c = elim c [ ]
cut-decode_bytes (a ∷ []) c = elim c [ ]
cut-decode_bytes (a ∷ b ∷ rest) (now e) = rw e refl
cut-decode_bytes (a ∷ b ∷ rest) (later {byte = byte} e s more) =
    rw (e, byte_of_pair a b byte s, cut-decode_bytes rest more) refl

decode_bytes-Cuts : (v : Text) → length v % 2 ≡ 0 → decode_bytes v ≡ err panicked → Cuts v
unfolding decode_bytes
decode_bytes-Cuts [] even h = absurd (ground arith)
decode_bytes-Cuts (a ∷ []) even h = absurd (ground arith)
decode_bytes-Cuts (a ∷ b ∷ rest) even h = elim (Bool-cases (at_boundary rest)) [
  | inr e ↦ now e
  | inl e ↦ elim (Option-cases (from_str_radix 16 255 (a ∷ b ∷ []))) [
    | inl none_ab ↦ absurd (ground (arith, none_ab, e, h))
    | inr (byte, p) ↦ elim (Result-cases (decode_bytes rest)) [
      | inl (others, q) ↦ absurd (ground (arith, q, p, e, h))
      | inr (t, q) ↦
          later e (pair_of_byte a b byte p)
            (decode_bytes-Cuts rest (omega arith) (q ∙ ground (arith, q, p, e, h)))
    ]
  ]
]

-- `decode_key` returns a key exactly for the texts of 64 bytes that spell it, pair by pair, where a pair is
-- two hexadecimal digits or a plus sign and one; and it panics exactly on the texts of 64 bytes in which, behind pairs
-- that are decoded, a pair ends inside a character.
pub decode_key_iff :
    (v : Text) (key : List ℕ)
    → (decode_key v ≡ ok key ↔ (length v ≡ 64) × Spells v key)
      × (decode_key v ≡ err panicked ↔ (length v ≡ 64) × Cuts v)
unfolding decode_key
decode_key_iff v key = elim (Bool-cases (length v == 64)) [
  | inl e ↦
      let same = (==_iff (length v) 64).0 e in
      rw e (
        (λ h. (same, decode_bytes-Spells v key h), λ h. spelled-decode_bytes v key h.1),
        (λ h. (same, decode_bytes-Cuts v (rw same refl) h), λ h. cut-decode_bytes v h.1),
      )
  | inr e ↦ rw e (
    (λ h. absurd (ground arith), λ h. absurd (ground (arith, h.0))),
    (λ h. absurd (ground arith), λ h. absurd (ground (arith, h.0))),
  )
]
