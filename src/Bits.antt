-- ===== src/Bits.antt =====
-- `&` with the masks of network prefixes, as arithmetic.
use Prim.Native.Nat.{bit_and, bit_and-bitwise, digits}
use native.Mathlib.Nat.{pow-suc, one-le-pow, div-div-eq-div-mul}
use cyberia_vpn.Prelude.{
  ℕ, zero, suc, ◌+◌, ◌-◌, ◌*◌, ◌/◌, ◌%◌, ◌^◌, ◌≤◌, ◌<◌, min, ◌≡◌, refl, sym, ap, subst, ◌∙◌, arith,
}

digits-nil : (n b : ℕ) → digits (λ y. 0) min n 0 b ≡ 0
digits-nil zero b = refl
digits-nil (suc n) b = refl

-- The recursion on digits does not depend on its fuel.
digits-fuel : (n m a b : ℕ) → a ≤ n → a ≤ m → digits (λ y. 0) min n a b ≡ digits (λ y. 0) min m a b
digits-fuel n m zero b p q = digits-nil n b ∙ sym (digits-nil m b)
digits-fuel zero m (suc a) b p q = absurd (omega arith)
digits-fuel (suc n) zero (suc a) b p q = absurd (omega arith)
digits-fuel (suc n) (suc m) (suc a) b p q =
    ap (λ (t : ℕ). t * 2 + min (suc a % 2) (b % 2))
      (digits-fuel n m (suc a / 2) (b / 2) (omega arith) (omega arith))

-- The lowest digit of `&`.
bit_and-digit : (a b : ℕ) → bit_and a b ≡ bit_and (a / 2) (b / 2) * 2 + min (a % 2) (b % 2)
bit_and-digit zero b = simp bit_and-bitwise (omega arith)
bit_and-digit (suc a) b = simp bit_and-bitwise (
    ap (λ (t : ℕ). t * 2 + min (suc a % 2) (b % 2))
      (digits-fuel a (suc a / 2) (suc a / 2) (b / 2) (omega arith) (omega arith)))

-- A mask that is wide enough keeps every digit.
bit_and-full : (k x : ℕ) → x < 2 ^ k → bit_and x (2 ^ k - 1) ≡ x
bit_and-full zero x h =
    let z : x ≡ 0 = omega arith in subst (λ (t : ℕ). bit_and t 0 ≡ t) (sym z) refl
bit_and-full (suc k) x h = ground (
  arith,
  bit_and-digit x (2 ^ suc k - 1),
  pow-suc 2 k,
  one-le-pow k 2,
  bit_and-full k (x / 2) (omega (arith, pow-suc 2 k)),
)

-- A mask without its `s` lowest digits clears them.
pub bit_and-prefix : (n s x : ℕ) → s ≤ n → x < 2 ^ n → bit_and x (2 ^ n - 2 ^ s) ≡ x / 2 ^ s * 2 ^ s
bit_and-prefix n zero x h fits = omega (arith, bit_and-full n x fits)
bit_and-prefix zero (suc s) x h fits = absurd (omega arith)
bit_and-prefix (suc n) (suc s) x h fits = ground (
  arith,
  bit_and-digit x (2 ^ suc n - 2 ^ suc s),
  pow-suc 2 n,
  pow-suc 2 s,
  div-div-eq-div-mul x 2 (2 ^ s),
  bit_and-prefix n s (x / 2) (omega arith) (omega (arith, pow-suc 2 n)),
)
