-- ===== src/Net/Prefix.antt =====
-- The prefix masks of core/transport/src/wireguard.rs.
use Prim.Native.Nat.{bit_and}
use native.Mathlib.Nat.{one-le-pow, pow-le-pow_right, mod-eq_of_lt, mul-add-mod_self_left}
use cyberia_vpn.Prelude.{ℕ, zero, suc, ◌+◌, ◌-◌, ◌*◌, ◌/◌, ◌%◌, ◌^◌, ◌≤◌, ◌<◌, ◌≡◌, arith}
use cyberia_vpn.Bits.{bit_and-prefix}

-- `u32::MAX << (32 - prefix)` for the width 32, and for `u128` alike: the difference is a `u8`, and a
-- shift takes its count modulo the width.
unfoldable pub prefix_mask : ℕ → ℕ → ℕ
prefix_mask w prefix = (2 ^ w - 1) * 2 ^ ((w + 256 - prefix) % 256 % w) % 2 ^ w

shifted_ones : (X Y : ℕ) → 0 < Y → Y ≤ X → (X - 1) * Y ≡ X * (Y - 1) + (X - Y)
shifted_ones zero Y y h = omega arith
shifted_ones (suc x) zero y h = absurd (omega arith)
shifted_ones (suc x) (suc y) p h =
    let e : suc x - 1 ≡ x = omega arith in
    let f : suc y - 1 ≡ y = omega arith in rw (e, f) (omega arith)

-- Between 1 and the width, nothing wraps.
pub prefix_mask-eq :
    (w prefix : ℕ)
    → w < 256
    → 0 < prefix
    → prefix ≤ w
    → prefix_mask w prefix ≡ 2 ^ w - 2 ^ (w - prefix)
unfolding prefix_mask
prefix_mask-eq w p small pos h =
    let wrapped : (w + 256 - p) % 256 ≡ w - p = omega arith in
    let counted : (w - p) % w ≡ w - p = mod-eq_of_lt (omega arith) in
    let some_bit = one-le-pow (w - p) 2 (omega arith) in
    let wide = pow-le-pow_right {n = 2} (omega arith) {i = w - p} {j = w} (omega arith) in
    rw (wrapped, counted, shifted_ones (2 ^ w) (2 ^ (w - p)) some_bit wide, mul-add-mod_self_left)
      (mod-eq_of_lt omega arith)

-- Under a mask, two numbers are equal when their prefixes are.
pub masked-eq :
    (w prefix x : ℕ)
    → w < 256
    → 0 < prefix
    → prefix ≤ w
    → x < 2 ^ w
    → bit_and x (prefix_mask w prefix) ≡ x / 2 ^ (w - prefix) * 2 ^ (w - prefix)
masked-eq w p x small pos h fits =
    rw (prefix_mask-eq w p small pos h) (bit_and-prefix w (w - p) x (omega arith) fits)
