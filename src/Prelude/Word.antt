-- ===== src/Prelude/Word.antt =====
-- Machine integers: the wrap-around of `u32` and `u64`, and the conversions that saturate.
use Prim.Native.Nat.{ℕ, ◌+◌, ◌%◌, min}

abbrev pub u32_max : ℕ
u32_max = 4294967295

abbrev pub u64_max : ℕ
u64_max = 18446744073709551615

abbrev pub u16 : ℕ → ℕ
u16 n = n % 65536

abbrev pub u32 : ℕ → ℕ
u32 n = n % 4294967296

abbrev pub u64 : ℕ → ℕ
u64 n = n % 18446744073709551616

abbrev pub u128 : ℕ → ℕ
u128 n = n % 340282366920938463463374607431768211456

-- `u32::try_from(n).unwrap_or(u32::MAX)` of a value that is not negative.
abbrev pub to_u32 : ℕ → ℕ
to_u32 n = min n u32_max

-- `u64::try_from(n).unwrap_or(u64::MAX)`.
abbrev pub to_u64 : ℕ → ℕ
to_u64 n = min n u64_max

-- `u32::saturating_add`.
abbrev pub saturating_add : ℕ → ℕ → ℕ
saturating_add a b = min (a + b) u32_max
