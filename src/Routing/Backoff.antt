-- ===== src/Routing/Backoff.antt =====
-- core/routing/src/backoff.rs. A `Duration` is its number of nanoseconds, so `is_zero` is a test
-- with 0 and `checked_mul` fails above the largest `Duration`.
pub mod Delay
use cyberia_vpn.Prelude.{
  ℕ, ◌+◌, ◌-◌, ◌*◌, ◌/◌, ◌^◌, min, ◌||◌, Option, none, some, ltb, leb, ◌==◌, if◌then◌else◌, Result,
  ok, fail_if, u32_max, u128, to_u64,
}
use cyberia_vpn.Result.{◌>>=◌, ◌>>◌}
use cyberia_vpn.Text.{Text, lit}

abbrev pub basis_points : ℕ
basis_points = 10000

-- One hour.
abbrev pub maximum_policy_delay : ℕ
maximum_policy_delay = 3600000000000

-- `Duration::MAX`, 2^64 seconds less a nanosecond.
abbrev pub duration_max : ℕ
duration_max = 18446744073709551615999999999

pub record BackoffPolicy : Type 0 where
  pub initial_delay : ℕ
  pub maximum_delay : ℕ
  pub maximum_attempts : ℕ  -- u32
  pub jitter_basis_points : ℕ  -- u16

pub data BackoffError : Type 0 where
  invalid_policy invalid_entropy_sample : BackoffError

pub display : BackoffError → Text
display invalid_policy = lit "invalid reconnect backoff policy"
display invalid_entropy_sample = lit "entropy sample must be between 0 and 10000"

unfoldable pub validate : BackoffPolicy → Result BackoffError (Unit {0})
validate p =
    fail_if
      (p.initial_delay == 0
        || ltb p.maximum_delay p.initial_delay
        || ltb maximum_policy_delay p.maximum_delay
        || p.maximum_attempts == 0
        || ltb 32 p.maximum_attempts
        || ltb 5000 p.jitter_basis_points)
      invalid_policy

-- `1_u32.checked_shl(attempt).unwrap_or(u32::MAX)`.
unfoldable pub multiplier : ℕ → ℕ
multiplier attempt = if ltb attempt 32 then 2 ^ attempt else u32_max

-- `Duration::checked_mul` and the `unwrap_or` behind it.
unfoldable pub checked_mul_or : ℕ → ℕ → ℕ → ℕ
checked_mul_or delay factor other =
    if leb (delay * factor) duration_max then delay * factor else other

-- The delay of an attempt before jitter.
unfoldable pub base_delay : BackoffPolicy → ℕ → ℕ
unfolding multiplier checked_mul_or
base_delay p attempt =
    min (checked_mul_or p.initial_delay (multiplier attempt) p.maximum_delay) p.maximum_delay

-- The jitter factor in basis points; `u128` arithmetic.
unfoldable pub jitter_factor : BackoffPolicy → ℕ → ℕ
jitter_factor p sample =
    u128 (basis_points - p.jitter_basis_points + 2 * p.jitter_basis_points * sample / basis_points)

unfoldable pub delay : BackoffPolicy → ℕ → ℕ → Result BackoffError (Option ℕ)
delay p attempt entropy_sample = do
  validate p
  fail_if (ltb basis_points entropy_sample) invalid_entropy_sample
  let jittered = u128 (base_delay p attempt * jitter_factor p entropy_sample) / basis_points
  let bounded = min jittered p.maximum_delay
  ok (if leb p.maximum_attempts attempt then none else some (to_u64 bounded))
