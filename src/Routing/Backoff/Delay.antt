-- ===== src/Routing/Backoff/Delay.antt =====
-- The retry delays of core/routing/src/backoff.rs: which policies are accepted, when retries end,
-- and the exact value of each delay.
use cyberia_vpn.Prelude.{
  ◌⊎◌, ℕ, ◌+◌, ◌-◌, ◌*◌, ◌/◌, ◌^◌, ◌≤◌, ◌<◌, min, ◌≡◌, ◌↔◌, none, some, arith, leb, if◌then◌else◌,
  ok,
}
use native.Mathlib.Nat.{pow-le-pow_right}
use cyberia_vpn.Routing.Backoff.{
  BackoffPolicy, validate, base_delay, jitter_factor, delay, basis_points, maximum_policy_delay,
}

-- The operational bounds that a policy has to meet.
pub record IsValid (p : BackoffPolicy) : Type 0 where
  pub starts : 0 < p.initial_delay
  pub ordered : p.initial_delay ≤ p.maximum_delay
  pub capped : p.maximum_delay ≤ maximum_policy_delay
  pub retries : 0 < p.maximum_attempts
  pub finite : p.maximum_attempts ≤ 32
  pub jitter : p.jitter_basis_points ≤ 5000

pub validate-IsValid : (p : BackoffPolicy) → (validate p ≡ ok tt) ↔ IsValid p
unfolding validate
validate-IsValid p = (λ h. ground arith, λ v. ground arith)

base_delay_lem :
    (p : BackoffPolicy) (attempt : ℕ)
    → IsValid p
    → attempt < 32
    → base_delay p attempt ≡ min (p.initial_delay * 2 ^ attempt) p.maximum_delay
unfolding base_delay
base_delay_lem p attempt v h = ground arith

-- The delay before the retry as an exact rational, rounded down.
abbrev pub base : BackoffPolicy → ℕ → ℕ
base p attempt = min (p.initial_delay * 2 ^ attempt) p.maximum_delay

abbrev pub factor : BackoffPolicy → ℕ → ℕ
factor p sample =
    basis_points - p.jitter_basis_points + 2 * p.jitter_basis_points * sample / basis_points

product_le : (a b c d : ℕ) → a ≤ c → b ≤ d → a * b ≤ c * d
product_le a b c d h k = grind arith

factor_bounds :
    (p : BackoffPolicy) (sample : ℕ)
    → IsValid p
    → sample ≤ basis_points
    → (basis_points - p.jitter_basis_points ≤ factor p sample)
      × (factor p sample ≤ basis_points + p.jitter_basis_points)
factor_bounds p sample v h =
    omega (arith, product_le p.jitter_basis_points sample p.jitter_basis_points 10000)

jitter_factor_lem :
    (p : BackoffPolicy) (sample : ℕ)
    → IsValid p
    → sample ≤ basis_points
    → jitter_factor p sample ≡ factor p sample
unfolding jitter_factor
jitter_factor_lem p sample v h = omega (arith, factor_bounds p sample v h)

base-le : (p : BackoffPolicy) (attempt : ℕ) → base p attempt ≤ p.maximum_delay
base-le p attempt = omega arith

-- No 128-bit product wraps.
product_fits :
    (p : BackoffPolicy) (attempt sample : ℕ)
    → IsValid p
    → sample ≤ basis_points
    → base p attempt * factor p sample ≤ 3600000000000 * 15000
product_fits p attempt sample v h =
    product_le (base p attempt) (factor p sample) 3600000000000 15000
      (omega (arith, base-le p attempt)) (omega (arith, factor_bounds p sample v h))

-- Under a valid policy and an entropy sample in range, `delay` never fails; it is `None` exactly
-- when the attempt has reached `maximum_attempts`, and otherwise it is `base * factor / 10000`
-- capped by `maximum_delay`, where `base` is the initial delay doubled once for each attempt and
-- capped, and `factor` runs over `10000 ± jitter`: no conversion or product loses anything.
pub delay_exact :
    (p : BackoffPolicy) (attempt sample : ℕ)
    → IsValid p
    → sample ≤ basis_points
    → delay p attempt sample
      ≡ ok (
          if leb p.maximum_attempts attempt
          then none
          else some (min (base p attempt * factor p sample / basis_points) p.maximum_delay))
unfolding delay
delay_exact p attempt sample v h =
    rw ((validate-IsValid p).1 v, jitter_factor_lem p sample v h)
      (ground
        (arith, base_delay_lem p attempt v, base-le p attempt, product_fits p attempt sample v h))

delay_value :
    (p : BackoffPolicy) (attempt sample d : ℕ)
    → IsValid p
    → sample ≤ basis_points
    → delay p attempt sample ≡ ok (some d)
    → d ≡ min (base p attempt * factor p sample / basis_points) p.maximum_delay
delay_value p attempt sample d v h e = ground (arith, delay_exact p attempt sample v h)

-- Every delay that is handed out is at most `maximum_delay`, also under policies and entropy
-- samples that were never checked by the caller; and a policy or a sample out of range is refused.
pub delay_bounded :
    (p : BackoffPolicy) (attempt sample d : ℕ)
    → delay p attempt sample ≡ ok (some d)
    → (d ≤ p.maximum_delay) × IsValid p × (sample ≤ basis_points) × (attempt < p.maximum_attempts)
unfolding delay validate
delay_bounded p attempt sample d h = ground arith

-- Under a valid policy with an entropy sample in range, the delay of an attempt is at most
-- `(10000 + jitter) / 10000` and at least `(10000 - jitter) / 10000` of the base delay, unless the
-- cap on the delay is what it returns.
pub delay_jitter :
    (p : BackoffPolicy) (attempt sample d : ℕ)
    → IsValid p
    → sample ≤ basis_points
    → delay p attempt sample ≡ ok (some d)
    → (d * basis_points ≤ base p attempt * (basis_points + p.jitter_basis_points))
      × ((base p attempt * (basis_points - p.jitter_basis_points) < (d + 1) * basis_points)
          ⊎ (d ≡ p.maximum_delay))
delay_jitter p attempt sample d v h e = ground (
  arith,
  delay_value p attempt sample d v h e,
  product_le (base p attempt) (factor p sample) (base p attempt)
      (basis_points + p.jitter_basis_points),
  product_le (base p attempt) (basis_points - p.jitter_basis_points) (base p attempt)
      (factor p sample),
  factor_bounds p sample v h,
)

base_mono : (p : BackoffPolicy) (m n : ℕ) → m ≤ n → base p m ≤ base p n
base_mono p m n h = omega (
  arith,
  product_le p.initial_delay (2 ^ m) p.initial_delay (2 ^ n) (omega arith)
      (pow-le-pow_right (omega arith) h),
)

-- With the same entropy sample a later attempt never waits less than an earlier one.
pub delay_mono :
    (p : BackoffPolicy) (sample m n d e : ℕ)
    → m ≤ n
    → delay p m sample ≡ ok (some d)
    → delay p n sample ≡ ok (some e)
    → d ≤ e
delay_mono p sample m n d e h k l =
    let b = delay_bounded p m sample d k in
    omega (
      arith,
      delay_value p m sample d b.1 b.2 k,
      delay_value p n sample e b.1 b.2 l,
      product_le (base p m) (factor p sample) (base p n) (factor p sample) (base_mono p m n h)
          (omega arith),
    )
