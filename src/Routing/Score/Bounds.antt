-- ===== src/Routing/Score/Bounds.antt =====
-- The score of core/routing/src/lib.rs stays in range, no arithmetic of it wraps, and it follows the
-- measurements in the right direction.
use cyberia_vpn.Prelude.{
  ℕ, zero, suc, ◌+◌, ◌-◌, ◌*◌, ◌/◌, ◌≤◌, ◌<◌, ◌≡◌, ◌↔◌, inl, inr, true, false, arith, Result-cases,
  ok, err, u32_max, u64,
}
use native.Mathlib.Nat.{div-le_of_le-mul, div-zero, le-div_iff_mul-le, div-mul-le_self}
use cyberia_vpn.Text.{lit}
use cyberia_vpn.Routing.Score.{
  Measurements, RoutingPolicy, invalid_measurements, total_weight, validate, inverse_quality,
  direct_quality, weighted_sum, score, quality_max,
}

-- The ranges of the integer types of a policy.
pub record IsTyped (p : RoutingPolicy) : Type 0 where
  pub latency : p.weights.latency < 65536
  pub jitter : p.weights.jitter < 65536
  pub packet_loss : p.weights.packet_loss < 65536
  pub bandwidth : p.weights.bandwidth < 65536

-- The ranges of the integer types of the measurements that are scaled up.
pub record IsMeasured (m : Measurements) : Type 0 where
  pub latency : m.latency_ms ≤ u32_max
  pub jitter : m.jitter_ms ≤ u32_max
  pub bandwidth : m.available_bandwidth_mbps ≤ u32_max

-- A policy can be scored by: some weight is assigned, and no limit is zero.
pub record IsUsable (p : RoutingPolicy) : Type 0 where
  pub weight :
      0 < p.weights.latency + p.weights.jitter + p.weights.packet_loss + p.weights.bandwidth
  pub max_latency : 0 < p.limits.maximum_latency_ms
  pub max_jitter : 0 < p.limits.maximum_jitter_ms
  pub target : 0 < p.limits.target_bandwidth_mbps

pub total_weight_lem :
    (p : RoutingPolicy)
    → IsTyped p
    → total_weight p
      ≡ p.weights.latency + p.weights.jitter + p.weights.packet_loss + p.weights.bandwidth
unfolding total_weight
total_weight_lem p t = omega arith

pub validate-IsUsable : (p : RoutingPolicy) → IsTyped p → (validate p ≡ ok tt) ↔ IsUsable p
unfolding validate
validate-IsUsable p t =
    (λ h. ground (arith, total_weight_lem p t), λ v. ground (arith, total_weight_lem p t))

quality_le : (q w : ℕ) → q ≤ quality_max → q * w ≤ 10000 * w
quality_le q w h = grind arith

inverse-le : (v m : ℕ) → inverse_quality v m ≤ quality_max
unfolding inverse_quality
inverse-le v m = omega arith

direct-le : (v m : ℕ) → direct_quality v m ≤ quality_max
unfolding direct_quality
direct-le v m = omega arith

-- The weighted sum with no bound on its size.
abbrev raw_sum : RoutingPolicy → Measurements → ℕ
raw_sum p m =
    inverse_quality m.latency_ms p.limits.maximum_latency_ms * p.weights.latency
    + inverse_quality m.jitter_ms p.limits.maximum_jitter_ms * p.weights.jitter
    + (quality_max - m.packet_loss_basis_points) * p.weights.packet_loss
    + direct_quality m.available_bandwidth_mbps p.limits.target_bandwidth_mbps * p.weights.bandwidth

raw_sum-le :
    (p : RoutingPolicy) (m : Measurements) → IsTyped p → raw_sum p m ≤ 10000 * total_weight p
raw_sum-le p m t =
    let limits = p.limits in
    let w = p.weights in
    omega (
      arith,
      total_weight_lem p t,
      quality_le (inverse_quality m.latency_ms limits.maximum_latency_ms) w.latency
          (inverse-le _ _),
      quality_le (inverse_quality m.jitter_ms limits.maximum_jitter_ms) w.jitter (inverse-le _ _),
      quality_le (quality_max - m.packet_loss_basis_points) w.packet_loss (omega arith),
      quality_le (direct_quality m.available_bandwidth_mbps limits.target_bandwidth_mbps)
          w.bandwidth (direct-le _ _),
    )

-- The `u64` of the sum does not wrap.
pub weighted_sum_lem :
    (p : RoutingPolicy) (m : Measurements) → IsTyped p → weighted_sum p m ≡ raw_sum p m
unfolding weighted_sum
weighted_sum_lem p m t = omega (arith, raw_sum-le p m t, total_weight_lem p t)

pub weighted_sum-le :
    (p : RoutingPolicy) (m : Measurements) → IsTyped p → weighted_sum p m ≤ 10000 * total_weight p
weighted_sum-le p m t = rw (weighted_sum_lem p m t) (raw_sum-le p m t)

pub average-le : (s w : ℕ) → s ≤ 10000 * w → s / w ≤ 10000
average-le s w h = div-le_of_le-mul w (omega arith)

div_mono : (a b m : ℕ) → a ≤ b → a / m ≤ b / m
div_mono a b zero h = omega (arith, div-zero a, div-zero b)
div_mono a b (suc m) h =
    (le-div_iff_mul-le (omega arith)).1 (omega (arith, div-mul-le_self a (suc m)))

-- A score is at most 10000, whatever the measurements.
pub score-le-quality_max :
    (p : RoutingPolicy) (m : Measurements) (s : ℕ) → IsTyped p → score p m ≡ ok s → s ≤ quality_max
unfolding score
score-le-quality_max p m s t h =
    ground (arith, average-le (weighted_sum p m) (total_weight p) (weighted_sum-le p m t))

-- Under a usable policy a node with at most 100 percent of packet loss has a score.
pub score_total :
    (p : RoutingPolicy) (m : Measurements)
    → IsTyped p
    → IsUsable p
    → ((m.available ≡ false → score p m ≡ ok 0)
        × (m.packet_loss_basis_points ≤ quality_max → (s : ℕ) × (score p m ≡ ok s))
        × (m.available ≡ true
            → quality_max < m.packet_loss_basis_points
            → score p m ≡ err (invalid_measurements (lit "packet loss exceeds 100 percent"))))
unfolding score
score_total p m t u =
    let valid = (validate-IsUsable p t).1 u in
    (
      λ down. ground (arith, valid),
      λ fine. elim (Result-cases (score p m)) [
        | inl (s, e) ↦ (s, e)
        | inr (e, q) ↦ absurd (ground (arith, valid))
      ],
      λ up lossy. ground (arith, valid),
    )

-- `m` is at least as good as `n` in each of the four dimensions.
pub record IsBetter (m n : Measurements) : Type 0 where
  pub latency : m.latency_ms ≤ n.latency_ms
  pub jitter : m.jitter_ms ≤ n.jitter_ms
  pub loss : m.packet_loss_basis_points ≤ n.packet_loss_basis_points
  pub bandwidth : n.available_bandwidth_mbps ≤ m.available_bandwidth_mbps

inverse_anti : (v w m : ℕ) → v ≤ w → w ≤ u32_max → inverse_quality w m ≤ inverse_quality v m
unfolding inverse_quality
inverse_anti v w m h k =
    omega (arith, div_mono (u64 (v * quality_max)) (u64 (w * quality_max)) m (omega arith))

direct_mono : (v w m : ℕ) → v ≤ w → w ≤ u32_max → direct_quality v m ≤ direct_quality w m
unfolding direct_quality
direct_mono v w m h k =
    omega (arith, div_mono (u64 (v * quality_max)) (u64 (w * quality_max)) m (omega arith))

term_le : (q r w : ℕ) → q ≤ r → q * w ≤ r * w
term_le q r w h = grind arith

weighted_sum_mono :
    (p : RoutingPolicy) (m n : Measurements)
    → IsTyped p
    → IsMeasured m
    → IsMeasured n
    → IsBetter m n
    → weighted_sum p n ≤ weighted_sum p m
weighted_sum_mono p m n t h k b =
    let limits = p.limits in
    let w = p.weights in
    omega (
      arith,
      weighted_sum_lem p m t,
      weighted_sum_lem p n t,
      term_le _ _ w.latency (inverse_anti _ _ limits.maximum_latency_ms b.latency k.latency),
      term_le _ _ w.jitter (inverse_anti _ _ limits.maximum_jitter_ms b.jitter k.jitter),
      term_le (quality_max - n.packet_loss_basis_points) (quality_max - m.packet_loss_basis_points)
          w.packet_loss (omega arith),
      term_le _ _ w.bandwidth
          (direct_mono _ _ limits.target_bandwidth_mbps b.bandwidth h.bandwidth),
    )

-- Of two available nodes scored by one policy, one that is at least as good in each of latency,
-- jitter, packet loss and bandwidth never scores lower.
pub score_mono :
    (p : RoutingPolicy) (m n : Measurements) (s r : ℕ)
    → IsTyped p
    → IsMeasured m
    → IsMeasured n
    → IsBetter m n
    → m.available ≡ true
    → score p m ≡ ok s
    → score p n ≡ ok r
    → r ≤ s
unfolding score
score_mono p m n s r t h k b up e f = ground (
  arith,
  div_mono (weighted_sum p n) (weighted_sum p m) (total_weight p) (weighted_sum_mono p m n t h k b),
  average-le (weighted_sum p m) (total_weight p) (weighted_sum-le p m t),
)
