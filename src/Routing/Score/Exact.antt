-- ===== src/Routing/Score/Exact.antt =====
-- The score of core/routing/src/lib.rs, in which nothing wraps and nothing is cut off: its value.
use cyberia_vpn.Prelude.{
  ℕ, ◌+◌, ◌-◌, ◌*◌, ◌/◌, ◌≤◌, ◌<◌, ◌≡◌, refl, ap, ◌∙◌, min, to_u32, true, false, arith, ok, err,
  u32_max, u64,
}
use cyberia_vpn.Text.{lit}
use cyberia_vpn.Routing.Score.{
  Measurements, RoutingPolicy, invalid_measurements, total_weight, inverse_quality, direct_quality,
  weighted_sum, score, quality_max,
}
use cyberia_vpn.Routing.Score.Bounds.{
  IsTyped, IsMeasured, IsUsable, total_weight_lem, validate-IsUsable, weighted_sum_lem,
  weighted_sum-le, average-le,
}

-- The score in numbers without bounds: the mean of the four qualities under the weights, rounded down, where
-- the quality of a latency or jitter falls from 10000 to 0 at its limit, and that of a bandwidth rises to
-- 10000 at its target.
pub exact_score : RoutingPolicy → Measurements → ℕ
exact_score p m =
    ((10000 - m.latency_ms * 10000 / p.limits.maximum_latency_ms) * p.weights.latency
      + (10000 - m.jitter_ms * 10000 / p.limits.maximum_jitter_ms) * p.weights.jitter
      + (10000 - m.packet_loss_basis_points) * p.weights.packet_loss
      + min (m.available_bandwidth_mbps * 10000 / p.limits.target_bandwidth_mbps) 10000
        * p.weights.bandwidth)
    / (p.weights.latency + p.weights.jitter + p.weights.packet_loss + p.weights.bandwidth)

in_range : (n : ℕ) → n ≤ u32_max → u64 (n * quality_max) ≡ n * 10000
in_range n h = omega arith

inverse_lem : (v m : ℕ) → v ≤ u32_max → inverse_quality v m ≡ 10000 - v * 10000 / m
unfolding inverse_quality
inverse_lem v m h = ap (λ (x : ℕ). 10000 - to_u32 (x / m)) (in_range v h) ∙ omega arith

direct_lem : (v m : ℕ) → v ≤ u32_max → direct_quality v m ≡ min (v * 10000 / m) 10000
unfolding direct_quality
direct_lem v m h = ap (λ (x : ℕ). min (to_u32 (x / m)) 10000) (in_range v h) ∙ omega arith

exact_score_lem :
    (p : RoutingPolicy) (m : Measurements)
    → IsTyped p
    → IsMeasured m
    → weighted_sum p m / total_weight p ≡ exact_score p m
unfolding exact_score
exact_score_lem p m t h =
    rw
      (
        weighted_sum_lem p m t,
        total_weight_lem p t,
        inverse_lem m.latency_ms p.limits.maximum_latency_ms h.latency,
        inverse_lem m.jitter_ms p.limits.maximum_jitter_ms h.jitter,
        direct_lem m.available_bandwidth_mbps p.limits.target_bandwidth_mbps h.bandwidth,
      )
      refl

-- Under a usable policy, and on measurements in the ranges of their types: the score of an available node
-- whose packet loss is at most 100 percent is the mean of its qualities under the weights, rounded down, as
-- computed in numbers without bounds, and at most 10000; with a higher loss `score` fails on it; and a node
-- that is not available gets 0.
pub score_exact :
    (p : RoutingPolicy) (m : Measurements)
    → IsTyped p
    → IsUsable p
    → IsMeasured m
    → ((m.available ≡ true
          → m.packet_loss_basis_points ≤ quality_max
          → (score p m ≡ ok (exact_score p m)) × (exact_score p m ≤ quality_max))
        × (m.available ≡ true
            → quality_max < m.packet_loss_basis_points
            → score p m ≡ err (invalid_measurements (lit "packet loss exceeds 100 percent")))
        × (m.available ≡ false → score p m ≡ ok 0))
unfolding score
score_exact p m t u h =
    let valid = (validate-IsUsable p t).1 u in
    let exact = exact_score_lem p m t h in
    let bound = average-le (weighted_sum p m) (total_weight p) (weighted_sum-le p m t) in
    (
      λ up fine. (ground (arith, valid, exact, bound), omega (arith, exact, bound)),
      λ up lossy. ground (arith, valid),
      λ down. ground (arith, valid),
    )
