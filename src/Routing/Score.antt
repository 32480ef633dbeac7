-- ===== src/Routing/Score.antt =====
-- core/routing/src/lib.rs: measurements, policies and the quality score of a node. Integers carry the
-- wrap-around of their type.
pub mod Bounds
pub mod Exact
use cyberia_vpn.Prelude.{
  ℕ, ◌+◌, ◌-◌, ◌*◌, ◌/◌, min, Bool, not, ◌||◌, ◌++◌, ltb, leb, ◌==◌, if◌then◌else◌, Result, ok,
  fail_if, u32_max, u32, u64, to_u32,
}
use cyberia_vpn.Result.{◌>>=◌, ◌>>◌}
use cyberia_vpn.Text.{Text, lit}

abbrev pub quality_max : ℕ
quality_max = 10000

-- Probe results of a node.
pub record Measurements : Type 0 where
  pub available : Bool
  pub latency_ms : ℕ  -- u32
  pub jitter_ms : ℕ  -- u32
  pub packet_loss_basis_points : ℕ  -- u16
  pub available_bandwidth_mbps : ℕ  -- u32

pub record NodeCandidate : Type 0 where
  pub id : Text
  pub measurements : Measurements

-- Four `u16`.
pub record ScoreWeights : Type 0 where
  pub latency : ℕ
  pub jitter : ℕ
  pub packet_loss : ℕ
  pub bandwidth : ℕ

abbrev pub default_weights : ScoreWeights
default_weights = record { latency = 40; jitter = 15; packet_loss = 30; bandwidth = 15 }

-- Three `u32`.
pub record ScoreLimits : Type 0 where
  pub maximum_latency_ms : ℕ
  pub maximum_jitter_ms : ℕ
  pub target_bandwidth_mbps : ℕ

abbrev pub default_limits : ScoreLimits
default_limits = record {
  maximum_latency_ms = 1000;
  maximum_jitter_ms = 500;
  target_bandwidth_mbps = 100;
}

pub record RoutingPolicy : Type 0 where
  pub weights : ScoreWeights
  pub limits : ScoreLimits

abbrev pub default_policy : RoutingPolicy
default_policy = record { weights = default_weights; limits = default_limits }

pub data RoutingError : Type 0 where
  invalid_policy invalid_measurements : Text → RoutingError
  no_available_nodes : RoutingError

pub display : RoutingError → Text
display (invalid_policy reason) = lit "invalid routing policy: " ++ reason
display (invalid_measurements reason) = lit "invalid node measurements: " ++ reason
display no_available_nodes = lit "no available nodes"

unfoldable pub total_weight : RoutingPolicy → ℕ
total_weight p = u32 (w.latency + w.jitter + w.packet_loss + w.bandwidth)
  where
    w : ScoreWeights
    w = p.weights

unfoldable pub validate : RoutingPolicy → Result RoutingError (Unit {0})
validate p = do
  fail_if (total_weight p == 0) (invalid_policy (lit "all weights are zero"))
  fail_if
      (p.limits.maximum_latency_ms == 0
        || p.limits.maximum_jitter_ms == 0
        || p.limits.target_bandwidth_mbps == 0)
      (invalid_policy (lit "normalization limits must be non-zero"))

unfoldable pub inverse_quality : ℕ → ℕ → ℕ
inverse_quality value maximum = quality_max - to_u32 (u64 (value * quality_max) / maximum)

unfoldable pub direct_quality : ℕ → ℕ → ℕ
direct_quality value target = min (to_u32 (u64 (value * quality_max) / target)) quality_max

-- The sum over the four dimensions, in `u64`.
unfoldable pub weighted_sum : RoutingPolicy → Measurements → ℕ
weighted_sum p m = u64 (
    inverse_quality m.latency_ms p.limits.maximum_latency_ms * p.weights.latency
    + inverse_quality m.jitter_ms p.limits.maximum_jitter_ms * p.weights.jitter
    + (quality_max - m.packet_loss_basis_points) * p.weights.packet_loss
    + direct_quality m.available_bandwidth_mbps p.limits.target_bandwidth_mbps
      * p.weights.bandwidth)

-- `u32::try_from(...).unwrap_or(QUALITY_MAX)`.
unfoldable pub to_quality : ℕ → ℕ
to_quality n = if leb n u32_max then n else quality_max

unfoldable pub score_available : RoutingPolicy → Measurements → Result RoutingError ℕ
unfolding to_quality
score_available p m = do
  fail_if (ltb quality_max m.packet_loss_basis_points)
      (invalid_measurements (lit "packet loss exceeds 100 percent"))
  ok (to_quality (weighted_sum p m / total_weight p))

unfoldable pub score : RoutingPolicy → Measurements → Result RoutingError ℕ
unfolding score_available
score p m = validate p >> (if not m.available then ok 0 else score_available p m)
