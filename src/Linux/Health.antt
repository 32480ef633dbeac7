-- ===== src/Linux/Health.antt =====
-- core/transport/src/linux.rs: how a client and a node judge their health by the latest handshakes, and
-- the client's backend as an implementation of `WireGuardBackend`.
use cyberia_vpn.Prelude.{
  ℕ, suc, ◌-◌, Bool, false, not, ◌&&◌, Option, none, some, List, [], ◌∷◌, ltb, leb, ◌==◌,
  if◌then◌else◌, Result, ok, err, length, saturating_add,
}
use cyberia_vpn.Text.{Text, lit}
use cyberia_vpn.Text.Parse.{is_utf8, lines, fields, parse_u64}
use cyberia_vpn.Transport.Types.{
  TransportError, TransportHealth, HealthStatus, healthy, degraded, unavailable,
}
use cyberia_vpn.Transport.Platform.{World, output_of, unix_now}
use cyberia_vpn.WireGuard.Profile.{WireGuardNodeHealth}
use cyberia_vpn.WireGuard.Adapter.{WireGuardBackend}
use cyberia_vpn.Linux.Backend.{LinuxWireGuardBackend, bring_up, bring_down}
use cyberia_vpn.Linux.Node.{LinuxWireGuardNode}

abbrev pub maximum_handshake_age_seconds : ℕ
maximum_handshake_age_seconds = 180

-- `line.split_ascii_whitespace().nth(1)?.parse().ok()`.
unfoldable pub second_number : List Text → Option ℕ
second_number [] = none
second_number (a ∷ []) = none
second_number (a ∷ b ∷ rest) = parse_u64 b

-- The largest of the numbers that the lines hold.
unfoldable pub largest : List Text → Option ℕ
largest [] = none
largest (l ∷ ls) =
    let rest = largest ls in
    elim (second_number (fields l)) [
      | none ↦ rest
      | some n ↦ elim rest [ none ↦ some n | some m ↦ some (if ltb m n then n else m) ]
    ]

abbrev pub not_zero : Option ℕ → Option ℕ
not_zero none = none
not_zero (some n) = if n == 0 then none else some n

unfoldable pub latest_handshake : Text → Option ℕ
latest_handshake output = if is_utf8 output then not_zero (largest (lines output)) else none

unfoldable pub is_recent : ℕ → ℕ → Bool
is_recent now timestamp = leb timestamp now && leb (now - timestamp) maximum_handshake_age_seconds

-- The timestamp of a line with exactly two fields.
unfoldable pub node_line : List Text → Option ℕ
node_line (a ∷ b ∷ []) = parse_u64 b
node_line _ = none

-- The loop over the lines, with the numbers of peers that were seen and of recent handshakes.
unfoldable pub count_handshakes : ℕ → List Text → ℕ → ℕ → Option (ℕ × ℕ)
count_handshakes now [] observed recent = some (observed, recent)
count_handshakes now (l ∷ ls) observed recent = elim (node_line (fields l)) [
  | none ↦ none
  | some timestamp ↦
      count_handshakes now ls (suc observed)
        (if not (timestamp == 0) && is_recent now timestamp then suc recent else recent)
]

unfoldable pub node_handshakes : ℕ → Text → Option (ℕ × ℕ)
node_handshakes now output =
    if is_utf8 output then count_handshakes now (lines output) 0 0 else none

abbrev pub fails : LinuxWireGuardBackend → LinuxWireGuardBackend
fails b = record b { health_failures = saturating_add b.health_failures 1 }

abbrev pub no_health : HealthStatus → ℕ → TransportHealth
no_health status failures = record {
  status = status;
  round_trip_time = none;
  consecutive_failures = failures;
}

abbrev pub is_fresh : Option ℕ → ℕ → Bool
is_fresh none now = false
is_fresh (some timestamp) now = is_recent now timestamp

unfoldable pub judge :
    LinuxWireGuardBackend
    → Result TransportError Text × World
    → TransportHealth × (LinuxWireGuardBackend × World)
judge b (err e, w) = (no_health unavailable (saturating_add b.health_failures 1), (fails b, w))
judge b (ok output, w) =
    let clock = unix_now w in
    let fresh = is_fresh (latest_handshake output) clock.0 in
    (no_health (if fresh then healthy else degraded) 0, (record b { health_failures = 0 }, clock.1))

abbrev pub observe_health :
    Option Text → LinuxWireGuardBackend → World → TransportHealth × (LinuxWireGuardBackend × World)
observe_health none b w = (no_health unavailable b.health_failures, (b, w))
observe_health (some interface) b w =
    judge b (output_of b.tools.wg (lit "show" ∷ interface ∷ lit "latest-handshakes" ∷ []) w)

unfoldable pub health :
    LinuxWireGuardBackend × World → TransportHealth × (LinuxWireGuardBackend × World)
health (b, w) = observe_health b.active_interface b w

unfoldable pub linux_backend : WireGuardBackend LinuxWireGuardBackend
linux_backend = record { bring_up = bring_up; bring_down = bring_down; health = health }

abbrev pub node_unavailable : LinuxWireGuardNode → ℕ → WireGuardNodeHealth
node_unavailable n failures = record {
  status = unavailable;
  configured_peers = length n.peers;
  observed_peers = 0;
  recent_handshakes = 0;
  consecutive_failures = failures;
}

abbrev pub node_fails : LinuxWireGuardNode → LinuxWireGuardNode
node_fails n = record n { health_failures = saturating_add n.health_failures 1 }

unfoldable pub judge_counts :
    LinuxWireGuardNode → Option (ℕ × ℕ) → World → WireGuardNodeHealth × (LinuxWireGuardNode × World)
judge_counts n none w = (node_unavailable n (saturating_add n.health_failures 1), (node_fails n, w))
judge_counts n (some (observed, recent)) w = (
  record {
    status = if observed == length n.peers then healthy else degraded;
    configured_peers = length n.peers;
    observed_peers = observed;
    recent_handshakes = recent;
    consecutive_failures = 0;
  },
  (record n { health_failures = 0 }, w),
)

unfoldable pub judge_node :
    LinuxWireGuardNode
    → Result TransportError Text × World
    → WireGuardNodeHealth × (LinuxWireGuardNode × World)
judge_node n (err e, w) =
    (node_unavailable n (saturating_add n.health_failures 1), (node_fails n, w))
judge_node n (ok output, w) =
    let clock = unix_now w in judge_counts n (node_handshakes clock.0 output) clock.1

abbrev pub observe_node :
    Option Text → LinuxWireGuardNode → World → WireGuardNodeHealth × (LinuxWireGuardNode × World)
observe_node none n w = (node_unavailable n n.health_failures, (n, w))
observe_node (some interface) n w =
    judge_node n (output_of n.tools.wg (lit "show" ∷ interface ∷ lit "latest-handshakes" ∷ []) w)

unfoldable pub node_health :
    LinuxWireGuardNode × World → WireGuardNodeHealth × (LinuxWireGuardNode × World)
node_health (n, w) = observe_node n.active_interface n w
