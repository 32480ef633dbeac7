-- ===== src/Examples/Routing.antt =====
-- Scores, selections, circuits and delays of core/routing at concrete inputs.
use cyberia_vpn.Prelude.{
  ℕ, ◌+◌, ◌-◌, ◌*◌, ◌/◌, ◌≤◌, ◌<◌, min, ◌≡◌, refl, ap, ◌↔◌, ◌⊎◌, true, false, ◌&&◌, none, some,
  List, [], ◌∷◌, arith, ltb, leb, if◌then◌else◌, ok, err, All, Has, here, there, saturating_add,
}
use cyberia_vpn.Text.{text_eq, lit}
use cyberia_vpn.Routing.Backoff.{
  BackoffPolicy, delay, base_delay, jitter_factor, invalid_policy, basis_points,
}
use cyberia_vpn.Routing.Backoff
use cyberia_vpn.Routing.Backoff.Delay.{
  IsValid, base, factor, delay_exact, delay_bounded, delay_mono,
}
use cyberia_vpn.Routing.Score.{
  no_available_nodes, Measurements, NodeCandidate, default_policy, score, score_available,
  to_quality, weighted_sum, total_weight, inverse_quality, direct_quality, quality_max,
  invalid_measurements, RoutingError,
}
use cyberia_vpn.Routing.Score
use cyberia_vpn.Routing.Score.Exact.{score_exact, exact_score}
use cyberia_vpn.Routing.Score.Bounds.{IsTyped, IsUsable, IsMeasured, score_mono}
use cyberia_vpn.Routing.Select.{select, select_rest, better, available}
use cyberia_vpn.Routing.Select.Best.{IsBest, select-IsBest, select_deterministic}
use cyberia_vpn.Routing.Select.Total.{select_total, IsScorable}
use cyberia_vpn.Routing.Selector.{
  RouteSelector, new, default_stability, select_route, settle, current_route, eligible,
  circuit_is_open, find_candidate, record_failure, compare_with_current,
}
use cyberia_vpn.Routing.Selector.Settle.{IsUsableRoute, HasDistinctIds}
use cyberia_vpn.Routing.Selector.Route.{select_route-IsUsableRoute}
use cyberia_vpn.Routing.Selector.Stability.{select_route_stable}
use cyberia_vpn.Routing.Selector.Circuits.{
  failure, after, streak, last_failure, circuit_exact, Report, IsTimely, report,
}

-- The policy of core/routing/tests/backoff.rs in shape: from a second to a minute, 20 percent jitter.
abbrev retry_policy : BackoffPolicy
retry_policy = record {
  initial_delay = 1000000000;
  maximum_delay = 60000000000;
  maximum_attempts = 8;
  jitter_basis_points = 2000;
}

retry_policy-IsValid : IsValid retry_policy
retry_policy-IsValid = omega arith

delay_third : delay retry_policy 2 5000 ≡ ok (some 4000000000)
unfolding delay Backoff.validate base_delay jitter_factor
delay_third = refl

delay_late : delay retry_policy 7 10000 ≡ ok (some 60000000000)
unfolding delay Backoff.validate base_delay jitter_factor
delay_late = refl

delay_exact_example :
    delay retry_policy 2 5000
    ≡ ok (
        if leb 8 2
        then none
        else some (min (base retry_policy 2 * factor retry_policy 5000 / basis_points) 60000000000))
delay_exact_example = delay_exact retry_policy 2 5000 retry_policy-IsValid (omega arith)

delay_bounded_example :
    (4000000000 ≤ retry_policy.maximum_delay)
    × IsValid retry_policy
    × (5000 ≤ basis_points)
    × (2 < 8)
delay_bounded_example = delay_bounded retry_policy 2 5000 4000000000 delay_third

delay_first : delay retry_policy 0 5000 ≡ ok (some 1000000000)
unfolding delay Backoff.validate base_delay jitter_factor
delay_first = refl

delay_mono_example : 1000000000 ≤ 4000000000
delay_mono_example =
    delay_mono retry_policy 5000 0 2 1000000000 4000000000 (omega arith) delay_first delay_third

abbrev probe : ℕ → Measurements
probe latency = record {
  available = true;
  latency_ms = latency;
  jitter_ms = 5;
  packet_loss_basis_points = 0;
  available_bandwidth_mbps = 100;
}

abbrev node : ℕ → ℕ → NodeCandidate
node id latency = record { id = id ∷ []; measurements = probe latency }

default-IsTyped : IsTyped default_policy
default-IsTyped = omega arith

default-IsUsable : IsUsable default_policy
default-IsUsable = omega arith

probe-IsMeasured : (n : ℕ) → n ≤ 1000 → IsMeasured (probe n)
probe-IsMeasured n h = omega arith

score_forty : score default_policy (probe 40) ≡ ok 9825
unfolding score Score.validate total_weight weighted_sum inverse_quality direct_quality
score_forty = refl

score_ninety : score default_policy (probe 90) ≡ ok 9625
unfolding score Score.validate total_weight weighted_sum inverse_quality direct_quality
score_ninety = refl

score_mono_example : 9625 ≤ 9825
score_mono_example =
    score_mono default_policy (probe 40) (probe 90) 9825 9625 default-IsTyped
      (probe-IsMeasured 40 (omega arith)) (probe-IsMeasured 90 (omega arith)) (omega arith) refl
      score_forty score_ninety

abbrev lossy : Measurements
lossy = record (probe 40) { packet_loss_basis_points = 10001 }

score_exact_example :
    (lossy.available ≡ true
      → lossy.packet_loss_basis_points ≤ quality_max
      → (score default_policy lossy ≡ ok (exact_score default_policy lossy))
        × (exact_score default_policy lossy ≤ quality_max))
    × (lossy.available ≡ true
        → quality_max < lossy.packet_loss_basis_points
        → score default_policy lossy
          ≡ err (invalid_measurements (lit "packet loss exceeds 100 percent")))
    × (lossy.available ≡ false → score default_policy lossy ≡ ok 0)
score_exact_example =
    score_exact default_policy lossy default-IsTyped default-IsUsable
      (record { latency = omega arith; jitter = omega arith; bandwidth = omega arith })

abbrev two_nodes : List NodeCandidate
two_nodes = node 2 90 ∷ node 1 40 ∷ []

abbrev other_order : List NodeCandidate
other_order = node 1 40 ∷ node 2 90 ∷ []

selects_faster : select default_policy two_nodes ≡ ok (node 1 40)
unfolding select score Score.validate total_weight weighted_sum inverse_quality direct_quality
    available select_rest better
selects_faster = refl

selects_faster_again : select default_policy other_order ≡ ok (node 1 40)
unfolding select score Score.validate total_weight weighted_sum inverse_quality direct_quality
    available select_rest better
selects_faster_again = refl

select-IsBest_example : IsBest default_policy two_nodes (node 1 40)
select-IsBest_example = select-IsBest default_policy two_nodes (node 1 40) selects_faster

swapped : (n : NodeCandidate) → Has n two_nodes ↔ Has n other_order
swapped n = (swap (node 2 90) (node 1 40) n, swap (node 1 40) (node 2 90) n)
  where
    swap : (x y n : NodeCandidate) → Has n (x ∷ y ∷ []) → Has n (y ∷ x ∷ [])
    swap x y n here = there here
    swap x y n (there here) = here
    swap x y n (there (there m)) = elim m [ ]

two_distinct : HasDistinctIds two_nodes
two_distinct m n here here e = refl
two_distinct m n here (there here) e = absurd (ground arith)
two_distinct m n here (there (there k)) e = elim k [ ]
two_distinct m n (there here) here e = absurd (ground arith)
two_distinct m n (there here) (there here) e = refl
two_distinct m n (there here) (there (there k)) e = elim k [ ]
two_distinct m n (there (there k)) j e = elim k [ ]

select_deterministic_example : node 1 40 ≡ node 1 40
select_deterministic_example =
    select_deterministic default_policy two_nodes other_order (node 1 40) (node 1 40) swapped
      two_distinct selects_faster selects_faster_again

select_total_example :
    (((n : NodeCandidate) → Has n two_nodes → available n ≡ false)
      × (select default_policy two_nodes ≡ err no_available_nodes))
    ⊎ ((a : NodeCandidate) × (select default_policy two_nodes ≡ ok a))
select_total_example =
    select_total default_policy default-IsTyped default-IsUsable two_nodes scorable
  where
    scorable :
        (n : NodeCandidate)
        → Has n two_nodes
        → available n ≡ true
        → IsScorable default_policy default-IsTyped default-IsUsable n
    scorable n here up = omega arith
    scorable n (there here) up = omega arith
    scorable n (there (there m)) up = elim m [ ]

-- A selector whose current route is the slower node, since a second ago.
abbrev settled : RouteSelector
settled = record (new default_policy default_stability) { current = some (2 ∷ [], 1000000000) }

keeps_slower : select_route two_nodes 2000000000 settled ≡ (ok (node 2 90), settled)
unfolding select_route settle select eligible circuit_is_open after report record_failure text_eq
    new available score Score.validate total_weight select_rest find_candidate current_route
    compare_with_current better weighted_sum inverse_quality direct_quality
keeps_slower = refl

-- After the dwell time the improvement of 200 points is still below the margin of 500.
keeps_slower_later : (select_route two_nodes 40000000000 settled).0 ≡ ok (node 2 90)
unfolding select_route settle select eligible circuit_is_open after report record_failure text_eq
    new available score Score.validate total_weight select_rest find_candidate current_route
    compare_with_current better weighted_sum inverse_quality direct_quality
keeps_slower_later = refl

-- A route whose circuit is open is left at once.
abbrev failing : RouteSelector
failing = after settled (failure (2 ∷ []) 3 ∷ failure (2 ∷ []) 2 ∷ failure (2 ∷ []) 1 ∷ [])

leaves_failing : (select_route two_nodes 2000000000 failing).0 ≡ ok (node 1 40)
unfolding select_route settle select eligible circuit_is_open after report record_failure text_eq
    new available score Score.validate total_weight select_rest find_candidate current_route
    compare_with_current better weighted_sum inverse_quality direct_quality
leaves_failing = refl

select_route-IsUsableRoute_example : IsUsableRoute failing two_nodes 2000000000 (node 1 40)
select_route-IsUsableRoute_example =
    select_route-IsUsableRoute failing two_nodes 2000000000 (node 1 40) two_distinct leaves_failing

finds_slower : find_candidate two_nodes (2 ∷ []) ≡ some (node 2 90)
unfolding find_candidate text_eq
finds_slower = refl

is_up : available (node 2 90) ≡ true
unfolding available
is_up = refl

is_closed : circuit_is_open settled (2 ∷ []) 2000000000 ≡ false
unfolding circuit_is_open new
is_closed = refl

select_route_stable_example :
    (node 2 90 ≡ node 2 90)
    ⊎ ((30000000000 ≤ 2000000000 - 1000000000)
        × ((current_score best_score : ℕ)
            → score default_policy (probe 90) ≡ ok current_score
            → score default_policy (probe 90) ≡ ok best_score
            → saturating_add current_score 500 ≤ best_score))
unfolding new
select_route_stable_example =
    select_route_stable settled two_nodes 2000000000 (2 ∷ []) 1000000000 (node 2 90) (node 2 90)
      refl finds_slower is_up is_closed (ap (λ r. r.0) keeps_slower)

abbrev history : List Report
history = failure (2 ∷ []) 3 ∷ failure (2 ∷ []) 2 ∷ failure (2 ∷ []) 1 ∷ []

circuit_exact_example :
    circuit_is_open (after (new default_policy default_stability) history) (2 ∷ []) 60000000002 ≡ (
      ltb 0 (streak (2 ∷ []) history)
      && leb 3 (streak (2 ∷ []) history)
      && ltb 60000000002 (last_failure (2 ∷ []) history + 60000000000))
circuit_exact_example =
    circuit_exact default_policy default_stability (2 ∷ []) history 60000000002 timely
  where
    timely : All (IsTimely default_stability) history
    timely = ground arith

still_open :
    (ltb 0 (streak (2 ∷ []) history)
      && leb 3 (streak (2 ∷ []) history)
      && ltb 60000000002 (last_failure (2 ∷ []) history + 60000000000))
    ≡ true
unfolding streak last_failure text_eq
still_open = refl
