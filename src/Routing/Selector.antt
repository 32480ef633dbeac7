-- ===== src/Routing/Selector.antt =====
-- core/routing/src/selector.rs: the stateful selector with its circuits. An `Instant` and a `Duration`
-- are their numbers of nanoseconds; the `HashMap` of circuits is a function from its keys.
pub mod Circuits
pub mod Settle
pub mod Route
pub mod Stability
use cyberia_vpn.Prelude.{
  ℕ, ◌+◌, ◌-◌, Bool, false, not, ◌&&◌, ◌||◌, Option, none, some, List, ltb, leb, if◌then◌else◌,
  ok_or, keep, find, saturating_add,
}
use cyberia_vpn.Exec.{Exec, pure, lift, get, modify, ◌>>=◌, ◌>>◌}
use cyberia_vpn.Text.{Text, text_eq}
use cyberia_vpn.Routing.Score.{
  NodeCandidate, RoutingPolicy, RoutingError, no_available_nodes, score,
}
use cyberia_vpn.Routing.Select.{select, available}

-- Stability controls on top of the scores.
pub record SelectionPolicy : Type 0 where
  pub minimum_dwell_time : ℕ
  pub switch_margin : ℕ  -- u32
  pub failure_threshold : ℕ  -- u32
  pub circuit_cooldown : ℕ

abbrev pub default_stability : SelectionPolicy
default_stability = record {
  minimum_dwell_time = 30000000000;
  switch_margin = 500;
  failure_threshold = 3;
  circuit_cooldown = 60000000000;
}

pub record CircuitState : Type 0 where
  pub consecutive_failures : ℕ  -- u32
  pub open_until : Option ℕ

pub record RouteSelector : Type 0 where
  pub scoring : RoutingPolicy
  pub stability : SelectionPolicy
  pub current : Option (Text × ℕ)
  pub circuits : Text → Option CircuitState

unfoldable pub new : RoutingPolicy → SelectionPolicy → RouteSelector
new scoring stability = record {
  scoring = scoring;
  stability = stability;
  current = none;
  circuits = λ id. none;
}

-- `HashMap::insert` and `HashMap::remove`.
unfoldable pub update :
    (Text → Option CircuitState) → Text → Option CircuitState → Text → Option CircuitState
update m k v j = if text_eq k j then v else m j

unfoldable pub until_is_open : Option ℕ → ℕ → Bool
until_is_open none now = false
until_is_open (some open_until) now = ltb now open_until

unfoldable pub state_is_open : Option CircuitState → ℕ → Bool
unfolding until_is_open
state_is_open none now = false
state_is_open (some state) now = until_is_open state.open_until now

unfoldable pub circuit_is_open : RouteSelector → Text → ℕ → Bool
unfolding state_is_open
circuit_is_open s id now = state_is_open (s.circuits id) now

unfoldable pub find_candidate : List NodeCandidate → Text → Option NodeCandidate
find_candidate candidates id = find (λ c. text_eq c.id id) candidates

-- The node that is selected now and since when; kept if it is the current one already.
unfoldable pub becomes_current : Option (Text × ℕ) → Text → ℕ → Option (Text × ℕ)
becomes_current none id now = some (id, now)
becomes_current (some (old, since)) id now =
    if text_eq old id then some (old, since) else some (id, now)

-- `if self.current … != Some(&best.id) { … } Ok(best)`.
unfoldable pub switch_to : NodeCandidate → ℕ → Exec RoutingError RouteSelector NodeCandidate
unfolding becomes_current
switch_to best now = do
  modify (λ s. record s { current = becomes_current s.current best.id now })
  pure best

-- The test that a healthy current route has to fail to be replaced.
unfoldable pub stays : SelectionPolicy → ℕ → ℕ → ℕ → ℕ → Bool
stays stability now selected_at current_score best_score =
    let dwell_elapsed = leb stability.minimum_dwell_time (now - selected_at) in
    let enough_improvement =
      leb (saturating_add current_score stability.switch_margin) best_score in
    not dwell_elapsed || not enough_improvement

unfoldable pub compare_with_current :
    NodeCandidate → NodeCandidate → ℕ → ℕ → Exec RoutingError RouteSelector NodeCandidate
unfolding stays switch_to
compare_with_current best current selected_at now = do
  s ← get
  current_score ← lift (score s.scoring current.measurements)
  best_score ← lift (score s.scoring best.measurements)
  if stays s.stability now selected_at current_score best_score
      then pure current
      else switch_to best now

-- `self.current.as_ref().zip(current_candidate)`.
unfoldable pub current_route :
    Option (Text × ℕ) → List NodeCandidate → Option (Text × ℕ × NodeCandidate)
current_route none candidates = none
current_route (some (id, at)) candidates = elim (find_candidate candidates id) [
  | none ↦ none
  | some c ↦ some (id, at, c)
]

unfoldable pub settle :
    Option (Text × ℕ × NodeCandidate)
    → NodeCandidate
    → ℕ
    → Exec RoutingError RouteSelector NodeCandidate
unfolding switch_to
settle none best now = switch_to best now
settle (some (id, at, current)) best now = do
  s ← get
  if available current && not (circuit_is_open s id now)
      then compare_with_current best current at now
      else switch_to best now

unfoldable pub eligible : RouteSelector → List NodeCandidate → ℕ → List NodeCandidate
eligible s candidates now = keep (λ c. not (circuit_is_open s c.id now)) candidates

unfoldable pub select_route : List NodeCandidate → ℕ → Exec RoutingError RouteSelector NodeCandidate
select_route candidates now = do
  s ← get
  chosen ← lift (select s.scoring (eligible s candidates now))
  best ← lift (ok_or (find_candidate candidates chosen.id) no_available_nodes)
  settle (current_route s.current candidates) best now

-- The largest `Instant` of the platform, in nanoseconds; seconds are an `i64`.
abbrev pub instant_max : ℕ
instant_max = 9223372036854775807999999999

-- `Instant::checked_add`.
unfoldable pub checked_add : ℕ → ℕ → Option ℕ
checked_add now d = if leb (now + d) instant_max then some (now + d) else none

unfoldable pub failed_from : SelectionPolicy → ℕ → Option ℕ → ℕ → CircuitState
unfolding checked_add
failed_from stability failures open_until now =
    let count = saturating_add failures 1 in
    record {
      consecutive_failures = count;
      open_until =
          if leb stability.failure_threshold count
          then checked_add now stability.circuit_cooldown
          else open_until;
    }

-- `entry(...).or_insert(...)` and the changes behind it.
unfoldable pub failed : SelectionPolicy → Option CircuitState → ℕ → CircuitState
unfolding failed_from
failed stability none now = failed_from stability 0 none now
failed stability (some state) now =
    failed_from stability state.consecutive_failures state.open_until now

unfoldable pub record_failure : RouteSelector → Text → ℕ → RouteSelector
unfolding failed update
record_failure s id now = record s {
  circuits = update s.circuits id (some (failed s.stability (s.circuits id) now));
}

unfoldable pub record_success : RouteSelector → Text → RouteSelector
unfolding update
record_success s id = record s { circuits = update s.circuits id none }
