-- ===== src/Routing/Selector/Circuits.antt =====
-- `record_failure` and `record_success` of core/routing/src/selector.rs over whole histories: when the
-- circuit of a node is open.
use cyberia_vpn.Prelude.{
  ℕ, ◌+◌, ◌≤◌, ◌<◌, ◌≡◌, refl, inl, inr, ◌&&◌, Option, none, some, List, [], ◌∷◌, arith, ltb, leb,
  if◌then◌else◌, Bool-cases, All, u32_max, saturating_add,
}
use cyberia_vpn.Text.{Text, text_eq, text_eq_iff}
use cyberia_vpn.Routing.Score.{RoutingPolicy}
use cyberia_vpn.Routing.Selector.{
  RouteSelector, SelectionPolicy, CircuitState, new, circuit_is_open, record_failure,
  record_success, instant_max, update, failed,
}

-- What a client reports of a connection attempt.
pub data Report : Type 0 where
  failure : Text → ℕ → Report
  success : Text → Report

unfoldable pub report : RouteSelector → Report → RouteSelector
report s (failure id now) = record_failure s id now
report s (success id) = record_success s id

-- The reports, the latest first.
unfoldable pub after : RouteSelector → List Report → RouteSelector
after s [] = s
after s (r ∷ rs) = report (after s rs) r

-- The failures of a node since its last success, and the time of the last one.
unfoldable pub streak : Text → List Report → ℕ
streak id [] = 0
streak id (failure j now ∷ rs) =
    let rest = streak id rs in if text_eq j id then saturating_add rest 1 else rest
streak id (success j ∷ rs) = let rest = streak id rs in if text_eq j id then 0 else rest

unfoldable pub last_failure : Text → List Report → ℕ
last_failure id [] = 0
last_failure id (failure j now ∷ rs) =
    let rest = last_failure id rs in if text_eq j id then now else rest
last_failure id (success j ∷ rs) = last_failure id rs

-- No report comes so late that its cooldown passes the end of the clock.
abbrev pub IsTimely : SelectionPolicy → Report → Type 0
IsTimely p (failure j now) = now + p.circuit_cooldown ≤ instant_max
IsTimely p (success j) = Unit

-- The state that a streak of failures leaves behind.
abbrev IsTracked : SelectionPolicy → ℕ → ℕ → Option CircuitState → Type 0
IsTracked p n last none = n ≡ 0
IsTracked p n last (some state) =
    (state.consecutive_failures ≡ n)
    × (0 < n)
    × (n ≤ u32_max)
    × (state.open_until
        ≡ (if leb p.failure_threshold n then some (last + p.circuit_cooldown) else none))

failed-IsTracked :
    (p : SelectionPolicy) (n last now : ℕ) (o : Option CircuitState)
    → now + p.circuit_cooldown ≤ instant_max
    → IsTracked p n last o
    → IsTracked p (saturating_add n 1) now (some (failed p o now))
unfolding failed
failed-IsTracked p n last now none timely h = ground arith
failed-IsTracked p n last now (some state) timely h = ground arith

stability-after : (s : RouteSelector) (rs : List Report) → (after s rs).stability ≡ s.stability
unfolding after report record_failure record_success
stability-after s [] = refl
stability-after s (failure j now ∷ rs) = stability-after s rs
stability-after s (success j ∷ rs) = stability-after s rs

module _ (scoring : RoutingPolicy) (p : SelectionPolicy) where
  after-IsTracked :
      (id : Text) (rs : List Report)
      → All (IsTimely p) rs
      → IsTracked p (streak id rs) (last_failure id rs) ((after (new scoring p) rs).circuits id)
  unfolding after report record_failure record_success streak last_failure new update
  after-IsTracked id [] h = refl
  after-IsTracked id (failure j now ∷ rs) h = elim (Bool-cases (text_eq j id)) [
    | inl e ↦
        rw (e, (text_eq_iff j id).0 e, stability-after (new scoring p) rs)
          (failed-IsTracked p (streak id rs) (last_failure id rs) now _ h.0
            (after-IsTracked id rs h.1))
    | inr e ↦ rw e (after-IsTracked id rs h.1)
  ]
  after-IsTracked id (success j ∷ rs) h = elim (Bool-cases (text_eq j id)) [
    | inl e ↦ rw e refl
    | inr e ↦ rw e (after-IsTracked id rs h.1)
  ]

  -- After any history of reports the circuit of a node is open at a time exactly when the node has
  -- failed since its last success, at least as often as the threshold says, and the cooldown after
  -- its last failure has not ended, provided that the cooldowns stay within the range of the clock.
  pub circuit_exact :
      (id : Text) (rs : List Report) (now : ℕ)
      → All (IsTimely p) rs
      → circuit_is_open (after (new scoring p) rs) id now ≡ (
          ltb 0 (streak id rs)
          && leb p.failure_threshold (streak id rs)
          && ltb now (last_failure id rs + p.circuit_cooldown))
  unfolding circuit_is_open
  circuit_exact id rs now h = ground (arith, after-IsTracked id rs h)
