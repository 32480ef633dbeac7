-- ===== src/Routing/Selector/Stability.antt =====
-- `RouteSelector::select` of core/routing/src/selector.rs: when it leaves the current route.
use cyberia_vpn.Prelude.{
  ℕ, ◌-◌, ◌≤◌, ◌≡◌, refl, subst, ◌⊎◌, inl, inr, true, false, Option, some, List, arith, ok,
  saturating_add,
}
use cyberia_vpn.Text.{Text}
use cyberia_vpn.Routing.Score.{NodeCandidate, score}
use cyberia_vpn.Routing.Select.{available}
use cyberia_vpn.Routing.Selector.{
  RouteSelector, SelectionPolicy, circuit_is_open, find_candidate, current_route, select_route,
  stays,
}
use cyberia_vpn.Routing.Selector.Settle.{Settles, stay, move, Selects-of_ok, select_route-Selects}

stays-false :
    (p : SelectionPolicy) (now at x y : ℕ)
    → stays p now at x y ≡ false
    → (p.minimum_dwell_time ≤ now - at) × (saturating_add x p.switch_margin ≤ y)
unfolding stays
stays-false p now at x y h = ground arith

-- A node other than the current route is handed out only past the tests.
abbrev Replaces : RouteSelector → ℕ → ℕ → NodeCandidate → NodeCandidate → Type 0
Replaces s now at c n =
    (s.stability.minimum_dwell_time ≤ now - at)
    × ((current_score best_score : ℕ)
        → score s.scoring c.measurements ≡ ok current_score
        → score s.scoring n.measurements ≡ ok best_score
        → saturating_add current_score s.stability.switch_margin ≤ best_score)

Settles-stable :
    (s : RouteSelector) (now : ℕ) (id : Text) (at : ℕ) (c best : NodeCandidate)
    (route : Option (Text × ℕ × NodeCandidate)) {n : NodeCandidate} {s' : RouteSelector}
    → route ≡ some (id, at, c)
    → available c ≡ true
    → circuit_is_open s id now ≡ false
    → Settles s route best now n s'
    → (n ≡ c) ⊎ Replaces s now at c n
Settles-stable s now id at c best route f up closed (stay id' at' x y e _ _ _ _ _ _) =
    inl (cc (e, f))
Settles-stable s now id at c best route {n} f up closed (move e tests _) =
    let (x, y, p, q, leaves) = tests id at c f up closed in
    let late = stays-false s.stability now at x y leaves in
    inr (
      late.0,
      λ x' y' p' q'.
          let ex : x ≡ x' = cc (p, p') in
          let ey : y ≡ y' = cc (q, q', e) in
          subst (λ (k : ℕ). saturating_add k s.stability.switch_margin ≤ y') ex
            (subst (λ (k : ℕ). saturating_add x s.stability.switch_margin ≤ k) ey late.1),
    )

current_route-some :
    (o : Option (Text × ℕ)) (cs : List NodeCandidate) (id : Text) (at : ℕ) (c : NodeCandidate)
    → o ≡ some (id, at)
    → find_candidate cs id ≡ some c
    → current_route o cs ≡ some (id, at, c)
unfolding current_route
current_route-some o cs id at c e f = rw (e, current_route, f) refl

-- No flapping: while the current route is a candidate that is available and whose circuit is closed,
-- another node is handed out only after the minimum dwell time, and only if its score reaches the
-- current score plus the switch margin, saturated at `u32::MAX`.
pub select_route_stable :
    (s : RouteSelector) (cs : List NodeCandidate) (now : ℕ) (id : Text) (at : ℕ)
    (c n : NodeCandidate)
    → s.current ≡ some (id, at)
    → find_candidate cs id ≡ some c
    → available c ≡ true
    → circuit_is_open s id now ≡ false
    → (select_route cs now s).0 ≡ ok n
    → (n ≡ c)
      ⊎ ((s.stability.minimum_dwell_time ≤ now - at)
          × ((current_score best_score : ℕ)
              → score s.scoring c.measurements ≡ ok current_score
              → score s.scoring n.measurements ≡ ok best_score
              → saturating_add current_score s.stability.switch_margin ≤ best_score))
select_route_stable s cs now id at c n cur f up closed h =
    let w = Selects-of_ok s cs now (select_route cs now s) (select_route-Selects s cs now) h in
    Settles-stable s now id at c w.best (current_route s.current cs)
      (current_route-some s.current cs id at c cur f) up closed w.settles
