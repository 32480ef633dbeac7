-- ===== src/Routing/Selector/Route.antt =====
-- `RouteSelector::select` of core/routing/src/selector.rs: which node it may return, when it leaves the
-- current one, and what it keeps in the selector.
use cyberia_vpn.Prelude.{
  ℕ, ◌≡◌, refl, sym, ap, subst, ◌∙◌, inl, inr, Option, none, some, List, arith, Bool-cases, Result,
  ok, err,
}
use cyberia_vpn.Text.{Text, text_eq, text_eq_iff}
use cyberia_vpn.Routing.Score.{NodeCandidate, RoutingError}
use cyberia_vpn.Routing.Selector.{
  RouteSelector, circuit_is_open, current_route, select_route, becomes_current,
}
use cyberia_vpn.Routing.Selector.Settle.{
  HasDistinctIds, IsUsableRoute, find_candidate-Has, chosen-IsUsableRoute, Settles, stay, move,
  Selects, SelectsTo, Selects-of_ok, select_route-Selects, current_route-Has,
}

usable_of_Settles :
    (s : RouteSelector) (cs : List NodeCandidate) (now : ℕ) (best : NodeCandidate)
    {n : NodeCandidate} {s' : RouteSelector}
    → IsUsableRoute s cs now best
    → Settles s (current_route s.current cs) best now n s'
    → IsUsableRoute s cs now n
usable_of_Settles s cs now best u (move e _ _) = subst (IsUsableRoute s cs now) (sym e) u
usable_of_Settles s cs now best {n} u (stay id at x y e up closed _ _ _ _) =
    let cur = current_route-Has s.current cs e in
    let found = find_candidate-Has cs id cur.1 in
    record {
      member = found.0;
      is_available = up;
      is_closed = ap (λ (k : Text). circuit_is_open s k now) found.1 ∙ closed;
    }

-- A node that the selector hands out is a candidate, is available, and its circuit is closed at the
-- time of the selection, provided that an ID names one candidate.
pub select_route-IsUsableRoute :
    (s : RouteSelector) (cs : List NodeCandidate) (now : ℕ) (n : NodeCandidate)
    → HasDistinctIds cs
    → (select_route cs now s).0 ≡ ok n
    → IsUsableRoute s cs now n
select_route-IsUsableRoute s cs now n distinct h =
    settled_is_usable
      (Selects-of_ok s cs now (select_route cs now s) (select_route-Selects s cs now) h)
  where
    settled_is_usable : Selects s cs now n (select_route cs now s).1 → IsUsableRoute s cs now n
    settled_is_usable w =
        usable_of_Settles s cs now w.best
          (chosen-IsUsableRoute s cs now w.chosen w.best distinct w.is_chosen w.is_best) w.settles

becomes_current-id :
    (o : Option (Text × ℕ)) (id : Text) (now : ℕ)
    → (since : ℕ) × (becomes_current o id now ≡ some (id, since))
unfolding becomes_current
becomes_current-id none id now = (now, refl)
becomes_current-id (some (old, since)) id now = elim (Bool-cases (text_eq old id)) [
  | inl e ↦ (since, rw e (ap (λ (t : Text). some (t, since)) ((text_eq_iff old id).0 e)))
  | inr e ↦ (now, rw e refl)
]

abbrev Keeps : RouteSelector → Result RoutingError NodeCandidate → RouteSelector → Type 0
Keeps s r s' =
    (s'.scoring ≡ s.scoring)
    × (s'.stability ≡ s.stability)
    × (s'.circuits ≡ s.circuits)
    × ((e : RoutingError) → r ≡ err e → s' ≡ s)
    × ((n : NodeCandidate) → r ≡ ok n → (since : ℕ) × (s'.current ≡ some (n.id, since)))

Settles-Keeps :
    (s : RouteSelector) (cs : List NodeCandidate) (now : ℕ) (best : NodeCandidate)
    {n : NodeCandidate} {s' : RouteSelector}
    → Settles s (current_route s.current cs) best now n s'
    → Keeps s (ok n) s'
Settles-Keeps s cs now best {n} {s'} (stay id at x y e up closed _ _ _ same) =
    let cur = current_route-Has s.current cs e in
    let found = find_candidate-Has cs id cur.1 in
    (
      ap (λ (t : RouteSelector). t.scoring) same,
      ap (λ (t : RouteSelector). t.stability) same,
      ap (λ (t : RouteSelector). t.circuits) same,
      λ z q. absurd (ground arith),
      λ m q. (at, cc (same, cur.0, found.1, q)),
    )
Settles-Keeps s cs now best {n} {s'} (move e _ same) =
    let (since, b) = becomes_current-id s.current best.id now in
    (
      ap (λ (t : RouteSelector). t.scoring) same,
      ap (λ (t : RouteSelector). t.stability) same,
      ap (λ (t : RouteSelector). t.circuits) same,
      λ z q. absurd (ground arith),
      λ m q. (since, cc (same, b, e, q)),
    )

Keeps-of :
    (s : RouteSelector) (cs : List NodeCandidate) (now : ℕ)
    (r : Result RoutingError NodeCandidate × RouteSelector)
    → SelectsTo s cs now r
    → Keeps s r.0 r.1
Keeps-of s cs now (ok n, s') w = Settles-Keeps s cs now w.best w.settles
Keeps-of s cs now (err x, s') e = (
  ap (λ (t : RouteSelector). t.scoring) e,
  ap (λ (t : RouteSelector). t.stability) e,
  ap (λ (t : RouteSelector). t.circuits) e,
  λ z q. e,
  λ n q. absurd (ground arith),
)

-- A selection never touches the policies or the circuits; one that fails leaves the selector as it
-- was, and after one that succeeds the current route is the node handed out.
pub select_route_keeps :
    (s : RouteSelector) (cs : List NodeCandidate) (now : ℕ)
    → let (r, s') = select_route cs now s in
      (s'.scoring ≡ s.scoring)
      × (s'.stability ≡ s.stability)
      × (s'.circuits ≡ s.circuits)
      × ((e : RoutingError) → r ≡ err e → s' ≡ s)
      × ((n : NodeCandidate) → r ≡ ok n → (since : ℕ) × (s'.current ≡ some (n.id, since)))
select_route_keeps s cs now =
    Keeps-of s cs now (select_route cs now s) (select_route-Selects s cs now)
