-- ===== src/Routing/Selector/Settle.antt =====
-- `RouteSelector::select` of core/routing/src/selector.rs as the two ways in which a selection ends.
use cyberia_vpn.Prelude.{
  ℕ, ◌≡◌, refl, ap, subst, ◌∙◌, inl, inr, Bool, true, false, not, ◌&&◌, Option, none, some, List,
  arith, Bool-cases, Option-cases, Result-cases, Result, ok, err, Has, find-Has, keep-Has,
}
use cyberia_vpn.Text.{Text, text_eq, text_eq_iff}
use cyberia_vpn.Routing.Score.{NodeCandidate, RoutingError, score}
use cyberia_vpn.Routing.Select.{select, available}
use cyberia_vpn.Routing.Select.Best.{select-IsBest}
use cyberia_vpn.Routing.Selector.{
  RouteSelector, circuit_is_open, find_candidate, current_route, settle, eligible, select_route,
  compare_with_current, stays, becomes_current,
}

-- An ID names one candidate.
abbrev pub HasDistinctIds : List NodeCandidate → Type 0
HasDistinctIds cs = (m n : NodeCandidate) → Has m cs → Has n cs → m.id ≡ n.id → m ≡ n

pub find_candidate-Has :
    (cs : List NodeCandidate) (id : Text) {n : NodeCandidate}
    → find_candidate cs id ≡ some n
    → Has n cs × (n.id ≡ id)
unfolding find_candidate
find_candidate-Has cs id {n} h =
    let found = find-Has (λ c. text_eq c.id id) cs h in (found.0, (text_eq_iff n.id id).0 found.1)

-- What the selector may hand out at a time.
pub record IsUsableRoute (s : RouteSelector) (cs : List NodeCandidate) (now : ℕ) (n : NodeCandidate)
    : Type 0 where
  pub member : Has n cs
  pub is_available : available n ≡ true
  pub is_closed : circuit_is_open s n.id now ≡ false

pub false_of_not : (b : Bool) → not b ≡ true → b ≡ false
false_of_not b h = ground arith

-- The node that the stateless choice names, looked up by its ID.
pub chosen-IsUsableRoute :
    (s : RouteSelector) (cs : List NodeCandidate) (now : ℕ) (chosen best : NodeCandidate)
    → HasDistinctIds cs
    → select s.scoring (eligible s cs now) ≡ ok chosen
    → find_candidate cs chosen.id ≡ some best
    → IsUsableRoute s cs now best
unfolding eligible
chosen-IsUsableRoute s cs now chosen best distinct h f =
    let b = select-IsBest s.scoring (eligible s cs now) chosen h in
    let kept = keep-Has (λ c. not (circuit_is_open s c.id now)) cs b.member in
    let found = find_candidate-Has cs chosen.id f in
    let same : best ≡ chosen = distinct best chosen found.0 kept.0 found.1 in
    record {
      member = found.0;
      is_available = ap available same ∙ b.is_available;
      is_closed =
          ap (λ n. circuit_is_open s n.id now) same
          ∙ false_of_not (circuit_is_open s chosen.id now) kept.1;
    }

-- The two ways in which a selection ends: the current route stays and nothing changes, or the best
-- node becomes the current one.
pub data Settles (s : RouteSelector) (route : Option (Text × ℕ × NodeCandidate))
    (best : NodeCandidate) (now : ℕ) (n : NodeCandidate) (s' : RouteSelector) : Type 0 where
  stay :
      (id : Text) (at current_score best_score : ℕ)
      → route ≡ some (id, at, n)
      → available n ≡ true
      → circuit_is_open s id now ≡ false
      → score s.scoring n.measurements ≡ ok current_score
      → score s.scoring best.measurements ≡ ok best_score
      → stays s.stability now at current_score best_score ≡ true
      → s' ≡ s
      → Settles s route best now n s'
  move :
      n ≡ best
      → ((id : Text) (at : ℕ) (c : NodeCandidate)
          → route ≡ some (id, at, c)
          → available c ≡ true
          → circuit_is_open s id now ≡ false
          → (current_score : ℕ) × (best_score : ℕ) × (score s.scoring c.measurements
              ≡ ok current_score)
            × (score s.scoring best.measurements ≡ ok best_score)
            × (stays s.stability now at current_score best_score ≡ false))
      → s' ≡ record s { current = becomes_current s.current best.id now }
      → Settles s route best now n s'

abbrev pub SettlesTo :
    RouteSelector
    → Option (Text × ℕ × NodeCandidate)
    → NodeCandidate
    → ℕ
    → Result RoutingError NodeCandidate × RouteSelector
    → Type 0
SettlesTo s route best now (ok n, s') = Settles s route best now n s'
SettlesTo s route best now (err e, s') = s' ≡ s

compare-Settles :
    (s : RouteSelector) (id : Text) (at : ℕ) (c best : NodeCandidate) (now : ℕ)
    → available c ≡ true
    → circuit_is_open s id now ≡ false
    → SettlesTo s (some (id, at, c)) best now (compare_with_current best c at now s)
unfolding compare_with_current
compare-Settles s id at c best now up closed =
    elim (Result-cases (score s.scoring c.measurements)) [
      | inr (x, e) ↦ rw e refl
      | inl (cs, e) ↦ elim (Result-cases (score s.scoring best.measurements)) [
        | inr (x, f) ↦ rw (e, f) refl
        | inl (bs, f) ↦ elim (Bool-cases (stays s.stability now at cs bs)) [
          | inl keeps ↦ rw (e, f, keeps) (stay id at cs bs refl up closed e f keeps refl)
          | inr leaves ↦
              rw (e, f, leaves)
                (move refl
                  (λ id' at' c' same up' closed'. (cs, bs, cc (e, same), f, cc (leaves, same)))
                  refl)
        ]
      ]
    ]

settle-Settles :
    (s : RouteSelector) (route : Option (Text × ℕ × NodeCandidate)) (best : NodeCandidate) (now : ℕ)
    → SettlesTo s route best now (settle route best now s)
unfolding settle
settle-Settles s none best now = move refl (λ id at c e. absurd (ground arith)) refl
settle-Settles s (some (id, at, c)) best now =
    elim (Bool-cases (available c && not (circuit_is_open s id now))) [
      | inr off ↦ rw off (move refl (λ id' at' c' e up closed. absurd (ground (arith, off))) refl)
      | inl on ↦ rw on (compare-Settles s id at c best now (ground arith) (ground arith))
    ]

pub current_route-Has :
    (o : Option (Text × ℕ)) (cs : List NodeCandidate) {id : Text} {at : ℕ} {c : NodeCandidate}
    → current_route o cs ≡ some (id, at, c)
    → (o ≡ some (id, at)) × (find_candidate cs id ≡ some c)
unfolding current_route
current_route-Has none cs h = absurd (ground arith)
current_route-Has (some (id', at')) cs {id} {at} {c} h = ground arith

-- A selection that succeeds names its best node and settles.
pub record Selects (s : RouteSelector) (cs : List NodeCandidate) (now : ℕ) (n : NodeCandidate)
    (s' : RouteSelector) : Type 0 where
  pub chosen : NodeCandidate
  pub best : NodeCandidate
  pub is_chosen : select s.scoring (eligible s cs now) ≡ ok chosen
  pub is_best : find_candidate cs chosen.id ≡ some best
  pub settles : Settles s (current_route s.current cs) best now n s'

abbrev pub SelectsTo :
    RouteSelector
    → List NodeCandidate
    → ℕ
    → Result RoutingError NodeCandidate × RouteSelector
    → Type 0
SelectsTo s cs now (ok n, s') = Selects s cs now n s'
SelectsTo s cs now (err e, s') = s' ≡ s

settled-Selects :
    (s : RouteSelector) (cs : List NodeCandidate) (now : ℕ) (chosen best : NodeCandidate)
    → select s.scoring (eligible s cs now) ≡ ok chosen
    → find_candidate cs chosen.id ≡ some best
    → (r : Result RoutingError NodeCandidate) (s' : RouteSelector)
    → SettlesTo s (current_route s.current cs) best now (r, s')
    → SelectsTo s cs now (r, s')
settled-Selects s cs now chosen best h f (ok n) s' st = record {
  chosen = chosen;
  best = best;
  is_chosen = h;
  is_best = f;
  settles = st;
}
settled-Selects s cs now chosen best h f (err x) s' st = st

pub select_route-Selects :
    (s : RouteSelector) (cs : List NodeCandidate) (now : ℕ)
    → SelectsTo s cs now (select_route cs now s)
unfolding select_route
select_route-Selects s cs now = elim (Result-cases (select s.scoring (eligible s cs now))) [
  | inr (x, e) ↦ rw e refl
  | inl (chosen, e) ↦ elim (Option-cases (find_candidate cs chosen.id)) [
    | inl f ↦ rw (e, f) refl
    | inr (best, f) ↦
        rw (e, f)
          (settled-Selects s cs now chosen best e f _ _
            (settle-Settles s (current_route s.current cs) best now))
  ]
]

pub Selects-of_ok :
    (s : RouteSelector) (cs : List NodeCandidate) (now : ℕ) {n : NodeCandidate}
    (r : Result RoutingError NodeCandidate × RouteSelector)
    → SelectsTo s cs now r
    → r.0 ≡ ok n
    → Selects s cs now n r.1
Selects-of_ok s cs now {n} (ok m, s') st h =
    let e : m ≡ n = cc in subst (λ k. Selects s cs now k s') e st
Selects-of_ok s cs now (err x, s') st h = absurd (ground arith)
