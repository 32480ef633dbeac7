-- ===== src/Routing/Select/Total.antt =====
-- When `select` of core/routing/src/lib.rs gives a node, and when it fails.
use cyberia_vpn.Prelude.{
  not-Has-nil, ◌≤◌, ◌≡◌, refl, subst, ◌⊎◌, inl, inr, true, false, List, [], ◌∷◌, Bool-cases, ok,
  err, keep, Has, here, there, keep-Has, Has-keep,
}
use cyberia_vpn.Routing.Score.{NodeCandidate, RoutingPolicy, no_available_nodes, quality_max}
use cyberia_vpn.Routing.Score.Bounds.{IsTyped, IsUsable, score_total}
use cyberia_vpn.Routing.Select.{Ranked, better, select_rest, select_ranked, select, available}

module _ (p : RoutingPolicy) (typed : IsTyped p) (usable : IsUsable p) where
  -- A candidate that does not make scoring fail.
  abbrev pub IsScorable : NodeCandidate → Type 0
  IsScorable n = n.measurements.packet_loss_basis_points ≤ quality_max

  select_rest_total :
      (best : Ranked) (ns : List NodeCandidate)
      → ((n : NodeCandidate) → Has n ns → IsScorable n)
      → (a : NodeCandidate) × (select_rest p best ns ≡ ok a)
  unfolding select_rest
  select_rest_total best [] h = (best.0, refl)
  select_rest_total best (n ∷ ns) h =
      let (s, e) = (score_total p n.measurements typed usable).1 (h n here) in
      let (a, q) = select_rest_total (better (n, s) best) ns (λ m i. h m (there i)) in (a, rw e q)

  select_ranked_total :
      (ns : List NodeCandidate)
      → ((n : NodeCandidate) → Has n ns → IsScorable n)
      → ((ns ≡ []) × (select_ranked p ns ≡ err no_available_nodes))
        ⊎ ((a : NodeCandidate) × (select_ranked p ns ≡ ok a))
  unfolding select_ranked
  select_ranked_total [] h = inl (refl, refl)
  select_ranked_total (n ∷ ns) h =
      let (s, e) = (score_total p n.measurements typed usable).1 (h n here) in
      let (a, q) = select_rest_total (n, s) ns (λ m i. h m (there i)) in inr (a, rw e q)

  -- Under a usable policy, when no available candidate reports a packet loss above 100 percent, there
  -- are two cases: no candidate is available and `select` returns `NoAvailableNodes`, or it selects a
  -- node. It never fails in another way.
  pub select_total :
      (candidates : List NodeCandidate)
      → ((n : NodeCandidate) → Has n candidates → available n ≡ true → IsScorable n)
      → (((n : NodeCandidate) → Has n candidates → available n ≡ false)
          × (select p candidates ≡ err no_available_nodes))
        ⊎ ((a : NodeCandidate) × (select p candidates ≡ ok a))
  unfolding select
  select_total cs h =
      elim (select_ranked_total (keep available cs)
        (λ n m. let k = keep-Has available cs m in h n k.0 k.1)) [
          | inr found ↦ inr found
          | inl (e, q) ↦ inl ((λ n m. none_kept cs n m e), q)
        ]
    where
      none_kept :
          (xs : List NodeCandidate) (n : NodeCandidate)
          → Has n xs
          → keep available xs ≡ []
          → available n ≡ false
      none_kept xs n m e = elim (Bool-cases (available n)) [
        | inr down ↦ down
        | inl up ↦ absurd (not-Has-nil (subst (Has n) e (Has-keep available xs m up)))
      ]
