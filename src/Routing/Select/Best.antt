-- ===== src/Routing/Select/Best.antt =====
-- What core/routing/src/lib.rs's `select` returns: an available candidate that no other available
-- candidate outranks, whatever the order of the candidates.
use cyberia_vpn.Prelude.{
  ℕ, ◌≡◌, sym, subst, ◌∙◌, ◌↔◌, ◌⊎◌, inl, inr, true, List, [], ◌∷◌, arith, Result-cases, ok, keep,
  Has, here, there, keep-Has, Has-keep,
}
use cyberia_vpn.Routing.Score.{NodeCandidate, RoutingPolicy, score}
use cyberia_vpn.Routing.Select.{Ranked, better, select_rest, select_ranked, select, available}
use cyberia_vpn.Routing.Select.Rank.{Outranks, Outranks-trans, Outranks-antisym, better-Outranks}

module _ (p : RoutingPolicy) where
  -- `x` outranks each of the nodes, all of which have a score.
  abbrev pub OutranksAll : Ranked → List NodeCandidate → Type 0
  OutranksAll x [] = Unit {0}
  OutranksAll x (n ∷ ns) =
      ((s : ℕ) × (score p n.measurements ≡ ok s) × Outranks x (n, s)) × OutranksAll x ns

  OutranksAll-trans :
      (x y : Ranked) (ns : List NodeCandidate) → Outranks x y → OutranksAll y ns → OutranksAll x ns
  OutranksAll-trans x y [] h k = tt
  OutranksAll-trans x y (n ∷ ns) h ((s, e, o), k) =
      ((s, e, Outranks-trans x y (n, s) h o), OutranksAll-trans x y ns h k)

  pub OutranksAll-Has :
      (x : Ranked) (ns : List NodeCandidate) {n : NodeCandidate}
      → Has n ns
      → OutranksAll x ns
      → (s : ℕ) × (score p n.measurements ≡ ok s) × Outranks x (n, s)
  OutranksAll-Has x [] m h = elim m [ ]
  OutranksAll-Has x (n ∷ ns) here h = h.0
  OutranksAll-Has x (n ∷ ns) (there m) h = OutranksAll-Has x ns m h.1

  -- What a result of the loop has to meet, from `best` on.
  record IsWinner (best : Ranked) (ns : List NodeCandidate) (a : NodeCandidate) : Type 0 where
    points : ℕ
    scored : score p a.measurements ≡ ok points
    beats : Outranks (a, points) best
    beats_all : OutranksAll (a, points) ns
    member : (a ≡ best.0) ⊎ Has a ns

  better_scored :
      (n : NodeCandidate) (s : ℕ) (best : Ranked)
      → score p n.measurements ≡ ok s
      → score p best.0.measurements ≡ ok best.1
      → let b = better (n, s) best in
        (score p b.0.measurements ≡ ok b.1) × ((b.0 ≡ n) ⊎ (b.0 ≡ best.0))
  unfolding better
  better_scored n s best h k = ground arith

  member_step :
      (n : NodeCandidate) (best b : NodeCandidate) (ns : List NodeCandidate) (a : NodeCandidate)
      → (b ≡ n) ⊎ (b ≡ best)
      → (a ≡ b) ⊎ Has a ns
      → (a ≡ best) ⊎ Has a (n ∷ ns)
  member_step n best b ns a from (inr m) = inr (there m)
  member_step n best b ns a (inl e) (inl f) = inr (subst (λ c. Has c (n ∷ ns)) (sym (f ∙ e)) here)
  member_step n best b ns a (inr e) (inl f) = inl (f ∙ e)

  IsWinner-step :
      (best : Ranked) (n : NodeCandidate) (s : ℕ) (ns : List NodeCandidate) (a : NodeCandidate)
      → score p n.measurements ≡ ok s
      → ((better (n, s) best).0 ≡ n) ⊎ ((better (n, s) best).0 ≡ best.0)
      → IsWinner (better (n, s) best) ns a
      → IsWinner best (n ∷ ns) a
  IsWinner-step best n s ns a q from w =
      let both = better-Outranks (n, s) best in
      let b = better (n, s) best in
      record {
        points = w.points;
        scored = w.scored;
        beats = Outranks-trans (a, w.points) b best w.beats both.1;
        beats_all = ((s, q, Outranks-trans (a, w.points) b (n, s) w.beats both.0), w.beats_all);
        member = member_step n best.0 b.0 ns a from w.member;
      }

  select_rest-IsWinner :
      (best : Ranked) (ns : List NodeCandidate) (a : NodeCandidate)
      → score p best.0.measurements ≡ ok best.1
      → select_rest p best ns ≡ ok a
      → IsWinner best ns a
  unfolding select_rest
  select_rest-IsWinner best [] a h e = record {
    points = best.1;
    scored = ground arith;
    beats = ground arith;
    beats_all = tt;
    member = inl (ground arith);
  }
  select_rest-IsWinner best (n ∷ ns) a h e = elim (Result-cases (score p n.measurements)) [
    | inr (x, q) ↦ absurd (ground (arith, q))
    | inl (s, q) ↦ IsWinner-step best n s ns a q (better_scored n s best q h).1 (
        select_rest-IsWinner (better (n, s) best) ns a (better_scored n s best q h).0
          (ground arith))
  ]

  -- What `select` promises of its result.
  pub record IsBest (candidates : List NodeCandidate) (a : NodeCandidate) : Type 0 where
    pub points : ℕ
    pub scored : score p a.measurements ≡ ok points
    pub member : Has a candidates
    pub is_available : available a ≡ true
    pub outranks :
        (n : NodeCandidate)
        → Has n candidates
        → available n ≡ true
        → (s : ℕ) × (score p n.measurements ≡ ok s) × Outranks (a, points) (n, s)

  member_first :
      (n : NodeCandidate) (ns : List NodeCandidate) (a : NodeCandidate)
      → (a ≡ n) ⊎ Has a ns
      → Has a (n ∷ ns)
  member_first n ns a (inl e) = subst (λ c. Has c (n ∷ ns)) (sym e) here
  member_first n ns a (inr m) = there m

  select_ranked-Best :
      (ns : List NodeCandidate) (a : NodeCandidate)
      → select_ranked p ns ≡ ok a
      → (s : ℕ) × (score p a.measurements ≡ ok s) × OutranksAll (a, s) ns × Has a ns
  unfolding select_ranked
  select_ranked-Best [] a e = absurd (ground arith)
  select_ranked-Best (n ∷ ns) a e = elim (Result-cases (score p n.measurements)) [
    | inr (x, q) ↦ absurd (ground (arith, q))
    | inl (s, q) ↦
        let w = select_rest-IsWinner (n, s) ns a q (ground arith) in
        (w.points, w.scored, ((s, q, w.beats), w.beats_all), member_first n ns a w.member)
  ]

  -- The selected node is an available candidate with a score, every available candidate has a
  -- score, and none of them has a higher one, or the same one with a smaller ID.
  pub select-IsBest :
      (candidates : List NodeCandidate) (a : NodeCandidate)
      → select p candidates ≡ ok a
      → IsBest candidates a
  unfolding select
  select-IsBest cs a e =
      let (s, q, o, m) = select_ranked-Best (keep available cs) a e in
      let found = keep-Has available cs m in
      record {
        points = s;
        scored = q;
        member = found.0;
        is_available = found.1;
        outranks =
            λ n h up. OutranksAll-Has (a, s) (keep available cs) (Has-keep available cs h up) o;
      }

  same_points :
      {cs : List NodeCandidate} (x : Ranked) (b : NodeCandidate) (best : IsBest cs b)
      → (s : ℕ) × (score p b.measurements ≡ ok s) × Outranks x (b, s)
      → Outranks x (b, best.points)
  same_points x b best (s, q, o) =
      let e : s ≡ best.points = cc (q, best.scored) in subst (λ t. Outranks x (b, t)) e o

  -- The choice does not depend on the order of the candidates, nor on repetitions: two lists with
  -- the same members, in which an ID names one candidate, give one and the same node.
  pub select_deterministic :
      (xs ys : List NodeCandidate) (a b : NodeCandidate)
      → ((n : NodeCandidate) → Has n xs ↔ Has n ys)
      → ((m n : NodeCandidate) → Has m xs → Has n xs → m.id ≡ n.id → m ≡ n)
      → select p xs ≡ ok a
      → select p ys ≡ ok b
      → a ≡ b
  select_deterministic xs ys a b same distinct h k =
      let A = select-IsBest xs a h in
      let B = select-IsBest ys b k in
      let b_in = (same b).1 B.member in
      let over = same_points (a, A.points) b B (A.outranks b b_in B.is_available) in
      let under =
        same_points (b, B.points) a A (B.outranks a ((same a).0 A.member) A.is_available) in
      distinct a b A.member b_in (Outranks-antisym (a, A.points) (b, B.points) over under).1
