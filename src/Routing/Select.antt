-- ===== src/Routing/Select.antt =====
-- core/routing/src/lib.rs: `RoutingPolicy::select`, the choice of the node with the highest score.
pub mod Rank
pub mod Best
pub mod Total
use cyberia_vpn.Prelude.{
  [], ℕ, compare, Ordering, Bool, true, false, List, ◌∷◌, if◌then◌else◌, Result, ok, err, keep,
}
use cyberia_vpn.Result.{◌>>=◌, ◌>>◌}
use cyberia_vpn.Text.{text_cmp}
use cyberia_vpn.Routing.Score.{
  NodeCandidate, RoutingPolicy, RoutingError, no_available_nodes, score,
}

-- A node with its score.
abbrev pub Ranked : Type 0
Ranked = NodeCandidate × ℕ

-- The score decides, and then the smaller ID.
unfoldable pub compare_rank : Ranked → Ranked → Ordering
compare_rank left right = elim (compare left.1 right.1) [
  | Ordering.eq ↦ text_cmp right.0.id left.0.id
  | Ordering.lt ↦ Ordering.lt
  | Ordering.gt ↦ Ordering.gt
]

unfoldable pub is_greater : Ordering → Bool
is_greater Ordering.gt = true
is_greater _ = false

-- The body of the loop.
unfoldable pub better : Ranked → Ranked → Ranked
unfolding compare_rank is_greater
better candidate best = if is_greater (compare_rank candidate best) then candidate else best

-- The loop over the candidates that are left; each is scored when it is reached.
unfoldable pub select_rest :
    RoutingPolicy → Ranked → List NodeCandidate → Result RoutingError NodeCandidate
select_rest p best [] = ok best.0
select_rest p best (node ∷ nodes) = do
  s ← score p node.measurements
  select_rest p (better (node, s) best) nodes

unfoldable pub select_ranked :
    RoutingPolicy → List NodeCandidate → Result RoutingError NodeCandidate
select_ranked p [] = err no_available_nodes
select_ranked p (node ∷ nodes) = do s ← score p node.measurements; select_rest p (node, s) nodes

unfoldable pub available : NodeCandidate → Bool
available node = node.measurements.available

unfoldable pub select : RoutingPolicy → List NodeCandidate → Result RoutingError NodeCandidate
unfolding select_ranked
select p candidates = select_ranked p (keep available candidates)
