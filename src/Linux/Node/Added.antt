-- ===== src/Linux/Node/Added.antt =====
-- `add_peer` of `LinuxWireGuardNode` in core/transport/src/linux.rs: the node with one peer more.
use cyberia_vpn.Prelude.{
  ◌≡◌, refl, sym, ◌≢◌, inl, inr, true, false, not, List, [], ◌∷◌, arith, Bool-cases, ok, any, keep,
  All, Has, here, there, Has-keep, subst,
}
use cyberia_vpn.Text.{text_eq, text_eq_iff}
use cyberia_vpn.Apart.{Pairwise, All-map, All-map_on}
use cyberia_vpn.Transport.Platform.{World, Event}
use cyberia_vpn.Transport.Calls.{ran}
use cyberia_vpn.WireGuard.Profile.{AllowedIp, WireGuardNodePeer, allowed_ip_eq}
use cyberia_vpn.WireGuard.Accepted.{allowed_ip_eq_iff}
use cyberia_vpn.Linux.Node.{
  LinuxWireGuardNode, Key, assign, assign_all, check_new_peer, with_peer, add_arguments,
  is_assigned, Text, some,
}
use cyberia_vpn.Linux.Node.Owned.{
  IsOwned, Entry, none_pass, All-keep, All-kept, Pairwise-keep, All-self,
}

differs : (route : AllowedIp) (e : Entry) → not (allowed_ip_eq e.0 route) ≡ true → route ≢ e.0
differs route e q same = let t = (allowed_ip_eq_iff e.0 route).1 (sym same) in absurd (ground arith)

-- An entry is added in place of the one of the same route.
assign-distinct :
    (routes : List Entry) (route : AllowedIp) (key : Key)
    → Pairwise (λ (a b : Entry). a.0 ≢ b.0) routes
    → Pairwise (λ (a b : Entry). a.0 ≢ b.0) (assign routes route key)
unfolding assign
assign-distinct routes route key h =
    let others = λ (entry : Entry). not (allowed_ip_eq entry.0 route) in
    (
      All-map (differs route) (keep others routes) (All-kept others routes),
      Pairwise-keep (λ (a b : Entry). a.0 ≢ b.0) others routes h,
    )

assign_all-owned :
    (key : Key) (peers : List Key) (routes : List AllowedIp) (entries : List Entry)
    → Has key peers
    → Pairwise (λ (a b : Entry). a.0 ≢ b.0) entries
    → All (λ (e : Entry). Has e.1 peers) entries
    → Pairwise (λ (a b : Entry). a.0 ≢ b.0) (assign_all key routes entries)
      × All (λ (e : Entry). Has e.1 peers) (assign_all key routes entries)
unfolding assign_all assign
assign_all-owned key peers [] entries m p h = (p, h)
assign_all-owned key peers (r ∷ rs) entries m p h =
    assign_all-owned key peers rs (assign entries r key) m (assign-distinct entries r key p) (
      m,
      All-keep (λ (e : Entry). Has e.1 peers) (λ (entry : Entry). not (allowed_ip_eq entry.0 r))
          entries h,
    )

assign-Has :
    (key : Key) (r route : AllowedIp) (entries : List Entry)
    → Has (r, key) entries
    → Has (r, key) (assign entries route key)
unfolding assign
assign-Has key r route entries m = elim (Bool-cases (allowed_ip_eq r route)) [
  | inl e ↦
      subst (λ (x : AllowedIp). Has (x, key) (assign entries route key))
        (sym ((allowed_ip_eq_iff r route).0 e)) here
  | inr e ↦
      there
        (Has-keep (λ (entry : Entry). not (allowed_ip_eq entry.0 route)) entries m (ground arith))
]

assign_all-Has :
    (key : Key) (r : AllowedIp) (routes : List AllowedIp) (entries : List Entry)
    → Has (r, key) entries
    → Has (r, key) (assign_all key routes entries)
unfolding assign_all
assign_all-Has key r [] entries m = m
assign_all-Has key r (route ∷ routes) entries m =
    assign_all-Has key r routes (assign entries route key) (assign-Has key r route entries m)

assign_all-assigns :
    (key : Key) (routes : List AllowedIp) (entries : List Entry)
    → All (λ (r : AllowedIp). Has (r, key) (assign_all key routes entries)) routes
unfolding assign_all assign
assign_all-assigns key [] entries = tt
assign_all-assigns key (r ∷ rs) entries =
    (assign_all-Has key r rs (assign entries r key) here, assign_all-assigns key rs _)

-- An entry of another route stays.
assign_all-keeps :
    (key : Key) (e : Entry) (routes : List AllowedIp) (entries : List Entry)
    → Has e entries
    → any (allowed_ip_eq e.0) routes ≡ false
    → Has e (assign_all key routes entries)
unfolding assign_all assign
assign_all-keeps key e [] entries m h = m
assign_all-keeps key e (r ∷ rs) entries m h =
    assign_all-keeps key e rs _
      (there (Has-keep (λ (entry : Entry). not (allowed_ip_eq entry.0 r)) entries m (ground arith)))
      (ground arith)

-- Routes that nobody owns differ from those that are owned.
unassigned :
    (entries : List Entry) (routes : List AllowedIp)
    → any (is_assigned entries) routes ≡ false
    → All (λ (e : Entry). any (allowed_ip_eq e.0) routes ≡ false) entries
unfolding is_assigned
unassigned [] routes h = tt
unassigned (e ∷ entries) routes h = (apart routes h, unassigned entries routes (rest routes h))
  where
    apart :
        (rs : List AllowedIp)
        → any (is_assigned (e ∷ entries)) rs ≡ false
        → any (allowed_ip_eq e.0) rs ≡ false
    apart [] h = refl
    apart (r ∷ rs) h = (let t = apart rs (ground arith) in ground arith)

    rest :
        (rs : List AllowedIp)
        → any (is_assigned (e ∷ entries)) rs ≡ false
        → any (is_assigned entries) rs ≡ false
    rest [] h = refl
    rest (r ∷ rs) h = (let t = rest rs (ground arith) in ground arith)

-- The peer is added to the node: it owns its routes, what others own stays, and the last call has
-- succeeded and was the one for it.
pub record PeerAdded (peer : WireGuardNodePeer) (n : LinuxWireGuardNode) (before : List Event)
    (s : LinuxWireGuardNode × World) : Type 0 where
  pub owned : IsOwned s.0
  pub new : All (λ (k : Key). peer.public_key ≢ k) n.peers
  pub managed : Has peer.public_key s.0.peers
  pub routes :
      All (λ (r : AllowedIp). Has (r, peer.public_key) s.0.assigned_routes) peer.allowed_ips
  pub peers_kept : All (λ (k : Key). Has k s.0.peers) n.peers
  pub routes_kept : All (λ (e : Entry). Has e s.0.assigned_routes) n.assigned_routes
  pub interface : Text
  pub up : n.active_interface ≡ some interface
  pub called : s.1.trace ≡ ran n.tools.wg (add_arguments interface peer) true ∷ before

new_key : (key k : Key) → text_eq key k ≡ false → key ≢ k
new_key key k h same = let t = (text_eq_iff key k).1 same in absurd (ground arith)

with_peer-IsOwned :
    (n : LinuxWireGuardNode) (peer : WireGuardNodePeer)
    → IsOwned n
    → check_new_peer n peer ≡ ok tt
    → IsOwned (with_peer n peer)
unfolding check_new_peer with_peer
with_peer-IsOwned n peer o h =
    let fresh : any (text_eq peer.public_key) n.peers ≡ false = ground arith in
    let owned =
      assign_all-owned peer.public_key (peer.public_key ∷ n.peers) peer.allowed_ips
        n.assigned_routes here o.distinct_routes
        (All-map (λ (e : Entry) m. there m) n.assigned_routes o.owners) in
    record {
      within = ground arith;
      distinct_keys = (
        All-map (new_key peer.public_key) n.peers
            (none_pass (text_eq peer.public_key) n.peers fresh),
        o.distinct_keys,
      );
      distinct_routes = owned.0;
      owners = owned.1;
    }

pub peer_added :
    (n : LinuxWireGuardNode) (peer : WireGuardNodePeer) (before : List Event) (interface : Text)
    (w : World)
    → IsOwned n
    → check_new_peer n peer ≡ ok tt
    → n.active_interface ≡ some interface
    → w.trace ≡ ran n.tools.wg (add_arguments interface peer) true ∷ before
    → PeerAdded peer n before (with_peer n peer, w)
unfolding check_new_peer with_peer
peer_added n peer before interface w o h up called =
    let fresh : any (text_eq peer.public_key) n.peers ≡ false = ground arith in
    let free : any (is_assigned n.assigned_routes) peer.allowed_ips ≡ false = ground arith in
    record {
      owned = with_peer-IsOwned n peer o h;
      new =
          All-map (new_key peer.public_key) n.peers
            (none_pass (text_eq peer.public_key) n.peers fresh);
      managed = here;
      routes = assign_all-assigns peer.public_key peer.allowed_ips n.assigned_routes;
      peers_kept = All-map (λ k m. there m) n.peers (All-self n.peers);
      routes_kept =
          All-map_on (λ (e : Entry) m q. assign_all-keeps peer.public_key e peer.allowed_ips _ m q)
            n.assigned_routes (All-self n.assigned_routes)
            (unassigned n.assigned_routes peer.allowed_ips free);
      interface = interface;
      up = up;
      called = called;
    }
