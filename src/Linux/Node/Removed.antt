-- ===== src/Linux/Node/Removed.antt =====
-- `remove_peer` of `LinuxWireGuardNode` in core/transport/src/linux.rs: the node without a peer.
use cyberia_vpn.Prelude.{
  ◌≡◌, ◌≢◌, inl, inr, Bool, true, false, not, List, [], ◌∷◌, arith, Bool-cases, keep, All, Has,
  Has-keep, ◌⊎◌,
}
use cyberia_vpn.Text.{lit, text_eq, text_eq_iff}
use cyberia_vpn.Apart.{All-map, All-map_on}
use cyberia_vpn.Transport.Platform.{World, Event}
use cyberia_vpn.Transport.Calls.{ran}
use cyberia_vpn.Linux.Tools.{encode_key}
use cyberia_vpn.Linux.Node.{LinuxWireGuardNode, Key, without_peer, Text, some}
use cyberia_vpn.Linux.Node.Owned.{
  IsOwned, Entry, All-keep, All-kept, Pairwise-keep, length-keep, All-self,
}

Has-differs :
    (key : Key) {k : Key} {ks : List Key}
    → Has k ks
    → text_eq k key ≡ false
    → Has k (keep (λ j. not (text_eq j key)) ks)
Has-differs key {k} {ks} m e = Has-keep (λ j. not (text_eq j key)) ks m (ground arith)

without_peer-IsOwned :
    (n : LinuxWireGuardNode) (key : Key) → IsOwned n → IsOwned (without_peer n key)
unfolding without_peer
without_peer-IsOwned n key o =
    let others = λ (entry : Entry). not (text_eq entry.1 key) in
    record {
      within = omega (arith, length-keep (λ k. not (text_eq k key)) n.peers, o.within);
      distinct_keys =
          Pairwise-keep (λ a b. a ≢ b) (λ k. not (text_eq k key)) n.peers o.distinct_keys;
      distinct_routes =
          Pairwise-keep (λ (a b : Entry). a.0 ≢ b.0) others n.assigned_routes o.distinct_routes;
      owners =
          All-map_on (λ (e : Entry) m q. Has-differs key m (ground arith))
            (keep others n.assigned_routes)
            (All-keep (λ (e : Entry). Has e.1 n.peers) others n.assigned_routes o.owners)
            (All-kept others n.assigned_routes);
    }

other_key : (key k : Key) → not (text_eq k key) ≡ true → k ≢ key
other_key key k h same = let t = (text_eq_iff k key).1 same in absurd (ground arith)

without_peer-gone :
    (n : LinuxWireGuardNode) (key : Key)
    → All (λ (k : Key). k ≢ key) (without_peer n key).peers
      × All (λ (e : Entry). e.1 ≢ key) (without_peer n key).assigned_routes
unfolding without_peer
without_peer-gone n key =
    let others = λ (k : Key). not (text_eq k key) in
    let entries = λ (e : Entry). not (text_eq e.1 key) in
    (
      All-map (λ (k : Key) h. other_key key k h) (keep others n.peers) (All-kept others n.peers),
      All-map (λ (e : Entry) h. other_key key e.1 h) (keep entries n.assigned_routes)
          (All-kept entries n.assigned_routes),
    )

-- What a test does not drop is kept.
dropped_or_kept :
    {A : Type 0} (p : A → Bool) (xs : List A) → All (λ x. (p x ≡ false) ⊎ Has x (keep p xs)) xs
dropped_or_kept p xs =
    All-map (λ x m. elim (Bool-cases (p x)) [ inl e ↦ inr (Has-keep p xs m e) | inr e ↦ inl e ]) xs
      (All-self xs)

same_key : (key k : Key) → not (text_eq k key) ≡ false → k ≡ key
same_key key k h = (text_eq_iff k key).0 (ground arith)

-- The peer is removed from the node with its routes, the others stay with theirs, and the last call has
-- succeeded and was the one for it.
pub record PeerRemoved (key : Key) (n : LinuxWireGuardNode) (before : List Event)
    (s : LinuxWireGuardNode × World) : Type 0 where
  pub owned : IsOwned s.0
  pub gone : All (λ (k : Key). k ≢ key) s.0.peers
  pub routes_gone : All (λ (e : Entry). e.1 ≢ key) s.0.assigned_routes
  pub peers_kept : All (λ (k : Key). (k ≡ key) ⊎ Has k s.0.peers) n.peers
  pub routes_kept : All (λ (e : Entry). (e.1 ≡ key) ⊎ Has e s.0.assigned_routes) n.assigned_routes
  pub interface : Text
  pub up : n.active_interface ≡ some interface
  pub called :
      s.1.trace
      ≡ ran n.tools.wg
          (lit "set" ∷ interface ∷ lit "peer" ∷ encode_key key ∷ lit "remove" ∷ [])
          true
        ∷ before

pub peer_removed :
    (n : LinuxWireGuardNode) (key : Key) (before : List Event) (interface : Text) (w : World)
    → IsOwned n
    → n.active_interface ≡ some interface
    → w.trace
      ≡ ran n.tools.wg
          (lit "set" ∷ interface ∷ lit "peer" ∷ encode_key key ∷ lit "remove" ∷ [])
          true
        ∷ before
    → PeerRemoved key n before (without_peer n key, w)
unfolding without_peer
peer_removed n key before interface w o up called = record {
  owned = without_peer-IsOwned n key o;
  gone = (without_peer-gone n key).0;
  routes_gone = (without_peer-gone n key).1;
  peers_kept =
      All-map (λ (k : Key) h. elim h [ inl e ↦ inl (same_key key k e) | inr m ↦ inr m ]) n.peers
        (dropped_or_kept (λ k. not (text_eq k key)) n.peers);
  routes_kept =
      All-map (λ (x : Entry) h. elim h [ inl e ↦ inl (same_key key x.1 e) | inr m ↦ inr m ])
        n.assigned_routes
        (dropped_or_kept (λ (x : Entry). not (text_eq x.1 key)) n.assigned_routes);
  interface = interface;
  up = up;
  called = called;
}
