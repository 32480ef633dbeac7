-- ===== src/Linux/Node/Ownership.antt =====
-- `LinuxWireGuardNode` of core/transport/src/linux.rs: how adding and removing a peer end.
use cyberia_vpn.Prelude.{
  ◌≡◌, refl, inl, inr, [], ◌∷◌, Bool-cases, Option-cases, Result-cases, any, ◌∙◌, ap, is_ok,
}
use cyberia_vpn.Exec.{Ends}
use cyberia_vpn.Text.{lit, text_eq}
use cyberia_vpn.Transport.Platform.{World, command}
use cyberia_vpn.Transport.Calls.{Ends-world, command-trace, ran}
use cyberia_vpn.WireGuard.Profile.{WireGuardNodePeer}
use cyberia_vpn.WireGuard.Validate.{validate_peer}
use cyberia_vpn.Linux.Tools.{encode_key}
use cyberia_vpn.Linux.Node.{
  LinuxWireGuardNode, Key, check_new_peer, add_peer, add_arguments, remove_peer,
}
use cyberia_vpn.Linux.Node.Owned.{IsOwned}
use cyberia_vpn.Linux.Node.Added.{PeerAdded, peer_added}
use cyberia_vpn.Linux.Node.Removed.{PeerRemoved, peer_removed}

-- Adding a peer to a node whose ownership is intact ends in one of two ways: the node is up, the key is new
-- to it, and the last call set the peer with success; now the key is among the peers, every one of the peer's
-- routes is assigned to it, all peers and assigned routes from before are still there, and the ownership is
-- intact; or there is an error and the node object is as it was.
pub add_peer-Ends :
    (peer : WireGuardNodePeer) (n : LinuxWireGuardNode) (w : World)
    → IsOwned n
    → Ends (λ _. PeerAdded peer n w.trace) (λ _ s. s.0 ≡ n) (add_peer peer (n, w))
unfolding add_peer
add_peer-Ends peer n w o = elim (Result-cases (validate_peer peer)) [
  | inr (x, e) ↦ simp e (record { holds = refl })
  | inl (u, e) ↦ elim (Option-cases n.active_interface) [
    | inl down ↦ simp (e, down) (record { holds = refl })
    | inr (i, up) ↦ elim (Result-cases (check_new_peer n peer)) [
      | inr (x, bad) ↦ simp (e, up, bad) (record { holds = refl })
      | inl (v, good) ↦
          simp (e, up, good)
            (Ends-world (command n.tools.wg (add_arguments i peer)) _ n w (λ x q. refl)
              λ a q. record {
                holds = peer_added n peer w.trace i _ o good up (
                    command-trace n.tools.wg (add_arguments i peer) w
                    ∙ ap (λ r. ran n.tools.wg (add_arguments i peer) (is_ok r) ∷ w.trace) q);
              })
    ]
  ]
]

-- Removing a peer of a node whose ownership is intact ends in one of two ways: the node is up, the last call
-- removed the peer with success, neither the key nor any route of it is left, every other peer and every
-- route of another peer is still there, and the ownership is intact; or there is an error and the node
-- object is as it was.
pub remove_peer-Ends :
    (key : Key) (n : LinuxWireGuardNode) (w : World)
    → IsOwned n
    → Ends (λ _. PeerRemoved key n w.trace) (λ _ s. s.0 ≡ n) (remove_peer key (n, w))
unfolding remove_peer
remove_peer-Ends key n w o = elim (Option-cases n.active_interface) [
  | inl down ↦ simp down (record { holds = refl })
  | inr (i, up) ↦ elim (Bool-cases (any (text_eq key) n.peers)) [
    | inr unknown ↦ simp (up, unknown) (record { holds = refl })
    | inl known ↦
        simp (up, known)
          (Ends-world
            (command n.tools.wg (lit "set" ∷ i ∷ lit "peer" ∷ encode_key key ∷ lit "remove" ∷ [])) _
            n w (λ x q. refl)
            λ a q.
              let call = lit "set" ∷ i ∷ lit "peer" ∷ encode_key key ∷ lit "remove" ∷ [] in
              record {
                holds = peer_removed n key w.trace i _ o up (
                    command-trace n.tools.wg call w
                    ∙ ap (λ r. ran n.tools.wg call (is_ok r) ∷ w.trace) q);
              })
  ]
]
