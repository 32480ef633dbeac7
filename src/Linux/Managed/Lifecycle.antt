-- ===== src/Linux/Managed/Lifecycle.antt =====
-- `LinuxManagedWireGuardNode` of core/transport/src/linux.rs: how its stop ends.
use cyberia_vpn.Prelude.{
  ◌≡◌, refl, sym, ap, subst, ◌∙◌, ◌⊎◌, inl, inr, Bool, true, false, not, if◌then◌else◌, Bool-cases,
  Option-cases, Result, ok, err, List, some, ◌∷◌,
}
use cyberia_vpn.Exec.{Ends, Ends-bind, Ends-weaken, continue, raise, ◌>>◌}
use cyberia_vpn.Transport.Types.{TransportError, not_connected}
use cyberia_vpn.Transport.Platform.{World, Event}
use cyberia_vpn.Transport.Calls.{Ends-world, none_called, Fruitless, one_failed}
use cyberia_vpn.Linux.Commands.{delete_interface}
use cyberia_vpn.Linux.Node
use cyberia_vpn.Linux.Node.{LinuxWireGuardNode, stopped}
use cyberia_vpn.Linux.Gateway
use cyberia_vpn.Linux.Gateway.{LinuxWireGuardNodeGateway}
use cyberia_vpn.Linux.Gateway.Switch.{disable-Ends, unload}
use cyberia_vpn.Linux.Managed.{
  LinuxManagedWireGuardNode, Managed, stop, on_node, on_gateway, set_active, Text,
}
use cyberia_vpn.Linux.Backend.Setup.{deletion}
use cyberia_vpn.Linux.Backend.Removal.{deleted-trace}

-- Stopping a node ends with the node, which was active, stopped, and its interface deleted by the only call;
-- or with an error, the node object as it was, and no successful call.
abbrev NodeStopped : LinuxWireGuardNode → List Event → LinuxWireGuardNode × World → Type 0
NodeStopped n before s =
    (i : Text) × (n.active_interface ≡ some i)
    × (s.0 ≡ stopped n)
    × (s.1.trace ≡ deletion n.tools i true ∷ before)

abbrev NodeKept : LinuxWireGuardNode → List Event → LinuxWireGuardNode × World → Type 0
NodeKept n before s = (s.0 ≡ n) × Fruitless before s.1.trace

pub node_stop-Ends :
    (n : LinuxWireGuardNode) (w : World)
    → Ends (λ _. NodeStopped n w.trace) (λ _. NodeKept n w.trace) (Node.stop (n, w))
unfolding Node.stop
node_stop-Ends n w = elim (Option-cases n.active_interface) [
  | inl e ↦ simp e (record { holds = (refl, none_called w.trace) })
  | inr (i, e) ↦ simp e (
      Ends-world (delete_interface n.tools i) _ n w
        (λ x q. (refl, one_failed _ _ _ refl (deleted-trace n.tools i w q)))
        λ v p. record { holds = (i, e, refl, deleted-trace n.tools i w p) })
]

-- The calls on the two parts change those alone.
abbrev NodeIs : Managed → (LinuxWireGuardNode × World → Type 0) → Managed → Type 0
NodeIs s Q t = (n : LinuxWireGuardNode) × (t.0 ≡ record (s.0) { node = n }) × Q (n, t.1)

abbrev GatewayIs : Managed → (LinuxWireGuardNodeGateway × World → Type 0) → Managed → Type 0
GatewayIs s Q t =
    (g : LinuxWireGuardNodeGateway) × (t.0 ≡ record (s.0) { gateway = g }) × Q (g, t.1)

node_of :
    (s : Managed) {Q R : LinuxWireGuardNode × World → Type 0}
    (r : Result TransportError (Unit {0}) × (LinuxWireGuardNode × World))
    → Ends (λ _. Q) (λ _. R) r
    → Ends (λ _. NodeIs s Q) (λ _. NodeIs s R) (r.0, (record (s.0) { node = r.1.0 }, r.1.1))
node_of s (ok u, (n, w)) h = record { holds = (n, refl, h.holds) }
node_of s (err e, (n, w)) h = record { holds = (n, refl, h.holds) }

gateway_of :
    (s : Managed) {Q R : LinuxWireGuardNodeGateway × World → Type 0}
    (r : Result TransportError (Unit {0}) × (LinuxWireGuardNodeGateway × World))
    → Ends (λ _. Q) (λ _. R) r
    → Ends
        (λ _. GatewayIs s Q)
        (λ _. GatewayIs s R)
        (r.0, (record (s.0) { gateway = r.1.0 }, r.1.1))
gateway_of s (ok u, (g, w)) h = record { holds = (g, refl, h.holds) }
gateway_of s (err e, (g, w)) h = record { holds = (g, refl, h.holds) }

-- Both parts are stopped: the rules were removed, and then the interface was deleted.
pub record AllStopped (s t : Managed) : Type 0 where
  pub inactive : t.0.active ≡ false
  pub gateway_off : t.0.gateway.active ≡ false
  pub node_stopped : t.0.node ≡ stopped s.0.node
  pub interface : Text
  pub was_up : s.0.node.active_interface ≡ some interface
  pub called : t.1.trace ≡ deletion s.0.node.tools interface true ∷ unload s.0.gateway ∷ s.1.trace

-- Nothing has changed, and no call has succeeded.
pub record AsBefore (s t : Managed) : Type 0 where
  pub kept : t.0 ≡ s.0
  pub called : Fruitless s.1.trace t.1.trace

-- The rules were removed, no later call has succeeded, the node is as before, and no further call of `stop`
-- does anything.
pub record Stuck (s t : Managed) : Type 0 where
  pub active : t.0.active ≡ true
  pub gateway_off : t.0.gateway.active ≡ false
  pub node_kept : t.0.node ≡ s.0.node
  pub called : Fruitless (unload s.0.gateway ∷ s.1.trace) t.1.trace
  pub retry : stop t ≡ (err not_connected, t)

stop_active :
    (s : Managed)
    → s.0.active ≡ true
    → stop s ≡ (do on_gateway Gateway.disable; on_node Node.stop; set_active false) s
unfolding stop
stop_active s on =
    ap
      (λ (b : Bool).
        (if not b
            then raise not_connected
            else (do on_gateway Gateway.disable; on_node Node.stop; set_active false))
          s)
      on

disable_off :
    (g : LinuxWireGuardNodeGateway) (w : World)
    → g.active ≡ false
    → Gateway.disable (g, w) ≡ (err not_connected, (g, w))
unfolding Gateway.disable
disable_off g w off = simp off refl

stuck_retry :
    (t : Managed) → t.0.active ≡ true → t.0.gateway.active ≡ false → stop t ≡ (err not_connected, t)
stuck_retry t on off =
    stop_active t on
    ∙ ap
        (λ (r : Result TransportError (Unit {0}) × (LinuxWireGuardNodeGateway × World)).
          continue r.0 (λ _. (do on_node Node.stop; set_active false))
            (record (t.0) { gateway = r.1.0 }, r.1.1))
        (disable_off t.0.gateway t.1 off)

-- The gateway has been switched off.
abbrev SwitchedOff : Managed → Managed → Type 0
SwitchedOff s = GatewayIs s (λ x.
    (s.0.gateway.active ≡ true)
    × (x.0 ≡ record (s.0.gateway) { active = false })
    × (x.1.trace ≡ unload s.0.gateway ∷ s.1.trace))

gateway_off_in : (s s1 : Managed) → SwitchedOff s s1 → s1.0.gateway.active ≡ false
gateway_off_in s s1 h =
    ap (λ (m : LinuxManagedWireGuardNode). m.gateway.active) h.1
    ∙ ap (λ (g : LinuxWireGuardNodeGateway). g.active) h.2.1

Stuck-at :
    (s s1 t : Managed)
    → s.0.active ≡ true
    → SwitchedOff s s1
    → NodeIs s1 (NodeKept s1.0.node s1.1.trace) t
    → Stuck s t
Stuck-at s s1 t on h k =
    let active =
      ap (λ (m : LinuxManagedWireGuardNode). m.active) k.1
      ∙ ap (λ (m : LinuxManagedWireGuardNode). m.active) h.1
      ∙ on in
    let off =
      ap (λ (m : LinuxManagedWireGuardNode). m.gateway.active) k.1 ∙ gateway_off_in s s1 h in
    record {
      active = active;
      gateway_off = off;
      node_kept =
          ap (λ (m : LinuxManagedWireGuardNode). m.node) k.1
          ∙ k.2.0
          ∙ ap (λ (m : LinuxManagedWireGuardNode). m.node) h.1;
      called = subst (λ (e : List Event). Fruitless e t.1.trace) h.2.2 k.2.1;
      retry = stuck_retry t active off;
    }

all_stopped :
    (s s1 t : Managed)
    → SwitchedOff s s1
    → NodeIs s1 (NodeStopped s1.0.node s1.1.trace) t
    → AllStopped s (record (t.0) { active = false }, t.1)
all_stopped s s1 t h k =
    let same = ap (λ (m : LinuxManagedWireGuardNode). m.node) h.1 in
    record {
      inactive = refl;
      gateway_off =
          ap (λ (m : LinuxManagedWireGuardNode). m.gateway.active) k.1 ∙ gateway_off_in s s1 h;
      node_stopped =
          ap (λ (m : LinuxManagedWireGuardNode). m.node) k.1
          ∙ k.2.2
          ∙ ap (λ (m : LinuxManagedWireGuardNode). stopped m.node) h.1;
      interface = k.2.0;
      was_up = ap (λ (x : LinuxWireGuardNode). x.active_interface) (sym same) ∙ k.2.1;
      called =
          k.2.3
          ∙ ap (λ (x : LinuxWireGuardNode). deletion x.tools k.2.0 true ∷ s1.1.trace) same
          ∙ ap (λ (e : List Event). deletion s.0.node.tools k.2.0 true ∷ e) h.2.2;
    }

-- A stop ends in one of three ways: a call has removed the forwarding rules and then one has deleted the
-- interface, both with success, and the gateway, the node and the whole are recorded as stopped; or there is
-- an error, no call has succeeded, and the managed node is as it was; or there is an error, a call has
-- removed the forwarding rules, no later call has succeeded, the node is as it was, and from then on a
-- stop fails at once, without a call, so that the interface stays.
pub stop-Ends : (s : Managed) → Ends (λ _. AllStopped s) (λ _ t. AsBefore s t ⊎ Stuck s t) (stop s)
unfolding stop
stop-Ends s = elim (Bool-cases s.0.active) [
  | inr off ↦
      simp off (record { holds = inl (record { kept = refl; called = none_called s.1.trace }) })
  | inl on ↦
      subst (Ends (λ _. AllStopped s) (λ _ t. AsBefore s t ⊎ Stuck s t)) (sym (stop_active s on)) (
        Ends-bind (on_gateway Gateway.disable) _ s
          (Ends-weaken _
            (gateway_of s (Gateway.disable (s.0.gateway, s.1)) (disable-Ends s.0.gateway s.1))
            (λ u t h. h)
            (λ e t h. inl (record {
              kept =
                  h.1 ∙ ap (λ (g : LinuxWireGuardNodeGateway). record (s.0) { gateway = g }) h.2.0;
              called = h.2.1;
            })))
          λ u s1 h.
            Ends-bind (on_node Node.stop) _ s1
              (Ends-weaken _
                (node_of s1 (Node.stop (s1.0.node, s1.1)) (node_stop-Ends s1.0.node s1.1))
                (λ v t k. k) (λ e t k. inr (Stuck-at s s1 t on h k)))
              λ v t k. record { holds = all_stopped s s1 t h k })
]
