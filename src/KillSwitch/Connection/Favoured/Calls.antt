-- ===== src/KillSwitch/Connection/Favoured/Calls.antt =====
-- The calls of the controller of core/killswitch/src/lib.rs on a platform that hinders nothing: they succeed.
use cyberia_vpn.Prelude.{ℕ, ◌≡◌, refl, sym, ap, subst, ◌∙◌, Bool, true, false, ok}
use cyberia_vpn.Exec.{◌>>=◌, mapped, Ends, Ends-bind, went}
use cyberia_vpn.KillSwitch.Controller.{
  on_transport, transport_failed, ConnectionError, accept_tunnel, accept_policy,
}
use cyberia_vpn.KillSwitch.Connection.Favoured.{
  adapter_disconnect-Closed, adapter_connect-Opened, beside, lost_rules, MayConnect, IsConnected,
  IsOpen, apply-Same,
}
use cyberia_vpn.KillSwitch.Machine
use cyberia_vpn.KillSwitch.Machine.{
  disabled, KillSwitch, tunnel_lost, is_tunnel_only, enable, TrafficPolicy, block_non_tunnel,
  tunnel_only, tunnel_established, valid_interface,
}
use cyberia_vpn.WireGuard.Adapter
use cyberia_vpn.Text.{Text}
use cyberia_vpn.Transport.Types.{TransportConfig, ConnectContext, Session}
use cyberia_vpn.Transport.Platform.{World}
use cyberia_vpn.Transport.Favoured.{Favours}
use cyberia_vpn.WireGuard.Adapter.{WireGuardAdapter, adapter_transport}
use cyberia_vpn.Linux.Backend.{LinuxWireGuardBackend}
use cyberia_vpn.Linux.Health.{linux_backend}
use cyberia_vpn.KillSwitch.Nftables.{NftablesConfig, nftables_firewall, render}
use cyberia_vpn.KillSwitch.Controller
use cyberia_vpn.KillSwitch.Controller.Connect.{established_lem}
use cyberia_vpn.KillSwitch.Connection.{LinuxController, linux_transport}
use cyberia_vpn.KillSwitch.Connection.Safety.{linux_Obeys}

-- A valid name is rendered.
tunnel_rules :
    (config : NftablesConfig) (id : Text)
    → valid_interface id ≡ true
    → (t : Text) × (render config (tunnel_only id) ≡ ok t)
unfolding render
tunnel_rules config id v = rw v (_, refl)

accepted :
    (limit : ℕ) (interface : Text) (session : Session) (c : LinuxController) (w : World)
    → valid_interface session.id ≡ true
    → c.kill_switch.policy ≡ block_non_tunnel
    → IsConnected interface c.transport
    → Favours limit w
    → Ends
        (λ _ s. IsOpen limit interface s)
        (λ _ _. ⊥)
        (accept_tunnel linux_transport nftables_firewall session
          (tunnel_established session.id c.kill_switch)
          (c, w))
unfolding accept_tunnel accept_policy
accepted limit interface session c w v p i h =
    let (rules, r) = tunnel_rules c.firewall.config session.id v in
    let (u, e, q) = went _ (apply-Same limit (tunnel_only session.id) rules c w r h) in
    rw (established_lem linux_transport nftables_firewall linux_Obeys session.id c.kill_switch p, v)
      (rw e (record {
        holds =
            (subst (λ (x : LinuxController). IsConnected interface x.transport) (sym q.0) i, q.1);
      }))

disabled_rules : (config : NftablesConfig) → (t : Text) × (render config disabled ≡ ok t)
unfolding render
disabled_rules config = (_, refl)

block_rules : (config : NftablesConfig) → (t : Text) × (render config block_non_tunnel ≡ ok t)
unfolding render
block_rules config = (_, refl)

-- The state from which the transport connects.
abbrev arm : LinuxController → LinuxController
arm c = record c { kill_switch = enable c.kill_switch; transport_may_be_active = true }

armed_policy :
    (c d : LinuxController)
    → d ≡ record (arm c) { transport = d.transport }
    → d.kill_switch.policy ≡ block_non_tunnel
unfolding enable
armed_policy c d e = ap (λ (x : LinuxController). x.kill_switch.policy) e

connected :
    (config : TransportConfig) (context : ConnectContext) (c d : LinuxController) (w : World)
    → MayConnect config d.transport
    → d ≡ c
    → valid_interface d.transport.interface ≡ true
    → Favours context.deadline w
    → Ends
        (λ _ s. IsOpen context.deadline d.transport.interface s)
        (λ _ _. ⊥)
        ((mapped transport_failed (on_transport (Adapter.connect linux_backend config context))
            >>= λ session. Controller.this >>= λ b.
                accept_tunnel linux_transport nftables_firewall session
                  (tunnel_established session.id b.kill_switch))
          (record d { kill_switch = enable c.kill_switch; transport_may_be_active = true }, w))
unfolding enable
connected config context c d w m same v h =
    let armed : LinuxController = record d {
      kill_switch = enable c.kill_switch;
      transport_may_be_active = true;
    } in
    Ends-bind
      (mapped transport_failed (on_transport (Adapter.connect linux_backend config context))) _
      (armed, w)
      (beside context.deadline armed (Adapter.connect linux_backend config context (d.transport, w))
        (adapter_connect-Opened config context d.transport w m h))
      (λ session s q.
        accepted context.deadline d.transport.interface session s.0 s.1
          (ap valid_interface q.1.0 ∙ v) (ap (λ (x : LinuxController). x.kill_switch.policy) q.0)
          q.1.1 q.1.2)

pub connect-IsOpen :
    (config : TransportConfig) (context : ConnectContext) (c : LinuxController) (w : World)
    → MayConnect config c.transport
    → valid_interface c.transport.interface ≡ true
    → Favours context.deadline w
    → Ends
        (λ _ s. IsOpen context.deadline c.transport.interface s)
        (λ _ _. ⊥)
        (Controller.connect linux_transport nftables_firewall config context (c, w))
unfolding Controller.connect enable adapter_transport
connect-IsOpen config context c w m v h =
    Ends-bind (Controller.apply linux_transport nftables_firewall block_non_tunnel) _ (c, w)
      (apply-Same context.deadline block_non_tunnel (block_rules c.firewall.config).0 c w
        (block_rules c.firewall.config).1 h)
      (λ u s1 k.
        let t = ap (λ (x : LinuxController). x.transport) k.0 in
        subst
          (λ (a : WireGuardAdapter LinuxWireGuardBackend).
            Ends (λ _ s. IsOpen context.deadline a.interface s) (λ _ _. ⊥)
              ((mapped transport_failed
                    (on_transport (Adapter.connect linux_backend config context))
                  >>= λ session. Controller.this >>= λ b.
                      accept_tunnel linux_transport nftables_firewall session
                        (tunnel_established session.id b.kill_switch))
                (
                  record (s1.0) {
                    kill_switch = enable c.kill_switch;
                    transport_may_be_active = true;
                  },
                  s1.1,
                )))
          t
          (connected config context c s1.0 s1.1 (subst (MayConnect config) (sym t) m) k.0
            (subst
              (λ (a : WireGuardAdapter LinuxWireGuardBackend). valid_interface a.interface ≡ true)
              (sym t) v)
            k.1))

-- The tunnel is down, and filtering may be switched off if it is not forced.
pub record IsShut (limit : ℕ) (forced : Bool) (s : LinuxController × World) : Type 0 where
  pub inactive : s.0.transport_may_be_active ≡ false
  pub no_tunnel : is_tunnel_only s.0.kill_switch.policy ≡ false
  pub always_on : s.0.kill_switch.always_on ≡ forced
  pub favours : Favours limit s.1

lost :
    (b : Bool) (p : TrafficPolicy)
    → let k = tunnel_lost (record { always_on = b; policy = p }) in
      (is_tunnel_only k.policy ≡ false) × (k.always_on ≡ b)
unfolding tunnel_lost
lost b disabled = (refl, refl)
lost b block_non_tunnel = (refl, refl)
lost b (tunnel_only i) = (refl, refl)

pub disconnect-IsShut :
    (interface : Text) (limit : ℕ) (c : LinuxController) (w : World)
    → IsConnected interface c.transport
    → Favours limit w
    → Ends
        (λ _ s. IsShut limit c.kill_switch.always_on s)
        (λ _ _. ⊥)
        (Controller.disconnect linux_transport nftables_firewall (c, w))
unfolding Controller.disconnect adapter_transport
disconnect-IsShut interface limit c w i h =
    let k = c.kill_switch in
    let (rules, r) = lost_rules limit c.firewall.config k.always_on k.policy in
    Ends-bind (Controller.apply linux_transport nftables_firewall (tunnel_lost k).policy) _ (c, w)
      (apply-Same limit (tunnel_lost k).policy rules c w r h)
      (λ u s1 q.
        let retracted : LinuxController = record (s1.0) { kill_switch = tunnel_lost k } in
        let up = subst (λ (x : LinuxController). IsConnected interface x.transport) (sym q.0) i in
        Ends-bind (mapped transport_failed (on_transport (Adapter.disconnect linux_backend))) _
          (retracted, s1.1)
          (beside limit retracted (Adapter.disconnect linux_backend (s1.0.transport, s1.1))
            (adapter_disconnect-Closed interface limit s1.0.transport s1.1 up q.1))
          (λ v s2 z.
            let same = ap (λ (x : LinuxController). x.kill_switch) z.0 in
            record {
              holds = record {
                inactive = refl;
                no_tunnel =
                    ap (λ (x : KillSwitch). is_tunnel_only x.policy) same
                    ∙ (lost k.always_on k.policy).0;
                always_on =
                    ap (λ (x : KillSwitch). x.always_on) same ∙ (lost k.always_on k.policy).1;
                favours = z.1;
              };
            }))

pub disable-Goes :
    (limit : ℕ) (c : LinuxController) (w : World)
    → IsShut limit false (c, w)
    → Ends
        (λ _ s. Favours limit s.1)
        (λ _ _. ⊥)
        (Controller.disable linux_transport nftables_firewall (c, w))
unfolding Controller.disable Machine.disable
disable-Goes limit c w h =
    simp (h.inactive, h.no_tunnel, h.always_on)
      (Ends-bind (Controller.apply linux_transport nftables_firewall disabled) _ (c, w)
        (apply-Same limit disabled (disabled_rules c.firewall.config).0 c w
          (disabled_rules c.firewall.config).1 h.favours)
        (λ u s q. record { holds = q.1 }))
