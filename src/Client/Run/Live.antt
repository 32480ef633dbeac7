-- ===== src/Client/Run/Live.antt =====
-- A run of apps/linux-client/src/lib.rs on a platform that hinders nothing: its connection attempt succeeds.
use cyberia_vpn.Prelude.{ℕ, ◌+◌, ◌≡◌, refl, sym, ap, subst, ◌∙◌, some, Result, ok, err, ◌≤◌, le→leb}
use cyberia_vpn.KillSwitch.Connection.Favoured.Calls.{connect-IsOpen}
use cyberia_vpn.Linux.Dns.Favoured.{configure-IsOwned}
use cyberia_vpn.KillSwitch.Connection.{
  after_configure, LinuxController, on_dns, on_controller, LinuxWireGuardConnection, Connected,
  linux_transport,
}
use cyberia_vpn.KillSwitch.Controller.{transport_failed, ConnectionError}
use cyberia_vpn.Client.Run.{returned}
use cyberia_vpn.KillSwitch.Connection.Favoured.Ready.{IsReady}
use cyberia_vpn.Text.{Text}
use cyberia_vpn.Exec.{Ends-mapped, mapped, Ends, Ends-bind, went}
use cyberia_vpn.Transport.Types.{TransportError, ConnectContext}
use cyberia_vpn.Transport.Platform.{World, now}
use cyberia_vpn.Transport.Favoured.{Favours, moved}
use cyberia_vpn.Linux.Dns.{LinuxDnsBackend}
use cyberia_vpn.KillSwitch.Machine
use cyberia_vpn.KillSwitch.Nftables.{nftables_firewall}
use cyberia_vpn.KillSwitch.Controller
use cyberia_vpn.KillSwitch.Connection
use cyberia_vpn.KillSwitch.Connection.Favoured.{IsConnected}
use cyberia_vpn.Routing.Selector.{checked_add, instant_max}

-- The tunnel is open and the resolvers are set.
pub record IsLive (limit : ℕ) (interface : Text) (s : Connected) : Type 0 where
  pub connected : IsConnected interface s.0.controller.transport
  pub named : s.0.interface ≡ interface
  pub owned : s.0.dns.active_interface ≡ some interface
  pub favours : Favours limit s.1

-- A call on the controller that goes through, with the rest of the connection as it was.
pub beside_controller :
    {A : Type 0} {Q : A → LinuxController × World → Type 0} (c : LinuxWireGuardConnection)
    (r : Result ConnectionError A × (LinuxController × World))
    → Ends Q (λ _ _. ⊥) r
    → Ends {S = Connected}
        (λ a s. (s.0 ≡ record c { controller = s.0.controller }) × Q a (s.0.controller, s.1))
        (λ _ _. ⊥)
        (r.0, (record c { controller = r.1.0 }, r.1.1))
beside_controller c (ok a, s) h = record { holds = (refl, h.holds) }
beside_controller c (err e, s) h = absurd h.holds

pub beside_dns :
    {Q : LinuxDnsBackend × World → Type 0} (c : LinuxWireGuardConnection)
    (r : Result TransportError (Unit {0}) × (LinuxDnsBackend × World))
    → Ends (λ _. Q) (λ _ _. ⊥) r
    → Ends {S = Connected}
        (λ a s. (s.0 ≡ record c { dns = s.0.dns }) × Q (s.0.dns, s.1))
        (λ (_ : TransportError) _. ⊥)
        (r.0, (record c { dns = r.1.0 }, r.1.1))
beside_dns c (ok a, s) h = record { holds = (refl, h.holds) }
beside_dns c (err e, s) h = absurd h.holds

-- When the time of an attempt from a world ends.
abbrev pub attempt_end : LinuxWireGuardConnection → World → ℕ
attempt_end c w = w.instants w.step + c.transport.connect_timeout

pub live :
    (limit : ℕ) (interface : Text) (c : LinuxWireGuardConnection) (d : LinuxDnsBackend) (v : World)
    → IsConnected interface c.controller.transport
    → c.interface ≡ interface
    → d.active_interface ≡ some interface
    → Favours limit v
    → IsLive limit interface (record c { dns = d }, v)
live limit interface c d v i n o h = record { connected = i; named = n; owned = o; favours = h }

-- The context of an attempt.
abbrev attempt_context : ℕ → LinuxWireGuardConnection → World → ConnectContext
attempt_context cancellation c w = record {
  deadline = attempt_end c w;
  cancellation = cancellation;
}

connect_under-IsLive :
    (cancellation : ℕ) (c : LinuxWireGuardConnection) (w : World)
    → IsReady c
    → Favours (attempt_end c w) w
    → Ends
        (λ _ s. IsLive (attempt_end c w) c.interface s)
        (λ _ _. ⊥)
        (Connection.connect_under (attempt_context cancellation c w) (c, (now w).1))
unfolding Connection.connect_under now after_configure
connect_under-IsLive cancellation c w r h =
    let context = attempt_context cancellation c w in
    let w0 = (now w).1 in
    Ends-bind
      (on_controller (Controller.connect linux_transport nftables_firewall c.transport context)) _
      (c, w0)
      (beside_controller c
        (Controller.connect linux_transport nftables_firewall c.transport context
          (c.controller, w0))
        (connect-IsOpen c.transport context c.controller w0 r.transport
          (ap Machine.valid_interface r.named ∙ r.valid) (moved w _ _ h)))
      (λ session s k.
        let (u, q, z) = went _ (
          configure-IsOwned c.interface c.dns_config context s.0.dns s.1
            (ap (λ (x : LinuxWireGuardConnection). x.dns.active_interface) k.0 ∙ r.free) r.dns_valid
            r.dns k.1.1) in
        let up = subst (λ i. IsConnected i s.0.controller.transport) r.named k.1.0 in
        rw q (record {
          holds =
              live (attempt_end c w) c.interface s.0 _ _ up
                (ap (λ (x : LinuxWireGuardConnection). x.interface) k.0) z.0 z.1;
        }))

-- The end of the time is an `Instant`, so that the attempt does not panic.
connect_lem :
    (cancellation : ℕ) (c : LinuxWireGuardConnection) (w : World)
    → attempt_end c w ≤ instant_max
    → Connection.connect cancellation (c, w)
      ≡ mapped returned (Connection.connect_under (attempt_context cancellation c w)) (c, (now w).1)
unfolding Connection.connect now checked_add
connect_lem cancellation c w h = rw (le→leb (attempt_end c w) instant_max h) refl

pub connect-IsLive :
    (cancellation : ℕ) (c : LinuxWireGuardConnection) (w : World)
    → IsReady c
    → attempt_end c w ≤ instant_max
    → Favours (attempt_end c w) w
    → Ends
        (λ _ s. IsLive (attempt_end c w) c.interface s)
        (λ _ _. ⊥)
        (Connection.connect cancellation (c, w))
connect-IsLive cancellation c w r fits h =
    subst (Ends (λ _ s. IsLive (attempt_end c w) c.interface s) (λ _ _. ⊥))
      (sym (connect_lem cancellation c w fits))
      (Ends-mapped returned _ (connect_under-IsLive cancellation c w r h))
