-- ===== src/KillSwitch/Connection/Teardown.antt =====
-- `LinuxWireGuardConnection::disconnect` of core/killswitch/src/linux_connection.rs: how it ends.
use cyberia_vpn.Prelude.{
  ◌≡◌, refl, ap, ◌⊎◌, inl, inr, none, Bool-cases, Result, ok, err, map_err, subst, ◌∙◌, sym,
}
use cyberia_vpn.Exec.{Ends, Ends-bind, Ends-weaken, continue, mapped, Exec}
use cyberia_vpn.Text.{Text}
use cyberia_vpn.Transport.Types.{TransportError, not_connected}
use cyberia_vpn.Transport.Platform.{World}
use cyberia_vpn.Transport.Calls.{Ends-world}
use cyberia_vpn.Linux.Backend.{is_active}
use cyberia_vpn.Linux.Dns
use cyberia_vpn.Linux.Dns.{LinuxDnsBackend, revert_interface}
use cyberia_vpn.KillSwitch.Nftables.{nftables_firewall}
use cyberia_vpn.KillSwitch.Controller
use cyberia_vpn.KillSwitch.Controller.{ConnectionError, transport_failed}
use cyberia_vpn.KillSwitch.Connection.{
  Connected, on_controller, on_dns, disconnect, linux_transport, LinuxController,
}
use cyberia_vpn.KillSwitch.Controller.Contract.{Refused}
use cyberia_vpn.KillSwitch.Controller.Teardown.{disconnect-Ends, TornDown, TearDownFailed}
use cyberia_vpn.KillSwitch.Connection.Safety.{linux_Obeys}
use cyberia_vpn.KillSwitch.Machine.{tunnel_lost}

pub dns_revert-Ends :
    (interface : Text) (d : LinuxDnsBackend) (w : World)
    → Ends (λ _ s. s.0.active_interface ≡ none) (λ _ s. s.0 ≡ d) (Dns.revert interface (d, w))
unfolding Dns.revert
dns_revert-Ends interface d w = elim (Bool-cases (is_active d.active_interface interface)) [
  | inr off ↦ simp off (record { holds = refl })
  | inl on ↦ simp on (
      Ends-world (revert_interface d.tools interface) _ d w (λ x q. refl)
        λ v p. record { holds = refl })
]

-- The call on the name lookups changes those alone.
pub reverted_of :
    (c : Connected) (r : Result TransportError (Unit {0}) × (LinuxDnsBackend × World))
    → Ends (λ _ s. s.0.active_interface ≡ none) (λ _ s. s.0 ≡ c.0.dns) r
    → Ends {S = Connected}
        (λ _ t. t.0.dns.active_interface ≡ none)
        (λ _ t. t.0 ≡ c.0)
        (map_err transport_failed r.0, (record (c.0) { dns = r.1.0 }, r.1.1))
reverted_of c (ok u, (d, w)) h = record { holds = h.holds }
reverted_of c (err e, (d, w)) h = record {
  holds = ap (λ (x : LinuxDnsBackend). record (c.0) { dns = x }) h.holds;
}

-- A call on the controller leaves the name lookups alone.
module _ {A : Type 0} {Q : A → LinuxController × World → Type 0}
    {R : ConnectionError → LinuxController × World → Type 0} (s : Connected) where
  through :
      (r : Result ConnectionError A × (LinuxController × World))
      → Ends Q R r
      → Ends {S = Connected}
          (λ a t. Q a (t.0.controller, t.1) × (t.0.dns ≡ s.0.dns))
          (λ e t. R e (t.0.controller, t.1) × (t.0.dns ≡ s.0.dns))
          (r.0, (record (s.0) { controller = r.1.0 }, r.1.1))
  through (ok a, t) h = record { holds = (h.holds, refl) }
  through (err e, t) h = record { holds = (h.holds, refl) }

  pub on_controller-Ends :
      (m : Exec ConnectionError (LinuxController × World) A)
      → Ends Q R (m (s.0.controller, s.1))
      → Ends
          (λ a t. Q a (t.0.controller, t.1) × (t.0.dns ≡ s.0.dns))
          (λ e t. R e (t.0.controller, t.1) × (t.0.dns ≡ s.0.dns))
          (on_controller m s)
  on_controller-Ends m h = through (m (s.0.controller, s.1)) h

-- How the controller's `disconnect` ends.
abbrev pub ControllerDown : LinuxController × World → LinuxController × World → Type 0
ControllerDown = TornDown linux_transport nftables_firewall linux_Obeys

abbrev pub ControllerFailed :
    LinuxController × World → ConnectionError → LinuxController × World → Type 0
ControllerFailed s e s' =
    Refused linux_transport nftables_firewall linux_Obeys (tunnel_lost s.0.kill_switch).policy s e
      s'
    ⊎ TearDownFailed linux_transport nftables_firewall linux_Obeys s e s'

-- The resolvers were reverted, and then the controller tore the tunnel down.
pub record Disconnected (c t : Connected) : Type 0 where
  pub between : World
  pub reverts : Dns.revert c.0.interface (c.0.dns, c.1) ≡ (ok tt, (t.0.dns, between))
  pub reverted : t.0.dns.active_interface ≡ none
  pub torn_down : ControllerDown (c.0.controller, between) (t.0.controller, t.1)

-- The resolvers could not be reverted, and nothing else was done.
pub record LookupsFailed (c : Connected) (e : ConnectionError) (t : Connected) : Type 0 where
  pub reason : TransportError
  pub error : e ≡ transport_failed reason
  pub reverts : Dns.revert c.0.interface (c.0.dns, c.1) ≡ (err reason, (c.0.dns, t.1))
  pub kept : t.0 ≡ c.0

-- The resolvers were reverted, the controller failed, and no further call of `disconnect` does anything.
pub record Stuck (c : Connected) (e : ConnectionError) (t : Connected) : Type 0 where
  pub between : World
  pub reverts : Dns.revert c.0.interface (c.0.dns, c.1) ≡ (ok tt, (t.0.dns, between))
  pub reverted : t.0.dns.active_interface ≡ none
  pub failed : ControllerFailed (c.0.controller, between) e (t.0.controller, t.1)
  pub retry : disconnect t ≡ (err (transport_failed not_connected), t)

-- The resolvers were reverted, and the controller was not called yet.
record Reverted (c s : Connected) : Type 0 where
  reverts : Dns.revert c.0.interface (c.0.dns, c.1) ≡ (ok tt, (s.0.dns, s.1))
  reverted : s.0.dns.active_interface ≡ none
  controller : s.0.controller ≡ c.0.controller

abbrev RevertResult : Type 0
RevertResult = Result TransportError (Unit {0}) × (LinuxDnsBackend × World)

revert_called :
    (c : Connected) (r : Result TransportError (Unit {0}) × (LinuxDnsBackend × World))
    → Dns.revert c.0.interface (c.0.dns, c.1) ≡ r
    → Ends (λ _ s. s.0.active_interface ≡ none) (λ _ s. s.0 ≡ c.0.dns) r
    → Ends {S = Connected}
        (λ _. Reverted c)
        (LookupsFailed c)
        (map_err transport_failed r.0, (record (c.0) { dns = r.1.0 }, r.1.1))
revert_called c (ok u, (d, w)) e h = record {
  holds = record { reverts = e; reverted = h.holds; controller = refl };
}
revert_called c (err x, (d, w)) e h = record {
  holds = record {
    reason = x;
    error = refl;
    reverts = e ∙ ap {B = RevertResult} (λ (y : LinuxDnsBackend). (err x, (y, w))) h.holds;
    kept = ap (λ (y : LinuxDnsBackend). record (c.0) { dns = y }) h.holds;
  };
}

-- The controller's part, from the controller as it was.
controller_ends :
    (c s : Connected)
    → Reverted c s
    → Ends
        (λ _. ControllerDown (c.0.controller, s.1))
        (ControllerFailed (c.0.controller, s.1))
        (Controller.disconnect linux_transport nftables_firewall (s.0.controller, s.1))
controller_ends c s h =
    subst
      (λ (k : LinuxController).
        Ends (λ _. ControllerDown (k, s.1)) (ControllerFailed (k, s.1))
          (Controller.disconnect linux_transport nftables_firewall (s.0.controller, s.1)))
      h.controller
      (disconnect-Ends linux_transport nftables_firewall linux_Obeys (s.0.controller, s.1))

revert-none :
    (interface : Text) (d : LinuxDnsBackend) (w : World)
    → d.active_interface ≡ none
    → Dns.revert interface (d, w) ≡ (err not_connected, (d, w))
unfolding Dns.revert
revert-none interface d w e = simp e refl

retry_fails :
    (t : Connected)
    → t.0.dns.active_interface ≡ none
    → disconnect t ≡ (err (transport_failed not_connected), t)
unfolding disconnect
retry_fails t e =
    ap
      (λ (r : Result TransportError (Unit {0}) × (LinuxDnsBackend × World)).
        continue (map_err transport_failed r.0)
          (λ _. on_controller (Controller.disconnect linux_transport nftables_firewall))
          (record (t.0) { dns = r.1.0 }, r.1.1))
      (revert-none t.0.interface t.0.dns t.1 e)

-- A disconnect ends in one of three ways: the resolvers are reverted, and then the controller withdraws the
-- tunnel policy and tears the transport down, all with success; or the call on the name lookups fails, its
-- error is returned, and the connection is as it was; or the resolvers are reverted, the controller's
-- `disconnect` fails, its error is returned, and from then on a disconnect fails at once, without a call, so
-- that the tunnel is not torn down by it.
pub connection_disconnect-Ends :
    (c : Connected)
    → Ends (λ _. Disconnected c) (λ e t. LookupsFailed c e t ⊎ Stuck c e t) (disconnect c)
unfolding disconnect
connection_disconnect-Ends c =
    Ends-bind (mapped transport_failed (on_dns (Dns.revert c.0.interface))) _ c
      (Ends-weaken _
        (revert_called c (Dns.revert c.0.interface (c.0.dns, c.1)) refl
          (dns_revert-Ends c.0.interface c.0.dns c.1))
        (λ u t h. h) (λ e t h. inl h))
      λ u s h.
        Ends-weaken _
          (on_controller-Ends s (Controller.disconnect linux_transport nftables_firewall)
            (controller_ends c s h))
          (λ v t q. record {
            between = s.1;
            reverts =
                h.reverts
                ∙ ap {B = RevertResult} (λ (y : LinuxDnsBackend). (ok tt, (y, s.1))) (sym q.1);
            reverted = ap (λ (y : LinuxDnsBackend). y.active_interface) q.1 ∙ h.reverted;
            torn_down = q.0;
          })
          (λ e t q.
            let reverted = ap (λ (y : LinuxDnsBackend). y.active_interface) q.1 ∙ h.reverted in
            inr (record {
              between = s.1;
              reverts =
                  h.reverts
                  ∙ ap {B = RevertResult} (λ (y : LinuxDnsBackend). (ok tt, (y, s.1))) (sym q.1);
              reverted = reverted;
              failed = q.0;
              retry = retry_fails t reverted;
            }))
