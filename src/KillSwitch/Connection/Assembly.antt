-- ===== src/KillSwitch/Connection/Assembly.antt =====
-- Assembling a connection, of core/killswitch/src/linux_connection.rs: every test comes before the first
-- ruleset, and a connection that exists blocks.
use cyberia_vpn.Prelude.{map_ok, ◌≡◌, refl, ◌∙◌, Bool, false, Option, arith, Result, ok, err, ok_or}
use cyberia_vpn.Exec.{
  Exec, Ends, Ends-bind, Ends-both, Ends-weaken, Ends-mapped, lift, mapped, ◌>>=◌,
}
use cyberia_vpn.Text.{Text}
use cyberia_vpn.Net.Parse.{parse_ip}
use cyberia_vpn.Transport.Types
use cyberia_vpn.Transport.Platform.{World}
use cyberia_vpn.Transport.Dns
use cyberia_vpn.WireGuard.Adapter
use cyberia_vpn.WireGuard.Adapter.{WireGuardAdapter}
use cyberia_vpn.Linux.Backend
use cyberia_vpn.Linux.Backend.{LinuxWireGuardBackend}
use cyberia_vpn.Linux.Dns as LinuxDns
use cyberia_vpn.KillSwitch.Machine
use cyberia_vpn.KillSwitch.Machine.{block_non_tunnel}
use cyberia_vpn.KillSwitch.Nftables.{NftablesBackend, nftables_firewall, new_runner}
use cyberia_vpn.KillSwitch.Nftables.Effect.{effective_policy, nftables_apply-Ends}
use cyberia_vpn.KillSwitch.Controller
use cyberia_vpn.KillSwitch.Controller.{FirewallError}
use cyberia_vpn.KillSwitch.Nftables.Quiet.{Quiet, world_rules}
use cyberia_vpn.KillSwitch.Connection.{linux_transport}
use cyberia_vpn.KillSwitch.Connection.Checks.{backend-Quiet, dns-Quiet, runner-Quiet}
use cyberia_vpn.KillSwitch.Connection.Build.{
  LinuxConnectionSettings, endpoint_must_be_ip_address, firewall_failed, nftables_failed,
  transport_failed, transport_of, with_runners, system,
}
use cyberia_vpn.KillSwitch.Connection.Safety.{IsSecured}

-- A test in front of the rest of a constructor.
quietly :
    {E A B : Type 0} {P : B → World → Type 0} (before : Option Text) (m : Exec E World A)
    (f : A → Exec E World B) (w : World)
    → Quiet world_rules m
    → world_rules w ≡ before
    → ((a : A) (v : World)
        → world_rules v ≡ before
        → Ends P (λ _ v. world_rules v ≡ before) (f a v))
    → Ends P (λ _ v. world_rules v ≡ before) ((m >>= f) w)
quietly before m f w q h k =
    Ends-bind {Q = λ _ v. world_rules v ≡ before} m f w
      (Ends-both (m w).0 (m w).1 (λ a. q.holds w ∙ h) (λ e. q.holds w ∙ h)) k

started :
    (b : Bool) (adapter : WireGuardAdapter LinuxWireGuardBackend) (before : Option Text)
    (r : Result FirewallError (Unit {0}) × (NftablesBackend × World))
    → Ends (λ _ s. effective_policy s.0 s.1 ≡ block_non_tunnel) (λ _ s. world_rules s.1 ≡ before) r
    → Ends
        (λ c v. IsSecured b c v)
        (λ _ v. world_rules v ≡ before)
        (
          map_ok
              (λ _. record {
                kill_switch = record { always_on = b; policy = block_non_tunnel };
                transport = adapter;
                firewall = r.1.0;
                transport_may_be_active = false;
              })
              r.0,
          r.1.1,
        )
started b adapter before (err x, s) h = record { holds = h.holds }
started b adapter before (ok u, s) h = record {
  holds = record {
    effective = h.holds;
    armed = λ _. refl;
    owned = λ q. ground (arith, q);
    always_on = refl;
  };
}

-- The first policy of a connection, which blocks, is in effect once its controller exists.
controller-Ends :
    (b : Bool) (adapter : WireGuardAdapter LinuxWireGuardBackend) (firewall : NftablesBackend)
    (before : Option Text) (w : World)
    → world_rules w ≡ before
    → Ends
        (λ c v. IsSecured b c v)
        (λ _ v. world_rules v ≡ before)
        (Controller.new linux_transport nftables_firewall
          (Machine.enable (Machine.new b))
          adapter
          firewall
          w)
unfolding Controller.new Machine.enable Machine.new
controller-Ends b adapter firewall before w h =
    started b adapter before (nftables_firewall.apply block_non_tunnel (firewall, w)) (
      Ends-weaken _ (nftables_apply-Ends block_non_tunnel firewall w) (λ u s q. q)
        (λ x s q. q.1 ∙ h))

-- The last step puts the first policy in effect, or leaves the ruleset alone.
with_runners-Ends :
    (settings : LinuxConnectionSettings) (before : Option Text) (w : World)
    → world_rules w ≡ before
    → Ends
        (λ c v. IsSecured settings.always_on c.controller v)
        (λ _ v. world_rules v ≡ before)
        (with_runners settings w)
unfolding with_runners
with_runners-Ends settings before w h =
    quietly before
      (lift (ok_or (parse_ip settings.profile.endpoint.host) endpoint_must_be_ip_address)) _ w
      (record { holds = λ v. refl }) h
      λ address w1 h1.
        quietly before (mapped transport_failed (lift (Types.validate (transport_of settings)))) _
          w1 (record { holds = λ v. refl }) h1
          λ u w2 h2.
            quietly before (mapped transport_failed (lift (Dns.validate settings.dns))) _ w2
              (record { holds = λ v. refl }) h2
              λ u w3 h3.
                quietly before
                  (mapped transport_failed (Backend.new settings.tools settings.routing_mark)) _ w3
                  (record {
                    holds =
                        (backend-Quiet world_rules (λ v. refl) settings.tools
                          settings.routing_mark).holds;
                  })
                  h3
                  λ backend w4 h4.
                    quietly before
                      (mapped transport_failed
                        (lift (Adapter.new settings.interface settings.profile backend)))
                      _ w4 (record { holds = λ v. refl }) h4
                      λ adapter w5 h5.
                        quietly before (mapped transport_failed (LinuxDns.new settings.dns_tools)) _
                          w5
                          (record {
                            holds = (dns-Quiet world_rules (λ v. refl) settings.dns_tools).holds;
                          })
                          h5
                          λ dns w6 h6.
                            Ends-bind
                              (mapped firewall_failed (
                                Controller.new linux_transport nftables_firewall
                                  (Machine.enable (Machine.new settings.always_on)) adapter _))
                              _ w6
                              (Ends-mapped firewall_failed _
                                (controller-Ends settings.always_on adapter _ before w6 h6))
                              λ c v q. record { holds = q }

-- A connection that exists blocks what does not go through its tunnel; one that could not be assembled has
-- left the ruleset alone.
pub system-Ends :
    (settings : LinuxConnectionSettings) (nft : Text) (w : World)
    → Ends
        (λ c v. IsSecured settings.always_on c.controller v)
        (λ _ v. world_rules v ≡ world_rules w)
        (system settings nft w)
unfolding system
system-Ends settings nft w =
    quietly (world_rules w) (mapped nftables_failed (new_runner nft)) _ w
      (record { holds = (runner-Quiet world_rules (λ v. refl) nft).holds }) refl
      λ u v h. with_runners-Ends settings (world_rules w) v h
