-- ===== src/KillSwitch/Connection/Lookups.antt =====
-- `LinuxDnsBackend` of core/transport/src/linux.rs leaves the ruleset that nftables has alone.
use cyberia_vpn.Prelude.{refl, not, is_some, Result, ok, err}
use cyberia_vpn.Exec.{lift, attempt}
use cyberia_vpn.Text.{Text}
use cyberia_vpn.Transport.Types.{TransportError, ConnectContext}
use cyberia_vpn.Transport.Platform.{on_world, self}
use cyberia_vpn.Transport.Context.{check}
use cyberia_vpn.Transport.Dns
use cyberia_vpn.Transport.Dns.{DnsConfig}
use cyberia_vpn.Linux.Tools.{LinuxDnsTools, valid_interface}
use cyberia_vpn.Linux.Backend.{is_active}
use cyberia_vpn.Linux.Dns.{
  revert_interface, set_up_dns, after_cleanup, after_setup, configure, revert,
}
use cyberia_vpn.KillSwitch.Nftables.Quiet.{
  Quiet, world_rules, object_rules, Quiet-bind, Quiet-if, Quiet-on_world, Quiet-command,
  Quiet-check,
}

module _ (tools : LinuxDnsTools) where
  revert_interface-Quiet : (interface : Text) → Quiet world_rules (revert_interface tools interface)
  unfolding revert_interface
  revert_interface-Quiet interface = Quiet-command _ _

  set_up_dns-Quiet :
      (interface : Text) (config : DnsConfig) (context : ConnectContext)
      → Quiet world_rules (set_up_dns tools interface config context)
  unfolding set_up_dns
  set_up_dns-Quiet interface config context = Quiet-bind world_rules _ _ (Quiet-command _ _) λ u.
      Quiet-bind world_rules (check context) _ (Quiet-check context) λ v.
        Quiet-bind world_rules _ _ (Quiet-command _ _)
          λ x. Quiet-bind world_rules (check context) _ (Quiet-check context) λ y. Quiet-command _ _

after_cleanup-Quiet :
    (interface : Text) (error : TransportError) (r : Result TransportError (Unit {0}))
    → Quiet object_rules (after_cleanup interface error r)
unfolding after_cleanup
after_cleanup-Quiet interface error (ok u) = record { holds = λ s. refl }
after_cleanup-Quiet interface error (err e) = record { holds = λ s. refl }

after_setup-Quiet :
    (interface : Text) (r : Result TransportError (Unit {0}))
    → Quiet object_rules (after_setup interface r)
unfolding after_setup
after_setup-Quiet interface (ok u) = record { holds = λ s. refl }
after_setup-Quiet interface (err e) =
    Quiet-bind object_rules self _ (record { holds = λ s. refl })
      λ d.
        Quiet-bind object_rules (attempt (on_world (revert_interface d.tools interface))) _
          (record { holds = λ s. (revert_interface-Quiet d.tools interface).holds s.1 })
          λ r. after_cleanup-Quiet interface e r

pub configure-Quiet :
    (interface : Text) (config : DnsConfig) (context : ConnectContext)
    → Quiet object_rules (configure interface config context)
unfolding configure
configure-Quiet interface config context =
    Quiet-bind object_rules self _ (record { holds = λ s. refl })
      λ d.
        Quiet-if object_rules (is_some d.active_interface) _ _ (record { holds = λ s. refl })
          (Quiet-if object_rules (not (valid_interface interface)) _ _
            (record { holds = λ s. refl })
            (Quiet-bind object_rules (lift (Dns.validate config)) _ (record { holds = λ s. refl })
              λ u.
                Quiet-bind object_rules (on_world (check context)) _
                  (Quiet-on_world _ (Quiet-check context))
                  λ v.
                    Quiet-bind object_rules
                      (attempt (on_world (set_up_dns d.tools interface config context))) _
                      (record {
                        holds = λ s. (set_up_dns-Quiet d.tools interface config context).holds s.1;
                      })
                      λ r. after_setup-Quiet interface r))

pub revert-Quiet : (interface : Text) → Quiet object_rules (revert interface)
unfolding revert
revert-Quiet interface =
    Quiet-bind object_rules self _ (record { holds = λ s. refl })
      λ d.
        Quiet-if object_rules (not (is_active d.active_interface interface)) _ _
          (record { holds = λ s. refl })
          (Quiet-bind object_rules (on_world (revert_interface d.tools interface)) _
            (Quiet-on_world _ (revert_interface-Quiet d.tools interface))
            λ v. record { holds = λ s. refl })
