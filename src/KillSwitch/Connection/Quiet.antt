-- ===== src/KillSwitch/Connection/Quiet.antt =====
-- `LinuxWireGuardBackend` of core/transport/src/linux.rs, and the adapter of core/transport/src/wireguard.rs
-- over it, leave the ruleset that nftables has alone.
use cyberia_vpn.Prelude.{
  ℕ, ◌≡◌, refl, ◌∙◌, inl, inr, List, [], ◌∷◌, ◌==◌, ◌||◌, not, is_some, Result, Result-cases, ok,
  err,
}
use cyberia_vpn.Text.{Text}
use cyberia_vpn.Exec.{Exec, lift}
use cyberia_vpn.Transport.Types
use cyberia_vpn.Transport.Types.{TransportError, TransportConfig, ConnectContext}
use cyberia_vpn.Transport.Platform.{World, now, call, command, on_world, self}
use cyberia_vpn.Transport.Context.{check, observe}
use cyberia_vpn.WireGuard.Profile.{AllowedIp, TunnelAddress, WireGuardConfig}
use cyberia_vpn.WireGuard.Adapter
use cyberia_vpn.WireGuard.Adapter.{
  WireGuardAdapter, on_backend, session, is_wire_guard, endpoint_eq,
}
use cyberia_vpn.Linux.Health.{linux_backend}
use cyberia_vpn.Linux.Tools.{LinuxTools}
use cyberia_vpn.Linux.Commands.{
  PolicyRule, not_firewall_mark, suppress_default, AddressFamily, push, create_interface,
  delete_interface, add_addresses, replace_default_route, add_mark_rule, add_suppress_rule,
  configure, install_default, install_route, install_routes, remove_policy_rule,
  remove_policy_rules,
}
use cyberia_vpn.Linux.Backend.{
  LinuxWireGuardBackend, is_active, rollback_setup, set_up, settle, build, bring_up,
  remove_active_rules, bring_down,
}
use cyberia_vpn.KillSwitch.Nftables.Ruleset.{loaded}
use cyberia_vpn.KillSwitch.Nftables.Quiet.{
  Quiet, world_rules, object_rules, Quiet-bind, Quiet-if, Quiet-on_world, Quiet-command,
  Quiet-check,
}

module _ (tools : LinuxTools) where
  delete_interface-Quiet : (interface : Text) → Quiet world_rules (delete_interface tools interface)
  unfolding delete_interface
  delete_interface-Quiet interface = Quiet-command _ _

  create_interface-Quiet : (interface : Text) → Quiet world_rules (create_interface tools interface)
  unfolding create_interface
  create_interface-Quiet interface = Quiet-command _ _

  add_addresses-Quiet :
      (interface : Text) (context : ConnectContext) (addresses : List TunnelAddress)
      → Quiet world_rules (add_addresses tools interface context addresses)
  unfolding add_addresses
  add_addresses-Quiet interface context [] = record { holds = λ w. refl }
  add_addresses-Quiet interface context (a ∷ rest) =
      Quiet-bind world_rules (check context) _ (Quiet-check context) λ u.
        Quiet-bind world_rules _ _ (Quiet-command _ _)
          λ v. add_addresses-Quiet interface context rest

module _ (tools : LinuxTools) (mark : ℕ) where
  configure-Quiet :
      (interface : Text) (profile : WireGuardConfig) (context : ConnectContext)
      → Quiet world_rules (configure tools mark interface profile context)
  unfolding configure
  configure-Quiet interface profile context =
      Quiet-bind world_rules (check context) _ (Quiet-check context) λ u.
        Quiet-bind world_rules _ _ (Quiet-command _ _) λ v.
          Quiet-bind world_rules _ _
            (add_addresses-Quiet tools interface context profile.tunnel_addresses)
            λ x.
              Quiet-bind world_rules (check context) _ (Quiet-check context) λ y. Quiet-command _ _

  replace-Quiet :
      (interface : Text) (family : AddressFamily)
      → Quiet world_rules (replace_default_route tools mark interface family)
  unfolding replace_default_route
  replace-Quiet interface family = Quiet-command _ _

  mark-Quiet : (family : AddressFamily) → Quiet world_rules (add_mark_rule tools mark family)
  unfolding add_mark_rule
  mark-Quiet family = Quiet-command _ _

  suppress-Quiet :
      (family : AddressFamily) → Quiet world_rules (add_suppress_rule tools mark family)
  unfolding add_suppress_rule
  suppress-Quiet family = Quiet-command _ _

  push-Quiet : (rule : PolicyRule) → Quiet object_rules (push tools mark rule)
  push-Quiet rule = record { holds = λ s. refl }

  default-Quiet :
      (interface : Text) (family : AddressFamily)
      → Quiet object_rules (install_default tools mark interface family)
  unfolding install_default
  default-Quiet interface family =
      Quiet-bind object_rules (on_world (replace_default_route tools mark interface family)) _
        (Quiet-on_world _ (replace-Quiet interface family))
        λ u.
          Quiet-bind object_rules (on_world (add_mark_rule tools mark family)) _
            (Quiet-on_world _ (mark-Quiet family))
            λ v.
              Quiet-bind object_rules (push tools mark (not_firewall_mark family)) _ (push-Quiet _)
                λ x.
                  Quiet-bind object_rules (on_world (add_suppress_rule tools mark family)) _
                    (Quiet-on_world _ (suppress-Quiet family))
                    λ y. push-Quiet (suppress_default family)

  route-Quiet :
      (interface : Text) (context : ConnectContext) (n : AllowedIp)
      → Quiet object_rules (install_route tools mark interface context n)
  unfolding install_route
  route-Quiet interface context n =
      Quiet-bind object_rules (on_world (check context)) _ (Quiet-on_world _ (Quiet-check context))
        λ u.
          Quiet-if object_rules (n.prefix_length == 0) _ _ (default-Quiet interface _)
            (Quiet-on_world _ (Quiet-command _ _))

  routes-Quiet :
      (interface : Text) (context : ConnectContext) (ns : List AllowedIp)
      → Quiet object_rules (install_routes tools mark interface context ns)
  unfolding install_routes
  routes-Quiet interface context [] = record { holds = λ s. refl }
  routes-Quiet interface context (n ∷ ns) =
      Quiet-bind object_rules (install_route tools mark interface context n) _
        (route-Quiet interface context n) λ u. routes-Quiet interface context ns

  remove_rule-Quiet : (rule : PolicyRule) → Quiet world_rules (remove_policy_rule tools mark rule)
  unfolding remove_policy_rule
  remove_rule-Quiet rule = Quiet-command _ _

  remove_rules-quiet :
      (rules : List PolicyRule) (w : World)
      → world_rules (remove_policy_rules tools mark rules w).1.1 ≡ world_rules w
  unfolding remove_policy_rules remove_policy_rule loaded command call
  remove_rules-quiet [] w = refl
  remove_rules-quiet (rule ∷ rules) w =
      let removed = remove_policy_rule tools mark rule w in
      elim (Result-cases removed.0) [
        | inl (a, e) ↦ rw e (remove_rules-quiet rules removed.1 ∙ (remove_rule-Quiet rule).holds w)
        | inr (x, e) ↦ rw e ((remove_rule-Quiet rule).holds w)
      ]

  set_up-quiet :
      (interface : Text) (profile : WireGuardConfig) (context : ConnectContext) (w : World)
      → world_rules (set_up tools mark interface profile context w).1.1 ≡ world_rules w
  unfolding set_up
  set_up-quiet interface profile context w =
      (Quiet-bind object_rules (on_world (configure tools mark interface profile context)) _
          (Quiet-on_world _ (configure-Quiet interface profile context))
          λ u. routes-Quiet interface context profile.allowed_ips).holds
        ([], w)

  rollback-quiet :
      (interface : Text) (rules : List PolicyRule) (error : TransportError) (w : World)
      → world_rules (rollback_setup tools mark interface rules error w).1 ≡ world_rules w
  unfolding rollback_setup
  rollback-quiet interface rules error w =
      (delete_interface-Quiet tools interface).holds _ ∙ remove_rules-quiet rules w

settle-quiet :
    (b : LinuxWireGuardBackend) (interface : Text)
    (r : Result TransportError (Unit {0}) × (List PolicyRule × World))
    → object_rules (settle b interface r).1 ≡ world_rules r.1.1
unfolding settle
settle-quiet b interface (ok u, s) = refl
settle-quiet b interface (err e, (rules, w)) =
    rollback-quiet b.tools b.routing_mark interface rules e w

build-Quiet :
    (interface : Text) (profile : WireGuardConfig) (context : ConnectContext)
    → Quiet object_rules (build interface profile context)
unfolding build
build-Quiet interface profile context = record {
  holds = λ s.
      settle-quiet s.0 interface _
      ∙ set_up-quiet s.0.tools s.0.routing_mark interface profile context s.1;
}

pub bring_up-Quiet :
    (interface : Text) (profile : WireGuardConfig) (context : ConnectContext)
    → Quiet object_rules (bring_up interface profile context)
unfolding bring_up
bring_up-Quiet interface profile context =
    Quiet-bind object_rules self _ (record { holds = λ s. refl })
      λ b.
        Quiet-if object_rules (is_some b.active_interface) _ _ (record { holds = λ s. refl })
          (Quiet-bind object_rules (on_world (check context)) _
            (Quiet-on_world _ (Quiet-check context))
            λ u.
              Quiet-bind object_rules (on_world (create_interface b.tools interface)) _
                (Quiet-on_world _ (create_interface-Quiet b.tools interface))
                λ v. build-Quiet interface profile context)

remove_active-Quiet : Quiet object_rules remove_active_rules
unfolding remove_active_rules
remove_active-Quiet = record {
  holds = λ s. remove_rules-quiet s.0.tools s.0.routing_mark s.0.active_rules s.1;
}

pub bring_down-Quiet : (interface : Text) → Quiet object_rules (bring_down interface)
unfolding bring_down
bring_down-Quiet interface =
    Quiet-bind object_rules self _ (record { holds = λ s. refl })
      λ b.
        Quiet-if object_rules (not (is_active b.active_interface interface)) _ _
          (record { holds = λ s. refl })
          (Quiet-bind object_rules remove_active_rules _ remove_active-Quiet λ u.
            Quiet-bind object_rules (on_world (delete_interface b.tools interface)) _
              (Quiet-on_world _ (delete_interface-Quiet b.tools interface))
              λ v. record { holds = λ s. refl })

module _ {B : Type 0} where
  on_backend-Quiet :
      (m : Exec TransportError (B × World) (Unit {0}))
      → Quiet object_rules m
      → Quiet object_rules (on_backend m)
  on_backend-Quiet m q = record { holds = λ s. q.holds (s.0.backend, s.1) }

pub adapter_connect-Quiet :
    (config : TransportConfig) (context : ConnectContext)
    → Quiet object_rules (Adapter.connect linux_backend config context)
unfolding Adapter.connect session observe now linux_backend
adapter_connect-Quiet config context =
    Quiet-bind object_rules self _ (record { holds = λ s. refl })
      λ a.
        Quiet-if object_rules a.connected _ _ (record { holds = λ s. refl })
          (Quiet-if object_rules
            (not (is_wire_guard config.kind)
              || not (endpoint_eq config.endpoint a.profile.endpoint))
            _ _ (record { holds = λ s. refl })
            (Quiet-bind object_rules (lift (Types.validate config)) _ (record { holds = λ s. refl })
              λ u.
                Quiet-bind object_rules (on_world (check context)) _
                  (Quiet-on_world _ (Quiet-check context))
                  λ v.
                    Quiet-bind object_rules (on_backend (bring_up a.interface a.profile context)) _
                      (on_backend-Quiet _ (bring_up-Quiet a.interface a.profile context))
                      λ x. record { holds = λ s. refl }))

pub adapter_disconnect-Quiet : Quiet object_rules (Adapter.disconnect linux_backend)
unfolding Adapter.disconnect linux_backend
adapter_disconnect-Quiet =
    Quiet-bind object_rules self _ (record { holds = λ s. refl })
      λ a.
        Quiet-if object_rules (not a.connected) _ _ (record { holds = λ s. refl })
          (Quiet-bind object_rules (on_backend (bring_down a.interface)) _
            (on_backend-Quiet _ (bring_down-Quiet a.interface)) λ x. record { holds = λ s. refl })
