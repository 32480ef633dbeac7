-- ===== src/Linux/Commands.antt =====
-- core/transport/src/linux.rs: the commands by which `LinuxWireGuardBackend` configures an interface and
-- installs and removes its routes and policy rules. The vector of rules is kept with its last element first.
use cyberia_vpn.Prelude.{
  ℕ, Option, none, some, List, [], ◌∷◌, ◌++◌, ◌==◌, if◌then◌else◌, Result, ok, err,
}
use cyberia_vpn.Exec.{Exec, pure, ◌>>◌}
use cyberia_vpn.Text.{Text, lit, decimal}
use cyberia_vpn.Net.{is_ipv4}
use cyberia_vpn.Transport.Types.{TransportError, ConnectContext}
use cyberia_vpn.Transport.Platform.{World, command, on_world}
use cyberia_vpn.Transport.Context.{check}
use cyberia_vpn.WireGuard.Profile.{AllowedIp, TunnelAddress, WireGuardConfig}
use cyberia_vpn.Linux.Tools.{
  LinuxTools, show_tunnel_address, show_network, join_networks, show_endpoint, encode_key,
}

pub data AddressFamily : Type 0 where
  ipv4 ipv6 : AddressFamily

unfoldable pub argument : AddressFamily → Text
argument ipv4 = lit "-4"
argument ipv6 = lit "-6"

unfoldable pub family_of : AllowedIp → AddressFamily
family_of n = if is_ipv4 n.network then ipv4 else ipv6

pub data PolicyRule : Type 0 where
  not_firewall_mark suppress_default : AddressFamily → PolicyRule

abbrev pub keepalive_arguments : Option ℕ → List Text
keepalive_arguments none = []
keepalive_arguments (some seconds) = lit "persistent-keepalive" ∷ decimal seconds ∷ []

module _ (tools : LinuxTools) where
  unfoldable pub delete_interface : Text → Exec TransportError World (Unit {0})
  delete_interface interface =
      command tools.ip (lit "link" ∷ lit "delete" ∷ lit "dev" ∷ interface ∷ [])

  unfoldable pub create_interface : Text → Exec TransportError World (Unit {0})
  create_interface interface =
      command tools.ip
        (lit "link" ∷ lit "add" ∷ lit "dev" ∷ interface ∷ lit "type" ∷ lit "wireguard" ∷ [])

  -- `for address in …`, the loop of `configure` and of `configure_node`.
  unfoldable pub add_addresses :
      Text → ConnectContext → List TunnelAddress → Exec TransportError World (Unit {0})
  add_addresses interface context [] = pure tt
  add_addresses interface context (a ∷ rest) = do
    check context
    command tools.ip
        (lit "address" ∷ lit "add" ∷ show_tunnel_address a ∷ lit "dev" ∷ interface ∷ [])
    add_addresses interface context rest

module _ (tools : LinuxTools) (routing_mark : ℕ) where
  unfoldable pub configure :
      Text → WireGuardConfig → ConnectContext → Exec TransportError World (Unit {0})
  configure interface profile context = do
    check context
    command tools.wg (
        (lit "set"
          ∷ interface
          ∷ lit "private-key"
          ∷ tools.private_key
          ∷ lit "fwmark"
          ∷ decimal routing_mark
          ∷ lit "peer"
          ∷ encode_key profile.peer_public_key
          ∷ lit "endpoint"
          ∷ show_endpoint profile.endpoint
          ∷ lit "allowed-ips"
          ∷ join_networks profile.allowed_ips
          ∷ [])
        ++ keepalive_arguments profile.persistent_keepalive_seconds)
    add_addresses tools interface context profile.tunnel_addresses
    check context
    command tools.ip (
        lit "link"
        ∷ lit "set"
        ∷ lit "dev"
        ∷ interface
        ∷ lit "mtu"
        ∷ decimal profile.mtu
        ∷ lit "up"
        ∷ [])

  abbrev pub push : PolicyRule → Exec TransportError (List PolicyRule × World) (Unit {0})
  push rule (rules, w) = (ok tt, (rule ∷ rules, w))

  unfoldable pub replace_default_route : Text → AddressFamily → Exec TransportError World (Unit {0})
  replace_default_route interface family = command tools.ip (
      argument family
      ∷ lit "route"
      ∷ lit "replace"
      ∷ lit "default"
      ∷ lit "dev"
      ∷ interface
      ∷ lit "table"
      ∷ decimal routing_mark
      ∷ [])

  unfoldable pub add_mark_rule : AddressFamily → Exec TransportError World (Unit {0})
  add_mark_rule family = command tools.ip (
      argument family
      ∷ lit "rule"
      ∷ lit "add"
      ∷ lit "not"
      ∷ lit "fwmark"
      ∷ decimal routing_mark
      ∷ lit "table"
      ∷ decimal routing_mark
      ∷ [])

  unfoldable pub add_suppress_rule : AddressFamily → Exec TransportError World (Unit {0})
  add_suppress_rule family = command tools.ip (
      argument family
      ∷ lit "rule"
      ∷ lit "add"
      ∷ lit "table"
      ∷ lit "main"
      ∷ lit "suppress_prefixlength"
      ∷ lit "0"
      ∷ [])

  -- One default route, which needs two policy rules.
  unfoldable pub install_default :
      Text → AddressFamily → Exec TransportError (List PolicyRule × World) (Unit {0})
  install_default interface family = do
    on_world (replace_default_route interface family)
    on_world (add_mark_rule family)
    push (not_firewall_mark family)
    on_world (add_suppress_rule family)
    push (suppress_default family)

  -- The body of the loop over the allowed addresses.
  unfoldable pub install_route :
      Text → ConnectContext → AllowedIp → Exec TransportError (List PolicyRule × World) (Unit {0})
  install_route interface context n = do
    on_world (check context)
    if n.prefix_length == 0
        then install_default interface (family_of n)
        else on_world (
            command tools.ip (
              argument (family_of n)
              ∷ lit "route"
              ∷ lit "replace"
              ∷ show_network n
              ∷ lit "dev"
              ∷ interface
              ∷ []))

  unfoldable pub install_routes :
      Text
      → ConnectContext
      → List AllowedIp
      → Exec TransportError (List PolicyRule × World) (Unit {0})
  install_routes interface context [] = pure tt
  install_routes interface context (n ∷ rest) = do
    install_route interface context n
    install_routes interface context rest

  abbrev pub rule_arguments : PolicyRule → List Text
  rule_arguments (not_firewall_mark family) =
      argument family
      ∷ lit "rule"
      ∷ lit "delete"
      ∷ lit "not"
      ∷ lit "fwmark"
      ∷ decimal routing_mark
      ∷ lit "table"
      ∷ decimal routing_mark
      ∷ []
  rule_arguments (suppress_default family) =
      argument family
      ∷ lit "rule"
      ∷ lit "delete"
      ∷ lit "table"
      ∷ lit "main"
      ∷ lit "suppress_prefixlength"
      ∷ lit "0"
      ∷ []

  unfoldable pub remove_policy_rule : PolicyRule → Exec TransportError World (Unit {0})
  remove_policy_rule rule = command tools.ip (rule_arguments rule)

  -- The last rule is removed first; a failure leaves the rules that are still installed.
  unfoldable pub remove_policy_rules :
      List PolicyRule → World → Result TransportError (Unit {0}) × (List PolicyRule × World)
  remove_policy_rules [] w = (ok tt, ([], w))
  remove_policy_rules (rule ∷ rules) w =
      let removed = remove_policy_rule rule w in
      let rest = remove_policy_rules rules removed.1 in
      elim removed.0 [ ok _ ↦ rest | err e ↦ (err e, (rule ∷ rules, removed.1)) ]
