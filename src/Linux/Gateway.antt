-- ===== src/Linux/Gateway.antt =====
-- core/transport/src/linux.rs: `LinuxWireGuardNodeGateway`, which restricts and translates the traffic of
-- the clients of a node.
pub mod Switch
use cyberia_vpn.Prelude.{
  Bool, true, false, not, ◌&&◌, ◌||◌, List, [], ◌∷◌, ◌++◌, if◌then◌else◌, any, all,
}
use cyberia_vpn.Exec.{Exec, raise, pure, lift, ◌>>=◌, ◌>>◌}
use cyberia_vpn.Text.{Text, lit, text_eq}
use cyberia_vpn.Net.{is_ipv4}
use cyberia_vpn.Transport.Types.{
  TransportError, already_connected, not_connected, invalid_config, ConnectContext,
}
use cyberia_vpn.Transport.Platform.{World, feed, output_of, on_world, self, set_self}
use cyberia_vpn.Transport.Context.{check}
use cyberia_vpn.WireGuard.Profile.{AllowedIp, WireGuardNodeGatewayPolicy}
use cyberia_vpn.WireGuard.Validate.{validate_gateway}
use cyberia_vpn.Linux.Tools.{
  LinuxNodeGatewayTools, valid_interface, show_network, validate_gateway_tools,
}

pub record LinuxWireGuardNodeGateway : Type 0 where
  pub tools : LinuxNodeGatewayTools
  pub active : Bool

-- `LinuxWireGuardNodeGateway::new`.
unfoldable pub new : LinuxNodeGatewayTools → Exec TransportError World LinuxWireGuardNodeGateway
new tools = do validate_gateway_tools tools; pure (record { tools = tools; active = false })

unfoldable pub forwarding_keys : WireGuardNodeGatewayPolicy → List Text
forwarding_keys policy =
    (if any (λ n. is_ipv4 n.network) policy.client_networks
      then lit "net.ipv4.ip_forward" ∷ []
      else [])
    ++ (if any (λ n. not (is_ipv4 n.network)) policy.client_networks
        then lit "net.ipv6.conf.all.forwarding" ∷ []
        else [])

-- A line feed, which a text literal does not hold.
abbrev pub newline : Text
newline = 10 ∷ []

unfoldable pub network_rules : Text → Text → AllowedIp → Text
network_rules wireguard_interface uplink_interface n =
    let family = if is_ipv4 n.network then lit "ip" else lit "ip6" in
    lit "add rule inet cyberia_vpn_node forward iifname \""
    ++ wireguard_interface
    ++ lit "\" oifname \""
    ++ uplink_interface
    ++ lit "\" "
    ++ family
    ++ lit " saddr "
    ++ show_network n
    ++ lit " accept"
    ++ newline
    ++ lit "add rule inet cyberia_vpn_node postrouting oifname \""
    ++ uplink_interface
    ++ lit "\" "
    ++ family
    ++ lit " saddr "
    ++ show_network n
    ++ lit " masquerade"
    ++ newline

unfoldable pub all_network_rules : Text → Text → List AllowedIp → Text
all_network_rules wireguard_interface uplink_interface [] = []
all_network_rules wireguard_interface uplink_interface (n ∷ ns) =
    network_rules wireguard_interface uplink_interface n
    ++ all_network_rules wireguard_interface uplink_interface ns

unfoldable pub node_gateway_rules : Text → Text → WireGuardNodeGatewayPolicy → Text
node_gateway_rules wireguard_interface uplink_interface policy =
    lit "add table inet cyberia_vpn_node"
    ++ newline
    ++ lit
        "add chain inet cyberia_vpn_node forward { type filter hook forward priority 0; policy drop; }"
    ++ newline
    ++ lit
        "add chain inet cyberia_vpn_node postrouting { type nat hook postrouting priority 100; policy accept; }"
    ++ newline
    ++ lit "add rule inet cyberia_vpn_node forward ct state established,related accept"
    ++ newline
    ++ all_network_rules wireguard_interface uplink_interface policy.client_networks

module _ (tools : LinuxNodeGatewayTools) where
  -- The loop over the forwarding keys.
  unfoldable pub check_forwarding : List Text → Exec TransportError World (Unit {0})
  check_forwarding [] = pure tt
  check_forwarding (key ∷ keys) = do
    output ← output_of tools.sysctl (lit "-n" ∷ key ∷ [])
    if not (text_eq output (b'1' ∷ newline)) && not (text_eq output (b'1' ∷ []))
        then raise (invalid_config (lit "kernel IP forwarding is disabled"))
        else check_forwarding keys

  unfoldable pub load_rules : Text → Exec TransportError World (Unit {0})
  load_rules rules = feed tools.nft (lit "--file" ∷ lit "-" ∷ []) rules

unfoldable pub enable :
    Text
    → Text
    → WireGuardNodeGatewayPolicy
    → ConnectContext
    → Exec TransportError (LinuxWireGuardNodeGateway × World) (Unit {0})
enable wireguard_interface uplink_interface policy context = do
  g ← self
  if g.active
      then raise already_connected
      else if not (valid_interface wireguard_interface)
          || not (valid_interface uplink_interface)
          || text_eq wireguard_interface uplink_interface
      then raise (invalid_config (lit "invalid WireGuard node gateway interface"))
      else do
        lift (validate_gateway policy)
        on_world (check context)
        on_world (check_forwarding g.tools (forwarding_keys policy))
        on_world (check context)
        on_world
            (load_rules g.tools (node_gateway_rules wireguard_interface uplink_interface policy))
        set_self (record g { active = true })

unfoldable pub disable : Exec TransportError (LinuxWireGuardNodeGateway × World) (Unit {0})
disable = do
  g ← self
  if not g.active then raise not_connected else do
    on_world (load_rules g.tools (lit "delete table inet cyberia_vpn_node" ++ newline))
    set_self (record g { active = false })
