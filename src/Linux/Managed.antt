-- ===== src/Linux/Managed.antt =====
-- core/transport/src/linux.rs: `LinuxManagedWireGuardNode`, a node with its gateway.
pub mod Lifecycle
use cyberia_vpn.Prelude.{Bool, true, false, not, ◌||◌, if◌then◌else◌, Result, ok, err}
use cyberia_vpn.Exec.{Exec, raise, lift, attempt, ◌>>=◌, ◌>>◌}
use cyberia_vpn.Text.{Text, lit, text_eq}
use cyberia_vpn.Transport.Types.{
  TransportError, already_connected, not_connected, invalid_config, ConnectContext,
}
use cyberia_vpn.Transport.Platform.{World}
use cyberia_vpn.WireGuard.Profile.{
  WireGuardNodeConfig, WireGuardNodePeer, WireGuardNodeGatewayPolicy,
}
use cyberia_vpn.WireGuard.Validate.{validate_for_node}
use cyberia_vpn.Linux.Tools.{valid_interface}
use cyberia_vpn.Linux.Node
use cyberia_vpn.Linux.Node.{LinuxWireGuardNode, Key, cleanup_failure}
use cyberia_vpn.Linux.Gateway
use cyberia_vpn.Linux.Gateway.{LinuxWireGuardNodeGateway}

pub record LinuxManagedWireGuardNode : Type 0 where
  pub interface : Text
  pub uplink_interface : Text
  pub node : LinuxWireGuardNode
  pub gateway : LinuxWireGuardNodeGateway
  pub active : Bool

-- The managed node beside the world.
abbrev pub Managed : Type 0
Managed = LinuxManagedWireGuardNode × World

unfoldable pub new :
    Text
    → Text
    → LinuxWireGuardNode
    → LinuxWireGuardNodeGateway
    → Result TransportError LinuxManagedWireGuardNode
new interface uplink_interface node gateway =
    if not (valid_interface interface)
      || not (valid_interface uplink_interface)
      || text_eq interface uplink_interface
    then err (invalid_config (lit "invalid managed WireGuard node interface"))
    else ok (record {
      interface = interface;
      uplink_interface = uplink_interface;
      node = node;
      gateway = gateway;
      active = false;
    })

-- A call on `self.node`, and one on `self.gateway`.
abbrev pub on_node :
    Exec TransportError (LinuxWireGuardNode × World) (Unit {0})
    → Exec TransportError Managed (Unit {0})
on_node m (s, w) = let r = m (s.node, w) in (r.0, (record s { node = r.1.0 }, r.1.1))

abbrev pub on_gateway :
    Exec TransportError (LinuxWireGuardNodeGateway × World) (Unit {0})
    → Exec TransportError Managed (Unit {0})
on_gateway m (s, w) = let r = m (s.gateway, w) in (r.0, (record s { gateway = r.1.0 }, r.1.1))

abbrev pub this : Exec TransportError Managed LinuxManagedWireGuardNode
this (s, w) = (ok s, (s, w))

abbrev pub set_active : Bool → Exec TransportError Managed (Unit {0})
set_active b (s, w) = (ok tt, (record s { active = b }, w))

-- `if let Err(setup_error) = self.gateway.enable(…) { … }`, and what follows it.
unfoldable pub after_enable :
    Result TransportError (Unit {0}) → Exec TransportError Managed (Unit {0})
after_enable (ok _) = set_active true
after_enable (err setup_error) = do
  cleanup ← attempt (on_node Node.stop)
  raise (cleanup_failure (lit "node gateway setup failed: ") setup_error cleanup)

unfoldable pub start :
    WireGuardNodeConfig
    → WireGuardNodeGatewayPolicy
    → ConnectContext
    → Exec TransportError Managed (Unit {0})
start config policy context = do
  s ← this
  if s.active then raise already_connected else do
    lift (validate_for_node policy config)
    on_node (Node.start s.interface config context)
    enabled ← attempt (on_gateway (Gateway.enable s.interface s.uplink_interface policy context))
    after_enable enabled

unfoldable pub add_peer : WireGuardNodePeer → Exec TransportError Managed (Unit {0})
add_peer peer = do
  s ← this
  if not s.active then raise not_connected else on_node (Node.add_peer peer)

unfoldable pub remove_peer : Key → Exec TransportError Managed (Unit {0})
remove_peer key = do
  s ← this
  if not s.active then raise not_connected else on_node (Node.remove_peer key)

unfoldable pub stop : Exec TransportError Managed (Unit {0})
stop = do
  s ← this
  if not s.active
      then raise not_connected
      else do on_gateway Gateway.disable; on_node Node.stop; set_active false
