-- ===== src/Linux/Node.antt =====
-- core/transport/src/linux.rs: `LinuxWireGuardNode`, the interface of a managed node with its peers.
-- The set of peers is a list of keys, and the map of routes a list of its entries.
pub mod Owned
pub mod Added
pub mod Removed
pub mod Ownership
use cyberia_vpn.Prelude.{
  ℕ, Bool, not, Option, none, some, List, [], ◌∷◌, ◌++◌, leb, if◌then◌else◌, Result, ok, err, ok_or,
  is_some, length, any, keep,
}
use cyberia_vpn.Exec.{Exec, raise, lift, attempt, ◌>>=◌, ◌>>◌, pure}
use cyberia_vpn.Text.{Text, lit, decimal, text_eq}
use cyberia_vpn.Transport.Types
use cyberia_vpn.Transport.Types.{
  TransportError, network, already_connected, not_connected, invalid_config, ConnectContext,
}
use cyberia_vpn.Transport.Platform.{World, command, on_world, self, set_self}
use cyberia_vpn.Transport.Context.{check}
use cyberia_vpn.WireGuard.Profile.{AllowedIp, WireGuardNodeConfig, WireGuardNodePeer, allowed_ip_eq}
use cyberia_vpn.WireGuard.Validate.{validate_node_config, validate_peer}
use cyberia_vpn.Linux.Tools.{
  LinuxTools, valid_interface, join_networks, encode_key, validate_tools, check_key_path,
}
use cyberia_vpn.Linux.Commands.{
  add_addresses, create_interface, delete_interface, keepalive_arguments,
}

abbrev pub maximum_node_peers : ℕ
maximum_node_peers = 4096

-- A public key is its 32 bytes, compared like a text.
abbrev pub Key : Type 0
Key = Text

pub record LinuxWireGuardNode : Type 0 where
  pub tools : LinuxTools
  pub active_interface : Option Text
  pub peers : List Key
  pub assigned_routes : List (AllowedIp × Key)
  pub health_failures : ℕ  -- u32

-- `LinuxWireGuardNode::new`.
unfoldable pub new : LinuxTools → Exec TransportError World LinuxWireGuardNode
new tools = do
  validate_tools tools
  lift (check_key_path tools)
  pure (record {
    tools = tools;
    active_interface = none;
    peers = [];
    assigned_routes = [];
    health_failures = 0;
  })

-- `HashMap::contains_key` and `HashMap::insert`.
unfoldable pub is_assigned : List (AllowedIp × Key) → AllowedIp → Bool
is_assigned routes route = any (λ entry. allowed_ip_eq entry.0 route) routes

unfoldable pub assign : List (AllowedIp × Key) → AllowedIp → Key → List (AllowedIp × Key)
assign routes route key = (route, key) ∷ keep (λ entry. not (allowed_ip_eq entry.0 route)) routes

-- `for route in &peer.allowed_ips`.
unfoldable pub assign_all : Key → List AllowedIp → List (AllowedIp × Key) → List (AllowedIp × Key)
assign_all key [] routes = routes
assign_all key (route ∷ rest) routes = assign_all key rest (assign routes route key)

module _ (tools : LinuxTools) where
  unfoldable pub configure_node :
      Text → WireGuardNodeConfig → ConnectContext → Exec TransportError World (Unit {0})
  configure_node interface config context = do
    check context
    command tools.wg (
        lit "set"
        ∷ interface
        ∷ lit "private-key"
        ∷ tools.private_key
        ∷ lit "listen-port"
        ∷ decimal config.listen_port
        ∷ [])
    add_addresses tools interface context config.interface_addresses
    check context
    command tools.ip (
        lit "link"
        ∷ lit "set"
        ∷ lit "dev"
        ∷ interface
        ∷ lit "mtu"
        ∷ decimal config.mtu
        ∷ lit "up"
        ∷ [])

-- What `start` returns when the configuration has failed and the interface was to be deleted.
abbrev pub cleanup_failure :
    Text → TransportError → Result TransportError (Unit {0}) → TransportError
cleanup_failure what setup_error (ok _) = setup_error
cleanup_failure what setup_error (err cleanup_error) =
    network
      (what ++ Types.display setup_error ++ lit "; cleanup failed: " ++ Types.display cleanup_error)

unfoldable pub after_configuration :
    Text
    → Result TransportError (Unit {0})
    → Exec TransportError (LinuxWireGuardNode × World) (Unit {0})
after_configuration interface (ok _) = do
  n ← self
  set_self (record n { active_interface = some interface })
after_configuration interface (err setup_error) = do
  n ← self
  cleanup ← attempt (on_world (delete_interface n.tools interface))
  raise (cleanup_failure (lit "WireGuard node setup failed: ") setup_error cleanup)

unfoldable pub start :
    Text
    → WireGuardNodeConfig
    → ConnectContext
    → Exec TransportError (LinuxWireGuardNode × World) (Unit {0})
start interface config context = do
  n ← self
  if is_some n.active_interface
      then raise already_connected
      else if not (valid_interface interface)
      then raise (invalid_config (lit "invalid WireGuard node interface name"))
      else do
        lift (validate_node_config config)
        on_world (check context)
        on_world (create_interface n.tools interface)
        configured ← attempt (on_world (configure_node n.tools interface config context))
        after_configuration interface configured

unfoldable pub add_arguments : Text → WireGuardNodePeer → List Text
add_arguments interface peer =
    (lit "set"
      ∷ interface
      ∷ lit "peer"
      ∷ encode_key peer.public_key
      ∷ lit "allowed-ips"
      ∷ join_networks peer.allowed_ips
      ∷ [])
    ++ keepalive_arguments peer.persistent_keepalive_seconds

-- The tests that a new peer has to pass before the command is run.
unfoldable pub check_new_peer :
    LinuxWireGuardNode → WireGuardNodePeer → Result TransportError (Unit {0})
check_new_peer n peer =
    if leb maximum_node_peers (length n.peers)
    then err (invalid_config (lit "WireGuard node peer capacity reached"))
    else if any (text_eq peer.public_key) n.peers
    then err (invalid_config (lit "WireGuard node peer is already managed"))
    else if any (is_assigned n.assigned_routes) peer.allowed_ips
    then err (invalid_config (lit "WireGuard node peer route is already assigned"))
    else ok tt

unfoldable pub with_peer : LinuxWireGuardNode → WireGuardNodePeer → LinuxWireGuardNode
with_peer n peer = record n {
  peers = peer.public_key ∷ n.peers;
  assigned_routes = assign_all peer.public_key peer.allowed_ips n.assigned_routes;
}

unfoldable pub add_peer :
    WireGuardNodePeer → Exec TransportError (LinuxWireGuardNode × World) (Unit {0})
add_peer peer = do
  lift (validate_peer peer)
  n ← self
  interface ← lift (ok_or n.active_interface not_connected)
  lift (check_new_peer n peer)
  on_world (command n.tools.wg (add_arguments interface peer))
  set_self (with_peer n peer)

unfoldable pub without_peer : LinuxWireGuardNode → Key → LinuxWireGuardNode
without_peer n key = record n {
  peers = keep (λ k. not (text_eq k key)) n.peers;
  assigned_routes = keep (λ entry. not (text_eq entry.1 key)) n.assigned_routes;
}

unfoldable pub remove_peer : Key → Exec TransportError (LinuxWireGuardNode × World) (Unit {0})
remove_peer key = do
  n ← self
  interface ← lift (ok_or n.active_interface not_connected)
  if not (any (text_eq key) n.peers)
      then raise (invalid_config (lit "WireGuard node peer is not managed"))
      else do
        on_world (
            command n.tools.wg
              (lit "set" ∷ interface ∷ lit "peer" ∷ encode_key key ∷ lit "remove" ∷ []))
        set_self (without_peer n key)

abbrev pub stopped : LinuxWireGuardNode → LinuxWireGuardNode
stopped n = record n { active_interface = none; peers = []; assigned_routes = [] }

unfoldable pub stop : Exec TransportError (LinuxWireGuardNode × World) (Unit {0})
stop = do
  n ← self
  interface ← lift (ok_or n.active_interface not_connected)
  on_world (delete_interface n.tools interface)
  set_self (stopped n)
