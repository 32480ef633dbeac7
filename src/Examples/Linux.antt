-- ===== src/Examples/Linux.antt =====
-- The Linux backends of core/transport/src/linux.rs and the connection of
-- core/killswitch/src/linux_connection.rs at concrete inputs.
use cyberia_vpn.Prelude.{
  ◌≡◌, refl, ◌⊎◌, true, false, none, some, [], ◌∷◌, arith, Result, ok, err, here,
}
use cyberia_vpn.Exec.{Ends}
use cyberia_vpn.Text.{Text, lit}
use cyberia_vpn.Net.{v4}
use cyberia_vpn.Transport.Types.{TransportError, network, not_connected}
use cyberia_vpn.Transport.Platform.{feed, call, command, World, Call, run}
use cyberia_vpn.Linux.Tools.{LinuxTools}
use cyberia_vpn.Linux.Backend
use cyberia_vpn.Linux.Commands
use cyberia_vpn.Linux.Commands.{suppress_default, not_firewall_mark, ipv4, ipv6}
use cyberia_vpn.Linux.Backend.{LinuxWireGuardBackend}
use cyberia_vpn.Linux.Backend.Setup.{IsUp, IsDown, bring_up-Ends}
use cyberia_vpn.Linux.Backend.Removal.{TornDown, StillUp, bring_down-Ends}
use cyberia_vpn.Linux.Dns.{LinuxDnsBackend, owning}
use cyberia_vpn.Linux.Node
use cyberia_vpn.Linux.Node.{LinuxWireGuardNode, Key, with_peer}
use cyberia_vpn.Linux.Node.Ownership.{add_peer-Ends, remove_peer-Ends}
use cyberia_vpn.Linux.Node.Owned.{IsOwned}
use cyberia_vpn.Linux.Node.Added.{PeerAdded}
use cyberia_vpn.Linux.Node.Removed.{PeerRemoved}
use cyberia_vpn.Linux.Gateway
use cyberia_vpn.Linux.Gateway.{LinuxWireGuardNodeGateway}
use cyberia_vpn.Linux.Gateway.Switch.{SwitchedOn, enable-Ends}
use cyberia_vpn.Linux.Managed
use cyberia_vpn.Linux.Managed.{LinuxManagedWireGuardNode, Managed}
use cyberia_vpn.Linux.Managed.Lifecycle.{AllStopped, Stuck, stop-Ends, AsBefore}
use cyberia_vpn.KillSwitch.Machine
use cyberia_vpn.KillSwitch.Connection
use cyberia_vpn.KillSwitch.Connection.{LinuxWireGuardConnection, Connected}
use cyberia_vpn.KillSwitch.Connection.Teardown
use cyberia_vpn.KillSwitch.Connection.Teardown.{connection_disconnect-Ends}
use cyberia_vpn.Examples.KillSwitch.{idle_world}
use cyberia_vpn.Examples.WireGuard.{
  profile, context, transport_config, policy, peer, some_key, resolvers,
}

abbrev pub tools : LinuxTools
tools = record {
  ip = lit "/usr/sbin/ip";
  wg = lit "/usr/bin/wg";
  private_key = lit "/etc/cyberia/key";
}

abbrev pub backend : LinuxWireGuardBackend
backend = record {
  tools = tools;
  routing_mark = 51820;
  active_rules = [];
  active_interface = none;
  health_failures = 0;
}

abbrev up : LinuxWireGuardBackend
up = record backend {
  active_rules = suppress_default ipv4 ∷ not_firewall_mark ipv4 ∷ [];
  active_interface = some (lit "cyb0");
}

bring_up-Ends_example :
    Ends
      (λ _ s. IsUp (lit "cyb0") profile context backend s.0)
      (λ _. IsDown (lit "cyb0") profile context backend idle_world.trace)
      (Backend.bring_up (lit "cyb0") profile context (backend, idle_world))
bring_up-Ends_example = bring_up-Ends (lit "cyb0") profile context backend idle_world

bring_down-Ends_example :
    Ends
      (λ _. TornDown (lit "cyb0") up idle_world.trace)
      (λ _. StillUp up idle_world.trace)
      (Backend.bring_down (lit "cyb0") (up, idle_world))
bring_down-Ends_example = bring_down-Ends (lit "cyb0") up idle_world

abbrev pub dns : LinuxDnsBackend
dns = record { tools = record { resolvectl = lit "/usr/bin/resolvectl" }; active_interface = none }

abbrev node : LinuxWireGuardNode
node = record {
  tools = tools;
  active_interface = some (lit "cyb0");
  peers = [];
  assigned_routes = [];
  health_failures = 0;
}

node-IsOwned : IsOwned node
node-IsOwned = record {
  within = omega arith;
  distinct_keys = tt;
  distinct_routes = tt;
  owners = tt;
}

add_peer-Ends_example :
    Ends
      (λ _. PeerAdded peer node idle_world.trace)
      (λ _ s. s.0 ≡ node)
      (Node.add_peer peer (node, idle_world))
add_peer-Ends_example = add_peer-Ends peer node idle_world node-IsOwned

abbrev peered : LinuxWireGuardNode
peered = record node {
  peers = some_key ∷ [];
  assigned_routes = (record { network = v4 168296450; prefix_length = 32 }, some_key) ∷ [];
}

peered-IsOwned : IsOwned peered
peered-IsOwned = record {
  within = omega arith;
  distinct_keys = (tt, tt);
  distinct_routes = (tt, tt);
  owners = (here, tt);
}

remove_peer-Ends_example :
    Ends
      (λ _. PeerRemoved some_key peered idle_world.trace)
      (λ _ s. s.0 ≡ peered)
      (Node.remove_peer some_key (peered, idle_world))
remove_peer-Ends_example = remove_peer-Ends some_key peered idle_world peered-IsOwned

abbrev gateway : LinuxWireGuardNodeGateway
gateway = record {
  tools = record { nft = lit "/usr/sbin/nft"; sysctl = lit "/usr/sbin/sysctl" };
  active = false;
}

enable-Ends_example :
    Ends
      (λ _. SwitchedOn (lit "cyb0") (lit "eth0") policy gateway)
      (λ _ s. s.0 ≡ gateway)
      (Gateway.enable (lit "cyb0") (lit "eth0") policy context (gateway, idle_world))
enable-Ends_example = enable-Ends (lit "cyb0") (lit "eth0") policy context gateway idle_world

-- A platform on which the deletion of interfaces fails.
abbrev fails_on_run : Call → Result TransportError Text
fails_on_run (run spec) = err (network (lit "device is busy"))
fails_on_run _ = ok []

abbrev busy_world : World
busy_world = record idle_world { replies = λ n c. fails_on_run c }

abbrev managed : Managed
managed = (
  record {
    interface = lit "cyb0";
    uplink_interface = lit "eth0";
    node = node;
    gateway = record gateway { active = true };
    active = true;
  },
  busy_world,
)

stop-Ends_example :
    Ends
      (λ _. AllStopped managed)
      (λ _ t. AsBefore managed t ⊎ Stuck managed t)
      (Managed.stop managed)
stop-Ends_example = stop-Ends managed

-- The second stop does not reach the node: the gateway is off already.
stop_again : (Managed.stop (Managed.stop managed).1).0 ≡ err not_connected
unfolding Managed.stop Gateway.disable Node.stop Gateway.load_rules feed call
    Commands.delete_interface command
stop_again = refl

abbrev connection : Connected
connection = (
  record {
    controller = record {
      kill_switch = record { always_on = false; policy = Machine.tunnel_only (lit "cyb0") };
      transport = record {
        interface = lit "cyb0";
        profile = profile;
        backend = up;
        connected = true;
      };
      firewall = record {
        config = record { endpoint_address = v4 3405803786; endpoint_port = 51820 };
      };
      transport_may_be_active = true;
    };
    dns = owning dns (lit "cyb0");
    dns_config = resolvers;
    interface = lit "cyb0";
    transport = transport_config;
  },
  idle_world,
)

connection_disconnect-Ends_example :
    Ends
      (λ _. Teardown.Disconnected connection)
      (λ e t. Teardown.LookupsFailed connection e t ⊎ Teardown.Stuck connection e t)
      (Connection.disconnect connection)
connection_disconnect-Ends_example = connection_disconnect-Ends connection
