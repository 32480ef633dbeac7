-- ===== src/Examples/WireGuard.antt =====
-- Profiles, networks and the adapter of core/transport/src/wireguard.rs, and the resolver policy, at
-- concrete inputs.
use cyberia_vpn.Prelude.{
  ℕ, ◌≤◌, ◌≡◌, refl, ◌≢◌, ◌↔◌, true, false, none, some, List, [], ◌∷◌, arith, ok, length, All,
}
use cyberia_vpn.Exec.{Ends}
use cyberia_vpn.Text.{lit, is_blank}
use cyberia_vpn.Net.{IpAddr, v4, v6, IsAddress, canonical_address}
use cyberia_vpn.Apart.{Pairwise}
use cyberia_vpn.Transport.Types.{
  TransportConfig, Endpoint, ConnectContext, wire_guard, Session, TransportError,
}
use cyberia_vpn.Transport.Dns
use cyberia_vpn.Transport.Dns.{DnsConfig, IsUsableResolver, validate_iff}
use cyberia_vpn.WireGuard.Profile.{
  AllowedIp, WireGuardConfig, WireGuardNodeConfig, WireGuardNodePeer, WireGuardNodeGatewayPolicy,
  valid_network, networks_overlap, is_zero_key,
}
use cyberia_vpn.WireGuard.Networks.{IsNetwork, Contains, networks_overlap_iff}
use cyberia_vpn.WireGuard.Validate.{
  validate_config, validate_gateway, validate_for_node, validate_node_config,
}
use cyberia_vpn.WireGuard.Accepted.{AreInterfaceAddresses, IsSafeKeepalive, validate_config_iff}
use cyberia_vpn.WireGuard.Accepted.Gateway.{
  IsClientNetwork, AreDisjoint, IsRouted, validate_gateway_iff, validate_for_node_iff,
}
use cyberia_vpn.WireGuard.Adapter.{WireGuardAdapter, WireGuardBackend, adapter_transport}
use cyberia_vpn.WireGuard.Adapter.Lifecycle.{IsLocked, IsLocked-Ends}
use cyberia_vpn.KillSwitch.Machine
use cyberia_vpn.KillSwitch.Controller
use cyberia_vpn.KillSwitch.Controller.{Controlled, memory_firewall}
use cyberia_vpn.Examples.KillSwitch.{idle_world}

-- 10.8.0.0/16, 10.8.1.0/24 and 10.9.0.0/16.
abbrev pub wide : AllowedIp
wide = record { network = v4 168296448; prefix_length = 16 }

abbrev pub narrow : AllowedIp
narrow = record { network = v4 168296704; prefix_length = 24 }

abbrev pub other : AllowedIp
other = record { network = v4 168361984; prefix_length = 16 }

wide-IsNetwork : IsNetwork wide
wide-IsNetwork = record { is_address = omega arith; positive = omega arith; fits = omega arith }

narrow-IsNetwork : IsNetwork narrow
narrow-IsNetwork = record { is_address = omega arith; positive = omega arith; fits = omega arith }

networks_overlap_iff_example :
    (networks_overlap wide narrow ≡ true)
    ↔ ((a : IpAddr) × IsAddress a × Contains wide a × Contains narrow a)
networks_overlap_iff_example = networks_overlap_iff wide narrow wide-IsNetwork narrow-IsNetwork

-- 9.9.9.9 and 2620:fe::fe.
abbrev pub resolvers : DnsConfig
resolvers = record { resolvers = v4 151587081 ∷ v6 50543257694033307102031451402929176830 ∷ [] }

validate_iff_example : (Dns.validate resolvers ≡ ok tt) ↔ (
    (1 ≤ length resolvers.resolvers)
    × (length resolvers.resolvers ≤ 8)
    × All IsUsableResolver resolvers.resolvers
    × Pairwise (λ a b. canonical_address a ≢ canonical_address b) resolvers.resolvers)
validate_iff_example = validate_iff resolvers

abbrev pub some_key : List ℕ
some_key =
    1 ∷ 2 ∷ 3 ∷ 4 ∷ 5 ∷ 6 ∷ 7 ∷ 8 ∷ 9 ∷ 10 ∷ 11 ∷ 12 ∷ 13 ∷ 14 ∷ 15 ∷ 16 ∷ 17 ∷ 18 ∷ 19 ∷ 20 ∷ 21
    ∷ 22 ∷ 23 ∷ 24 ∷ 25 ∷ 26 ∷ 27 ∷ 28 ∷ 29 ∷ 30 ∷ 31 ∷ 32 ∷ []

abbrev pub endpoint : Endpoint
endpoint = record { host = lit "203.0.113.10"; port = 51820 }

abbrev pub profile : WireGuardConfig
profile = record {
  peer_public_key = some_key;
  endpoint = endpoint;
  tunnel_addresses = record { address = v4 168296450; prefix_length = 32 } ∷ [];
  allowed_ips = record { network = v4 0; prefix_length = 0 } ∷ [];
  persistent_keepalive_seconds = some 25;
  mtu = 1420;
}

validate_config_iff_example : (validate_config profile ≡ ok tt) ↔ (
    (is_zero_key some_key ≡ false)
    × (is_blank endpoint.host ≡ false)
    × AreInterfaceAddresses profile.tunnel_addresses
    × (1 ≤ length profile.allowed_ips)
    × (length profile.allowed_ips ≤ 64)
    × All (λ n. valid_network n ≡ true) profile.allowed_ips
    × Pairwise (λ a b. a ≢ b) profile.allowed_ips
    × IsSafeKeepalive (some 25)
    × (1280 ≤ 1420)
    × (1420 ≤ 9000))
validate_config_iff_example = validate_config_iff profile

abbrev pub peer : WireGuardNodePeer
peer = record {
  public_key = some_key;
  allowed_ips = record { network = v4 168296450; prefix_length = 32 } ∷ [];
  persistent_keepalive_seconds = none;
}

abbrev pub policy : WireGuardNodeGatewayPolicy
policy = record { client_networks = wide ∷ other ∷ [] }

policy-IsTyped : All (λ n. IsAddress n.network) policy.client_networks
policy-IsTyped = (omega arith, (omega arith, tt))

validate_gateway_iff_example : (validate_gateway policy ≡ ok tt) ↔ (
    (1 ≤ length policy.client_networks)
    × (length policy.client_networks ≤ 16)
    × All IsClientNetwork policy.client_networks
    × Pairwise AreDisjoint policy.client_networks)
validate_gateway_iff_example = validate_gateway_iff policy policy-IsTyped

abbrev pub node_config : WireGuardNodeConfig
node_config = record {
  listen_port = 51820;
  interface_addresses =
      record { address = v4 168296449; prefix_length = 16 }
      ∷ record { address = v4 168361985; prefix_length = 16 }
      ∷ [];
  mtu = 1420;
}

validate_for_node_iff_example : (validate_for_node policy node_config ≡ ok tt) ↔ (
    (validate_gateway policy ≡ ok tt)
    × (validate_node_config node_config ≡ ok tt)
    × (length policy.client_networks ≡ length node_config.interface_addresses)
    × All (IsRouted node_config.interface_addresses) policy.client_networks)
validate_for_node_iff_example =
    validate_for_node_iff policy node_config policy-IsTyped (omega arith, (omega arith, tt))

-- A backend that does nothing.
abbrev idle_backend : WireGuardBackend (Unit {0})
idle_backend = record {
  bring_up = λ interface profile context s. (ok tt, s);
  bring_down = λ interface s. (ok tt, s);
  health = λ s. (
    record {
      status = cyberia_vpn.Transport.Types.healthy;
      round_trip_time = none;
      consecutive_failures = 0;
    },
    s,
  );
}

abbrev adapter : WireGuardAdapter (Unit {0})
adapter = record { interface = lit "cyb0"; profile = profile; backend = tt; connected = false }

abbrev pub transport_config : TransportConfig
transport_config = record { kind = wire_guard; endpoint = endpoint; connect_timeout = 5000000000 }

abbrev pub context : ConnectContext
context = record { deadline = 9000000000; cancellation = 0 }

-- What a connection attempt that has failed in the adapter leaves behind.
abbrev locked : Controlled (WireGuardAdapter (Unit {0})) (Unit {0})
locked = (
  record {
    kill_switch = record { always_on = false; policy = Machine.block_non_tunnel };
    transport = adapter;
    firewall = tt;
    transport_may_be_active = true;
  },
  idle_world,
)

IsLocked-Ends_example :
    Ends
      (λ _ _. ⊥)
      (λ _. IsLocked idle_backend)
      (Controller.disconnect (adapter_transport idle_backend) memory_firewall locked)
    × Ends
        (λ _ _. ⊥)
        (λ _. IsLocked idle_backend)
        (Controller.disable (adapter_transport idle_backend) memory_firewall locked)
IsLocked-Ends_example = IsLocked-Ends idle_backend memory_firewall locked (refl, refl)
