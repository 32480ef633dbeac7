-- ===== src/WireGuard/Validate.antt =====
-- core/transport/src/wireguard.rs: the validation of client profiles, of node configurations, of the
-- peers of a node, and of gateway policies.
use cyberia_vpn.Prelude.{
  Bool, not, ◌||◌, [], ltb, ◌==◌, if◌then◌else◌, Result, fail_if, length, any,
}
use cyberia_vpn.Result.{◌>>◌}
use cyberia_vpn.Text.{lit, is_blank}
use cyberia_vpn.Net.{is_ipv4, is_unspecified, is_multicast}
use cyberia_vpn.Apart.{each_apart}
use cyberia_vpn.Transport.Types.{TransportError, invalid_config}
use cyberia_vpn.WireGuard.Profile.{
  AllowedIp, WireGuardConfig, WireGuardNodeConfig, WireGuardNodeGatewayPolicy, WireGuardNodePeer,
  valid_network, networks_overlap, network_matches_address, allowed_ip_eq,
  validate_interface_addresses, validate_keepalive, validate_mtu, is_zero_key,
}

unfoldable pub check_client_network : AllowedIp → Result TransportError (Unit {0})
check_client_network network =
    let maximum_prefix = if is_ipv4 network.network then 32 else 128 in
    fail_if
      (network.prefix_length == 0
        || network.prefix_length == maximum_prefix
        || is_unspecified network.network
        || not (valid_network network))
      (invalid_config (lit "invalid WireGuard node gateway client network"))

-- `WireGuardNodeGatewayPolicy::validate`.
unfoldable pub validate_gateway : WireGuardNodeGatewayPolicy → Result TransportError (Unit {0})
validate_gateway policy = do
  fail_if (length policy.client_networks == 0 || ltb 16 (length policy.client_networks))
      (invalid_config (lit "WireGuard node gateway requires between 1 and 16 client networks"))
  each_apart check_client_network networks_overlap
      (invalid_config (lit "overlapping WireGuard node gateway client networks")) []
      policy.client_networks

-- `WireGuardNodeConfig::validate`.
unfoldable pub validate_node_config : WireGuardNodeConfig → Result TransportError (Unit {0})
validate_node_config config = do
  validate_interface_addresses config.interface_addresses
  validate_mtu config.mtu

-- Whether an interface address stands for the network.
unfoldable pub is_on_interface : WireGuardNodeConfig → AllowedIp → Bool
is_on_interface config network = any (network_matches_address network) config.interface_addresses

-- `WireGuardNodeGatewayPolicy::validate_for_node`.
unfoldable pub validate_for_node :
    WireGuardNodeGatewayPolicy → WireGuardNodeConfig → Result TransportError (Unit {0})
validate_for_node policy config = do
  validate_gateway policy
  validate_node_config config
  fail_if
      (not (length policy.client_networks == length config.interface_addresses)
        || any (λ network. not (is_on_interface config network)) policy.client_networks)
      (invalid_config (lit "WireGuard node gateway networks do not match interface addresses"))

unfoldable pub check_host_route : AllowedIp → Result TransportError (Unit {0})
check_host_route route =
    let host_prefix = if is_ipv4 route.network then 32 else 128 in
    fail_if
      (not (route.prefix_length == host_prefix)
        || is_unspecified route.network
        || is_multicast route.network)
      (invalid_config (lit "invalid or duplicate WireGuard node peer host route"))

-- `WireGuardNodePeer::validate`.
unfoldable pub validate_peer : WireGuardNodePeer → Result TransportError (Unit {0})
validate_peer peer = do
  fail_if (is_zero_key peer.public_key)
      (invalid_config (lit "WireGuard node peer public key is zero"))
  fail_if (length peer.allowed_ips == 0 || ltb 16 (length peer.allowed_ips))
      (invalid_config (lit "WireGuard node peer requires between 1 and 16 host routes"))
  each_apart check_host_route allowed_ip_eq
      (invalid_config (lit "invalid or duplicate WireGuard node peer host route")) []
      peer.allowed_ips
  validate_keepalive peer.persistent_keepalive_seconds

unfoldable pub check_allowed_ip : AllowedIp → Result TransportError (Unit {0})
check_allowed_ip allowed =
    fail_if (not (valid_network allowed))
      (invalid_config (lit "invalid or duplicate WireGuard allowed IP prefix"))

-- `WireGuardConfig::validate`.
unfoldable pub validate_config : WireGuardConfig → Result TransportError (Unit {0})
validate_config config = do
  fail_if (is_zero_key config.peer_public_key)
      (invalid_config (lit "WireGuard peer public key is zero"))
  fail_if (is_blank config.endpoint.host) (invalid_config (lit "endpoint host is empty"))
  validate_interface_addresses config.tunnel_addresses
  fail_if (length config.allowed_ips == 0 || ltb 64 (length config.allowed_ips))
      (invalid_config (lit "WireGuard allowed IP list must contain between 1 and 64 prefixes"))
  each_apart check_allowed_ip allowed_ip_eq
      (invalid_config (lit "invalid or duplicate WireGuard allowed IP prefix")) []
      config.allowed_ips
  validate_keepalive config.persistent_keepalive_seconds
  validate_mtu config.mtu
