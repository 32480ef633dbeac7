-- ===== src/WireGuard/Profile.antt =====
-- core/transport/src/wireguard.rs: the parameters of a client and of a managed node, and what their
-- validation checks.
use Prim.Native.Nat.{bit_and}
use cyberia_vpn.Prelude.{
  ℕ, min, Bool, false, not, ◌&&◌, ◌||◌, Option, none, some, List, [], ltb, leb, ◌==◌, if◌then◌else◌,
  Result, fail_if, length, all,
}
use cyberia_vpn.Result.{◌>>◌}
use cyberia_vpn.Text.{lit}
use cyberia_vpn.Net.{IpAddr, v4, v6, bits, width, is_ipv4, ip_eq, is_unspecified, is_multicast}
use cyberia_vpn.Net.Prefix.{prefix_mask}
use cyberia_vpn.Apart.{each_apart}
use cyberia_vpn.Transport.Types.{TransportError, invalid_config, Endpoint, HealthStatus}

abbrev pub minimum_mtu : ℕ
minimum_mtu = 1280

abbrev pub maximum_mtu : ℕ
maximum_mtu = 9000

abbrev pub maximum_keepalive_seconds : ℕ
maximum_keepalive_seconds = 300

pub record TunnelAddress : Type 0 where
  pub address : IpAddr
  pub prefix_length : ℕ  -- u8

pub record AllowedIp : Type 0 where
  pub network : IpAddr
  pub prefix_length : ℕ  -- u8

-- A key is its 32 bytes.
pub record WireGuardConfig : Type 0 where
  pub peer_public_key : List ℕ
  pub endpoint : Endpoint
  pub tunnel_addresses : List TunnelAddress
  pub allowed_ips : List AllowedIp
  pub persistent_keepalive_seconds : Option ℕ  -- u16
  pub mtu : ℕ  -- u16

pub record WireGuardNodeConfig : Type 0 where
  pub listen_port : ℕ  -- NonZeroU16
  pub interface_addresses : List TunnelAddress
  pub mtu : ℕ  -- u16

pub record WireGuardNodeGatewayPolicy : Type 0 where
  pub client_networks : List AllowedIp

pub record WireGuardNodePeer : Type 0 where
  pub public_key : List ℕ
  pub allowed_ips : List AllowedIp
  pub persistent_keepalive_seconds : Option ℕ  -- u16

pub record WireGuardNodeHealth : Type 0 where
  pub status : HealthStatus
  pub configured_peers : ℕ
  pub observed_peers : ℕ
  pub recent_handshakes : ℕ
  pub consecutive_failures : ℕ  -- u32

-- No bit is set outside the prefix. The `u8` of the prefix length is checked against the width first.
unfoldable pub valid_network : AllowedIp → Bool
valid_network n =
    let mask = if n.prefix_length == 0 then 0 else prefix_mask (width n.network) n.prefix_length in
    not (ltb (width n.network) n.prefix_length || is_multicast n.network)
    && bit_and (bits n.network) mask == bits n.network

abbrev pub same_prefix : ℕ → ℕ → ℕ → ℕ → Bool
same_prefix w prefix m n = bit_and m (prefix_mask w prefix) == bit_and n (prefix_mask w prefix)

unfoldable pub overlap_under : ℕ → IpAddr → IpAddr → Bool
overlap_under prefix (v4 m) (v4 n) = same_prefix 32 prefix m n
overlap_under prefix (v6 m) (v6 n) = same_prefix 128 prefix m n
overlap_under prefix (v4 m) (v6 n) = false
overlap_under prefix (v6 m) (v4 n) = false

unfoldable pub networks_overlap : AllowedIp → AllowedIp → Bool
unfolding overlap_under
networks_overlap left right =
    overlap_under (min left.prefix_length right.prefix_length) left.network right.network

unfoldable pub network_matches_address : AllowedIp → TunnelAddress → Bool
unfolding overlap_under
network_matches_address network address =
    (network.prefix_length == address.prefix_length)
    && overlap_under network.prefix_length network.network address.address

-- `AllowedIp` is compared by its derived `Eq`.
unfoldable pub allowed_ip_eq : AllowedIp → AllowedIp → Bool
allowed_ip_eq a b = ip_eq a.network b.network && (a.prefix_length == b.prefix_length)

unfoldable pub same_address : TunnelAddress → TunnelAddress → Bool
same_address a b = ip_eq a.address b.address

unfoldable pub check_tunnel_address : TunnelAddress → Result TransportError (Unit {0})
check_tunnel_address a =
    fail_if
      (ltb (if is_ipv4 a.address then 32 else 128) a.prefix_length
        || is_unspecified a.address
        || is_multicast a.address)
      (invalid_config (lit "invalid tunnel address prefix"))

unfoldable pub validate_interface_addresses : List TunnelAddress → Result TransportError (Unit {0})
validate_interface_addresses addresses = do
  fail_if (length addresses == 0 || ltb 16 (length addresses))
      (invalid_config (lit "WireGuard interface requires between 1 and 16 addresses"))
  each_apart check_tunnel_address same_address
      (invalid_config (lit "duplicate WireGuard tunnel address")) [] addresses

abbrev pub unsafe_keepalive : Option ℕ → Bool
unsafe_keepalive none = false
unsafe_keepalive (some seconds) = seconds == 0 || ltb maximum_keepalive_seconds seconds

unfoldable pub validate_keepalive : Option ℕ → Result TransportError (Unit {0})
validate_keepalive seconds =
    fail_if (unsafe_keepalive seconds)
      (invalid_config (lit "WireGuard keepalive is outside safe bounds"))

unfoldable pub validate_mtu : ℕ → Result TransportError (Unit {0})
validate_mtu mtu =
    fail_if (not (leb minimum_mtu mtu && leb mtu maximum_mtu))
      (invalid_config (lit "WireGuard MTU is outside safe bounds"))

abbrev pub is_zero_key : List ℕ → Bool
is_zero_key key = all (λ byte. byte == 0) key
