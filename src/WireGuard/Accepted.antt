-- ===== src/WireGuard/Accepted.antt =====
-- core/transport/src/wireguard.rs: exactly what the validations of profiles, nodes and peers accept.
pub mod Gateway
use cyberia_vpn.Prelude.{
  ℕ, ◌≤◌, ◌≡◌, refl, ap, ◌≢◌, ◌↔◌, true, false, Option, none, some, List, arith, ok, length, all,
  All,
}
use cyberia_vpn.Text.{lit, is_blank}
use cyberia_vpn.Net.{family_width, width, ip_eq_iff, is_unspecified, is_multicast}
use cyberia_vpn.Apart.{each_apart_exact, Pairwise, false_iff_not}
use cyberia_vpn.Transport.Types.{invalid_config}
use cyberia_vpn.WireGuard.Profile.{
  AllowedIp, TunnelAddress, WireGuardConfig, WireGuardNodePeer, valid_network, allowed_ip_eq,
  same_address, check_tunnel_address, validate_interface_addresses, validate_keepalive,
  validate_mtu, is_zero_key,
}
use cyberia_vpn.WireGuard.Validate.{
  check_host_route, validate_peer, check_allowed_ip, validate_config,
}

-- An address that an interface may have.
abbrev pub IsInterfaceAddress : TunnelAddress → Type 0
IsInterfaceAddress a =
    (a.prefix_length ≤ width a.address)
    × (is_unspecified a.address ≡ false)
    × (is_multicast a.address ≡ false)

-- The addresses that an interface may have.
abbrev pub AreInterfaceAddresses : List TunnelAddress → Type 0
AreInterfaceAddresses addresses =
    (1 ≤ length addresses)
    × (length addresses ≤ 16)
    × All IsInterfaceAddress addresses
    × Pairwise (λ a b. a.address ≢ b.address) addresses

check_tunnel_address_iff :
    (a : TunnelAddress) → (check_tunnel_address a ≡ ok tt) ↔ IsInterfaceAddress a
unfolding check_tunnel_address
check_tunnel_address_iff a = rw (family_width a.address) (λ h. ground arith, λ h. ground arith)

pub validate_interface_addresses_iff :
    (addresses : List TunnelAddress)
    → (validate_interface_addresses addresses ≡ ok tt) ↔ AreInterfaceAddresses addresses
unfolding validate_interface_addresses same_address
validate_interface_addresses_iff addresses =
    let loop =
      each_apart_exact check_tunnel_address same_address
        (invalid_config (lit "duplicate WireGuard tunnel address")) check_tunnel_address_iff
        (λ a b. false_iff_not (same_address a b) (ip_eq_iff a.address b.address)) addresses in
    (
      λ h. let all = loop.0 (ground arith) in (ground arith, ground arith, all.0, all.1),
      λ h. let all = loop.1 (h.2, h.3) in ground arith,
    )

-- A keepalive interval that is left out, or from 1 to 300 seconds.
abbrev pub IsSafeKeepalive : Option ℕ → Type 0
IsSafeKeepalive none = Unit {0}
IsSafeKeepalive (some seconds) = (1 ≤ seconds) × (seconds ≤ 300)

validate_keepalive_iff : (k : Option ℕ) → (validate_keepalive k ≡ ok tt) ↔ IsSafeKeepalive k
unfolding validate_keepalive
validate_keepalive_iff none = (λ h. tt, λ h. refl)
validate_keepalive_iff (some n) = (λ h. ground arith, λ h. ground arith)

validate_mtu_iff : (mtu : ℕ) → (validate_mtu mtu ≡ ok tt) ↔ ((1280 ≤ mtu) × (mtu ≤ 9000))
unfolding validate_mtu
validate_mtu_iff mtu = (λ h. ground arith, λ h. ground arith)

pub allowed_ip_eq_iff : (a b : AllowedIp) → (allowed_ip_eq a b ≡ true) ↔ (a ≡ b)
unfolding allowed_ip_eq
allowed_ip_eq_iff a b =
    let same = ip_eq_iff a.network b.network in
    (
      λ h.
          let e = same.0 (ground arith) in
          let p : a.prefix_length ≡ b.prefix_length = ground arith in
          λ i. record { network = e i; prefix_length = p i },
      λ h.
          let e = same.1 (ap (λ (n : AllowedIp). n.network) h) in
          let p = ap (λ (n : AllowedIp). n.prefix_length) h in ground arith,
    )

-- The route to one address of a peer.
abbrev pub IsHostRoute : AllowedIp → Type 0
IsHostRoute r =
    (r.prefix_length ≡ width r.network)
    × (is_unspecified r.network ≡ false)
    × (is_multicast r.network ≡ false)

check_host_route_iff : (r : AllowedIp) → (check_host_route r ≡ ok tt) ↔ IsHostRoute r
unfolding check_host_route
check_host_route_iff r = rw (family_width r.network) (λ h. ground arith, λ h. ground arith)

-- A peer of a node is accepted exactly if its key is not all zeros, it has between 1 and 16 routes, each
-- of which leads to one address that is neither unspecified nor multicast, no route is repeated, and the
-- keepalive interval, if any, is from 1 to 300 seconds.
pub validate_peer_iff :
    (peer : WireGuardNodePeer)
    → (validate_peer peer ≡ ok tt) ↔ (
        (is_zero_key peer.public_key ≡ false)
        × (1 ≤ length peer.allowed_ips)
        × (length peer.allowed_ips ≤ 16)
        × All IsHostRoute peer.allowed_ips
        × Pairwise (λ a b. a ≢ b) peer.allowed_ips
        × IsSafeKeepalive peer.persistent_keepalive_seconds)
unfolding validate_peer
validate_peer_iff peer =
    let loop =
      each_apart_exact check_host_route allowed_ip_eq
        (invalid_config (lit "invalid or duplicate WireGuard node peer host route"))
        check_host_route_iff (λ a b. false_iff_not (allowed_ip_eq a b) (allowed_ip_eq_iff a b))
        peer.allowed_ips in
    let keepalive = validate_keepalive_iff peer.persistent_keepalive_seconds in
    (
      λ h.
          let all = loop.0 (ground arith) in
          let k = keepalive.0 (ground arith) in
          (ground arith, ground arith, ground arith, all.0, all.1, k),
      λ h. let all = loop.1 (h.3, h.4) in let k = keepalive.1 h.5 in ground arith,
    )

check_allowed_ip_iff : (n : AllowedIp) → (check_allowed_ip n ≡ ok tt) ↔ (valid_network n ≡ true)
unfolding check_allowed_ip
check_allowed_ip_iff n = (λ h. ground arith, λ h. ground arith)

-- A client profile is accepted exactly if the key of the peer is not all zeros, the host of the endpoint
-- is not blank, the interface has between 1 and 16 distinct addresses that an interface may have, there
-- are between 1 and 64 distinct networks, each of which is valid, the keepalive interval, if any, is
-- from 1 to 300 seconds, and the MTU is from 1280 to 9000.
pub validate_config_iff :
    (config : WireGuardConfig)
    → (validate_config config ≡ ok tt) ↔ (
        (is_zero_key config.peer_public_key ≡ false)
        × (is_blank config.endpoint.host ≡ false)
        × AreInterfaceAddresses config.tunnel_addresses
        × (1 ≤ length config.allowed_ips)
        × (length config.allowed_ips ≤ 64)
        × All (λ n. valid_network n ≡ true) config.allowed_ips
        × Pairwise (λ a b. a ≢ b) config.allowed_ips
        × IsSafeKeepalive config.persistent_keepalive_seconds
        × (1280 ≤ config.mtu)
        × (config.mtu ≤ 9000))
unfolding validate_config
validate_config_iff config =
    let loop =
      each_apart_exact check_allowed_ip allowed_ip_eq
        (invalid_config (lit "invalid or duplicate WireGuard allowed IP prefix"))
        check_allowed_ip_iff (λ a b. false_iff_not (allowed_ip_eq a b) (allowed_ip_eq_iff a b))
        config.allowed_ips in
    let addresses = validate_interface_addresses_iff config.tunnel_addresses in
    let keepalive = validate_keepalive_iff config.persistent_keepalive_seconds in
    let mtu = validate_mtu_iff config.mtu in
    (
      λ h.
          let all = loop.0 (ground arith) in
          let a = addresses.0 (ground arith) in
          let k = keepalive.0 (ground arith) in
          let m = mtu.0 (ground arith) in
          (ground arith, ground arith, a, ground arith, ground arith, all.0, all.1, k, m.0, m.1),
      λ h.
          let all = loop.1 (h.5, h.6) in
          let a = addresses.1 h.2 in
          let k = keepalive.1 h.7 in let m = mtu.1 (h.8, h.9) in ground arith,
    )
