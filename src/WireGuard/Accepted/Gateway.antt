-- ===== src/WireGuard/Accepted/Gateway.antt =====
-- core/transport/src/wireguard.rs: exactly which gateway policies are accepted, and what an accepted
-- policy means for the addresses that it routes.
use cyberia_vpn.Prelude.{
  ◌≤◌, ◌<◌, ◌≡◌, refl, ◌↔◌, true, false, not, List, [], ◌∷◌, arith, ok, length, any, All, Has,
  Has-All,
}
use cyberia_vpn.Text.{lit}
use cyberia_vpn.Net.{IpAddr, width, family_width, IsAddress, is_unspecified, is_multicast}
use cyberia_vpn.Apart.{
  each_apart_exact, Pairwise, Pairwise-map_on, All-map_on, false_iff_not, any_iff,
}
use cyberia_vpn.Transport.Types.{invalid_config}
use cyberia_vpn.WireGuard.Profile.{
  AllowedIp, TunnelAddress, WireGuardNodeConfig, WireGuardNodeGatewayPolicy, networks_overlap,
  network_matches_address,
}
use cyberia_vpn.WireGuard.Networks.{
  IsNetwork, Contains, HasNoHostBits, valid_network_iff, networks_overlap_iff, overlap_under_iff,
}
use cyberia_vpn.WireGuard.Validate.{
  check_client_network, validate_gateway, validate_for_node, validate_node_config, is_on_interface,
}

-- A subnet of more than one address, but not of all of them.
abbrev pub IsClientNetwork : AllowedIp → Type 0
IsClientNetwork n =
    (0 < n.prefix_length)
    × (n.prefix_length < width n.network)
    × (is_unspecified n.network ≡ false)
    × (is_multicast n.network ≡ false)
    × HasNoHostBits n

-- No address lies in both networks.
abbrev pub AreDisjoint : AllowedIp → AllowedIp → Type 0
AreDisjoint m n = (a : IpAddr) → IsAddress a → Contains m a → Contains n a → ⊥

abbrev IsTyped : AllowedIp → Type 0
IsTyped n = IsAddress n.network

check_client_network_iff :
    (n : AllowedIp) → IsTyped n → (check_client_network n ≡ ok tt) ↔ IsClientNetwork n
unfolding check_client_network
check_client_network_iff n typed =
    let v = valid_network_iff n typed in
    rw (family_width n.network) (
      λ h.
          let parts = v.0 (ground arith) in
          (ground arith, ground arith, ground arith, parts.1, parts.2),
      λ h. let valid = v.1 (ground arith, h.3, h.4) in ground arith,
    )

IsNetwork-of_client : (n : AllowedIp) → IsTyped n → IsClientNetwork n → IsNetwork n
IsNetwork-of_client n typed c = record { is_address = typed; positive = c.0; fits = omega arith }

same_iff : {P : Type 0} → P ↔ P
same_iff = (λ p. p, λ p. p)

disjoint_iff :
    (m n : AllowedIp)
    → IsTyped m × IsClientNetwork m
    → IsTyped n × IsClientNetwork n
    → (networks_overlap m n ≡ false) ↔ AreDisjoint m n
disjoint_iff m n (tm, cm) (tn, cn) =
    let overlap =
      networks_overlap_iff m n (IsNetwork-of_client m tm cm) (IsNetwork-of_client n tn cn) in
    let test = false_iff_not (networks_overlap m n) overlap in
    (λ h a fits l r. test.0 h (a, fits, l, r), λ h. test.1 (λ c. h c.0 c.1 c.2 c.3))

-- A gateway policy is accepted exactly if it has between 1 and 16 client networks, each of which is a
-- subnet without host bits that is neither a single address nor the whole address space, unspecified or
-- multicast, and no address lies in two of them.
pub validate_gateway_iff :
    (policy : WireGuardNodeGatewayPolicy)
    → All (λ n. IsAddress n.network) policy.client_networks
    → (validate_gateway policy ≡ ok tt) ↔ (
        (1 ≤ length policy.client_networks)
        × (length policy.client_networks ≤ 16)
        × All IsClientNetwork policy.client_networks
        × Pairwise AreDisjoint policy.client_networks)
unfolding validate_gateway
validate_gateway_iff policy typed =
    let xs = policy.client_networks in
    let loop =
      each_apart_exact check_client_network networks_overlap
        (invalid_config (lit "overlapping WireGuard node gateway client networks")) (λ n. same_iff)
        (λ m n. same_iff) xs in
    (
      λ h.
          let raw = loop.0 (ground arith) in
          let clients = All-map_on (λ n t. (check_client_network_iff n t).0) xs typed raw.0 in
          let both = All-map_on (λ n t c. (t, c)) xs typed clients in
          let apart = Pairwise-map_on (λ m n s t. (disjoint_iff m n s t).0) xs both raw.1 in
          (ground arith, ground arith, clients, apart),
      λ h.
          let checked = All-map_on (λ n t. (check_client_network_iff n t).1) xs typed h.2 in
          let both = All-map_on (λ n t c. (t, c)) xs typed h.2 in
          let apart = Pairwise-map_on (λ m n s t. (disjoint_iff m n s t).1) xs both h.3 in
          let raw = loop.1 (checked, apart) in ground arith,
    )

-- An interface address that stands for a client network.
abbrev pub IsRouted : List TunnelAddress → AllowedIp → Type 0
IsRouted addresses n =
    (a : TunnelAddress) × Has a addresses
    × (a.prefix_length ≡ n.prefix_length)
    × Contains n a.address

matches_iff :
    (n : AllowedIp) (a : TunnelAddress)
    → IsNetwork n
    → IsAddress a.address
    → (network_matches_address n a ≡ true)
      ↔ ((a.prefix_length ≡ n.prefix_length) × Contains n a.address)
unfolding network_matches_address
matches_iff n a net typed =
    let test =
      overlap_under_iff n.prefix_length n.network a.address net.positive net.fits net.is_address
        typed in
    (λ h. (ground arith, test.0 (ground arith)), λ h. let under = test.1 h.1 in ground arith)

IsRouted-iff :
    (addresses : List TunnelAddress) (n : AllowedIp)
    → IsNetwork n
    → All (λ a. IsAddress a.address) addresses
    → (any (network_matches_address n) addresses ≡ true) ↔ IsRouted addresses n
IsRouted-iff addresses n net typed =
    let found = any_iff (network_matches_address n) addresses in
    (
      λ h.
          let (a, m, e) = found.0 h in
          let (p, c) =
            (matches_iff n a net (Has-All (λ (b : TunnelAddress). IsAddress b.address) m typed)).0
              e in
          (a, m, p, c),
      λ h.
          let (a, m, p, c) = h in
          found.1 (
            a,
            m,
            (matches_iff n a net (Has-All (λ (b : TunnelAddress). IsAddress b.address) m typed)).1
                (p, c),
          ),
    )

All-on_interface :
    (config : WireGuardNodeConfig) (xs : List AllowedIp)
    → All IsNetwork xs
    → All (λ a. IsAddress a.address) config.interface_addresses
    → (any (λ n. not (is_on_interface config n)) xs ≡ false)
      ↔ All (IsRouted config.interface_addresses) xs
unfolding is_on_interface
All-on_interface config [] nets typed = (λ h. tt, λ h. refl)
All-on_interface config (n ∷ ns) nets typed =
    let first = IsRouted-iff config.interface_addresses n nets.0 typed in
    let rest = All-on_interface config ns nets.1 typed in
    (
      λ h. (first.0 (ground arith), rest.0 (ground arith)),
      λ h. let f = first.1 h.0 in let r = rest.1 h.1 in ground arith,
    )

-- A gateway policy is accepted for a node exactly if the policy and the configuration are each accepted,
-- there are as many client networks as interface addresses, and each client network contains an
-- interface address of the same prefix length.
pub validate_for_node_iff :
    (policy : WireGuardNodeGatewayPolicy) (config : WireGuardNodeConfig)
    → All (λ n. IsAddress n.network) policy.client_networks
    → All (λ a. IsAddress a.address) config.interface_addresses
    → (validate_for_node policy config ≡ ok tt) ↔ (
        (validate_gateway policy ≡ ok tt)
        × (validate_node_config config ≡ ok tt)
        × (length policy.client_networks ≡ length config.interface_addresses)
        × All (IsRouted config.interface_addresses) policy.client_networks)
unfolding validate_for_node
validate_for_node_iff policy config nets typed =
    let networks : validate_gateway policy ≡ ok tt → All IsNetwork policy.client_networks = λ h.
      All-map_on IsNetwork-of_client policy.client_networks nets
        ((validate_gateway_iff policy nets).0 h).2 in
    let routed = λ (h : validate_gateway policy ≡ ok tt).
      All-on_interface config policy.client_networks (networks h) typed in
    (
      λ h.
          let g : validate_gateway policy ≡ ok tt = ground arith in
          let r = (routed g).0 (ground arith) in (g, ground arith, ground arith, r),
      λ h. let r = (routed h.0).1 h.3 in ground arith,
    )
