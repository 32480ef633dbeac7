-- ===== src/Transport/Dns.antt =====
-- core/transport/src/lib.rs: the resolver policy.
use cyberia_vpn.Prelude.{
  ◌≤◌, ◌≡◌, ◌≢◌, ◌↔◌, Bool, false, ◌||◌, List, [], arith, ltb, ◌==◌, Result, ok, fail_if, length,
  All,
}
use cyberia_vpn.Result.{◌>>◌}
use cyberia_vpn.Text.{lit}
use cyberia_vpn.Net.{IpAddr, ip_eq, ip_eq_iff, canonical_address, is_unspecified, is_multicast}
use cyberia_vpn.Apart.{each_apart, each_apart_exact, Pairwise, false_iff_not}
use cyberia_vpn.Transport.Types.{TransportError, invalid_config}

pub record DnsConfig : Type 0 where
  pub resolvers : List IpAddr

unfoldable pub unusable_resolver : IpAddr → Bool
unusable_resolver a = is_unspecified (canonical_address a) || is_multicast (canonical_address a)

unfoldable pub check_resolver : IpAddr → Result TransportError (Unit {0})
check_resolver a =
    fail_if (unusable_resolver a) (invalid_config (lit "invalid or duplicate DNS resolver"))

-- `unique` holds canonical addresses.
unfoldable pub same_resolver : IpAddr → IpAddr → Bool
same_resolver a b = ip_eq (canonical_address a) (canonical_address b)

unfoldable pub validate : DnsConfig → Result TransportError (Unit {0})
validate dns = do
  fail_if (length dns.resolvers == 0 || ltb 8 (length dns.resolvers))
      (invalid_config (lit "DNS resolver list must contain between 1 and 8 addresses"))
  each_apart check_resolver same_resolver (invalid_config (lit "invalid or duplicate DNS resolver"))
      [] dns.resolvers

-- An address that a resolver may have.
abbrev pub IsUsableResolver : IpAddr → Type 0
IsUsableResolver a =
    (is_unspecified (canonical_address a) ≡ false) × (is_multicast (canonical_address a) ≡ false)

check_resolver_iff : (a : IpAddr) → (check_resolver a ≡ ok tt) ↔ IsUsableResolver a
unfolding check_resolver unusable_resolver
check_resolver_iff a = (λ h. ground arith, λ h. ground arith)

-- A resolver policy is accepted exactly if it has between 1 and 8 addresses, none of which is
-- unspecified or multicast, and no two of which are the same, with an IPv4-mapped IPv6 address taken as
-- its IPv4 address.
pub validate_iff :
    (dns : DnsConfig)
    → (validate dns ≡ ok tt) ↔ (
        (1 ≤ length dns.resolvers)
        × (length dns.resolvers ≤ 8)
        × All IsUsableResolver dns.resolvers
        × Pairwise (λ a b. canonical_address a ≢ canonical_address b) dns.resolvers)
unfolding validate same_resolver
validate_iff dns =
    let loop =
      each_apart_exact check_resolver same_resolver
        (invalid_config (lit "invalid or duplicate DNS resolver")) check_resolver_iff
        (λ a b.
          false_iff_not (same_resolver a b) (ip_eq_iff (canonical_address a) (canonical_address b)))
        dns.resolvers in
    (
      λ h. let all = loop.0 (ground arith) in (ground arith, ground arith, all.0, all.1),
      λ h. let all = loop.1 (h.2, h.3) in ground arith,
    )
