-- ===== src/Net.antt =====
-- `std::net::IpAddr` as the sources use it, and core/transport/src/lib.rs's `canonical_address`. An
-- address is the number that `u32::from` and `u128::from` make of it.
pub mod Prefix
pub mod Show
pub mod Parse
use cyberia_vpn.Prelude.{
  ℕ, ◌/◌, ◌%◌, ◌^◌, ◌<◌, ◌≡◌, refl, ap, ◌↔◌, Bool, true, false, ◌&&◌, arith, leb, ◌==◌,
  if◌then◌else◌, ==_iff,
}

pub data IpAddr : Type 0 where
  v4 v6 : ℕ → IpAddr

abbrev pub bits : IpAddr → ℕ
bits (v4 n) = n
bits (v6 n) = n

-- How many bits an address of the family has.
abbrev pub width : IpAddr → ℕ
width (v4 n) = 32
width (v6 n) = 128

abbrev pub is_ipv4 : IpAddr → Bool
is_ipv4 (v4 n) = true
is_ipv4 (v6 n) = false

pub family_width : (a : IpAddr) → (if is_ipv4 a then 32 else 128) ≡ width a
family_width (v4 n) = refl
family_width (v6 n) = refl

-- The range of the number.
abbrev pub IsAddress : IpAddr → Type 0
IsAddress a = bits a < 2 ^ width a

unfoldable pub ip_eq : IpAddr → IpAddr → Bool
ip_eq (v4 m) (v4 n) = m == n
ip_eq (v6 m) (v6 n) = m == n
ip_eq (v4 m) (v6 n) = false
ip_eq (v6 m) (v4 n) = false

pub ip_eq_iff : (a b : IpAddr) → (ip_eq a b ≡ true) ↔ (a ≡ b)
unfolding ip_eq
ip_eq_iff (v4 m) (v4 n) = (λ h. ap v4 (ground arith), λ h. (==_iff m n).1 (ap bits h))
ip_eq_iff (v6 m) (v6 n) = (λ h. ap v6 (ground arith), λ h. (==_iff m n).1 (ap bits h))
ip_eq_iff (v4 m) (v6 n) = (λ h. absurd (ground arith), λ h. absurd (ground arith))
ip_eq_iff (v6 m) (v4 n) = (λ h. absurd (ground arith), λ h. absurd (ground arith))

-- `0.0.0.0` and `::`.
unfoldable pub is_unspecified : IpAddr → Bool
is_unspecified a = bits a == 0

-- `224.0.0.0/4` and `ff00::/8`.
unfoldable pub is_multicast : IpAddr → Bool
is_multicast (v4 n) = leb 224 (n / 16777216) && leb (n / 16777216) 239
is_multicast (v6 n) = n / 1329227995784915872903807060280344576 == 255

-- `::ffff:a.b.c.d` is the IPv4 address `a.b.c.d`.
unfoldable pub canonical_address : IpAddr → IpAddr
canonical_address (v4 n) = v4 n
canonical_address (v6 n) = if n / 4294967296 == 65535 then v4 (n % 4294967296) else v6 n
