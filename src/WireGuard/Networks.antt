-- ===== src/WireGuard/Networks.antt =====
-- The networks of core/transport/src/wireguard.rs as sets of addresses: what `valid_network`,
-- `networks_overlap` and `network_matches_address` decide.
use cyberia_vpn.Prelude.{
  ℕ, zero, suc, ◌-◌, ◌*◌, ◌/◌, ◌%◌, ◌^◌, ◌≤◌, ◌<◌, min, ◌≡◌, refl, sym, ap, subst, ◌∙◌, ◌↔◌, inl,
  inr, true, false, arith, ltb, leb, ◌==◌, if◌then◌else◌, leb→le, ==_iff, Bool-cases,
}
use native.Mathlib.Nat.{
  one-le-pow, pow-suc, mod-add-div', div-div-eq-div-mul, eq_of_mul-eq-mul_right,
}
use Prim.Native.Nat.{bit_and}
use cyberia_vpn.Net.{IpAddr, v4, v6, bits, width, IsAddress, is_multicast}
use cyberia_vpn.Bits.{bit_and-prefix}
use cyberia_vpn.Net.Prefix.{prefix_mask, masked-eq}
use cyberia_vpn.WireGuard.Profile.{
  AllowedIp, valid_network, networks_overlap, overlap_under, same_prefix,
}

-- Two addresses of one family that agree on their first bits.
abbrev pub Agree : ℕ → IpAddr → IpAddr → Type 0
Agree prefix (v4 m) (v4 n) = m / 2 ^ (32 - prefix) ≡ n / 2 ^ (32 - prefix)
Agree prefix (v6 m) (v6 n) = m / 2 ^ (128 - prefix) ≡ n / 2 ^ (128 - prefix)
Agree prefix (v4 m) (v6 n) = ⊥
Agree prefix (v6 m) (v4 n) = ⊥

same_prefix_iff :
    (w prefix m n : ℕ)
    → w < 256
    → 0 < prefix
    → prefix ≤ w
    → m < 2 ^ w
    → n < 2 ^ w
    → (same_prefix w prefix m n ≡ true) ↔ (m / 2 ^ (w - prefix) ≡ n / 2 ^ (w - prefix))
same_prefix_iff w p m n small pos h fm fn =
    let unit = one-le-pow (w - p) 2 (omega arith) in
    rw (masked-eq w p m small pos h fm, masked-eq w p n small pos h fn)
      (
        λ e.
            eq_of_mul-eq-mul_right (2 ^ (w - p)) unit (m / 2 ^ (w - p)) (n / 2 ^ (w - p))
              ((==_iff (m / 2 ^ (w - p) * 2 ^ (w - p)) (n / 2 ^ (w - p) * 2 ^ (w - p))).0 e),
        λ e. (==_iff _ _).1 (ap (λ (t : ℕ). t * 2 ^ (w - p)) e),
      )

pub overlap_under_iff :
    (prefix : ℕ) (a b : IpAddr)
    → 0 < prefix
    → prefix ≤ width a
    → IsAddress a
    → IsAddress b
    → (overlap_under prefix a b ≡ true) ↔ Agree prefix a b
unfolding overlap_under
overlap_under_iff p (v4 m) (v4 n) pos h fm fn = same_prefix_iff 32 p m n (omega arith) pos h fm fn
overlap_under_iff p (v6 m) (v6 n) pos h fm fn = same_prefix_iff 128 p m n (omega arith) pos h fm fn
overlap_under_iff p (v4 m) (v6 n) pos h fm fn = (λ e. absurd (ground arith), λ e. absurd e)
overlap_under_iff p (v6 m) (v4 n) pos h fm fn = (λ e. absurd (ground arith), λ e. absurd e)

-- The addresses of a network.
abbrev pub Contains : AllowedIp → IpAddr → Type 0
Contains n a = Agree n.prefix_length n.network a

-- A prefix that a mask exists for.
pub record IsNetwork (n : AllowedIp) : Type 0 where
  pub is_address : IsAddress n.network
  pub positive : 0 < n.prefix_length
  pub fits : n.prefix_length ≤ width n.network

div-pow-suc : (m k : ℕ) → m / 2 ^ suc k ≡ m / 2 ^ k / 2
div-pow-suc m k = rw (pow-suc 2 k) (sym (div-div-eq-div-mul m (2 ^ k) 2))

-- Numbers that agree above some bit agree above each higher one.
shorter : (k j m n : ℕ) → k ≤ j → m / 2 ^ k ≡ n / 2 ^ k → m / 2 ^ j ≡ n / 2 ^ j
shorter k zero m n h e = let z : k ≡ 0 = omega arith in subst (λ (t : ℕ). m / 2 ^ t ≡ n / 2 ^ t) z e
shorter k (suc j) m n h e = elim (Bool-cases (leb k j)) [
  | inl le ↦
      rw (div-pow-suc m j, div-pow-suc n j)
        (ap (λ (t : ℕ). t / 2) (shorter k j m n (leb→le k j le) e))
  | inr gt ↦ let same : k ≡ suc j = ground arith in subst (λ (t : ℕ). m / 2 ^ t ≡ n / 2 ^ t) same e
]

Agree-shorter : (p q : ℕ) (a b : IpAddr) → q ≤ p → Agree p a b → Agree q a b
Agree-shorter p q (v4 m) (v4 n) h e = shorter (32 - p) (32 - q) m n (omega arith) e
Agree-shorter p q (v6 m) (v6 n) h e = shorter (128 - p) (128 - q) m n (omega arith) e
Agree-shorter p q (v4 m) (v6 n) h e = e
Agree-shorter p q (v6 m) (v4 n) h e = e

Agree-refl : (p : ℕ) (a : IpAddr) → Agree p a a
Agree-refl p (v4 m) = refl
Agree-refl p (v6 m) = refl

Agree-join : (p : ℕ) (a b c : IpAddr) → Agree p a c → Agree p b c → Agree p a b
Agree-join p (v4 a) (v4 b) (v4 c) h k = h ∙ sym k
Agree-join p (v6 a) (v6 b) (v6 c) h k = h ∙ sym k
Agree-join p (v4 a) b (v6 c) h k = absurd h
Agree-join p (v6 a) b (v4 c) h k = absurd h
Agree-join p (v4 a) (v6 b) (v4 c) h k = absurd k
Agree-join p (v6 a) (v4 b) (v6 c) h k = absurd k

Agree-sym : (p : ℕ) (a b : IpAddr) → Agree p a b → Agree p b a
Agree-sym p a b h = Agree-join p b a b (Agree-refl p b) h

Common : AllowedIp → AllowedIp → Type 0
Common left right = (a : IpAddr) × IsAddress a × Contains left a × Contains right a

Common-of_Agree :
    (left right : AllowedIp)
    → IsNetwork left
    → IsNetwork right
    → Agree (min left.prefix_length right.prefix_length) left.network right.network
    → Common left right
unfolding Common
Common-of_Agree left right l r h = elim (Bool-cases (leb left.prefix_length right.prefix_length)) [
  | inl le ↦
      let e : min left.prefix_length right.prefix_length ≡ left.prefix_length = ground arith in
      (
        right.network,
        r.is_address,
        subst (λ (t : ℕ). Agree t left.network right.network) e h,
        Agree-refl right.prefix_length right.network,
      )
  | inr gt ↦
      let e : min left.prefix_length right.prefix_length ≡ right.prefix_length = ground arith in
      (
        left.network,
        l.is_address,
        Agree-refl left.prefix_length left.network,
        Agree-sym right.prefix_length left.network right.network
            (subst (λ (t : ℕ). Agree t left.network right.network) e h),
      )
]

-- Two networks, with prefix lengths from 1 to the width of their addresses, overlap, as the code tests it,
-- exactly when some address lies in both.
pub networks_overlap_iff :
    (left right : AllowedIp)
    → IsNetwork left
    → IsNetwork right
    → (networks_overlap left right ≡ true)
      ↔ ((a : IpAddr) × IsAddress a × Contains left a × Contains right a)
unfolding networks_overlap Common
networks_overlap_iff left right l r =
    let p = min left.prefix_length right.prefix_length in
    let test =
      overlap_under_iff p left.network right.network (ground arith) (ground arith) l.is_address
        r.is_address in
    (
      λ h. Common-of_Agree left right l r (test.0 h),
      λ c. test.1 (
          Agree-join p left.network right.network c.0
            (Agree-shorter left.prefix_length p left.network c.0 (omega arith) c.2)
            (Agree-shorter right.prefix_length p right.network c.0 (omega arith) c.3)),
    )

-- No address has a bit set outside the prefix.
abbrev pub HasNoHostBits : AllowedIp → Type 0
HasNoHostBits n = bits n.network % 2 ^ (width n.network - n.prefix_length) ≡ 0

masked_prefix :
    (w prefix x : ℕ)
    → w < 256
    → prefix ≤ w
    → x < 2 ^ w
    → bit_and x (if prefix == 0 then 0 else prefix_mask w prefix)
      ≡ x / 2 ^ (w - prefix) * 2 ^ (w - prefix)
masked_prefix w zero x small h fits =
    let cleared = bit_and-prefix w w x (omega arith) fits in
    let none : 2 ^ w - 2 ^ w ≡ 0 = omega arith in
    let same : bit_and x 0 ≡ x / 2 ^ w * 2 ^ w =
      subst (λ (t : ℕ). bit_and x t ≡ x / 2 ^ w * 2 ^ w) none cleared in
    let whole : w - 0 ≡ w = omega arith in rw whole same
masked_prefix w (suc p) x small h fits =
    let e : (suc p == 0) ≡ false = ground arith in
    rw e (masked-eq w (suc p) x small (omega arith) h fits)

no_host_bits_iff :
    (w prefix x : ℕ)
    → w < 256
    → prefix ≤ w
    → x < 2 ^ w
    → ((bit_and x (if prefix == 0 then 0 else prefix_mask w prefix) == x) ≡ true)
      ↔ (x % 2 ^ (w - prefix) ≡ 0)
no_host_bits_iff w p x small h fits =
    let parts = mod-add-div' x (2 ^ (w - p)) in
    rw (masked_prefix w p x small h fits) (
      λ e. omega (arith, parts, (==_iff (x / 2 ^ (w - p) * 2 ^ (w - p)) x).0 e),
      λ e. (==_iff _ _).1 (omega (arith, parts, e)),
    )

width-lt : (a : IpAddr) → width a < 256
width-lt (v4 n) = omega arith
width-lt (v6 n) = omega arith

-- A network is valid, as the code tests it, exactly when its prefix fits the family, its address is no
-- multicast address, and no bit is set outside the prefix.
pub valid_network_iff :
    (n : AllowedIp)
    → IsAddress n.network
    → (valid_network n ≡ true)
      ↔ ((n.prefix_length ≤ width n.network) × (is_multicast n.network ≡ false) × HasNoHostBits n)
unfolding valid_network
valid_network_iff n fits = elim (Bool-cases (ltb (width n.network) n.prefix_length)) [
  | inl wide ↦ (λ h. absurd (ground (arith, wide)), λ h. absurd (ground (arith, wide)))
  | inr fit ↦
      let host =
        no_host_bits_iff (width n.network) n.prefix_length (bits n.network) (width-lt n.network)
          (ground (arith, fit)) fits in
      (
        λ h. (ground arith, ground arith, host.0 (ground arith)),
        λ h. let e = host.1 h.2 in ground arith,
      )
]
