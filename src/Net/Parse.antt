-- ===== src/Net/Parse.antt =====
-- `str::parse` of `std::net::IpAddr`: the parser of the standard library, which core/killswitch and
-- apps/linux-client call on endpoints and networks.
pub mod Digits
pub mod Dotted
pub mod Groups
pub mod Compressed
pub mod RoundTrip
use cyberia_vpn.Prelude.{
  ℕ, zero, suc, ◌+◌, ◌-◌, ◌*◌, ◌/◌, ◌%◌, ◌^◌, ◌≤◌, ◌<◌, min, compare, Ordering, ◌≡◌, refl, sym, ap,
  subst, ◌∙◌, ◌≢◌, ◌↔◌, ◌⊎◌, inl, inr, Bool, true, false, not, ◌&&◌, ◌||◌, Option, none, some, List,
  [], ◌∷◌, ◌++◌, map, arith, ltb, leb, ◌==◌, if◌then◌else◌, ltb→lt, lt→ltb, leb→le, le→leb, ==_iff,
  Bool-cases, Option-cases, Result-cases, Result, ok, err, fail_if, ok_or, map_err, is_ok, is_some,
  length, any, all, keep, find, All, Has, here, there, Has-All, Has-append, find-Has, find-some,
  keep-Has, Has-keep, length-append, u32_max, u64_max, u16, u32, u64, u128, to_u32, to_u64,
  saturating_add,
}
use cyberia_vpn.Text.{Text, lit}
use cyberia_vpn.Text.Reader.{Reader, pure, ◌>>=◌, ◌>>◌, otherwise, given, separated, read_number}
use cyberia_vpn.Net.{IpAddr, v4, v6}

-- A number of the dotted notation, without leading zeros, and a group of an IPv6 address.
unfoldable pub read_octet : Reader ℕ
unfolding read_number
read_octet = read_number 10 3 false 255

unfoldable pub read_group : Reader ℕ
unfolding read_number
read_group = read_number 16 4 true 65535

unfoldable pub read_ipv4 : Reader ℕ
read_ipv4 = do
  a ← read_octet
  given b'.'
  b ← read_octet
  given b'.'
  c ← read_octet
  given b'.'
  d ← read_octet
  pure (a * 16777216 + b * 65536 + c * 256 + d)

-- The groups that were read, whether the last two came from an IPv4 address, and what follows.
abbrev pub Groups : Type 0
Groups = (List ℕ × Bool) × Text

abbrev pub after_group : (Text → Groups) → Text → Option (ℕ × Text) → Groups
after_group more t none = (([], false), t)
after_group more t (some (g, rest)) = let later = more rest in ((g ∷ later.0.0, later.0.1), later.1)

abbrev pub after_ipv4 : Option (ℕ × Text) → Groups → Groups
after_ipv4 none other = other
after_ipv4 (some (n, rest)) other = ((n / 65536 ∷ n % 65536 ∷ [], true), rest)

-- `read_groups`, with the number of slots that are left, and the place of the next one.
unfoldable pub read_groups : ℕ → ℕ → Text → Groups
read_groups zero i t = (([], false), t)
read_groups (suc k) i t =
    after_ipv4 (if ltb 0 k then separated b':' i read_ipv4 t else none)
      (after_group (read_groups k (suc i)) t (separated b':' i read_group t))

abbrev pub zeros : ℕ → List ℕ
zeros zero = []
zeros (suc n) = 0 ∷ zeros n

-- The number whose groups these are.
abbrev pub from_groups : ℕ → List ℕ → ℕ
from_groups n [] = n
from_groups n (g ∷ gs) = from_groups (n * 65536 + g) gs

-- What stands behind the two colons fills the address up from its end.
abbrev pub fill : List ℕ → Groups → Option (ℕ × Text)
fill head tail =
    some (from_groups 0 (head ++ (zeros (8 - length head - length tail.0.0) ++ tail.0.0)), tail.1)

abbrev pub after_head : Groups → Option (ℕ × Text)
after_head head =
    if length head.0.0 == 8
    then some (from_groups 0 head.0.0, head.1)
    else if head.0.1
    then none
    else (do
      given b':'
      given b':'
      λ rest. fill head.0.0 (read_groups (8 - (length head.0.0 + 1)) 0 rest))
        head.1

unfoldable pub read_ipv6 : Reader ℕ
unfolding read_groups
read_ipv6 t = after_head (read_groups 8 0 t)

abbrev pub whole : Option (IpAddr × Text) → Option IpAddr
whole (some (a, [])) = some a
whole _ = none

unfoldable pub read_ip : Reader IpAddr
read_ip t = otherwise ((do n ← read_ipv4; pure (v4 n)) t) ((do n ← read_ipv6; pure (v6 n)) t)

-- Nothing may follow the address.
unfoldable pub parse_ip : Text → Option IpAddr
unfolding read_ip
parse_ip t = whole (read_ip t)

parse_test :
    (parse_ip (lit "192.168.1.1") ≡ some (v4 3232235777))
    × (parse_ip (lit "192.168.01.1") ≡ none)
    × (parse_ip (lit "192.168.1.1 ") ≡ none)
    × (parse_ip (lit "::") ≡ some (v6 0))
    × (parse_ip (lit "2001:DB8::1") ≡ some (v6 42540766411282592856903984951653826561))
    × (parse_ip (lit "::ffff:1.2.3.4") ≡ some (v6 281470698652420))
    × (parse_ip (lit "1:2:3:4:5:6:7:8:9") ≡ none)
unfolding parse_ip read_ipv4 read_ipv6 read_groups read_octet read_group read_number
    cyberia_vpn.Text.Reader.read_digits cyberia_vpn.Text.Reader.to_digit given lit
parse_test = (refl, refl, refl, refl, refl, refl, refl)
