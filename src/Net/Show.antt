-- ===== src/Net/Show.antt =====
-- `Display` of `std::net::IpAddr`: dotted decimal, and the groups of IPv6 in hexadecimal with the first
-- longest run of two or more zero groups left out.
use cyberia_vpn.Prelude.{
  ℕ, zero, suc, ◌+◌, ◌-◌, ◌/◌, ◌%◌, ◌^◌, ◌≡◌, refl, List, [], ◌∷◌, ◌++◌, ltb, ◌==◌, if◌then◌else◌,
}
use cyberia_vpn.Text.{Text, lit, decimal}
use cyberia_vpn.Net.{IpAddr, v4, v6}

unfoldable pub dotted : ℕ → Text
dotted n =
    decimal (n / 16777216)
    ++ lit "."
    ++ decimal (n / 65536 % 256)
    ++ lit "."
    ++ decimal (n / 256 % 256)
    ++ lit "."
    ++ decimal (n % 256)

unfoldable pub hex_digit : ℕ → ℕ
hex_digit d = if ltb d 10 then b'0' + d else b'a' + (d - 10)

-- A group in hexadecimal, without leading zeros.
unfoldable pub hex_group : ℕ → Text
unfolding hex_digit
hex_group g =
    if ltb g 16
    then hex_digit g ∷ []
    else if ltb g 256
    then hex_digit (g / 16) ∷ hex_digit (g % 16) ∷ []
    else if ltb g 4096
    then hex_digit (g / 256) ∷ hex_digit (g / 16 % 16) ∷ hex_digit (g % 16) ∷ []
    else hex_digit (g / 4096)
      ∷ hex_digit (g / 256 % 16)
      ∷ hex_digit (g / 16 % 16)
      ∷ hex_digit (g % 16)
      ∷ []

-- The `k` highest groups of an address of `k` groups.
unfoldable pub groups : ℕ → ℕ → List ℕ
groups zero n = []
groups (suc k) n = n / 65536 ^ k % 65536 ∷ groups k n

unfoldable pub join_groups : List ℕ → Text
join_groups [] = []
join_groups (g ∷ []) = hex_group g
join_groups (g ∷ h ∷ gs) = hex_group g ++ lit ":" ++ join_groups (h ∷ gs)

unfoldable pub leading_zeros : List ℕ → ℕ
leading_zeros [] = 0
leading_zeros (g ∷ gs) = let rest = leading_zeros gs in if g == 0 then suc rest else 0

-- Where the first longest run of zero groups starts, and how long it is; `at` is the place of the head.
unfoldable pub longest_run : ℕ → List ℕ → ℕ × ℕ
unfolding leading_zeros
longest_run at [] = (at, 0)
longest_run at (g ∷ gs) =
    let rest = longest_run (suc at) gs in
    let own = leading_zeros (g ∷ gs) in if ltb own rest.1 then rest else (at, own)

unfoldable pub drop : ℕ → List ℕ → List ℕ
drop zero xs = xs
drop (suc n) [] = []
drop (suc n) (x ∷ xs) = drop n xs

unfoldable pub take : ℕ → List ℕ → List ℕ
take zero xs = []
take (suc n) [] = []
take (suc n) (x ∷ xs) = x ∷ take n xs

unfoldable pub show_v6 : ℕ → Text
unfolding groups longest_run take drop join_groups
show_v6 n =
    let gs = groups 8 n in
    let run = longest_run 0 gs in
    if n / 4294967296 == 65535
    then lit "::ffff:" ++ dotted (n % 4294967296)
    else if ltb 1 run.1
    then join_groups (take run.0 gs) ++ lit "::" ++ join_groups (drop (run.0 + run.1) gs)
    else join_groups gs

unfoldable pub show_ip : IpAddr → Text
show_ip (v4 n) = dotted n
show_ip (v6 n) = show_v6 n

show_test :
    (show_ip (v4 3232235777) ≡ lit "192.168.1.1")
    × (show_ip (v6 1) ≡ lit "::1")
    × (show_ip (v6 0) ≡ lit "::")
    × (show_ip (v6 42540766411282592856903984951653826561) ≡ lit "2001:db8::1")
unfolding show_ip show_v6 dotted hex_group groups join_groups leading_zeros longest_run drop take
    decimal lit
show_test = (refl, refl, refl, refl)
