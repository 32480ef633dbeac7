-- ===== src/Net/Parse/Dotted.antt =====
-- The dotted notation of an IPv4 address is read back.
use mathlib.Core.List.{append_assoc}
use cyberia_vpn.Prelude.{ℕ, ◌/◌, ◌%◌, ◌<◌, ◌≡◌, refl, ap, some, ◌∷◌, ◌++◌, arith}
use cyberia_vpn.Text.{Text, lit, decimal}
use cyberia_vpn.Text.Reader.{given, to_digit}
use cyberia_vpn.Net.Show.{dotted}
use cyberia_vpn.Net.Parse.{read_octet, read_ipv4}
use cyberia_vpn.Net.Parse.Digits.{Stops, read_octet-decimal}

read_octet-dot :
    (n : ℕ) (rest : Text)
    → n < 256
    → read_octet (decimal n ++ (b'.' ∷ rest)) ≡ some (n, b'.' ∷ rest)
unfolding to_digit
read_octet-dot n rest h = read_octet-decimal n (b'.' ∷ rest) h refl

dotted-parts :
    (n : ℕ) (rest : Text)
    → dotted n ++ rest
      ≡ decimal (n / 16777216)
        ++ (b'.'
            ∷ (decimal (n / 65536 % 256)
                ++ (b'.' ∷ (decimal (n / 256 % 256) ++ (b'.' ∷ (decimal (n % 256) ++ rest))))))
unfolding dotted lit
dotted-parts n rest = simp append_assoc

-- An IPv4 address is read back from its dotted notation.
pub read_ipv4-dotted :
    (n : ℕ) (rest : Text)
    → n < 4294967296
    → Stops 10 rest
    → read_ipv4 (dotted n ++ rest) ≡ some (n, rest)
unfolding read_ipv4 given
read_ipv4-dotted n rest h s =
    let last = decimal (n % 256) ++ rest in
    let third = decimal (n / 256 % 256) ++ (b'.' ∷ last) in
    let second = decimal (n / 65536 % 256) ++ (b'.' ∷ third) in
    rw (dotted-parts n rest) (
      rw (read_octet-dot (n / 16777216) second (omega arith)) (
        rw (read_octet-dot (n / 65536 % 256) third (omega arith)) (
          rw (read_octet-dot (n / 256 % 256) last (omega arith)) (
            rw (read_octet-decimal (n % 256) rest (omega arith) s)
              (ap (λ m. some (m, rest)) (omega arith))))))
