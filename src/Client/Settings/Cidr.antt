-- ===== src/Client/Settings/Cidr.antt =====
-- `parse_cidr` of apps/linux-client/src/lib.rs on the networks that are written by the standard library.
use cyberia_vpn.Prelude.{
  ℕ, zero, suc, ◌+◌, ◌*◌, ◌/◌, ◌%◌, ◌≤◌, ◌<◌, ◌≡◌, refl, ap, ◌∙◌, inl, inr, true, false, some, List,
  [], ◌∷◌, ◌++◌, arith, ltb, leb, ◌==◌, if◌then◌else◌, le→leb, Bool-cases, ok, err, fail_if, All,
}
use cyberia_vpn.Result.{◌>>◌}
use cyberia_vpn.Text.{Text, lit, digits_from, decimal}
use cyberia_vpn.Text.Parse.Numbers.{StartsWithDigit, digits_from-StartsWithDigit}
use cyberia_vpn.Text.Reader.{to_digit, unsigned_value, from_str_radix, split_once}
use cyberia_vpn.Net.{IpAddr, v4, v6, IsAddress, is_ipv4}
use cyberia_vpn.Net.Show.{
  hex_digit, hex_group, dotted, groups, longest_run, take, drop, join_groups, show_v6, show_ip,
}
use cyberia_vpn.Net.Parse.RoundTrip.{parse_ip-show_ip}
use cyberia_vpn.Client.Config.{invalid_field}
use cyberia_vpn.Client.Settings.{parse_cidr}

abbrev HasNoSlash : Text → Type 0
HasNoSlash t = All (λ b. (b == b'/') ≡ false) t

HasNoSlash-append : (s t : Text) → HasNoSlash s → HasNoSlash t → HasNoSlash (s ++ t)
HasNoSlash-append [] t h k = k
HasNoSlash-append (b ∷ bs) t h k = (h.0, HasNoSlash-append bs t h.1 k)

HasNoSlash-digits_from : (f n : ℕ) (out : Text) → HasNoSlash out → HasNoSlash (digits_from f n out)
unfolding digits_from
HasNoSlash-digits_from zero n out h = h
HasNoSlash-digits_from (suc f) n out h = elim (Bool-cases (n / 10 == 0)) [
  | inl e ↦ rw e (ground arith, h)
  | inr e ↦ rw e (HasNoSlash-digits_from f (n / 10) ((b'0' + n % 10) ∷ out) (ground arith, h))
]

HasNoSlash-decimal : (n : ℕ) → HasNoSlash (decimal n)
unfolding decimal
HasNoSlash-decimal n = HasNoSlash-digits_from (suc n) n [] tt

-- One more number, or one more byte, behind a text.
then_decimal : (s : Text) (n : ℕ) → HasNoSlash s → HasNoSlash (s ++ decimal n)
then_decimal s n h = HasNoSlash-append s (decimal n) h (HasNoSlash-decimal n)

then_dot : (s : Text) → HasNoSlash s → HasNoSlash (s ++ lit ".")
unfolding lit
then_dot s h = HasNoSlash-append s (b'.' ∷ []) h (refl, tt)

HasNoSlash-dotted : (n : ℕ) → HasNoSlash (dotted n)
unfolding dotted
HasNoSlash-dotted n = then_decimal _ _ (
    then_dot _
      (then_decimal _ _ (then_dot _ (then_decimal _ _ (then_dot _ (HasNoSlash-decimal _))))))

no_slash_digit : (d : ℕ) → (hex_digit d == b'/') ≡ false
unfolding hex_digit
no_slash_digit d = ground arith

HasNoSlash-hex_group : (g : ℕ) → HasNoSlash (hex_group g)
unfolding hex_group
HasNoSlash-hex_group g =
    let d = no_slash_digit in
    elim (Bool-cases (ltb g 16)) [
      | inl e ↦ rw e (d g, tt)
      | inr e ↦ elim (Bool-cases (ltb g 256)) [
        | inl q ↦ rw (e, q) (d (g / 16), (d (g % 16), tt))
        | inr q ↦ elim (Bool-cases (ltb g 4096)) [
          | inl r ↦ rw (e, q, r) (d (g / 256), (d (g / 16 % 16), (d (g % 16), tt)))
          | inr r ↦
              rw (e, q, r) (d (g / 4096), (d (g / 256 % 16), (d (g / 16 % 16), (d (g % 16), tt))))
        ]
      ]
    ]

HasNoSlash-join_groups : (gs : List ℕ) → HasNoSlash (join_groups gs)
unfolding join_groups lit
HasNoSlash-join_groups [] = tt
HasNoSlash-join_groups (g ∷ []) = HasNoSlash-hex_group g
HasNoSlash-join_groups (g ∷ h ∷ gs) =
    HasNoSlash-append (hex_group g ++ (b':' ∷ [])) (join_groups (h ∷ gs))
      (HasNoSlash-append (hex_group g) (b':' ∷ []) (HasNoSlash-hex_group g) (refl, tt))
      (HasNoSlash-join_groups (h ∷ gs))

HasNoSlash-mapped : (m : ℕ) → HasNoSlash (lit "::ffff:" ++ dotted m)
unfolding lit
HasNoSlash-mapped m = (refl, (refl, (refl, (refl, (refl, (refl, (refl, HasNoSlash-dotted m)))))))

HasNoSlash-compressed :
    (head tail : List ℕ) → HasNoSlash (join_groups head ++ lit "::" ++ join_groups tail)
unfolding lit
HasNoSlash-compressed head tail =
    HasNoSlash-append (join_groups head ++ (b':' ∷ b':' ∷ [])) (join_groups tail)
      (HasNoSlash-append (join_groups head) (b':' ∷ b':' ∷ []) (HasNoSlash-join_groups head)
        (refl, (refl, tt)))
      (HasNoSlash-join_groups tail)

HasNoSlash-show_ip : (a : IpAddr) → HasNoSlash (show_ip a)
unfolding show_ip show_v6
HasNoSlash-show_ip (v4 n) = HasNoSlash-dotted n
HasNoSlash-show_ip (v6 n) =
    let gs = groups 8 n in
    let run = longest_run 0 gs in
    elim (Bool-cases (n / 4294967296 == 65535)) [
      | inl e ↦ rw e (HasNoSlash-mapped (n % 4294967296))
      | inr e ↦ elim (Bool-cases (ltb 1 run.1)) [
        | inl q ↦ rw (e, q) (HasNoSlash-compressed (take run.0 gs) (drop (run.0 + run.1) gs))
        | inr q ↦ rw (e, q) (HasNoSlash-join_groups gs)
      ]
    ]

split_once_lem : (s t : Text) → HasNoSlash s → split_once b'/' (s ++ (b'/' ∷ t)) ≡ some (s, t)
unfolding split_once
split_once_lem [] t h = refl
split_once_lem (b ∷ bs) t h = rw (h.0, split_once_lem bs t h.1) refl

to_digit_last : (n : ℕ) → to_digit 10 (b'0' + n % 10) ≡ some (n % 10)
unfolding to_digit
to_digit_last n = ground arith

last_digit :
    (bound n : ℕ) (out : Text)
    → n ≤ bound
    → unsigned_value 10 bound (n / 10) ((b'0' + n % 10) ∷ out) ≡ unsigned_value 10 bound n out
unfolding unsigned_value
last_digit bound n out h =
    let whole : n / 10 * 10 + n % 10 ≡ n = omega arith in
    rw (unsigned_value, to_digit_last n, whole, le→leb n bound h)
      (ap (λ m. unsigned_value 10 bound m out) whole)

unsigned_value-digits_from :
    (bound f n : ℕ) (out : Text)
    → n < f
    → n ≤ bound
    → unsigned_value 10 bound 0 (digits_from f n out) ≡ unsigned_value 10 bound n out
unfolding digits_from
unsigned_value-digits_from bound zero n out lt h = absurd (omega arith)
unsigned_value-digits_from bound (suc f) n out lt h = elim (Bool-cases (n / 10 == 0)) [
  | inl e ↦ rw e (
      ap (λ m. unsigned_value 10 bound m ((b'0' + n % 10) ∷ out)) (ground arith)
      ∙ last_digit bound n out h)
  | inr e ↦ rw e (
      unsigned_value-digits_from bound f (n / 10) ((b'0' + n % 10) ∷ out) (ground arith)
        (omega arith)
      ∙ last_digit bound n out h)
]

no_plus : (b : ℕ) → b'0' ≤ b → (b == b'+') ≡ false
no_plus b h = ground arith

from_str_radix-digits :
    (bound : ℕ) (t : Text)
    → StartsWithDigit t
    → from_str_radix 10 bound t ≡ unsigned_value 10 bound 0 t
unfolding from_str_radix
from_str_radix-digits bound [] h = absurd h
from_str_radix-digits bound (b ∷ []) h = rw (no_plus b h.0) refl
from_str_radix-digits bound (b ∷ c ∷ bs) h = rw (no_plus b h.0) refl

from_str_radix-decimal : (bound n : ℕ) → n ≤ bound → from_str_radix 10 bound (decimal n) ≡ some n
unfolding decimal unsigned_value
from_str_radix-decimal bound n h =
    from_str_radix-digits bound (digits_from (suc n) n [])
      (digits_from-StartsWithDigit (suc n) n [] (omega arith))
    ∙ unsigned_value-digits_from bound (suc n) n [] (omega arith) h

module _ {A E : Type 0} (a : A) (e : E) where
  at_most :
      (p width : ℕ) → (fail_if (ltb width p) e >> ok a) ≡ (if leb p width then ok a else err e)
  at_most p width = elim (Bool-cases (ltb width p)) [
    | inl q ↦ let longer : leb p width ≡ false = ground (arith, q) in rw (q, longer) refl
    | inr q ↦ let fits : leb p width ≡ true = ground (arith, q) in rw (q, fits) refl
  ]

-- A network that is written as the address, a slash and the prefix length in decimal is read back, if the prefix length
-- is at most the width of the address; with a longer prefix of at most 255, it is refused for that.
pub parse_cidr-show_ip :
    (a : IpAddr) (p : ℕ)
    → IsAddress a
    → p ≤ 255
    → parse_cidr (show_ip a ++ (b'/' ∷ decimal p)) ≡ (
        if leb p (if is_ipv4 a then 32 else 128)
        then ok (a, p)
        else err (invalid_field (lit "CIDR prefix length exceeds address family")))
unfolding parse_cidr
parse_cidr-show_ip a p h small =
    rw
      (
        split_once_lem (show_ip a) (decimal p) (HasNoSlash-show_ip a),
        parse_ip-show_ip a h,
        from_str_radix-decimal 255 p small,
      )
      (at_most (a, p) (invalid_field (lit "CIDR prefix length exceeds address family")) p
        (if is_ipv4 a then 32 else 128))
