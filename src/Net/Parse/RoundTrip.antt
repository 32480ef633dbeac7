-- ===== src/Net/Parse/RoundTrip.antt =====
-- An address is read back from the text that the standard library shows it by.
use mathlib.Core.List.{append_assoc, append-nil}
use cyberia_vpn.Prelude.{
  ℕ, ◌+◌, ◌-◌, ◌/◌, ◌%◌, ◌^◌, ◌<◌, ◌≡◌, refl, sym, ap, subst, ◌∙◌, inl, inr, true, false, none,
  some, List, [], ◌∷◌, ◌++◌, arith, ltb, ◌==◌, ltb→lt, ==_iff, Bool-cases, length,
}
use cyberia_vpn.Text.{Text, lit}
use cyberia_vpn.Text.Reader.{given, to_digit, read_number}
use cyberia_vpn.Net.{IpAddr, v4, v6, IsAddress}
use cyberia_vpn.Net.Show.{dotted, groups, longest_run, take, drop, join_groups, show_v6, show_ip}
use cyberia_vpn.Net.Parse.{
  read_octet, read_group, read_ipv4, read_groups, read_ipv6, read_ip, parse_ip, after_head, fill,
  Groups, whole,
}
use cyberia_vpn.Net.Parse.Dotted.{read_ipv4-dotted}
use cyberia_vpn.Net.Parse.Groups.{
  HasNoDot-append, HasNoDot-join, read_ipv4-no_dot, groups_colons, read_groups-join_front,
  nil-IsEnd, colons-IsEnd,
}
use cyberia_vpn.Net.Parse.Compressed.{
  IsSplit, longest_run-IsSplit, groups-AreGroups, length-groups, from_groups-groups,
}

ipv4_last : (m : ℕ) → m < 4294967296 → read_ipv4 (dotted m) ≡ some (m, [])
ipv4_last m h =
    subst (λ t. read_ipv4 t ≡ some (m, [])) (append-nil (dotted m)) (read_ipv4-dotted m [] h tt)

ipv4_groups :
    (m : ℕ)
    → m < 4294967296
    → read_groups 6 1 (b':' ∷ dotted m) ≡ ((m / 65536 ∷ m % 65536 ∷ [], true), [])
unfolding read_groups given
ipv4_groups m h = rw (ipv4_last m h) refl

mapped_groups :
    (m : ℕ)
    → m < 4294967296
    → read_groups 7 0 (b'f' ∷ b'f' ∷ b'f' ∷ b'f' ∷ b':' ∷ dotted m)
      ≡ ((65535 ∷ m / 65536 ∷ m % 65536 ∷ [], true), [])
unfolding read_groups read_ipv4 read_octet read_group read_number to_digit
mapped_groups m h = ap (λ (r : Groups). ((65535 ∷ r.0.0, r.0.1), r.1)) (ipv4_groups m h)

read_mapped :
    (n : ℕ)
    → n / 4294967296 ≡ 65535
    → read_ipv6 (lit "::ffff:" ++ dotted (n % 4294967296)) ≡ some (n, [])
unfolding read_ipv6 lit given
read_mapped n h =
    let m = n % 4294967296 in
    ap after_head (groups_colons 8 0 (b'f' ∷ b'f' ∷ b'f' ∷ b'f' ∷ b':' ∷ dotted m))
    ∙ ap (fill []) (mapped_groups m (omega arith))
    ∙ ap (λ k. some (k, [])) (omega arith)

read_full : (n : ℕ) → n < 2 ^ 128 → read_ipv6 (join_groups (groups 8 n)) ≡ some (n, [])
unfolding read_ipv6
read_full n h =
    let gs = groups 8 n in
    let all_read : read_groups 8 0 (join_groups gs) ≡ ((gs, false), []) =
      subst (λ t. read_groups 8 0 t ≡ ((gs, false), [])) (append-nil (join_groups gs))
        (read_groups-join_front gs 8 [] (groups-AreGroups 8 n) (omega (arith, length-groups 8 n))
          nil-IsEnd) in
    let eight : (length gs == 8) ≡ true = ground (arith, length-groups 8 n) in
    ap after_head all_read ∙ rw eight (ap (λ k. some (k, [])) (from_groups-groups n h))

read_compressed :
    (n : ℕ) (head tail : List ℕ) (count : ℕ)
    → IsSplit n head tail count
    → 1 < count
    → read_ipv6 (join_groups head ++ lit "::" ++ join_groups tail) ≡ some (n, [])
unfolding read_ipv6 lit given
read_compressed n head tail count s more =
    let behind = join_groups tail ++ [] in
    let parts : join_groups head ++ (b':' ∷ b':' ∷ []) ++ join_groups tail
        ≡ join_groups head ++ (b':' ∷ b':' ∷ behind) =
      append_assoc (join_groups head) (b':' ∷ b':' ∷ []) (join_groups tail)
      ∙ ap (λ t. join_groups head ++ (b':' ∷ b':' ∷ t)) (sym (append-nil (join_groups tail))) in
    let no_dot = HasNoDot-append (join_groups tail) [] (HasNoDot-join tail) tt in
    let not_full : (length head == 8) ≡ false = ground (arith, s.fills) in
    let left : 8 - length head - length tail ≡ count = omega (arith, s.fills) in
    ap (λ t. after_head (read_groups 8 0 t)) parts
    ∙ ap after_head (
        read_groups-join_front head 8 (b':' ∷ b':' ∷ behind) s.small_head (omega (arith, s.fills))
          (colons-IsEnd behind no_dot))
    ∙ rw not_full (
        ap (fill head) (
          read_groups-join_front tail (8 - (length head + 1)) [] s.small_tail
            (omega (arith, s.fills)) nil-IsEnd)
        ∙ rw left (ap (λ k. some (k, [])) s.value))

-- What is shown of an IPv6 address does not begin with an IPv4 address.
no_ipv4_mapped : (m : ℕ) → read_ipv4 (lit "::ffff:" ++ dotted m) ≡ none
unfolding read_ipv4 read_octet read_number to_digit lit
no_ipv4_mapped m = refl

no_ipv4_compressed :
    (head tail : List ℕ) → read_ipv4 (join_groups head ++ lit "::" ++ join_groups tail) ≡ none
unfolding lit
no_ipv4_compressed head tail =
    read_ipv4-no_dot (join_groups head ++ (b':' ∷ b':' ∷ []) ++ join_groups tail) (
      HasNoDot-append (join_groups head ++ (b':' ∷ b':' ∷ [])) (join_groups tail)
        (HasNoDot-append (join_groups head) (b':' ∷ b':' ∷ []) (HasNoDot-join head)
          (refl, (refl, tt)))
        (HasNoDot-join tail))

-- The two attempts on the text of an IPv6 address.
abbrev IsRead : ℕ → Text → Type 0
IsRead n t = (read_ipv4 t ≡ none) × (read_ipv6 t ≡ some (n, []))

show_v6-IsRead : (n : ℕ) → n < 2 ^ 128 → IsRead n (show_v6 n)
unfolding show_v6
show_v6-IsRead n h =
    let gs = groups 8 n in
    let run = longest_run 0 gs in
    elim (Bool-cases (n / 4294967296 == 65535)) [
      | inl e ↦
          rw e
            (no_ipv4_mapped (n % 4294967296), read_mapped n ((==_iff (n / 4294967296) 65535).0 e))
      | inr e ↦ elim (Bool-cases (ltb 1 run.1)) [
        | inl q ↦
            rw (e, q)
              (
                no_ipv4_compressed (take run.0 gs) (drop (run.0 + run.1) gs),
                read_compressed n (take run.0 gs) (drop (run.0 + run.1) gs) run.1
                    (longest_run-IsSplit n h) (ltb→lt 1 run.1 q),
              )
        | inr q ↦ rw (e, q) (read_ipv4-no_dot (join_groups gs) (HasNoDot-join gs), read_full n h)
      ]
    ]

read_v4 : (n : ℕ) → n < 2 ^ 32 → read_ip (dotted n) ≡ some (v4 n, [])
unfolding read_ip
read_v4 n h = rw (ipv4_last n (omega arith)) refl

read_v6 : (n : ℕ) (t : Text) → IsRead n t → read_ip t ≡ some (v6 n, [])
unfolding read_ip
read_v6 n t h = rw (h.0) (rw (h.1) refl)

-- An address is read back from the text that it is shown by, with every way of leaving groups out.
pub parse_ip-show_ip : (a : IpAddr) → IsAddress a → parse_ip (show_ip a) ≡ some a
unfolding parse_ip show_ip
parse_ip-show_ip (v4 n) h = ap whole (read_v4 n h)
parse_ip-show_ip (v6 n) h = ap whole (read_v6 n (show_v6 n) (show_v6-IsRead n h))
