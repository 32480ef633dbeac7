-- ===== src/Net/Parse/Groups.antt =====
-- The groups of an IPv6 address are read back; a text without a dot holds no IPv4 address.
use mathlib.Core.List.{append_assoc}
use cyberia_vpn.Prelude.{
  ℕ, zero, suc, ◌+◌, ◌*◌, ◌≤◌, ◌<◌, ◌≡◌, refl, ap, ◌∙◌, inl, inr, Bool, true, false, Option, none,
  some, List, [], ◌∷◌, ◌++◌, map, arith, ltb, ◌==◌, if◌then◌else◌, Bool-cases, Option-cases, length,
  All,
}
use cyberia_vpn.Text.{Text, lit}
use cyberia_vpn.Text.Reader.{given, go_on, separated, to_digit, read_digits, read_number}
use cyberia_vpn.Net.Show.{hex_digit, hex_group, join_groups}
use cyberia_vpn.Net.Parse.{
  read_octet, read_group, read_ipv4, read_groups, after_group, after_ipv4, Groups,
}
use cyberia_vpn.Net.Parse.Digits.{Stops, hex_group-digits, hex_digits, read_group-hex_group}

abbrev pub HasNoDot : Text → Type 0
HasNoDot t = All (λ b. (b == b'.') ≡ false) t

pub HasNoDot-append : (s t : Text) → HasNoDot s → HasNoDot t → HasNoDot (s ++ t)
HasNoDot-append [] t h k = k
HasNoDot-append (b ∷ bs) t h k = (h.0, HasNoDot-append bs t h.1 k)

HasNoDot-digits : (ds : List ℕ) → HasNoDot (map hex_digit ds)
unfolding hex_digit
HasNoDot-digits [] = tt
HasNoDot-digits (d ∷ ds) = (ground arith, HasNoDot-digits ds)

pub HasNoDot-hex_group : (g : ℕ) → HasNoDot (hex_group g)
HasNoDot-hex_group g = rw (hex_group-digits g) (HasNoDot-digits (hex_digits g))

given_dot : (t : Text) → HasNoDot t → given b'.' t ≡ none
unfolding given
given_dot [] h = refl
given_dot (b ∷ bs) h = rw (h.0) refl

-- What a reader leaves has no dot.
abbrev LeavesNoDot : {A : Type 0} → Option (A × Text) → Type 0
LeavesNoDot none = Unit {0}
LeavesNoDot (some (a, rest)) = HasNoDot rest

digits-LeavesNoDot :
    (radix maximum value count : ℕ) (t : Text)
    → HasNoDot t
    → LeavesNoDot (read_digits radix maximum value count t)
unfolding read_digits
digits-LeavesNoDot radix maximum value count [] h = tt
digits-LeavesNoDot radix maximum value count (b ∷ bs) h = elim (Option-cases (to_digit radix b)) [
  | inl e ↦ rw (e, read_digits) h
  | inr (d, e) ↦ elim (Bool-cases (ltb maximum (suc count))) [
    | inl q ↦ rw (e, read_digits) (rw (q, read_digits) tt)
    | inr q ↦
        rw (e, read_digits)
          (rw (q, read_digits)
            (digits-LeavesNoDot radix maximum (value * radix + d) (suc count) bs h.1))
  ]
]

test-LeavesNoDot :
    (r : Option ((ℕ × ℕ) × Text)) (refused : ℕ × ℕ → Bool)
    → LeavesNoDot r
    → LeavesNoDot (go_on r (λ v rest. if refused v then none else some (v.0, rest)))
test-LeavesNoDot none refused h = tt
test-LeavesNoDot (some (v, rest)) refused h = elim (Bool-cases (refused v)) [
  | inl e ↦ rw e tt
  | inr e ↦ rw e h
]

octet-LeavesNoDot : (t : Text) → HasNoDot t → LeavesNoDot (read_octet t)
unfolding read_octet read_number
octet-LeavesNoDot t h = test-LeavesNoDot _ _ (digits-LeavesNoDot 10 3 0 0 t h)

no_dot_follows :
    {A B : Type 0} (r : Option (A × Text)) (f : A → Unit {0} → Text → Option (B × Text))
    → LeavesNoDot r
    → go_on r (λ a rest. go_on (given b'.' rest) (f a)) ≡ none
no_dot_follows none f h = refl
no_dot_follows (some (a, rest)) f h = rw (given_dot rest h) refl

pub read_ipv4-no_dot : (t : Text) → HasNoDot t → read_ipv4 t ≡ none
unfolding read_ipv4
read_ipv4-no_dot t h = no_dot_follows (read_octet t) _ (octet-LeavesNoDot t h)

no_ipv4 : (b : Bool) (other : Groups) → after_ipv4 (if b then none else none) other ≡ other
no_ipv4 true other = refl
no_ipv4 false other = refl

-- What stands in front of the group at a place.
abbrev pub behind : ℕ → Text → Text
behind zero t = t
behind (suc i) t = b':' ∷ t

separated-behind :
    {A : Type 0} (i : ℕ) (m : Text → Option (A × Text)) (t : Text)
    → separated b':' i m (behind i t) ≡ m t
unfolding given
separated-behind zero m t = refl
separated-behind (suc i) m t = refl

group_step :
    (k i g : ℕ) (rest : Text)
    → g < 65536
    → Stops 16 rest
    → HasNoDot rest
    → read_groups (suc k) i (behind i (hex_group g ++ rest))
      ≡ after_group (read_groups k (suc i)) (behind i (hex_group g ++ rest)) (some (g, rest))
unfolding read_groups
group_step k i g rest h s d =
    let absent =
      read_ipv4-no_dot (hex_group g ++ rest) (HasNoDot-append _ rest (HasNoDot-hex_group g) d) in
    rw
      (
        separated-behind i read_ipv4 (hex_group g ++ rest),
        separated-behind i read_group (hex_group g ++ rest),
        absent,
        read_group-hex_group g rest h s,
      )
      (no_ipv4 (ltb 0 k) _)

pub groups_end : (k i : ℕ) → read_groups k i [] ≡ (([], false), [])
unfolding read_groups read_ipv4 read_octet read_group read_number given
groups_end zero i = refl
groups_end (suc zero) zero = refl
groups_end (suc (suc k)) zero = no_ipv4 (ltb 0 (suc k)) _
groups_end (suc zero) (suc i) = refl
groups_end (suc (suc k)) (suc i) = no_ipv4 (ltb 0 (suc k)) _

pub groups_colons :
    (k i : ℕ) (t : Text) → read_groups k i (b':' ∷ b':' ∷ t) ≡ (([], false), b':' ∷ b':' ∷ t)
unfolding read_groups read_ipv4 read_octet read_group read_number given to_digit
groups_colons zero i t = refl
groups_colons (suc zero) zero t = refl
groups_colons (suc (suc k)) zero t = no_ipv4 (ltb 0 (suc k)) _
groups_colons (suc zero) (suc i) t = refl
groups_colons (suc (suc k)) (suc i) t = no_ipv4 (ltb 0 (suc k)) _

pub HasNoDot-join : (gs : List ℕ) → HasNoDot (join_groups gs)
unfolding join_groups lit
HasNoDot-join [] = tt
HasNoDot-join (g ∷ []) = HasNoDot-hex_group g
HasNoDot-join (g ∷ h ∷ gs) =
    HasNoDot-append (hex_group g ++ (b':' ∷ [])) (join_groups (h ∷ gs))
      (HasNoDot-append (hex_group g) (b':' ∷ []) (HasNoDot-hex_group g) (refl, tt))
      (HasNoDot-join (h ∷ gs))

-- A text where the groups end: nothing, or two colons.
pub record IsEnd (rest : Text) : Type 0 where
  pub ends : (k i : ℕ) → read_groups k i rest ≡ (([], false), rest)
  pub stops : Stops 16 rest
  pub no_dot : HasNoDot rest

-- Groups that are joined by colons are read back up to where they end, if there are slots enough.
pub read_groups-join :
    (g : ℕ) (gs : List ℕ) (k i : ℕ) (rest : Text)
    → All (λ h. h < 65536) (g ∷ gs)
    → length gs < k
    → IsEnd rest
    → read_groups k i (behind i (join_groups (g ∷ gs) ++ rest)) ≡ ((g ∷ gs, false), rest)
unfolding join_groups lit to_digit
read_groups-join g gs zero i rest small fits e = absurd (omega arith)
read_groups-join g [] (suc k) i rest small fits e =
    group_step k i g rest small.0 e.stops e.no_dot
    ∙ ap (λ (r : Groups). ((g ∷ r.0.0, r.0.1), r.1)) (e.ends k (suc i))
read_groups-join g (h ∷ gs) (suc k) i rest small fits e =
    let next = join_groups (h ∷ gs) ++ rest in
    let parts : join_groups (g ∷ h ∷ gs) ++ rest ≡ hex_group g ++ (b':' ∷ next) =
      append_assoc (hex_group g ++ (b':' ∷ [])) (join_groups (h ∷ gs)) rest
      ∙ append_assoc (hex_group g) (b':' ∷ []) next in
    ap (λ t. read_groups (suc k) i (behind i t)) parts
    ∙ group_step k i g (b':' ∷ next) small.0 refl
        (refl, HasNoDot-append (join_groups (h ∷ gs)) rest (HasNoDot-join (h ∷ gs)) e.no_dot)
    ∙ ap (λ (r : Groups). ((g ∷ r.0.0, r.0.1), r.1))
        (read_groups-join h gs k (suc i) rest small.1 (omega arith) e)

pub nil-IsEnd : IsEnd []
nil-IsEnd = record { ends = groups_end; stops = tt; no_dot = tt }

pub colons-IsEnd : (t : Text) → HasNoDot t → IsEnd (b':' ∷ b':' ∷ t)
unfolding to_digit
colons-IsEnd t h = record {
  ends = λ k i. groups_colons k i t;
  stops = refl;
  no_dot = (refl, (refl, h));
}

-- The same for a list that may be empty, at the front of a text.
pub read_groups-join_front :
    (gs : List ℕ) (k : ℕ) (rest : Text)
    → All (λ h. h < 65536) gs
    → length gs ≤ k
    → IsEnd rest
    → read_groups k 0 (join_groups gs ++ rest) ≡ ((gs, false), rest)
unfolding join_groups
read_groups-join_front [] k rest small fits e = e.ends k 0
read_groups-join_front (g ∷ gs) k rest small fits e =
    read_groups-join g gs k 0 rest small (omega arith) e
