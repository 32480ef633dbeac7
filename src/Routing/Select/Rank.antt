-- ===== src/Routing/Select/Rank.antt =====
-- The order by which core/routing/src/lib.rs compares scored nodes.
use cyberia_vpn.Prelude.{◌<◌, Ordering, ◌≡◌, refl, ◌⊎◌, inl, inr, arith}
use cyberia_vpn.Text.{Text, text_cmp}
use cyberia_vpn.Text.Order.{text_cmp_eq, text_cmp-swap, text_cmp_trans}
use cyberia_vpn.Routing.Select.{Ranked, better}

-- `x` ranks at least as high as `y`: a higher score, or the same score and an ID that is not greater.
abbrev pub Outranks : Ranked → Ranked → Type 0
Outranks x y =
    (y.1 < x.1) ⊎ ((x.1 ≡ y.1) × ((x.0.id ≡ y.0.id) ⊎ (text_cmp x.0.id y.0.id ≡ Ordering.lt)))

text_cmp_cases :
    (a b : Text) → (a ≡ b) ⊎ (text_cmp a b ≡ Ordering.lt) ⊎ (text_cmp b a ≡ Ordering.lt)
text_cmp_cases a b = ground (arith, text_cmp_eq a b, text_cmp-swap a b)

pub Outranks-refl : (x : Ranked) → Outranks x x
Outranks-refl x = inr (refl, inl refl)

pub Outranks-trans : (x y z : Ranked) → Outranks x y → Outranks y z → Outranks x z
Outranks-trans x y z h k = ground (arith, text_cmp_trans x.0.id y.0.id z.0.id)

pub better-Outranks : (x y : Ranked) → Outranks (better x y) x × Outranks (better x y) y
unfolding better
better-Outranks x y = ground (arith, text_cmp_eq y.0.id x.0.id, text_cmp-swap x.0.id y.0.id)

-- Two nodes that rank at least as high as one another have one score and one ID.
pub Outranks-antisym :
    (x y : Ranked) → Outranks x y → Outranks y x → (x.1 ≡ y.1) × (x.0.id ≡ y.0.id)
Outranks-antisym x y h k = ground (arith, text_cmp-swap x.0.id y.0.id)
