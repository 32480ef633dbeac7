-- ===== src/Text/Order.antt =====
-- `text_cmp` is a total order whose equality is equality of the texts.
use cyberia_vpn.Prelude.{◌≡◌, refl, [], ◌∷◌, Ordering, arith}
use cyberia_vpn.Text.{Text, text_cmp}

pub text_cmp_refl : (a : Text) → text_cmp a a ≡ Ordering.eq
unfolding text_cmp
text_cmp_refl [] = refl
text_cmp_refl (x ∷ xs) = ground (arith, text_cmp_refl xs)

pub text_cmp_eq : (a b : Text) → text_cmp a b ≡ Ordering.eq → a ≡ b
unfolding text_cmp
text_cmp_eq [] [] h = refl
text_cmp_eq [] (y ∷ ys) h = cc
text_cmp_eq (x ∷ xs) [] h = cc
text_cmp_eq (x ∷ xs) (y ∷ ys) h = ground (arith, text_cmp_eq xs ys)

-- The opposite of a comparison.
abbrev pub swap : Ordering → Ordering
swap Ordering.lt = Ordering.gt
swap Ordering.eq = Ordering.eq
swap Ordering.gt = Ordering.lt

pub text_cmp-swap : (a b : Text) → text_cmp b a ≡ swap (text_cmp a b)
unfolding text_cmp
text_cmp-swap [] [] = refl
text_cmp-swap [] (y ∷ ys) = refl
text_cmp-swap (x ∷ xs) [] = refl
text_cmp-swap (x ∷ xs) (y ∷ ys) = ground (arith, text_cmp-swap xs ys)

pub text_cmp_trans :
    (a b c : Text)
    → text_cmp a b ≡ Ordering.lt
    → text_cmp b c ≡ Ordering.lt
    → text_cmp a c ≡ Ordering.lt
unfolding text_cmp
text_cmp_trans [] [] c h k = cc
text_cmp_trans [] (y ∷ ys) [] h k = cc
text_cmp_trans [] (y ∷ ys) (z ∷ zs) h k = refl
text_cmp_trans (x ∷ xs) [] c h k = cc
text_cmp_trans (x ∷ xs) (y ∷ ys) [] h k = cc
text_cmp_trans (x ∷ xs) (y ∷ ys) (z ∷ zs) h k = ground (arith, text_cmp_trans xs ys zs)
