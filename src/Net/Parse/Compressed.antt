-- ===== src/Net/Parse/Compressed.antt =====
-- The groups of an IPv6 address, and what the longest run of zeros leaves of them.
use cyberia_vpn.Prelude.{
  ℕ, zero, suc, ◌+◌, ◌*◌, ◌^◌, ◌<◌, ◌≡◌, refl, sym, ap, subst, ◌∙◌, inl, inr, List, [], ◌∷◌, ◌++◌,
  arith, ltb, ◌==◌, Bool-cases, length, All, length-append,
}
use cyberia_vpn.Net.Show.{groups, leading_zeros, longest_run, take, drop}
use cyberia_vpn.Net.Parse.{zeros, from_groups}

abbrev pub AreGroups : List ℕ → Type 0
AreGroups gs = All (λ g. g < 65536) gs

pub from_groups-append :
    (n : ℕ) (gs hs : List ℕ) → from_groups n (gs ++ hs) ≡ from_groups (from_groups n gs) hs
from_groups-append n [] hs = refl
from_groups-append n (g ∷ gs) hs = from_groups-append (n * 65536 + g) gs hs

-- The eight groups of an address of 128 bits are groups, and make the address.
pub groups-AreGroups : (k n : ℕ) → AreGroups (groups k n)
unfolding groups
groups-AreGroups zero n = tt
groups-AreGroups (suc k) n = (omega arith, groups-AreGroups k n)

pub length-groups : (k n : ℕ) → length (groups k n) ≡ k
unfolding groups
length-groups zero n = refl
length-groups (suc k) n = ap suc (length-groups k n)

pub from_groups-groups : (n : ℕ) → n < 2 ^ 128 → from_groups 0 (groups 8 n) ≡ n
unfolding groups
from_groups-groups n h = omega arith

zeros_leading : (gs : List ℕ) → zeros (leading_zeros gs) ++ drop (leading_zeros gs) gs ≡ gs
unfolding leading_zeros drop
zeros_leading [] = refl
zeros_leading (g ∷ gs) = elim (Bool-cases (g == 0)) [
  | inl e ↦ let same : g ≡ 0 = ground arith in rw e (rw same (ap (λ hs. 0 ∷ hs) (zeros_leading gs)))
  | inr e ↦ rw e refl
]

-- Where the longest run starts behind the place of the head, and that it is a run of zeros.
record IsRun (at : ℕ) (gs : List ℕ) (run : ℕ × ℕ) : Type 0 where
  before : ℕ
  starts : run.0 ≡ at + before
  split : take before gs ++ (zeros run.1 ++ drop (before + run.1) gs) ≡ gs

longest_run-IsRun : (at : ℕ) (gs : List ℕ) → IsRun at gs (longest_run at gs)
unfolding longest_run take drop
longest_run-IsRun at [] = record { before = 0; starts = omega arith; split = refl }
longest_run-IsRun at (g ∷ gs) =
    let rest = longest_run-IsRun (suc at) gs in
    elim (Bool-cases (ltb (leading_zeros (g ∷ gs)) (longest_run (suc at) gs).1)) [
      | inl e ↦ rw e (record {
        before = suc rest.before;
        starts = omega (arith, rest.starts);
        split =
            let later : suc rest.before + (longest_run (suc at) gs).1
                ≡ suc (rest.before + (longest_run (suc at) gs).1) =
              omega arith in
            rw later (ap (λ hs. g ∷ hs) rest.split);
      })
      | inr e ↦ rw e (record {
        before = 0;
        starts = omega arith;
        split =
            ap (λ k. zeros (leading_zeros (g ∷ gs)) ++ drop k (g ∷ gs)) (omega arith)
            ∙ zeros_leading (g ∷ gs);
      })
    ]

length-zeros : (n : ℕ) → length (zeros n) ≡ n
length-zeros zero = refl
length-zeros (suc n) = ap suc (length-zeros n)

AreGroups-parts : (xs ys : List ℕ) → AreGroups (xs ++ ys) → AreGroups xs × AreGroups ys
AreGroups-parts [] ys h = (tt, h)
AreGroups-parts (x ∷ xs) ys h = let both = AreGroups-parts xs ys h.1 in ((h.0, both.0), both.1)

-- What an address of eight groups is shown by when a run of zeros is left out.
pub record IsSplit (n : ℕ) (head tail : List ℕ) (count : ℕ) : Type 0 where
  pub fills : length head + count + length tail ≡ 8
  pub small_head : AreGroups head
  pub small_tail : AreGroups tail
  pub value : from_groups 0 (head ++ (zeros count ++ tail)) ≡ n

pub longest_run-IsSplit :
    (n : ℕ)
    → n < 2 ^ 128
    → let run = longest_run 0 (groups 8 n) in
      IsSplit n (take run.0 (groups 8 n)) (drop (run.0 + run.1) (groups 8 n)) run.1
longest_run-IsSplit n h =
    let run = longest_run 0 (groups 8 n) in
    let found = longest_run-IsRun 0 (groups 8 n) in
    let head = take run.0 (groups 8 n) in
    let tail = drop (run.0 + run.1) (groups 8 n) in
    let start : found.before ≡ run.0 = omega (arith, found.starts) in
    let whole : head ++ (zeros run.1 ++ tail) ≡ groups 8 n =
      subst
        (λ k. take k (groups 8 n) ++ (zeros run.1 ++ drop (k + run.1) (groups 8 n)) ≡ groups 8 n)
        start found.split in
    let small = subst AreGroups (sym whole) (groups-AreGroups 8 n) in
    let apart = AreGroups-parts head (zeros run.1 ++ tail) small in
    record {
      fills = omega (
        arith,
        length-append head (zeros run.1 ++ tail),
        length-append (zeros run.1) tail,
        length-zeros run.1,
        ap length whole,
        length-groups 8 n,
      );
      small_head = apart.0;
      small_tail = (AreGroups-parts (zeros run.1) tail apart.1).1;
      value = ap (from_groups 0) whole ∙ from_groups-groups n h;
    }
