-- ===== src/Prelude/Lists.antt =====
-- Lists over the native numbers under the library's names, and predicates by recursion.
use Prim.Native.Nat.{ℕ, suc, ◌+◌}
use mathlib.Core.Path.{◌≡◌, refl, subst}
use mathlib.Core.Logic.{◌⊎◌, inl, inr}
use mathlib.Core.Bool.{Bool, true, false, ◌&&◌, ◌||◌}
use mathlib.Core.List.{List, [], ◌∷◌, ◌++◌}
use mathlib.Core.Option.{Option, none, some}
use native.Mathlib.Omega.{arith}
use cyberia_vpn.Prelude.Tests.{if◌then◌else◌, Bool-cases}

module _ {ℓ} {A : Type ℓ} where
  abbrev pub length : List A → ℕ
  length [] = 0
  length (x ∷ xs) = suc (length xs)

  -- `Iterator::any` and `Iterator::all`.
  abbrev pub any : (A → Bool) → List A → Bool
  any p [] = false
  any p (x ∷ xs) = p x || any p xs

  abbrev pub all : (A → Bool) → List A → Bool
  all p [] = true
  all p (x ∷ xs) = p x && all p xs

  -- `Iterator::filter`, on a Boolean test.
  abbrev pub keep : (A → Bool) → List A → List A
  keep p [] = []
  keep p (x ∷ xs) = if p x then x ∷ keep p xs else keep p xs

  -- `Iterator::find`.
  abbrev pub find : (A → Bool) → List A → Option A
  find p [] = none
  find p (x ∷ xs) = if p x then some x else find p xs

  abbrev pub All {κ} : (A → Type κ) → List A → Type κ
  All P [] = Unit
  All P (x ∷ xs) = P x × All P xs

  -- Membership that can be matched: the element stands somewhere in the list.
  pub data Has (a : A) : List A → Type ℓ where
    here : {xs : List A} → Has a (a ∷ xs)
    there : {x : A} {xs : List A} → Has a xs → Has a (x ∷ xs)

  pub Has-All {κ} : (P : A → Type κ) {a : A} {xs : List A} → Has a xs → All P xs → P a
  Has-All P here h = h.0
  Has-All P (there m) h = Has-All P m h.1

  pub length-append : (xs ys : List A) → length (xs ++ ys) ≡ length xs + length ys
  length-append [] ys = omega arith
  length-append (x ∷ xs) ys = omega (arith, length-append xs ys)

  pub not-Has-nil : {a : A} → ¬ Has a []
  not-Has-nil m = elim m [ ]

  pub Has-append : {a : A} (xs ys : List A) → Has a (xs ++ ys) → Has a xs ⊎ Has a ys
  Has-append [] ys m = inr m
  Has-append (x ∷ xs) ys here = inl here
  Has-append (x ∷ xs) ys (there m) = elim (Has-append xs ys m) [
    | inl l ↦ inl (there l)
    | inr r ↦ inr r
  ]

module _ {ℓ} {A : Type ℓ} (p : A → Bool) where
  pub find-Has : (xs : List A) {a : A} → find p xs ≡ some a → Has a xs × (p a ≡ true)
  find-Has [] h = cc
  find-Has (x ∷ xs) {a} h = elim (Bool-cases (p x)) [
    | inl e ↦ let same : x ≡ a = ground (arith, e) in (subst (λ y. Has y (x ∷ xs)) same here, cc)
    | inr e ↦ let rest = find-Has xs (ground (arith, e)) in (there rest.0, rest.1)
  ]

  -- `find` stops at the first match, so it finds one wherever one is.
  pub find-some : (xs : List A) {a : A} → Has a xs → p a ≡ true → (b : A) × (find p xs ≡ some b)
  find-some [] m h = elim m [ ]
  find-some (x ∷ xs) here h = (x, rw h)
  find-some (x ∷ xs) (there m) h = elim (Bool-cases (p x)) [
    | inl e ↦ (x, rw e)
    | inr e ↦ let (b, q) = find-some xs m h in (b, rw e q)
  ]

  keep-Has_at :
      (x : A) (ys : List A) {a : A} (b : Bool)
      → p x ≡ b
      → Has a (if b then x ∷ ys else ys)
      → ((a ≡ x) × (p a ≡ true)) ⊎ Has a ys
  keep-Has_at x ys true e here = inl (refl, e)
  keep-Has_at x ys true e (there n) = inr n
  keep-Has_at x ys false e n = inr n

  pub keep-Has : (xs : List A) {a : A} → Has a (keep p xs) → Has a xs × (p a ≡ true)
  keep-Has [] m = elim m [ ]
  keep-Has (x ∷ xs) {a} m = elim (keep-Has_at x (keep p xs) (p x) refl m) [
    | inl h ↦ (subst (λ y. Has a (y ∷ xs)) h.0 here, h.1)
    | inr n ↦ let rest = keep-Has xs n in (there rest.0, rest.1)
  ]

  pub Has-keep : (xs : List A) {a : A} → Has a xs → p a ≡ true → Has a (keep p xs)
  Has-keep [] m h = elim m [ ]
  Has-keep (x ∷ xs) here h = rw h here
  Has-keep (x ∷ xs) (there m) h = elim (Bool-cases (p x)) [
    | inl e ↦ rw e (there (Has-keep xs m h))
    | inr e ↦ rw e (Has-keep xs m h)
  ]

abbrev pub is_some {ℓ} : {A : Type ℓ} → Option A → Bool
is_some none = false
is_some (some a) = true
