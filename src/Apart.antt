-- ===== src/Apart.antt =====
-- The loops that check each element of a list and refuse one that clashes with an earlier one: the
-- `HashSet::insert` loops of core/transport/src and the overlap test of the gateway policy.
use cyberia_vpn.Prelude.{
  Has, here, there, ◌≡◌, refl, ◌↔◌, inl, inr, Bool, true, false, List, [], ◌∷◌, arith, Bool-cases,
  Result-cases, Result, ok, fail_if, any, All,
}
use cyberia_vpn.Result.{◌>>◌}

module _ {A : Type 0} where
  -- A relation between every element and each of those behind it.
  abbrev pub Pairwise : (A → A → Type 0) → List A → Type 0
  Pairwise R [] = Unit {0}
  Pairwise R (x ∷ xs) = All (R x) xs × Pairwise R xs

  pub All-map : {P Q : A → Type 0} (f : (x : A) → P x → Q x) (xs : List A) → All P xs → All Q xs
  All-map f [] h = tt
  All-map f (x ∷ xs) h = (f x h.0, All-map f xs h.1)

  pub All-map_on :
      {P Q R : A → Type 0} (f : (x : A) → P x → Q x → R x) (xs : List A)
      → All P xs
      → All Q xs
      → All R xs
  All-map_on f [] h k = tt
  All-map_on f (x ∷ xs) h k = (f x h.0 k.0, All-map_on f xs h.1 k.1)

  pub Pairwise-map_on :
      {P : A → Type 0} {R S : A → A → Type 0} (f : (x y : A) → P x → P y → R x y → S x y)
      (xs : List A)
      → All P xs
      → Pairwise R xs
      → Pairwise S xs
  Pairwise-map_on f [] p h = tt
  Pairwise-map_on f (x ∷ xs) p h =
      (All-map_on (λ y. f x y p.0) xs p.1 h.0, Pairwise-map_on f xs p.1 h.1)

  pub Pairwise-map :
      {R S : A → A → Type 0} (f : (x y : A) → R x y → S x y) (xs : List A)
      → Pairwise R xs
      → Pairwise S xs
  Pairwise-map f [] h = tt
  Pairwise-map f (x ∷ xs) h = (All-map (f x) xs h.0, Pairwise-map f xs h.1)

module _ {E A : Type 0} (check : A → Result E (Unit {0})) (clash : A → A → Bool)
    (duplicate : E) where
  -- `seen` holds the elements before; whether one of them clashes does not depend on their order.
  unfoldable pub each_apart : List A → List A → Result E (Unit {0})
  each_apart seen [] = ok tt
  each_apart seen (x ∷ xs) = do
    check x
    fail_if (any (λ y. clash y x) seen) duplicate
    each_apart (x ∷ seen) xs

  abbrev Apart : List A → Type 0
  Apart xs = Pairwise (λ x y. clash x y ≡ false) xs

  abbrev Passes : List A → Type 0
  Passes xs = All (λ x. check x ≡ ok tt) xs

  abbrev Free : List A → List A → Type 0
  Free seen xs = All (λ x. any (λ y. clash y x) seen ≡ false) xs

  Free-cons :
      (x : A) (seen xs : List A)
      → Free (x ∷ seen) xs ↔ (All (λ y. clash x y ≡ false) xs × Free seen xs)
  Free-cons x seen [] = (λ h. (tt, tt), λ h. tt)
  Free-cons x seen (y ∷ ys) =
      let rest = Free-cons x seen ys in
      (
        λ h. let r = rest.0 h.1 in ((ground arith, r.0), (ground arith, r.1)),
        λ h. (ground arith, rest.1 (h.0.1, h.1.1)),
      )

  each_apart_if :
      (seen xs : List A) → Passes xs → Apart xs → Free seen xs → each_apart seen xs ≡ ok tt
  unfolding each_apart
  each_apart_if seen [] p a f = refl
  each_apart_if seen (x ∷ xs) p a f =
      rw (p.0, f.0) (each_apart_if (x ∷ seen) xs p.1 a.1 ((Free-cons x seen xs).1 (a.0, f.1)))

  each_apart_only :
      (seen xs : List A) → each_apart seen xs ≡ ok tt → Passes xs × Apart xs × Free seen xs
  unfolding each_apart
  each_apart_only seen [] h = (tt, tt, tt)
  each_apart_only seen (x ∷ xs) h = elim (Result-cases (check x)) [
    | inr (e, q) ↦ absurd (ground (arith, q))
    | inl (u, q) ↦ elim (Bool-cases (any (λ y. clash y x) seen)) [
      | inl t ↦ absurd (ground (arith, q, t))
      | inr t ↦
          let (p, a, f) = each_apart_only (x ∷ seen) xs (ground (arith, q, t)) in
          let split = (Free-cons x seen xs).0 f in ((q, p), (split.0, a), (t, split.1))
    ]
  ]

  Free-nil : (xs : List A) → Free [] xs
  Free-nil [] = tt
  Free-nil (x ∷ xs) = (refl, Free-nil xs)

  each_apart_iff : (xs : List A) → (each_apart [] xs ≡ ok tt) ↔ (Passes xs × Apart xs)
  each_apart_iff xs = (
    λ h. let (p, a, f) = each_apart_only [] xs h in (p, a),
    λ h. each_apart_if [] xs h.0 h.1 (Free-nil xs),
  )

  -- The loop succeeds exactly on the lists whose elements pass the check and do not clash.
  pub each_apart_exact :
      {P : A → Type 0} {R : A → A → Type 0}
      → ((x : A) → (check x ≡ ok tt) ↔ P x)
      → ((x y : A) → (clash x y ≡ false) ↔ R x y)
      → (xs : List A) → (each_apart [] xs ≡ ok tt) ↔ (All P xs × Pairwise R xs)
  each_apart_exact f g xs = (
    λ h.
        let k = (each_apart_iff xs).0 h in
        (All-map (λ x. (f x).0) xs k.0, Pairwise-map (λ x y. (g x y).0) xs k.1),
    λ h.
        (each_apart_iff xs).1
          (All-map (λ x. (f x).1) xs h.0, Pairwise-map (λ x y. (g x y).1) xs h.1),
  )

-- A test that fails where what it tests for is false.
pub false_iff_not : {P : Type 0} (b : Bool) → (b ≡ true) ↔ P → (b ≡ false) ↔ (¬ P)
false_iff_not true h = (λ e. absurd (ground arith), λ n. absurd (n (h.0 refl)))
false_iff_not false h = (λ e p. (let t : false ≡ true = h.1 p in cc), λ n. refl)

-- The guard at the head of a validation.
pub fail_if_iff : {E : Type 0} (b : Bool) (e : E) → (fail_if b e ≡ ok tt) ↔ (b ≡ false)
fail_if_iff true e = (λ h. absurd (ground arith), λ h. absurd (ground arith))
fail_if_iff false e = (λ h. refl, λ h. refl)

any_of : {A : Type 0} (p : A → Bool) {x : A} {xs : List A} → Has x xs → p x ≡ true → any p xs ≡ true
any_of p here e = ground (arith, e)
any_of p (there m) e = let rest = any_of p m e in ground (arith, rest)

-- What `Iterator::any` finds.
pub any_iff :
    {A : Type 0} (p : A → Bool) (xs : List A)
    → (any p xs ≡ true) ↔ ((x : A) × Has x xs × (p x ≡ true))
any_iff p [] = (λ h. absurd (ground arith), λ h. elim h.1 [ ])
any_iff p (x ∷ xs) = (
  λ h. elim (Bool-cases (p x)) [
    | inl e ↦ (x, here, e)
    | inr e ↦ let rest = (any_iff p xs).0 (ground (arith, e)) in (rest.0, there rest.1, rest.2)
  ],
  λ h. any_of p h.1 h.2,
)
