-- ===== src/Exec.antt =====
-- Methods that change an object and may fail: `&mut self` and `Result`. What was written before an
-- error stays written, so the state comes back beside the error too.
use mathlib.Core.Path.{◌≡◌, refl, subst, sym}
use cyberia_vpn.Result.{Result, ok, err, map_err, ok_injective, err_injective, err-not-ok}

abbrev pub Exec {ℓ} : Type ℓ → Type ℓ → Type ℓ → Type ℓ
Exec E S A = S → Result E A × S

module _ {ℓ} {E S A : Type ℓ} where
  abbrev pub pure : A → Exec E S A
  pure a s = (ok a, s)

  abbrev pub raise : E → Exec E S A
  raise e s = (err e, s)

  -- A fallible computation that does not touch the state.
  abbrev pub lift : Result E A → Exec E S A
  lift r s = (r, s)

module _ {ℓ} {E S : Type ℓ} where
  abbrev pub get : Exec E S S
  get s = (ok s, s)

  abbrev pub modify : (S → S) → Exec E S (Unit {ℓ})
  modify f s = (ok tt, f s)

module _ {ℓ} {E S A B : Type ℓ} where
  infixl 5 ◌>>=◌ ◌>>◌
  -- The rest of a block after a result.
  abbrev pub continue : Result E A → (A → Exec E S B) → Exec E S B
  continue (ok a) f s = f a s
  continue (err e) f s = (err e, s)

  -- The `?` operator on a call that may change the object.
  abbrev pub ◌>>=◌ : Exec E S A → (A → Exec E S B) → Exec E S B
  ◌>>=◌ m f s = continue (m s).0 f (m s).1

  abbrev pub ◌>>◌ : Exec E S A → Exec E S B → Exec E S B
  m >> n = m >>= λ _. n

module _ {ℓ} {E F S A : Type ℓ} where
  -- A call whose `Result` is looked at in place.
  abbrev pub attempt : Exec E S A → Exec F S (Result E A)
  attempt m s = (ok (m s).0, (m s).1)

  -- `m.map_err(g)?`.
  abbrev pub mapped : (E → F) → Exec E S A → Exec F S A
  mapped g m s = (map_err g (m s).0, (m s).1)

-- What a method ends in: `Q` of the result and the state, or `R` of the error and the state.
abbrev pub EndsIn {ℓ κ} :
    {E S A : Type ℓ} → (A → S → Type κ) → (E → S → Type κ) → Result E A × S → Type κ
EndsIn Q R (ok a, s) = Q a s
EndsIn Q R (err e, s) = R e s

pub record Ends {ℓ κ} {E S A : Type ℓ} (Q : A → S → Type κ) (R : E → S → Type κ)
    (r : Result E A × S) : Type κ where
  pub holds : EndsIn Q R r

module _ {ℓ κ} {E S A B : Type ℓ} {Q : A → S → Type κ} {R : E → S → Type κ}
    {P : B → S → Type κ} where
  Ends-continue :
      (r : Result E A) (f : A → Exec E S B) (s : S)
      → Ends Q R (r, s)
      → ((a : A) (t : S) → Q a t → Ends P R (f a t))
      → Ends P R (continue r f s)
  Ends-continue (ok a) f s h k = k a s h.holds
  Ends-continue (err e) f s h k = record { holds = h.holds }

  -- The rest of a block starts from what its first call ends in; an error ends the block.
  pub Ends-bind :
      (m : Exec E S A) (f : A → Exec E S B) (s : S)
      → Ends Q R (m s)
      → ((a : A) (t : S) → Q a t → Ends P R (f a t))
      → Ends P R ((m >>= f) s)
  Ends-bind m f s h k = Ends-continue (m s).0 f (m s).1 h k

module _ {ℓ κ} {E S A : Type ℓ} {Q : A → S → Type κ} {R : E → S → Type κ} where
  -- What holds of the state whichever result it comes with.
  pub Ends-both : (r : Result E A) (s : S) → ((a : A) → Q a s) → ((e : E) → R e s) → Ends Q R (r, s)
  Ends-both (ok a) s f g = record { holds = f a }
  Ends-both (err e) s f g = record { holds = g e }

module _ {ℓ κ} {E S A : Type ℓ} {Q Q' : A → S → Type κ} {R R' : E → S → Type κ} where
  -- Weakening of what a method ends in.
  pub Ends-weaken :
      (r : Result E A × S)
      → Ends Q R r
      → ((a : A) (s : S) → Q a s → Q' a s)
      → ((e : E) (s : S) → R e s → R' e s)
      → Ends Q' R' r
  Ends-weaken (ok a, s) h f g = record { holds = f a s h.holds }
  Ends-weaken (err e, s) h f g = record { holds = g e s h.holds }

module _ {ℓ κ} {E S A : Type ℓ} {Q : A → S → Type κ} {R : E → S → Type κ} where
  -- What holds beside a result that is known.
  pub Ends-ok : (r : Result E A × S) (a : A) → Ends Q R r → r.0 ≡ ok a → Q a r.1
  Ends-ok (ok b, s) a h e = subst (λ c. Q c s) (ok_injective e) h.holds
  Ends-ok (err x, s) a h e = absurd (err-not-ok x a e)

  pub Ends-err : (r : Result E A × S) (x : E) → Ends Q R r → r.0 ≡ err x → R x r.1
  Ends-err (ok b, s) x h e = absurd (err-not-ok x b (sym e))
  Ends-err (err y, s) x h e = subst (λ c. R c s) (err_injective e) h.holds

module _ {ℓ κ} {E F S A : Type ℓ} {Q : A → S → Type κ} {R : F → S → Type κ} where
  -- What a call ends in when its error is mapped.
  pub Ends-mapped :
      (g : E → F) (r : Result E A × S) → Ends Q (λ e. R (g e)) r → Ends Q R (map_err g r.0, r.1)
  Ends-mapped g (ok a, s) h = record { holds = h.holds }
  Ends-mapped g (err e, s) h = record { holds = h.holds }

module _ {ℓ κ} {E S A : Type ℓ} {P : S → Type κ} where
  -- What holds of the state beside every result.
  pub Ends-state : (r : Result E A × S) → Ends (λ a s. P s) (λ e s. P s) r → P r.1
  Ends-state (ok a, s) h = h.holds
  Ends-state (err e, s) h = h.holds

module _ {ℓ κ} {E S A : Type ℓ} {Q : A → S → Type κ} {R : E → S → Type κ} {P : S → Type κ} where
  -- What holds of the state whichever result it comes with, beside what the method ends in.
  pub Ends-with_state :
      (r : Result E A × S) → Ends Q R r → P r.1 → Ends (λ a s. Q a s × P s) (λ e s. R e s × P s) r
  Ends-with_state (ok a, s) h p = record { holds = (h.holds, p) }
  Ends-with_state (err e, s) h p = record { holds = (h.holds, p) }

module _ {E S A : Type 0} {Q : A → S → Type 0} where
  -- A method that has no way to fail returns a value.
  pub went : (r : Result E A × S) → Ends Q (λ _ _. ⊥) r → (a : A) × (r.0 ≡ ok a) × Q a r.1
  went (ok a, s) h = (a, refl, h.holds)
  went (err e, s) h = absurd h.holds
