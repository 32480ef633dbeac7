-- ===== src/Transport/Favoured.antt =====
-- A platform that hinders nothing: every call succeeds, nothing is cancelled and time does not run out. What
-- core/transport does on it goes through.
use cyberia_vpn.Prelude.{
  ℕ, suc, ◌<◌, ◌≡◌, refl, inl, inr, true, false, List, arith, leb, Result-cases, ok, is_ok,
}
use cyberia_vpn.Exec.{Exec, Ends, ◌>>=◌, ◌>>◌, pure}
use cyberia_vpn.Text.{Text}
use cyberia_vpn.Transport.Types.{TransportError, ConnectContext}
use cyberia_vpn.Transport.Platform.{
  World, Call, run, call, command, on_world, now, is_cancelled, Event,
}
use cyberia_vpn.Transport.Context.{check, observe}

pub record Favours (deadline : ℕ) (w : World) : Type 0 where
  pub answers : (n : ℕ) (c : Call) → is_ok (w.replies n c) ≡ true
  pub runs : (n token : ℕ) → w.flags n token ≡ false
  pub in_time : (n : ℕ) → w.instants n < deadline

-- The world at another step and with other calls behind it.
pub moved :
    {deadline : ℕ} (w : World) (step : ℕ) (trace : List Event)
    → Favours deadline w
    → Favours deadline (record w { step = step; trace = trace })
moved w step trace h = record { answers = h.answers; runs = h.runs; in_time = h.in_time }

-- A method that goes through, and leaves such a platform behind.
pub record Goes (deadline : ℕ) (m : Exec TransportError World (Unit {0})) : Type 0 where
  pub holds : (w : World) → Favours deadline w → ((m w).0 ≡ ok tt) × Favours deadline (m w).1

module _ (deadline : ℕ) where
  pub Goes-pure : Goes deadline (pure tt)
  Goes-pure = record { holds = λ w h. (refl, h) }

  pub Goes-then :
      (m n : Exec TransportError World (Unit {0}))
      → Goes deadline m
      → Goes deadline n
      → Goes deadline (m >> n)
  Goes-then m n p q = record { holds = λ w h. let (e, k) = p.holds w h in rw e (q.holds (m w).1 k) }

  pub Goes-command :
      (program : Text) (arguments : List Text) → Goes deadline (command program arguments)
  unfolding command call
  Goes-command program arguments = record {
    holds = λ w h.
        elim (Result-cases
          (w.replies w.step (run (record { program = program; arguments = arguments })))) [
            | inl (t, e) ↦ rw e (refl, moved w _ _ h)
            | inr (x, e) ↦ absurd (
                ground (
                  arith,
                  h.answers w.step (run (record { program = program; arguments = arguments })),
                  e,
                ))
          ];
  }

pub Goes-check : (context : ConnectContext) → Goes context.deadline (check context)
unfolding check observe now is_cancelled
Goes-check context = record {
  holds = λ w h.
      let early : leb context.deadline (w.instants (suc w.step)) ≡ false =
        ground (arith, h.in_time (suc w.step)) in
      rw (h.runs w.step context.cancellation, early) (refl, moved w _ _ h);
}

-- Such a method in front of the rest, called by a method of an object.
pub Goes-on_world :
    {S A : Type 0} {P : A → S × World → Type 0} (deadline : ℕ)
    (m : Exec TransportError World (Unit {0})) (f : Unit {0} → Exec TransportError (S × World) A)
    (s : S) (w : World)
    → Goes deadline m
    → Favours deadline w
    → ((v : World) → Favours deadline v → Ends P (λ _ _. ⊥) (f tt (s, v)))
    → Ends P (λ _ _. ⊥) ((on_world m >>= f) (s, w))
Goes-on_world deadline m f s w g h k = let (e, q) = g.holds w h in rw e (k (m w).1 q)
