-- ===== src/Transport/Calls.antt =====
-- The calls that methods make on the platform: what they add to the trace, and how a method goes on
-- behind them.
use cyberia_vpn.Prelude.{
  ◌≡◌, refl, inl, inr, Bool, List, ◌∷◌, arith, Result-cases, ok, err, is_ok, All, [], false, ◌++◌,
}
use cyberia_vpn.Exec.{Exec, Ends, ◌>>=◌}
use cyberia_vpn.Text.{Text}
use cyberia_vpn.Transport.Types.{TransportError, ConnectContext}
use cyberia_vpn.Transport.Platform.{
  World, run, input, Event, call, command, feed, on_world, now, is_cancelled,
}
use cyberia_vpn.Transport.Context.{check, observe}

-- The events of a command, without and with input.
abbrev pub ran : Text → List Text → Bool → Event
ran program arguments success = record {
  call = run (record { program = program; arguments = arguments });
  success = success;
}

abbrev pub fed : Text → List Text → Text → Bool → Event
fed program arguments text success = record {
  call = input (record { program = program; arguments = arguments }) text;
  success = success;
}

-- Behind what was called before, no call has succeeded.
pub record Fruitless (before after : List Event) : Type 0 where
  pub later : List Event
  pub failures : All (λ (e : Event). e.success ≡ false) later
  pub called : after ≡ later ++ before

pub none_called : (before : List Event) → Fruitless before before
none_called before = record { later = []; failures = tt; called = refl }

pub one_failed :
    (e : Event) (before after : List Event)
    → e.success ≡ false
    → after ≡ e ∷ before
    → Fruitless before after
one_failed e before after f h = record { later = e ∷ []; failures = (f, tt); called = h }

pub command-trace :
    (program : Text) (arguments : List Text) (w : World)
    → let r = command program arguments w in r.1.trace ≡ ran program arguments (is_ok r.0) ∷ w.trace
unfolding command call
command-trace p args w =
    elim (Result-cases (w.replies w.step (run (record { program = p; arguments = args })))) [
      | inl (t, e) ↦ rw e refl
      | inr (x, e) ↦ rw e refl
    ]

pub feed-trace :
    (program : Text) (arguments : List Text) (text : Text) (w : World)
    → let r = feed program arguments text w in
      r.1.trace ≡ fed program arguments text (is_ok r.0) ∷ w.trace
unfolding feed call
feed-trace p args text w =
    elim (Result-cases (w.replies w.step (input (record { program = p; arguments = args }) text))) [
      | inl (t, e) ↦ rw e refl
      | inr (x, e) ↦ rw e refl
    ]

pub check-trace : (context : ConnectContext) (w : World) → (check context w).1.trace ≡ w.trace
unfolding check observe now is_cancelled
check-trace context w = ground arith

module _ {S A B : Type 0} {P : B → S × World → Type 0}
    {R : TransportError → S × World → Type 0} where
  -- A method of an object calls the world, and ends there with an error or goes on.
  pub Ends-world :
      (m : Exec TransportError World A) (f : A → Exec TransportError (S × World) B) (s : S)
      (w : World)
      → ((e : TransportError) → (m w).0 ≡ err e → R e (s, (m w).1))
      → ((a : A) → (m w).0 ≡ ok a → Ends P R (f a (s, (m w).1)))
      → Ends P R ((on_world m >>= f) (s, w))
  Ends-world m f s w fails goes = elim (Result-cases (m w).0) [
    | inl (a, e) ↦ rw e (goes a e)
    | inr (x, e) ↦ rw e (record { holds = fails x e })
  ]
