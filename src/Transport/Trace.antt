-- ===== src/Transport/Trace.antt =====
-- The trace of the calls on the platform of core/transport and core/killswitch, and how it grows.
use cyberia_vpn.Prelude.{◌≡◌, refl, ap, ◌∙◌, List, [], ◌∷◌, ◌++◌}
use cyberia_vpn.Transport.Platform.{Event}

-- The later trace has the earlier one behind it.
pub record Extends (before after : List Event) : Type 0 where
  pub later : List Event
  pub called : after ≡ later ++ before

pub Extends-refl : (before : List Event) → Extends before before
Extends-refl before = record { later = []; called = refl }

append_assoc : {A : Type 0} (xs ys zs : List A) → xs ++ (ys ++ zs) ≡ (xs ++ ys) ++ zs
append_assoc [] ys zs = refl
append_assoc (x ∷ xs) ys zs = ap (λ t. x ∷ t) (append_assoc xs ys zs)

pub Extends-trans : (a b c : List Event) → Extends a b → Extends b c → Extends a c
Extends-trans a b c h k = record {
  later = k.later ++ h.later;
  called =
      k.called ∙ ap (λ (t : List Event). k.later ++ t) h.called ∙ append_assoc k.later h.later a;
}
