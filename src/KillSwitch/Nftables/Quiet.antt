-- ===== src/KillSwitch/Nftables/Quiet.antt =====
-- The methods of core/transport that a connection calls never run nftables, so they leave the ruleset that
-- is in effect alone.
use cyberia_vpn.Prelude.{
  ◌≡◌, refl, ap, ◌∙◌, Bool, true, false, Option, List, if◌then◌else◌, Result, ok, err,
}
use cyberia_vpn.Exec.{Exec, continue, ◌>>=◌}
use cyberia_vpn.Text.{Text}
use cyberia_vpn.Transport.Types.{TransportError, ConnectContext}
use cyberia_vpn.Transport.Platform.{World, command, on_world}
use cyberia_vpn.Transport.Calls.{command-trace, check-trace}
use cyberia_vpn.Transport.Context.{check}
use cyberia_vpn.KillSwitch.Nftables.Ruleset.{loaded}

-- `rules` reads something of a state, such as the ruleset that is in effect; the method leaves it alone.
pub record Quiet {E S A V : Type 0} (rules : S → V) (m : Exec E S A) : Type 0 where
  pub holds : (s : S) → rules (m s).1 ≡ rules s

abbrev pub world_rules : World → Option Text
world_rules w = loaded w.trace

abbrev pub object_rules : {S : Type 0} → S × World → Option Text
object_rules s = world_rules s.1

module _ {E S A B V : Type 0} (rules : S → V) where
  continue-rules :
      (r : Result E A) (f : A → Exec E S B) (s : S)
      → ((a : A) → Quiet rules (f a))
      → rules (continue r f s).1 ≡ rules s
  continue-rules (ok a) f s h = (h a).holds s
  continue-rules (err e) f s h = refl

  pub Quiet-bind :
      (m : Exec E S A) (f : A → Exec E S B)
      → Quiet rules m
      → ((a : A) → Quiet rules (f a))
      → Quiet rules (m >>= f)
  Quiet-bind m f q h = record { holds = λ s. continue-rules (m s).0 f (m s).1 h ∙ q.holds s }

module _ {E S A V : Type 0} (rules : S → V) where
  pub Quiet-if :
      (b : Bool) (m n : Exec E S A)
      → Quiet rules m
      → Quiet rules n
      → Quiet rules (if b then m else n)
  Quiet-if true m n p q = p
  Quiet-if false m n p q = q

module _ {S A : Type 0} where
  pub Quiet-on_world :
      (m : Exec TransportError World A)
      → Quiet world_rules m
      → Quiet (object_rules {S = S}) (on_world m)
  Quiet-on_world m q = record { holds = λ s. q.holds s.1 }

pub Quiet-command :
    (program : Text) (arguments : List Text) → Quiet world_rules (command program arguments)
unfolding loaded
Quiet-command program arguments = record {
  holds = λ w. ap loaded (command-trace program arguments w);
}

pub Quiet-check : (context : ConnectContext) → Quiet world_rules (check context)
Quiet-check context = record { holds = λ w. ap loaded (check-trace context w) }
