-- ===== src/KillSwitch/Machine/Reach.antt =====
-- The kill switch of core/killswitch/src/lib.rs under every sequence of calls.
use cyberia_vpn.Prelude.{◌≡◌, refl, ◌∙◌, Bool, true, false, arith}
use cyberia_vpn.Text.{Text}
use cyberia_vpn.KillSwitch.Machine.{
  TrafficPolicy, tunnel_only, KillSwitch, is_disabled, valid_interface, new, enable, disable,
  tunnel_established, tunnel_lost,
}

-- One call of a method, whether it succeeds or not.
pub data Step (k : KillSwitch) : KillSwitch → Type 0 where
  enables : Step k (enable k)
  disables : Step k (disable k).1
  establishes : (interface : Text) → Step k (tunnel_established interface k).1
  loses : Step k (tunnel_lost k)

pub data Reach (k : KillSwitch) : KillSwitch → Type 0 where
  here : Reach k k
  next : {j l : KillSwitch} → Reach k j → Step j l → Reach k l

-- The interface that a policy lets traffic through, if any, has a valid name.
abbrev pub is_checked : TrafficPolicy → Bool
is_checked (tunnel_only interface) = valid_interface interface
is_checked _ = true

-- Always-on is never off, and a tunnel is only ever allowed through a valid interface name.
pub record IsSafe (k : KillSwitch) : Type 0 where
  pub armed : k.always_on ≡ true → is_disabled k.policy ≡ false
  pub checked : is_checked k.policy ≡ true

pub new-IsSafe : (b : Bool) → IsSafe (new b)
unfolding new
new-IsSafe b = ground arith

pub Step-IsSafe : {j k : KillSwitch} → Step j k → IsSafe j → IsSafe k
unfolding enable disable tunnel_established tunnel_lost
Step-IsSafe {j} enables s = ground arith
Step-IsSafe {j} disables s = ground arith
Step-IsSafe {j} (establishes interface) s = ground arith
Step-IsSafe {j} loses s = ground arith

always_on-Step : {j k : KillSwitch} → Step j k → k.always_on ≡ j.always_on
unfolding enable disable tunnel_established tunnel_lost
always_on-Step {j} enables = ground arith
always_on-Step {j} disables = ground arith
always_on-Step {j} (establishes interface) = ground arith
always_on-Step {j} loses = ground arith

Reach-IsSafe : {j k : KillSwitch} → Reach j k → IsSafe j → IsSafe k × (k.always_on ≡ j.always_on)
Reach-IsSafe here s = (s, refl)
Reach-IsSafe (next r st) s =
    let ih = Reach-IsSafe r s in (Step-IsSafe st ih.0, always_on-Step st ∙ ih.1)

always_on-new : (b : Bool) → (new b).always_on ≡ b
unfolding new
always_on-new b = refl

-- Whatever calls are made on a new kill switch, in any order and with any interface names, one that
-- was created always-on stays so and is never disabled, and a policy that lets traffic through an
-- interface names one that `valid_interface` accepts.
pub Reach-safe :
    (b : Bool) {k : KillSwitch}
    → Reach (new b) k
    → (k.always_on ≡ b) × (b ≡ true → is_disabled k.policy ≡ false) × (is_checked k.policy ≡ true)
Reach-safe b {k} r =
    let (safe, same) = Reach-IsSafe r (new-IsSafe b) in
    let kept : k.always_on ≡ b = same ∙ always_on-new b in
    (kept, λ h. safe.armed (kept ∙ h), safe.checked)
