-- ===== src/KillSwitch/Controller/History/Stance.antt =====
-- What the `ConnectionController` of core/killswitch/src/lib.rs promises, without its objects: a policy in effect, and
-- whether a transport may be active. Its calls are steps of that machine.
use cyberia_vpn.Prelude.{
  ◌≡◌, refl, sym, ap, subst, ◌∙◌, ◌⊎◌, inl, inr, Bool, true, false, List, [], ◌∷◌, arith,
  if◌then◌else◌,
}
use cyberia_vpn.KillSwitch.Controller.{
  connect, disconnect, disable, Transport, Firewall, Controlled,
}
use cyberia_vpn.Exec.{Ends-state, Ends-weaken}
use cyberia_vpn.Text.{Text}
use cyberia_vpn.KillSwitch.Machine.{
  TrafficPolicy, disabled, block_non_tunnel, tunnel_only, is_disabled, is_tunnel_only,
  valid_interface, tunnel_lost,
}
use cyberia_vpn.KillSwitch.Controller.Contract.{Obeys, Inv, in_effect, Unchanged}
use cyberia_vpn.KillSwitch.Controller.Connect.{connect-Ends}
use cyberia_vpn.KillSwitch.Controller.Teardown.{Retracted, disconnect-Ends, disable-Ends}
use cyberia_vpn.KillSwitch.Controller.History.{
  Op, connects, disconnects, disables, after, run, after-Inv,
}

pub record Stance : Type 0 where
  pub policy : TrafficPolicy
  pub owned : Bool

-- Without its tunnel, a policy that filters blocks.
pub withdrawn : TrafficPolicy → TrafficPolicy
withdrawn policy = if is_disabled policy then disabled else block_non_tunnel

-- The steps, where `forced` says that filtering is never to be switched off.
pub data Moves (forced : Bool) (s s' : Stance) : Type 0 where
  stays : s'.policy ≡ s.policy → s'.owned ≡ s.owned → Moves forced s s'
  blocks : s'.policy ≡ block_non_tunnel → Moves forced s s'
  opens :
      (id : Text)
      → valid_interface id ≡ true
      → s'.policy ≡ tunnel_only id
      → s'.owned ≡ true
      → Moves forced s s'
  retracts :
      s'.policy ≡ withdrawn s.policy → (s'.owned ≡ s.owned) ⊎ (s'.owned ≡ false) → Moves forced s s'
  releases :
      forced ≡ false
      → s.owned ≡ false
      → is_tunnel_only s.policy ≡ false
      → s'.policy ≡ disabled
      → s'.owned ≡ false
      → Moves forced s s'

pub data Reaches (forced : Bool) : Stance → Stance → Type 0 where
  done : {s : Stance} → Reaches forced s s
  step : {s s' s'' : Stance} → Moves forced s s' → Reaches forced s' s'' → Reaches forced s s''

-- A tunnel is let through only while a transport may be active, and what is forced filters.
pub record IsSafe (forced : Bool) (s : Stance) : Type 0 where
  pub armed : forced ≡ true → is_disabled s.policy ≡ false
  pub owned : is_tunnel_only s.policy ≡ true → s.owned ≡ true

Moves-IsSafe :
    (forced : Bool) (s s' : Stance) → Moves forced s s' → IsSafe forced s → IsSafe forced s'
unfolding withdrawn
Moves-IsSafe forced s s' (stays p o) h = record {
  armed = λ e. ap is_disabled p ∙ h.armed e;
  owned = λ e. o ∙ h.owned (ap is_tunnel_only (sym p) ∙ e);
}
Moves-IsSafe forced s s' (blocks p) h = record {
  armed = λ e. ap is_disabled p;
  owned = λ e. absurd (ground (arith, p, e));
}
Moves-IsSafe forced s s' (opens id v p o) h = record {
  armed = λ e. ap is_disabled p;
  owned = λ e. o;
}
Moves-IsSafe forced s s' (retracts p o) h = record {
  armed = λ e. (let t = h.armed e in ground (arith, p, t));
  owned = λ e. absurd (ground (arith, p, e));
}
Moves-IsSafe forced s s' (releases n o t p q) h = record {
  armed = λ e. absurd (ground (arith, n, e));
  owned = λ e. absurd (ground (arith, p, e));
}

pub Reaches-IsSafe :
    (forced : Bool) (s s' : Stance) → Reaches forced s s' → IsSafe forced s → IsSafe forced s'
Reaches-IsSafe forced s _ done h = h
Reaches-IsSafe forced s s'' (step {s' = s'} m r) h =
    Reaches-IsSafe forced s' s'' r (Moves-IsSafe forced s s' m h)

lost_withdrawn :
    (b : Bool) (p : TrafficPolicy)
    → (tunnel_lost (record { always_on = b; policy = p })).policy ≡ withdrawn p
unfolding tunnel_lost withdrawn
lost_withdrawn b disabled = refl
lost_withdrawn b block_non_tunnel = refl
lost_withdrawn b (tunnel_only id) = refl

module _ {T F : Type 0} (t : Transport T) (f : Firewall F) (o : Obeys t f) where
  -- What a controller shows in a world.
  abbrev pub stance : Controlled T F → Stance
  stance s = record { policy = in_effect t f o s; owned = s.0.transport_may_be_active }

  abbrev forced : Controlled T F → Bool
  forced s = s.0.kill_switch.always_on

  retraction :
      (s s' : Controlled T F)
      → Inv t f o s
      → Retracted t f o s s'
      → in_effect t f o s' ≡ withdrawn (in_effect t f o s)
  retraction s s' i r =
      r.effect
      ∙ lost_withdrawn s.0.kill_switch.always_on s.0.kill_switch.policy
      ∙ ap withdrawn (sym i.effective)

  unchanged :
      (s s' : Controlled T F) → Unchanged t f o s s' → Moves (forced s) (stance s) (stance s')
  unchanged s s' u = stays u.effect u.active

  after-Moves :
      (op : Op t f o) (s : Controlled T F)
      → Inv t f o s
      → Moves (forced s) (stance s) (stance (after t f o op s))
  unfolding after
  after-Moves (connects config context) s i = Ends-state (connect t f config context s) (
      Ends-weaken _ (connect-Ends t f o config context s)
        (λ session s' c. opens session.id c.valid c.effect c.active)
        (λ e s' h. elim h [ inl u ↦ unchanged s s' u.unchanged | inr b ↦ blocks b.effect ]))
  after-Moves disconnects s i = Ends-state (disconnect t f s) (
      Ends-weaken _ (disconnect-Ends t f o s)
        (λ u s' d. retracts (retraction s s' i d.retracted) (inr d.active))
        (λ e s' h. elim h [
          | inl u ↦ unchanged s s' u.unchanged
          | inr d ↦ retracts (retraction s s' i d.retracted) (inl d.active)
        ]))
  after-Moves disables s i = Ends-state (disable t f s) (
      Ends-weaken _ (disable-Ends t f o s)
        (λ u s' r.
          releases r.not_forced r.inactive (ap is_tunnel_only i.effective ∙ r.no_tunnel) r.effect
            (r.active ∙ r.inactive))
        (λ e s' u. unchanged s s' u))

  -- The controller implements the machine of stances. From a state in which the policy in memory is in effect, a history
  -- of calls is a sequence of steps of that machine, whatever the transport and the firewall answer within their
  -- contracts: each call either leaves the stance alone, or blocks, or opens the tunnel of a valid interface
  -- with a transport that may be active, or withdraws a tunnel, or switches filtering off, the last only if the kill switch is
  -- not always-on and nothing is active.
  pub run-Reaches :
      (ops : List (Op t f o)) (s : Controlled T F)
      → Inv t f o s
      → Reaches (forced s) (stance s) (stance (run t f o ops s))
  unfolding run
  run-Reaches [] s i = done
  run-Reaches (op ∷ ops) s i =
      let kept = after-Inv t f o op s i in
      step (after-Moves op s i) (
        subst
          (λ b. Reaches b (stance (after t f o op s)) (stance (run t f o ops (after t f o op s))))
          kept.1 (run-Reaches ops (after t f o op s) kept.0))
