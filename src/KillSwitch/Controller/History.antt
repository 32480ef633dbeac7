-- ===== src/KillSwitch/Controller/History.antt =====
-- The `ConnectionController` of core/killswitch/src/lib.rs under every history of calls.
pub mod Stance
use cyberia_vpn.Prelude.{
  ◌≡◌, refl, ◌∙◌, inl, inr, Bool, List, [], ◌∷◌, arith, if◌then◌else◌, Result, ok, err,
}
use cyberia_vpn.Exec.{Ends}
use cyberia_vpn.Transport.Types.{TransportConfig, ConnectContext, Session}
use cyberia_vpn.Transport.Platform.{World}
use cyberia_vpn.KillSwitch.Machine.{
  TrafficPolicy, disabled, block_non_tunnel, tunnel_only, KillSwitch, is_disabled, is_tunnel_only,
  valid_interface, enable, tunnel_established, tunnel_lost, invalid_interface,
}
use cyberia_vpn.KillSwitch.Machine
use cyberia_vpn.KillSwitch.Controller.{
  Transport, Firewall, ConnectionError, ConnectionController, Controlled, new, connect, disconnect,
  disable,
}
use cyberia_vpn.KillSwitch.Controller.Contract.{Obeys, Inv, Unchanged, Blocked, Connected}
use cyberia_vpn.KillSwitch.Controller.Connect.{connect-Ends}
use cyberia_vpn.KillSwitch.Controller.Teardown.{
  Released, TornDown, TearDownFailed, disconnect-Ends, disable-Ends,
}

module _ {T F : Type 0} (t : Transport T) (f : Firewall F) (o : Obeys t f) where
  -- One call on the controller, with the state that it leaves whether it succeeds or not.
  pub data Op : Type 0 where
    connects : TransportConfig → ConnectContext → Op
    disconnects disables : Op

  unfoldable pub after : Op → Controlled T F → Controlled T F
  after (connects config context) s = (connect t f config context s).1
  after disconnects s = (disconnect t f s).1
  after disables s = (disable t f s).1

  pub run : List Op → Controlled T F → Controlled T F
  run [] s = s
  run (op ∷ ops) s = run ops (after op s)

  -- What an operation does to the invariant.
  Keeps : Controlled T F → Controlled T F → Type 0
  Keeps s s' = Inv t f o s → Inv t f o s' × (s'.0.kill_switch.always_on ≡ s.0.kill_switch.always_on)

  Unchanged-Keeps : (s s' : Controlled T F) → Unchanged t f o s s' → Keeps s s'
  unfolding Keeps
  Unchanged-Keeps s s' u i = ground arith

  Blocked-Keeps : (s s' : Controlled T F) → Blocked t f o s s' → Keeps s s'
  unfolding Keeps
  Blocked-Keeps s s' b i = ground arith

  Connected-Keeps :
      (s : Controlled T F) (session : Session) (s' : Controlled T F)
      → Connected t f o s session s'
      → Keeps s s'
  unfolding Keeps
  Connected-Keeps s session s' c i = ground arith

  Released-Keeps : (s s' : Controlled T F) → Released t f o s s' → Keeps s s'
  unfolding Keeps
  Released-Keeps s s' r i = ground arith

  torn_down : (s s' : Controlled T F) → TornDown t f o s s' → Keeps s s'
  unfolding Keeps tunnel_lost
  torn_down s s' h i = ground arith

  tear_down_failed :
      (s : Controlled T F) (e : ConnectionError) (s' : Controlled T F)
      → TearDownFailed t f o s e s'
      → Keeps s s'
  unfolding Keeps tunnel_lost
  tear_down_failed s e s' h i = ground arith

  Keeps-at :
      (s s' : Controlled T F)
      → Keeps s s'
      → Inv t f o s
      → Inv t f o s' × (s'.0.kill_switch.always_on ≡ s.0.kill_switch.always_on)
  unfolding Keeps
  Keeps-at s s' k i = k i

  Keeps-of_Ends :
      {A : Type 0} {Q : A → Controlled T F → Type 0} {R : ConnectionError → Controlled T F → Type 0}
      (s : Controlled T F) (r : Result ConnectionError A × Controlled T F)
      → ((a : A) (s' : Controlled T F) → Q a s' → Keeps s s')
      → ((e : ConnectionError) (s' : Controlled T F) → R e s' → Keeps s s')
      → Ends Q R r
      → Keeps s r.1
  Keeps-of_Ends s (ok a, s') f g h = f a s' h.holds
  Keeps-of_Ends s (err e, s') f g h = g e s' h.holds

  after-Keeps : (op : Op) (s : Controlled T F) → Keeps s (after op s)
  unfolding after
  after-Keeps (connects config context) s =
      Keeps-of_Ends s (connect t f config context s)
        (λ session s' h. Connected-Keeps s session s' h)
        (λ e s' h. elim h [
          | inl u ↦ Unchanged-Keeps s s' u.unchanged
          | inr b ↦ Blocked-Keeps s s' b
        ])
        (connect-Ends t f o config context s)
  after-Keeps disconnects s =
      Keeps-of_Ends s (disconnect t f s) (λ a s' h. torn_down s s' h)
        (λ e s' h. elim h [
          | inl u ↦ Unchanged-Keeps s s' u.unchanged
          | inr b ↦ tear_down_failed s e s' b
        ])
        (disconnect-Ends t f o s)
  after-Keeps disables s =
      Keeps-of_Ends s (disable t f s) (λ a s' h. Released-Keeps s s' h)
        (λ e s' u. Unchanged-Keeps s s' u) (disable-Ends t f o s)

  pub after-Inv :
      (op : Op) (s : Controlled T F)
      → Inv t f o s
      → Inv t f o (after op s) × ((after op s).0.kill_switch.always_on ≡ s.0.kill_switch.always_on)
  after-Inv op s i = Keeps-at s (after op s) (after-Keeps op s) i

  pub run-Inv :
      (ops : List Op) (s : Controlled T F)
      → Inv t f o s
      → Inv t f o (run ops s) × ((run ops s).0.kill_switch.always_on ≡ s.0.kill_switch.always_on)
  unfolding run
  run-Inv [] s i = (i, refl)
  run-Inv (op ∷ ops) s i =
      let step = after-Inv op s i in
      let rest = run-Inv ops (after op s) step.0 in (rest.0, rest.1 ∙ step.1)

  new-Inv :
      (b : Bool) (transport : T) (firewall : F) (w : World) (c : ConnectionController T F)
      → (new t f (Machine.new b) transport firewall w).0 ≡ ok c
      → Inv t f o (c, (new t f (Machine.new b) transport firewall w).1)
        × (c.kill_switch.always_on ≡ b)
  unfolding new Machine.new
  new-Inv b transport firewall w c h =
      ground (arith, o.applied (if b then block_non_tunnel else disabled) firewall w)

  -- A controller over a new kill switch exists only if its initial policy was put in effect; from then
  -- on, after every history of calls, the policy in memory is the one in effect at the firewall, a kill
  -- switch that was created always-on is still so and is not disabled, and traffic is let through a
  -- tunnel only while the transport is owned. The calls may fail in any way that the contracts allow.
  pub history_safe :
      (b : Bool) (transport : T) (firewall : F) (w : World) (c : ConnectionController T F)
      (ops : List Op)
      → (new t f (Machine.new b) transport firewall w).0 ≡ ok c
      → let s = run ops (c, (new t f (Machine.new b) transport firewall w).1) in
        Inv t f o s × (s.0.kill_switch.always_on ≡ b)
  history_safe b transport firewall w c ops h =
      let start = new-Inv b transport firewall w c h in
      let rest = run-Inv ops _ start.0 in (rest.0, rest.1 ∙ start.1)
