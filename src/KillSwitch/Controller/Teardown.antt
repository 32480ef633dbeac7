-- ===== src/KillSwitch/Controller/Teardown.antt =====
-- `disconnect` and `disable` of the `ConnectionController` of core/killswitch/src/lib.rs.
use cyberia_vpn.Prelude.{◌≡◌, refl, sym, ◌∙◌, ◌⊎◌, inl, inr, false, Bool-cases, err, ap}
use cyberia_vpn.Exec.{Ends, Ends-bind, Ends-weaken, mapped}
use cyberia_vpn.KillSwitch.Machine.{
  TrafficPolicy, disabled, block_non_tunnel, tunnel_only, KillSwitch, is_disabled, is_tunnel_only,
  valid_interface, enable, tunnel_established, tunnel_lost, invalid_interface,
}
use cyberia_vpn.KillSwitch.Machine
use cyberia_vpn.KillSwitch.Controller.{
  Transport, Firewall, ConnectionError, Controlled, apply, disconnect, disable, on_transport,
  transport_failed, TransportError, Result, ok,
}
use cyberia_vpn.KillSwitch.Controller.Contract.{
  Obeys, in_effect, Unchanged, Applied, apply-Ends, Called, Refused, disconnect_call-Ends,
}

module _ {T F : Type 0} (t : Transport T) (f : Firewall F) (o : Obeys t f) where
  -- The tunnel policy is withdrawn, in memory and in effect.
  pub record Retracted (s s' : Controlled T F) : Type 0 where
    pub kill_switch : s'.0.kill_switch ≡ tunnel_lost s.0.kill_switch
    pub effect : in_effect t f o s' ≡ (tunnel_lost s.0.kill_switch).policy

  pub record TornDown (s s' : Controlled T F) : Type 0 where
    pub retracted : Retracted s s'
    pub called : Called t f o (tunnel_lost s.0.kill_switch).policy s s' (ok tt)
    pub active : s'.0.transport_may_be_active ≡ false

  pub record TearDownFailed (s : Controlled T F) (e : ConnectionError) (s' : Controlled T F)
      : Type 0 where
    pub retracted : Retracted s s'
    pub reason : TransportError
    pub error : e ≡ transport_failed reason
    pub called : Called t f o (tunnel_lost s.0.kill_switch).policy s s' (err reason)
    pub active : s'.0.transport_may_be_active ≡ s.0.transport_may_be_active

  retract : Controlled T F → Controlled T F → Controlled T F
  retract s (c, w) = (record c { kill_switch = tunnel_lost s.0.kill_switch }, w)

  retract-Retracted :
      (s s1 s2 : Controlled T F)
      → Applied t f o (tunnel_lost s.0.kill_switch).policy s s1
      → Unchanged t f o (retract s s1) s2
      → Retracted s s2
  unfolding retract
  retract-Retracted s s1 s2 a h = record {
    kill_switch = h.kill_switch;
    effect = h.effect ∙ a.effect;
  }

  -- The call of the transport, seen from the state in which `disconnect` was called.
  called_from :
      (s s1 s2 : Controlled T F) (r : Result TransportError (Unit {0}))
      → Applied t f o (tunnel_lost s.0.kill_switch).policy s s1
      → Called t f o (in_effect t f o (retract s s1)) (retract s s1) s2 r
      → Called t f o (tunnel_lost s.0.kill_switch).policy s s2 r
  unfolding retract
  called_from s s1 s2 r a h = record {
    before = h.before;
    in_force = h.in_force ∙ a.effect;
    outcome = ap (λ (x : T). t.disconnect (x, h.before)) (sym a.transport) ∙ h.outcome;
  }

  -- A disconnect ends in one of three ways, provided that the transport and the firewall obey their contracts:
  -- the tunnel policy is withdrawn in memory and in effect, with that policy in effect the transport was torn
  -- down with success as the last call, and it is owned no more; or the tunnel policy is withdrawn in the
  -- same way, the teardown that was tried then has failed, its error is returned, and the transport is owned as
  -- before; or the firewall refused the policy, its error is returned, the transport was not called, and the
  -- kill switch, the ownership and the policy in effect are as before.
  pub disconnect-Ends :
      (s : Controlled T F)
      → Ends
          (λ _. TornDown s)
          (λ e s'.
            Refused t f o (tunnel_lost s.0.kill_switch).policy s e s' ⊎ TearDownFailed s e s')
          (disconnect t f s)
  unfolding disconnect retract
  disconnect-Ends s =
      Ends-bind (apply t f (tunnel_lost s.0.kill_switch).policy) _ s
        (Ends-weaken _ (apply-Ends t f o _ s) (λ a s' h. h) (λ e s' h. inl h))
        λ u s1 a.
          Ends-bind (mapped transport_failed (on_transport t.disconnect)) _ (retract s s1)
            (Ends-weaken _ (disconnect_call-Ends t f o (retract s s1)) (λ a s' h. h)
              (λ e s2 h. inr (record {
                retracted = retract-Retracted s s1 s2 a h.0;
                reason = h.1;
                error = h.2;
                called = called_from s s1 s2 _ a h.3;
                active = h.0.active ∙ a.active;
              })))
            λ v s2 h.
              let called = called_from s s1 s2 _ a h.1 in
              record {
                holds = record {
                  retracted = record {
                    kill_switch = h.0.kill_switch;
                    effect = h.0.effect ∙ a.effect;
                  };
                  called = record {
                    before = called.before;
                    in_force = called.in_force;
                    outcome = called.outcome;
                  };
                  active = refl;
                };
              }

  -- Filtering is off, in memory and in effect.
  pub record Released (s s' : Controlled T F) : Type 0 where
    pub not_forced : s.0.kill_switch.always_on ≡ false
    pub inactive : s.0.transport_may_be_active ≡ false
    pub transport : s'.0.transport ≡ s.0.transport
    pub no_tunnel : is_tunnel_only s.0.kill_switch.policy ≡ false
    pub policy : s'.0.kill_switch.policy ≡ disabled
    pub always_on : s'.0.kill_switch.always_on ≡ s.0.kill_switch.always_on
    pub effect : in_effect t f o s' ≡ disabled
    pub active : s'.0.transport_may_be_active ≡ s.0.transport_may_be_active

  -- Filtering is switched off only if the kill switch is not always-on, the transport is torn down and
  -- no tunnel is let through; otherwise, and when the firewall refuses, nothing has changed.
  pub disable-Ends :
      (s : Controlled T F) → Ends (λ _. Released s) (λ _. Unchanged t f o s) (disable t f s)
  unfolding disable Machine.disable
  disable-Ends (c, w) = elim (Bool-cases c.transport_may_be_active) [
    | inl on ↦ simp on nothing
    | inr off ↦ elim (Bool-cases (is_tunnel_only c.kill_switch.policy)) [
      | inl tunnel ↦ simp (off, tunnel) nothing
      | inr no_tunnel ↦ elim (Bool-cases c.kill_switch.always_on) [
        | inl forced ↦ simp (off, no_tunnel, forced) nothing
        | inr free ↦
            simp (off, no_tunnel, free)
              (Ends-bind (apply t f disabled) _ (c, w)
                (Ends-weaken _ (apply-Ends t f o disabled (c, w)) (λ u s1 a. a)
                  (λ e s1 r. r.unchanged))
                λ u s1 a. record {
                  holds = record {
                    not_forced = free;
                    inactive = off;
                    transport = a.transport;
                    no_tunnel = no_tunnel;
                    policy = refl;
                    always_on = sym free;
                    effect = a.effect;
                    active = a.active;
                  };
                })
      ]
    ]
  ]
    where
      nothing :
          {e : ConnectionError}
          → Ends {A = Unit {0}} (λ _. Released (c, w)) (λ _. Unchanged t f o (c, w)) (err e, (c, w))
      nothing = record { holds = record { kill_switch = refl; active = refl; effect = refl } }
