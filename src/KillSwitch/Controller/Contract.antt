-- ===== src/KillSwitch/Controller/Contract.antt =====
-- What the `ConnectionController` of core/killswitch/src/lib.rs relies on, as its traits document it,
-- and its invariant: the policy that it keeps in memory is the one in effect.
use cyberia_vpn.Prelude.{◌≡◌, refl, inl, inr, true, false, Result-cases, ok, err, ap}
use cyberia_vpn.Exec.{Exec, Ends, Ends-both, mapped}
use cyberia_vpn.Transport.Types.{TransportConfig, ConnectContext, Session, TransportError}
use cyberia_vpn.Transport.Platform.{World}
use cyberia_vpn.KillSwitch.Machine.{
  TrafficPolicy, block_non_tunnel, tunnel_only, is_disabled, is_tunnel_only, valid_interface,
}
use cyberia_vpn.KillSwitch.Controller.{
  Transport, Firewall, FirewallError, Controlled, apply, on_transport, transport_failed,
  ConnectionError, Result, firewall_failed,
}

-- "Implementations must apply changes atomically and leave the previous policy effective when an
-- update fails", and a transport does not touch the firewall.
pub record Obeys {T F : Type 0} (t : Transport T) (f : Firewall F) : Type 0 where
  pub effective : F → World → TrafficPolicy
  pub applied :
      (policy : TrafficPolicy) (fw : F) (w : World)
      → (f.apply policy (fw, w)).0 ≡ ok tt
      → let s = (f.apply policy (fw, w)).1 in effective s.0 s.1 ≡ policy
  pub refused :
      (policy : TrafficPolicy) (fw : F) (w : World) (e : FirewallError)
      → (f.apply policy (fw, w)).0 ≡ err e
      → let s = (f.apply policy (fw, w)).1 in effective s.0 s.1 ≡ effective fw w
  pub connects :
      (fw : F) (config : TransportConfig) (context : ConnectContext) (s : T × World)
      → effective fw (t.connect config context s).1.1 ≡ effective fw s.1
  pub disconnects : (fw : F) (s : T × World) → effective fw (t.disconnect s).1.1 ≡ effective fw s.1

module _ {T F : Type 0} (t : Transport T) (f : Firewall F) (o : Obeys t f) where
  -- The policy in effect beside a controller.
  abbrev pub in_effect : Controlled T F → TrafficPolicy
  in_effect (c, w) = o.effective c.firewall w

  -- The policy in memory is in effect, always-on is never off, and traffic is let through a tunnel
  -- only while the transport may be active.
  pub record Inv (s : Controlled T F) : Type 0 where
    pub effective : in_effect s ≡ s.0.kill_switch.policy
    pub armed : s.0.kill_switch.always_on ≡ true → is_disabled s.0.kill_switch.policy ≡ false
    pub owned : is_tunnel_only s.0.kill_switch.policy ≡ true → s.0.transport_may_be_active ≡ true

  -- `s'` differs from `s` in the firewall object alone, and what is in effect is the same.
  pub record Unchanged (s s' : Controlled T F) : Type 0 where
    pub kill_switch : s'.0.kill_switch ≡ s.0.kill_switch
    pub active : s'.0.transport_may_be_active ≡ s.0.transport_may_be_active
    pub effect : in_effect s' ≡ in_effect s

  -- A policy is put in effect, beside the kill switch as it was.
  pub record Applied (policy : TrafficPolicy) (s s' : Controlled T F) : Type 0 where
    pub transport : s'.0.transport ≡ s.0.transport
    pub kill_switch : s'.0.kill_switch ≡ s.0.kill_switch
    pub active : s'.0.transport_may_be_active ≡ s.0.transport_may_be_active
    pub effect : in_effect s' ≡ policy

  -- The firewall refused a policy, and nothing but that call has happened.
  pub record Refused (policy : TrafficPolicy) (s : Controlled T F) (e : ConnectionError)
      (s' : Controlled T F) : Type 0 where
    pub unchanged : Unchanged s s'
    pub transport : s'.0.transport ≡ s.0.transport
    pub reason : FirewallError
    pub error : e ≡ firewall_failed reason
    pub answer : f.apply policy (s.0.firewall, s.1) ≡ (err reason, (s'.0.firewall, s'.1))

  pub apply-Ends :
      (policy : TrafficPolicy) (s : Controlled T F)
      → Ends (λ _. Applied policy s) (Refused policy s) (apply t f policy s)
  unfolding apply
  apply-Ends policy (c, w) = elim (Result-cases (f.apply policy (c.firewall, w)).0) [
    | inl (u, e) ↦ rw e (record {
      holds = record {
        transport = refl;
        kill_switch = refl;
        active = refl;
        effect = o.applied policy c.firewall w (rw e refl);
      };
    })
    | inr (x, e) ↦ rw e (record {
      holds = record {
        unchanged = record {
          kill_switch = refl;
          active = refl;
          effect = o.refused policy c.firewall w x e;
        };
        transport = refl;
        reason = x;
        error = refl;
        answer =
            ap (λ (r : Result FirewallError (Unit {0})). (r, (f.apply policy (c.firewall, w)).1)) e;
      };
    })
  ]

  pub transport-Ends :
      {A : Type 0} (m : Exec TransportError (T × World) A) (s : Controlled T F)
      → ((fw : F) (v : T × World) → o.effective fw (m v).1.1 ≡ o.effective fw v.1)
      → Ends (λ _. Unchanged s) (λ _. Unchanged s) (mapped transport_failed (on_transport m) s)
  transport-Ends m (c, w) keeps =
      let kept : Unchanged (c, w) (on_transport m (c, w)).1 = record {
        kill_switch = refl;
        active = refl;
        effect = keeps c.firewall (c.transport, w);
      } in
      Ends-both _ _ (λ _. kept) (λ _. kept)

  -- A transport was torn down in a world in which a policy was in effect, with a result.
  pub record Called (policy : TrafficPolicy) (s s' : Controlled T F)
      (r : Result TransportError (Unit {0})) : Type 0 where
    pub before : World
    pub in_force : o.effective s'.0.firewall before ≡ policy
    pub outcome : t.disconnect (s.0.transport, before) ≡ (r, (s'.0.transport, s'.1))

  pub disconnect_call-Ends :
      (s : Controlled T F)
      → Ends
          (λ _ s'. Unchanged s s' × Called (in_effect s) s s' (ok tt))
          (λ e s'.
            Unchanged s s'
            × (x : TransportError) × (e ≡ transport_failed x)
            × Called (in_effect s) s s' (err x))
          (mapped transport_failed (on_transport t.disconnect) s)
  disconnect_call-Ends (c, w) =
      let called = t.disconnect (c.transport, w) in
      let kept : Unchanged (c, w) (on_transport t.disconnect (c, w)).1 = record {
        kill_switch = refl;
        active = refl;
        effect = o.disconnects c.firewall (c.transport, w);
      } in
      let outcome : (r : Result TransportError (Unit {0})) → called.0 ≡ r → called ≡ (r, called.1) =
        λ r e.
          ap {B = Result TransportError (Unit {0}) × (T × World)}
            (λ (x : Result TransportError (Unit {0})). (x, called.1)) e in
      elim (Result-cases called.0) [
        | inl (u, e) ↦ rw e (record {
          holds = (kept, record { before = w; in_force = refl; outcome = outcome (ok tt) e });
        })
        | inr (x, e) ↦ rw e (record {
          holds =
              (kept, x, refl, record { before = w; in_force = refl; outcome = outcome (err x) e });
        })
      ]

  -- Blocking is in memory and in effect.
  pub record Blocked (s s' : Controlled T F) : Type 0 where
    pub policy : s'.0.kill_switch.policy ≡ block_non_tunnel
    pub always_on : s'.0.kill_switch.always_on ≡ s.0.kill_switch.always_on
    pub effect : in_effect s' ≡ block_non_tunnel

  -- The tunnel of the session is in memory and in effect, under a valid name.
  pub record Connected (s : Controlled T F) (session : Session) (s' : Controlled T F) : Type 0 where
    pub policy : s'.0.kill_switch.policy ≡ tunnel_only session.id
    pub always_on : s'.0.kill_switch.always_on ≡ s.0.kill_switch.always_on
    pub effect : in_effect s' ≡ tunnel_only session.id
    pub valid : valid_interface session.id ≡ true
    pub active : s'.0.transport_may_be_active ≡ true
