-- ===== src/KillSwitch/Controller/Connect.antt =====
-- `ConnectionController::connect` of core/killswitch/src/lib.rs: what is in effect after each way in
-- which it can end.
use cyberia_vpn.Prelude.{
  ◌≡◌, refl, ap, ◌∙◌, ◌⊎◌, inl, inr, true, arith, if◌then◌else◌, Bool-cases, Result-cases, Result,
  ok, err,
}
use cyberia_vpn.Exec.{Ends, Ends-bind, Ends-weaken, mapped}
use cyberia_vpn.Text.{Text}
use cyberia_vpn.Transport.Types.{TransportConfig, ConnectContext, Session}
use cyberia_vpn.KillSwitch.Machine.{
  block_non_tunnel, tunnel_only, KillSwitch, valid_interface, enable, tunnel_established,
  invalid_interface,
}
use cyberia_vpn.KillSwitch.Controller.{
  Transport, Firewall, ConnectionError, Controlled, apply, connect, give_up, accept_policy,
  accept_tunnel, on_transport, transport_failed,
}
use cyberia_vpn.KillSwitch.Controller.Contract.{
  Obeys, Unchanged, Applied, Blocked, Connected, apply-Ends, transport-Ends, Refused,
}

module _ {T F : Type 0} (t : Transport T) (f : Firewall F) (o : Obeys t f) where
  give_up-Ends :
      {A : Type 0} {Q : A → Controlled T F → Type 0} (error : ConnectionError)
      (s s' : Controlled T F)
      → Blocked t f o s s'
      → Ends Q (λ _. Blocked t f o s) (give_up t f error s')
  unfolding give_up
  give_up-Ends error s (c, w) b =
      let effect = o.disconnects c.firewall (c.transport, w) ∙ b.effect in
      let record { policy = p; always_on = k; effect = _ } = b in
      elim (Result-cases (t.disconnect (c.transport, w)).0) [
        | inl (u, e) ↦
            rw e (record { holds = record { policy = p; always_on = k; effect = effect } })
        | inr (x, e) ↦
            rw e (record { holds = record { policy = p; always_on = k; effect = effect } })
      ]

  -- Either the firewall refused to block before anything else was done, or blocking is in effect.
  abbrev pub FailedSafe : Controlled T F → ConnectionError → Controlled T F → Type 0
  FailedSafe s e s' = Refused t f o block_non_tunnel s e s' ⊎ Blocked t f o s s'

  pub established_lem :
      (id : Text) (k : KillSwitch)
      → k.policy ≡ block_non_tunnel
      → tunnel_established id k ≡ (
          if valid_interface id
          then (ok tt, record k { policy = tunnel_only id })
          else (err invalid_interface, k))
  unfolding tunnel_established
  established_lem id k h = ground arith

  Blocked-of_Unchanged :
      (s s' s'' : Controlled T F)
      → Blocked t f o s s'
      → Unchanged t f o s' s''
      → Blocked t f o s s''
  Blocked-of_Unchanged s s' s'' b u = record {
    policy = ap (λ (k : KillSwitch). k.policy) u.kill_switch ∙ b.policy;
    always_on = ap (λ (k : KillSwitch). k.always_on) u.kill_switch ∙ b.always_on;
    effect = u.effect ∙ b.effect;
  }

  accept_policy-Ends :
      (session : Session) (tunnel : KillSwitch) (r : Result ConnectionError (Unit {0}))
      (s s' s'' : Controlled T F)
      → tunnel.policy ≡ tunnel_only session.id
      → tunnel.always_on ≡ s.0.kill_switch.always_on
      → valid_interface session.id ≡ true
      → s'.0.transport_may_be_active ≡ true
      → Blocked t f o s s'
      → Ends (λ _. Applied t f o tunnel.policy s') (λ _. Unchanged t f o s') (r, s'')
      → Ends (Connected t f o s) (FailedSafe s) (accept_policy t f session tunnel r s'')
  unfolding accept_policy
  accept_policy-Ends session tunnel (ok u) s s' s'' p k v a b h = record {
    holds = record {
      policy = p;
      always_on = k;
      effect = h.holds.effect ∙ p;
      valid = v;
      active = h.holds.active ∙ a;
    };
  }
  accept_policy-Ends session tunnel (err e) s s' s'' p k v a b h =
      Ends-weaken _ (give_up-Ends {Q = λ _ _. ⊥} e s s'' (Blocked-of_Unchanged s s' s'' b h.holds))
        (λ u s1 z. absurd z) (λ e' s1 q. inr q)

  accept_tunnel-Ends :
      (session : Session) (s s' : Controlled T F)
      → Blocked t f o s s'
      → s'.0.transport_may_be_active ≡ true
      → Ends
          (Connected t f o s)
          (FailedSafe s)
          (accept_tunnel t f session (tunnel_established session.id s'.0.kill_switch) s')
  unfolding accept_tunnel
  accept_tunnel-Ends session s (c, w) b active = elim (Bool-cases (valid_interface session.id)) [
    | inr bad ↦
        rw (established_lem session.id c.kill_switch b.policy, bad)
          (Ends-weaken _ (give_up-Ends {Q = λ _ _. ⊥} _ s (c, w) b) (λ u s1 z. absurd z)
            (λ e s1 q. inr q))
    | inl good ↦
        rw (established_lem session.id c.kill_switch b.policy, good)
          (accept_policy-Ends session _ _ s (c, w) _ refl b.always_on good active b
            (Ends-weaken _ (apply-Ends t f o _ (c, w)) (λ u s1 a. a) (λ e s1 r. r.unchanged)))
  ]

  -- The state from which the transport connects.
  abbrev arm : Controlled T F → Controlled T F → Controlled T F
  arm s (c, w) =
      (record c { kill_switch = enable s.0.kill_switch; transport_may_be_active = true }, w)

  arm-Blocked :
      (s s1 : Controlled T F) → Applied t f o block_non_tunnel s s1 → Blocked t f o s (arm s s1)
  unfolding enable
  arm-Blocked s (c, w) a = record { policy = refl; always_on = refl; effect = a.effect }

  -- A connection attempt ends in one of three ways, whatever the transport does and wherever it or the
  -- firewall fails, provided that they obey their contracts: the session's tunnel, under a valid
  -- interface name, is the policy in memory and in effect; or the attempt failed and blocking is in
  -- memory and in effect; or the firewall refused to block, its error is returned, and the transport was
  -- not called, and the kill switch, the ownership and the policy in effect are as before.
  pub connect-Ends :
      (config : TransportConfig) (context : ConnectContext) (s : Controlled T F)
      → Ends (Connected t f o s) (FailedSafe s) (connect t f config context s)
  unfolding connect enable
  connect-Ends config context s =
      Ends-bind (apply t f block_non_tunnel) _ s
        (Ends-weaken _ (apply-Ends t f o block_non_tunnel s) (λ a s' h. h) (λ e s' h. inl h))
        λ u s1 a.
          let armed = arm s s1 in
          let block = arm-Blocked s s1 a in
          Ends-bind (mapped transport_failed (on_transport (t.connect config context))) _ armed
            (Ends-weaken _
              (transport-Ends t f o (t.connect config context) armed
                (λ fw v. o.connects fw config context v))
              (λ a s' h. h) (λ e s2 h. inr (Blocked-of_Unchanged s armed s2 block h)))
            λ session s2 h.
              accept_tunnel-Ends session s s2 (Blocked-of_Unchanged s armed s2 block h) h.active
