-- ===== src/WireGuard/Adapter/Lifecycle.antt =====
-- `WireGuardAdapter` of core/transport/src/wireguard.rs: how its methods end, and what follows for the
-- controller of core/killswitch/src/lib.rs over it.
use cyberia_vpn.Prelude.{
  ◌≡◌, refl, sym, ap, subst, inl, inr, Bool, true, false, not, ◌||◌, arith, if◌then◌else◌,
  Bool-cases, Result-cases, Result, err, map_err,
}
use cyberia_vpn.Exec.{Exec, Ends, Ends-bind, Ends-both, mapped, raise, ◌>>◌}
use cyberia_vpn.Transport.Types
use cyberia_vpn.Transport.Types.{
  TransportError, TransportConfig, ConnectContext, Session, not_connected,
}
use cyberia_vpn.Transport.Platform.{World}
use cyberia_vpn.Transport.Calls.{Ends-world}
use cyberia_vpn.Transport.Context.{check, observe}
use cyberia_vpn.KillSwitch.Machine.{TrafficPolicy, tunnel_lost}
use cyberia_vpn.KillSwitch.Controller.{
  Firewall, ConnectionError, Controlled, apply, transport_failed, on_transport,
}
use cyberia_vpn.KillSwitch.Controller
use cyberia_vpn.WireGuard.Adapter.{
  WireGuardBackend, WireGuardAdapter, connect, disconnect, session, on_backend, set_connected,
  adapter_transport, is_wire_guard, endpoint_eq,
}

module _ {B : Type 0} (backend : WireGuardBackend B) where
  -- The adapter has taken the interface of its profile up.
  pub record TakenUp (config : TransportConfig) (a : WireGuardAdapter B) (given : Session)
      (a' : WireGuardAdapter B) : Type 0 where
    pub was_off : a.connected ≡ false
    pub is_on : a'.connected ≡ true
    pub named : given.id ≡ a.interface
    pub same_interface : a'.interface ≡ a.interface
    pub same_profile : a'.profile ≡ a.profile
    pub same_endpoint : endpoint_eq config.endpoint a.profile.endpoint ≡ true

  -- The flag and the profile are as they were.
  pub record Same (a a' : WireGuardAdapter B) : Type 0 where
    pub flag : a'.connected ≡ a.connected
    pub interface : a'.interface ≡ a.interface
    pub profile : a'.profile ≡ a.profile

  unchanged : (a : WireGuardAdapter B) → Same a a
  unchanged a = record { flag = refl; interface = refl; profile = refl }

  -- A call of the backend changes the backend alone.
  on_backend-Same :
      (m : Exec TransportError (B × World) (Unit {0})) (a : WireGuardAdapter B) (w : World)
      → Ends (λ _ s. Same a s.0) (λ _ s. Same a s.0) (on_backend m (a, w))
  on_backend-Same m a w =
      let r = m (a.backend, w) in
      let kept : Same a (record a { backend = r.1.0 }) = record {
        flag = refl;
        interface = refl;
        profile = refl;
      } in
      Ends-both _ _ (λ y. kept) (λ x. kept)

  -- A connection attempt through the adapter ends in one of two ways: the adapter was off, the endpoint
  -- asked for is that of the profile, the adapter is on, and the session has the interface's name; or
  -- there is an error, and the flag, the interface and the profile are as they were.
  pub adapter_connect-Ends :
      (config : TransportConfig) (context : ConnectContext) (a : WireGuardAdapter B) (w : World)
      → Ends
          (λ given s. TakenUp config a given s.0)
          (λ _ s. Same a s.0)
          (connect backend config context (a, w))
  unfolding connect session observe
  adapter_connect-Ends config context a w = elim (Bool-cases a.connected) [
    | inl on ↦ simp on (record { holds = unchanged a })
    | inr off ↦
        elim (Bool-cases (
          not (is_wire_guard config.kind)
          || not (endpoint_eq config.endpoint a.profile.endpoint))) [
            | inl bad ↦ simp (off, bad) (record { holds = unchanged a })
            | inr good ↦ elim (Result-cases (Types.validate config)) [
              | inr (x, e) ↦ simp (off, good, e) (record { holds = unchanged a })
              | inl (u, e) ↦
                  simp (off, good, e)
                    (Ends-world (check context) _ a w (λ x q. unchanged a)
                      λ v p.
                        Ends-bind (on_backend (backend.bring_up a.interface a.profile context)) _
                          (a, _)
                          (on_backend-Same (backend.bring_up a.interface a.profile context) a _)
                          λ y s h. record {
                            holds = record {
                              was_off = off;
                              is_on = refl;
                              named = h.interface;
                              same_interface = h.interface;
                              same_profile = h.profile;
                              same_endpoint = ground (arith, good);
                            };
                          })
            ]
          ]
  ]

  pub disconnect_connected :
      (a : WireGuardAdapter B) (w : World)
      → a.connected ≡ true
      → disconnect backend (a, w)
        ≡ (do on_backend (backend.bring_down a.interface); set_connected false) (a, w)
  unfolding disconnect
  disconnect_connected a w on =
      ap
        (λ (b : Bool).
          (if not b
              then raise not_connected
              else (do on_backend (backend.bring_down a.interface); set_connected false))
            (a, w))
        on

  -- A disconnect through the adapter ends with the adapter, which was on, off; or with an error, and the
  -- flag, the interface and the profile as they were.
  pub adapter_disconnect-Ends :
      (a : WireGuardAdapter B) (w : World)
      → Ends
          (λ _ s. (a.connected ≡ true) × (s.0.connected ≡ false))
          (λ _ s. Same a s.0)
          (disconnect backend (a, w))
  unfolding disconnect
  adapter_disconnect-Ends a w = elim (Bool-cases a.connected) [
    | inr off ↦ simp off (record { holds = unchanged a })
    | inl on ↦
        subst (Ends (λ _ s. (a.connected ≡ true) × (s.0.connected ≡ false)) (λ _ s. Same a s.0))
          (sym (disconnect_connected a w on))
          (Ends-bind (on_backend (backend.bring_down a.interface)) _ (a, w)
            (on_backend-Same (backend.bring_down a.interface) a w)
            λ y s h. record { holds = (on, refl) })
  ]

  -- A controller that may have an active transport although the adapter is off.
  abbrev pub IsLocked : {F : Type 0} → Controlled (WireGuardAdapter B) F → Type 0
  IsLocked s = (s.0.transport.connected ≡ false) × (s.0.transport_may_be_active ≡ true)

  module _ {F : Type 0} (f : Firewall F) where
    apply_keeps :
        (policy : TrafficPolicy) (s : Controlled (WireGuardAdapter B) F)
        → IsLocked s
        → Ends (λ _. IsLocked) (λ _. IsLocked) (apply (adapter_transport backend) f policy s)
    unfolding apply
    apply_keeps policy s h = Ends-both _ _ (λ u. h) (λ e. h)

    disconnect_off :
        (a : WireGuardAdapter B) (w : World)
        → a.connected ≡ false
        → disconnect backend (a, w) ≡ (err not_connected, (a, w))
    unfolding disconnect
    disconnect_off a w off = simp off refl

    adapter_refuses :
        (s : Controlled (WireGuardAdapter B) F)
        → IsLocked s
        → Ends
            (λ _ _. ⊥)
            (λ _. IsLocked)
            (mapped transport_failed (on_transport (disconnect backend)) s)
    adapter_refuses s h =
        subst
          (λ (r : Result TransportError (Unit {0}) × (WireGuardAdapter B × World)).
            Ends {S = Controlled (WireGuardAdapter B) F} (λ _ _. ⊥) (λ _. IsLocked)
              (map_err transport_failed r.0, (record (s.0) { transport = r.1.0 }, r.1.1)))
          (sym (disconnect_off s.0.transport s.1 h.0)) (record { holds = h })

    -- While the adapter is off and the controller records that its transport may be active, as a
    -- connection attempt that fails in the adapter leaves them, neither `disconnect` nor `disable` of the
    -- controller succeeds, whatever the firewall does, and both leave it like that.
    pub IsLocked-Ends :
        (s : Controlled (WireGuardAdapter B) F)
        → IsLocked s
        → Ends (λ _ _. ⊥) (λ _. IsLocked) (Controller.disconnect (adapter_transport backend) f s)
          × Ends (λ _ _. ⊥) (λ _. IsLocked) (Controller.disable (adapter_transport backend) f s)
    unfolding Controller.disconnect Controller.disable adapter_transport
    IsLocked-Ends s h = (
      Ends-bind (apply (adapter_transport backend) f (tunnel_lost s.0.kill_switch).policy) _ s
          (apply_keeps (tunnel_lost s.0.kill_switch).policy s h)
          λ u s1 k.
            Ends-bind (mapped transport_failed (on_transport (disconnect backend))) _
              (record (s1.0) { kill_switch = tunnel_lost s.0.kill_switch }, s1.1)
              (adapter_refuses _ k) λ v s2 x. absurd x,
      simp (h.1) (record { holds = h }),
    )
