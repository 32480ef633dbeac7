-- ===== src/KillSwitch/Connection/AdapterDown.antt =====
-- The transport of core/killswitch/src/linux_connection.rs, which is the adapter over the Linux backend, after it
-- has been torn down.
use cyberia_vpn.KillSwitch.Controller.{ConnectionError, set_kill_switch}
use cyberia_vpn.KillSwitch.Machine.{KillSwitch}
use cyberia_vpn.Exec.{continue}
use cyberia_vpn.Transport.Trace.{Extends, Extends-refl, Extends-trans}
use cyberia_vpn.KillSwitch.Nftables
use cyberia_vpn.KillSwitch.Nftables.{NftablesBackend, nftables_firewall, run_nft, render}
use cyberia_vpn.KillSwitch.Controller
use cyberia_vpn.KillSwitch.Machine
use cyberia_vpn.KillSwitch.Machine.{TrafficPolicy, disabled, is_tunnel_only}
use cyberia_vpn.Transport.Platform.{nft, call, Event, World}
use cyberia_vpn.WireGuard.Adapter.Lifecycle.{disconnect_connected}
use cyberia_vpn.WireGuard.Adapter
use cyberia_vpn.WireGuard.Adapter.{WireGuardAdapter, adapter_transport, on_backend}
use cyberia_vpn.Linux.Backend.Removal
use cyberia_vpn.Result.{err-not-ok}
use cyberia_vpn.Linux.Health.{linux_backend}
use cyberia_vpn.Prelude.{
  inl, inr, Result-cases, List, ◌≡◌, refl, sym, ap, true, false, none, Result, ok, err, some,
  Bool-cases, subst, ◌∷◌, ◌++◌, [],
}
use cyberia_vpn.Exec.{Ends, Ends-bind, Ends-weaken}
use cyberia_vpn.Transport.Types.{TransportError}
use cyberia_vpn.KillSwitch.Connection.{linux_transport, Text, LinuxController}
use cyberia_vpn.Linux.Backend.{LinuxWireGuardBackend}
use cyberia_vpn.Linux.Backend.Setup.{deletion}
use cyberia_vpn.Linux.Backend.Removal.{removals, bring_down-Ends}

-- The transport has been torn down: its last call was a `disconnect` that succeeded, the calls that it made stand
-- in the trace, and neither the adapter nor the backend behind it holds anything any more.
pub record IsTornDown (transport : WireGuardAdapter LinuxWireGuardBackend) (trace : List Event)
    : Type 0 where
  pub before : WireGuardAdapter LinuxWireGuardBackend × World
  pub after : World
  pub since : Extends after.trace trace
  pub called : linux_transport.disconnect before ≡ (ok tt, (transport, after))
  pub was_up : before.0.backend.active_interface ≡ some before.0.interface
  pub deleted :
      after.trace
      ≡ deletion before.0.backend.tools before.0.interface true
          ∷ removals before.0.backend.tools before.0.backend.routing_mark
              before.0.backend.active_rules
        ++ before.1.trace
  pub off : transport.connected ≡ false
  pub released : transport.backend.active_interface ≡ none
  pub no_rules : transport.backend.active_rules ≡ []

-- What a successful disconnect of the adapter leaves.
abbrev OffAfter :
    WireGuardAdapter LinuxWireGuardBackend
    → World
    → WireGuardAdapter LinuxWireGuardBackend × World
    → Type 0
OffAfter a w s =
    (s.0.connected ≡ false) × Removal.TornDown a.interface a.backend w.trace (s.0.backend, s.1)

backend_of :
    (a : WireGuardAdapter LinuxWireGuardBackend) (w : World)
    (r : Result TransportError (Unit {0}) × (LinuxWireGuardBackend × World))
    → Ends (λ _. Removal.TornDown a.interface a.backend w.trace) (λ _ _. Unit {0}) r
    → Ends {S = WireGuardAdapter LinuxWireGuardBackend × World}
        (λ _ s. Removal.TornDown a.interface a.backend w.trace (s.0.backend, s.1))
        (λ _ _. Unit {0})
        (r.0, (record a { backend = r.1.0 }, r.1.1))
backend_of a w (ok u, s) h = record { holds = h.holds }
backend_of a w (err e, s) h = record { holds = tt }

adapter_off :
    (a : WireGuardAdapter LinuxWireGuardBackend) (w : World)
    → Ends (λ _. OffAfter a w) (λ _ _. Unit {0}) (linux_transport.disconnect (a, w))
unfolding adapter_transport Adapter.disconnect linux_backend
adapter_off a w = elim (Bool-cases a.connected) [
  | inr off ↦ simp off (record { holds = tt })
  | inl on ↦
      subst (Ends (λ _. OffAfter a w) (λ _ _. Unit {0}))
        (sym (disconnect_connected linux_backend a w on))
        (Ends-bind (on_backend (linux_backend.bring_down a.interface)) _ (a, w)
          (backend_of a w _
            (Ends-weaken _ (bring_down-Ends a.interface a.backend w) (λ u s h. h) (λ e s h. tt)))
          λ u s h. record { holds = (refl, h) })
]

disconnected :
    (a : WireGuardAdapter LinuxWireGuardBackend) (w : World)
    (r : Result TransportError (Unit {0}) × (WireGuardAdapter LinuxWireGuardBackend × World))
    → linux_transport.disconnect (a, w) ≡ r
    → Ends (λ _. OffAfter a w) (λ _ _. Unit {0}) r
    → r.0 ≡ ok tt
    → IsTornDown r.1.0 r.1.1.trace
disconnected a w (err e, (a', w')) q h o = absurd (err-not-ok e tt o)
disconnected a w (ok u, (a', w')) q h o = record {
  before = (a, w);
  after = w';
  since = Extends-refl w'.trace;
  called = q;
  was_up = h.holds.1.was_active;
  deleted = h.holds.1.called;
  off = h.holds.0;
  released = ap (λ (b : LinuxWireGuardBackend). b.active_interface) h.holds.1.released;
  no_rules = ap (λ (b : LinuxWireGuardBackend). b.active_rules) h.holds.1.released;
}

pub disconnect-IsTornDown :
    (a : WireGuardAdapter LinuxWireGuardBackend) (w : World)
    (s : WireGuardAdapter LinuxWireGuardBackend × World)
    → linux_transport.disconnect (a, w) ≡ (ok tt, s)
    → IsTornDown s.0 s.1.trace
disconnect-IsTornDown a w s e =
    disconnected a w (ok tt, s) e
      (subst (Ends (λ _. OffAfter a w) (λ _ _. Unit {0})) e (adapter_off a w)) refl

-- Later calls leave it torn down.
pub IsTornDown-Extends :
    (t t' : WireGuardAdapter LinuxWireGuardBackend) (before after : List Event)
    → t' ≡ t
    → Extends before after
    → IsTornDown t before
    → IsTornDown t' after
IsTornDown-Extends t t' before after e x h =
    subst (λ (y : WireGuardAdapter LinuxWireGuardBackend). IsTornDown y after) (sym e)
      (record {
        before = h.before;
        after = h.after;
        since = Extends-trans h.after.trace before after h.since x;
        called = h.called;
        was_up = h.was_up;
        deleted = h.deleted;
        off = h.off;
        released = h.released;
        no_rules = h.no_rules;
      })

nft-Extends :
    (rules : Text) (s : NftablesBackend × World) → Extends s.1.trace (run_nft rules s).1.1.trace
unfolding run_nft call
nft-Extends rules (b, w) = elim (Result-cases (w.replies w.step (nft rules))) [
  | inl (t, e) ↦ rw e (record { later = _ ∷ []; called = refl })
  | inr (x, e) ↦ rw e (record { later = _ ∷ []; called = refl })
]

apply-Extends :
    (policy : TrafficPolicy) (s : NftablesBackend × World)
    → Extends s.1.trace (nftables_firewall.apply policy s).1.1.trace
unfolding nftables_firewall Nftables.apply
apply-Extends policy (b, w) = elim (Result-cases (render b.config policy)) [
  | inl (rules, e) ↦ rw e (nft-Extends rules (b, w))
  | inr (x, e) ↦ rw e (Extends-refl w.trace)
]

after_apply :
    (before : List Event) (r : Result ConnectionError (Unit {0})) (s : LinuxController × World)
    (k : KillSwitch)
    → Extends before s.1.trace
    → Extends before (continue r (λ _. set_kill_switch k) s).1.1.trace
after_apply before (ok u) s k h = h
after_apply before (err e) s k h = h

pub disable-Extends :
    (s : LinuxController × World)
    → Extends s.1.trace (Controller.disable linux_transport nftables_firewall s).1.1.trace
unfolding Controller.disable Controller.apply Machine.disable
disable-Extends (c, w) = elim (Bool-cases c.transport_may_be_active) [
  | inl on ↦ simp on (Extends-refl w.trace)
  | inr off ↦ elim (Bool-cases (is_tunnel_only c.kill_switch.policy)) [
    | inl tunnel ↦ simp (off, tunnel) (Extends-refl w.trace)
    | inr no_tunnel ↦ elim (Bool-cases c.kill_switch.always_on) [
      | inl forced ↦ simp (off, no_tunnel, forced) (Extends-refl w.trace)
      | inr free ↦
          simp (off, no_tunnel, free)
            (after_apply w.trace _ _ _ (apply-Extends disabled (c.firewall, w)))
    ]
  ]
]
