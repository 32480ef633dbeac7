-- ===== src/KillSwitch/Connection/Favoured.antt =====
-- The controller of core/killswitch/src/lib.rs over the Linux transport and nftables, on a platform that hinders nothing.
pub mod Calls
pub mod Ready
use cyberia_vpn.Prelude.{
  ℕ, zero, suc, ◌+◌, ◌-◌, ◌*◌, ◌/◌, ◌%◌, ◌^◌, ◌≤◌, ◌<◌, min, compare, Ordering, ◌≡◌, refl, sym, ap,
  subst, ◌∙◌, ◌≢◌, ◌↔◌, ◌⊎◌, inl, inr, Bool, true, false, not, ◌&&◌, ◌||◌, Option, none, some, List,
  [], ◌∷◌, ◌++◌, map, arith, ltb, leb, ◌==◌, if◌then◌else◌, ltb→lt, lt→ltb, leb→le, le→leb, ==_iff,
  Bool-cases, Option-cases, Result-cases, Result, ok, err, fail_if, ok_or, map_err, is_ok, is_some,
  length, any, all, keep, find, All, Has, here, there, Has-All, Has-append, find-Has, find-some,
  keep-Has, Has-keep, length-append, u32_max, u64_max, u16, u32, u64, u128, to_u32, to_u64,
  saturating_add,
}
use cyberia_vpn.KillSwitch.Controller.{transport_failed, ConnectionError}
use cyberia_vpn.KillSwitch.Machine.{
  TrafficPolicy, disabled, block_non_tunnel, tunnel_only, KillSwitch, tunnel_lost, is_tunnel_only,
  enable, tunnel_established,
}
use cyberia_vpn.Linux.Backend.{bring_down, LinuxWireGuardBackend, bring_up}
use cyberia_vpn.Linux.Backend.Favoured.{bring_down-Goes, bring_up-IsUp}
use cyberia_vpn.KillSwitch.Nftables.{
  NftablesConfig, nftables_firewall, run_nft, render, NftablesError,
}
use cyberia_vpn.KillSwitch.Nftables
use cyberia_vpn.KillSwitch.Controller
use cyberia_vpn.KillSwitch.Connection.{LinuxController, linux_transport}
use cyberia_vpn.Transport.Platform.{call, nft, World, now}
use cyberia_vpn.Exec.{Exec, Ends, Ends-bind, Ends-weaken, Ends-mapped, mapped}
use cyberia_vpn.Text.{Text, text_eq, text_eq_iff}
use cyberia_vpn.Transport.Types
use cyberia_vpn.Transport.Types.{
  TransportError, TransportConfig, ConnectContext, Session, TransportKind, wire_guard, Endpoint,
}
use cyberia_vpn.Transport.Context.{check, observe}
use cyberia_vpn.Transport.Favoured.{Favours, moved, Goes-check, Goes-on_world}
use cyberia_vpn.WireGuard.Adapter
use cyberia_vpn.WireGuard.Adapter.{WireGuardAdapter, endpoint_eq, session, adapter_transport}
use cyberia_vpn.Linux.Health.{linux_backend}
use cyberia_vpn.KillSwitch.Machine

-- The adapter is connected and its interface is up.
pub record IsConnected (interface : Text) (a : WireGuardAdapter LinuxWireGuardBackend)
    : Type 0 where
  pub connected : a.connected ≡ true
  pub named : a.interface ≡ interface
  pub active : a.backend.active_interface ≡ some interface

-- An adapter that may connect with a configuration.
pub record MayConnect (config : TransportConfig) (a : WireGuardAdapter LinuxWireGuardBackend)
    : Type 0 where
  pub connected : a.connected ≡ false
  pub active : a.backend.active_interface ≡ none
  pub kind : config.kind ≡ wire_guard
  pub endpoint : config.endpoint ≡ a.profile.endpoint
  pub valid : Types.validate config ≡ ok tt

endpoint_eq_refl : (e : Endpoint) → endpoint_eq e e ≡ true
unfolding endpoint_eq
endpoint_eq_refl e = rw ((text_eq_iff e.host e.host).1 refl) (ground arith)

-- The result of a call of the backend, with the adapter around it.
around :
    {Q : LinuxWireGuardBackend × World → Type 0} (a : WireGuardAdapter LinuxWireGuardBackend)
    (r : Result TransportError (Unit {0}) × (LinuxWireGuardBackend × World))
    → Ends (λ _. Q) (λ _ _. ⊥) r
    → Ends {S = WireGuardAdapter LinuxWireGuardBackend × World}
        (λ _ s. (s.0 ≡ record a { backend = s.0.backend }) × Q (s.0.backend, s.1))
        (λ _ _. ⊥)
        (r.0, (record a { backend = r.1.0 }, r.1.1))
around a (ok u, s) h = record { holds = (refl, h.holds) }
around a (err e, s) h = absurd h.holds

-- A session in hand, and the adapter connected, on such a platform.
abbrev pub Opened :
    (limit : ℕ) (interface : Text)
    → Session
    → WireGuardAdapter LinuxWireGuardBackend × World
    → Type 0
Opened limit interface session s =
    (session.id ≡ interface) × IsConnected interface s.0 × Favours limit s.1

named :
    (a b : WireGuardAdapter LinuxWireGuardBackend)
    → b ≡ record a { backend = b.backend }
    → b.interface ≡ a.interface
named a b e = ap (λ (x : WireGuardAdapter LinuxWireGuardBackend). x.interface) e

pub adapter_connect-Opened :
    (config : TransportConfig) (context : ConnectContext)
    (a : WireGuardAdapter LinuxWireGuardBackend) (w : World)
    → MayConnect config a
    → Favours context.deadline w
    → Ends
        (Opened context.deadline a.interface)
        (λ _ _. ⊥)
        (Adapter.connect linux_backend config context (a, w))
unfolding Adapter.connect linux_backend session now observe
adapter_connect-Opened config context a w m h =
    let same : endpoint_eq config.endpoint a.profile.endpoint ≡ true =
      subst (λ e. endpoint_eq config.endpoint e ≡ true) m.endpoint
        (endpoint_eq_refl config.endpoint) in
    simp (m.connected, m.kind, same, m.valid)
      (Goes-on_world context.deadline (check context) _ a w (Goes-check context) h (λ w1 h1.
        Ends-bind (Adapter.on_backend (bring_up a.interface a.profile context)) _ (a, w1)
          (around a (bring_up a.interface a.profile context (a.backend, w1))
            (bring_up-IsUp a.interface a.profile context a.backend w1 m.active h1))
          (λ u s k. record {
            holds = (
              named a s.0 k.0,
              record { connected = refl; named = named a s.0 k.0; active = k.1.0 },
              moved s.1 _ _ k.1.1,
            );
          })))

-- The adapter is torn down, on such a platform.
abbrev pub Closed : (limit : ℕ) → Unit {0} → WireGuardAdapter LinuxWireGuardBackend × World → Type 0
Closed limit u s = Favours limit s.1

closing :
    (interface : Text) (limit : ℕ) (a : WireGuardAdapter LinuxWireGuardBackend) (w : World)
    → IsConnected interface a
    → Favours limit w
    → Ends
        (Closed limit)
        (λ _ _. ⊥)
        (Adapter.disconnect linux_backend (record a { connected = true }, w))
unfolding Adapter.disconnect linux_backend
closing interface limit a w c h =
    Ends-bind (Adapter.on_backend (bring_down a.interface)) _ (record a { connected = true }, w)
      (around (record a { connected = true }) (bring_down a.interface (a.backend, w))
        (bring_down-Goes a.interface limit a.backend w (c.active ∙ ap some (sym c.named)) h))
      λ u s k. record { holds = k.1 }

pub adapter_disconnect-Closed :
    (interface : Text) (limit : ℕ) (a : WireGuardAdapter LinuxWireGuardBackend) (w : World)
    → IsConnected interface a
    → Favours limit w
    → Ends (Closed limit) (λ _ _. ⊥) (Adapter.disconnect linux_backend (a, w))
adapter_disconnect-Closed interface limit a w c h =
    subst
      (λ b.
        Ends (Closed limit) (λ _ _. ⊥)
          (Adapter.disconnect linux_backend (record a { connected = b }, w)))
      (sym c.connected) (closing interface limit a w c h)

module _ (limit : ℕ) where
  -- The controller as it was, on such a platform.
  abbrev pub Same : LinuxController → Unit {0} → LinuxController × World → Type 0
  Same c u s = (s.0 ≡ c) × Favours limit s.1

  pub apply-Same :
      (policy : TrafficPolicy) (rules : Text) (c : LinuxController) (w : World)
      → render c.firewall.config policy ≡ ok rules
      → Favours limit w
      → Ends (Same c) (λ _ _. ⊥) (Controller.apply linux_transport nftables_firewall policy (c, w))
  unfolding Controller.apply nftables_firewall Nftables.apply run_nft call
  apply-Same policy rules c w e h = elim (Result-cases (w.replies w.step (nft rules))) [
    | inl (t, q) ↦ simp (e, q) (record { holds = (refl, moved w _ _ h) })
    | inr (x, q) ↦ absurd (ground (arith, h.answers w.step (nft rules), q))
  ]

  -- A policy without a tunnel is always rendered, and so is the one of a valid name.
  pub lost_rules :
      (config : NftablesConfig) (b : Bool) (p : TrafficPolicy)
      → (t : Text) × (render config (tunnel_lost (record { always_on = b; policy = p })).policy
          ≡ ok t)
  unfolding tunnel_lost render
  lost_rules config b disabled = (_, refl)
  lost_rules config b block_non_tunnel = (_, refl)
  lost_rules config b (tunnel_only i) = (_, refl)

  -- The controller with a connected transport.
  abbrev pub IsOpen : Text → LinuxController × World → Type 0
  IsOpen interface s = IsConnected interface s.0.transport × Favours limit s.1

  -- The result of a call of the transport, with the controller around it.
  pub beside :
      {A : Type 0} {Q : A → WireGuardAdapter LinuxWireGuardBackend × World → Type 0}
      (c : LinuxController)
      (r : Result TransportError A × (WireGuardAdapter LinuxWireGuardBackend × World))
      → Ends Q (λ _ _. ⊥) r
      → Ends {S = LinuxController × World}
          (λ a s. (s.0 ≡ record c { transport = s.0.transport }) × Q a (s.0.transport, s.1))
          (λ _ _. ⊥)
          (map_err transport_failed r.0, (record c { transport = r.1.0 }, r.1.1))
  beside c (ok a, s) h = record { holds = (refl, h.holds) }
  beside c (err e, s) h = absurd h.holds
