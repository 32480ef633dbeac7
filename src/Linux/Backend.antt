-- ===== src/Linux/Backend.antt =====
-- core/transport/src/linux.rs: `LinuxWireGuardBackend`, which creates the tunnel interface of a client
-- with its routes and policy rules.
pub mod Favoured
pub mod Setup
pub mod Removal
use cyberia_vpn.Prelude.{
  ℕ, zero, suc, ◌+◌, ◌-◌, ◌*◌, ◌/◌, ◌%◌, ◌^◌, ◌≤◌, ◌<◌, min, compare, Ordering, ◌≡◌, refl, sym, ap,
  subst, ◌∙◌, ◌≢◌, ◌↔◌, ◌⊎◌, inl, inr, Bool, true, false, not, ◌&&◌, ◌||◌, Option, none, some, List,
  [], ◌∷◌, ◌++◌, map, arith, ltb, leb, ◌==◌, if◌then◌else◌, ltb→lt, lt→ltb, leb→le, le→leb, ==_iff,
  Bool-cases, Option-cases, Result-cases, Result, ok, err, fail_if, ok_or, map_err, is_ok, is_some,
  length, any, all, keep, find, All, Has, here, there, Has-All, Has-append, find-Has, find-some,
  keep-Has, Has-keep, length-append, u32_max, u64_max, u16, u32, u64, u128, to_u32, to_u64,
  saturating_add,
}
use cyberia_vpn.Exec.{Exec, raise, pure, ◌>>=◌, ◌>>◌, lift}
use cyberia_vpn.Text.{Text, lit, text_eq}
use cyberia_vpn.Transport.Types
use cyberia_vpn.Transport.Types.{
  TransportError, network, cancelled, timed_out, already_connected, not_connected,
  authentication_failed, invalid_config, ConnectContext,
}
use cyberia_vpn.Transport.Platform.{World, on_world, self, set_self}
use cyberia_vpn.Transport.Context.{check}
use cyberia_vpn.WireGuard.Profile.{WireGuardConfig}
use cyberia_vpn.Linux.Tools.{LinuxTools, validate_tools, check_key_path}
use cyberia_vpn.Linux.Commands.{
  PolicyRule, create_interface, delete_interface, configure, install_routes, remove_policy_rules,
}

pub record LinuxWireGuardBackend : Type 0 where
  pub tools : LinuxTools
  pub routing_mark : ℕ  -- NonZeroU32
  pub active_rules : List PolicyRule
  pub active_interface : Option Text
  pub health_failures : ℕ  -- u32

-- `LinuxWireGuardBackend::new`.
unfoldable pub new : LinuxTools → ℕ → Exec TransportError World LinuxWireGuardBackend
new tools routing_mark = do
  validate_tools tools
  lift (check_key_path tools)
  pure (record {
    tools = tools;
    routing_mark = routing_mark;
    active_rules = [];
    active_interface = none;
    health_failures = 0;
  })

-- `{:?}` of an error and of a result.
pub debug_error : (Text → Text) → TransportError → Text
debug_error escape (invalid_config reason) = lit "InvalidConfig(" ++ escape reason ++ lit ")"
debug_error escape cancelled = lit "Cancelled"
debug_error escape timed_out = lit "TimedOut"
debug_error escape already_connected = lit "AlreadyConnected"
debug_error escape not_connected = lit "NotConnected"
debug_error escape authentication_failed = lit "AuthenticationFailed"
debug_error escape (network reason) = lit "Network(" ++ escape reason ++ lit ")"

pub debug_result : (Text → Text) → Result TransportError (Unit {0}) → Text
debug_result escape (ok _) = lit "Ok(())"
debug_result escape (err e) = lit "Err(" ++ debug_error escape e ++ lit ")"

module _ (tools : LinuxTools) (routing_mark : ℕ) where
  abbrev setup_failure :
      (Text → Text)
      → TransportError
      → Result TransportError (Unit {0})
      → Result TransportError (Unit {0})
      → TransportError
  setup_failure escape setup_error (ok _) (ok _) = setup_error
  setup_failure escape setup_error rules interface = network (
      lit "WireGuard setup failed: "
      ++ Types.display setup_error
      ++ lit "; cleanup failed: rules="
      ++ debug_result escape rules
      ++ lit ", interface="
      ++ debug_result escape interface)

  unfoldable pub rollback_setup :
      Text → List PolicyRule → TransportError → World → TransportError × World
  rollback_setup interface rules setup_error w =
      let rules_result = remove_policy_rules tools routing_mark rules w in
      let interface_result = delete_interface tools interface rules_result.1.1 in
      (setup_failure w.debug_text setup_error rules_result.0 interface_result.0, interface_result.1)

  -- What `bring_up` does once the interface exists: the result and the rules that are installed.
  unfoldable pub set_up :
      Text
      → WireGuardConfig
      → ConnectContext
      → World
      → Result TransportError (Unit {0}) × (List PolicyRule × World)
  set_up interface profile context w =
      (do
        on_world (configure tools routing_mark interface profile context)
        install_routes tools routing_mark interface context profile.allowed_ips)
        ([], w)

-- The tools and the mark never change.
abbrev pub activated : LinuxWireGuardBackend → Text → List PolicyRule → LinuxWireGuardBackend
activated b interface rules = record b { active_rules = rules; active_interface = some interface }

unfoldable pub settle :
    LinuxWireGuardBackend
    → Text
    → Result TransportError (Unit {0}) × (List PolicyRule × World)
    → Result TransportError (Unit {0}) × (LinuxWireGuardBackend × World)
settle b interface (ok _, (rules, w)) = (ok tt, (activated b interface rules, w))
settle b interface (err setup_error, (rules, w)) =
    let rolled = rollback_setup b.tools b.routing_mark interface rules setup_error w in
    (err rolled.0, (b, rolled.1))

unfoldable pub build :
    Text
    → WireGuardConfig
    → ConnectContext
    → Exec TransportError (LinuxWireGuardBackend × World) (Unit {0})
build interface profile context (b, w) =
    settle b interface (set_up b.tools b.routing_mark interface profile context w)

unfoldable pub bring_up :
    Text
    → WireGuardConfig
    → ConnectContext
    → Exec TransportError (LinuxWireGuardBackend × World) (Unit {0})
bring_up interface profile context = do
  b ← self
  if is_some b.active_interface then raise already_connected else do
    on_world (check context)
    on_world (create_interface b.tools interface)
    build interface profile context

-- `remove_policy_rules(&mut rules)` on the rules that are taken out and put back on an error.
unfoldable pub remove_active_rules : Exec TransportError (LinuxWireGuardBackend × World) (Unit {0})
remove_active_rules (b, w) =
    let removed = remove_policy_rules b.tools b.routing_mark b.active_rules w in
    (removed.0, (record b { active_rules = removed.1.0 }, removed.1.1))

-- `self.active_interface.as_deref() == Some(interface)`.
abbrev pub is_active : Option Text → Text → Bool
is_active none interface = false
is_active (some active) interface = text_eq active interface

unfoldable pub bring_down : Text → Exec TransportError (LinuxWireGuardBackend × World) (Unit {0})
bring_down interface = do
  b ← self
  if not (is_active b.active_interface interface) then raise not_connected else do
    remove_active_rules
    on_world (delete_interface b.tools interface)
    cleaned ← self
    set_self (record cleaned { active_interface = none })
