-- ===== src/WireGuard/Adapter.antt =====
-- core/transport/src/wireguard.rs: the trait `WireGuardBackend`, and the adapter that makes a transport of
-- it.
pub mod Lifecycle
use cyberia_vpn.Prelude.{
  map_ok, Bool, true, false, not, ◌&&◌, ◌||◌, none, ◌==◌, if◌then◌else◌, Result, ok, err,
}
use cyberia_vpn.Exec.{Exec, raise, pure, lift, ◌>>=◌, ◌>>◌}
use cyberia_vpn.Text.{Text, lit, text_eq}
use cyberia_vpn.Transport.Types
use cyberia_vpn.Transport.Types.{
  TransportError, TransportKind, wire_guard, TransportConfig, Endpoint, ConnectContext, Session,
  TransportHealth, unavailable, already_connected, not_connected, invalid_config,
}
use cyberia_vpn.Transport.Platform.{World, now, on_world, self}
use cyberia_vpn.Transport.Context.{check, observe}
use cyberia_vpn.KillSwitch.Controller.{Transport}
use cyberia_vpn.Linux.Tools.{valid_interface}
use cyberia_vpn.WireGuard.Profile.{WireGuardConfig}
use cyberia_vpn.WireGuard.Validate.{validate_config}

-- The trait, implemented by `B`.
pub record WireGuardBackend (B : Type 0) : Type 0 where
  pub bring_up :
      Text → WireGuardConfig → ConnectContext → Exec TransportError (B × World) (Unit {0})
  pub bring_down : Text → Exec TransportError (B × World) (Unit {0})
  pub health : B × World → TransportHealth × (B × World)

pub record WireGuardAdapter (B : Type 0) : Type 0 where
  pub interface : Text
  pub profile : WireGuardConfig
  pub backend : B
  pub connected : Bool

abbrev pub is_wire_guard : TransportKind → Bool
is_wire_guard wire_guard = true
is_wire_guard _ = false

unfoldable pub endpoint_eq : Endpoint → Endpoint → Bool
endpoint_eq a b = text_eq a.host b.host && (a.port == b.port)

module _ {B : Type 0} where
  unfoldable pub new : Text → WireGuardConfig → B → Result TransportError (WireGuardAdapter B)
  new interface profile backend =
      if not (valid_interface interface)
      then err (invalid_config (lit "invalid WireGuard interface name"))
      else map_ok
          (λ _. record {
            interface = interface;
            profile = profile;
            backend = backend;
            connected = false;
          })
          (validate_config profile)

  -- A call on `self.backend`.
  abbrev pub on_backend :
      Exec TransportError (B × World) (Unit {0})
      → Exec TransportError (WireGuardAdapter B × World) (Unit {0})
  on_backend m (a, w) = let r = m (a.backend, w) in (r.0, (record a { backend = r.1.0 }, r.1.1))

  abbrev pub set_connected : Bool → Exec TransportError (WireGuardAdapter B × World) (Unit {0})
  set_connected b (a, w) = (ok tt, (record a { connected = b }, w))

  -- The session that a successful attempt hands out.
  unfoldable pub session : Exec TransportError (WireGuardAdapter B × World) Session
  session = do
    a ← self
    at ← on_world (observe now)
    pure (record { id = a.interface; transport = wire_guard; established_at = at })

module _ {B : Type 0} (backend : WireGuardBackend B) where
  unfoldable pub connect :
      TransportConfig → ConnectContext → Exec TransportError (WireGuardAdapter B × World) Session
  connect config context = do
    a ← self
    if a.connected
        then raise already_connected
        else if not (is_wire_guard config.kind)
            || not (endpoint_eq config.endpoint a.profile.endpoint)
        then raise (invalid_config (lit "WireGuard transport parameters do not match profile"))
        else do
          lift (Types.validate config)
          on_world (check context)
          on_backend (backend.bring_up a.interface a.profile context)
          set_connected true
          session

  unfoldable pub disconnect : Exec TransportError (WireGuardAdapter B × World) (Unit {0})
  disconnect = do
    a ← self
    if not a.connected
        then raise not_connected
        else do on_backend (backend.bring_down a.interface); set_connected false

  abbrev pub forward_health :
      WireGuardAdapter B × World → TransportHealth × (WireGuardAdapter B × World)
  forward_health (a, w) =
      let r = backend.health (a.backend, w) in (r.0, (record a { backend = r.1.0 }, r.1.1))

  unfoldable pub health :
      WireGuardAdapter B × World → TransportHealth × (WireGuardAdapter B × World)
  health s =
      if s.0.connected
      then forward_health s
      else (record { status = unavailable; round_trip_time = none; consecutive_failures = 0 }, s)

  -- `impl Transport for WireGuardAdapter<B>`.
  unfoldable pub adapter_transport : Transport (WireGuardAdapter B)
  adapter_transport = record {
    kind = λ a. wire_guard;
    connect = connect;
    disconnect = disconnect;
    health = health;
  }
