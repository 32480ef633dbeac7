-- ===== src/KillSwitch/Controller.antt =====
-- core/killswitch/src/lib.rs: the `Transport` and `Firewall` traits and the `ConnectionController`
-- over them. A method runs on the object beside the world.

pub mod Contract
pub mod Connect
pub mod Teardown
pub mod History
use cyberia_vpn.Prelude.{
  Bool, true, false, ◌++◌, if◌then◌else◌, Result, ok, err, map_ok, map_err, is_ok,
}
use cyberia_vpn.Exec.{Exec, pure, raise, lift, attempt, mapped, ◌>>=◌, ◌>>◌}
use cyberia_vpn.Text.{Text, lit}
use cyberia_vpn.Transport.Types
use cyberia_vpn.Transport.Types.{
  TransportConfig, ConnectContext, Session, TransportKind, TransportHealth, TransportError,
}
use cyberia_vpn.Transport.Platform.{World}
use cyberia_vpn.KillSwitch.Machine.{
  TrafficPolicy, KillSwitch, KillSwitchError, is_tunnel_only, enable, tunnel_established,
  tunnel_lost, not_enabled, transport_active,
}
use cyberia_vpn.KillSwitch.Machine

-- `FirewallError(String)`.
pub data FirewallError : Type 0 where
  firewall_error : Text → FirewallError

pub display_firewall : FirewallError → Text
display_firewall (firewall_error reason) = lit "firewall policy failed: " ++ reason

-- The trait `Transport`, implemented by `T`.
pub record Transport (T : Type 0) : Type 0 where
  pub kind : T → TransportKind
  pub connect : TransportConfig → ConnectContext → Exec TransportError (T × World) Session
  pub disconnect : Exec TransportError (T × World) (Unit {0})
  pub health : T × World → TransportHealth × (T × World)

-- The trait `Firewall`, implemented by `F`.
pub record Firewall (F : Type 0) : Type 0 where
  pub apply : TrafficPolicy → Exec FirewallError (F × World) (Unit {0})

-- The backend for domain tests, which applies everything.
pub memory_firewall : Firewall (Unit {0})
memory_firewall = record { apply = λ policy s. (ok tt, s) }

pub data ConnectionError : Type 0 where
  firewall_failed : FirewallError → ConnectionError
  kill_switch_failed : KillSwitchError → ConnectionError
  transport_failed : TransportError → ConnectionError

pub display : ConnectionError → Text
display (firewall_failed error) = display_firewall error
display (kill_switch_failed error) = Machine.display error
display (transport_failed error) = Types.display error

pub record ConnectionController (T F : Type 0) : Type 0 where
  pub kill_switch : KillSwitch
  pub transport : T
  pub firewall : F
  pub transport_may_be_active : Bool

-- The controller beside the world.
abbrev pub Controlled : Type 0 → Type 0 → Type 0
Controlled T F = ConnectionController T F × World

module _ {T F : Type 0} where
  -- A call on `self.firewall`.
  abbrev pub on_firewall :
      Exec FirewallError (F × World) (Unit {0}) → Exec FirewallError (Controlled T F) (Unit {0})
  on_firewall m (c, w) = let r = m (c.firewall, w) in (r.0, (record c { firewall = r.1.0 }, r.1.1))

  -- A call on `self.transport`.
  abbrev pub on_transport :
      {A : Type 0} → Exec TransportError (T × World) A → Exec TransportError (Controlled T F) A
  on_transport m (c, w) =
      let r = m (c.transport, w) in (r.0, (record c { transport = r.1.0 }, r.1.1))

  abbrev pub this : Exec ConnectionError (Controlled T F) (ConnectionController T F)
  this (c, w) = (ok c, (c, w))

  abbrev pub set_kill_switch : KillSwitch → Exec ConnectionError (Controlled T F) (Unit {0})
  set_kill_switch k (c, w) = (ok tt, (record c { kill_switch = k }, w))

  abbrev pub set_active : Bool → Exec ConnectionError (Controlled T F) (Unit {0})
  set_active b (c, w) = (ok tt, (record c { transport_may_be_active = b }, w))

module _ {T F : Type 0} (t : Transport T) (f : Firewall F) where
  -- `firewall.apply(kill_switch.policy())?` comes before the controller exists.
  unfoldable pub new :
      KillSwitch → T → F → World → Result FirewallError (ConnectionController T F) × World
  new kill_switch transport firewall w =
      let r = f.apply kill_switch.policy (firewall, w) in
      (
        map_ok
            (λ _. record {
              kill_switch = kill_switch;
              transport = transport;
              firewall = r.1.0;
              transport_may_be_active = false;
            })
            r.0,
        r.1.1,
      )

  -- `self.firewall.apply(policy).map_err(ConnectionError::Firewall)`.
  unfoldable pub apply : TrafficPolicy → Exec ConnectionError (Controlled T F) (Unit {0})
  apply policy = mapped firewall_failed (on_firewall (f.apply policy))

  -- `if self.transport.disconnect().is_ok() { self.transport_may_be_active = false; }`, and then the
  -- error is returned.
  unfoldable pub give_up : {A : Type 0} → ConnectionError → Exec ConnectionError (Controlled T F) A
  give_up error = do
    torn_down ← attempt (on_transport t.disconnect)
    if is_ok torn_down then set_active false else pure tt
    raise error

  -- `if let Err(error) = self.firewall.apply(tunnel.policy()) { … }`, and what follows it.
  unfoldable pub accept_policy :
      Session
      → KillSwitch
      → Result ConnectionError (Unit {0})
      → Exec ConnectionError (Controlled T F) Session
  accept_policy session tunnel (err error) = give_up error
  accept_policy session tunnel (ok _) = do set_kill_switch tunnel; pure session

  -- `if let Err(error) = tunnel.tunnel_established(&session.id) { … }`, and what follows it.
  unfoldable pub accept_tunnel :
      Session
      → Result KillSwitchError (Unit {0}) × KillSwitch
      → Exec ConnectionError (Controlled T F) Session
  accept_tunnel session (err error, tunnel) = give_up (kill_switch_failed error)
  accept_tunnel session (ok _, tunnel) = do
    applied ← attempt (apply tunnel.policy)
    accept_policy session tunnel applied

  unfoldable pub connect :
      TransportConfig → ConnectContext → Exec ConnectionError (Controlled T F) Session
  connect config context = do
    before ← this
    let blocking = enable before.kill_switch
    apply blocking.policy
    set_kill_switch blocking
    set_active true
    session ← mapped transport_failed (on_transport (t.connect config context))
    armed ← this
    accept_tunnel session (tunnel_established session.id armed.kill_switch)

  unfoldable pub disconnect : Exec ConnectionError (Controlled T F) (Unit {0})
  disconnect = do
    before ← this
    let blocking = tunnel_lost before.kill_switch
    apply blocking.policy
    set_kill_switch blocking
    mapped transport_failed (on_transport t.disconnect)
    set_active false

  unfoldable pub disable : Exec ConnectionError (Controlled T F) (Unit {0})
  disable = do
    before ← this
    if before.transport_may_be_active
        then raise (kill_switch_failed transport_active)
        else if is_tunnel_only before.kill_switch.policy
        then raise (kill_switch_failed not_enabled)
        else do
          let released = Machine.disable before.kill_switch
          lift (map_err kill_switch_failed released.0)
          apply released.1.policy
          set_kill_switch released.1
