-- ===== src/KillSwitch/Connection.antt =====
-- core/killswitch/src/linux_connection.rs: the connection of a Linux client, which is the controller over
-- the WireGuard adapter and the nftables firewall, with the name lookups beside it.
pub mod Build
pub mod Teardown
pub mod AdapterDown
pub mod Quiet
pub mod Lookups
pub mod Safety
pub mod Favoured
pub mod Checks
pub mod Trusted
pub mod Assembly
pub mod Histories
use cyberia_vpn.Prelude.{ℕ, ◌+◌, not, ◌++◌, if◌then◌else◌, Result, ok, err, ok_or}
use cyberia_vpn.Exec.{Exec, pure, raise, attempt, mapped, ◌>>=◌, ◌>>◌, lift}
use cyberia_vpn.Text.{Text, lit}
use cyberia_vpn.Transport.Types
use cyberia_vpn.Transport.Types.{
  TransportError, network, TransportConfig, ConnectContext, Session, TransportHealth,
}
use cyberia_vpn.Transport.Platform.{World, now}
use cyberia_vpn.Transport.Dns.{DnsConfig}
use cyberia_vpn.WireGuard.Adapter
use cyberia_vpn.WireGuard.Adapter.{WireGuardAdapter, adapter_transport}
use cyberia_vpn.Linux.Backend.{LinuxWireGuardBackend}
use cyberia_vpn.Linux.Health.{linux_backend}
use cyberia_vpn.Linux.Dns
use cyberia_vpn.Linux.Dns.{LinuxDnsBackend, needs_revert}
use cyberia_vpn.KillSwitch.Nftables.{NftablesBackend, nftables_firewall}
use cyberia_vpn.KillSwitch.Controller
use cyberia_vpn.KillSwitch.Controller.{
  ConnectionController, ConnectionError, transport_failed, Transport,
}
use cyberia_vpn.KillSwitch.Machine.{TrafficPolicy}
use cyberia_vpn.Result.{Abort, panicked, returned}
use cyberia_vpn.Routing.Selector.{checked_add}

-- The transport of a Linux client.
abbrev pub linux_transport : Transport (WireGuardAdapter LinuxWireGuardBackend)
linux_transport = adapter_transport linux_backend

abbrev pub LinuxController : Type 0
LinuxController = ConnectionController (WireGuardAdapter LinuxWireGuardBackend) NftablesBackend

pub record LinuxWireGuardConnection : Type 0 where
  pub controller : LinuxController
  pub dns : LinuxDnsBackend
  pub dns_config : DnsConfig
  pub interface : Text
  pub transport : TransportConfig

abbrev pub Connected : Type 0
Connected = LinuxWireGuardConnection × World

-- A call on `self.controller`, and one on `self.dns`.
abbrev pub on_controller :
    {A : Type 0}
    → Exec ConnectionError (LinuxController × World) A
    → Exec ConnectionError Connected A
on_controller m (c, w) =
    let r = m (c.controller, w) in (r.0, (record c { controller = r.1.0 }, r.1.1))

abbrev pub on_dns :
    Exec TransportError (LinuxDnsBackend × World) (Unit {0})
    → Exec TransportError Connected (Unit {0})
on_dns m (c, w) = let r = m (c.dns, w) in (r.0, (record c { dns = r.1.0 }, r.1.1))

abbrev pub this : {E : Type 0} → Exec E Connected LinuxWireGuardConnection
this (c, w) = (ok c, (c, w))

-- `Instant::now()`.
abbrev pub clock : {E : Type 0} → Exec E Connected ℕ
clock (c, w) = (ok (now w).0, (c, (now w).1))

abbrev pub dns_failure : Text → Text → Text → ConnectionError
dns_failure dns_error what cleanup_error =
    transport_failed
      (network (lit "DNS setup failed: " ++ dns_error ++ lit "; " ++ what ++ cleanup_error))

-- `match self.controller.disconnect() { … }`.
unfoldable pub after_disconnect :
    TransportError → Result ConnectionError (Unit {0}) → Exec ConnectionError Connected Session
after_disconnect dns_error (ok _) = raise (transport_failed dns_error)
after_disconnect dns_error (err cleanup_error) = raise (
    dns_failure (Types.display dns_error) (lit "tunnel cleanup failed: ")
      (Controller.display cleanup_error))

unfoldable pub tear_down : TransportError → Exec ConnectionError Connected Session
tear_down dns_error = do
  ended ← attempt (on_controller (Controller.disconnect linux_transport nftables_firewall))
  after_disconnect dns_error ended

-- The second attempt at reverting the resolvers.
unfoldable pub after_revert :
    TransportError → Result TransportError (Unit {0}) → Exec ConnectionError Connected Session
after_revert dns_error (ok _) = tear_down dns_error
after_revert dns_error (err cleanup_error) = raise (
    dns_failure (Types.display dns_error) (lit "cleanup retry failed: ")
      (Types.display cleanup_error))

-- `if let Err(dns_error) = self.dns.configure(…) { … } Ok(session)`.
unfoldable pub after_configure :
    Session → Result TransportError (Unit {0}) → Exec ConnectionError Connected Session
after_configure session (ok _) = pure session
after_configure session (err dns_error) = do
  c ← this
  if not (needs_revert c.dns)
      then tear_down dns_error
      else do reverted ← attempt (on_dns (Dns.revert c.interface)); after_revert dns_error reverted

-- What `connect` does once it has its context.
unfoldable pub connect_under : ConnectContext → Exec ConnectionError Connected Session
connect_under context = do
  c ← this
  session ← on_controller (Controller.connect linux_transport nftables_firewall c.transport context)
  configured ← attempt (on_dns (Dns.configure c.interface c.dns_config context))
  after_configure session configured

-- `Instant::now() + self.transport.connect_timeout`, which panics when the sum is no `Instant`.
abbrev pub add_timeout : ℕ → LinuxWireGuardConnection → Result (Abort ConnectionError) ℕ
add_timeout instant c = ok_or (checked_add instant c.transport.connect_timeout) panicked

unfoldable pub connect : ℕ → Exec (Abort ConnectionError) Connected Session
connect cancellation = do
  instant ← clock
  c ← this
  deadline ← lift (add_timeout instant c)
  mapped returned (connect_under (record { deadline = deadline; cancellation = cancellation }))

unfoldable pub disconnect : Exec ConnectionError Connected (Unit {0})
disconnect = do
  c ← this
  mapped transport_failed (on_dns (Dns.revert c.interface))
  on_controller (Controller.disconnect linux_transport nftables_firewall)

unfoldable pub disable : Exec ConnectionError Connected (Unit {0})
disable = on_controller (Controller.disable linux_transport nftables_firewall)

-- `health` and `policy`.
unfoldable pub health : Connected → TransportHealth × Connected
health (c, w) =
    let r = linux_transport.health (c.controller.transport, w) in
    (r.0, (record c { controller = record (c.controller) { transport = r.1.0 } }, r.1.1))

unfoldable pub policy : LinuxWireGuardConnection → TrafficPolicy
policy c = c.controller.kill_switch.policy
