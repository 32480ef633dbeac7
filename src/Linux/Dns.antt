-- ===== src/Linux/Dns.antt =====
-- core/transport/src/linux.rs: `LinuxDnsBackend`, which routes the name lookups of a client to the tunnel
-- through systemd-resolved.
pub mod Favoured
pub mod Revert
use cyberia_vpn.Prelude.{
  Bool, not, Option, none, some, [], ◌∷◌, ◌++◌, map, if◌then◌else◌, Result, ok, err, is_some,
}
use cyberia_vpn.Exec.{Exec, raise, lift, attempt, ◌>>=◌, ◌>>◌, pure}
use cyberia_vpn.Text.{Text, lit}
use cyberia_vpn.Net.Show.{show_ip}
use cyberia_vpn.Transport.Types
use cyberia_vpn.Transport.Types.{
  TransportError, network, already_connected, not_connected, invalid_config, ConnectContext,
}
use cyberia_vpn.Transport.Platform.{World, command, on_world, self, set_self}
use cyberia_vpn.Transport.Context.{check}
use cyberia_vpn.Transport.Dns
use cyberia_vpn.Transport.Dns.{DnsConfig}
use cyberia_vpn.Linux.Tools.{LinuxDnsTools, valid_interface, validate_dns_tools}
use cyberia_vpn.Linux.Backend.{is_active}

pub record LinuxDnsBackend : Type 0 where
  pub tools : LinuxDnsTools
  pub active_interface : Option Text

-- `LinuxDnsBackend::new`.
unfoldable pub new : LinuxDnsTools → Exec TransportError World LinuxDnsBackend
new tools = do validate_dns_tools tools; pure (record { tools = tools; active_interface = none })

module _ (tools : LinuxDnsTools) where
  unfoldable pub revert_interface : Text → Exec TransportError World (Unit {0})
  revert_interface interface = command tools.resolvectl (lit "revert" ∷ interface ∷ [])

  -- The closure that sets the resolvers up.
  unfoldable pub set_up_dns :
      Text → DnsConfig → ConnectContext → Exec TransportError World (Unit {0})
  set_up_dns interface config context = do
    command tools.resolvectl (lit "dns" ∷ interface ∷ map show_ip config.resolvers)
    check context
    command tools.resolvectl (lit "domain" ∷ interface ∷ lit "~." ∷ [])
    check context
    command tools.resolvectl (lit "default-route" ∷ interface ∷ lit "yes" ∷ [])

abbrev pub owning : LinuxDnsBackend → Text → LinuxDnsBackend
owning d interface = record d { active_interface = some interface }

-- `if let Err(cleanup_error) = … { … } return Err(setup_error);`.
unfoldable pub after_cleanup :
    Text
    → TransportError
    → Result TransportError (Unit {0})
    → Exec TransportError (LinuxDnsBackend × World) (Unit {0})
after_cleanup interface setup_error (ok _) = raise setup_error
after_cleanup interface setup_error (err cleanup_error) = do
  d ← self
  set_self (owning d interface)
  raise (
      network (
        lit "DNS setup failed: "
        ++ Types.display setup_error
        ++ lit "; cleanup failed: "
        ++ Types.display cleanup_error))

unfoldable pub after_setup :
    Text
    → Result TransportError (Unit {0})
    → Exec TransportError (LinuxDnsBackend × World) (Unit {0})
after_setup interface (ok _) = do d ← self; set_self (owning d interface)
after_setup interface (err setup_error) = do
  d ← self
  cleanup ← attempt (on_world (revert_interface d.tools interface))
  after_cleanup interface setup_error cleanup

unfoldable pub configure :
    Text → DnsConfig → ConnectContext → Exec TransportError (LinuxDnsBackend × World) (Unit {0})
configure interface config context = do
  d ← self
  if is_some d.active_interface
      then raise already_connected
      else if not (valid_interface interface)
      then raise (invalid_config (lit "invalid DNS interface name"))
      else do
        lift (Dns.validate config)
        on_world (check context)
        result ← attempt (on_world (set_up_dns d.tools interface config context))
        after_setup interface result

abbrev pub needs_revert : LinuxDnsBackend → Bool
needs_revert d = is_some d.active_interface

unfoldable pub revert : Text → Exec TransportError (LinuxDnsBackend × World) (Unit {0})
revert interface = do
  d ← self
  if not (is_active d.active_interface interface) then raise not_connected else do
    on_world (revert_interface d.tools interface)
    set_self (record d { active_interface = none })
