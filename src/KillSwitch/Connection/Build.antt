-- ===== src/KillSwitch/Connection/Build.antt =====
-- core/killswitch/src/linux_connection.rs: how a connection is assembled from its settings.
use cyberia_vpn.Prelude.{ℕ, Bool, ok_or}
use cyberia_vpn.Exec.{Exec, pure, lift, mapped, ◌>>=◌, ◌>>◌}
use cyberia_vpn.Text.{Text, lit}
use cyberia_vpn.Net.Parse.{parse_ip}
use cyberia_vpn.Transport.Types
use cyberia_vpn.Transport.Types.{TransportError, TransportConfig, wire_guard}
use cyberia_vpn.Transport.Platform.{World}
use cyberia_vpn.Transport.Dns
use cyberia_vpn.Transport.Dns.{DnsConfig}
use cyberia_vpn.WireGuard.Profile.{WireGuardConfig}
use cyberia_vpn.WireGuard.Adapter
use cyberia_vpn.Linux.Tools.{LinuxTools, LinuxDnsTools}
use cyberia_vpn.Linux.Backend
use cyberia_vpn.Linux.Dns as LinuxDns
use cyberia_vpn.KillSwitch.Machine
use cyberia_vpn.KillSwitch.Controller
use cyberia_vpn.KillSwitch.Controller.{FirewallError}
use cyberia_vpn.KillSwitch.Nftables
use cyberia_vpn.KillSwitch.Nftables.{NftablesError, nftables_firewall, new_runner}
use cyberia_vpn.KillSwitch.Connection.{LinuxWireGuardConnection, linux_transport}

pub record LinuxConnectionSettings : Type 0 where
  pub interface : Text
  pub profile : WireGuardConfig
  pub dns : DnsConfig
  pub tools : LinuxTools
  pub dns_tools : LinuxDnsTools
  pub routing_mark : ℕ  -- NonZeroU32
  pub connect_timeout : ℕ
  pub always_on : Bool

pub data LinuxConnectionBuildError : Type 0 where
  endpoint_must_be_ip_address : LinuxConnectionBuildError
  firewall_failed : FirewallError → LinuxConnectionBuildError
  nftables_failed : NftablesError → LinuxConnectionBuildError
  transport_failed : TransportError → LinuxConnectionBuildError

pub display : LinuxConnectionBuildError → Text
display endpoint_must_be_ip_address = lit "Linux WireGuard endpoint must be an IP address"
display (firewall_failed error) = Controller.display_firewall error
display (nftables_failed error) = Nftables.display error
display (transport_failed error) = Types.display error

abbrev pub transport_of : LinuxConnectionSettings → TransportConfig
transport_of settings = record {
  kind = wire_guard;
  endpoint = settings.profile.endpoint;
  connect_timeout = settings.connect_timeout;
}

-- The runners hold no state.
unfoldable pub with_runners :
    LinuxConnectionSettings → Exec LinuxConnectionBuildError World LinuxWireGuardConnection
with_runners settings = do
  address ← lift (ok_or (parse_ip settings.profile.endpoint.host) endpoint_must_be_ip_address)
  mapped transport_failed (lift (Types.validate (transport_of settings)))
  mapped transport_failed (lift (Dns.validate settings.dns))
  backend ← mapped transport_failed (Backend.new settings.tools settings.routing_mark)
  adapter ← mapped transport_failed (lift (Adapter.new settings.interface settings.profile backend))
  dns ← mapped transport_failed (LinuxDns.new settings.dns_tools)
  controller ← mapped firewall_failed (
      Controller.new linux_transport nftables_firewall
        (Machine.enable (Machine.new settings.always_on)) adapter
        (record {
          config = record {
            endpoint_address = address;
            endpoint_port = settings.profile.endpoint.port;
          };
        }))
  pure (record {
    controller = controller;
    dns = dns;
    dns_config = settings.dns;
    interface = settings.interface;
    transport = transport_of settings;
  })

unfoldable pub system :
    LinuxConnectionSettings → Text → Exec LinuxConnectionBuildError World LinuxWireGuardConnection
system settings nft_executable = do
  mapped nftables_failed (new_runner nft_executable)
  with_runners settings
