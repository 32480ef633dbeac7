-- ===== src/Client/Validation.antt =====
-- apps/linux-client/src/lib.rs: the validation of a configuration that changes nothing.
pub mod Validated
pub mod Builds
use cyberia_vpn.Exec.{Exec, pure, lift, mapped, ◌>>=◌, ◌>>◌}
use cyberia_vpn.Text.{Text}
use cyberia_vpn.Transport.Types
use cyberia_vpn.Transport.Types.{TransportError}
use cyberia_vpn.Transport.Platform.{World}
use cyberia_vpn.Transport.Dns
use cyberia_vpn.WireGuard.Validate.{validate_config}
use cyberia_vpn.Linux.Tools.{validate_tools, validate_dns_tools}
use cyberia_vpn.KillSwitch.Nftables
use cyberia_vpn.KillSwitch.Nftables.{NftablesError, new_runner}
use cyberia_vpn.KillSwitch.Connection.Build.{transport_of}
use cyberia_vpn.Client.Config
use cyberia_vpn.Client.Config.{ClientConfig, ConfigError, validate_private_directory}
use cyberia_vpn.Client.Settings.{into_connection_settings}
use cyberia_vpn.Result.{Abort, returned, panicked, map_abort}

pub data ClientValidationError : Type 0 where
  config_failed : ConfigError → ClientValidationError
  transport_failed : TransportError → ClientValidationError
  nftables_failed : NftablesError → ClientValidationError

pub display : ClientValidationError → Text
display (config_failed error) = Config.display error
display (transport_failed error) = Types.display error
display (nftables_failed error) = Nftables.display error

abbrev pub refused : TransportError → Abort ClientValidationError
refused error = returned (transport_failed error)

unfoldable pub validate_client_configuration :
    ClientConfig → Exec (Abort ClientValidationError) World (Unit {0})
validate_client_configuration config = do
  mapped (λ e. returned (config_failed e)) (validate_private_directory config.runtime_directory)
  settings ← mapped (map_abort config_failed) (lift (into_connection_settings config))
  mapped refused (lift (validate_config settings.profile))
  mapped refused (lift (Dns.validate settings.dns))
  mapped refused (lift (Types.validate (transport_of settings)))
  mapped refused (validate_tools settings.tools)
  mapped refused (validate_dns_tools settings.dns_tools)
  mapped (λ e. returned (nftables_failed e)) (new_runner config.tools.nft)
  pure tt
