-- ===== src/Client/Main.antt =====
-- apps/linux-client/src/main.rs: the program, from its arguments to the line that it prints.
pub mod Check
use cyberia_vpn.Prelude.{
  ℕ, Bool, true, false, Option, none, some, List, [], ◌∷◌, if◌then◌else◌, Result, ok, err, map_err,
}
use cyberia_vpn.Exec.{Exec, pure, lift, mapped, ◌>>=◌, ◌>>◌}
use cyberia_vpn.Text.{Text, lit, text_eq}
use cyberia_vpn.Transport.Platform.{World}
use cyberia_vpn.KillSwitch.Controller
use cyberia_vpn.KillSwitch.Controller.{ConnectionError}
use cyberia_vpn.KillSwitch.Connection.{LinuxWireGuardConnection}
use cyberia_vpn.KillSwitch.Connection.Build
use cyberia_vpn.KillSwitch.Connection.Build.{LinuxConnectionSettings}
use cyberia_vpn.Client.Config
use cyberia_vpn.Client.Config.{ClientConfig, load_config}
use cyberia_vpn.Client.Settings.{into_connection_settings}
use cyberia_vpn.Result.{Abort, returned, map_abort}
use cyberia_vpn.Client.Lease
use cyberia_vpn.Client.Lease.{acquire_interface_lease}
use cyberia_vpn.Client.Validation
use cyberia_vpn.Client.Validation.{validate_client_configuration}
use cyberia_vpn.Client.Run.{linux_client, run_until_shutdown}

-- Whether the configuration is to be checked only, and its path; the name of the program is left out. An
-- error is kept by the text that it shows.
unfoldable pub read_arguments : List Text → Result Text (Bool × Text)
read_arguments [] = err (lit "usage: cyberia-linux-client /absolute/path/to/client.json")
read_arguments (first ∷ []) =
    if text_eq first (lit "--check")
    then err (lit "usage: cyberia-linux-client --check /absolute/path/to/client.json")
    else ok (false, first)
read_arguments (first ∷ path ∷ []) =
    if text_eq first (lit "--check")
    then ok (true, path)
    else err (lit "usage: cyberia-linux-client [--check] /absolute/path/to/client.json")
read_arguments (first ∷ path ∷ _ ∷ rest) =
    err (lit "usage: cyberia-linux-client [--check] /absolute/path/to/client.json")

-- What the program takes from other packages and from its own threads: reading JSON, the handler of the
-- interrupt signal, and waiting for it. The handler and the connection share one cancellation flag.
pub record Surroundings : Type 0 where
  pub parse_json : Text → Result Text ClientConfig
  pub set_handler : World → Result Text (Unit {0}) × World
  pub wait_for_shutdown : World → World
  pub cancellation : ℕ

module _ (around : Surroundings) where
  -- The connection is run on its own, and ends with the program.
  abbrev pub run_connection : Bool → LinuxWireGuardConnection → Exec (Abort Text) World (Unit {0})
  run_connection always_on connection w =
      let r =
        run_until_shutdown linux_client always_on around.cancellation around.wait_for_shutdown
          (connection, w) in
      (map_err (map_abort Controller.display) r.0, r.1.1)

  unfoldable pub serve : ClientConfig → Exec (Abort Text) World (Unit {0})
  serve config = do
    settings ← mapped (map_abort Config.display) (lift (into_connection_settings config))
    connection ← mapped (λ e. returned (Build.display e)) (Build.system settings config.tools.nft)
    mapped returned around.set_handler
    run_connection config.always_on connection

  -- The line that is printed.
  unfoldable pub run : List Text → Exec (Abort Text) World (Option Text)
  run arguments = do
    (check_only, path) ← mapped returned (lift (read_arguments arguments))
    config ← mapped (λ e. returned (Config.display e)) (load_config around.parse_json path)
    mapped (λ e. returned (Lease.display e))
        (acquire_interface_lease config.runtime_directory config.interface)
    if check_only
        then (do
          mapped (map_abort Validation.display) (validate_client_configuration config)
          pure (some (lit "cyberia-linux-client: configuration is valid")))
        else (do serve config; pure none)
