-- ===== src/Client/Main/Check.antt =====
-- A run of apps/linux-client/src/main.rs that only checks the configuration.
use cyberia_vpn.Prelude.{◌≡◌, refl, not, ◌||◌, List, [], ◌∷◌, Result}
use cyberia_vpn.Exec.{Exec, lift, mapped, pure, raise}
use cyberia_vpn.Text.{Text, lit, text_eq}
use cyberia_vpn.Transport.Types
use cyberia_vpn.Transport.Dns
use cyberia_vpn.Transport.Platform.{World, Event, symlink_metadata}
use cyberia_vpn.WireGuard.Validate.{validate_config}
use cyberia_vpn.Linux.Tools.{validate_tools, validate_dns_tools, is_absolute}
use cyberia_vpn.KillSwitch.Nftables.{new_runner}
use cyberia_vpn.KillSwitch.Nftables.Quiet.{Quiet, Quiet-bind, Quiet-if}
use cyberia_vpn.KillSwitch.Connection.Checks.{tools-Quiet, dns_tools-Quiet, runner-Quiet}
use cyberia_vpn.KillSwitch.Connection.Build.{transport_of}
use cyberia_vpn.Client.Config
use cyberia_vpn.Client.Config.{ClientConfig, is_private, validate_private_directory, load_config}
use cyberia_vpn.Client.Config.Loaded.{load_config-trace}
use cyberia_vpn.Client.Settings.{into_connection_settings}
use cyberia_vpn.Client.Lease.{acquire_interface_lease}
use cyberia_vpn.Client.Lease.Held.{acquire-trace}
use cyberia_vpn.Client.Validation
use cyberia_vpn.Client.Validation.{refused, validate_client_configuration}
use cyberia_vpn.Result.{map_abort}
use cyberia_vpn.Client.Main.{Surroundings, read_arguments, run}

-- The calls that were made.
abbrev calls : World → List Event
calls w = w.trace

Quiet-mapped :
    {E F A : Type 0} (g : E → F) (m : Exec E World A) → Quiet calls m → Quiet calls (mapped g m)
Quiet-mapped g m q = record { holds = q.holds }

Quiet-lift : {E A : Type 0} (r : Result E A) → Quiet calls (lift r)
Quiet-lift r = record { holds = λ w. refl }

directory-Quiet : (path : Text) → Quiet calls (validate_private_directory path)
unfolding validate_private_directory symlink_metadata
directory-Quiet path =
    Quiet-if calls (not (is_absolute path)) (raise _) _ (record { holds = λ w. refl })
      (Quiet-bind calls (mapped Config.io (symlink_metadata path)) _ (record { holds = λ w. refl })
        (λ m.
          Quiet-if calls (not m.is_dir || m.is_symlink || not (is_private m)) (raise _) (pure tt)
            (record { holds = λ w. refl }) (record { holds = λ w. refl })))

pub validation-Quiet : (config : ClientConfig) → Quiet calls (validate_client_configuration config)
unfolding validate_client_configuration
validation-Quiet config =
    Quiet-bind calls (mapped _ (validate_private_directory config.runtime_directory)) _
      (Quiet-mapped _ _ (directory-Quiet config.runtime_directory))
      (λ u.
        Quiet-bind calls (mapped _ (lift (into_connection_settings config))) _
          (Quiet-mapped _ _ (Quiet-lift _))
          (λ settings.
            Quiet-bind calls (mapped _ (lift (validate_config settings.profile))) _
              (Quiet-mapped _ _ (Quiet-lift _))
              (λ u.
                Quiet-bind calls (mapped _ (lift (Dns.validate settings.dns))) _
                  (Quiet-mapped _ _ (Quiet-lift _))
                  (λ u.
                    Quiet-bind calls (mapped _ (lift (Types.validate (transport_of settings)))) _
                      (Quiet-mapped _ _ (Quiet-lift _))
                      (λ u.
                        Quiet-bind calls (mapped _ (validate_tools settings.tools)) _
                          (Quiet-mapped _ _ (tools-Quiet calls (λ w. refl) settings.tools))
                          (λ u.
                            Quiet-bind calls (mapped _ (validate_dns_tools settings.dns_tools)) _
                              (Quiet-mapped _ _
                                (dns_tools-Quiet calls (λ w. refl) settings.dns_tools))
                              (λ u.
                                Quiet-bind calls (mapped _ (new_runner config.tools.nft)) _
                                  (Quiet-mapped _ _
                                    (runner-Quiet calls (λ w. refl) config.tools.nft))
                                  (λ u. record { holds = λ w. refl }))))))))

-- A run of the program that only checks a configuration starts no command, whatever the files, the configuration and
-- its errors are.
pub run_check-trace :
    (around : Surroundings) (path : Text) (w : World)
    → (run around (lit "--check" ∷ path ∷ []) w).1.trace ≡ w.trace
unfolding run read_arguments text_eq lit
run_check-trace around path w =
    (Quiet-bind calls (mapped _ (load_config around.parse_json path)) _
        (record { holds = λ v. load_config-trace around.parse_json path v })
        (λ config.
          Quiet-bind calls
            (mapped _ (acquire_interface_lease config.runtime_directory config.interface)) _
            (record { holds = λ v. acquire-trace config.runtime_directory config.interface v })
            (λ lease.
              Quiet-bind calls
                (mapped (map_abort Validation.display) (validate_client_configuration config)) _
                (Quiet-mapped _ _ (validation-Quiet config))
                (λ u. record { holds = λ w. refl })))).holds
      w
