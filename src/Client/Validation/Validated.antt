-- ===== src/Client/Validation/Validated.antt =====
-- What a configuration has that passed the validation of apps/linux-client/src/lib.rs.
use cyberia_vpn.Prelude.{◌≡◌, refl, inl, inr, not, ◌||◌, Bool-cases, Result-cases, Result, ok, err}
use cyberia_vpn.Exec.{Exec, Ends, Ends-bind, Ends-mapped, lift, mapped, ◌>>=◌}
use cyberia_vpn.Transport.Types.{TransportError, invalid_config}
use cyberia_vpn.Text.{Text}
use cyberia_vpn.Transport.Types
use cyberia_vpn.Transport.Platform.{World, IoError, Metadata, symlink_metadata}
use cyberia_vpn.Transport.Dns
use cyberia_vpn.WireGuard.Validate.{validate_config}
use cyberia_vpn.Linux.Tools.{is_absolute, validate_tools, validate_dns_tools}
use cyberia_vpn.KillSwitch.Nftables.{new_runner}
use cyberia_vpn.KillSwitch.Connection.Trusted.{
  Stable, IsTrusted, HasTools, executable, tools-Ends, executable-Ends, runner-Ends,
}
use cyberia_vpn.KillSwitch.Connection.Build.{LinuxConnectionSettings, transport_of}
use cyberia_vpn.Client.Config.{ClientConfig, is_private, validate_private_directory}
use cyberia_vpn.Client.Settings.{into_connection_settings}
use cyberia_vpn.Result.{returned}
use cyberia_vpn.Client.Validation
use cyberia_vpn.Client.Validation.{validate_client_configuration}

-- What a configuration has that was validated.
pub record IsValidated (files : Text → Result IoError Metadata) (config : ClientConfig)
    : Type 0 where
  pub settings : LinuxConnectionSettings
  pub made : into_connection_settings config ≡ ok settings
  pub profile : validate_config settings.profile ≡ ok tt
  pub dns : Dns.validate settings.dns ≡ ok tt
  pub transport : Types.validate (transport_of settings) ≡ ok tt
  pub tools : HasTools files settings.tools
  pub resolvectl : IsTrusted files executable settings.dns_tools.resolvectl
  pub nft : IsTrusted files executable config.tools.nft

module _ (files : Text → Result IoError Metadata) where
  -- A test that does not look at the world, in front of the rest.
  lifted :
      {E F A B : Type 0} {P : B → World → Type 0} (g : E → F) (r : Result E A)
      (f : A → Exec F World B) (w : World)
      → ((a : A) → r ≡ ok a → Ends P (λ _ _. Unit {0}) (f a w))
      → Ends P (λ _ _. Unit {0}) ((mapped g (lift r) >>= f) w)
  lifted g (ok a) f w k = k a refl
  lifted g (err e) f w k = record { holds = tt }

  directory-Ends :
      (path : Text) (w : World)
      → Stable files w
      → Ends (λ _ v. Stable files v) (λ _ _. Unit {0}) (validate_private_directory path w)
  unfolding validate_private_directory symlink_metadata
  directory-Ends path w s = elim (Bool-cases (is_absolute path)) [
    | inr e ↦ rw e (record { holds = tt })
    | inl e ↦ elim (Result-cases (w.files w.step path)) [
      | inr (error, q) ↦ rw (e, q) (record { holds = tt })
      | inl (m, q) ↦ elim (Bool-cases (not m.is_dir || m.is_symlink || not (is_private m))) [
        | inl r ↦ rw (e, q, r) (record { holds = tt })
        | inr r ↦ rw (e, q, r) (record { holds = s })
      ]
    ]
  ]

  pub validation-Ends :
      (config : ClientConfig) (w : World)
      → Stable files w
      → Ends
          (λ _ v. IsValidated files config)
          (λ _ _. Unit {0})
          (validate_client_configuration config w)
  unfolding validate_client_configuration validate_dns_tools
  validation-Ends config w s =
      Ends-bind
        (mapped (λ e. returned (Validation.config_failed e))
          (validate_private_directory config.runtime_directory))
        _ w (Ends-mapped _ _ (directory-Ends config.runtime_directory w s))
        (λ u w1 s1. lifted _ (into_connection_settings config) _ w1 (λ settings made.
          lifted _ (validate_config settings.profile) _ w1 (λ u profile.
            lifted _ (Dns.validate settings.dns) _ w1 (λ v dns.
              lifted _ (Types.validate (transport_of settings)) _ w1 (λ x transport.
                Ends-bind (mapped Validation.refused (validate_tools settings.tools)) _ w1
                  (Ends-mapped _ _ (tools-Ends files settings.tools w1 s1))
                  (λ y w2 tools.
                    Ends-bind (mapped Validation.refused (validate_dns_tools settings.dns_tools)) _
                      w2
                      (Ends-mapped _ _
                        (executable-Ends files settings.dns_tools.resolvectl w2 tools.1))
                      (λ z w3 resolvectl.
                        Ends-bind
                          (mapped (λ e. returned (Validation.nftables_failed e))
                            (new_runner config.tools.nft))
                          _ w3
                          (Ends-mapped _ _ (runner-Ends files config.tools.nft w3 resolvectl.1))
                          (λ n w4 nft. record {
                            holds = record {
                              settings = settings;
                              made = made;
                              profile = profile;
                              dns = dns;
                              transport = transport;
                              tools = tools.0;
                              resolvectl = resolvectl.0;
                              nft = nft.0;
                            };
                          }))))))))
