-- ===== src/Client/Validation/Builds.antt =====
-- What the validation of apps/linux-client/src/lib.rs is worth to the connection that is built after it.
use cyberia_vpn.Client.Validation.Validated.{IsValidated, validation-Ends}
use cyberia_vpn.Prelude.{
  suc, ◌≡◌, refl, sym, ap, subst, ◌∙◌, ◌↔◌, inl, inr, true, false, none, some, arith, Bool-cases,
  Result, ok, err, map_err,
}
use cyberia_vpn.Exec.{Ends-ok, continue}
use cyberia_vpn.Client.Settings.Made.{made_of}
use cyberia_vpn.Net.Parse.{parse_ip}
use cyberia_vpn.Net.Parse.RoundTrip.{parse_ip-show_ip}
use cyberia_vpn.Text.Parse.{is_utf8}
use cyberia_vpn.Net.{IsAddress}
use cyberia_vpn.KillSwitch.Controller
use cyberia_vpn.KillSwitch.Machine
use cyberia_vpn.KillSwitch.Nftables.{nftables_firewall}
use cyberia_vpn.KillSwitch.Connection.{linux_transport}
use cyberia_vpn.Text.{lit, Text}
use cyberia_vpn.Result.{ok_injective, err_injective}
use cyberia_vpn.Transport.Types.{TransportError, invalid_config}
use cyberia_vpn.Linux.Tools.{valid_interface, check_key_path, validate_dns_tools}
use cyberia_vpn.WireGuard.Adapter
use cyberia_vpn.Linux.Backend
use cyberia_vpn.Linux.Dns as LinuxDns
use cyberia_vpn.KillSwitch.Controller.{FirewallError}
use cyberia_vpn.KillSwitch.Connection.Build.{
  LinuxConnectionBuildError, firewall_failed, transport_failed, system, with_runners,
  LinuxConnectionSettings, transport_of,
}
use cyberia_vpn.KillSwitch.Connection.Trusted.{runner_passes, executable_passes, tools_pass, Stable}
use cyberia_vpn.Transport.Platform.{World, IoError, Metadata}
use cyberia_vpn.Client.Config.{ClientConfig}
use cyberia_vpn.Client.Settings.{into_connection_settings}
use cyberia_vpn.Client.Validation.{validate_client_configuration}

-- Whatever a build fails with comes from the firewall.
pub record FailsByFirewall {C : Type 0} (r : Result LinuxConnectionBuildError C) : Type 0 where
  pub by_firewall :
      (e : LinuxConnectionBuildError) → r ≡ err e → (x : FirewallError) × (e ≡ firewall_failed x)

module _ (files : Text → Result IoError Metadata) (config : ClientConfig)
    (h : IsValidated files config) (v : World) (s : Stable files v)
    (address : IsAddress config.endpoint_address) where
  host_is_read : parse_ip h.settings.profile.endpoint.host ≡ some config.endpoint_address
  host_is_read =
      ap parse_ip (made_of config h.settings h.made).host
      ∙ parse_ip-show_ip config.endpoint_address address

  from_controller :
      {A C : Type 0} (r : Result FirewallError A × World) (f : A → C)
      → FailsByFirewall (continue (map_err firewall_failed r.0) (λ a w. (ok (f a), w)) r.1).0
  from_controller (ok a, w) f = record { by_firewall = λ e q. absurd (ground arith) }
  from_controller (err x, w) f = record { by_firewall = λ e q. (x, sym (err_injective q)) }

  builds :
      valid_interface h.settings.interface ≡ true
      → is_utf8 h.settings.tools.private_key ≡ true
      → FailsByFirewall (system h.settings config.tools.nft v).0
  unfolding system with_runners Backend.new check_key_path Adapter.new LinuxDns.new
      validate_dns_tools
  builds named utf8 =
      let n = v.step in
      rw
        (
          runner_passes files config.tools.nft v s h.nft,
          host_is_read,
          h.transport,
          h.dns,
          tools_pass files h.settings.tools (record v { step = suc n }) s h.tools,
          utf8,
          named,
          h.profile,
          executable_passes files h.settings.dns_tools.resolvectl
              (record v { step = suc (suc (suc (suc n))) }) s h.resolvectl,
        )
        (from_controller
          (Controller.new linux_transport nftables_firewall
            (Machine.enable (Machine.new h.settings.always_on)) _ _ _)
          (λ controller. record {
            controller = controller;
            dns = record { tools = h.settings.dns_tools; active_interface = none };
            dns_config = h.settings.dns;
            interface = h.settings.interface;
            transport = transport_of h.settings;
          }))

  not_by_firewall :
      {C : Type 0} (r : Result LinuxConnectionBuildError C) (t : TransportError)
      → r ≡ err (transport_failed t)
      → ¬ (FailsByFirewall r)
  not_by_firewall r t e f =
      let (x, q) = f.by_firewall (transport_failed t) e in absurd (ground arith)

  unreadable_key :
      is_utf8 h.settings.tools.private_key ≡ false
      → ¬ (FailsByFirewall (system h.settings config.tools.nft v).0)
  unfolding system with_runners Backend.new check_key_path
  unreadable_key e =
      not_by_firewall (system h.settings config.tools.nft v).0
        (invalid_config (lit "WireGuard private key path is not UTF-8"))
        (rw
          (
            runner_passes files config.tools.nft v s h.nft,
            host_is_read,
            h.transport,
            h.dns,
            tools_pass files h.settings.tools (record v { step = suc v.step }) s h.tools,
            e,
          )
          refl)

  refused_name :
      is_utf8 h.settings.tools.private_key ≡ true
      → valid_interface h.settings.interface ≡ false
      → ¬ (FailsByFirewall (system h.settings config.tools.nft v).0)
  unfolding system with_runners Backend.new check_key_path Adapter.new
  refused_name e q =
      not_by_firewall (system h.settings config.tools.nft v).0
        (invalid_config (lit "invalid WireGuard interface name"))
        (rw
          (
            runner_passes files config.tools.nft v s h.nft,
            host_is_read,
            h.transport,
            h.dns,
            tools_pass files h.settings.tools (record v { step = suc v.step }) s h.tools,
            e,
            q,
          )
          refl)

  builds_iff :
      FailsByFirewall (system h.settings config.tools.nft v).0
      ↔ (valid_interface h.settings.interface ≡ true)
        × (is_utf8 h.settings.tools.private_key ≡ true)
  builds_iff = (
    λ f. elim (Bool-cases (is_utf8 h.settings.tools.private_key)) [
      | inr e ↦ absurd (unreadable_key e f)
      | inl e ↦ elim (Bool-cases (valid_interface h.settings.interface)) [
        | inl q ↦ (q, e)
        | inr q ↦ absurd (refused_name e q f)
      ]
    ],
    λ k. builds k.0 k.1,
  )

-- Of a configuration that was validated, and while the metadata of its files stays as it was, a connection is built up to its
-- first ruleset, so that only the firewall can still refuse it, exactly if the adapter accepts the interface's name and
-- the path of the key is UTF-8: the validation covers everything else that the build tests.
pub validated-builds :
    (files : Text → Result IoError Metadata) (config : ClientConfig) (w v : World)
    (settings : LinuxConnectionSettings)
    → Stable files w
    → Stable files v
    → IsAddress config.endpoint_address
    → (validate_client_configuration config w).0 ≡ ok tt
    → into_connection_settings config ≡ ok settings
    → FailsByFirewall (system settings config.tools.nft v).0
      ↔ (valid_interface config.interface ≡ true) × (is_utf8 config.tools.private_key ≡ true)
validated-builds files config w v settings sw sv address valid made =
    let h =
      Ends-ok (validate_client_configuration config w) tt (validation-Ends files config w sw)
        valid in
    let same : h.settings ≡ settings = ok_injective (sym h.made ∙ made) in
    let m = made_of config settings made in
    subst
      (λ i.
        FailsByFirewall (system settings config.tools.nft v).0
        ↔ (valid_interface i ≡ true) × (is_utf8 config.tools.private_key ≡ true))
      m.interface
      (subst
        (λ k.
          FailsByFirewall (system settings config.tools.nft v).0
          ↔ (valid_interface settings.interface ≡ true) × (is_utf8 k ≡ true))
        m.private_key
        (subst
          (λ (t : LinuxConnectionSettings).
            FailsByFirewall (system t config.tools.nft v).0
            ↔ (valid_interface t.interface ≡ true) × (is_utf8 t.tools.private_key ≡ true))
          same (builds_iff files config h v sv address)))
