-- ===== src/KillSwitch/Connection/Checks.antt =====
-- The tests of the files that a connection uses, of core/transport/src/linux.rs and core/killswitch/src/linux.rs:
-- they look at the files and change nothing.
use cyberia_vpn.Prelude.{ℕ, suc, ◌≡◌, refl, Bool, if◌then◌else◌}
use cyberia_vpn.Exec.{lift, mapped, pure, raise, ◌>>=◌}
use cyberia_vpn.Text.{Text}
use cyberia_vpn.Transport.Platform.{World, symlink_metadata}
use cyberia_vpn.Linux.Tools.{
  LinuxTools, LinuxDnsTools, validate_executable, validate_private_key, validate_tools,
  validate_dns_tools, check_key_path, is_trusted,
}
use cyberia_vpn.Linux.Backend
use cyberia_vpn.Linux.Dns as LinuxDns
use cyberia_vpn.KillSwitch.Nftables
use cyberia_vpn.KillSwitch.Nftables.{new_runner}
use cyberia_vpn.KillSwitch.Nftables.Quiet.{Quiet, Quiet-bind, Quiet-if}

-- `rules` reads something that an observation does not change.
module _ {V : Type 0} (rules : World → V)
    (observes : (w : World) → rules (record w { step = suc w.step }) ≡ rules w) where
  -- Reading metadata and testing it, whatever the error is.
  pub trusted-Quiet :
      {E : Type 0} (path : Text) (right : ℕ → Bool) (missing wrong : E)
      → Quiet rules (
          mapped (λ _. missing) (symlink_metadata path) >>= λ metadata.
          if is_trusted right path metadata then pure tt else raise wrong)
  unfolding symlink_metadata
  trusted-Quiet path right missing wrong =
      Quiet-bind rules (mapped (λ _. missing) (symlink_metadata path)) _
        (record { holds = observes })
        λ metadata.
          Quiet-if rules (is_trusted right path metadata) (pure tt) (raise wrong)
            (record { holds = λ w. refl }) (record { holds = λ w. refl })

  pub executable-Quiet : (path : Text) → Quiet rules (validate_executable path)
  unfolding validate_executable
  executable-Quiet path = trusted-Quiet path _ _ _

  pub tools-Quiet : (tools : LinuxTools) → Quiet rules (validate_tools tools)
  unfolding validate_tools validate_private_key
  tools-Quiet tools =
      Quiet-bind rules (validate_executable tools.ip) _ (executable-Quiet tools.ip) λ u.
        Quiet-bind rules (validate_executable tools.wg) _ (executable-Quiet tools.wg)
          λ v. trusted-Quiet tools.private_key _ _ _

  pub backend-Quiet : (tools : LinuxTools) (mark : ℕ) → Quiet rules (Backend.new tools mark)
  unfolding Backend.new
  backend-Quiet tools mark = Quiet-bind rules (validate_tools tools) _ (tools-Quiet tools) λ u.
      Quiet-bind rules (lift (check_key_path tools)) _ (record { holds = λ w. refl })
        λ v. record { holds = λ w. refl }

  pub dns_tools-Quiet : (tools : LinuxDnsTools) → Quiet rules (validate_dns_tools tools)
  unfolding validate_dns_tools
  dns_tools-Quiet tools = executable-Quiet tools.resolvectl

  pub dns-Quiet : (tools : LinuxDnsTools) → Quiet rules (LinuxDns.new tools)
  unfolding LinuxDns.new validate_dns_tools
  dns-Quiet tools =
      Quiet-bind rules (validate_executable tools.resolvectl) _ (executable-Quiet tools.resolvectl)
        λ u. record { holds = λ w. refl }

  pub runner-Quiet : (path : Text) → Quiet rules (new_runner path)
  unfolding new_runner Nftables.validate_executable
  runner-Quiet path =
      Quiet-bind rules (Nftables.validate_executable path) _ (trusted-Quiet path _ _ _)
        λ u. record { holds = λ w. refl }
