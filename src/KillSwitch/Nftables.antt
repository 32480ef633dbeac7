-- ===== src/KillSwitch/Nftables.antt =====
-- core/killswitch/src/linux.rs: the nftables ruleset of a policy, and the firewall that applies it.
pub mod Ruleset
pub mod Effect
pub mod Quiet
use Prim.Native.Nat.{bit_and}
use cyberia_vpn.Prelude.{
  map_ok, ◌==◌, ℕ, not, [], ◌∷◌, ◌++◌, if◌then◌else◌, Result, ok, err, map_err,
}
use cyberia_vpn.Exec.{Exec, mapped, ◌>>=◌, ◌>>◌, pure, raise}
use cyberia_vpn.Text.{Text, lit, decimal}
use cyberia_vpn.Net.{IpAddr, is_ipv4}
use cyberia_vpn.Net.Show.{show_ip}
use cyberia_vpn.Transport.Types
use cyberia_vpn.Transport.Types.{TransportError}
use cyberia_vpn.Transport.Platform.{World, call, nft, symlink_metadata}
use cyberia_vpn.KillSwitch.Machine.{
  TrafficPolicy, disabled, block_non_tunnel, tunnel_only, valid_interface,
}
use cyberia_vpn.KillSwitch.Controller.{Firewall, firewall_error}
use cyberia_vpn.Linux.Tools.{is_trusted}

pub record NftablesConfig : Type 0 where
  pub endpoint_address : IpAddr
  pub endpoint_port : ℕ  -- NonZeroU16

pub data NftablesError : Type 0 where
  invalid_interface invalid_executable : NftablesError
  command_failed : Text → NftablesError

pub display : NftablesError → Text
display invalid_interface = lit "invalid nftables tunnel interface"
display invalid_executable = lit "invalid nftables executable"
display (command_failed reason) = lit "nftables command failed: " ++ reason

-- A text with a line feed at its end.
abbrev line : Text → Text
line t = t ++ (10 ∷ [])

unfoldable pub reset_rules : Text
reset_rules = line (lit "add table inet cyberia_vpn") ++ line (lit "flush table inet cyberia_vpn")

-- What is let through although everything else is dropped: the loopback and the endpoint.
unfoldable pub blocking_rules : NftablesConfig → Text
blocking_rules config =
    line (
      lit
        "add chain inet cyberia_vpn output { type filter hook output priority -100; policy drop; }")
    ++ line (lit "add rule inet cyberia_vpn output oifname \"lo\" accept")
    ++ line (
        lit "add rule inet cyberia_vpn output "
        ++ (if is_ipv4 config.endpoint_address then lit "ip" else lit "ip6")
        ++ lit " daddr "
        ++ show_ip config.endpoint_address
        ++ lit " udp dport "
        ++ decimal config.endpoint_port
        ++ lit " accept")

unfoldable pub tunnel_rule : Text → Text
tunnel_rule interface =
    line (lit "add rule inet cyberia_vpn output oifname \"" ++ interface ++ lit "\" accept")

unfoldable pub render : NftablesConfig → TrafficPolicy → Result NftablesError Text
render config disabled = ok (reset_rules ++ line (lit "delete table inet cyberia_vpn"))
render config block_non_tunnel = ok (reset_rules ++ blocking_rules config)
render config (tunnel_only interface) =
    if not (valid_interface interface)
    then err invalid_interface
    else ok (reset_rules ++ blocking_rules config ++ tunnel_rule interface)

-- The path of `nft` is tested before a runner for it exists.
unfoldable pub validate_executable : Text → Exec NftablesError World (Unit {0})
validate_executable path = do
  metadata ← mapped (λ _. invalid_executable) (symlink_metadata path)
  if is_trusted (λ mode. not (bit_and mode 0o111 == 0)) path metadata
      then pure tt
      else raise invalid_executable

pub record SystemNftablesRunner : Type 0 where
  pub executable : Text

-- `SystemNftablesRunner::new`.
unfoldable pub new_runner : Text → Exec NftablesError World SystemNftablesRunner
new_runner executable = do validate_executable executable; pure (record { executable = executable })

-- The runner is stateless; whatever it reports is an operational error.
pub record NftablesBackend : Type 0 where
  pub config : NftablesConfig

unfoldable pub run_nft : Text → Exec NftablesError (NftablesBackend × World) (Unit {0})
run_nft rules (b, w) =
    let r = call (nft rules) w in
    (map_err (λ e. command_failed (Types.display e)) (map_ok (λ _. tt) r.0), (b, r.1))

abbrev pub rules_for : TrafficPolicy → Exec NftablesError (NftablesBackend × World) Text
rules_for policy (b, w) = (render b.config policy, (b, w))

-- `NftablesBackend::apply`.
unfoldable pub apply : TrafficPolicy → Exec NftablesError (NftablesBackend × World) (Unit {0})
apply policy = do rules ← rules_for policy; run_nft rules

-- `impl Firewall for NftablesBackend`.
unfoldable pub nftables_firewall : Firewall NftablesBackend
nftables_firewall = record {
  apply = λ policy. mapped (λ e. firewall_error (display e)) (apply policy);
}
