-- ===== src/Examples/Connection.antt =====
-- The connection of core/killswitch/src/linux_connection.rs and the rulesets of
-- core/killswitch/src/linux.rs at concrete inputs.
use cyberia_vpn.Prelude.{◌≡◌, refl, ap, true, false, some, [], ◌∷◌, ◌++◌, if◌then◌else◌, Result, ok}
use cyberia_vpn.Text.{lit, is_ascii_alphanumeric, Text, text_eq}
use cyberia_vpn.Net.{v4}
use cyberia_vpn.WireGuard.Adapter.{WireGuardAdapter}
use cyberia_vpn.Linux.Backend.{LinuxWireGuardBackend}
use cyberia_vpn.KillSwitch.Connection.Build.{LinuxConnectionBuildError, LinuxConnectionSettings}
use cyberia_vpn.Transport.Platform.{nft, call, World, Metadata}
use cyberia_vpn.KillSwitch.Machine
use cyberia_vpn.KillSwitch.Machine.{tunnel_only}
use cyberia_vpn.KillSwitch.Controller
use cyberia_vpn.KillSwitch.Nftables.{
  NftablesConfig, nftables_firewall, apply, run_nft, render, reset_rules, blocking_rules,
  tunnel_rule,
}
use cyberia_vpn.KillSwitch.Nftables.Ruleset.{policy_of, policy_of-render}
use cyberia_vpn.KillSwitch.Connection.{LinuxWireGuardConnection}
use cyberia_vpn.KillSwitch.Connection.Build
use cyberia_vpn.KillSwitch.Connection.Safety.{IsSecured}
use cyberia_vpn.KillSwitch.Connection.Histories.{
  connects, disconnects, disables, all_called, connection_history_safe,
}
use cyberia_vpn.Examples.KillSwitch.{idle_world}
use cyberia_vpn.Examples.WireGuard.{profile, resolvers}
use cyberia_vpn.Examples.Linux.{tools, backend, dns}

abbrev config : NftablesConfig
config = record { endpoint_address = v4 3405803786; endpoint_port = 51820 }

policy_of-render_example :
    policy_of config (reset_rules ++ blocking_rules config ++ tunnel_rule (lit "cyb0"))
    ≡ some (tunnel_only (lit "cyb0"))
unfolding render Machine.valid_interface Machine.is_interface_byte is_ascii_alphanumeric lit
policy_of-render_example =
    policy_of-render config (tunnel_only (lit "cyb0"))
      (reset_rules ++ blocking_rules config ++ tunnel_rule (lit "cyb0")) refl

abbrev pub settings : LinuxConnectionSettings
settings = record {
  interface = lit "cyb0";
  profile = profile;
  dns = resolvers;
  tools = tools;
  dns_tools = dns.tools;
  routing_mark = 51820;
  connect_timeout = 30000000000;
  always_on = true;
}

abbrev pub tool_metadata : Text → Metadata
tool_metadata path = record {
  is_file = true;
  is_dir = false;
  is_symlink = false;
  mode = if text_eq path tools.private_key then 0o600 else 0o755;
  len = 0;
}

-- A platform where the tools are there, and where time passes slowly.
abbrev pub equipped_world : World
equipped_world = record idle_world { instants = λ n. 7; files = λ n path. ok (tool_metadata path) }

abbrev pub first : LinuxWireGuardConnection
first = record {
  controller = record {
    kill_switch = Machine.enable (Machine.new true);
    transport = record {
      interface = lit "cyb0";
      profile = profile;
      backend = backend;
      connected = false;
    };
    firewall = record {
      config = record { endpoint_address = v4 3405803786; endpoint_port = 51820 };
    };
    transport_may_be_active = false;
  };
  dns = dns;
  dns_config = resolvers;
  interface = lit "cyb0";
  transport = Build.transport_of settings;
}

-- The platform once the connection is built: six observations, of which the last is the first ruleset.
abbrev pub built_world : World
built_world = record equipped_world {
  step = 6;
  trace = record { call = nft (reset_rules ++ blocking_rules config); success = true } ∷ [];
}

pub is_built : Build.system settings (lit "/usr/sbin/nft") equipped_world ≡ (ok first, built_world)
unfolding Build.system Build.with_runners cyberia_vpn.KillSwitch.Nftables.new_runner
    cyberia_vpn.KillSwitch.Nftables.validate_executable
    cyberia_vpn.Transport.Platform.symlink_metadata cyberia_vpn.Linux.Tools.is_trusted
    cyberia_vpn.Linux.Tools.is_absolute lit text_eq cyberia_vpn.Linux.Tools.validate_executable
    cyberia_vpn.Linux.Tools.validate_private_key cyberia_vpn.Linux.Tools.validate_tools
    cyberia_vpn.Linux.Tools.validate_dns_tools cyberia_vpn.Linux.Tools.check_key_path
    cyberia_vpn.Text.Parse.is_utf8 cyberia_vpn.Linux.Backend.new cyberia_vpn.Linux.Dns.new
    cyberia_vpn.WireGuard.Adapter.new cyberia_vpn.Linux.Tools.valid_interface is_ascii_alphanumeric
    cyberia_vpn.Transport.Types.validate cyberia_vpn.Transport.Dns.validate
    cyberia_vpn.Transport.Dns.check_resolver cyberia_vpn.Transport.Dns.unusable_resolver
    cyberia_vpn.Transport.Dns.same_resolver cyberia_vpn.Apart.each_apart cyberia_vpn.Net.ip_eq
    cyberia_vpn.Net.canonical_address cyberia_vpn.Net.is_unspecified cyberia_vpn.Net.is_multicast
    cyberia_vpn.WireGuard.Validate.validate_config cyberia_vpn.WireGuard.Validate.check_allowed_ip
    cyberia_vpn.WireGuard.Profile.valid_network cyberia_vpn.Net.Prefix.prefix_mask
    cyberia_vpn.WireGuard.Profile.validate_interface_addresses
    cyberia_vpn.WireGuard.Profile.check_tunnel_address cyberia_vpn.WireGuard.Profile.same_address
    cyberia_vpn.WireGuard.Profile.allowed_ip_eq cyberia_vpn.WireGuard.Profile.validate_keepalive
    cyberia_vpn.WireGuard.Profile.validate_mtu cyberia_vpn.Text.is_blank Controller.new
    nftables_firewall apply run_nft call render Machine.enable Machine.new
    cyberia_vpn.Net.Parse.parse_ip cyberia_vpn.Net.Parse.read_ip cyberia_vpn.Net.Parse.read_ipv4
    cyberia_vpn.Net.Parse.read_octet cyberia_vpn.Text.Reader.read_number
    cyberia_vpn.Text.Reader.read_digits cyberia_vpn.Text.Reader.to_digit
    cyberia_vpn.Text.Reader.given
is_built = refl

connection_history_safe_example :
    let s =
      all_called
        (connects 0 ∷ disconnects ∷ disables ∷ [])
        (first, (Build.system settings (lit "/usr/sbin/nft") equipped_world).1) in
    IsSecured true s.0.controller s.1
connection_history_safe_example =
    connection_history_safe settings (lit "/usr/sbin/nft") equipped_world first
      (connects 0 ∷ disconnects ∷ disables ∷ [])
      (ap (λ (r : Result LinuxConnectionBuildError LinuxWireGuardConnection × World). r.0) is_built)
