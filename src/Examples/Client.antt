-- ===== src/Examples/Client.antt =====
-- The client of apps/linux-client at concrete inputs.
use cyberia_vpn.KillSwitch.Connection
use cyberia_vpn.KillSwitch.Connection.{LinuxWireGuardConnection}
use cyberia_vpn.Transport.Platform.{now}
use cyberia_vpn.Routing.Selector.{checked_add, instant_max}
use cyberia_vpn.Prelude.{
  ◌≡◌, refl, ◌↔◌, Bool, true, false, not, some, [], ◌∷◌, ◌++◌, arith, if◌then◌else◌, Result, ok,
  err, length, suc,
}
use cyberia_vpn.Examples.Connection.{built_world, settings, equipped_world, tool_metadata, first}
use cyberia_vpn.Text.{Text, lit, text_eq, decimal, is_ascii_alphanumeric}
use cyberia_vpn.Text.Parse.{is_utf8}
use cyberia_vpn.Net.{v4, v6, is_ipv4}
use cyberia_vpn.Net.Show.{show_ip}
use cyberia_vpn.Transport.Platform.{World, Metadata, OpenFile}
use cyberia_vpn.Linux.Tools.{valid_interface}
use cyberia_vpn.KillSwitch.Connection.Build.{system}
use cyberia_vpn.Client.Config.{ClientConfig, ConfigError, invalid_field, load_config}
use cyberia_vpn.Client.Config.Loaded.{IsLoaded, load_config_iff}
use cyberia_vpn.Client.Lease.{valid_interface_name, acquire_interface_lease}
use cyberia_vpn.Client.Lease.Held.{IsAvailable, acquire_interface_lease_iff}
use cyberia_vpn.Client.Settings.{decode_key, parse_cidr, into_connection_settings}
use cyberia_vpn.Result.{panicked}
use cyberia_vpn.Client.Settings.Key.{Spells, Cuts, decode_key_iff}
use cyberia_vpn.Client.Settings.Cidr.{parse_cidr-show_ip}
use cyberia_vpn.Client.Settings.Made.{IsMadeOf, into_connection_settings_iff}
use cyberia_vpn.Client.Validation.{validate_client_configuration}
use cyberia_vpn.Client.Validation.Builds.{FailsByFirewall, validated-builds}
use cyberia_vpn.Client.Main.{Surroundings, run}
use cyberia_vpn.Client.Main.Check.{run_check-trace}
use cyberia_vpn.Examples.WireGuard.{some_key, resolvers}

abbrev key_text : Text
key_text = lit "0102030405060708090a0b0c0d0e0f101112131415161718191a1b1c1d1e1f20"

decode_key_iff_example :
    (decode_key key_text ≡ ok some_key ↔ (length key_text ≡ 64) × Spells key_text some_key)
    × (decode_key key_text ≡ err panicked ↔ (length key_text ≡ 64) × Cuts key_text)
decode_key_iff_example = decode_key_iff key_text some_key

parse_cidr-show_ip_example :
    parse_cidr (show_ip (v6 1) ++ (b'/' ∷ decimal 129))
    ≡ err (invalid_field (lit "CIDR prefix length exceeds address family"))
parse_cidr-show_ip_example = parse_cidr-show_ip (v6 1) 129 (omega arith) (omega arith)

abbrev client : ClientConfig
client = record {
  interface = lit "cyb0";
  runtime_directory = lit "/run/cyberia";
  endpoint_address = v4 3405803786;
  endpoint_port = 51820;
  peer_public_key_hex = key_text;
  tunnel_addresses = lit "10.8.0.2/32" ∷ [];
  allowed_ips = lit "0.0.0.0/0" ∷ [];
  dns_resolvers = resolvers.resolvers;
  mtu = 1420;
  persistent_keepalive_seconds = some 25;
  routing_mark = 51820;
  connect_timeout_seconds = 30;
  always_on = true;
  tools = record {
    ip = settings.tools.ip;
    wg = settings.tools.wg;
    nft = lit "/usr/sbin/nft";
    resolvectl = settings.dns_tools.resolvectl;
    private_key = settings.tools.private_key;
  };
}

into_connection_settings_iff_example :
    into_connection_settings client ≡ ok settings ↔ IsMadeOf client settings
into_connection_settings_iff_example = into_connection_settings_iff client settings

-- A private file, and a private directory for it.
abbrev private_metadata : Bool → Metadata
private_metadata is_dir = record {
  is_file = not is_dir;
  is_dir = is_dir;
  is_symlink = false;
  mode = 0o600;
  len = 2;
}

abbrev private_file : OpenFile
private_file = record {
  metadata = ok (private_metadata false);
  content = ok (lit "{}");
  lock = ok tt;
}

abbrev runtime_files : Text → Metadata
runtime_files path =
    if text_eq path client.runtime_directory then private_metadata true else tool_metadata path

abbrev client_world : World
client_world = record equipped_world {
  files = λ n path. ok (runtime_files path);
  opens = λ n mode path. ok private_file;
}

abbrev parse : Text → Result Text ClientConfig
parse bytes = if text_eq bytes (lit "{}") then ok client else err []

load_config_iff_example :
    ((load_config parse (lit "/etc/cyberia/client.json") client_world).0 ≡ ok client
      ↔ IsLoaded parse client_world (lit "/etc/cyberia/client.json") client)
    × ((load_config parse (lit "/etc/cyberia/client.json") client_world).1.trace ≡ [])
load_config_iff_example = load_config_iff parse (lit "/etc/cyberia/client.json") client_world client

acquire_interface_lease_iff_example :
    ((acquire_interface_lease client.runtime_directory client.interface client_world).0
        ≡ ok (record { file = private_file })
      ↔ IsAvailable client_world client.runtime_directory client.interface private_file)
    × ((acquire_interface_lease client.runtime_directory client.interface client_world).1.trace
        ≡ [])
acquire_interface_lease_iff_example =
    acquire_interface_lease_iff client.runtime_directory client.interface client_world
      (record { file = private_file })

abbrev around : Surroundings
around = record {
  parse_json = parse;
  set_handler = λ w. (ok tt, w);
  wait_for_shutdown = λ w. w;
  cancellation = 0;
}

run_check-trace_example :
    (run around (lit "--check" ∷ lit "/etc/cyberia/client.json" ∷ []) client_world).1.trace ≡ []
run_check-trace_example = run_check-trace around (lit "/etc/cyberia/client.json") client_world

is_made : into_connection_settings client ≡ ok settings
unfolding into_connection_settings decode_key lit cyberia_vpn.Client.Settings.at_boundary
    cyberia_vpn.Text.Reader.from_str_radix cyberia_vpn.Text.Reader.to_digit
    cyberia_vpn.Client.Settings.collect parse_cidr cyberia_vpn.Text.Reader.split_once
    cyberia_vpn.Net.Parse.parse_ip cyberia_vpn.Net.Parse.read_ipv4 cyberia_vpn.Net.Parse.read_octet
    cyberia_vpn.Text.Reader.given show_ip cyberia_vpn.Net.Show.dotted decimal
is_made = refl

is_valid : (validate_client_configuration client client_world).0 ≡ ok tt
unfolding validate_client_configuration cyberia_vpn.Client.Config.validate_private_directory
    cyberia_vpn.Linux.Tools.is_absolute lit cyberia_vpn.Transport.Platform.symlink_metadata text_eq
    cyberia_vpn.Client.Config.is_private into_connection_settings decode_key
    cyberia_vpn.Client.Settings.at_boundary cyberia_vpn.Text.Reader.from_str_radix
    cyberia_vpn.Text.Reader.to_digit cyberia_vpn.Client.Settings.collect parse_cidr
    cyberia_vpn.Text.Reader.split_once cyberia_vpn.Net.Parse.parse_ip
    cyberia_vpn.Net.Parse.read_ipv4 cyberia_vpn.Net.Parse.read_octet cyberia_vpn.Text.Reader.given
    show_ip cyberia_vpn.Net.Show.dotted decimal cyberia_vpn.Apart.each_apart
    cyberia_vpn.KillSwitch.Nftables.new_runner cyberia_vpn.KillSwitch.Nftables.validate_executable
    cyberia_vpn.Linux.Tools.is_trusted cyberia_vpn.Linux.Tools.validate_dns_tools
    cyberia_vpn.Linux.Tools.validate_executable cyberia_vpn.Linux.Tools.validate_private_key
    cyberia_vpn.Linux.Tools.validate_tools cyberia_vpn.Net.Prefix.prefix_mask
    cyberia_vpn.Net.canonical_address cyberia_vpn.Net.ip_eq cyberia_vpn.Net.is_multicast
    cyberia_vpn.Net.is_unspecified cyberia_vpn.Text.is_blank
    cyberia_vpn.Transport.Dns.check_resolver cyberia_vpn.Transport.Dns.same_resolver
    cyberia_vpn.Transport.Dns.unusable_resolver cyberia_vpn.Transport.Dns.validate
    cyberia_vpn.Transport.Types.validate cyberia_vpn.WireGuard.Profile.allowed_ip_eq
    cyberia_vpn.WireGuard.Profile.check_tunnel_address cyberia_vpn.WireGuard.Profile.same_address
    cyberia_vpn.WireGuard.Profile.valid_network
    cyberia_vpn.WireGuard.Profile.validate_interface_addresses
    cyberia_vpn.WireGuard.Profile.validate_keepalive cyberia_vpn.WireGuard.Profile.validate_mtu
    cyberia_vpn.WireGuard.Validate.check_allowed_ip cyberia_vpn.WireGuard.Validate.validate_config
is_valid = refl

validated-builds_example :
    FailsByFirewall (system settings client.tools.nft client_world).0
    ↔ (valid_interface client.interface ≡ true) × (is_utf8 client.tools.private_key ≡ true)
validated-builds_example =
    validated-builds (λ path. ok (runtime_files path)) client client_world client_world settings
      (λ i path. refl) (λ i path. refl) (omega arith) is_valid is_made

-- A time limit that does not end within the range of the clock makes the attempt panic.
abbrev patient : LinuxWireGuardConnection
patient = record first {
  transport = record (first.transport) { connect_timeout = suc instant_max };
}

patient_test : (Connection.connect 0 (patient, built_world)).0 ≡ err panicked
unfolding Connection.connect checked_add now
patient_test = refl

-- A plus sign stands for the first digit of a pair.
abbrev signed_text : Text
signed_text = lit "+f+f+f+f+f+f+f+f+f+f+f+f+f+f+f+f+f+f+f+f+f+f+f+f+f+f+f+f+f+f+f+f"

signed_key_test :
    decode_key signed_text
    ≡ ok (
        15 ∷ 15 ∷ 15 ∷ 15 ∷ 15 ∷ 15 ∷ 15 ∷ 15 ∷ 15 ∷ 15 ∷ 15 ∷ 15 ∷ 15 ∷ 15 ∷ 15 ∷ 15 ∷ 15 ∷ 15 ∷ 15
        ∷ 15 ∷ 15 ∷ 15 ∷ 15 ∷ 15 ∷ 15 ∷ 15 ∷ 15 ∷ 15 ∷ 15 ∷ 15 ∷ 15 ∷ 15 ∷ [])
unfolding decode_key lit cyberia_vpn.Client.Settings.at_boundary
    cyberia_vpn.Text.Reader.from_str_radix cyberia_vpn.Text.Reader.to_digit
signed_key_test = refl

-- A character of two bytes stands across the end of the first pair.
abbrev cut_text : Text
cut_text = b'a' ∷ 195 ∷ 169 ∷ lit "aaaaaaaaaaaaaaaaaaaaaaaaaaaaaaaaaaaaaaaaaaaaaaaaaaaaaaaaaaaaa"

cut_key_test : decode_key cut_text ≡ err panicked
unfolding decode_key lit cyberia_vpn.Client.Settings.at_boundary
cut_key_test = refl

-- The lease takes a name with a dot, and the adapter does not.
name_test : (valid_interface_name (lit "cyb.0") ≡ true) × (valid_interface (lit "cyb.0") ≡ false)
unfolding valid_interface_name valid_interface lit is_ascii_alphanumeric
name_test = (refl, refl)
