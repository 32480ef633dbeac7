-- ===== src/Client/Settings.antt =====
-- apps/linux-client/src/lib.rs: the settings of a connection that are made of a configuration.
pub mod Cidr
pub mod Key
pub mod Made
use cyberia_vpn.Prelude.{
  ℕ, ◌*◌, Bool, true, not, ◌&&◌, List, [], ◌∷◌, ltb, leb, ◌==◌, if◌then◌else◌, Result, ok, err,
  fail_if, ok_or, map_err, length, map_ok,
}
use cyberia_vpn.Result.{◌>>=◌, ◌>>◌, Abort, panicked, returned}
use cyberia_vpn.Text.{Text, lit}
use cyberia_vpn.Text.Reader.{from_str_radix, split_once}
use cyberia_vpn.Net.{IpAddr, is_ipv4}
use cyberia_vpn.Net.Show.{show_ip}
use cyberia_vpn.Net.Parse.{parse_ip}
use cyberia_vpn.WireGuard.Profile.{AllowedIp, TunnelAddress}
use cyberia_vpn.KillSwitch.Connection.Build.{LinuxConnectionSettings}
use cyberia_vpn.Client.Config.{ClientConfig, ConfigError, invalid_field}

-- `str::is_char_boundary` in front of a part of a text: no continuation byte of UTF-8 follows.
unfoldable pub at_boundary : Text → Bool
at_boundary [] = true
at_boundary (b ∷ bs) = not (leb 0x80 b && leb b 0xbf)

abbrev pub invalid_key : ConfigError
invalid_key = invalid_field (lit "peer_public_key_hex must contain 64 hexadecimal characters")

-- `&value[index * 2..index * 2 + 2]` panics if it cuts a character.
unfoldable pub decode_bytes : Text → Result (Abort ConfigError) (List ℕ)
decode_bytes [] = ok []
decode_bytes (a ∷ []) = err panicked
decode_bytes (a ∷ b ∷ rest) =
    let others = decode_bytes rest in
    if not (at_boundary rest)
    then err panicked
    else ok_or (from_str_radix 16 255 (a ∷ b ∷ [])) (returned invalid_key) >>= λ byte.
        map_ok (λ bytes. byte ∷ bytes) others

unfoldable pub decode_key : Text → Result (Abort ConfigError) (List ℕ)
unfolding decode_bytes
decode_key value =
    if not (length value == 64) then err (returned invalid_key) else decode_bytes value

unfoldable pub parse_cidr : Text → Result ConfigError (IpAddr × ℕ)
parse_cidr value = do
  parts ← ok_or (split_once b'/' value) (invalid_field (lit "invalid CIDR prefix"))
  address ← ok_or (parse_ip parts.0) (invalid_field (lit "invalid CIDR address"))
  prefix_length ←
      ok_or (from_str_radix 10 255 parts.1) (invalid_field (lit "invalid CIDR prefix length"))
  fail_if (ltb (if is_ipv4 address then 32 else 128) prefix_length)
      (invalid_field (lit "CIDR prefix length exceeds address family"))
  ok (address, prefix_length)

-- `.iter().map(…).collect::<Result<Vec<_>, _>>()`.
unfoldable pub collect {ℓ} :
    {A B : Type ℓ} {E : Type 0} → (A → Result E B) → List A → Result E (List B)
collect f [] = ok []
collect f (a ∷ rest) = f a >>= λ b. map_ok (λ bs. b ∷ bs) (collect f rest)

abbrev pub to_tunnel_address : Text → Result ConfigError TunnelAddress
to_tunnel_address value =
    map_ok (λ c. record { address = c.0; prefix_length = c.1 }) (parse_cidr value)

abbrev pub to_allowed_ip : Text → Result ConfigError AllowedIp
to_allowed_ip value = map_ok (λ c. record { network = c.0; prefix_length = c.1 }) (parse_cidr value)

-- `ClientConfig::into_connection_settings`. A `Duration` is its nanoseconds.
unfoldable pub into_connection_settings :
    ClientConfig → Result (Abort ConfigError) LinuxConnectionSettings
into_connection_settings config = do
  fail_if (config.endpoint_port == 0)
      (returned (invalid_field (lit "endpoint_port must be nonzero")))
  fail_if (config.routing_mark == 0) (returned (invalid_field (lit "routing_mark must be nonzero")))
  peer_public_key ← decode_key config.peer_public_key_hex
  tunnel_addresses ← map_err returned (collect to_tunnel_address config.tunnel_addresses)
  allowed_ips ← map_err returned (collect to_allowed_ip config.allowed_ips)
  ok (record {
    interface = config.interface;
    profile = record {
      peer_public_key = peer_public_key;
      endpoint = record { host = show_ip config.endpoint_address; port = config.endpoint_port };
      tunnel_addresses = tunnel_addresses;
      allowed_ips = allowed_ips;
      persistent_keepalive_seconds = config.persistent_keepalive_seconds;
      mtu = config.mtu;
    };
    dns = record { resolvers = config.dns_resolvers };
    tools = record {
      ip = config.tools.ip;
      wg = config.tools.wg;
      private_key = config.tools.private_key;
    };
    dns_tools = record { resolvectl = config.tools.resolvectl };
    routing_mark = config.routing_mark;
    connect_timeout = config.connect_timeout_seconds * 1000000000;
    always_on = config.always_on;
  })
