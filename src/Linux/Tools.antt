-- ===== src/Linux/Tools.antt =====
-- core/transport/src/linux.rs: the tools of the platform, the validation of their paths, and what is
-- passed to them as text.
use Prim.Native.Nat.{bit_and, bit_or}
use cyberia_vpn.Prelude.{
  ℕ, ◌+◌, ◌-◌, ◌*◌, ◌/◌, ◌≡◌, refl, Bool, true, false, not, ◌&&◌, ◌||◌, List, [], ◌∷◌, ◌++◌, ltb,
  leb, ◌==◌, if◌then◌else◌, Result, fail_if, length, any, all,
}
use cyberia_vpn.Exec.{Exec, raise, pure, mapped, ◌>>=◌, ◌>>◌}
use cyberia_vpn.Text.{Text, lit, decimal, is_ascii_alphanumeric}
use cyberia_vpn.Text.Parse.{is_utf8}
use cyberia_vpn.Net.Show.{show_ip}
use cyberia_vpn.Transport.Types.{TransportError, invalid_config, Endpoint}
use cyberia_vpn.Transport.Platform.{World, Metadata, symlink_metadata}
use cyberia_vpn.WireGuard.Profile.{AllowedIp, TunnelAddress}

-- A `PathBuf` is its bytes.
pub record LinuxTools : Type 0 where
  pub ip : Text
  pub wg : Text
  pub private_key : Text

pub record LinuxDnsTools : Type 0 where
  pub resolvectl : Text

pub record LinuxNodeGatewayTools : Type 0 where
  pub nft : Text
  pub sysctl : Text

-- `Path::is_absolute` on Unix.
unfoldable pub is_absolute : Text → Bool
is_absolute [] = false
is_absolute (c ∷ cs) = c == b'/'

unfoldable pub is_trusted : (ℕ → Bool) → Text → Metadata → Bool
is_trusted mode_is_right path metadata =
    is_absolute path && metadata.is_file && not metadata.is_symlink && mode_is_right metadata.mode

unfoldable pub validate_executable : Text → Exec TransportError World (Unit {0})
validate_executable path = do
  metadata ←
      mapped (λ _. invalid_config (lit "platform executable is unavailable"))
        (symlink_metadata path)
  if is_trusted (λ mode. not (bit_and mode 0o111 == 0)) path metadata
      then pure tt
      else raise
          (invalid_config (lit "platform executable must be an absolute executable regular file"))

unfoldable pub validate_private_key : Text → Exec TransportError World (Unit {0})
validate_private_key path = do
  metadata ←
      mapped (λ _. invalid_config (lit "WireGuard private key is unavailable"))
        (symlink_metadata path)
  if is_trusted (λ mode. bit_and mode 0o077 == 0) path metadata
      then pure tt
      else raise (invalid_config (lit "WireGuard private key must be a private regular file"))

-- `LinuxTools::validate`.
unfoldable pub validate_tools : LinuxTools → Exec TransportError World (Unit {0})
validate_tools tools = do
  validate_executable tools.ip
  validate_executable tools.wg
  validate_private_key tools.private_key

-- `LinuxDnsTools::validate`.
unfoldable pub validate_dns_tools : LinuxDnsTools → Exec TransportError World (Unit {0})
validate_dns_tools tools = validate_executable tools.resolvectl

-- The path of the key is passed on as text.
unfoldable pub check_key_path : LinuxTools → Result TransportError (Unit {0})
check_key_path tools =
    fail_if (not (is_utf8 tools.private_key))
      (invalid_config (lit "WireGuard private key path is not UTF-8"))

-- `LinuxNodeGatewayTools::validate`.
unfoldable pub validate_gateway_tools : LinuxNodeGatewayTools → Exec TransportError World (Unit {0})
validate_gateway_tools tools = do validate_executable tools.nft; validate_executable tools.sysctl

unfoldable pub valid_interface : Text → Bool
valid_interface interface =
    ltb 0 (length interface)
    && leb (length interface) 15
    && all (λ b. is_ascii_alphanumeric b || b == b'_' || b == b'-') interface

unfoldable pub show_endpoint : Endpoint → Text
show_endpoint e =
    if any (λ b. b == b':') e.host
    then lit "[" ++ e.host ++ lit "]:" ++ decimal e.port
    else e.host ++ lit ":" ++ decimal e.port

unfoldable pub show_network : AllowedIp → Text
show_network n = show_ip n.network ++ lit "/" ++ decimal n.prefix_length

unfoldable pub show_tunnel_address : TunnelAddress → Text
show_tunnel_address a = show_ip a.address ++ lit "/" ++ decimal a.prefix_length

-- `.collect::<Vec<_>>().join(",")`.
unfoldable pub join_networks : List AllowedIp → Text
join_networks [] = []
join_networks (n ∷ []) = show_network n
join_networks (n ∷ m ∷ ns) = show_network n ++ lit "," ++ join_networks (m ∷ ns)

-- The letter at a place of the alphabet of Base64.
unfoldable pub letter : ℕ → ℕ
letter n =
    if ltb n 26
    then b'A' + n
    else if ltb n 52
    then b'a' + (n - 26)
    else if ltb n 62
    then b'0' + (n - 52)
    else if n == 62
    then b'+'
    else b'/'

-- One chunk of at most three bytes; `first & 3` and the like are written by `&` and shifts.
unfoldable pub encode_chunk : ℕ → ℕ → ℕ → Bool → Bool → Text
unfolding letter
encode_chunk first second third has_second has_third =
    letter (first / 4)
    ∷ letter (bit_or (bit_and first 3 * 16) (second / 16))
    ∷ (if has_second then letter (bit_or (bit_and second 15 * 4) (third / 64)) else b'=')
    ∷ (if has_third then letter (bit_and third 63) else b'=')
    ∷ []

unfoldable pub encode_key : List ℕ → Text
encode_key [] = []
encode_key (a ∷ []) = encode_chunk a 0 0 false false
encode_key (a ∷ b ∷ []) = encode_chunk a b 0 true false
encode_key (a ∷ b ∷ c ∷ rest) = encode_chunk a b c true true ++ encode_key rest

encode_test :
    (encode_key (77 ∷ 97 ∷ 110 ∷ []) ≡ lit "TWFu")
    × (encode_key (77 ∷ 97 ∷ []) ≡ lit "TWE=")
    × (encode_key (77 ∷ []) ≡ lit "TQ==")
unfolding encode_key encode_chunk letter lit
encode_test = (refl, refl, refl)
