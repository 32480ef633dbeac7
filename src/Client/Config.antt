-- ===== src/Client/Config.antt =====
-- apps/linux-client/src/lib.rs: the configuration of the client, how it is read, and the settings that are
-- made of it.
pub mod Loaded
use Prim.Native.Nat.{bit_and}
use cyberia_vpn.Prelude.{
  map_ok, ℕ, suc, Bool, not, ◌||◌, Option, none, some, List, ◌++◌, ltb, ◌==◌, if◌then◌else◌, Result,
  length,
}
use cyberia_vpn.Exec.{Exec, pure, raise, lift, mapped, ◌>>=◌, ◌>>◌}
use cyberia_vpn.Text.{Text, lit}
use cyberia_vpn.Net.{IpAddr}
use cyberia_vpn.Net.Show.{take}
use cyberia_vpn.Transport.Platform.{
  World, IoError, Metadata, OpenFile, read_only, symlink_metadata, open_file,
}
use cyberia_vpn.Linux.Tools.{is_absolute}

abbrev pub maximum_config_size : ℕ
maximum_config_size = 1048576

-- The text of the JSON library's error stands for the error.
pub data ConfigError : Type 0 where
  unsafe_file oversized unsafe_runtime_directory : ConfigError
  io : IoError → ConfigError
  json invalid_field : Text → ConfigError

pub display : ConfigError → Text
display unsafe_file = lit "client configuration must be an absolute private regular file"
display oversized = lit "client configuration exceeds 1 MiB"
display (io error) = lit "client configuration I/O failed: " ++ error.shown
display (json error) = lit "client configuration JSON is invalid: " ++ error
display (invalid_field reason) = lit "client configuration is invalid: " ++ reason
display unsafe_runtime_directory =
    lit "client runtime directory must be an absolute private directory"

pub record ClientTools : Type 0 where
  pub ip : Text
  pub wg : Text
  pub nft : Text
  pub resolvectl : Text
  pub private_key : Text

pub record ClientConfig : Type 0 where
  pub interface : Text
  pub runtime_directory : Text
  pub endpoint_address : IpAddr
  pub endpoint_port : ℕ  -- u16
  pub peer_public_key_hex : Text
  pub tunnel_addresses : List Text
  pub allowed_ips : List Text
  pub dns_resolvers : List IpAddr
  pub mtu : ℕ  -- u16
  pub persistent_keepalive_seconds : Option ℕ  -- u16
  pub routing_mark : ℕ  -- u32
  pub connect_timeout_seconds : ℕ  -- u64
  pub always_on : Bool
  pub tools : ClientTools

-- No permission for anybody but the owner.
unfoldable pub is_private : Metadata → Bool
is_private metadata = bit_and metadata.mode 0o077 == 0

unfoldable pub validate_private_directory : Text → Exec ConfigError World (Unit {0})
validate_private_directory path =
    if not (is_absolute path) then raise unsafe_runtime_directory else do
      metadata ← mapped io (symlink_metadata path)
      if not metadata.is_dir || metadata.is_symlink || not (is_private metadata)
          then raise unsafe_runtime_directory
          else pure tt

-- `ELOOP` says that the path names a symbolic link.
abbrev pub refuses_link : IoError → ConfigError
refuses_link error = elim error.raw_os_error [
  | none ↦ io error
  | some code ↦ if code == 40 then unsafe_file else io error
]

-- Reading the whole file, but at most one byte more than the limit.
abbrev pub read_bounded : OpenFile → Result IoError Text
read_bounded file = map_ok (take (suc maximum_config_size)) file.content

-- The file is tested after it has been opened, so that the tests are about the file that is read.
unfoldable pub read_config_file : Text → Exec ConfigError World Text
read_config_file path = if not (is_absolute path) then raise unsafe_file else do
  file ← mapped refuses_link (open_file read_only path)
  metadata ← mapped io (lift file.metadata)
  if not metadata.is_file || not (is_private metadata)
      then raise unsafe_file
      else if ltb maximum_config_size metadata.len
      then raise oversized
      else do
        bytes ← mapped io (lift (read_bounded file))
        if ltb maximum_config_size (length bytes) then raise oversized else pure bytes

module _ (parse_json : Text → Result Text ClientConfig) where
  -- `parse_json` is the JSON library's reading of a text as a configuration, with nothing behind it.
  unfoldable pub load_config : Text → Exec ConfigError World ClientConfig
  load_config path = do
    bytes ← read_config_file path
    config ← mapped json (lift (parse_json bytes))
    validate_private_directory config.runtime_directory
    pure config
