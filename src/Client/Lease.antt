-- ===== src/Client/Lease.antt =====
-- apps/linux-client/src/lib.rs: the lease of an interface, which is a lock on a file.
pub mod Held
use cyberia_vpn.Prelude.{
  Bool, false, not, ◌&&◌, ◌||◌, [], ◌∷◌, ◌++◌, ltb, leb, ◌==◌, if◌then◌else◌, length, all,
}
use cyberia_vpn.Exec.{Exec, pure, raise, lift, mapped, ◌>>=◌, ◌>>◌}
use cyberia_vpn.Text.{Text, lit, is_ascii_alphanumeric}
use cyberia_vpn.Transport.Platform.{
  World, IoError, OpenFile, lock_file, symlink_metadata, open_file,
}
use cyberia_vpn.Linux.Tools.{is_absolute}
use cyberia_vpn.Client.Config.{is_private}

pub data LeaseError : Type 0 where
  unsafe_interface unsafe_state in_use : LeaseError
  io : IoError → LeaseError

pub display : LeaseError → Text
display unsafe_interface = lit "client interface name is unsafe"
display unsafe_state = lit "client interface lock state is unsafe"
display in_use = lit "another client already manages this interface"
display (io error) = lit "client interface lease failed: " ++ error.shown

-- The file stays open, and so locked, as long as the lease is kept.
pub record InterfaceLease : Type 0 where
  pub file : OpenFile

unfoldable pub validate_lease_directory : Text → Exec LeaseError World (Unit {0})
validate_lease_directory runtime_directory =
    if not (is_absolute runtime_directory) then raise unsafe_state else do
      metadata ← mapped io (symlink_metadata runtime_directory)
      if not metadata.is_dir || metadata.is_symlink || not (is_private metadata)
          then raise unsafe_state
          else pure tt

unfoldable pub valid_interface_name : Text → Bool
valid_interface_name interface =
    ltb 0 (length interface)
    && leb (length interface) 15
    && all (λ b. is_ascii_alphanumeric b || b == b'-' || b == b'_' || b == b'.') interface

ends_with_slash : Text → Bool
ends_with_slash [] = false
ends_with_slash (b ∷ []) = b == b'/'
ends_with_slash (b ∷ c ∷ bs) = ends_with_slash (c ∷ bs)

-- `Path::join` with a relative path.
unfoldable pub join : Text → Text → Text
unfolding ends_with_slash
join directory name =
    if length directory == 0 || ends_with_slash directory
    then directory ++ name
    else directory ++ (b'/' ∷ name)

unfoldable pub lock_path : Text → Text → Text
lock_path runtime_directory interface =
    join runtime_directory (lit "interface-" ++ (interface ++ lit ".lock"))

abbrev pub lock_error : IoError → LeaseError
lock_error error = if error.would_block then in_use else io error

unfoldable pub acquire_interface_lease : Text → Text → Exec LeaseError World InterfaceLease
acquire_interface_lease runtime_directory interface = do
  validate_lease_directory runtime_directory
  if not (valid_interface_name interface) then raise unsafe_interface else do
    file ← mapped io (open_file lock_file (lock_path runtime_directory interface))
    metadata ← mapped io (lift file.metadata)
    if not metadata.is_file || not (is_private metadata)
        then raise unsafe_state
        else do mapped lock_error (lift file.lock); pure (record { file = file })
