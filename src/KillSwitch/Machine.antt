-- ===== src/KillSwitch/Machine.antt =====
-- core/killswitch/src/lib.rs: the state machine of the kill switch.
pub mod Reach
use cyberia_vpn.Prelude.{
  ℕ, Bool, true, false, not, ◌&&◌, ◌||◌, ltb, leb, ◌==◌, if◌then◌else◌, length, all,
}
use cyberia_vpn.Exec.{Exec, raise, get, modify, ◌>>=◌, ◌>>◌}
use cyberia_vpn.Text.{Text, lit, is_ascii_alphanumeric}

pub data TrafficPolicy : Type 0 where
  disabled block_non_tunnel : TrafficPolicy
  tunnel_only : Text → TrafficPolicy

pub record KillSwitch : Type 0 where
  pub always_on : Bool
  pub policy : TrafficPolicy

pub data KillSwitchError : Type 0 where
  always_on not_enabled invalid_interface transport_active : KillSwitchError

pub display : KillSwitchError → Text
display always_on = lit "always-on kill switch cannot be disabled"
display not_enabled = lit "kill switch is not enabled"
display invalid_interface = lit "invalid tunnel interface name"
display transport_active = lit "transport teardown is not complete"

-- `self.policy == TrafficPolicy::Disabled`.
abbrev pub is_disabled : TrafficPolicy → Bool
is_disabled disabled = true
is_disabled _ = false

-- `matches!(policy, TrafficPolicy::TunnelOnly { .. })`.
abbrev pub is_tunnel_only : TrafficPolicy → Bool
is_tunnel_only (tunnel_only interface) = true
is_tunnel_only _ = false

unfoldable pub is_interface_byte : ℕ → Bool
is_interface_byte b = is_ascii_alphanumeric b || b == b'-' || b == b'_' || b == b'.'

unfoldable pub valid_interface : Text → Bool
valid_interface interface =
    ltb 0 (length interface) && leb (length interface) 63 && all is_interface_byte interface

unfoldable pub new : Bool → KillSwitch
new always = record { always_on = always; policy = if always then block_non_tunnel else disabled }

unfoldable pub enable : KillSwitch → KillSwitch
enable k = record k { policy = block_non_tunnel }

unfoldable pub disable : Exec KillSwitchError KillSwitch (Unit {0})
disable = do
  k ← get
  if k.always_on then raise always_on else modify (λ k. record k { policy = disabled })

unfoldable pub tunnel_established : Text → Exec KillSwitchError KillSwitch (Unit {0})
tunnel_established interface = do
  k ← get
  if is_disabled k.policy
      then raise not_enabled
      else if not (valid_interface interface)
      then raise invalid_interface
      else modify (λ k. record k { policy = tunnel_only interface })

unfoldable pub tunnel_lost : KillSwitch → KillSwitch
tunnel_lost k = if not (is_disabled k.policy) then record k { policy = block_non_tunnel } else k
