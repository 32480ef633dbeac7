-- ===== src/Transport/Types.antt =====
-- core/transport/src/lib.rs: the types that transports share, and the validation of connection
-- parameters. An `Instant` and a `Duration` are their numbers of nanoseconds.
use cyberia_vpn.Prelude.{ℕ, Option, ◌++◌, ◌==◌, Result, fail_if}
use cyberia_vpn.Result.{◌>>◌}
use cyberia_vpn.Text.{Text, lit, is_blank}

pub data TransportKind : Type 0 where
  wire_guard vless hysteria2 tuic trojan shadowsocks ikev2 open_vpn soft_ether socks5 http_proxy :
      TransportKind

pub TransportKind-discrete : Discrete TransportKind
TransportKind-discrete = hlevel

pub record Endpoint : Type 0 where
  pub host : Text
  pub port : ℕ  -- NonZeroU16

pub record TransportConfig : Type 0 where
  pub kind : TransportKind
  pub endpoint : Endpoint
  pub connect_timeout : ℕ

pub data TransportError : Type 0 where
  invalid_config : Text → TransportError
  cancelled timed_out already_connected not_connected authentication_failed : TransportError
  network : Text → TransportError

pub display : TransportError → Text
display (invalid_config reason) = lit "invalid configuration: " ++ reason
display cancelled = lit "connection attempt cancelled"
display timed_out = lit "connection attempt timed out"
display already_connected = lit "transport is already connected"
display not_connected = lit "transport is not connected"
display authentication_failed = lit "transport authentication failed"
display (network reason) = lit "transport network error: " ++ reason

-- `TransportConfig::validate`.
unfoldable pub validate : TransportConfig → Result TransportError (Unit {0})
validate config = do
  fail_if (is_blank config.endpoint.host) (invalid_config (lit "endpoint host is empty"))
  fail_if (config.connect_timeout == 0) (invalid_config (lit "connect timeout is zero"))

-- A token is a flag that another thread may set; it stands for the identity of that flag.
pub record ConnectContext : Type 0 where
  pub deadline : ℕ
  pub cancellation : ℕ

pub record Session : Type 0 where
  pub id : Text
  pub transport : TransportKind
  pub established_at : ℕ

pub data HealthStatus : Type 0 where
  healthy degraded unavailable : HealthStatus

pub record TransportHealth : Type 0 where
  pub status : HealthStatus
  pub round_trip_time : Option ℕ
  pub consecutive_failures : ℕ  -- u32
