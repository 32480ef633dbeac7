-- ===== src/Client/Settings/Made.antt =====
-- `ClientConfig::into_connection_settings` of apps/linux-client/src/lib.rs: what is taken over from a configuration.
use cyberia_vpn.Prelude.{
  ℕ, ◌*◌, ◌≡◌, refl, subst, ◌≢◌, ◌↔◌, inl, inr, false, List, arith, ◌==◌, Bool-cases, Result-cases,
  ok,
}
use cyberia_vpn.Result.{ok_injective, err-not-ok}
use cyberia_vpn.Net.Show.{show_ip}
use cyberia_vpn.WireGuard.Profile.{AllowedIp, TunnelAddress}
use cyberia_vpn.KillSwitch.Connection.Build.{LinuxConnectionSettings}
use cyberia_vpn.Client.Config.{ClientConfig}
use cyberia_vpn.Client.Settings.{
  decode_key, collect, to_tunnel_address, to_allowed_ip, into_connection_settings,
}

-- The settings that a configuration is made into.
pub record IsMadeOf (config : ClientConfig) (settings : LinuxConnectionSettings) : Type 0 where
  pub port_nonzero : config.endpoint_port ≢ 0
  pub mark_nonzero : config.routing_mark ≢ 0
  pub key : decode_key config.peer_public_key_hex ≡ ok settings.profile.peer_public_key
  pub addresses :
      collect to_tunnel_address config.tunnel_addresses ≡ ok settings.profile.tunnel_addresses
  pub networks : collect to_allowed_ip config.allowed_ips ≡ ok settings.profile.allowed_ips
  pub host : settings.profile.endpoint.host ≡ show_ip config.endpoint_address
  pub port : settings.profile.endpoint.port ≡ config.endpoint_port
  pub keepalive :
      settings.profile.persistent_keepalive_seconds ≡ config.persistent_keepalive_seconds
  pub mtu : settings.profile.mtu ≡ config.mtu
  pub interface : settings.interface ≡ config.interface
  pub resolvers : settings.dns.resolvers ≡ config.dns_resolvers
  pub ip : settings.tools.ip ≡ config.tools.ip
  pub wg : settings.tools.wg ≡ config.tools.wg
  pub private_key : settings.tools.private_key ≡ config.tools.private_key
  pub resolvectl : settings.dns_tools.resolvectl ≡ config.tools.resolvectl
  pub mark : settings.routing_mark ≡ config.routing_mark
  pub timeout : settings.connect_timeout ≡ config.connect_timeout_seconds * 1000000000
  pub always_on : settings.always_on ≡ config.always_on

-- The settings of a configuration whose texts are decoded.
abbrev settings_of :
    ClientConfig → List ℕ → List TunnelAddress → List AllowedIp → LinuxConnectionSettings
settings_of config key addresses networks = record {
  interface = config.interface;
  profile = record {
    peer_public_key = key;
    endpoint = record { host = show_ip config.endpoint_address; port = config.endpoint_port };
    tunnel_addresses = addresses;
    allowed_ips = networks;
    persistent_keepalive_seconds = config.persistent_keepalive_seconds;
    mtu = config.mtu;
  };
  dns = record { resolvers = config.dns_resolvers };
  tools = record {
    ip = config.tools.ip;
    wg = config.tools.wg;
    private_key = config.tools.private_key;
  };
  dns_tools = record { resolvectl = config.tools.resolvectl };
  routing_mark = config.routing_mark;
  connect_timeout = config.connect_timeout_seconds * 1000000000;
  always_on = config.always_on;
}

-- The settings of a configuration that has any are the ones of its decoded texts.
pub made_of :
    (config : ClientConfig) (settings : LinuxConnectionSettings)
    → into_connection_settings config ≡ ok settings
    → IsMadeOf config settings
unfolding into_connection_settings
made_of config settings h = elim (Bool-cases (config.endpoint_port == 0)) [
  | inl e ↦ absurd (err-not-ok _ _ (rw e at h))
  | inr e ↦ elim (Bool-cases (config.routing_mark == 0)) [
    | inl q ↦ absurd (err-not-ok _ _ (rw (e, q) at h))
    | inr q ↦ elim (Result-cases (decode_key config.peer_public_key_hex)) [
      | inr (x, k) ↦ absurd (err-not-ok _ _ (rw (e, q, k) at h))
      | inl (key, k) ↦ elim (Result-cases (collect to_tunnel_address config.tunnel_addresses)) [
        | inr (x, t) ↦ absurd (err-not-ok _ _ (rw (e, q, k, t) at h))
        | inl (addresses, t) ↦ elim (Result-cases (collect to_allowed_ip config.allowed_ips)) [
          | inr (x, n) ↦ absurd (err-not-ok _ _ (rw (e, q, k, t, n) at h))
          | inl (networks, n) ↦
              subst (IsMadeOf config) (ok_injective (rw (e, q, k, t, n) at h)) (record {
                port_nonzero = λ z. ground (arith, e, z);
                mark_nonzero = λ z. ground (arith, q, z);
                key = k;
                addresses = t;
                networks = n;
                host = refl;
                port = refl;
                keepalive = refl;
                mtu = refl;
                interface = refl;
                resolvers = refl;
                ip = refl;
                wg = refl;
                private_key = refl;
                resolvectl = refl;
                mark = refl;
                timeout = refl;
                always_on = refl;
              })
        ]
      ]
    ]
  ]
]

-- Exactly the configurations with a port and a routing mark that are not zero and with texts that are decoded have
-- settings, and every part of the settings is determined: the host is the endpoint's address as it is shown, and the
-- time limit is the configured number of seconds.
pub into_connection_settings_iff :
    (config : ClientConfig) (settings : LinuxConnectionSettings)
    → into_connection_settings config ≡ ok settings ↔ IsMadeOf config settings
unfolding into_connection_settings
into_connection_settings_iff config settings = (
  made_of config settings,
  λ h.
      let port : (config.endpoint_port == 0) ≡ false = ground (arith, h.port_nonzero) in
      let mark : (config.routing_mark == 0) ≡ false = ground (arith, h.mark_nonzero) in
      rw
        (
          port,
          mark,
          h.key,
          h.addresses,
          h.networks,
          ← h.host,
          ← h.port,
          ← h.keepalive,
          ← h.mtu,
          ← h.interface,
          ← h.resolvers,
          ← h.ip,
          ← h.wg,
          ← h.private_key,
          ← h.resolvectl,
          ← h.mark,
          ← h.timeout,
          ← h.always_on,
        )
        refl,
)
