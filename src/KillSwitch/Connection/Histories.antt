-- ===== src/KillSwitch/Connection/Histories.antt =====
-- `LinuxWireGuardConnection` of core/killswitch/src/linux_connection.rs: what every history of its calls keeps.
use cyberia_vpn.Prelude.{ℕ, ◌≡◌, Bool, not, List, [], ◌∷◌, Result, ok, err}
use cyberia_vpn.Exec.{Ends-ok, attempt, mapped, lift}
use cyberia_vpn.Text.{Text}
use cyberia_vpn.Transport.Types.{TransportError, ConnectContext, Session}
use cyberia_vpn.Transport.Platform.{World, now}
use cyberia_vpn.Linux.Dns
use cyberia_vpn.Linux.Dns.{LinuxDnsBackend, needs_revert}
use cyberia_vpn.KillSwitch.Controller
use cyberia_vpn.KillSwitch.Controller.{ConnectionError, FirewallError}
use cyberia_vpn.KillSwitch.Nftables.{nftables_firewall}
use cyberia_vpn.KillSwitch.Connection.{
  LinuxWireGuardConnection, Connected, linux_transport, on_controller, on_dns, this, clock,
  after_configure, after_revert, after_disconnect, tear_down, connect, disconnect, disable,
  connect_under, add_timeout, returned,
}
use cyberia_vpn.KillSwitch.Connection.Lookups.{configure-Quiet, revert-Quiet}
use cyberia_vpn.KillSwitch.Connection.Safety.{
  IsSecured, Secures, Secures-bind, Secures-if, on_dns-Secures, connect-Secures, disconnect-Secures,
  disable-Secures,
}
use cyberia_vpn.KillSwitch.Connection.Build.{LinuxConnectionSettings, system}
use cyberia_vpn.KillSwitch.Connection.Assembly.{system-Ends}

module _ (b : Bool) where
  after_disconnect-Secures :
      (error : TransportError) (r : Result ConnectionError (Unit {0}))
      → Secures b (after_disconnect error r)
  unfolding after_disconnect
  after_disconnect-Secures error (ok u) = record { holds = λ s h. h }
  after_disconnect-Secures error (err e) = record { holds = λ s h. h }

  tear_down-Secures : (error : TransportError) → Secures b (tear_down error)
  unfolding tear_down
  tear_down-Secures error =
      Secures-bind b
        (attempt (on_controller (Controller.disconnect linux_transport nftables_firewall))) _
        (record { holds = λ s h. (disconnect-Secures b).holds s h })
        λ r. after_disconnect-Secures error r

  after_revert-Secures :
      (error : TransportError) (r : Result TransportError (Unit {0}))
      → Secures b (after_revert error r)
  unfolding after_revert
  after_revert-Secures error (ok u) = tear_down-Secures error
  after_revert-Secures error (err e) = record { holds = λ s h. h }

  after_configure-Secures :
      (session : Session) (r : Result TransportError (Unit {0}))
      → Secures b (after_configure session r)
  unfolding after_configure
  after_configure-Secures session (ok u) = record { holds = λ s h. h }
  after_configure-Secures session (err e) =
      Secures-bind b this _ (record { holds = λ s h. h })
        λ c. Secures-if b (not (needs_revert c.dns)) _ _ (tear_down-Secures e) (
          Secures-bind b (attempt (on_dns (Dns.revert c.interface))) _
            (record { holds = λ s h. (on_dns-Secures b _ (revert-Quiet c.interface)).holds s h })
            λ r. after_revert-Secures e r)

  clock-IsSecured :
      (s : Connected) → IsSecured b s.0.controller s.1 → IsSecured b s.0.controller (now s.1).1
  unfolding now
  clock-IsSecured s h = record {
    effective = h.effective;
    armed = h.armed;
    owned = h.owned;
    always_on = h.always_on;
  }

  connect_under-Secures : (context : ConnectContext) → Secures b (connect_under context)
  unfolding connect_under
  connect_under-Secures context =
      Secures-bind b this _ (record { holds = λ s h. h })
        λ c.
          Secures-bind b
            (on_controller
              (Controller.connect linux_transport nftables_firewall c.transport context))
            _ (connect-Secures b c.transport context)
            λ session.
              Secures-bind b (attempt (on_dns (Dns.configure c.interface c.dns_config context))) _
                (record {
                  holds = λ s h.
                      (on_dns-Secures b _ (configure-Quiet c.interface c.dns_config context)).holds
                        s h;
                })
                λ r. after_configure-Secures session r

  connect_by-Secures :
      (cancellation deadline : ℕ)
      → Secures b (
          mapped returned
            (connect_under (record { deadline = deadline; cancellation = cancellation })))
  connect_by-Secures cancellation deadline = record {
    holds = λ s h.
        (connect_under-Secures (record { deadline = deadline; cancellation = cancellation })).holds
          s h;
  }

  pub connection_connect-Secures : (cancellation : ℕ) → Secures b (connect cancellation)
  unfolding connect
  connection_connect-Secures cancellation =
      Secures-bind b clock _ (record { holds = clock-IsSecured })
        λ instant.
          Secures-bind b this _ (record { holds = λ s h. h })
            λ c.
              Secures-bind b (lift (add_timeout instant c)) _ (record { holds = λ s h. h })
                λ deadline. connect_by-Secures cancellation deadline

  connection_disconnect-Secures : Secures b disconnect
  unfolding disconnect
  connection_disconnect-Secures =
      Secures-bind b this _ (record { holds = λ s h. h })
        λ c.
          Secures-bind b (mapped Controller.transport_failed (on_dns (Dns.revert c.interface))) _
            (record { holds = λ s h. (on_dns-Secures b _ (revert-Quiet c.interface)).holds s h })
            λ u. disconnect-Secures b

-- The calls of a client on its connection.
pub data ConnectionCall : Type 0 where
  connects : ℕ → ConnectionCall
  disconnects disables : ConnectionCall

pub called : ConnectionCall → Connected → Connected
called (connects cancellation) s = (connect cancellation s).1
called disconnects s = (disconnect s).1
called disables s = (disable s).1

pub all_called : List ConnectionCall → Connected → Connected
all_called [] s = s
all_called (c ∷ cs) s = all_called cs (called c s)

called-IsSecured :
    (b : Bool) (c : ConnectionCall) (s : Connected)
    → IsSecured b s.0.controller s.1
    → let s' = called c s in IsSecured b s'.0.controller s'.1
unfolding called
called-IsSecured b (connects cancellation) s h =
    (connection_connect-Secures b cancellation).holds s h
called-IsSecured b disconnects s h = (connection_disconnect-Secures b).holds s h
called-IsSecured b disables s h = (disable-Secures b).holds s h

all_called-IsSecured :
    (b : Bool) (cs : List ConnectionCall) (s : Connected)
    → IsSecured b s.0.controller s.1
    → let s' = all_called cs s in IsSecured b s'.0.controller s'.1
unfolding all_called
all_called-IsSecured b [] s h = h
all_called-IsSecured b (c ∷ cs) s h =
    all_called-IsSecured b cs (called c s) (called-IsSecured b c s h)

-- A Linux connection exists only if its first policy, which blocks, was put in effect. From then on,
-- whatever connects, disconnects and disables are called on it, and whatever the processes that they run
-- answer: the policy in memory is the one of the last ruleset that nftables accepted, a kill switch that is
-- configured always-on does not disable filtering, and traffic is let through a tunnel only while the
-- transport is recorded as possibly active.
pub connection_history_safe :
    (settings : LinuxConnectionSettings) (nft : Text) (w : World) (c : LinuxWireGuardConnection)
    (cs : List ConnectionCall)
    → (system settings nft w).0 ≡ ok c
    → let s = all_called cs (c, (system settings nft w).1) in
      IsSecured settings.always_on s.0.controller s.1
connection_history_safe settings nft w c cs h =
    all_called-IsSecured settings.always_on cs _ (Ends-ok _ c (system-Ends settings nft w) h)
