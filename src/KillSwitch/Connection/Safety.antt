-- ===== src/KillSwitch/Connection/Safety.antt =====
-- The connection of core/killswitch/src/linux_connection.rs under every history of calls: its transport and
-- its firewall keep the contract that the controller relies on, and its name lookups run no nftables.
use cyberia_vpn.Prelude.{◌≡◌, sym, ap, ◌∙◌, Bool, true, false, if◌then◌else◌, Result, ok, err}
use cyberia_vpn.Exec.{Exec, Ends-ok, Ends-err, continue, ◌>>=◌}
use cyberia_vpn.Transport.Types.{TransportError, TransportConfig, ConnectContext}
use cyberia_vpn.Transport.Platform.{World}
use cyberia_vpn.WireGuard.Adapter.{WireGuardAdapter, adapter_transport}
use cyberia_vpn.Linux.Backend.{LinuxWireGuardBackend}
use cyberia_vpn.Linux.Dns.{LinuxDnsBackend}
use cyberia_vpn.KillSwitch.Machine.{is_disabled, is_tunnel_only}
use cyberia_vpn.KillSwitch.Controller
use cyberia_vpn.KillSwitch.Controller.{ConnectionError, transport_failed, Controlled}
use cyberia_vpn.KillSwitch.Controller.Contract.{Obeys}
use cyberia_vpn.KillSwitch.Controller.History
use cyberia_vpn.KillSwitch.Controller.History.{Op, after, after-Inv}
use cyberia_vpn.KillSwitch.Nftables.{NftablesBackend, nftables_firewall}
use cyberia_vpn.KillSwitch.Nftables.Effect.{effective_policy, ruleset_policy, nftables_apply-Ends}
use cyberia_vpn.KillSwitch.Nftables.Quiet.{Quiet, object_rules}
use cyberia_vpn.KillSwitch.Connection.{
  LinuxController, Connected, linux_transport, on_controller, on_dns, disable,
}
use cyberia_vpn.KillSwitch.Connection.Quiet.{adapter_connect-Quiet, adapter_disconnect-Quiet}

pub linux_Obeys : Obeys linux_transport nftables_firewall
unfolding adapter_transport
linux_Obeys = record {
  effective = effective_policy;
  applied = λ policy fw w h. Ends-ok _ tt (nftables_apply-Ends policy fw w) h;
  refused = λ policy fw w e h.
      let kept = Ends-err _ e (nftables_apply-Ends policy fw w) h in
      λ i. ruleset_policy (kept.0 i).config (kept.1 i);
  connects = λ fw config context s.
      ap (ruleset_policy fw.config) ((adapter_connect-Quiet config context).holds s);
  disconnects = λ fw s. ap (ruleset_policy fw.config) (adapter_disconnect-Quiet.holds s);
}

abbrev LinuxControlled : Type 0
LinuxControlled = Controlled (WireGuardAdapter LinuxWireGuardBackend) NftablesBackend

-- The policy in memory is the one that nftables has, a kill switch that is always-on is not disabled,
-- traffic is let through a tunnel only while the transport may be active, and always-on is `b`.
pub record IsSecured (b : Bool) (c : LinuxController) (w : World) : Type 0 where
  pub effective : effective_policy c.firewall w ≡ c.kill_switch.policy
  pub armed : b ≡ true → is_disabled c.kill_switch.policy ≡ false
  pub owned : is_tunnel_only c.kill_switch.policy ≡ true → c.transport_may_be_active ≡ true
  pub always_on : c.kill_switch.always_on ≡ b

after-IsSecured :
    (b : Bool) (op : Op linux_transport nftables_firewall linux_Obeys) (s : LinuxControlled)
    → IsSecured b s.0 s.1
    → let s' = after linux_transport nftables_firewall linux_Obeys op s in IsSecured b s'.0 s'.1
unfolding linux_Obeys
after-IsSecured b op s h =
    let r = after-Inv linux_transport nftables_firewall linux_Obeys op s (record {
      effective = h.effective;
      armed = λ e. h.armed (sym h.always_on ∙ e);
      owned = h.owned;
    }) in
    record {
      effective = r.0.effective;
      armed = λ e. r.0.armed (r.1 ∙ h.always_on ∙ e);
      owned = r.0.owned;
      always_on = r.1 ∙ h.always_on;
    }

-- A method of the connection keeps it secured, whether it succeeds or not.
pub record Secures {E A : Type 0} (b : Bool) (m : Exec E Connected A) : Type 0 where
  pub holds :
      (s : Connected) → IsSecured b s.0.controller s.1 → IsSecured b (m s).1.0.controller (m s).1.1

module _ (b : Bool) where
  continue-Secures :
      {E A B : Type 0} (r : Result E A) (f : A → Exec E Connected B) (s : Connected)
      → IsSecured b s.0.controller s.1
      → ((a : A) → Secures b (f a))
      → IsSecured b (continue r f s).1.0.controller (continue r f s).1.1
  continue-Secures (ok a) f s h k = (k a).holds s h
  continue-Secures (err e) f s h k = h

  pub Secures-bind :
      {E A B : Type 0} (m : Exec E Connected A) (f : A → Exec E Connected B)
      → Secures b m
      → ((a : A) → Secures b (f a))
      → Secures b (m >>= f)
  Secures-bind m f q k = record {
    holds = λ s h. continue-Secures (m s).0 f (m s).1 (q.holds s h) k;
  }

  pub Secures-if :
      {A : Type 0} (t : Bool) (m n : Exec ConnectionError Connected A)
      → Secures b m
      → Secures b n
      → Secures b (if t then m else n)
  Secures-if true m n p q = p
  Secures-if false m n p q = q

  pub on_dns-Secures :
      (m : Exec TransportError (LinuxDnsBackend × World) (Unit {0}))
      → Quiet object_rules m
      → Secures b (on_dns m)
  on_dns-Secures m q = record {
    holds = λ s h. record {
      effective =
          ap (ruleset_policy s.0.controller.firewall.config) (q.holds (s.0.dns, s.1)) ∙ h.effective;
      armed = h.armed;
      owned = h.owned;
      always_on = h.always_on;
    };
  }

  pub connect-Secures :
      (config : TransportConfig) (context : ConnectContext)
      → Secures b
          (on_controller (Controller.connect linux_transport nftables_firewall config context))
  unfolding after
  connect-Secures config context = record {
    holds = λ s h. after-IsSecured b (History.connects config context) (s.0.controller, s.1) h;
  }

  pub disconnect-Secures :
      Secures b (on_controller (Controller.disconnect linux_transport nftables_firewall))
  unfolding after
  disconnect-Secures = record {
    holds = λ s h. after-IsSecured b History.disconnects (s.0.controller, s.1) h;
  }

  pub disable-Secures : Secures b disable
  unfolding after disable
  disable-Secures = record {
    holds = λ s h. after-IsSecured b History.disables (s.0.controller, s.1) h;
  }
