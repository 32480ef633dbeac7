-- ===== src/Client/Run/Success.antt =====
-- A run of apps/linux-client/src/lib.rs on a platform that hinders nothing: it succeeds.
use cyberia_vpn.Prelude.{
  ℕ, ◌≡◌, sym, ap, subst, ◌∙◌, Bool, true, false, not, some, if◌then◌else◌, ok, ◌≤◌,
}
use cyberia_vpn.KillSwitch.Connection.Favoured.Calls.{IsShut, disconnect-IsShut, disable-Goes}
use cyberia_vpn.Linux.Dns.Favoured.{revert-Goes}
use cyberia_vpn.KillSwitch.Connection.{
  after_configure, LinuxController, on_dns, on_controller, LinuxWireGuardConnection, Connected,
  linux_transport,
}
use cyberia_vpn.KillSwitch.Controller.{transport_failed, ConnectionError}
use cyberia_vpn.Client.Run.Ended.{Secured, IsFinished, run_until_shutdown-Ends}
use cyberia_vpn.KillSwitch.Connection.Histories.{connection_connect-Secures}
use cyberia_vpn.Client.Run.{linux_client, after_connect, run_until_shutdown, returned}
use cyberia_vpn.KillSwitch.Nftables.Quiet.{world_rules}
use cyberia_vpn.KillSwitch.Connection.Favoured.Ready.{IsReady}
use cyberia_vpn.Text.{Text}
use cyberia_vpn.Exec.{Ends-ok, pure, ◌>>=◌, Ends-mapped, Ends-weaken, mapped, Ends, Ends-bind, went}
use cyberia_vpn.Transport.Platform.{World}
use cyberia_vpn.Transport.Favoured.{Favours}
use cyberia_vpn.Linux.Dns as LinuxDns
use cyberia_vpn.Linux.Dns.{LinuxDnsBackend}
use cyberia_vpn.KillSwitch.Nftables.{nftables_firewall}
use cyberia_vpn.KillSwitch.Controller
use cyberia_vpn.KillSwitch.Connection
use cyberia_vpn.KillSwitch.Connection.Favoured.{IsConnected}
use cyberia_vpn.Routing.Selector.{instant_max}
use cyberia_vpn.Client.Run.Live.{
  IsLive, beside_controller, beside_dns, live, attempt_end, connect-IsLive,
}

disconnect-Ends-IsShut :
    (limit : ℕ) (interface : Text) (c : LinuxWireGuardConnection) (w : World)
    → IsLive limit interface (c, w)
    → Ends
        (λ _ s. IsShut limit c.controller.kill_switch.always_on (s.0.controller, s.1))
        (λ _ _. ⊥)
        (Connection.disconnect (c, w))
unfolding Connection.disconnect
disconnect-Ends-IsShut limit interface c w l =
    Ends-bind (mapped transport_failed (on_dns (LinuxDns.revert c.interface))) _ (c, w)
      (Ends-mapped transport_failed _ (
        beside_dns c (LinuxDns.revert c.interface (c.dns, w))
          (revert-Goes c.interface limit c.dns w (l.owned ∙ ap some (sym l.named)) l.favours)))
      (λ u s k.
        let same = ap (λ (x : LinuxWireGuardConnection). x.controller) k.0 in
        Ends-weaken _
          (beside_controller s.0
            (Controller.disconnect linux_transport nftables_firewall (s.0.controller, s.1))
            (disconnect-IsShut interface limit s.0.controller s.1
              (subst (λ (x : LinuxController). IsConnected interface x.transport) (sym same)
                l.connected)
              k.1.1))
          (λ v t q.
            subst (λ b. IsShut limit b (t.0.controller, t.1))
              (ap (λ (x : LinuxController). x.kill_switch.always_on) same) q.1)
          (λ e t z. z))

-- Nothing in particular is asked of the end of a run.
abbrev Anyhow : Unit {0} → Connected → Type 0
Anyhow u s = Unit {0}

released :
    (b : Bool) (limit : ℕ) (s : Connected)
    → IsShut limit b (s.0.controller, s.1)
    → Ends Anyhow (λ _ _. ⊥) ((if not b then mapped returned linux_client.disable else pure tt) s)
unfolding linux_client Connection.disable
released true limit s h = record { holds = tt }
released false limit s h = Ends-mapped returned (Connection.disable s) (
    Ends-weaken _
      (beside_controller s.0
        (Controller.disable linux_transport nftables_firewall (s.0.controller, s.1))
        (disable-Goes limit s.0.controller s.1 h))
      (λ u t q. tt) (λ e t z. z))

torn_down :
    (b : Bool) (limit : ℕ) (interface : Text) (s : Connected)
    → IsLive limit interface s
    → s.0.controller.kill_switch.always_on ≡ b
    → Ends Anyhow
        (λ _ _. ⊥)
        ((mapped returned linux_client.disconnect >>= λ _.
            if not b then mapped returned linux_client.disable else pure tt)
          s)
unfolding linux_client
torn_down b limit interface s l e =
    Ends-bind (mapped returned Connection.disconnect) _ s
      (Ends-mapped returned (Connection.disconnect s)
        (disconnect-Ends-IsShut limit interface s.0 s.1 l))
      (λ u t h. released b limit t (subst (λ a. IsShut limit a (t.0.controller, t.1)) e h))

goes_through :
    (b : Bool) (cancellation : ℕ) (wait : World → World) (c : LinuxWireGuardConnection) (w : World)
    → IsReady c
    → attempt_end c w ≤ instant_max
    → Favours (attempt_end c w) w
    → ((v : World) → Favours (attempt_end c w) v → Favours (attempt_end c w) (wait v))
    → Secured b (c, w)
    → Ends Anyhow (λ _ _. ⊥) (run_until_shutdown linux_client b cancellation wait (c, w))
unfolding run_until_shutdown linux_client after_connect
goes_through b cancellation wait c w r fits h keeps secured =
    let m = Connection.connect cancellation in
    let (session, e, l) = went _ (connect-IsLive cancellation c w r fits h) in
    let s = (m (c, w)).1 in
    let armed = (connection_connect-Secures b cancellation).holds (c, w) secured in
    rw e (
      torn_down b (attempt_end c w) c.interface (s.0, wait s.1)
        (live (attempt_end c w) c.interface s.0 s.0.dns (wait s.1) l.connected l.named l.owned
          (keeps s.1 l.favours))
        armed.always_on)

-- The same for a connection that has not been used since it was built.
pub run_until_shutdown_succeeds :
    (b : Bool) (cancellation : ℕ) (wait : World → World) (c : LinuxWireGuardConnection) (w : World)
    → IsReady c
    → attempt_end c w ≤ instant_max
    → Favours (attempt_end c w) w
    → ((v : World) → Favours (attempt_end c w) v → Favours (attempt_end c w) (wait v))
    → ((v : World) → world_rules (wait v) ≡ world_rules v)
    → Secured b (c, w)
    → let r = run_until_shutdown linux_client b cancellation wait (c, w) in
      (r.0 ≡ ok tt) × IsFinished b r.1
run_until_shutdown_succeeds b cancellation wait c w ready fits h keeps quiet secured =
    let r = run_until_shutdown linux_client b cancellation wait (c, w) in
    let (u, e, _) = went r (goes_through b cancellation wait c w ready fits h keeps secured) in
    (e, Ends-ok r u (run_until_shutdown-Ends b cancellation wait (c, w) quiet secured) e)
