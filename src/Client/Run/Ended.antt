-- ===== src/Client/Run/Ended.antt =====
-- The run of a connection of apps/linux-client/src/lib.rs over the Linux connection: how it ends.
use cyberia_vpn.Result.{Abort, returned, panicked}
use cyberia_vpn.Prelude.{
  ℕ, ◌≡◌, refl, sym, ap, ◌∙◌, Bool, true, false, not, none, arith, if◌then◌else◌, Result, ok, err,
}
use cyberia_vpn.Exec.{
  Ends, Ends-bind, Ends-weaken, Ends-with_state, attempt, mapped, pure, Ends-mapped,
}
use cyberia_vpn.Transport.Types.{Session}
use cyberia_vpn.Transport.Platform.{World}
use cyberia_vpn.Transport.Trace.{Extends}
use cyberia_vpn.Linux.Dns
use cyberia_vpn.Linux.Dns.{LinuxDnsBackend}
use cyberia_vpn.KillSwitch.Machine.{
  disabled, block_non_tunnel, is_disabled, tunnel_lost, KillSwitch,
}
use cyberia_vpn.KillSwitch.Nftables.{nftables_firewall}
use cyberia_vpn.KillSwitch.Nftables.Effect.{effective_policy, ruleset_policy}
use cyberia_vpn.KillSwitch.Nftables.Quiet.{world_rules}
use cyberia_vpn.KillSwitch.Controller
use cyberia_vpn.KillSwitch.Controller.{ConnectionError, transport_failed, Controlled}
use cyberia_vpn.KillSwitch.Controller.Teardown.{TornDown, disconnect-Ends, disable-Ends}
use cyberia_vpn.KillSwitch.Connection
use cyberia_vpn.KillSwitch.Connection.{
  LinuxWireGuardConnection, LinuxController, Connected, linux_transport, on_controller, on_dns,
}
use cyberia_vpn.KillSwitch.Connection.Lookups.{revert-Quiet}
use cyberia_vpn.KillSwitch.Connection.Teardown.{dns_revert-Ends, reverted_of, on_controller-Ends}
use cyberia_vpn.KillSwitch.Connection.Safety.{
  IsSecured, on_dns-Secures, disconnect-Secures, disable-Secures, linux_Obeys,
}
use cyberia_vpn.KillSwitch.Connection.AdapterDown.{
  IsTornDown, disconnect-IsTornDown, disable-Extends, IsTornDown-Extends,
}
use cyberia_vpn.KillSwitch.Connection.Histories.{connection_connect-Secures}
use cyberia_vpn.Client.Run.{linux_client, after_connect, waiting, run_until_shutdown}

abbrev pub Secured : (b : Bool) → Connected → Type 0
Secured b s = IsSecured b s.0.controller s.1

-- Nothing is torn down by halves: the transport is down, the resolvers are reverted, and what is in effect is the policy
-- of a client that is not running.
pub record IsFinished (b : Bool) (s : Connected) : Type 0 where
  pub secured : Secured b s
  pub torn_down : IsTornDown s.0.controller.transport s.1.trace
  pub inactive : s.0.controller.transport_may_be_active ≡ false
  pub reverted : s.0.dns.active_interface ≡ none
  pub effect :
      effective_policy s.0.controller.firewall s.1 ≡ (if b then block_non_tunnel else disabled)

-- The same, before filtering is switched off.
record IsDown (b : Bool) (s : Connected) : Type 0 where
  secured : Secured b s
  torn_down : IsTornDown s.0.controller.transport s.1.trace
  inactive : s.0.controller.transport_may_be_active ≡ false
  reverted : s.0.dns.active_interface ≡ none
  policy :
      is_disabled s.0.controller.kill_switch.policy ≡ false
      → effective_policy s.0.controller.firewall s.1 ≡ block_non_tunnel

lost_policy :
    (k : KillSwitch)
    → is_disabled (tunnel_lost k).policy ≡ false
    → (tunnel_lost k).policy ≡ block_non_tunnel
unfolding tunnel_lost
lost_policy k h = ground arith

down :
    {b : Bool} (s t : Connected)
    → TornDown linux_transport nftables_firewall linux_Obeys
        (s.0.controller, s.1)
        (t.0.controller, t.1)
    → t.0.dns.active_interface ≡ none
    → Secured b t
    → IsDown b t
down s t h reverted secured =
    let k = h.retracted.kill_switch in
    record {
      secured = secured;
      torn_down =
          disconnect-IsTornDown s.0.controller.transport h.called.before
            (t.0.controller.transport, t.1) h.called.outcome;
      inactive = h.active;
      reverted = reverted;
      policy = λ n.
          secured.effective
          ∙ ap (λ (x : KillSwitch). x.policy) k
          ∙ lost_policy s.0.controller.kill_switch
              (ap (λ (x : KillSwitch). is_disabled x.policy) (sym k) ∙ n);
    }

disconnect-IsDown :
    (b : Bool) (s : Connected)
    → Secured b s
    → Ends (λ _ t. IsDown b t) (λ _ t. Secured b t) (Connection.disconnect s)
unfolding Connection.disconnect
disconnect-IsDown b s h =
    Ends-bind (mapped transport_failed (on_dns (Dns.revert s.0.interface))) _ s
      (Ends-weaken _
        (Ends-with_state _
          (reverted_of s (Dns.revert s.0.interface (s.0.dns, s.1))
            (dns_revert-Ends s.0.interface s.0.dns s.1))
          ((on_dns-Secures b _ (revert-Quiet s.0.interface)).holds s h))
        (λ u t p. p) (λ e t p. p.1))
      (λ u s1 p.
        Ends-weaken _
          (Ends-with_state _
            (on_controller-Ends s1 (Controller.disconnect linux_transport nftables_firewall) (
              disconnect-Ends linux_transport nftables_firewall linux_Obeys
                (s1.0.controller, s1.1)))
            ((disconnect-Secures b).holds s1 p.1))
          (λ v t q.
            down s1 t q.0.0 (ap (λ (d : LinuxDnsBackend). d.active_interface) q.0.1 ∙ p.0) q.1)
          (λ e t q. q.1))

-- The last step of a run.
released-IsFinished :
    (b : Bool) (s : Connected)
    → IsDown b s
    → Ends
        (λ _ t. IsFinished b t)
        (λ _ t. Secured b t)
        ((if not b then mapped returned linux_client.disable else pure tt) s)
unfolding linux_client Connection.disable
released-IsFinished true s h = record {
  holds = record {
    secured = h.secured;
    torn_down = h.torn_down;
    inactive = h.inactive;
    reverted = h.reverted;
    effect = h.policy (h.secured.armed refl);
  };
}
released-IsFinished false s h = Ends-mapped returned (Connection.disable s) (
    Ends-weaken _
      (Ends-with_state {P = λ (t : Connected). Secured false t × Extends s.1.trace t.1.trace} _
        (on_controller-Ends s (Controller.disable linux_transport nftables_firewall)
          (disable-Ends linux_transport nftables_firewall linux_Obeys (s.0.controller, s.1)))
        ((disable-Secures false).holds s h.secured, disable-Extends (s.0.controller, s.1)))
      (λ u t q. record {
        secured = q.1.0;
        torn_down =
            IsTornDown-Extends s.0.controller.transport t.0.controller.transport s.1.trace t.1.trace
              q.0.0.transport q.1.1 h.torn_down;
        inactive = q.0.0.active ∙ h.inactive;
        reverted = ap (λ (d : LinuxDnsBackend). d.active_interface) q.0.1 ∙ h.reverted;
        effect = q.1.0.effective ∙ q.0.0.policy;
      })
      (λ e t q. q.1.0))

waited :
    (b : Bool) (wait : World → World)
    → ((w : World) → world_rules (wait w) ≡ world_rules w)
    → (s : Connected) → Secured b s
    → Secured b (s.0, wait s.1)
waited b wait quiet s h = record {
  effective = ap (ruleset_policy s.0.controller.firewall.config) (quiet s.1) ∙ h.effective;
  armed = h.armed;
  owned = h.owned;
  always_on = h.always_on;
}

after_connect-Secured :
    (b : Bool) (r : Result (Abort ConnectionError) Session) (s : Connected)
    → Secured b s
    → Ends (λ _ t. Secured b t) (λ _ t. Secured b t) (after_connect linux_client b r s)
unfolding after_connect linux_client
after_connect-Secured b (ok session) s h = record { holds = h }
after_connect-Secured b (err panicked) s h = record { holds = h }
after_connect-Secured true (err (returned e)) s h = record { holds = h }
after_connect-Secured false (err (returned e)) s h = record {
  holds = (disable-Secures false).holds s h;
}

pub run_until_shutdown-Ends :
    (b : Bool) (cancellation : ℕ) (wait : World → World) (s : Connected)
    → ((w : World) → world_rules (wait w) ≡ world_rules w)
    → Secured b s
    → Ends
        (λ _ t. IsFinished b t)
        (λ _ t. Secured b t)
        (run_until_shutdown linux_client b cancellation wait s)
unfolding run_until_shutdown linux_client
run_until_shutdown-Ends b cancellation wait s quiet h =
    let connect = linux_client.connect cancellation in
    Ends-bind {Q = λ _ t. Secured b t} (attempt connect) _ s
      (record { holds = (connection_connect-Secures b cancellation).holds s h })
      (λ connected s1 h1.
        Ends-bind (after_connect linux_client b connected) _ s1
          (after_connect-Secured b connected s1 h1)
          (λ u s2 h2.
            Ends-bind {Q = λ _ t. Secured b t} (waiting linux_client wait) _ s2
              (record { holds = waited b wait quiet s2 h2 })
              (λ v s3 h3.
                Ends-bind (mapped returned linux_client.disconnect) _ s3
                  (Ends-mapped returned (Connection.disconnect s3) (disconnect-IsDown b s3 h3))
                  (λ x s4 h4. released-IsFinished b s4 h4))))
