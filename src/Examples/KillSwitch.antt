-- ===== src/Examples/KillSwitch.antt =====
-- The kill switch of core/killswitch/src/lib.rs at concrete inputs.
use cyberia_vpn.Prelude.{◌≡◌, refl, ◌⊎◌, true, false, none, some, [], ◌∷◌, Result, ok, err, arith}
use cyberia_vpn.Exec.{Ends}
use cyberia_vpn.Text.{is_ascii_alphanumeric}
use cyberia_vpn.Transport.Types.{
  TransportConfig, ConnectContext, Session, wire_guard, timed_out, unavailable,
}
use cyberia_vpn.Transport.Platform.{World}
use cyberia_vpn.KillSwitch.Machine.{
  TrafficPolicy, disabled, block_non_tunnel, tunnel_only, KillSwitch, is_disabled, valid_interface,
  tunnel_lost,
}
use cyberia_vpn.KillSwitch.Machine
use cyberia_vpn.KillSwitch.Machine.Reach.{disables}
use cyberia_vpn.KillSwitch.Controller.{
  Transport, Firewall, FirewallError, firewall_error, Controlled, connect, accept_tunnel,
  accept_policy, give_up, apply, disconnect, disable, new,
}
use cyberia_vpn.KillSwitch.Controller.Contract.{Obeys, Inv, Unchanged, Connected, Refused}
use cyberia_vpn.KillSwitch.Controller.Connect.{connect-Ends, FailedSafe}
use cyberia_vpn.KillSwitch.Controller.Teardown.{
  disconnect-Ends, disable-Ends, TornDown, TearDownFailed, Released,
}
use cyberia_vpn.KillSwitch.Controller.History.Stance.{Reaches, stance, run-Reaches}
use cyberia_vpn.KillSwitch.Controller.History.{history_safe, connects, disconnects, disables, run}

abbrev pub idle_world : World
idle_world = record {
  step = 0;
  instants = λ n. n;
  unix_seconds = λ n. n;
  flags = λ n token. false;
  files = λ n path. err (record { raw_os_error = some 2; would_block = false; shown = [] });
  opens = λ n mode path. err (record { raw_os_error = some 2; would_block = false; shown = [] });
  debug_text = λ t. t;
  replies = λ n c. ok [];
  trace = [];
}

-- A firewall that refuses every tunnel policy, and holds the last policy that it took.
abbrev strict_apply :
    TrafficPolicy
    → TrafficPolicy × World
    → Result FirewallError (Unit {0}) × (TrafficPolicy × World)
strict_apply (tunnel_only i) s = (err (firewall_error []), s)
strict_apply disabled (p, w) = (ok tt, (disabled, w))
strict_apply block_non_tunnel (p, w) = (ok tt, (block_non_tunnel, w))

abbrev strict_firewall : Firewall TrafficPolicy
strict_firewall = record { apply = strict_apply }

abbrev wg0_session : Session
wg0_session = record { id = b'w' ∷ b'g' ∷ b'0' ∷ []; transport = wire_guard; established_at = 7 }

-- A transport that connects and cannot be torn down.
abbrev stuck_transport : Transport (Unit {0})
stuck_transport = record {
  kind = λ t. wire_guard;
  connect = λ config context s. (ok wg0_session, s);
  disconnect = λ s. (err timed_out, s);
  health =
      λ s. (record { status = unavailable; round_trip_time = none; consecutive_failures = 0 }, s);
}

strict_applied :
    (policy : TrafficPolicy) (fw : TrafficPolicy) (w : World)
    → (strict_apply policy (fw, w)).0 ≡ ok tt
    → (strict_apply policy (fw, w)).1.0 ≡ policy
strict_applied (tunnel_only i) fw w h = cc
strict_applied disabled fw w h = refl
strict_applied block_non_tunnel fw w h = refl

strict_refused :
    (policy : TrafficPolicy) (fw : TrafficPolicy) (w : World) (e : FirewallError)
    → (strict_apply policy (fw, w)).0 ≡ err e
    → (strict_apply policy (fw, w)).1.0 ≡ fw
strict_refused (tunnel_only i) fw w e h = refl
strict_refused disabled fw w e h = cc
strict_refused block_non_tunnel fw w e h = cc

abbrev strict_obeys : Obeys stuck_transport strict_firewall
strict_obeys = record {
  effective = λ fw w. fw;
  applied = strict_applied;
  refused = strict_refused;
  connects = λ fw config context s. refl;
  disconnects = λ fw s. refl;
}

abbrev config : TransportConfig
config = record {
  kind = wire_guard;
  endpoint = record { host = []; port = 1 };
  connect_timeout = 5;
}

abbrev context : ConnectContext
context = record { deadline = 100; cancellation = 0 }

abbrev armed : Controlled (Unit {0}) TrafficPolicy
armed = (
  record {
    kill_switch = record { always_on = true; policy = block_non_tunnel };
    transport = tt;
    firewall = block_non_tunnel;
    transport_may_be_active = false;
  },
  idle_world,
)

connect-Ends_example :
    Ends
      (Connected stuck_transport strict_firewall strict_obeys armed)
      (FailedSafe stuck_transport strict_firewall strict_obeys armed)
      (connect stuck_transport strict_firewall config context armed)
connect-Ends_example =
    connect-Ends stuck_transport strict_firewall strict_obeys config context armed

disconnect-Ends_example :
    Ends
      (λ _. TornDown stuck_transport strict_firewall strict_obeys armed)
      (λ e s'.
        Refused stuck_transport strict_firewall strict_obeys
          (tunnel_lost armed.0.kill_switch).policy
          armed
          e
          s'
        ⊎ TearDownFailed stuck_transport strict_firewall strict_obeys armed e s')
      (disconnect stuck_transport strict_firewall armed)
disconnect-Ends_example = disconnect-Ends stuck_transport strict_firewall strict_obeys armed

disable-Ends_example :
    Ends
      (λ _. Released stuck_transport strict_firewall strict_obeys armed)
      (λ _. Unchanged stuck_transport strict_firewall strict_obeys armed)
      (disable stuck_transport strict_firewall armed)
disable-Ends_example = disable-Ends stuck_transport strict_firewall strict_obeys armed

history_safe_example :
    let s =
      run stuck_transport strict_firewall strict_obeys
        (connects config context ∷ disconnects ∷ disables ∷ [])
        armed in
    Inv stuck_transport strict_firewall strict_obeys s × (s.0.kill_switch.always_on ≡ true)
unfolding new Machine.new
history_safe_example =
    history_safe stuck_transport strict_firewall strict_obeys true tt block_non_tunnel idle_world
      armed.0 (connects config context ∷ disconnects ∷ disables ∷ []) refl

run-Reaches_example : Reaches true (stance stuck_transport strict_firewall strict_obeys armed) (
    stance stuck_transport strict_firewall strict_obeys (
      run stuck_transport strict_firewall strict_obeys
        (connects config context ∷ disconnects ∷ [])
        armed))
run-Reaches_example =
    run-Reaches stuck_transport strict_firewall strict_obeys
      (connects config context ∷ disconnects ∷ []) armed
      (record { effective = refl; armed = λ e. refl; owned = λ e. absurd (ground arith) })

-- The tunnel policy is refused and the transport cannot be torn down: blocking stays.
connect_refused_test :
    let r = connect stuck_transport strict_firewall config context armed in
    (r.1.0.kill_switch.policy ≡ block_non_tunnel) × (r.1.0.transport_may_be_active ≡ true)
unfolding connect accept_tunnel accept_policy give_up apply Machine.enable
    Machine.tunnel_established Machine.valid_interface Machine.is_interface_byte
    is_ascii_alphanumeric
connect_refused_test = (refl, refl)
