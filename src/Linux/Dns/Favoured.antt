-- ===== src/Linux/Dns/Favoured.antt =====
-- `LinuxDnsBackend` of core/transport/src/linux.rs on a platform that hinders nothing.
use cyberia_vpn.Prelude.{ℕ, ◌≡◌, refl, true, none, some, ok}
use cyberia_vpn.Exec.{Ends}
use cyberia_vpn.Text.{Text}
use cyberia_vpn.Transport.Types.{ConnectContext}
use cyberia_vpn.Transport.Platform.{World, command}
use cyberia_vpn.Transport.Context.{check}
use cyberia_vpn.Transport.Dns
use cyberia_vpn.Transport.Dns.{DnsConfig}
use cyberia_vpn.Transport.Favoured.{
  Favours, Goes, Goes-then, Goes-command, Goes-check, Goes-on_world,
}
use cyberia_vpn.Linux.Tools.{LinuxDnsTools, valid_interface}
use cyberia_vpn.Linux.Backend.Favoured.{is_active-some}
use cyberia_vpn.Linux.Dns.{
  LinuxDnsBackend, set_up_dns, after_setup, configure, revert, revert_interface,
}

set_up-Goes :
    (tools : LinuxDnsTools) (interface : Text) (config : DnsConfig) (context : ConnectContext)
    → Goes context.deadline (set_up_dns tools interface config context)
unfolding set_up_dns
set_up-Goes tools interface config context =
    let run = Goes-command context.deadline tools.resolvectl in
    Goes-then context.deadline (command tools.resolvectl _) _ (run _) (
      Goes-then context.deadline (check context) _ (Goes-check context) (
        Goes-then context.deadline (command tools.resolvectl _) _ (run _)
          (Goes-then context.deadline (check context) _ (Goes-check context) (run _))))

-- The resolvers of an interface are set.
abbrev pub IsOwned : ℕ → Text → LinuxDnsBackend × World → Type 0
IsOwned deadline interface s = (s.0.active_interface ≡ some interface) × Favours deadline s.1

pub configure-IsOwned :
    (interface : Text) (config : DnsConfig) (context : ConnectContext) (d : LinuxDnsBackend)
    (w : World)
    → d.active_interface ≡ none
    → valid_interface interface ≡ true
    → Dns.validate config ≡ ok tt
    → Favours context.deadline w
    → Ends
        (λ _ s. IsOwned context.deadline interface s)
        (λ _ _. ⊥)
        (configure interface config context (d, w))
unfolding configure after_setup
configure-IsOwned interface config context d w free named valid h =
    simp (free, named, valid)
      (Goes-on_world context.deadline (check context) _ d w (Goes-check context) h (λ w1 h1.
        let (e, h2) = (set_up-Goes d.tools interface config context).holds w1 h1 in
        rw e (record { holds = (refl, h2) })))

pub revert-Goes :
    (interface : Text) (limit : ℕ) (d : LinuxDnsBackend) (w : World)
    → d.active_interface ≡ some interface
    → Favours limit w
    → Ends
        (λ _ s. (s.0.active_interface ≡ none) × Favours limit s.1)
        (λ _ _. ⊥)
        (revert interface (d, w))
unfolding revert revert_interface
revert-Goes interface limit d w e h = simp (is_active-some d.active_interface interface e) (
    Goes-on_world limit (revert_interface d.tools interface) _ d w
      (Goes-command limit d.tools.resolvectl _) h (λ v q. record { holds = (refl, q) }))
