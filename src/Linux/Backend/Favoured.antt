-- ===== src/Linux/Backend/Favoured.antt =====
-- `LinuxWireGuardBackend` of core/transport/src/linux.rs on a platform that hinders nothing.
use cyberia_vpn.Prelude.{
  ℕ, ◌≡◌, refl, inl, inr, true, Option, none, some, List, [], ◌∷◌, ◌==◌, Bool-cases, Result, ok,
  err,
}
use cyberia_vpn.Text.{text_eq_iff, Text}
use cyberia_vpn.Linux.Commands.{
  delete_interface, remove_policy_rule, remove_policy_rules, rule_arguments, AddressFamily,
  PolicyRule, add_addresses, create_interface, replace_default_route, add_mark_rule,
  add_suppress_rule, install_default, install_route, install_routes, family_of,
}
use cyberia_vpn.Linux.Backend.{
  bring_down, remove_active_rules, is_active, LinuxWireGuardBackend, set_up, settle, build,
  bring_up,
}
use cyberia_vpn.Exec.{Exec, Ends, Ends-bind}
use cyberia_vpn.Transport.Types.{TransportError, ConnectContext}
use cyberia_vpn.Transport.Platform.{World, command, on_world}
use cyberia_vpn.Transport.Context.{check}
use cyberia_vpn.Transport.Favoured.{
  Favours, Goes, Goes-pure, Goes-then, Goes-command, Goes-check, Goes-on_world,
}
use cyberia_vpn.WireGuard.Profile.{AllowedIp, TunnelAddress, WireGuardConfig}
use cyberia_vpn.Linux.Tools.{LinuxTools}
use cyberia_vpn.Linux.Commands

module _ (tools : LinuxTools) (interface : Text) (context : ConnectContext) where
  abbrev deadline : ℕ
  deadline = context.deadline

  addresses-Goes :
      (addresses : List TunnelAddress)
      → Goes deadline (add_addresses tools interface context addresses)
  unfolding add_addresses
  addresses-Goes [] = Goes-pure deadline
  addresses-Goes (a ∷ rest) = Goes-then deadline (check context) _ (Goes-check context) (
      Goes-then deadline (command tools.ip _) _ (Goes-command deadline tools.ip _)
        (addresses-Goes rest))

  configure-Goes :
      (mark : ℕ) (profile : WireGuardConfig)
      → Goes deadline (Commands.configure tools mark interface profile context)
  unfolding Commands.configure
  configure-Goes mark profile = Goes-then deadline (check context) _ (Goes-check context) (
      Goes-then deadline (command tools.wg _) _ (Goes-command deadline tools.wg _) (
        Goes-then deadline (add_addresses tools interface context profile.tunnel_addresses) _
          (addresses-Goes profile.tunnel_addresses)
          (Goes-then deadline (check context) _ (Goes-check context)
            (Goes-command deadline tools.ip _))))

  abbrev Installed : Unit {0} → List PolicyRule × World → Type 0
  Installed u s = Favours deadline s.1

  default-Ends :
      (mark : ℕ) (family : AddressFamily) (rules : List PolicyRule) (w : World)
      → Favours deadline w
      → Ends Installed (λ _ _. ⊥) (install_default tools mark interface family (rules, w))
  unfolding install_default replace_default_route add_mark_rule add_suppress_rule
  default-Ends mark family rules w h =
      Goes-on_world deadline (replace_default_route tools mark interface family) _ rules w
        (Goes-command deadline tools.ip _) h
        (λ w1 h1.
          Goes-on_world deadline (add_mark_rule tools mark family) _ rules w1
            (Goes-command deadline tools.ip _) h1
            (λ w2 h2.
              Goes-on_world deadline (add_suppress_rule tools mark family) _ _ w2
                (Goes-command deadline tools.ip _) h2 (λ w3 h3. record { holds = h3 })))

  alone :
      (m : Exec TransportError World (Unit {0})) (rules : List PolicyRule) (w : World)
      → Goes deadline m
      → Favours deadline w
      → Ends Installed (λ _ _. ⊥) (on_world m (rules, w))
  alone m rules w g h = let (e, q) = g.holds w h in rw e (record { holds = q })

  route-Ends :
      (mark : ℕ) (n : AllowedIp) (rules : List PolicyRule) (w : World)
      → Favours deadline w
      → Ends Installed (λ _ _. ⊥) (install_route tools mark interface context n (rules, w))
  unfolding install_route
  route-Ends mark n rules w h =
      Goes-on_world deadline (check context) _ rules w (Goes-check context) h (λ w1 h1.
        elim (Bool-cases (n.prefix_length == 0)) [
          | inl e ↦ rw e (default-Ends mark (family_of n) rules w1 h1)
          | inr e ↦ rw e (alone (command tools.ip _) rules w1 (Goes-command deadline tools.ip _) h1)
        ])

  routes-Ends :
      (mark : ℕ) (ns : List AllowedIp) (rules : List PolicyRule) (w : World)
      → Favours deadline w
      → Ends Installed (λ _ _. ⊥) (install_routes tools mark interface context ns (rules, w))
  unfolding install_routes
  routes-Ends mark [] rules w h = record { holds = h }
  routes-Ends mark (n ∷ rest) rules w h =
      Ends-bind (install_route tools mark interface context n) _ (rules, w)
        (route-Ends mark n rules w h) (λ u s k. routes-Ends mark rest s.0 s.1 k)

  set_up-Ends :
      (mark : ℕ) (profile : WireGuardConfig) (w : World)
      → Favours deadline w
      → Ends Installed (λ _ _. ⊥) (set_up tools mark interface profile context w)
  unfolding set_up
  set_up-Ends mark profile w h =
      Goes-on_world deadline (Commands.configure tools mark interface profile context) _ [] w
        (configure-Goes mark profile) h (λ w1 h1. routes-Ends mark profile.allowed_ips [] w1 h1)

-- The interface is up, on a platform that still hinders nothing.
abbrev pub IsUp : ℕ → Text → LinuxWireGuardBackend × World → Type 0
IsUp limit interface s = (s.0.active_interface ≡ some interface) × Favours limit s.1

settled :
    (limit : ℕ) (b : LinuxWireGuardBackend) (interface : Text)
    (r : Result TransportError (Unit {0}) × (List PolicyRule × World))
    → Ends (λ _ s. Favours limit s.1) (λ _ _. ⊥) r
    → Ends (λ _ s. IsUp limit interface s) (λ _ _. ⊥) (settle b interface r)
unfolding settle
settled limit b interface (ok u, s) h = record { holds = (refl, h.holds) }
settled limit b interface (err e, s) h = absurd h.holds

pub bring_up-IsUp :
    (interface : Text) (profile : WireGuardConfig) (context : ConnectContext)
    (b : LinuxWireGuardBackend) (w : World)
    → b.active_interface ≡ none
    → Favours context.deadline w
    → Ends
        (λ _ s. IsUp context.deadline interface s)
        (λ _ _. ⊥)
        (bring_up interface profile context (b, w))
unfolding bring_up build create_interface
bring_up-IsUp interface profile context b w e h = simp e (
    Goes-on_world context.deadline (check context) _ b w (Goes-check context) h (λ w1 h1.
      Goes-on_world context.deadline (create_interface b.tools interface) _ b w1
        (Goes-command context.deadline b.tools.ip _) h1
        (λ w2 h2.
          settled context.deadline b interface
            (set_up b.tools b.routing_mark interface profile context w2)
            (set_up-Ends b.tools interface context b.routing_mark profile w2 h2))))

removed :
    (tools : LinuxTools) (mark limit : ℕ) (rules : List PolicyRule) (w : World)
    → Favours limit w
    → Ends (λ _ s. Favours limit s.1) (λ _ _. ⊥) (remove_policy_rules tools mark rules w)
unfolding remove_policy_rules remove_policy_rule command cyberia_vpn.Transport.Platform.call
removed tools mark limit [] w h = record { holds = h }
removed tools mark limit (rule ∷ rules) w h =
    let (e, k) = (Goes-command limit tools.ip (rule_arguments tools mark rule)).holds w h in
    rw e (removed tools mark limit rules (command tools.ip (rule_arguments tools mark rule) w).1 k)

rules_removed :
    (limit : ℕ) (b : LinuxWireGuardBackend) (w : World)
    → Favours limit w
    → Ends
        (λ _ s. (s.0.active_interface ≡ b.active_interface) × Favours limit s.1)
        (λ _ _. ⊥)
        (remove_active_rules (b, w))
unfolding remove_active_rules
rules_removed limit b w h =
    kept (remove_policy_rules b.tools b.routing_mark b.active_rules w)
      (removed b.tools b.routing_mark limit b.active_rules w h)
  where
    kept :
        (r : Result TransportError (Unit {0}) × (List PolicyRule × World))
        → Ends (λ _ s. Favours limit s.1) (λ _ _. ⊥) r
        → Ends {S = LinuxWireGuardBackend × World}
            (λ _ s. (s.0.active_interface ≡ b.active_interface) × Favours limit s.1)
            (λ _ _. ⊥)
            (r.0, (record b { active_rules = r.1.0 }, r.1.1))
    kept (ok u, s) q = record { holds = (refl, q.holds) }
    kept (err x, s) q = absurd q.holds

pub is_active-some :
    (active : Option Text) (interface : Text)
    → active ≡ some interface
    → is_active active interface ≡ true
is_active-some active interface e = rw e ((text_eq_iff interface interface).1 refl)

pub bring_down-Goes :
    (interface : Text) (limit : ℕ) (b : LinuxWireGuardBackend) (w : World)
    → b.active_interface ≡ some interface
    → Favours limit w
    → Ends (λ _ s. Favours limit s.1) (λ _ _. ⊥) (bring_down interface (b, w))
unfolding bring_down delete_interface
bring_down-Goes interface limit b w e h = simp (is_active-some b.active_interface interface e) (
    Ends-bind remove_active_rules _ (b, w) (rules_removed limit b w h)
      (λ u s k.
        Goes-on_world limit (delete_interface b.tools interface) _ s.0 s.1
          (Goes-command limit b.tools.ip _) k.1 (λ v q. record { holds = q })))
