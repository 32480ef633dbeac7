-- ===== src/Linux/Backend/Setup.antt =====
-- `bring_up` of the `LinuxWireGuardBackend` in core/transport/src/linux.rs: the policy rules that it
-- installs, and what it leaves behind when it fails.
use cyberia_vpn.Prelude.{
  ℕ, ◌≡◌, refl, sym, ap, subst, ◌∙◌, inl, inr, Bool, false, none, List, [], ◌∷◌, ◌==◌,
  if◌then◌else◌, Bool-cases, Option-cases, Result, ok, err, is_ok,
}
use cyberia_vpn.Exec.{Ends, Ends-bind, Ends-weaken, Ends-both}
use cyberia_vpn.Text.{Text, lit}
use cyberia_vpn.Transport.Types.{TransportError, ConnectContext}
use cyberia_vpn.Transport.Platform.{World, Event}
use cyberia_vpn.Transport.Calls.{ran, command-trace, check-trace, Ends-world}
use cyberia_vpn.Transport.Context.{check}
use cyberia_vpn.WireGuard.Profile.{AllowedIp, WireGuardConfig}
use cyberia_vpn.Linux.Tools.{LinuxTools}
use cyberia_vpn.Linux.Commands.{
  PolicyRule, not_firewall_mark, suppress_default, AddressFamily, create_interface,
  delete_interface, replace_default_route, add_mark_rule, add_suppress_rule, configure,
  install_default, install_route, install_routes, family_of, remove_policy_rules,
}
use cyberia_vpn.Linux.Backend.{
  LinuxWireGuardBackend, rollback_setup, set_up, settle, build, activated, bring_up,
}

-- The rules of the default routes among the networks, on top of those that are there; the last one
-- first.
pub rules_after : List AllowedIp → List PolicyRule → List PolicyRule
rules_after [] rules = rules
rules_after (n ∷ ns) rules = rules_after ns (
    if n.prefix_length == 0
    then suppress_default (family_of n) ∷ not_firewall_mark (family_of n) ∷ rules
    else rules)

module _ (tools : LinuxTools) (mark : ℕ) where
  abbrev Anything : TransportError → List PolicyRule × World → Type 0
  Anything e s = Unit {0}

  abbrev HasRules : List PolicyRule → Unit {0} → List PolicyRule × World → Type 0
  HasRules rules u s = s.0 ≡ rules

  install_default-rules :
      (interface : Text) (family : AddressFamily) (rules : List PolicyRule) (w : World)
      → Ends
          (HasRules (suppress_default family ∷ not_firewall_mark family ∷ rules))
          Anything
          (install_default tools mark interface family (rules, w))
  unfolding install_default
  install_default-rules interface family rules w =
      Ends-world (replace_default_route tools mark interface family) _ rules w (λ e q. tt)
        λ a p.
          Ends-world (add_mark_rule tools mark family) _ rules _ (λ e q. tt)
            λ b q.
              Ends-world (add_suppress_rule tools mark family) _ (not_firewall_mark family ∷ rules)
                _ (λ e q. tt) λ c r. record { holds = refl }

  install_route-rules :
      (interface : Text) (context : ConnectContext) (n : AllowedIp) (rules : List PolicyRule)
      (w : World)
      → Ends
          (HasRules (
            if n.prefix_length == 0
            then suppress_default (family_of n) ∷ not_firewall_mark (family_of n) ∷ rules
            else rules))
          Anything
          (install_route tools mark interface context n (rules, w))
  unfolding install_route
  install_route-rules interface context n rules w =
      Ends-world (check context) _ rules w (λ e q. tt)
        λ a p. elim (Bool-cases (n.prefix_length == 0)) [
          | inl e ↦ rw e (install_default-rules interface (family_of n) rules _)
          | inr e ↦ rw e (Ends-both _ _ (λ u. refl) (λ x. tt))
        ]

  install_routes-rules :
      (interface : Text) (context : ConnectContext) (ns : List AllowedIp)
      (s : List PolicyRule × World)
      → Ends
          (HasRules (rules_after ns s.0))
          Anything
          (install_routes tools mark interface context ns s)
  unfolding install_routes rules_after
  install_routes-rules interface context [] s = record { holds = refl }
  install_routes-rules interface context (n ∷ ns) s =
      Ends-bind (install_route tools mark interface context n) _ s
        (install_route-rules interface context n s.0 s.1)
        λ u s1 e.
          subst
            (λ (r : List PolicyRule).
              Ends (HasRules (rules_after ns r)) Anything
                (install_routes tools mark interface context ns s1))
            e (install_routes-rules interface context ns s1)

  set_up-rules :
      (interface : Text) (profile : WireGuardConfig) (context : ConnectContext) (w : World)
      → Ends
          (HasRules (rules_after profile.allowed_ips []))
          Anything
          (set_up tools mark interface profile context w)
  unfolding set_up
  set_up-rules interface profile context w =
      Ends-world (configure tools mark interface profile context) _ [] w (λ e q. tt)
        λ a p. install_routes-rules interface context profile.allowed_ips ([], _)

-- The call that takes the interface away again.
abbrev pub deletion : LinuxTools → Text → Bool → Event
deletion tools interface success =
    ran tools.ip (lit "link" ∷ lit "delete" ∷ lit "dev" ∷ interface ∷ []) success

abbrev creation : LinuxTools → Text → Bool → Event
creation tools interface success =
    ran tools.ip
      (lit "link" ∷ lit "add" ∷ lit "dev" ∷ interface ∷ lit "type" ∷ lit "wireguard" ∷ []) success

-- How a failed `bring_up` ends: no interface was created, or the attempt to delete it was made last.
pub data Undone (tools : LinuxTools) (interface : Text) (before : List Event)
    : List Event → Type 0 where
  nothing_called : Undone tools interface before before
  not_created : Undone tools interface before (creation tools interface false ∷ before)
  deleted :
      (success : Bool) (rest : List Event)
      → Undone tools interface before (deletion tools interface success ∷ rest)

rollback-Undone :
    (tools : LinuxTools) (mark : ℕ) (interface : Text) (rules : List PolicyRule)
    (e : TransportError) (w : World) (before : List Event)
    → Undone tools interface before (rollback_setup tools mark interface rules e w).1.trace
unfolding rollback_setup delete_interface
rollback-Undone tools mark interface rules e w before =
    let r = remove_policy_rules tools mark rules w in
    subst (Undone tools interface before)
      (sym (command-trace tools.ip (lit "link" ∷ lit "delete" ∷ lit "dev" ∷ interface ∷ []) r.1.1))
      (deleted _ _)

creation-Undone :
    (tools : LinuxTools) (interface : Text) (w : World) (before : List Event) {e : TransportError}
    → w.trace ≡ before
    → (create_interface tools interface w).0 ≡ err e
    → Undone tools interface before (create_interface tools interface w).1.trace
unfolding create_interface
creation-Undone tools interface w before same h =
    let made =
      command-trace tools.ip
        (lit "link" ∷ lit "add" ∷ lit "dev" ∷ interface ∷ lit "type" ∷ lit "wireguard" ∷ []) w in
    subst (Undone tools interface before)
      (sym (
        made
        ∙ ap (λ r. creation tools interface (is_ok r) ∷ w.trace) h
        ∙ ap (λ t. creation tools interface false ∷ t) same))
      not_created

module _ (interface : Text) (profile : WireGuardConfig) (context : ConnectContext) where
  -- The tunnel is up: the object owns the interface and the rules of the default routes.
  pub record IsUp (b b' : LinuxWireGuardBackend) : Type 0 where
    pub was_down : b.active_interface ≡ none
    pub owns : b' ≡ activated b interface (rules_after profile.allowed_ips [])

  pub record IsDown (b : LinuxWireGuardBackend) (before : List Event)
      (s : LinuxWireGuardBackend × World) : Type 0 where
    pub unchanged : s.0 ≡ b
    pub undone : Undone b.tools interface before s.1.trace

  settle-Ends :
      (b : LinuxWireGuardBackend) (before : List Event)
      (r : Result TransportError (Unit {0}) × (List PolicyRule × World))
      → Ends
          (HasRules b.tools b.routing_mark (rules_after profile.allowed_ips []))
          (Anything b.tools b.routing_mark)
          r
      → Ends
          (λ _ s. s.0 ≡ activated b interface (rules_after profile.allowed_ips []))
          (λ _. IsDown b before)
          (settle b interface r)
  unfolding settle
  settle-Ends b before (ok u, (rules, w)) h = record { holds = ap (activated b interface) h.holds }
  settle-Ends b before (err e, (rules, w)) h = record {
    holds = record {
      unchanged = refl;
      undone = rollback-Undone b.tools b.routing_mark interface rules e w before;
    };
  }

  -- Bringing the interface up ends in one of two ways: no interface was owned before, and the object
  -- owns the interface and exactly the policy rules of the default routes among the allowed addresses;
  -- or there is an error, the object is as it was, and no interface was created by the calls, or the
  -- last of them was the attempt to delete it.
  pub bring_up-Ends :
      (b : LinuxWireGuardBackend) (w : World)
      → Ends (λ _ s. IsUp b s.0) (λ _. IsDown b w.trace) (bring_up interface profile context (b, w))
  unfolding bring_up build
  bring_up-Ends b w = elim (Option-cases b.active_interface) [
    | inr (i, e) ↦ simp e (record { holds = record { unchanged = refl; undone = nothing_called } })
    | inl e ↦ simp e (
        Ends-world (check context) _ b w
          (λ x q. record {
            unchanged = refl;
            undone =
                subst (Undone b.tools interface w.trace) (sym (check-trace context w))
                  nothing_called;
          })
          λ u q.
            Ends-world (create_interface b.tools interface) _ b _
              (λ x r. record {
                unchanged = refl;
                undone = creation-Undone b.tools interface _ w.trace (check-trace context w) r;
              })
              λ v r.
                Ends-weaken _
                  (settle-Ends b w.trace _
                    (set_up-rules b.tools b.routing_mark interface profile context _))
                  (λ a s h. record { was_down = e; owns = h }) (λ x s h. h))
  ]
