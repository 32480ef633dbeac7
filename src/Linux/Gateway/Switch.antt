-- ===== src/Linux/Gateway/Switch.antt =====
-- `LinuxWireGuardNodeGateway` of core/transport/src/linux.rs: its state follows the calls that succeed.
use cyberia_vpn.Prelude.{
  ◌≡◌, refl, ap, ◌∙◌, inl, inr, true, false, not, ◌||◌, List, [], ◌∷◌, ◌++◌, Bool-cases,
  Result-cases, ok, is_ok, Result,
}
use cyberia_vpn.Exec.{Ends}
use cyberia_vpn.Text.{Text, lit, text_eq}
use cyberia_vpn.Transport.Types.{ConnectContext}
use cyberia_vpn.Transport.Platform.{World, Event}
use cyberia_vpn.Transport.Calls.{fed, feed-trace, Ends-world, Fruitless, none_called, one_failed}
use cyberia_vpn.Transport.Context.{check}
use cyberia_vpn.WireGuard.Profile.{WireGuardNodeGatewayPolicy}
use cyberia_vpn.WireGuard.Validate.{validate_gateway}
use cyberia_vpn.Linux.Tools.{valid_interface}
use cyberia_vpn.Linux.Gateway.{
  LinuxWireGuardNodeGateway, forwarding_keys, check_forwarding, load_rules, node_gateway_rules,
  enable, disable, newline, TransportError,
}

abbrev pub load : LinuxWireGuardNodeGateway → Text → Event
load g rules = fed g.tools.nft (lit "--file" ∷ lit "-" ∷ []) rules true

-- The gateway is switched on: its ruleset was the last call, and it was accepted.
pub record SwitchedOn (wireguard_interface uplink_interface : Text)
    (policy : WireGuardNodeGatewayPolicy) (g : LinuxWireGuardNodeGateway)
    (s : LinuxWireGuardNodeGateway × World) : Type 0 where
  pub was_off : g.active ≡ false
  pub is_on : s.0 ≡ record g { active = true }
  pub accepted : validate_gateway policy ≡ ok tt
  pub rest : List Event
  pub loaded :
      s.1.trace ≡ load g (node_gateway_rules wireguard_interface uplink_interface policy) ∷ rest

loaded-trace :
    (g : LinuxWireGuardNodeGateway) (rules : Text) (w : World)
    {r : Result TransportError (Unit {0})}
    → (load_rules g.tools rules w).0 ≡ r
    → (load_rules g.tools rules w).1.trace
      ≡ fed g.tools.nft (lit "--file" ∷ lit "-" ∷ []) rules (is_ok r) ∷ w.trace
unfolding load_rules
loaded-trace g rules w e =
    feed-trace g.tools.nft (lit "--file" ∷ lit "-" ∷ []) rules w
    ∙ ap (λ r. fed g.tools.nft (lit "--file" ∷ lit "-" ∷ []) rules (is_ok r) ∷ w.trace) e

-- Enabling the gateway ends in one of two ways: it was off, the policy is valid, the last call loaded
-- exactly the rules of the policy with success, and the gateway is on; or there is an error and the
-- gateway object is as it was.
pub enable-Ends :
    (wireguard_interface uplink_interface : Text) (policy : WireGuardNodeGatewayPolicy)
    (context : ConnectContext) (g : LinuxWireGuardNodeGateway) (w : World)
    → Ends
        (λ _. SwitchedOn wireguard_interface uplink_interface policy g)
        (λ _ s. s.0 ≡ g)
        (enable wireguard_interface uplink_interface policy context (g, w))
unfolding enable
enable-Ends a b policy context g w = elim (Bool-cases g.active) [
  | inl on ↦ simp on (record { holds = refl })
  | inr off ↦
      elim (Bool-cases (not (valid_interface a) || not (valid_interface b) || text_eq a b)) [
        | inl bad ↦ simp (off, bad) (record { holds = refl })
        | inr good ↦ elim (Result-cases (validate_gateway policy)) [
          | inr (x, e) ↦ simp (off, good, e) (record { holds = refl })
          | inl (u, e) ↦
              simp (off, good, e)
                (Ends-world (check context) _ g w (λ x q. refl)
                  λ v p.
                    Ends-world (check_forwarding g.tools (forwarding_keys policy)) _ g _
                      (λ x q. refl)
                      λ v p.
                        Ends-world (check context) _ g _ (λ x q. refl)
                          λ v p.
                            Ends-world (load_rules g.tools (node_gateway_rules a b policy)) _ g _
                              (λ x q. refl)
                              λ v p. record {
                                holds = record {
                                  was_off = off;
                                  is_on = refl;
                                  accepted = e;
                                  rest = _;
                                  loaded = loaded-trace g (node_gateway_rules a b policy) _ p;
                                };
                              })
        ]
      ]
]

-- The call that removes the rules.
abbrev pub unload : LinuxWireGuardNodeGateway → Event
unload g = load g (lit "delete table inet cyberia_vpn_node" ++ newline)

-- Disabling it ends with the gateway, which was on, switched off, and its rules removed by the only call; or
-- with an error, the gateway object as it was, and no successful call.
pub disable-Ends :
    (g : LinuxWireGuardNodeGateway) (w : World)
    → Ends
        (λ _ s.
          (g.active ≡ true)
          × (s.0 ≡ record g { active = false })
          × (s.1.trace ≡ unload g ∷ w.trace))
        (λ _ s. (s.0 ≡ g) × Fruitless w.trace s.1.trace)
        (disable (g, w))
unfolding disable
disable-Ends g w = elim (Bool-cases g.active) [
  | inr off ↦ simp off (record { holds = (refl, none_called w.trace) })
  | inl on ↦
      let rules = lit "delete table inet cyberia_vpn_node" ++ newline in
      simp on (
        Ends-world (load_rules g.tools rules) _ g w
          (λ x q. (refl, one_failed _ _ _ refl (loaded-trace g rules w q)))
          λ v p. record { holds = (refl, refl, loaded-trace g rules w p) })
]
