-- ===== src/KillSwitch/Nftables/Effect.antt =====
-- `NftablesBackend` of core/killswitch/src/linux.rs as the firewall of the controller: it keeps the contract
-- of the trait `Firewall`, beside a transport that never runs nftables.
use cyberia_vpn.Prelude.{◌≡◌, refl, inl, inr, Option, none, some, Result-cases, ap}
use cyberia_vpn.Text.{Text}
use cyberia_vpn.Transport.Platform.{World, nft, call}
use cyberia_vpn.Exec.{Ends}
use cyberia_vpn.KillSwitch.Machine.{TrafficPolicy, disabled}
use cyberia_vpn.KillSwitch.Nftables.{
  NftablesConfig, NftablesBackend, render, run_nft, apply, nftables_firewall,
}
use cyberia_vpn.KillSwitch.Nftables.Ruleset.{policy_of, policy_of-render, loaded}

abbrev or_disabled : Option TrafficPolicy → TrafficPolicy
or_disabled none = disabled
or_disabled (some policy) = policy

abbrev pub ruleset_policy : NftablesConfig → Option Text → TrafficPolicy
ruleset_policy config none = disabled
ruleset_policy config (some rules) = or_disabled (policy_of config rules)

-- The policy of the ruleset that nftables has; nothing is filtered before the first one.
abbrev pub effective_policy : NftablesBackend → World → TrafficPolicy
effective_policy b w = ruleset_policy b.config (loaded w.trace)

-- A policy is put in effect, or the ruleset is the one that there was.
pub nftables_apply-Ends :
    (policy : TrafficPolicy) (b : NftablesBackend) (w : World)
    → Ends
        (λ _ s. effective_policy s.0 s.1 ≡ policy)
        (λ _ s. (s.0 ≡ b) × (loaded s.1.trace ≡ loaded w.trace))
        (nftables_firewall.apply policy (b, w))
unfolding nftables_firewall apply run_nft call loaded
nftables_apply-Ends policy b w = elim (Result-cases (render b.config policy)) [
  | inr (x, e) ↦ rw e (record { holds = (refl, refl) })
  | inl (rules, e) ↦ elim (Result-cases (w.replies w.step (nft rules))) [
    | inl (t, q) ↦
        rw (e, q) (record { holds = ap or_disabled (policy_of-render b.config policy rules e) })
    | inr (x, q) ↦ rw (e, q) (record { holds = (refl, refl) })
  ]
]
