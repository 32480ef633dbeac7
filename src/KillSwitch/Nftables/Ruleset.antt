-- ===== src/KillSwitch/Nftables/Ruleset.antt =====
-- The rulesets of core/killswitch/src/linux.rs: a ruleset says which policy it was rendered from, and
-- which ruleset is in effect after the calls that were made.
use mathlib.Core.List.{append_assoc, append-nil}
use cyberia_vpn.Prelude.{
  ℕ, ◌≡◌, refl, sym, ap, subst, inl, inr, Bool, true, false, List, [], ◌∷◌, ◌++◌, Option, none,
  some, all, ◌==◌, if◌then◌else◌, arith, Bool-cases, ok, err, ◌∙◌,
}
use cyberia_vpn.Result.{ok_injective, err-not-ok}
use cyberia_vpn.Text.{Text, lit, text_eq, text_eq_iff, is_ascii_alphanumeric}
use cyberia_vpn.Transport.Platform.{Event, Call, nft}
use cyberia_vpn.KillSwitch.Machine.{
  TrafficPolicy, disabled, block_non_tunnel, tunnel_only, valid_interface, is_interface_byte,
}
use cyberia_vpn.KillSwitch.Nftables.{
  NftablesConfig, invalid_interface, render, reset_rules, blocking_rules, tunnel_rule,
}

-- What is left of a text behind a prefix.
unfoldable pub strip_prefix : Text → Text → Option Text
strip_prefix [] t = some t
strip_prefix (x ∷ xs) [] = none
strip_prefix (x ∷ xs) (y ∷ ys) = let rest = strip_prefix xs ys in if x == y then rest else none

strip_prefix-append : (p t : Text) → strip_prefix p (p ++ t) ≡ some t
unfolding strip_prefix
strip_prefix-append [] t = refl
strip_prefix-append (x ∷ xs) t = ground (arith, strip_prefix-append xs t)

-- The bytes in front of the closing quotation mark.
unfoldable pub before_quote : Text → Text
before_quote [] = []
before_quote (b ∷ bs) = let rest = before_quote bs in if b == b'"' then [] else b ∷ rest

no_quote : (b : ℕ) → is_interface_byte b ≡ true → (b == b'"') ≡ false
unfolding is_interface_byte is_ascii_alphanumeric
no_quote b h = ground (arith, h)

before_quote-append :
    (name rest : Text)
    → all is_interface_byte name ≡ true
    → before_quote (name ++ (b'"' ∷ rest)) ≡ name
unfolding before_quote
before_quote-append [] rest h = refl
before_quote-append (b ∷ bs) rest h =
    let both : (is_interface_byte b ≡ true) × (all is_interface_byte bs ≡ true) =
      ground (arith, h) in
    rw (no_quote b both.0) (ap (λ t. b ∷ t) (before_quote-append bs rest both.1))

strip_prefix-both : (p q t : Text) → strip_prefix (p ++ q) (p ++ t) ≡ strip_prefix q t
unfolding strip_prefix
strip_prefix-both [] q t = refl
strip_prefix-both (x ∷ xs) q t = ground (arith, strip_prefix-both xs q t)

unfoldable pub disabled_rules : Text
disabled_rules = reset_rules ++ (lit "delete table inet cyberia_vpn" ++ (10 ∷ []))

-- The policy of what follows the rules that block: nothing, or the rule of a tunnel.
unfoldable pub tunnel_of : Text → TrafficPolicy
tunnel_of [] = block_non_tunnel
tunnel_of (b ∷ bs) =
    elim (strip_prefix (lit "add rule inet cyberia_vpn output oifname \"") (b ∷ bs)) [
      | none ↦ block_non_tunnel
      | some rest ↦ tunnel_only (before_quote rest)
    ]

abbrev policy_after : Text → Option Text → Option TrafficPolicy
policy_after rules (some rest) = some (tunnel_of rest)
policy_after rules none = if text_eq rules disabled_rules then some disabled else none

-- The policy that a ruleset was rendered from.
unfoldable pub policy_of : NftablesConfig → Text → Option TrafficPolicy
policy_of config rules =
    policy_after rules (strip_prefix (reset_rules ++ blocking_rules config) rules)

tunnel_rule-parts :
    (interface : Text)
    → tunnel_rule interface
      ≡ lit "add rule inet cyberia_vpn output oifname \""
        ++ (interface ++ (lit "\" accept" ++ (10 ∷ [])))
unfolding tunnel_rule
tunnel_rule-parts interface =
    append_assoc (lit "add rule inet cyberia_vpn output oifname \"" ++ interface) (lit "\" accept")
      (10 ∷ [])
    ∙ append_assoc (lit "add rule inet cyberia_vpn output oifname \"") interface
        (lit "\" accept" ++ (10 ∷ []))

tunnel_of-tunnel_rule :
    (interface : Text)
    → all is_interface_byte interface ≡ true
    → tunnel_of (tunnel_rule interface) ≡ tunnel_only interface
unfolding tunnel_of lit strip_prefix
tunnel_of-tunnel_rule interface h =
    ap tunnel_of (tunnel_rule-parts interface) ∙ ap tunnel_only (before_quote-append interface _ h)

delete_only :
    (config : NftablesConfig)
    → strip_prefix (blocking_rules config) (lit "delete table inet cyberia_vpn" ++ (10 ∷ [])) ≡ none
unfolding strip_prefix blocking_rules lit
delete_only config = refl

not_blocking :
    (config : NftablesConfig)
    → strip_prefix (reset_rules ++ blocking_rules config) disabled_rules ≡ none
unfolding disabled_rules
not_blocking config =
    strip_prefix-both reset_rules (blocking_rules config)
      (lit "delete table inet cyberia_vpn" ++ (10 ∷ []))
    ∙ delete_only config

policy_of-disabled : (config : NftablesConfig) → policy_of config disabled_rules ≡ some disabled
unfolding policy_of
policy_of-disabled config =
    ap (policy_after disabled_rules) (not_blocking config)
    ∙ simp ((text_eq_iff disabled_rules disabled_rules).1 refl) refl

policy_of-block :
    (config : NftablesConfig)
    → policy_of config (reset_rules ++ blocking_rules config) ≡ some block_non_tunnel
unfolding policy_of tunnel_of
policy_of-block config =
    let rules = reset_rules ++ blocking_rules config in
    ap (policy_after rules)
      (ap (strip_prefix rules) (sym (append-nil rules)) ∙ strip_prefix-append rules [])

policy_of-tunnel :
    (config : NftablesConfig) (interface : Text)
    → all is_interface_byte interface ≡ true
    → policy_of config (reset_rules ++ blocking_rules config ++ tunnel_rule interface)
      ≡ some (tunnel_only interface)
unfolding policy_of
policy_of-tunnel config interface h =
    let rules = reset_rules ++ blocking_rules config in
    ap (policy_after (rules ++ tunnel_rule interface))
      (strip_prefix-append rules (tunnel_rule interface))
    ∙ ap (λ p. some p) (tunnel_of-tunnel_rule interface h)

valid_bytes :
    (interface : Text) → valid_interface interface ≡ true → all is_interface_byte interface ≡ true
unfolding valid_interface
valid_bytes interface h = ground (arith, h)

render_tunnel :
    (config : NftablesConfig) (interface : Text)
    → valid_interface interface ≡ true
    → render config (tunnel_only interface)
      ≡ ok (reset_rules ++ blocking_rules config ++ tunnel_rule interface)
unfolding render
render_tunnel config interface h = rw h refl

render_refused :
    (config : NftablesConfig) (interface : Text)
    → valid_interface interface ≡ false
    → render config (tunnel_only interface) ≡ err invalid_interface
unfolding render
render_refused config interface h = rw h refl

-- Rendering loses nothing: what a policy is rendered to can be read back, and gives the same policy.
pub policy_of-render :
    (config : NftablesConfig) (policy : TrafficPolicy) (rules : Text)
    → render config policy ≡ ok rules
    → policy_of config rules ≡ some policy
unfolding render disabled_rules
policy_of-render config disabled rules h =
    subst (λ r. policy_of config r ≡ some disabled) (ok_injective h) (policy_of-disabled config)
policy_of-render config block_non_tunnel rules h =
    subst (λ r. policy_of config r ≡ some block_non_tunnel) (ok_injective h)
      (policy_of-block config)
policy_of-render config (tunnel_only interface) rules h =
    elim (Bool-cases (valid_interface interface)) [
      | inl e ↦
          subst (λ r. policy_of config r ≡ some (tunnel_only interface))
            (ok_injective (sym (render_tunnel config interface e) ∙ h))
            (policy_of-tunnel config interface (valid_bytes interface e))
      | inr e ↦ absurd (err-not-ok _ _ (sym (render_refused config interface e) ∙ h))
    ]

abbrev pub loads : Call → Bool → Option Text → Option Text
loads (nft rules) true before = some rules
loads _ _ before = before

-- The ruleset of the last transaction that nftables accepted; one that fails changes nothing.
unfoldable pub loaded : List Event → Option Text
loaded [] = none
loaded (e ∷ es) = loads e.call e.success (loaded es)
