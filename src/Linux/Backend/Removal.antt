-- ===== src/Linux/Backend/Removal.antt =====
-- `bring_down` of the `LinuxWireGuardBackend` in core/transport/src/linux.rs: the calls that it makes,
-- and what it still owns when it fails.
use cyberia_vpn.Prelude.{
  ℕ, ◌≡◌, refl, sym, ap, ◌∙◌, inl, inr, true, Option, none, some, List, [], ◌∷◌, ◌++◌, arith,
  Bool-cases, Result-cases, Result, ok, err, is_ok,
}
use cyberia_vpn.Exec.{Ends, Ends-bind, Ends-weaken}
use cyberia_vpn.Text.{Text, lit, text_eq_iff}
use cyberia_vpn.Transport.Types.{TransportError}
use cyberia_vpn.Transport.Platform.{World, Event}
use cyberia_vpn.Transport.Calls.{ran, command-trace, Ends-world, Fruitless, one_failed, none_called}
use cyberia_vpn.Linux.Tools.{LinuxTools}
use cyberia_vpn.Linux.Commands.{
  PolicyRule, delete_interface, rule_arguments, remove_policy_rule, remove_policy_rules,
}
use cyberia_vpn.Linux.Backend.{
  LinuxWireGuardBackend, remove_active_rules, is_active, bring_down, false,
}
use cyberia_vpn.Linux.Backend.Setup.{deletion}

-- The calls that removed the rules, the latest first.
pub removals : LinuxTools → ℕ → List PolicyRule → List Event
removals tools mark [] = []
removals tools mark (rule ∷ rules) =
    removals tools mark rules ++ (ran tools.ip (rule_arguments tools mark rule) true ∷ [])

append_snoc :
    {A : Type 0} (xs : List A) (y : A) (ys : List A) → xs ++ (y ∷ ys) ≡ (xs ++ (y ∷ [])) ++ ys
append_snoc [] y ys = refl
append_snoc (x ∷ xs) y ys = ap (λ t. x ∷ t) (append_snoc xs y ys)

removed-trace :
    (tools : LinuxTools) (mark : ℕ) (rule : PolicyRule) (rules : List PolicyRule) (w : World)
    {u : Unit {0}}
    → (remove_policy_rule tools mark rule w).0 ≡ ok u
    → removals tools mark rules ++ (remove_policy_rule tools mark rule w).1.trace
      ≡ removals tools mark (rule ∷ rules) ++ w.trace
unfolding remove_policy_rule removals
removed-trace tools mark rule rules w e =
    let event = ran tools.ip (rule_arguments tools mark rule) true in
    let made =
      command-trace tools.ip (rule_arguments tools mark rule) w
      ∙ ap (λ r. ran tools.ip (rule_arguments tools mark rule) (is_ok r) ∷ w.trace) e in
    ap (λ (t : List Event). removals tools mark rules ++ t) made
    ∙ append_snoc (removals tools mark rules) event w.trace

-- The removal stopped at a rule: those before it were removed, and the call for it failed.
record Interrupted (tools : LinuxTools) (mark : ℕ) (rules : List PolicyRule) (before : List Event)
    (s : List PolicyRule × World) : Type 0 where
  gone : List PolicyRule
  split : rules ≡ gone ++ s.0
  failed : Event
  failure : failed.success ≡ false
  called : s.1.trace ≡ failed ∷ removals tools mark gone ++ before

stopped_at :
    (tools : LinuxTools) (mark : ℕ) (rule : PolicyRule) (rules : List PolicyRule) (w : World)
    {x : TransportError}
    → (remove_policy_rule tools mark rule w).0 ≡ err x
    → Interrupted tools mark
        (rule ∷ rules)
        w.trace
        (rule ∷ rules, (remove_policy_rule tools mark rule w).1)
unfolding remove_policy_rule removals
stopped_at tools mark rule rules w e = record {
  gone = [];
  split = refl;
  failed = ran tools.ip (rule_arguments tools mark rule) false;
  failure = refl;
  called =
      command-trace tools.ip (rule_arguments tools mark rule) w
      ∙ ap (λ r. ran tools.ip (rule_arguments tools mark rule) (is_ok r) ∷ w.trace) e;
}

remove-Ends :
    (tools : LinuxTools) (mark : ℕ) (rules : List PolicyRule) (w : World)
    → Ends
        (λ _ s. (s.0 ≡ []) × (s.1.trace ≡ removals tools mark rules ++ w.trace))
        (λ _. Interrupted tools mark rules w.trace)
        (remove_policy_rules tools mark rules w)
unfolding remove_policy_rules removals
remove-Ends tools mark [] w = record { holds = (refl, refl) }
remove-Ends tools mark (rule ∷ rules) w =
    let removed = remove_policy_rule tools mark rule w in
    elim (Result-cases removed.0) [
      | inr (x, e) ↦
          rw (remove_policy_rules, e) (record { holds = stopped_at tools mark rule rules w e })
      | inl (u, e) ↦
          rw (remove_policy_rules, e)
            (Ends-weaken _ (remove-Ends tools mark rules removed.1)
              (λ a s h. (h.0, h.1 ∙ removed-trace tools mark rule rules w e))
              (λ x s h. record {
                gone = rule ∷ h.gone;
                split = ap (λ rs. rule ∷ rs) h.split;
                failed = h.failed;
                failure = h.failure;
                called =
                    h.called ∙ ap (λ t. h.failed ∷ t) (removed-trace tools mark rule h.gone w e);
              }))
    ]

-- The object after the tunnel has been taken down.
pub record TornDown (interface : Text) (b : LinuxWireGuardBackend) (before : List Event)
    (s : LinuxWireGuardBackend × World) : Type 0 where
  pub was_active : b.active_interface ≡ some interface
  pub released : s.0 ≡ record b { active_rules = []; active_interface = none }
  pub called :
      s.1.trace
      ≡ deletion b.tools interface true ∷ removals b.tools b.routing_mark b.active_rules ++ before

-- The interface is still owned, with the rules that are not removed yet; the others were removed, and
-- behind that no call has succeeded.
pub record StillUp (b : LinuxWireGuardBackend) (before : List Event)
    (s : LinuxWireGuardBackend × World) : Type 0 where
  pub rules_left : List PolicyRule
  pub rules_gone : List PolicyRule
  pub owned : s.0 ≡ record b { active_rules = rules_left }
  pub split : b.active_rules ≡ rules_gone ++ rules_left
  pub called : Fruitless (removals b.tools b.routing_mark rules_gone ++ before) s.1.trace

is_active-some :
    (o : Option Text) (interface : Text) → is_active o interface ≡ true → o ≡ some interface
is_active-some none interface h = absurd (ground arith)
is_active-some (some i) interface h = ap (λ (t : Text). some t) ((text_eq_iff i interface).0 h)

append_nil : {A : Type 0} (xs : List A) → xs ++ [] ≡ xs
append_nil [] = refl
append_nil (x ∷ xs) = ap (λ t. x ∷ t) (append_nil xs)

-- The rules are removed from the object.
abbrev Emptied : LinuxWireGuardBackend → World → LinuxWireGuardBackend × World → Type 0
Emptied b w s =
    (s.0 ≡ record b { active_rules = [] })
    × (s.1.trace ≡ removals b.tools b.routing_mark b.active_rules ++ w.trace)

put_back :
    (b : LinuxWireGuardBackend) (w : World)
    (r : Result TransportError (Unit {0}) × (List PolicyRule × World))
    → Ends
        (λ _ s.
          (s.0 ≡ []) × (s.1.trace ≡ removals b.tools b.routing_mark b.active_rules ++ w.trace))
        (λ _. Interrupted b.tools b.routing_mark b.active_rules w.trace)
        r
    → Ends
        (λ _. Emptied b w)
        (λ _. StillUp b w.trace)
        (r.0, (record b { active_rules = r.1.0 }, r.1.1))
put_back b w (ok u, (rules, w')) h = record {
  holds = (ap (λ (rs : List PolicyRule). record b { active_rules = rs }) h.holds.0, h.holds.1);
}
put_back b w (err e, (rules, w')) h = record {
  holds = record {
    rules_left = rules;
    rules_gone = h.holds.gone;
    owned = refl;
    split = h.holds.split;
    called = one_failed h.holds.failed _ _ h.holds.failure h.holds.called;
  };
}

pub deleted-trace :
    (tools : LinuxTools) (interface : Text) (w : World) {r : Result TransportError (Unit {0})}
    → (delete_interface tools interface w).0 ≡ r
    → (delete_interface tools interface w).1.trace ≡ deletion tools interface (is_ok r) ∷ w.trace
unfolding delete_interface
deleted-trace tools interface w e =
    command-trace tools.ip (lit "link" ∷ lit "delete" ∷ lit "dev" ∷ interface ∷ []) w
    ∙ ap (λ r. deletion tools interface (is_ok r) ∷ w.trace) e

-- Taking the interface down ends in one of two ways: it was owned, every rule that was owned and then
-- the interface have been deleted by successful calls, in that order, and nothing is owned any more; or
-- there is an error, the interface is owned as before, and the rules that are still owned are the last of
-- those that were owned: the others have been deleted by successful calls, in order, and no later call has
-- succeeded.
pub bring_down-Ends :
    (interface : Text) (b : LinuxWireGuardBackend) (w : World)
    → Ends
        (λ _. TornDown interface b w.trace)
        (λ _. StillUp b w.trace)
        (bring_down interface (b, w))
unfolding bring_down remove_active_rules removals
bring_down-Ends interface b w = elim (Bool-cases (is_active b.active_interface interface)) [
  | inr off ↦ simp off (record {
    holds = record {
      rules_left = b.active_rules;
      rules_gone = [];
      owned = refl;
      split = refl;
      called = none_called w.trace;
    };
  })
  | inl on ↦ simp on (
      Ends-bind remove_active_rules _ (b, w)
        (put_back b w _ (remove-Ends b.tools b.routing_mark b.active_rules w))
        λ u s1 h.
          Ends-world (delete_interface b.tools interface) _ s1.0 s1.1
            (λ e q. record {
              rules_left = [];
              rules_gone = b.active_rules;
              owned = h.0;
              split = sym (append_nil b.active_rules);
              called = one_failed (deletion b.tools interface false) _ _ refl (
                  deleted-trace b.tools interface s1.1 q
                  ∙ ap (λ t. deletion b.tools interface false ∷ t) h.1);
            })
            λ a q. record {
              holds = record {
                was_active = is_active-some b.active_interface interface on;
                released =
                    ap (λ (c : LinuxWireGuardBackend). record c { active_interface = none }) h.0;
                called =
                    deleted-trace b.tools interface s1.1 q
                    ∙ ap (λ t. deletion b.tools interface true ∷ t) h.1;
              };
            })
]
