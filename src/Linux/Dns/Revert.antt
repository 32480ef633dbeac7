-- ===== src/Linux/Dns/Revert.antt =====
-- `LinuxDnsBackend` of core/transport/src/linux.rs: when it owns the resolver state of an interface.
use cyberia_vpn.Prelude.{
  ◌≡◌, refl, ap, ◌∙◌, inl, inr, Bool, true, false, List, [], ◌∷◌, Bool-cases, Option-cases,
  Result-cases, err, is_ok,
}
use cyberia_vpn.Exec.{Ends}
use cyberia_vpn.Text.{Text, lit}
use cyberia_vpn.Transport.Types.{TransportError, ConnectContext}
use cyberia_vpn.Transport.Platform.{World, Event}
use cyberia_vpn.Transport.Calls.{ran, command-trace, Ends-world}
use cyberia_vpn.Transport.Context.{check}
use cyberia_vpn.Transport.Dns
use cyberia_vpn.Transport.Dns.{DnsConfig}
use cyberia_vpn.Linux.Tools.{LinuxDnsTools, valid_interface}
use cyberia_vpn.Linux.Dns.{
  LinuxDnsBackend, set_up_dns, revert_interface, owning, after_setup, after_cleanup, configure,
}

abbrev reverted : LinuxDnsTools → Text → Bool → Event
reverted tools interface success = ran tools.resolvectl (lit "revert" ∷ interface ∷ []) success

revert-trace :
    (tools : LinuxDnsTools) (interface : Text) (w : World)
    → let r = revert_interface tools interface w in
      r.1.trace ≡ reverted tools interface (is_ok r.0) ∷ w.trace
unfolding revert_interface
revert-trace tools interface w = command-trace tools.resolvectl (lit "revert" ∷ interface ∷ []) w

-- How a failed `configure` ends.
pub data Failed (interface : Text) (d : LinuxDnsBackend) (w : World) (s : LinuxDnsBackend × World)
    : Type 0 where
  not_begun : s.0 ≡ d → Failed interface d w s
  cleaned_up :
      (rest : List Event)
      → s.0 ≡ d
      → s.1.trace ≡ reverted d.tools interface true ∷ rest
      → Failed interface d w s
  still_owned :
      (rest : List Event)
      → s.0 ≡ owning d interface
      → s.1.trace ≡ reverted d.tools interface false ∷ rest
      → Failed interface d w s

-- A failed setup, once the cleanup has been attempted.
setup-Failed :
    (interface : Text) (d : LinuxDnsBackend) (before w : World) (e : TransportError)
    → Ends
        (λ _ s. s.0 ≡ owning d interface)
        (λ _. Failed interface d before)
        (after_setup interface (err e) (d, w))
unfolding after_setup after_cleanup
setup-Failed interface d before w e =
    let made = revert-trace d.tools interface w in
    elim (Result-cases (revert_interface d.tools interface w).0) [
      | inl (u, q) ↦ rw q (record {
        holds =
            cleaned_up _ refl (made ∙ ap (λ r. reverted d.tools interface (is_ok r) ∷ w.trace) q);
      })
      | inr (x, q) ↦ rw q (record {
        holds =
            still_owned _ refl (made ∙ ap (λ r. reverted d.tools interface (is_ok r) ∷ w.trace) q);
      })
    ]

-- Configuring the resolvers ends in one of four ways: nothing was owned and the interface is owned now;
-- or it failed before the first command and the object is as it was; or the setup failed, the last call
-- has reverted it with success and nothing is owned; or that call failed too, and the interface is owned
-- so that it can be reverted later.
pub configure-Ends :
    (interface : Text) (config : DnsConfig) (context : ConnectContext) (d : LinuxDnsBackend)
    (w : World)
    → Ends
        (λ _ s. s.0 ≡ owning d interface)
        (λ _. Failed interface d w)
        (configure interface config context (d, w))
unfolding configure after_setup
configure-Ends interface config context d w = elim (Option-cases d.active_interface) [
  | inr (i, e) ↦ simp e (record { holds = not_begun refl })
  | inl e ↦ elim (Bool-cases (valid_interface interface)) [
    | inr bad ↦ simp (e, bad) (record { holds = not_begun refl })
    | inl good ↦ elim (Result-cases (Dns.validate config)) [
      | inr (x, f) ↦ simp (e, good, f) (record { holds = not_begun refl })
      | inl (u, f) ↦
          simp (e, good, f)
            (Ends-world (check context) _ d w (λ x q. not_begun refl)
              λ v p.
                elim (Result-cases
                  (set_up_dns d.tools interface config context (check context w).1).0) [
                    | inl (a, q) ↦ simp q (record { holds = refl })
                    | inr (x, q) ↦ simp q (setup-Failed interface d w _ x)
                  ])
    ]
  ]
]
