-- ===== src/KillSwitch/Connection/Favoured/Ready.antt =====
-- A connection of core/killswitch/src/linux_connection.rs that was just built: it is ready to be used.
use cyberia_vpn.Prelude.{
  ℕ, ◌≡◌, refl, sym, ap, subst, ◌∙◌, ◌↔◌, inl, inr, Bool, true, false, ◌&&◌, ◌||◌, none, List, [],
  ◌∷◌, arith, ltb, leb, ◌==◌, Bool-cases, Result-cases, Result, ok, err, ok_or, length, all,
}
use cyberia_vpn.Exec.{mapped, Ends-mapped, Exec, Ends, Ends-bind, Ends-both, lift, ◌>>=◌}
use cyberia_vpn.Net.Parse.{parse_ip}
use cyberia_vpn.KillSwitch.Controller
use cyberia_vpn.KillSwitch.Nftables.{NftablesBackend, nftables_firewall, new_runner}
use cyberia_vpn.KillSwitch.Machine
use cyberia_vpn.KillSwitch.Machine.{KillSwitch}
use cyberia_vpn.KillSwitch.Connection.{LinuxWireGuardConnection, linux_transport}
use cyberia_vpn.KillSwitch.Connection.Build.{
  LinuxConnectionSettings, endpoint_must_be_ip_address, transport_failed, firewall_failed,
  nftables_failed, transport_of, with_runners, system,
}
use cyberia_vpn.Result.{ok_injective, err-not-ok}
use cyberia_vpn.Text.{Text, is_ascii_alphanumeric}
use cyberia_vpn.Transport.Types
use cyberia_vpn.Transport.Types.{TransportError}
use cyberia_vpn.Transport.Platform.{World}
use cyberia_vpn.Transport.Dns
use cyberia_vpn.WireGuard.Profile.{WireGuardConfig}
use cyberia_vpn.WireGuard.Validate.{validate_config}
use cyberia_vpn.WireGuard.Adapter
use cyberia_vpn.WireGuard.Adapter.{WireGuardAdapter}
use cyberia_vpn.Linux.Tools
use cyberia_vpn.Linux.Tools.{
  LinuxTools, LinuxDnsTools, validate_tools, validate_dns_tools, check_key_path,
}
use cyberia_vpn.Linux.Backend
use cyberia_vpn.Linux.Backend.{LinuxWireGuardBackend}
use cyberia_vpn.Linux.Dns as LinuxDns
use cyberia_vpn.KillSwitch.Connection.Favoured.{MayConnect}

-- A connection that has been built and not used.
pub record IsReady (c : LinuxWireGuardConnection) : Type 0 where
  pub transport : MayConnect c.transport c.controller.transport
  pub named : c.controller.transport.interface ≡ c.interface
  pub valid : Machine.valid_interface c.interface ≡ true
  pub dns_valid : Tools.valid_interface c.interface ≡ true
  pub dns : Dns.validate c.dns_config ≡ ok tt
  pub free : c.dns.active_interface ≡ none

all_mono :
    {A : Type 0} (p q : A → Bool) (xs : List A)
    → ((x : A) → p x ≡ true → q x ≡ true)
    → all p xs ≡ true
    → all q xs ≡ true
all_mono p q [] k h = refl
all_mono p q (x ∷ xs) k h = elim (Bool-cases (p x)) [
  | inr e ↦ absurd (ground (arith, e, h))
  | inl e ↦ rw (k x e) (all_mono p q xs k (rw e at h))
]

three_iff : (a b c : Bool) → (a && b && c) ≡ true ↔ (a ≡ true) × (b ≡ true) × (c ≡ true)
three_iff a b c = ground arith

name_byte :
    (b : ℕ)
    → (is_ascii_alphanumeric b || b == b'_' || b == b'-') ≡ true
    → Machine.is_interface_byte b ≡ true
unfolding Machine.is_interface_byte
name_byte b e = ground arith

-- The rule of the adapter for names is stricter than the one of the kill switch.
names_valid :
    (interface : Text)
    → Tools.valid_interface interface ≡ true
    → Machine.valid_interface interface ≡ true
unfolding Tools.valid_interface Machine.valid_interface
names_valid interface h =
    let byte : ℕ → Bool = λ b. is_ascii_alphanumeric b || b == b'_' || b == b'-' in
    let t =
      (three_iff (ltb 0 (length interface)) (leb (length interface) 15) (all byte interface)).0 h in
    let long : leb (length interface) 63 ≡ true = ground (arith, t.1) in
    (three_iff (ltb 0 (length interface)) (leb (length interface) 63)
        (all Machine.is_interface_byte interface)).1
      (t.0, long, all_mono byte Machine.is_interface_byte interface name_byte t.2)

module _ {E A B : Type 0} {P : B → World → Type 0} (m : Exec E World A) (f : A → Exec E World B)
    (w : World) where
  -- A call of which nothing is needed, in front of the rest.
  first :
      ((a : A) (v : World) → Ends P (λ _ _. Unit {0}) (f a v))
      → Ends P (λ _ _. Unit {0}) ((m >>= f) w)
  first k =
      Ends-bind {Q = λ _ _. Unit {0}} m f w (Ends-both (m w).0 (m w).1 (λ a. tt) (λ e. tt))
        (λ a v _. k a v)

module _ {E F A B : Type 0} {P : B → World → Type 0} where
  -- A test that does not look at the world, in front of the rest.
  tested :
      (g : E → F) (r : Result E A) (f : A → Exec F World B) (w : World)
      → ((a : A) → r ≡ ok a → Ends P (λ _ _. Unit {0}) (f a w))
      → Ends P (λ _ _. Unit {0}) ((mapped g (lift r) >>= f) w)
  tested g (ok a) f w k = k a refl
  tested g (err e) f w k = record { holds = tt }

backend-Ends :
    (tools : LinuxTools) (mark : ℕ) (w : World)
    → Ends (λ b _. b.active_interface ≡ none) (λ _ _. Unit {0}) (Backend.new tools mark w)
unfolding Backend.new
backend-Ends tools mark w =
    first (validate_tools tools) _ w
      (λ u v. first (lift (check_key_path tools)) _ v (λ x y. record { holds = refl }))

dns-Ends :
    (tools : LinuxDnsTools) (w : World)
    → Ends (λ d _. d.active_interface ≡ none) (λ _ _. Unit {0}) (LinuxDns.new tools w)
unfolding LinuxDns.new
dns-Ends tools w = first (validate_dns_tools tools) _ w (λ u v. record { holds = refl })

adapter_lem :
    (interface : Text) (profile : WireGuardConfig) (b : LinuxWireGuardBackend)
    (a : WireGuardAdapter LinuxWireGuardBackend)
    → Adapter.new interface profile b ≡ ok a
    → (Tools.valid_interface interface ≡ true)
      × (a ≡ record { interface = interface; profile = profile; backend = b; connected = false })
unfolding Adapter.new
adapter_lem interface profile b a h = elim (Bool-cases (Tools.valid_interface interface)) [
  | inr e ↦ absurd (err-not-ok _ _ (rw e at h))
  | inl e ↦ elim (Result-cases (validate_config profile)) [
    | inr (x, q) ↦ absurd (err-not-ok _ _ (rw (e, q) at h))
    | inl (u, q) ↦ (e, sym (ok_injective (rw (e, q) at h)))
  ]
]

-- The parts of a connection that was built, over an adapter that may connect.
ready :
    (settings : LinuxConnectionSettings) (c : LinuxWireGuardConnection) (b : LinuxWireGuardBackend)
    → c.controller.transport ≡ record {
      interface = settings.interface;
      profile = settings.profile;
      backend = b;
      connected = false;
    }
    → b.active_interface ≡ none
    → c.interface ≡ settings.interface
    → c.transport ≡ transport_of settings
    → c.dns_config ≡ settings.dns
    → c.dns.active_interface ≡ none
    → Tools.valid_interface settings.interface ≡ true
    → Types.validate (transport_of settings) ≡ ok tt
    → Dns.validate settings.dns ≡ ok tt
    → IsReady c
ready settings c b adapter free interface transport dns_config unowned named valid dns = record {
  transport =
      subst (λ a. MayConnect c.transport a) (sym adapter)
        (subst
          (λ t. MayConnect t (record {
            interface = settings.interface;
            profile = settings.profile;
            backend = b;
            connected = false;
          }))
          (sym transport)
          (record {
            connected = refl;
            active = free;
            kind = refl;
            endpoint = refl;
            valid = valid;
          }));
  named = ap (λ (a : WireGuardAdapter LinuxWireGuardBackend). a.interface) adapter ∙ sym interface;
  valid = ap Machine.valid_interface interface ∙ names_valid settings.interface named;
  dns_valid = ap Tools.valid_interface interface ∙ named;
  dns = ap Dns.validate dns_config ∙ dns;
  free = unowned;
}

controller-Ends :
    (k : KillSwitch) (adapter : WireGuardAdapter LinuxWireGuardBackend) (firewall : NftablesBackend)
    (w : World)
    → Ends
        (λ c _. c.transport ≡ adapter)
        (λ _ _. Unit {0})
        (Controller.new linux_transport nftables_firewall k adapter firewall w)
unfolding Controller.new
controller-Ends k adapter firewall w =
    elim (Result-cases (nftables_firewall.apply k.policy (firewall, w)).0) [
      | inl (u, e) ↦ rw e (record { holds = refl })
      | inr (x, e) ↦ rw e (record { holds = tt })
    ]

-- A connection that was built is ready, whatever its settings are.
pub system-IsReady :
    (settings : LinuxConnectionSettings) (nft : Text) (w : World)
    → Ends (λ c _. IsReady c) (λ _ _. Unit {0}) (system settings nft w)
unfolding system with_runners
system-IsReady settings nft w = first (mapped nftables_failed (new_runner nft)) _ w (λ r w0.
    first (lift (ok_or (parse_ip settings.profile.endpoint.host) endpoint_must_be_ip_address)) _ w0
      (λ address w0.
        tested transport_failed (Types.validate (transport_of settings)) _ w0 (λ u valid.
          tested transport_failed (Dns.validate settings.dns) _ w0 (λ x dns.
            Ends-bind (mapped transport_failed (Backend.new settings.tools settings.routing_mark)) _
              w0 (Ends-mapped _ _ (backend-Ends settings.tools settings.routing_mark w0))
              (λ b w1 free.
                tested transport_failed (Adapter.new settings.interface settings.profile b) _ w1
                  (λ adapter made.
                    Ends-bind (mapped transport_failed (LinuxDns.new settings.dns_tools)) _ w1
                      (Ends-mapped _ _ (dns-Ends settings.dns_tools w1))
                      (λ d w2 unowned.
                        let (named, same) =
                          adapter_lem settings.interface settings.profile b adapter made in
                        Ends-bind
                          (mapped firewall_failed (
                            Controller.new linux_transport nftables_firewall
                              (Machine.enable (Machine.new settings.always_on)) adapter _))
                          _ w2
                          (Ends-mapped firewall_failed _ (
                            controller-Ends (Machine.enable (Machine.new settings.always_on))
                              adapter _ w2))
                          (λ c w3 kept. record {
                            holds =
                                ready settings _ b (kept ∙ same) free refl refl refl unowned named
                                  valid dns;
                          }))))))))
