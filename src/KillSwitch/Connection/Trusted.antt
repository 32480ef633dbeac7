-- ===== src/KillSwitch/Connection/Trusted.antt =====
-- The tests of the files that a connection uses, of core/transport/src/linux.rs and core/killswitch/src/linux.rs,
-- while the files stay as they are: what passes once passes again.
use cyberia_vpn.Prelude.{
  ℕ, suc, ◌≡◌, refl, sym, ◌∙◌, inl, inr, Bool, true, not, ◌==◌, if◌then◌else◌, Bool-cases,
  Result-cases, Result, ok,
}
use cyberia_vpn.Exec.{Exec, Ends, Ends-bind, Ends-weaken, mapped, pure, raise, ◌>>=◌}
use cyberia_vpn.Text.{Text}
use cyberia_vpn.Transport.Platform.{World, IoError, Metadata, symlink_metadata}
use Prim.Native.Nat.{bit_and}
use cyberia_vpn.KillSwitch.Nftables
use cyberia_vpn.KillSwitch.Nftables.{new_runner}
use cyberia_vpn.Linux.Tools.{
  LinuxTools, validate_executable, validate_private_key, validate_tools, is_trusted,
}

-- The metadata of a path does not depend on when it is asked for.
abbrev pub Stable : (Text → Result IoError Metadata) → World → Type 0
Stable files w = (i : ℕ) (path : Text) → w.files i path ≡ files path

abbrev pub executable : ℕ → Bool
executable mode = not (bit_and mode 0o111 == 0)

abbrev pub private_mode : ℕ → Bool
private_mode mode = bit_and mode 0o077 == 0

module _ (files : Text → Result IoError Metadata) where
  -- A path of a regular file with the right permissions.
  pub record IsTrusted (right : ℕ → Bool) (path : Text) : Type 0 where
    pub metadata : Metadata
    pub found : files path ≡ ok metadata
    pub trusted : is_trusted right path metadata ≡ true

  abbrev pub Passed : Type 0 → World → Type 0
  Passed P w = P × Stable files w

  module _ {E : Type 0} (path : Text) (right : ℕ → Bool) (missing wrong : E) where
    abbrev trusting : Exec E World (Unit {0})
    trusting = mapped (λ _. missing) (symlink_metadata path) >>= λ metadata.
        if is_trusted right path metadata then pure tt else raise wrong

    IsTrusted-Ends :
        (w : World)
        → Stable files w
        → Ends (λ _. Passed (IsTrusted right path)) (λ _ _. Unit {0}) (trusting w)
    unfolding symlink_metadata
    IsTrusted-Ends w s = elim (Result-cases (w.files w.step path)) [
      | inr (error, e) ↦ rw e (record { holds = tt })
      | inl (m, e) ↦ elim (Bool-cases (is_trusted right path m)) [
        | inl t ↦
            rw (e, t)
              (record {
                holds = (record { metadata = m; found = sym (s w.step path) ∙ e; trusted = t }, s);
              })
        | inr t ↦ rw (e, t) (record { holds = tt })
      ]
    ]

    trusted_passes :
        (w : World)
        → Stable files w
        → IsTrusted right path
        → trusting w ≡ (ok tt, record w { step = suc w.step })
    unfolding symlink_metadata
    trusted_passes w s t = rw (s w.step path, t.found, t.trusted) refl

  pub record HasTools (tools : LinuxTools) : Type 0 where
    pub ip : IsTrusted executable tools.ip
    pub wg : IsTrusted executable tools.wg
    pub private_key : IsTrusted private_mode tools.private_key

  pub tools-Ends :
      (tools : LinuxTools) (w : World)
      → Stable files w
      → Ends (λ _. Passed (HasTools tools)) (λ _ _. Unit {0}) (validate_tools tools w)
  unfolding validate_tools validate_executable validate_private_key
  tools-Ends tools w s =
      Ends-bind (validate_executable tools.ip) _ w (IsTrusted-Ends tools.ip executable _ _ w s)
        (λ u w1 ip.
          Ends-bind (validate_executable tools.wg) _ w1
            (IsTrusted-Ends tools.wg executable _ _ w1 ip.1)
            (λ u w2 wg.
              Ends-weaken _ (IsTrusted-Ends tools.private_key private_mode _ _ w2 wg.1)
                (λ u w3 key. (record { ip = ip.0; wg = wg.0; private_key = key.0 }, key.1))
                (λ e w3 h. h)))

  pub executable-Ends :
      (path : Text) (w : World)
      → Stable files w
      → Ends
          (λ _. Passed (IsTrusted executable path))
          (λ _ _. Unit {0})
          (validate_executable path w)
  unfolding validate_executable
  executable-Ends path w s = IsTrusted-Ends path executable _ _ w s

  pub executable_passes :
      (path : Text) (w : World)
      → Stable files w
      → IsTrusted executable path
      → validate_executable path w ≡ (ok tt, record w { step = suc w.step })
  unfolding validate_executable
  executable_passes path w s t = trusted_passes path executable _ _ w s t

  key_passes :
      (path : Text) (w : World)
      → Stable files w
      → IsTrusted private_mode path
      → validate_private_key path w ≡ (ok tt, record w { step = suc w.step })
  unfolding validate_private_key
  key_passes path w s t = trusted_passes path private_mode _ _ w s t

  pub runner-Ends :
      (path : Text) (w : World)
      → Stable files w
      → Ends (λ _. Passed (IsTrusted executable path)) (λ _ _. Unit {0}) (new_runner path w)
  unfolding new_runner Nftables.validate_executable
  runner-Ends path w s =
      Ends-bind (Nftables.validate_executable path) _ w (IsTrusted-Ends path executable _ _ w s)
        (λ u w1 h. record { holds = h })

  pub runner_passes :
      (path : Text) (w : World)
      → Stable files w
      → IsTrusted executable path
      → new_runner path w ≡ (ok (record { executable = path }), record w { step = suc w.step })
  unfolding new_runner Nftables.validate_executable symlink_metadata
  runner_passes path w s t = rw (s w.step path, t.found, t.trusted) refl

  pub tools_pass :
      (tools : LinuxTools) (w : World)
      → Stable files w
      → HasTools tools
      → validate_tools tools w ≡ (ok tt, record w { step = suc (suc (suc w.step)) })
  unfolding validate_tools
  tools_pass tools w s h =
      rw
        (
          executable_passes tools.ip w s h.ip,
          executable_passes tools.wg (record w { step = suc w.step }) s h.wg,
          key_passes tools.private_key (record w { step = suc (suc w.step) }) s h.private_key,
        )
        refl
