-- ===== src/Client/Lease/Held.antt =====
-- The lease of an interface, apps/linux-client/src/lib.rs: exactly when it is given.
use cyberia_vpn.Prelude.{
  suc, ◌≡◌, refl, ap, subst, ◌↔◌, inl, inr, true, not, ◌||◌, Bool-cases, Result-cases, ok,
}
use cyberia_vpn.Text.{Text}
use cyberia_vpn.Exec.{Ends, Ends-bind, Ends-ok, Ends-state, Ends-weaken}
use cyberia_vpn.Transport.Platform.{
  World, Metadata, OpenFile, lock_file, symlink_metadata, open_file,
}
use cyberia_vpn.Linux.Tools.{is_absolute}
use cyberia_vpn.Client.Config.{is_private}
use cyberia_vpn.Client.Config.Loaded.{IsPrivateDirectory, guard_iff, not_or_iff, next}
use cyberia_vpn.Client.Lease.{
  InterfaceLease, validate_lease_directory, valid_interface_name, lock_path,
  acquire_interface_lease,
}

-- The lock of an interface is a private regular file of a private directory, opened without following a link, and nobody
-- else holds it.
pub record IsAvailable (w : World) (runtime_directory interface : Text) (file : OpenFile)
    : Type 0 where
  pub directory : IsPrivateDirectory w runtime_directory
  pub named : valid_interface_name interface ≡ true
  pub opened : w.opens (suc w.step) lock_file (lock_path runtime_directory interface) ≡ ok file
  pub metadata : Metadata
  pub found : file.metadata ≡ ok metadata
  pub regular : metadata.is_file ≡ true
  pub private : is_private metadata ≡ true
  pub locked : file.lock ≡ ok tt

-- What the tests of the directory end in.
DirectoryEnds : (w : World) (path : Text) → Unit {0} → World → Type 0
DirectoryEnds w path u w' = IsPrivateDirectory w path × (w' ≡ next w)

lease_directory-Ends :
    (path : Text) (w : World)
    → Ends (DirectoryEnds w path) (λ e w'. w'.trace ≡ w.trace) (validate_lease_directory path w)
unfolding validate_lease_directory symlink_metadata DirectoryEnds
lease_directory-Ends path w = elim (Bool-cases (is_absolute path)) [
  | inr e ↦ rw e (record { holds = refl })
  | inl e ↦ elim (Result-cases (w.files w.step path)) [
    | inr (error, q) ↦ rw (e, q) (record { holds = refl })
    | inl (m, q) ↦ elim (Bool-cases (not m.is_dir || m.is_symlink || not (is_private m))) [
      | inl r ↦ rw (e, q, r) (record { holds = refl })
      | inr r ↦
          let t = (guard_iff m.is_dir m.is_symlink (is_private m)).0 r in
          rw (e, q, r)
            (record {
              holds = (
                record {
                  absolute = e;
                  metadata = m;
                  found = q;
                  directory = t.0;
                  no_link = t.1;
                  private = t.2;
                },
                refl,
              );
            })
    ]
  ]
]

lease_directory_passes :
    (path : Text) (w : World)
    → IsPrivateDirectory w path
    → validate_lease_directory path w ≡ (ok tt, next w)
unfolding validate_lease_directory symlink_metadata
lease_directory_passes path w h =
    let tests =
      (guard_iff h.metadata.is_dir h.metadata.is_symlink (is_private h.metadata)).1
        (h.directory, h.no_link, h.private) in
    rw (h.absolute, h.found, tests) refl

LeaseEnds : (w : World) (runtime_directory interface : Text) → InterfaceLease → World → Type 0
LeaseEnds w runtime_directory interface lease w' =
    IsAvailable w runtime_directory interface lease.file × (w'.trace ≡ w.trace)

acquire-Ends :
    (runtime_directory interface : Text) (w : World)
    → Ends
        (LeaseEnds w runtime_directory interface)
        (λ e w'. w'.trace ≡ w.trace)
        (acquire_interface_lease runtime_directory interface w)
unfolding acquire_interface_lease open_file LeaseEnds DirectoryEnds
acquire-Ends runtime_directory interface w =
    Ends-bind (validate_lease_directory runtime_directory) _ w
      (lease_directory-Ends runtime_directory w)
      (λ u w' d.
        let same = ap (λ (v : World). v.trace) d.1 in
        let path = lock_path runtime_directory interface in
        elim (Bool-cases (valid_interface_name interface)) [
          | inr e ↦ rw e (record { holds = same })
          | inl e ↦ elim (Result-cases (w'.opens w'.step lock_file path)) [
            | inr (error, q) ↦ rw (e, q) (record { holds = same })
            | inl (file, q) ↦ elim (Result-cases file.metadata) [
              | inr (error, r) ↦ rw (e, q, r) (record { holds = same })
              | inl (m, r) ↦ elim (Bool-cases (not m.is_file || not (is_private m))) [
                | inl t ↦ rw (e, q, r, t) (record { holds = same })
                | inr t ↦ elim (Result-cases file.lock) [
                  | inr (error, k) ↦ rw (e, q, r, t, k) (record { holds = same })
                  | inl (v, k) ↦
                      let tests = (not_or_iff m.is_file (is_private m)).0 t in
                      let opened =
                        subst (λ (v : World). v.opens v.step lock_file path ≡ ok file) d.1 q in
                      simp (e, q, r, t, k)
                        (record {
                          holds = (
                            record {
                              directory = d.0;
                              named = e;
                              opened = opened;
                              metadata = m;
                              found = r;
                              regular = tests.0;
                              private = tests.1;
                              locked = k;
                            },
                            same,
                          );
                        })
                ]
              ]
            ]
          ]
        ])

pub acquire-trace :
    (runtime_directory interface : Text) (w : World)
    → (acquire_interface_lease runtime_directory interface w).1.trace ≡ w.trace
unfolding LeaseEnds
acquire-trace runtime_directory interface w =
    let run = acquire_interface_lease runtime_directory interface w in
    Ends-state run
      (Ends-weaken run (acquire-Ends runtime_directory interface w) (λ c v h. h.1) (λ e v h. h))

-- An interface is leased exactly if the runtime directory is a private directory with an absolute path, the name is
-- valid, and the lock's file in that directory is a private regular file that nobody else has locked; the lease keeps that
-- file. Whatever comes out, no command is started.
pub acquire_interface_lease_iff :
    (runtime_directory interface : Text) (w : World) (lease : InterfaceLease)
    → ((acquire_interface_lease runtime_directory interface w).0 ≡ ok lease
        ↔ IsAvailable w runtime_directory interface lease.file)
      × ((acquire_interface_lease runtime_directory interface w).1.trace ≡ w.trace)
unfolding LeaseEnds acquire_interface_lease open_file
acquire_interface_lease_iff runtime_directory interface w lease =
    let run = acquire_interface_lease runtime_directory interface w in
    let ends = acquire-Ends runtime_directory interface w in
    (
      (
        λ e. (Ends-ok run lease ends e).0,
        λ h.
            let tests =
              (not_or_iff h.metadata.is_file (is_private h.metadata)).1 (h.regular, h.private) in
            rw
              (
                lease_directory_passes runtime_directory w h.directory,
                h.named,
                h.opened,
                h.found,
                tests,
                h.locked,
              )
              refl,
      ),
      acquire-trace runtime_directory interface w,
    )
