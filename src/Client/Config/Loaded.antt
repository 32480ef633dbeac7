-- ===== src/Client/Config/Loaded.antt =====
-- `load_config` of apps/linux-client/src/lib.rs: exactly which files are loaded, and what is asked on the way.
use cyberia_vpn.Prelude.{
  ℕ, zero, suc, ◌≤◌, ◌≡◌, refl, ap, subst, ◌↔◌, inl, inr, Bool, true, false, not, ◌||◌, List, [],
  ◌∷◌, arith, ltb, Bool-cases, Result-cases, Result, ok, length,
}
use cyberia_vpn.Net.Show.{take}
use cyberia_vpn.Client.Config.{
  maximum_config_size, read_config_file, load_config, ClientConfig, is_private,
  validate_private_directory,
}
use cyberia_vpn.Transport.Platform.{
  OpenFile, read_only, open_file, Event, World, Metadata, symlink_metadata,
}
use cyberia_vpn.Exec.{Ends-state, Ends-weaken, pure, Ends-bind, Ends-ok, Ends}
use cyberia_vpn.Text.{Text}
use cyberia_vpn.Linux.Tools.{is_absolute}

-- A directory of which nobody but the owner has any permission, looked at in a world.
pub record IsPrivateDirectory (w : World) (path : Text) : Type 0 where
  pub absolute : is_absolute path ≡ true
  pub metadata : Metadata
  pub found : w.files w.step path ≡ ok metadata
  pub directory : metadata.is_dir ≡ true
  pub no_link : metadata.is_symlink ≡ false
  pub private : is_private metadata ≡ true

-- A private regular file of at most 1 MiB, opened without following a link in a world, with its whole content.
pub record IsPrivateFile (w : World) (path : Text) (bytes : Text) : Type 0 where
  pub absolute : is_absolute path ≡ true
  pub file : OpenFile
  pub opened : w.opens w.step read_only path ≡ ok file
  pub metadata : Metadata
  pub found : file.metadata ≡ ok metadata
  pub regular : metadata.is_file ≡ true
  pub private : is_private metadata ≡ true
  pub small : metadata.len ≤ maximum_config_size
  pub content : file.content ≡ ok bytes
  pub bounded : length bytes ≤ maximum_config_size

-- The world after one more observation.
abbrev pub next : World → World
next w = record w { step = suc w.step }

pub guard_iff :
    (a b c : Bool) → (not a || b || not c) ≡ false ↔ (a ≡ true) × (b ≡ false) × (c ≡ true)
guard_iff a b c = ground arith

take_short : (n : ℕ) (xs : Text) → length (take (suc n) xs) ≤ n → take (suc n) xs ≡ xs
unfolding take
take_short n [] h = refl
take_short zero (x ∷ xs) h = absurd (omega arith)
take_short (suc n) (x ∷ xs) h = ap (λ ys. x ∷ ys) (take_short n xs (omega arith))

take_all : (n : ℕ) (xs : Text) → length xs ≤ n → take (suc n) xs ≡ xs
unfolding take
take_all n [] h = refl
take_all zero (x ∷ xs) h = absurd (omega arith)
take_all (suc n) (x ∷ xs) h = ap (λ ys. x ∷ ys) (take_all n xs (omega arith))

-- What the tests of a directory end in.
DirectoryEnds : (w : World) (path : Text) (t : List Event) → Unit {0} → World → Type 0
DirectoryEnds w path t u w' = IsPrivateDirectory w path × (w'.trace ≡ t)

private_directory-Ends :
    (path : Text) (w : World) (t : List Event)
    → w.trace ≡ t
    → Ends (DirectoryEnds w path t) (λ e w'. w'.trace ≡ t) (validate_private_directory path w)
unfolding validate_private_directory symlink_metadata DirectoryEnds
private_directory-Ends path w t same = elim (Bool-cases (is_absolute path)) [
  | inr e ↦ rw e (record { holds = same })
  | inl e ↦ elim (Result-cases (w.files w.step path)) [
    | inr (error, q) ↦ rw (e, q) (record { holds = same })
    | inl (m, q) ↦ elim (Bool-cases (not m.is_dir || m.is_symlink || not (is_private m))) [
      | inl r ↦ rw (e, q, r) (record { holds = same })
      | inr r ↦
          let tests = (guard_iff m.is_dir m.is_symlink (is_private m)).0 r in
          rw (e, q, r)
            (record {
              holds = (
                record {
                  absolute = e;
                  metadata = m;
                  found = q;
                  directory = tests.0;
                  no_link = tests.1;
                  private = tests.2;
                },
                same,
              );
            })
    ]
  ]
]

-- What reading the file ends in.
FileEnds : (w : World) (path : Text) → Text → World → Type 0
FileEnds w path bytes w' = IsPrivateFile w path bytes × (w' ≡ next w)

pub not_or_iff : (a b : Bool) → (not a || not b) ≡ false ↔ (a ≡ true) × (b ≡ true)
not_or_iff a b = ground arith

read_config_file-Ends :
    (path : Text) (w : World)
    → Ends (FileEnds w path) (λ e w'. w'.trace ≡ w.trace) (read_config_file path w)
unfolding read_config_file open_file FileEnds
read_config_file-Ends path w = elim (Bool-cases (is_absolute path)) [
  | inr e ↦ rw e (record { holds = refl })
  | inl e ↦ elim (Result-cases (w.opens w.step read_only path)) [
    | inr (error, q) ↦ rw (e, q) (record { holds = refl })
    | inl (file, q) ↦ elim (Result-cases file.metadata) [
      | inr (error, r) ↦ rw (e, q, r) (record { holds = refl })
      | inl (m, r) ↦ elim (Bool-cases (not m.is_file || not (is_private m))) [
        | inl t ↦ rw (e, q, r, t) (record { holds = refl })
        | inr t ↦ elim (Bool-cases (ltb maximum_config_size m.len)) [
          | inl l ↦ rw (e, q, r, t, l) (record { holds = refl })
          | inr l ↦
              rw (e, q, r, t, l)
                (elim (Result-cases file.content) [
                  | inr (error, k) ↦ rw k (record { holds = refl })
                  | inl (content, k) ↦
                      elim (Bool-cases (
                        ltb maximum_config_size
                          (length (take (suc maximum_config_size) content)))) [
                            | inl b ↦ rw (k, b) (record { holds = refl })
                            | inr b ↦
                                let bound : length (take (suc maximum_config_size) content)
                                    ≤ maximum_config_size =
                                  ground (arith, b) in
                                let whole =
                                  take_short maximum_config_size content (ground (arith, b)) in
                                let tests = (not_or_iff m.is_file (is_private m)).0 t in
                                rw (k, b, whole)
                                  (record {
                                    holds = (
                                      record {
                                        absolute = e;
                                        file = file;
                                        opened = q;
                                        metadata = m;
                                        found = r;
                                        regular = tests.0;
                                        private = tests.1;
                                        small = ground (arith, l);
                                        content = k;
                                        bounded = (rw whole at bound);
                                      },
                                      refl,
                                    );
                                  })
                          ]
                ])
        ]
      ]
    ]
  ]
]

-- Such a file is read.
file_is_read :
    (path : Text) (w : World) (bytes : Text)
    → IsPrivateFile w path bytes
    → read_config_file path w ≡ (ok bytes, next w)
unfolding read_config_file open_file
file_is_read path w bytes h =
    let tests = (not_or_iff h.metadata.is_file (is_private h.metadata)).1 (h.regular, h.private) in
    let small : ltb maximum_config_size h.metadata.len ≡ false = ground (arith, h.small) in
    let bounded : ltb maximum_config_size (length bytes) ≡ false = ground (arith, h.bounded) in
    rw
      (
        h.absolute,
        h.opened,
        h.found,
        tests,
        small,
        h.content,
        take_all maximum_config_size bytes h.bounded,
        bounded,
      )
      refl

directory_passes :
    (path : Text) (w : World)
    → IsPrivateDirectory w path
    → validate_private_directory path w ≡ (ok tt, next w)
unfolding validate_private_directory symlink_metadata
directory_passes path w h =
    let tests =
      (guard_iff h.metadata.is_dir h.metadata.is_symlink (is_private h.metadata)).1
        (h.directory, h.no_link, h.private) in
    rw (h.absolute, h.found, tests) refl

module _ (parse_json : Text → Result Text ClientConfig) where
  -- A configuration that may be loaded from a path in a world.
  pub record IsLoaded (w : World) (path : Text) (config : ClientConfig) : Type 0 where
    pub bytes : Text
    pub file : IsPrivateFile w path bytes
    pub parsed : parse_json bytes ≡ ok config
    pub directory : IsPrivateDirectory (next w) config.runtime_directory

  LoadEnds : (w : World) (path : Text) → ClientConfig → World → Type 0
  LoadEnds w path config w' = IsLoaded w path config × (w'.trace ≡ w.trace)

  load_config-Ends :
      (path : Text) (w : World)
      → Ends (LoadEnds w path) (λ e w'. w'.trace ≡ w.trace) (load_config parse_json path w)
  unfolding load_config LoadEnds DirectoryEnds FileEnds
  load_config-Ends path w =
      Ends-bind (read_config_file path) _ w (read_config_file-Ends path w) (λ bytes w' h.
        elim (Result-cases (parse_json bytes)) [
          | inr (error, q) ↦ rw q (record { holds = ap (λ (v : World). v.trace) h.1 })
          | inl (config, q) ↦
              let directory = config.runtime_directory in
              rw q (
                Ends-bind (validate_private_directory directory) (λ _. pure config) w'
                  (private_directory-Ends directory w' w.trace (ap (λ (v : World). v.trace) h.1))
                  (λ u w'' d. record {
                    holds = (
                      record {
                        bytes = bytes;
                        file = h.0;
                        parsed = q;
                        directory = subst (λ v. IsPrivateDirectory v directory) h.1 d.0;
                      },
                      d.1,
                    );
                  }))
        ])

  pub load_config-trace :
      (path : Text) (w : World) → (load_config parse_json path w).1.trace ≡ w.trace
  unfolding LoadEnds
  load_config-trace path w = Ends-state (load_config parse_json path w) (
      Ends-weaken (load_config parse_json path w) (load_config-Ends path w) (λ c v h. h.1)
        (λ e v h. h))

  -- A configuration is loaded exactly from a private regular file with an absolute path and at most 1 MiB, whose whole
  -- content parses, and only if its runtime directory is a private directory with an absolute path; whatever comes
  -- out, no command is started.
  pub load_config_iff :
      (path : Text) (w : World) (config : ClientConfig)
      → ((load_config parse_json path w).0 ≡ ok config ↔ IsLoaded w path config)
        × ((load_config parse_json path w).1.trace ≡ w.trace)
  unfolding LoadEnds load_config
  load_config_iff path w config = (
    (
      λ e. (Ends-ok (load_config parse_json path w) config (load_config-Ends path w) e).0,
      λ h.
          rw
            (
              file_is_read path w h.bytes h.file,
              h.parsed,
              directory_passes config.runtime_directory (next w) h.directory,
            )
            refl,
    ),
    load_config-trace path w,
  )
