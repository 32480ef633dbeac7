-- ===== src/Linux/Node/Owned.antt =====
-- `LinuxWireGuardNode` of core/transport/src/linux.rs: the ownership of keys and routes.
use cyberia_vpn.Prelude.{
  ◌≤◌, ◌≡◌, ◌≢◌, inl, inr, Bool, true, false, List, [], ◌∷◌, arith, Bool-cases, length, any, keep,
  All, Has, here, there,
}
use cyberia_vpn.Apart.{Pairwise, All-map}
use cyberia_vpn.WireGuard.Profile.{AllowedIp}
use cyberia_vpn.Linux.Node.{LinuxWireGuardNode, Key, maximum_node_peers}

abbrev pub Entry : Type 0
Entry = AllowedIp × Key

-- Each key stands once, each route belongs to one peer, and each owner of a route is a peer.
pub record IsOwned (n : LinuxWireGuardNode) : Type 0 where
  pub within : length n.peers ≤ maximum_node_peers
  pub distinct_keys : Pairwise (λ a b. a ≢ b) n.peers
  pub distinct_routes : Pairwise (λ (a b : Entry). a.0 ≢ b.0) n.assigned_routes
  pub owners : All (λ (e : Entry). Has e.1 n.peers) n.assigned_routes

-- A test that no element of a list passes.
pub none_pass :
    {A : Type 0} (p : A → Bool) (xs : List A) → any p xs ≡ false → All (λ x. p x ≡ false) xs
none_pass p [] h = tt
none_pass p (x ∷ xs) h = (ground arith, none_pass p xs (ground arith))

pub All-keep :
    {A : Type 0} (P : A → Type 0) (p : A → Bool) (xs : List A) → All P xs → All P (keep p xs)
All-keep P p [] h = tt
All-keep P p (x ∷ xs) h = elim (Bool-cases (p x)) [
  | inl e ↦ rw e (h.0, All-keep P p xs h.1)
  | inr e ↦ rw e (All-keep P p xs h.1)
]

pub All-kept : {A : Type 0} (p : A → Bool) (xs : List A) → All (λ x. p x ≡ true) (keep p xs)
All-kept p [] = tt
All-kept p (x ∷ xs) = elim (Bool-cases (p x)) [
  | inl e ↦ rw e (e, All-kept p xs)
  | inr e ↦ rw e (All-kept p xs)
]

pub Pairwise-keep :
    {A : Type 0} (R : A → A → Type 0) (p : A → Bool) (xs : List A)
    → Pairwise R xs
    → Pairwise R (keep p xs)
Pairwise-keep R p [] h = tt
Pairwise-keep R p (x ∷ xs) h = elim (Bool-cases (p x)) [
  | inl e ↦ rw e (All-keep (R x) p xs h.0, Pairwise-keep R p xs h.1)
  | inr e ↦ rw e (Pairwise-keep R p xs h.1)
]

pub length-keep : {A : Type 0} (p : A → Bool) (xs : List A) → length (keep p xs) ≤ length xs
length-keep p [] = omega arith
length-keep p (x ∷ xs) = elim (Bool-cases (p x)) [
  | inl e ↦ rw e (omega (arith, length-keep p xs))
  | inr e ↦ rw e (omega (arith, length-keep p xs))
]

-- Each element of a list is in it.
pub All-self : {A : Type 0} (xs : List A) → All (λ x. Has x xs) xs
All-self [] = tt
All-self (x ∷ xs) = (here, All-map (λ y m. there m) xs (All-self xs))
