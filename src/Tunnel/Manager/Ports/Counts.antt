-- ===== src/Tunnel/Manager/Ports/Counts.antt =====
-- How often a port stands in the lists of ports that the manager keeps and the machine knows.
use auto_tunnel.Prelude.{
  ℕ, ◌+◌, ◌≡◌, refl, subst, ◌≢◌, inl, inr, Bool, false, none, some, List, [], ◌∷◌, ◌++◌, arith,
  if◌then◌else◌, ◌==◌, Bool-cases, All,
}
use auto_tunnel.Prelude.Int.{ℤ, eqb_ℤ}
use auto_tunnel.Text.{Bytes, eqb}
use auto_tunnel.Text.Equality.{eqb_iff}
use auto_tunnel.GoMap.{Map, lookup, insert, delete, keep, IsMap}
use auto_tunnel.Discovery.Types.{PortMap}
use auto_tunnel.Tunnel.Allocator.{member, close_port}
use auto_tunnel.Tunnel.Forwarder.{Forwarder}
use auto_tunnel.Tunnel.Manager.{still_wanted, stale, close_all, live}

abbrev pub one_if : Bool → ℕ
one_if same = if same then 1 else 0

-- How often a port stands in a list.
abbrev pub count : ℤ → List ℤ → ℕ
count p [] = 0
count p (q ∷ qs) = one_if (eqb_ℤ q p) + count p qs

abbrev pub ports_of : List Forwarder → List ℤ
ports_of [] = []
ports_of (f ∷ fs) = f.local_port ∷ ports_of fs

module _ (p : ℤ) where
  pub count-ports_of-append :
      (fs gs : List Forwarder)
      → count p (ports_of (fs ++ gs)) ≡ count p (ports_of fs) + count p (ports_of gs)
  count-ports_of-append [] gs = omega arith
  count-ports_of-append (f ∷ fs) gs = omega (arith, count-ports_of-append fs gs)

  pub count-not_member : (ports : List ℤ) → member p ports ≡ false → count p ports ≡ 0
  unfolding member
  count-not_member [] h = refl
  count-not_member (q ∷ qs) h = ground (arith, count-not_member qs)

  -- A new key adds its forwarder's port.
  pub count-insert :
      (k : Bytes) (f : Forwarder) (fs : Map Forwarder)
      → lookup k fs ≡ none
      → count p (ports_of (live (insert k f fs)))
        ≡ one_if (eqb_ℤ f.local_port p) + count p (ports_of (live fs))
  unfolding insert lookup
  count-insert k f [] h = refl
  count-insert k f ((j, g) ∷ fs) h = ground (arith, count-insert k f fs)

  -- A forwarder that takes the place of one on the same port changes nothing.
  pub count-replace :
      (k : Bytes) (f g : Forwarder) (fs : Map Forwarder)
      → lookup k fs ≡ some f
      → g.local_port ≡ f.local_port
      → count p (ports_of (live (insert k g fs))) ≡ count p (ports_of (live fs))
  unfolding insert lookup
  count-replace k f g [] h e = absurd (cc)
  count-replace k f g ((j, i) ∷ fs) h e = elim (Bool-cases (eqb j k)) [
    | inl t ↦ ground arith
    | inr t ↦ ground (arith, count-replace k f g fs)
  ]

  pub delete-absent :
      (k : Bytes) (fs : Map Forwarder)
      → All (λ b. k ≢ b.0) fs
      → count p (ports_of (live (delete k fs))) ≡ count p (ports_of (live fs))
  unfolding delete
  delete-absent k [] h = refl
  delete-absent k ((j, g) ∷ fs) h = ground (arith, eqb_iff j k, delete-absent k fs h.1)

  pub count-delete :
      (k : Bytes) (f : Forwarder) (fs : Map Forwarder)
      → IsMap fs
      → lookup k fs ≡ some f
      → count p (ports_of (live fs))
        ≡ one_if (eqb_ℤ f.local_port p) + count p (ports_of (live (delete k fs)))
  unfolding delete lookup
  count-delete k f [] u h = absurd (cc)
  count-delete k f ((j, g) ∷ fs) u h = elim (Bool-cases (eqb j k)) [
    | inl t ↦
        let same = (eqb_iff j k).0 t in
        let gone = delete-absent k fs (subst (λ i. All (λ b. i ≢ b.0) fs) same u.0) in
        ground (arith, gone)
    | inr t ↦ ground (arith, count-delete k f fs u.1)
  ]

  -- What is live is kept or stale.
  pub count-keep :
      (wants : Map PortMap) (fs : Map Forwarder)
      → count p (ports_of (live fs))
        ≡ count p (ports_of (live (keep (λ k f. still_wanted (lookup k wants) f) fs)))
          + count p (ports_of (stale wants fs))
  unfolding keep stale
  count-keep wants [] = refl
  count-keep wants ((k, f) ∷ fs) = elim (Bool-cases (still_wanted (lookup k wants) f)) [
    | inl t ↦ rw t (omega (arith, count-keep wants fs))
    | inr t ↦ rw t (omega (arith, count-keep wants fs))
  ]

  pub count-close_port :
      (q : ℤ) (ports : List ℤ)
      → count p (close_port q ports) ≡ (if eqb_ℤ q p then 0 else count p ports)
  unfolding close_port
  count-close_port q [] = ground arith
  count-close_port q (r ∷ ports) = ground (arith, count-close_port q ports)

  -- A port of the list is closed, and any other left.
  pub count-close_all :
      (fs : List Forwarder) (ports : List ℤ)
      → count p (close_all fs ports) ≡ (if count p (ports_of fs) == 0 then count p ports else 0)
  unfolding close_all
  count-close_all [] ports = refl
  count-close_all (f ∷ fs) ports = ground (
    arith,
    count-close_port f.local_port ports,
    count-close_all fs (close_port f.local_port ports),
  )
