-- ===== src/GoMap.antt =====
-- Go's `map[string]V` as an association list. A theorem that speaks of the order of a map's entries
-- takes that order as an argument, since Go visits a map in any order.
use auto_tunnel.Prelude.{
  ◌≡◌, refl, subst, ◌≢◌, inl, inr, Bool, Option, none, some, List, [], ◌∷◌, arith, if◌then◌else◌,
  Bool-cases, All, AllPairs,
}
use auto_tunnel.Text.{Bytes, eqb}
use auto_tunnel.Text.Equality.{eqb_iff}

abbrev pub Map : Type 0 → Type 0
Map V = List (Bytes × V)

module _ {V : Type 0} where
  -- v, ok := m[k]
  unfoldable pub lookup : Bytes → Map V → Option V
  lookup k [] = none
  lookup k ((j, v) ∷ m) = if eqb j k then some v else lookup k m

  -- m[k] = v
  unfoldable pub insert : Bytes → V → Map V → Map V
  insert k v [] = (k, v) ∷ []
  insert k v ((j, w) ∷ m) = let rest = insert k v m in if eqb j k then (k, v) ∷ m else (j, w) ∷ rest

  -- delete(m, k)
  unfoldable pub delete : Bytes → Map V → Map V
  delete k [] = []
  delete k ((j, v) ∷ m) = let rest = delete k m in if eqb j k then rest else (j, v) ∷ rest

  -- `for k := range m { if !p(k, m[k]) { delete(m, k) } }`
  unfoldable pub keep : (Bytes → V → Bool) → Map V → Map V
  keep p [] = []
  keep p ((j, v) ∷ m) = let rest = keep p m in if p j v then (j, v) ∷ rest else rest

  pub lookup-cons :
      (k j : Bytes) (v : V) (m : Map V)
      → lookup k ((j, v) ∷ m) ≡ (if eqb j k then some v else lookup k m)
  unfolding lookup
  lookup-cons k j v m = refl

  pub lookup-insert :
      (k j : Bytes) (v : V) (m : Map V)
      → lookup j (insert k v m) ≡ (if eqb k j then some v else lookup j m)
  unfolding lookup insert
  lookup-insert k j v [] = refl
  lookup-insert k j v ((i, w) ∷ m) =
      ground (arith, eqb_iff k j, eqb_iff i k, eqb_iff i j, lookup-insert k j v m)

  pub lookup-delete :
      (k j : Bytes) (m : Map V) → lookup j (delete k m) ≡ (if eqb k j then none else lookup j m)
  unfolding lookup delete
  lookup-delete k j [] = ground arith
  lookup-delete k j ((i, w) ∷ m) =
      ground (arith, eqb_iff k j, eqb_iff i k, eqb_iff i j, lookup-delete k j m)

  -- What `keep` leaves of one entry.
  abbrev pub kept : (Bytes → V → Bool) → Bytes → Option V → Option V
  kept p k none = none
  kept p k (some v) = if p k v then some v else none

  -- A key stands in the map once.
  abbrev pub IsMap : Map V → Type 0
  IsMap = AllPairs (λ a b. a.0 ≢ b.0)

  lookup-absent : (k : Bytes) (m : Map V) → All (λ b. k ≢ b.0) m → lookup k m ≡ none
  unfolding lookup
  lookup-absent k [] h = refl
  lookup-absent k ((j, v) ∷ m) h = ground (arith, eqb_iff j k, lookup-absent k m h.1)

  pub lookup-keep :
      (p : Bytes → V → Bool) (k : Bytes) (m : Map V)
      → IsMap m
      → lookup k (keep p m) ≡ kept p k (lookup k m)
  unfolding lookup keep
  lookup-keep p k [] h = refl
  lookup-keep p k ((j, v) ∷ m) h = elim (Bool-cases (eqb j k)) [
    | inl e ↦
        let same = (eqb_iff j k).0 e in
        let gone = lookup-absent k m (subst (λ i. All (λ b. i ≢ b.0) m) same h.0) in
        ground (arith, same, gone, lookup-keep p k m h.1)
    | inr e ↦ ground (arith, lookup-keep p k m h.1)
  ]

  All-keep :
      (P : Bytes × V → Type 0) (p : Bytes → V → Bool) (m : Map V) → All P m → All P (keep p m)
  unfolding keep
  All-keep P p [] h = tt
  All-keep P p ((j, v) ∷ m) h = elim (Bool-cases (p j v)) [
    | inl e ↦ rw e (h.0, All-keep P p m h.1)
    | inr e ↦ rw e (All-keep P p m h.1)
  ]

  pub keep-IsMap : (p : Bytes → V → Bool) (m : Map V) → IsMap m → IsMap (keep p m)
  unfolding keep
  keep-IsMap p [] h = tt
  keep-IsMap p ((j, v) ∷ m) h = elim (Bool-cases (p j v)) [
    | inl e ↦ rw e (All-keep (λ b. j ≢ b.0) p m h.0, keep-IsMap p m h.1)
    | inr e ↦ rw e (keep-IsMap p m h.1)
  ]

  All-insert :
      (P : Bytes → Type 0) (k : Bytes) (v : V) (m : Map V)
      → P k
      → All (λ b. P b.0) m
      → All (λ b. P b.0) (insert k v m)
  unfolding insert
  All-insert P k v [] p h = (p, tt)
  All-insert P k v ((j, w) ∷ m) p h = elim (Bool-cases (eqb j k)) [
    | inl e ↦ rw e (p, h.1)
    | inr e ↦ rw e (h.0, All-insert P k v m p h.1)
  ]

  pub insert-IsMap : (k : Bytes) (v : V) (m : Map V) → IsMap m → IsMap (insert k v m)
  unfolding insert
  insert-IsMap k v [] h = (tt, tt)
  insert-IsMap k v ((j, w) ∷ m) h = elim (Bool-cases (eqb j k)) [
    | inl e ↦ rw e (subst (λ i. All (λ b. i ≢ b.0) m) ((eqb_iff j k).0 e) h.0, h.1)
    | inr e ↦ rw e (
      All-insert (λ i. j ≢ i) k v m (λ q. absurd (cc ((eqb_iff j k).1 q))) h.0,
      insert-IsMap k v m h.1,
    )
  ]

  All-delete : (P : Bytes × V → Type 0) (k : Bytes) (m : Map V) → All P m → All P (delete k m)
  unfolding delete
  All-delete P k [] h = tt
  All-delete P k ((j, w) ∷ m) h = elim (Bool-cases (eqb j k)) [
    | inl e ↦ rw e (All-delete P k m h.1)
    | inr e ↦ rw e (h.0, All-delete P k m h.1)
  ]

  pub delete-IsMap : (k : Bytes) (m : Map V) → IsMap m → IsMap (delete k m)
  unfolding delete
  delete-IsMap k [] h = tt
  delete-IsMap k ((j, w) ∷ m) h = elim (Bool-cases (eqb j k)) [
    | inl e ↦ rw e (delete-IsMap k m h.1)
    | inr e ↦ rw e (All-delete (λ b. j ≢ b.0) k m h.0, delete-IsMap k m h.1)
  ]
