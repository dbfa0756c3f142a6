-- ===== src/Prelude/Sort.antt =====
-- `sort.SliceStable` as an insertion sort: entries that the order does not tell apart keep their
-- order. (`sort.Slice` may return any order of such entries.)
use mathlib.Core.List.{Perm}
use mathlib.Core.List.Perm
use auto_tunnel.Prelude.{
  ◌≡◌, inl, inr, Bool, true, false, List, [], ◌∷◌, if◌then◌else◌, Bool-cases, All, AllPairs,
}

module _ {A : Type 0} (less : A → A → Bool) where
  unfoldable pub insert_by : A → List A → List A
  insert_by x [] = x ∷ []
  insert_by x (y ∷ ys) = let later = insert_by x ys in if less y x then y ∷ later else x ∷ y ∷ ys

  unfoldable pub sort_by : List A → List A
  unfolding insert_by
  sort_by [] = []
  sort_by (x ∷ xs) = insert_by x (sort_by xs)

  -- No entry stands behind a greater one.
  abbrev pub IsSorted : List A → Type 0
  IsSorted = AllPairs (λ x y. less y x ≡ false)

  pub insert_by-perm : (x : A) (ys : List A) → Perm (insert_by x ys) (x ∷ ys)
  unfolding insert_by
  insert_by-perm x [] = Perm.refl _
  insert_by-perm x (y ∷ ys) = elim (Bool-cases (less y x)) [
    | inl h ↦ rw h (Perm.trans (Perm.cons y (insert_by-perm x ys)) (Perm.swap x y ys))
    | inr h ↦ rw h (Perm.refl _)
  ]

  pub sort_by-perm : (xs : List A) → Perm (sort_by xs) xs
  unfolding sort_by
  sort_by-perm [] = Perm.refl _
  sort_by-perm (x ∷ xs) = Perm.trans (insert_by-perm x (sort_by xs)) (Perm.cons x (sort_by-perm xs))

  pub All-insert_by :
      (P : A → Type 0) (x : A) (ys : List A) → P x → All P ys → All P (insert_by x ys)
  unfolding insert_by
  All-insert_by P x [] p h = (p, tt)
  All-insert_by P x (y ∷ ys) p h = elim (Bool-cases (less y x)) [
    | inl e ↦ rw e (h.0, All-insert_by P x ys p h.1)
    | inr e ↦ rw e (p, h)
  ]

  pub All-sort_by : (P : A → Type 0) (xs : List A) → All P xs → All P (sort_by xs)
  unfolding sort_by
  All-sort_by P [] h = tt
  All-sort_by P (x ∷ xs) h = All-insert_by P x (sort_by xs) h.0 (All-sort_by P xs h.1)

-- Sorting keeps a symmetric relation between all entries.
module _ {A : Type 0} (less : A → A → Bool) {R : A → A → Type 0}
    (flip : (x y : A) → R x y → R y x) where
  AllPairs-insert_by :
      (x : A) (ys : List A) → All (R x) ys → AllPairs R ys → AllPairs R (insert_by less x ys)
  unfolding insert_by
  AllPairs-insert_by x [] a h = (tt, tt)
  AllPairs-insert_by x (y ∷ ys) a h = elim (Bool-cases (less y x)) [
    | inl e ↦
        rw e (All-insert_by less (R y) x ys (flip x y a.0) h.0, AllPairs-insert_by x ys a.1 h.1)
    | inr e ↦ rw e (a, h)
  ]

  pub AllPairs-sort_by : (xs : List A) → AllPairs R xs → AllPairs R (sort_by less xs)
  unfolding sort_by
  AllPairs-sort_by [] h = tt
  AllPairs-sort_by (x ∷ xs) h =
      AllPairs-insert_by x (sort_by less xs) (All-sort_by less (R x) xs h.0)
        (AllPairs-sort_by xs h.1)

-- An order that `sort.Slice` accepts: no cycles, and what is not less carries over.
pub record IsOrder {A : Type 0} (less : A → A → Bool) : Type 0 where
  pub asym : (x y : A) → less x y ≡ true → less y x ≡ false
  pub trans_not : (x y z : A) → less y x ≡ false → less z y ≡ false → less z x ≡ false

module _ {A : Type 0} {less : A → A → Bool} (o : IsOrder less) where
  All-not_less :
      (x y : A) (zs : List A)
      → less y x ≡ false
      → All (λ z. less z y ≡ false) zs
      → All (λ z. less z x ≡ false) zs
  All-not_less x y [] h a = tt
  All-not_less x y (z ∷ zs) h a = (o.trans_not x y z h a.0, All-not_less x y zs h a.1)

  insert_by-IsSorted :
      (x : A) (ys : List A) → IsSorted less ys → IsSorted less (insert_by less x ys)
  unfolding insert_by
  insert_by-IsSorted x [] s = (tt, tt)
  insert_by-IsSorted x (y ∷ ys) s = elim (Bool-cases (less y x)) [
    | inl e ↦ rw e (
      All-insert_by less (λ z. less z y ≡ false) x ys (o.asym y x e) s.0,
      insert_by-IsSorted x ys s.1,
    )
    | inr e ↦ rw e ((e, All-not_less x y ys e s.0), (s.0, s.1))
  ]

  -- The result is in order.
  pub sort_by-IsSorted : (xs : List A) → IsSorted less (sort_by less xs)
  unfolding sort_by
  sort_by-IsSorted [] = tt
  sort_by-IsSorted (x ∷ xs) = insert_by-IsSorted x (sort_by less xs) (sort_by-IsSorted xs)
