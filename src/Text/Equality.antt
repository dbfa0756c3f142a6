-- ===== src/Text/Equality.antt =====
-- Laws of the tests on Go strings: equality decides, and the order is strict and total.
use auto_tunnel.Prelude.{◌≡◌, refl, ◌≢◌, ◌↔◌, ◌⊎◌, inl, inr, true, false, [], ◌∷◌, arith}
use auto_tunnel.Text.{is_empty, Bytes, eqb, ltb_bytes}

pub eqb_refl : (s : Bytes) → eqb s s ≡ true
unfolding eqb
eqb_refl [] = refl
eqb_refl (c ∷ s) = ground (arith, eqb_refl s)

pub eq_of_eqb : (s t : Bytes) → eqb s t ≡ true → s ≡ t
unfolding eqb
eq_of_eqb [] [] h = refl
eq_of_eqb [] (y ∷ ys) h = cc
eq_of_eqb (x ∷ xs) [] h = cc
eq_of_eqb (x ∷ xs) (y ∷ ys) h = ground (arith, eq_of_eqb xs ys)

pub eqb_iff : (s t : Bytes) → (eqb s t ≡ true) ↔ (s ≡ t)
eqb_iff s t = (eq_of_eqb s t, λ e. rw e (eqb_refl t))

pub ltb_bytes_irrefl : (s : Bytes) → ltb_bytes s s ≡ false
unfolding ltb_bytes
ltb_bytes_irrefl [] = refl
ltb_bytes_irrefl (c ∷ s) = ground (arith, ltb_bytes_irrefl s)

pub ltb_bytes_trans :
    (s t u : Bytes) → ltb_bytes s t ≡ true → ltb_bytes t u ≡ true → ltb_bytes s u ≡ true
unfolding ltb_bytes
ltb_bytes_trans s t [] h k = cc
ltb_bytes_trans s [] (z ∷ u) h k = ground arith
ltb_bytes_trans [] (y ∷ t) (z ∷ u) h k = refl
ltb_bytes_trans (x ∷ s) (y ∷ t) (z ∷ u) h k = ground (arith, ltb_bytes_trans s t u)

pub ltb_bytes_total : (s t : Bytes) → (ltb_bytes s t ≡ true) ⊎ (s ≡ t) ⊎ (ltb_bytes t s ≡ true)
unfolding ltb_bytes
ltb_bytes_total [] [] = inr (inl refl)
ltb_bytes_total [] (y ∷ t) = inl refl
ltb_bytes_total (x ∷ s) [] = inr (inr refl)
ltb_bytes_total (x ∷ s) (y ∷ t) = ground (arith, ltb_bytes_total s t)

pub ltb_bytes_asym : (s t : Bytes) → ltb_bytes s t ≡ true → ltb_bytes t s ≡ false
ltb_bytes_asym s t h = ground (arith, ltb_bytes_irrefl s, ltb_bytes_trans s t s)

ltb_bytes-nil : (u : Bytes) → ltb_bytes u [] ≡ false
unfolding ltb_bytes
ltb_bytes-nil [] = refl
ltb_bytes-nil (z ∷ u) = refl

-- What is not less carries over.
pub ltb_bytes_trans_not :
    (s t u : Bytes) → ltb_bytes t s ≡ false → ltb_bytes u t ≡ false → ltb_bytes u s ≡ false
unfolding ltb_bytes
ltb_bytes_trans_not [] [] [] h k = refl
ltb_bytes_trans_not [] [] (z ∷ u) h k = refl
ltb_bytes_trans_not [] (y ∷ t) u h k = ltb_bytes-nil u
ltb_bytes_trans_not (x ∷ s) [] u h k = cc
ltb_bytes_trans_not (x ∷ s) (y ∷ t) [] h k = k
ltb_bytes_trans_not (x ∷ s) (y ∷ t) (z ∷ u) h k = ground (arith, ltb_bytes_trans_not s t u)

pub is_empty-true : (s : Bytes) → is_empty s ≡ true → s ≡ []
unfolding is_empty
is_empty-true [] h = refl
is_empty-true (c ∷ s) h = cc

pub is_empty-false : (s : Bytes) → is_empty s ≡ false → s ≢ []
unfolding is_empty
is_empty-false [] h e = cc
is_empty-false (c ∷ s) h e = cc
