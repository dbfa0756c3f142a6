-- ===== src/Discovery/Ports/Expand.antt =====
-- internal/discovery/ports.go, `expandRange`: a port or a range of ports as the concrete ports.
pub mod Bounds
use auto_tunnel.Prelude.{
  ℕ, zero, suc, ◌+◌, ◌-◌, ◌≡◌, refl, List, [], ◌∷◌, if◌then◌else◌, Result, ok, err,
}
use auto_tunnel.Prelude.Int.{ℤ, pos, pos_part, ◌+ℤ◌, ◌-ℤ◌, ltb_ℤ, eqb_ℤ, wrap, max_int}
use auto_tunnel.Text.{Bytes, codes, is_empty}
use auto_tunnel.Text.Decimal.{NumError, atoi}

abbrev pub max_ports_per_range : ℤ
max_ports_per_range = pos 64

pub data RangeError : Type 0 where
  not_a_number : NumError → RangeError
  descending : ℤ → ℤ → RangeError
  too_wide : ℤ → ℤ → RangeError

-- What a call does: it returns, or it never_returns, which ends the program.
pub data Run (A : Type 0) : Type 0 where
  returns : A → Run A
  never_returns : Run A

-- What holds of the result if the call returns, and if it returns no error.
abbrev pub Ends : {A : Type 0} → (A → Type 0) → Run A → Type 0
Ends P (returns a) = P a
Ends P never_returns = Unit

abbrev pub Gives : {E A : Type 0} → (A → Type 0) → Run (Result E A) → Type 0
Gives P (returns (ok a)) = P a
Gives P (returns (err e)) = Unit
Gives P never_returns = Unit

-- `for p := lo; p <= hi; p++` with the number of rounds, where `hi` is not the greatest `int`.
unfoldable pub ports_from : ℤ → ℕ → List ℤ
unfolding ◌+ℤ◌
ports_from lo zero = []
ports_from lo (suc n) = lo ∷ ports_from (lo +ℤ pos 1) n

-- `hi-lo+1`, which wraps.
unfoldable pub range_size : ℤ → ℤ → ℤ
unfolding ◌+ℤ◌ ◌-ℤ◌ wrap
range_size lo hi = wrap (wrap (hi -ℤ lo) +ℤ pos 1)

-- `make([]int, 0, size)` panics at a negative capacity. With `hi` the greatest `int`, `p <= hi` holds of
-- every `p` and `p++` wraps, so the loop that appends the ports does not end.
unfoldable pub expand_sized : ℤ → ℤ → ℤ → Run (Result RangeError (List ℤ))
expand_sized lo hi size =
    if ltb_ℤ hi lo
    then returns (err (descending lo hi))
    else if ltb_ℤ max_ports_per_range size
    then returns (err (too_wide lo hi))
    else if ltb_ℤ size (pos 0)
    then never_returns
    else if eqb_ℤ hi (pos max_int)
    then never_returns
    else returns (ok (ports_from lo (pos_part size)))

unfoldable pub expand_from : ℤ → ℤ → Run (Result RangeError (List ℤ))
expand_from lo hi = expand_sized lo hi (range_size lo hi)

unfoldable pub expand_hi : ℤ → Result NumError ℤ → Run (Result RangeError (List ℤ))
expand_hi lo (err e) = returns (err (not_a_number e))
expand_hi lo (ok hi) = expand_from lo hi

unfoldable pub expand_lo : Result NumError ℤ → Bytes → Run (Result RangeError (List ℤ))
expand_lo (err e) hi_str = returns (err (not_a_number e))
expand_lo (ok lo) hi_str =
    if is_empty hi_str then returns (ok (lo ∷ [])) else expand_hi lo (atoi hi_str)

unfoldable pub expand_range : Bytes → Bytes → Run (Result RangeError (List ℤ))
unfolding expand_lo expand_hi
expand_range lo_str hi_str = expand_lo (atoi lo_str) hi_str

expand_range_cases :
    (expand_range (codes "8000") (codes "8002")
      ≡ returns (ok (pos 8000 ∷ pos 8001 ∷ pos 8002 ∷ [])))
    × (expand_range (codes "8002") (codes "8000")
        ≡ returns (err (descending (pos 8002) (pos 8000))))
    × (expand_range (codes "1") (codes "65") ≡ returns (err (too_wide (pos 1) (pos 65))))
    × (expand_range (codes "80") [] ≡ returns (ok (pos 80 ∷ [])))
unfolding expand_range expand_from expand_sized range_size ports_from is_empty atoi
expand_range_cases = (refl, refl, refl, refl)
