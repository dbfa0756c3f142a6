-- ===== src/Discovery/Ports/Expand/Bounds.antt =====
-- What `expandRange` returns, and when it does not.
use native.Mathlib.Decide.{dec_lt}
use auto_tunnel.Text.Decimal.RoundTrip.{IsInt, atoi-IsInt}
use auto_tunnel.Text.Decimal.{atoi, NumError}
use auto_tunnel.Prelude.{
  ℕ, zero, suc, ◌+◌, ◌-◌, ◌≤◌, ◌<◌, ◌≡◌, refl, ap, ◌∙◌, ◌≢◌, inl, inr, ◌&&◌, List, [], ◌∷◌, arith,
  ltb, ◌==◌, if◌then◌else◌, Bool-cases, length, Result, ok, err,
}
use auto_tunnel.Prelude.Int.{
  eqb_ℤ, ℤ, pos, negsuc, pos_part, ◌≤ℤ◌, ◌+ℤ◌, ◌-ℤ◌, ltb_ℤ, wrap, max_int,
}
use auto_tunnel.Text.{is_empty, Bytes, is_empty}
use auto_tunnel.Text.Decimal.{atoi, NumError}
use auto_tunnel.Discovery.Ports.Expand.{
  RangeError, descending, too_wide, Run, returns, never_returns, Gives, ports_from, expand_from,
  expand_range, expand_lo, expand_hi, range_size, expand_sized, max_ports_per_range,
}

-- The ports of a range, one by one: `pos a`, `pos (a + 1)`, and so on.
abbrev pub consecutive : ℕ → ℕ → List ℤ
consecutive a zero = []
consecutive a (suc n) = pos a ∷ consecutive (suc a) n

ports_from-consecutive : (a n : ℕ) → ports_from (pos a) n ≡ consecutive a n
unfolding ports_from ◌+ℤ◌
ports_from-consecutive a zero = refl
ports_from-consecutive a (suc n) = ground (arith, ports_from-consecutive (suc a) n)

-- The specification: what a range from a natural number to `hi` stands for.
abbrev pub range_spec : ℕ → ℤ → Run (Result RangeError (List ℤ))
range_spec a hi =
    if ltb_ℤ hi (pos a)
    then returns (err (descending (pos a) hi))
    else if ltb (pos_part hi) (a + 64)
    then (if pos_part hi == max_int
        then never_returns
        else returns (ok (consecutive a (pos_part hi - a + 1))))
    else if a == 0 && pos_part hi == max_int
    then never_returns
    else returns (err (too_wide (pos a) hi))

wrap_small : (n : ℕ) → n ≤ max_int → wrap (pos n) ≡ pos n
unfolding wrap
wrap_small n h = ground arith

wrap_large : wrap (pos (suc max_int)) ≡ negsuc max_int
unfolding wrap
wrap_large = refl

pos-sub : (a b : ℕ) → a ≤ b → pos b -ℤ pos a ≡ pos (b - a)
unfolding ◌-ℤ◌
pos-sub a b h = ground arith

pos-add_one : (n : ℕ) → pos n +ℤ pos 1 ≡ pos (suc n)
unfolding ◌+ℤ◌
pos-add_one n = ground arith

range_size_lem :
    (a b : ℕ) → a ≤ b → b ≤ max_int → range_size (pos a) (pos b) ≡ wrap (pos (suc (b - a)))
unfolding range_size
range_size_lem a b h k =
    rw (pos-sub a b h, wrap_small (b - a) (omega arith), pos-add_one (b - a)) refl

-- Only the full range of a 64-bit integer wraps.
range_size_full : range_size (pos 0) (pos max_int) ≡ negsuc max_int
unfolding range_size
range_size_full = refl

range_size_rest :
    (a b : ℕ)
    → a ≤ b
    → b - a < max_int
    → b ≤ max_int
    → range_size (pos a) (pos b) ≡ pos (suc (b - a))
range_size_rest a b h l k = range_size_lem a b h k ∙ wrap_small (suc (b - a)) (omega arith)

-- From a natural number `a` to any 64-bit integer, `expand_from` does what `range_spec` says.
expand_from-range_spec :
    (a : ℕ) (hi : ℤ) → a ≤ max_int → hi ≤ℤ pos max_int → expand_from (pos a) hi ≡ range_spec a hi
unfolding expand_from expand_sized
expand_from-range_spec a (negsuc b) h k = ground arith
expand_from-range_spec a (pos b) h k = elim (dec_lt b a) [
  | yes low ↦ ground arith
  | no high ↦ elim (dec_lt (b - a) max_int) [
    | yes fits ↦
        rw (range_size_rest a b (omega arith) fits (omega arith))
          (ground (arith, ports_from-consecutive a (b - a + 1)))
    | no full ↦
        let low : a ≡ 0 = omega arith in
        let top : b ≡ max_int = omega arith in rw (low, top) (rw range_size_full refl)
  ]
]

IsInt-le : (z : ℤ) → IsInt z → z ≤ℤ pos max_int
IsInt-le (pos n) h = omega arith
IsInt-le (negsuc n) h = omega arith

-- What the two texts of a range stand for, if both are numbers and the first is not negative. A
-- descending range is an error. A range of at most 64 ports is these ports in order, unless it ends
-- at the greatest `int`: then the call never returns. A range of more ports is an error, but for the
-- full range from 0 to the greatest `int`, at which the call never returns either.
pub expand_range-range_spec :
    (lo_str hi_str : Bytes) (a : ℕ) (hi : ℤ)
    → atoi lo_str ≡ ok (pos a)
    → hi_str ≢ []
    → atoi hi_str ≡ ok hi
    → expand_range lo_str hi_str ≡ range_spec a hi
unfolding expand_range is_empty
expand_range-range_spec lo_str [] a hi e n k = absurd (n refl)
expand_range-range_spec lo_str (c ∷ s) a hi e n k =
    rw (e, k)
      (expand_from-range_spec a hi (atoi-IsInt lo_str (pos a) e) (IsInt-le hi (atoi-IsInt _ hi k)))

length-ports_from : (lo : ℤ) (n : ℕ) → length (ports_from lo n) ≡ n
unfolding ports_from
length-ports_from lo zero = refl
length-ports_from lo (suc n) = ap suc (length-ports_from (lo +ℤ pos 1) n)

abbrev pub IsCapped : List ℤ → Type 0
IsCapped ps = length ps ≤ 64

expand_sized-IsCapped : (lo hi size : ℤ) → Gives IsCapped (expand_sized lo hi size)
unfolding expand_sized
expand_sized-IsCapped lo hi size = elim (Bool-cases (ltb_ℤ hi lo)) [
  | inl e ↦ rw e tt
  | inr e ↦ rw e (elim (Bool-cases (ltb_ℤ max_ports_per_range size)) [
    | inl w ↦ rw w tt
    | inr w ↦ rw w (elim (Bool-cases (ltb_ℤ size (pos 0))) [
      | inl n ↦ rw n tt
      | inr n ↦ rw n (elim (Bool-cases (eqb_ℤ hi (pos max_int))) [
        | inl top ↦ rw top tt
        | inr below ↦ rw below (ground (arith, length-ports_from lo (pos_part size)))
      ])
    ])
  ])
]

expand_hi-IsCapped : (lo : ℤ) (r : Result NumError ℤ) → Gives IsCapped (expand_hi lo r)
unfolding expand_hi expand_from
expand_hi-IsCapped lo (ok hi) = expand_sized-IsCapped lo hi (range_size lo hi)
expand_hi-IsCapped lo (err e) = tt

expand_lo-IsCapped : (r : Result NumError ℤ) (hi_str : Bytes) → Gives IsCapped (expand_lo r hi_str)
unfolding expand_lo
expand_lo-IsCapped (err e) s = tt
expand_lo-IsCapped (ok lo) s = elim (Bool-cases (is_empty s)) [
  | inl e ↦ rw e (omega arith)
  | inr e ↦ rw e (expand_hi-IsCapped lo (atoi s))
]

-- No text expands to more than 64 ports.
pub expand_range-IsCapped : (lo_str hi_str : Bytes) → Gives IsCapped (expand_range lo_str hi_str)
unfolding expand_range
expand_range-IsCapped lo_str hi_str = expand_lo-IsCapped (atoi lo_str) hi_str
