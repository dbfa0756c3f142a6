-- ===== src/Text/Decimal/RoundTrip.antt =====
-- Reading back what `Itoa` prints.
use auto_tunnel.Prelude.{
  ℕ, zero, suc, ◌+◌, ◌/◌, ◌%◌, ◌≤◌, ◌<◌, ◌≡◌, refl, ◌∙◌, inl, inr, Bool, true, false, [], ◌∷◌,
  arith, ltb, ◌==◌, ltb→lt, Bool-cases, Result, ok, err, ◌>>=◌,
}
use auto_tunnel.Prelude.Int.{ℤ, pos, negsuc, max_int}
use auto_tunnel.Text.{Bytes}
use auto_tunnel.Text.Decimal.{
  digits, format, itoa, is_digit, scan, parse_uint, in_range, NumError, atoi,
}

-- Reading the last digit of `n` behind the digits before it gives `n`.
scan_last :
    (n : ℕ) (out : Bytes) → n ≤ suc max_int → scan ((b'0' + n % 10) ∷ out) (n / 10) ≡ scan out n
unfolding scan
scan_last n out h = ground arith

scan_one : (n : ℕ) (out : Bytes) → n < 10 → scan ((b'0' + n) ∷ out) 0 ≡ scan out n
unfolding scan
scan_one n out h = ground arith

scan-digits :
    (f n : ℕ) (out : Bytes) → n < f → n ≤ suc max_int → scan (digits f n out) 0 ≡ scan out n
unfolding digits
scan-digits zero n out h k = absurd (omega arith)
scan-digits (suc f) n out h k = elim (Bool-cases (ltb n 10)) [
  | inl small ↦ rw small (scan_one n out (ltb→lt n 10 small))
  | inr large ↦ rw large (
      scan-digits f (n / 10) ((b'0' + n % 10) ∷ out) (ground arith) (omega arith)
      ∙ scan_last n out k)
]

StartsDigit : Bytes → Type 0
unfolding is_digit
StartsDigit [] = ⊥
StartsDigit (c ∷ s) = is_digit c ≡ true

digits-StartsDigit : (f n : ℕ) (out : Bytes) → n < f → StartsDigit (digits f n out)
unfolding digits StartsDigit
digits-StartsDigit zero n out h = absurd (omega arith)
digits-StartsDigit (suc f) n out h = elim (Bool-cases (ltb n 10)) [
  | inl small ↦ rw small (ground arith)
  | inr large ↦ rw large (digits-StartsDigit f (n / 10) ((b'0' + n % 10) ∷ out) (ground arith))
]

parse_uint-scan : (s : Bytes) → StartsDigit s → parse_uint s ≡ scan s 0
unfolding parse_uint StartsDigit
parse_uint-scan [] h = absurd h
parse_uint-scan (c ∷ s) h = refl

pub parse_uint-format : (n : ℕ) → n ≤ suc max_int → parse_uint (format n) ≡ ok n
unfolding format scan
parse_uint-format n h =
    parse_uint-scan _ (digits-StartsDigit (suc n) n [] (omega arith))
    ∙ scan-digits (suc n) n [] (omega arith) h

atoi_unsigned :
    (s : Bytes) (n : ℕ) → StartsDigit s → n ≤ max_int → parse_uint s ≡ ok n → atoi s ≡ ok (pos n)
unfolding atoi StartsDigit
atoi_unsigned [] n h k e = absurd h
atoi_unsigned (c ∷ s) n h k e = ground arith

-- `int`s of this program's range that are read back from their decimal print.
abbrev pub IsInt : ℤ → Type 0
IsInt (pos n) = n ≤ max_int
IsInt (negsuc n) = n ≤ max_int

-- Every 64-bit integer is read back by `Atoi` from what `Itoa` prints.
pub atoi-itoa : (z : ℤ) → IsInt z → atoi (itoa z) ≡ ok z
unfolding itoa
atoi-itoa (pos n) h =
    unfold format in
    atoi_unsigned (format n) n (digits-StartsDigit (suc n) n [] (omega arith)) h
      (parse_uint-format n (omega arith))
atoi-itoa (negsuc n) h = unfold atoi in rw (parse_uint-format (suc n) (omega arith)) (ground arith)

in_range-IsInt : (b : Bool) (n : ℕ) (z : ℤ) → in_range b n ≡ ok z → IsInt z
unfolding in_range
in_range-IsInt true n (pos m) h = ground arith
in_range-IsInt true n (negsuc m) h = ground arith
in_range-IsInt false n (pos m) h = ground arith
in_range-IsInt false n (negsuc m) h = ground arith

bind-IsInt : (b : Bool) (r : Result NumError ℕ) (z : ℤ) → (r >>= in_range b) ≡ ok z → IsInt z
bind-IsInt b (ok n) z h = in_range-IsInt b n z h
bind-IsInt b (err e) z h = cc

-- What `Atoi` accepts is a 64-bit integer.
pub atoi-IsInt : (s : Bytes) (z : ℤ) → atoi s ≡ ok z → IsInt z
unfolding atoi
atoi-IsInt [] z h = cc
atoi-IsInt (c ∷ s) z h = elim (Bool-cases (c == b'-')) [
  | inl e ↦ bind-IsInt true (parse_uint s) z (rw e at h)
  | inr e ↦ elim (Bool-cases (c == b'+')) [
    | inl p ↦ bind-IsInt false (parse_uint s) z (rw (e, p) at h)
    | inr p ↦ bind-IsInt false (parse_uint (c ∷ s)) z (rw (e, p) at h)
  ]
]
