-- ===== src/Text/Digits.antt =====
-- Texts of decimal digits under the functions of `Text`: what they do not hold, and what trimming
-- leaves of them.
use auto_tunnel.Prelude.{
  ℕ, zero, suc, ◌/◌, ◌≤◌, ◌<◌, ◌≡◌, refl, ◌≢◌, ◌⊎◌, inl, inr, false, none, some, [], ◌∷◌, ◌++◌,
  arith, ltb, ltb→lt, Bool-cases, All, All-imp,
}
use auto_tunnel.Prelude.Int.{ℤ, pos, negsuc}
use auto_tunnel.Text.{Bytes, is_space, cut_first, cut_last, trim_left, trim_right, trim_space}
use auto_tunnel.Text.Decimal.{digits, format, itoa}

abbrev pub Lacks : ℕ → Bytes → Type 0
Lacks b = All (λ c. c ≢ b)

pub cut_first-append :
    (b : ℕ) (xs ys : Bytes) → Lacks b xs → cut_first b (xs ++ b ∷ ys) ≡ some (xs, ys)
unfolding cut_first
cut_first-append b [] ys h = ground arith
cut_first-append b (x ∷ xs) ys h = ground (arith, cut_first-append b xs ys h.1)

pub cut_first-none : (b : ℕ) (ys : Bytes) → Lacks b ys → cut_first b ys ≡ none
unfolding cut_first
cut_first-none b [] h = refl
cut_first-none b (y ∷ ys) h = ground (arith, cut_first-none b ys h.1)

pub cut_last-none : (b : ℕ) (ys : Bytes) → Lacks b ys → cut_last b ys ≡ none
unfolding cut_last
cut_last-none b [] h = refl
cut_last-none b (y ∷ ys) h = ground (arith, cut_last-none b ys h.1)

pub cut_last-append :
    (b : ℕ) (xs ys : Bytes) → Lacks b ys → cut_last b (xs ++ b ∷ ys) ≡ some (xs, ys)
unfolding cut_last
cut_last-append b [] ys h = ground (arith, cut_last-none b ys h)
cut_last-append b (x ∷ xs) ys h = ground (arith, cut_last-append b xs ys h)

-- Every byte of a decimal number is a digit.
abbrev pub IsDigit : ℕ → Type 0
IsDigit c = (b'0' ≤ c) × (c ≤ b'9')

digits-IsDigit : (f n : ℕ) (out : Bytes) → All IsDigit out → All IsDigit (digits f n out)
unfolding digits
digits-IsDigit zero n out h = h
digits-IsDigit (suc f) n out h = elim (Bool-cases (ltb n 10)) [
  | inl e ↦ rw e ((omega arith, omega (arith, ltb→lt n 10 e)), h)
  | inr e ↦ rw e (digits-IsDigit f (n / 10) _ ((omega arith, omega arith), h))
]

pub format-IsDigit : (n : ℕ) → All IsDigit (format n)
unfolding format
format-IsDigit n = digits-IsDigit (suc n) n [] tt

pub Lacks-digits : (b : ℕ) (s : Bytes) → (b'9' < b) ⊎ (b < b'0') → All IsDigit s → Lacks b s
Lacks-digits b [] o h = tt
Lacks-digits b (c ∷ s) o h = (ground arith, Lacks-digits b s o h.1)

pub Lacks-itoa : (b : ℕ) (z : ℤ) → (b'9' < b) ⊎ (b ≡ b'/') → Lacks b (itoa z)
unfolding itoa
Lacks-itoa b (pos n) o = Lacks-digits b (format n) (ground arith) (format-IsDigit n)
Lacks-itoa b (negsuc n) o =
    (ground arith, Lacks-digits b (format (suc n)) (ground arith) (format-IsDigit (suc n)))

-- Trimming leaves a text with no white space as it is.
abbrev pub NoSpace : Bytes → Type 0
NoSpace = All (λ c. is_space c ≡ false)

trim_left-NoSpace : (s : Bytes) → NoSpace s → trim_left is_space s ≡ s
unfolding trim_left
trim_left-NoSpace [] h = refl
trim_left-NoSpace (c ∷ s) h = rw h.0 refl

trim_right-NoSpace : (s : Bytes) → NoSpace s → trim_right is_space s ≡ s
unfolding trim_right
trim_right-NoSpace [] h = refl
trim_right-NoSpace (c ∷ []) h = rw h.0 refl
trim_right-NoSpace (c ∷ d ∷ s) h = rw (trim_right-NoSpace (d ∷ s) h.1, trim_right) refl

pub trim_space-NoSpace : (s : Bytes) → NoSpace s → trim_space s ≡ s
unfolding trim_space
trim_space-NoSpace s h = rw (trim_left-NoSpace s h) (trim_right-NoSpace s h)

digit-NoSpace : (c : ℕ) → IsDigit c → is_space c ≡ false
unfolding is_space
digit-NoSpace c h = ground arith

pub NoSpace-digits : (s : Bytes) → All IsDigit s → NoSpace s
NoSpace-digits s = All-imp digit-NoSpace s
