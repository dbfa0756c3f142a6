-- ===== src/Text/Decimal.antt =====
-- `strconv.Itoa` and `strconv.Atoi` on 64-bit integers.
pub mod RoundTrip
use auto_tunnel.Prelude.{
  ℕ, zero, suc, ◌+◌, ◌-◌, ◌*◌, ◌/◌, ◌%◌, Bool, true, false, ◌&&◌, [], ◌∷◌, ltb, leb, ◌==◌,
  if◌then◌else◌, Result, ok, err, ◌>>=◌, ◌≡◌, refl,
}
use auto_tunnel.Prelude.Int.{ℤ, pos, negsuc, max_int, two_64}
use auto_tunnel.Text.{Bytes, codes}

-- The digits of a number in front of `out`, with fuel for the rounds.
unfoldable pub digits : ℕ → ℕ → Bytes → Bytes
digits zero n out = out
digits (suc f) n out =
    let more = digits f (n / 10) ((b'0' + n % 10) ∷ out) in
    if ltb n 10 then (b'0' + n) ∷ out else more

unfoldable pub format : ℕ → Bytes
unfolding digits
format n = digits (suc n) n []

unfoldable pub itoa : ℤ → Bytes
unfolding format
itoa (pos n) = format n
itoa (negsuc n) = b'-' ∷ format (suc n)

pub data NumError : Type 0 where
  syntax out_of_range : NumError

unfoldable pub is_digit : ℕ → Bool
is_digit c = leb b'0' c && leb c b'9'

-- strconv.ParseUint in base 10: the first bad digit or overflow of a uint64 ends it.
unfoldable pub scan : Bytes → ℕ → Result NumError ℕ
unfolding is_digit
scan [] n = ok n
scan (c ∷ s) n =
    let m = n * 10 + (c - b'0') in
    let rest = scan s m in
    if is_digit c then if leb two_64 m then err out_of_range else rest else err syntax

unfoldable pub parse_uint : Bytes → Result NumError ℕ
unfolding scan
parse_uint [] = err syntax
parse_uint (c ∷ s) = scan (c ∷ s) 0

in_range : Bool → ℕ → Result NumError ℤ
in_range negative n =
    if negative
    then if leb n (suc max_int)
      then ok (if n == 0 then pos 0 else negsuc (n - 1))
      else err out_of_range
    else if leb n max_int
    then ok (pos n)
    else err out_of_range

unfoldable pub atoi : Bytes → Result NumError ℤ
unfolding parse_uint in_range
atoi [] = err syntax
atoi (c ∷ s) =
    if c == b'-'
    then parse_uint s >>= in_range true
    else if c == b'+'
    then parse_uint s >>= in_range false
    else parse_uint (c ∷ s) >>= in_range false

atoi_plain : atoi (codes "00443") ≡ ok (pos 443)
unfolding atoi
atoi_plain = refl

atoi_signs : (atoi (codes "-5") ≡ ok (negsuc 4)) × (atoi (codes "+5") ≡ ok (pos 5))
unfolding atoi
atoi_signs = (refl, refl)

atoi_bounds :
    (atoi (codes "9223372036854775807") ≡ ok (pos max_int))
    × (atoi (codes "9223372036854775808") ≡ err out_of_range)
    × (atoi (codes "99999999999999999999999") ≡ err out_of_range)
    × (atoi (codes "80x") ≡ err syntax)
unfolding atoi
atoi_bounds = (refl, refl, refl, refl)

itoa_port : itoa (pos 65535) ≡ codes "65535"
unfolding itoa
itoa_port = refl
