-- ===== src/Sanitize.antt =====
-- internal/sanitize/sanitize.go: terminal control characters in text from the remote host. A string
-- is read by `for i, r := range s`, which decodes UTF-8; a byte that starts no rune yields U+FFFD.
pub mod Runes
pub mod Written
pub mod Clean
use auto_tunnel.Prelude.{
  ℕ, zero, suc, ◌+◌, ◌-◌, ◌*◌, ◌/◌, ◌%◌, ◌≡◌, refl, Bool, true, not, ◌&&◌, ◌||◌, List, [], ◌∷◌,
  ◌++◌, ltb, leb, ◌==◌, if◌then◌else◌,
}
use auto_tunnel.Text.{Bytes}

-- The rune at a place, and how many bytes it takes: utf8.DecodeRuneInString.
pub record Rune : Type 0 where
  pub code : ℕ
  pub size : ℕ

abbrev pub rune_error : ℕ
rune_error = 0xfffd

abbrev pub invalid : Rune
invalid = record { code = rune_error; size = 1 }

unfoldable pub between : ℕ → ℕ → ℕ → Bool
between lo hi b = leb lo b && leb b hi

-- The bounds of the second byte, by the first.
unfoldable pub second_lo : ℕ → ℕ
second_lo b = if b == 0xe0 then 0xa0 else if b == 0xf0 then 0x90 else 0x80

unfoldable pub second_hi : ℕ → ℕ
second_hi b = if b == 0xed then 0x9f else if b == 0xf4 then 0x8f else 0xbf

unfoldable pub decode_two : ℕ → Bytes → Rune
unfolding between
decode_two b (c ∷ s) =
    if between 0x80 0xbf c
    then record { code = (b - 0xc0) * 64 + (c - 0x80); size = 2 }
    else invalid
decode_two b [] = invalid

unfoldable pub decode_three : ℕ → Bytes → Rune
unfolding between second_lo second_hi
decode_three b (c ∷ d ∷ s) =
    if between (second_lo b) (second_hi b) c && between 0x80 0xbf d
    then record { code = (b - 0xe0) * 4096 + (c - 0x80) * 64 + (d - 0x80); size = 3 }
    else invalid
decode_three b _ = invalid

unfoldable pub decode_four : ℕ → Bytes → Rune
unfolding between second_lo second_hi
decode_four b (c ∷ d ∷ e ∷ s) =
    if between (second_lo b) (second_hi b) c && between 0x80 0xbf d && between 0x80 0xbf e
    then record {
      code = (b - 0xf0) * 262144 + (c - 0x80) * 4096 + (d - 0x80) * 64 + (e - 0x80);
      size = 4;
    }
    else invalid
decode_four b _ = invalid

unfoldable pub decode_rune : ℕ → Bytes → Rune
unfolding decode_two decode_three decode_four between
decode_rune b s =
    if ltb b 0x80
    then record { code = b; size = 1 }
    else if between 0xc2 0xdf b
    then decode_two b s
    else if between 0xe0 0xef b
    then decode_three b s
    else if between 0xf0 0xf4 b
    then decode_four b s
    else invalid

-- The runes that `range` visits; the number counts the bytes that the last rune still covers.
unfoldable pub runes_from : ℕ → Bytes → List Rune
unfolding decode_rune
runes_from k [] = []
runes_from zero (b ∷ s) =
    let r = decode_rune b s in let rest = runes_from (r.size - 1) s in r ∷ rest
runes_from (suc k) (b ∷ s) = runes_from k s

unfoldable pub runes : Bytes → List Rune
unfolding runes_from
runes = runes_from 0

-- unicode.IsControl: the category Cc.
unfoldable pub is_control : ℕ → Bool
unfolding between
is_control r = leb r 0x1f || between 0x7f 0x9f r

-- `r == utf8.RuneError && !validRuneAt(s, i)`
unfoldable pub is_invalid : Rune → Bool
is_invalid r = r.code == rune_error && not (r.size == 3)

unfoldable pub is_clean_runes : List Rune → Bool
unfolding is_control is_invalid
is_clean_runes [] = true
is_clean_runes (r ∷ rs) = not (is_control r.code) && not (is_invalid r) && is_clean_runes rs

unfoldable pub is_clean : Bytes → Bool
unfolding is_clean_runes runes
is_clean s = is_clean_runes (runes s)

-- strings.Builder.WriteRune
unfoldable pub encode_rune : ℕ → Bytes
encode_rune r =
    if ltb r 0x80
    then r ∷ []
    else if ltb r 0x800
    then (0xc0 + r / 64) ∷ (0x80 + r % 64) ∷ []
    else if ltb r 0x10000
    then (0xe0 + r / 4096) ∷ (0x80 + r / 64 % 64) ∷ (0x80 + r % 64) ∷ []
    else (0xf0 + r / 262144) ∷ (0x80 + r / 4096 % 64) ∷ (0x80 + r / 64 % 64) ∷ (0x80 + r % 64) ∷ []

unfoldable pub write_rune : Rune → Bytes
unfolding is_control is_invalid encode_rune
write_rune r =
    if is_invalid r || is_control r.code then encode_rune rune_error else encode_rune r.code

unfoldable pub write_runes : List Rune → Bytes
unfolding write_rune
write_runes [] = []
write_runes (r ∷ rs) = write_rune r ++ write_runes rs

-- sanitize.String
unfoldable pub sanitize : Bytes → Bytes
unfolding is_clean write_runes
sanitize s = if is_clean s then s else write_runes (runes s)

-- sanitize.Strings
unfoldable pub sanitize_all : List Bytes → List Bytes
unfolding sanitize
sanitize_all [] = []
sanitize_all (s ∷ rest) = sanitize s ∷ sanitize_all rest

-- An escape sequence, a stray control byte and a real U+FFFD.
escape_replaced :
    sanitize (0x1b ∷ b'[' ∷ b'2' ∷ b'J' ∷ []) ≡ 0xef ∷ 0xbf ∷ 0xbd ∷ b'[' ∷ b'2' ∷ b'J' ∷ []
unfolding sanitize
escape_replaced = refl

stray_byte_replaced : sanitize (b'a' ∷ 0x9b ∷ []) ≡ b'a' ∷ 0xef ∷ 0xbf ∷ 0xbd ∷ []
unfolding sanitize
stray_byte_replaced = refl

replacement_kept : sanitize (0xef ∷ 0xbf ∷ 0xbd ∷ []) ≡ 0xef ∷ 0xbf ∷ 0xbd ∷ []
unfolding sanitize
replacement_kept = refl
