-- ===== src/Sanitize/Runes.antt =====
-- UTF-8: what `range` reads is a Unicode scalar value.
use auto_tunnel.Prelude.{
  ℕ, zero, suc, ◌+◌, ◌-◌, ◌*◌, ◌≤◌, ◌<◌, ◌≡◌, ◌≢◌, ◌⊎◌, inr, true, ◌&&◌, [], ◌∷◌, arith, ltb, leb,
  ltb→lt, leb→le, if_both, and_left, and_right, All,
}
use auto_tunnel.Text.{Bytes}
use auto_tunnel.Sanitize.{
  Rune, invalid, between, second_lo, second_hi, decode_two, decode_three, decode_four, decode_rune,
  runes_from, runes,
}

-- A number of at most 0x10ffff that is not a surrogate, by the length of its UTF-8.
pub data Width : ℕ → Type 0 where
  one : {c : ℕ} → c < 0x80 → Width c
  two : {c : ℕ} → 0x80 ≤ c → c < 0x800 → Width c
  three : {c : ℕ} → 0x800 ≤ c → (c < 0xd800) ⊎ (0xdfff < c) → c < 0x10000 → Width c
  four : {c : ℕ} → 0x10000 ≤ c → c < 0x110000 → Width c

abbrev IsRead : Rune → Type 0
IsRead r = Width r.code

invalid-IsRead : IsRead invalid
invalid-IsRead = three (omega arith) (inr (omega arith)) (omega arith)

between-bounds : (lo hi b : ℕ) → between lo hi b ≡ true → (lo ≤ b) × (b ≤ hi)
unfolding between
between-bounds lo hi b h = (
  leb→le lo b (and_left (leb lo b) (leb b hi) h),
  leb→le b hi (and_right (leb lo b) (leb b hi) h),
)

decode_two-IsRead : (b : ℕ) (s : Bytes) → between 0xc2 0xdf b ≡ true → IsRead (decode_two b s)
unfolding decode_two
decode_two-IsRead b [] h = invalid-IsRead
decode_two-IsRead b (c ∷ s) h =
    if_both IsRead (between 0x80 0xbf c)
      (λ e.
        let (l, u) = between-bounds 0xc2 0xdf b h in
        let (m, v) = between-bounds 0x80 0xbf c e in
        two (omega (arith, l, u, m, v)) (omega (arith, l, u, m, v)))
      (λ e. invalid-IsRead)

-- The second byte, whose bounds depend on the first.
second-range : (b c : ℕ) → second_lo b ≤ c → c ≤ second_hi b → (0x80 ≤ c) × (c ≤ 0xbf)
unfolding second_lo second_hi
second-range b c l u = ground arith

second-narrow :
    (b c : ℕ)
    → second_lo b ≤ c
    → c ≤ second_hi b
    → ((b ≢ 0xe0) ⊎ (0xa0 ≤ c))
      × ((b ≢ 0xed) ⊎ (c ≤ 0x9f))
      × ((b ≢ 0xf0) ⊎ (0x90 ≤ c))
      × ((b ≢ 0xf4) ⊎ (c ≤ 0x8f))
unfolding second_lo second_hi
second-narrow b c l u = ground arith

three-Width :
    (b c d : ℕ)
    → 0xe0 ≤ b
    → b ≤ 0xef
    → second_lo b ≤ c
    → c ≤ second_hi b
    → 0x80 ≤ d
    → d ≤ 0xbf
    → Width ((b - 0xe0) * 4096 + (c - 0x80) * 64 + (d - 0x80))
three-Width b c d l u m v n w =
    let r = second-range b c m v in
    let s = second-narrow b c m v in
    three (omega (arith, l, u, n, w, r, s)) (omega (arith, l, u, n, w, r, s))
      (omega (arith, l, u, n, w, r, s))

four-Width :
    (b c d e : ℕ)
    → 0xf0 ≤ b
    → b ≤ 0xf4
    → second_lo b ≤ c
    → c ≤ second_hi b
    → 0x80 ≤ d
    → d ≤ 0xbf
    → 0x80 ≤ e
    → e ≤ 0xbf
    → Width ((b - 0xf0) * 262144 + (c - 0x80) * 4096 + (d - 0x80) * 64 + (e - 0x80))
four-Width b c d e l u m v n w p q =
    let r = second-range b c m v in
    let s = second-narrow b c m v in
    four (omega (arith, l, u, n, w, p, q, r, s)) (omega (arith, l, u, n, w, p, q, r, s))

decode_three-IsRead : (b : ℕ) (s : Bytes) → between 0xe0 0xef b ≡ true → IsRead (decode_three b s)
unfolding decode_three
decode_three-IsRead b [] h = invalid-IsRead
decode_three-IsRead b (c ∷ []) h = invalid-IsRead
decode_three-IsRead b (c ∷ d ∷ s) h =
    if_both IsRead (between (second_lo b) (second_hi b) c && between 0x80 0xbf d)
      (λ e.
        let (l, u) = between-bounds 0xe0 0xef b h in
        let (m, v) =
          between-bounds (second_lo b) (second_hi b) c (and_left _ (between 0x80 0xbf d) e) in
        let (n, w) =
          between-bounds 0x80 0xbf d (and_right (between (second_lo b) (second_hi b) c) _ e) in
        three-Width b c d l u m v n w)
      (λ e. invalid-IsRead)

decode_four-IsRead : (b : ℕ) (s : Bytes) → between 0xf0 0xf4 b ≡ true → IsRead (decode_four b s)
unfolding decode_four
decode_four-IsRead b [] h = invalid-IsRead
decode_four-IsRead b (c ∷ []) h = invalid-IsRead
decode_four-IsRead b (c ∷ d ∷ []) h = invalid-IsRead
decode_four-IsRead b (c ∷ d ∷ e ∷ s) h =
    let first = between (second_lo b) (second_hi b) c in
    let second = between 0x80 0xbf d in
    let third = between 0x80 0xbf e in
    if_both IsRead (first && second && third)
      (λ x.
        let (l, u) = between-bounds 0xf0 0xf4 b h in
        let two_bytes = and_left (first && second) third x in
        let (m, v) =
          between-bounds (second_lo b) (second_hi b) c (and_left first second two_bytes) in
        let (n, w) = between-bounds 0x80 0xbf d (and_right first second two_bytes) in
        let (p, q) = between-bounds 0x80 0xbf e (and_right (first && second) third x) in
        four-Width b c d e l u m v n w p q)
      (λ x. invalid-IsRead)

decode_rune-IsRead : (b : ℕ) (s : Bytes) → IsRead (decode_rune b s)
unfolding decode_rune
decode_rune-IsRead b s =
    if_both IsRead (ltb b 0x80) (λ e. one (ltb→lt b 0x80 e))
      (λ e. if_both IsRead (between 0xc2 0xdf b) (decode_two-IsRead b s) (λ f.
        if_both IsRead (between 0xe0 0xef b) (decode_three-IsRead b s) (λ g.
          if_both IsRead (between 0xf0 0xf4 b) (decode_four-IsRead b s) (λ h. invalid-IsRead))))

runes_from-IsRead : (k : ℕ) (s : Bytes) → All IsRead (runes_from k s)
unfolding runes_from
runes_from-IsRead k [] = tt
runes_from-IsRead zero (b ∷ s) = (decode_rune-IsRead b s, runes_from-IsRead _ s)
runes_from-IsRead (suc k) (b ∷ s) = runes_from-IsRead k s

-- A string is read as Unicode scalar values.
pub runes-Width : (s : Bytes) → All (λ r. Width r.code) (runes s)
unfolding runes
runes-Width s = runes_from-IsRead 0 s
