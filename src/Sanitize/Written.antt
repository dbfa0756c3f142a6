-- ===== src/Sanitize/Written.antt =====
-- UTF-8: what `WriteRune` writes of a Unicode scalar value is read back.
use auto_tunnel.Prelude.{
  ℕ, ◌+◌, ◌-◌, ◌*◌, ◌/◌, ◌%◌, ◌≤◌, ◌<◌, ◌≡◌, refl, ap, ◌∙◌, ◌≢◌, ◌⊎◌, inl, inr, true, false, ◌&&◌,
  [], ◌∷◌, ◌++◌, arith, ltb, leb, ltb→lt, lt→ltb, Bool-cases,
}
use auto_tunnel.Text.{Bytes}
use auto_tunnel.Sanitize.{
  Rune, between, second_lo, second_hi, decode_two, decode_three, decode_four, decode_rune,
  runes_from, runes, encode_rune,
}
use auto_tunnel.Sanitize.Runes.{Width, one, two, three, four}

ltb-false : (a b : ℕ) → b ≤ a → ltb a b ≡ false
ltb-false a b h = ground arith

-- The number of bytes of a value.
abbrev pub utf8_size : {c : ℕ} → Width c → ℕ
utf8_size (one _) = 1
utf8_size (two _ _) = 2
utf8_size (three _ _ _) = 3
utf8_size (four _ _) = 4

-- What `WriteRune` writes, byte by byte.
abbrev bytes_of : (c : ℕ) → Width c → Bytes
bytes_of c (one _) = c ∷ []
bytes_of c (two _ _) = (0xc0 + c / 64) ∷ (0x80 + c % 64) ∷ []
bytes_of c (three _ _ _) = (0xe0 + c / 4096) ∷ (0x80 + c / 64 % 64) ∷ (0x80 + c % 64) ∷ []
bytes_of c (four _ _) =
    (0xf0 + c / 262144) ∷ (0x80 + c / 4096 % 64) ∷ (0x80 + c / 64 % 64) ∷ (0x80 + c % 64) ∷ []

encode_rune-bytes : (c : ℕ) (w : Width c) → encode_rune c ≡ bytes_of c w
unfolding encode_rune
encode_rune-bytes c (one a) = rw (lt→ltb c 0x80 a) refl
encode_rune-bytes c (two a b) = rw (ltb-false c 0x80 a, lt→ltb c 0x800 b) refl
encode_rune-bytes c (three a s b) =
    rw (ltb-false c 0x80 (omega arith), ltb-false c 0x800 a, lt→ltb c 0x10000 b) refl
encode_rune-bytes c (four a b) =
    rw (ltb-false c 0x80 (omega arith), ltb-false c 0x800 (omega arith), ltb-false c 0x10000 a) refl

decode_rune-first :
    (b : ℕ) (s : Bytes) (r : Rune)
    → decode_rune b s ≡ r
    → runes (b ∷ s) ≡ r ∷ runes_from (r.size - 1) s
unfolding runes runes_from
decode_rune-first b s r e = ap (λ r. r ∷ runes_from (r.size - 1) s) e

not_less : (a b : ℕ) → ltb a b ≡ false → b ≤ a
not_less a b h = ground arith

decode_one-back :
    (c : ℕ) (rest : Bytes) → c < 0x80 → decode_rune c rest ≡ record { code = c; size = 1 }
unfolding decode_rune
decode_one-back c rest a = rw (lt→ltb c 0x80 a) refl

within : (lo hi b : ℕ) → lo ≤ b → b ≤ hi → (leb lo b && leb b hi) ≡ true
within lo hi b l h = ground arith

above : (lo hi b : ℕ) → hi < b → (leb lo b && leb b hi) ≡ false
above lo hi b h = ground arith

decode_two-back :
    (c : ℕ) (rest : Bytes)
    → 0x80 ≤ c
    → c < 0x800
    → decode_rune (0xc0 + c / 64) ((0x80 + c % 64) ∷ rest) ≡ record { code = c; size = 2 }
unfolding decode_rune decode_two between
decode_two-back c rest a b =
    let same : (0xc0 + c / 64 - 0xc0) * 64 + (0x80 + c % 64 - 0x80) ≡ c = omega arith in
    rw
      (
        ltb-false (0xc0 + c / 64) 0x80 (omega arith),
        within 0xc2 0xdf (0xc0 + c / 64) (omega arith) (omega arith),
        within 0x80 0xbf (0x80 + c % 64) (omega arith) (omega arith),
      )
      (ap (λ n. record { code = n; size = 2 }) same)

second-fits :
    (b c : ℕ)
    → 0x80 ≤ c
    → c ≤ 0xbf
    → (b ≢ 0xe0) ⊎ (0xa0 ≤ c)
    → (b ≢ 0xed) ⊎ (c ≤ 0x9f)
    → (b ≢ 0xf0) ⊎ (0x90 ≤ c)
    → (b ≢ 0xf4) ⊎ (c ≤ 0x8f)
    → (leb (second_lo b) c && leb c (second_hi b)) ≡ true
unfolding second_lo second_hi
second-fits b c l h p q r s = ground arith

decode_three-back :
    (c : ℕ) (rest : Bytes)
    → 0x800 ≤ c
    → (c < 0xd800) ⊎ (0xdfff < c)
    → c < 0x10000
    → decode_rune (0xe0 + c / 4096) ((0x80 + c / 64 % 64) ∷ (0x80 + c % 64) ∷ rest)
      ≡ record { code = c; size = 3 }
unfolding decode_rune decode_three between
decode_three-back c rest a s b =
    let same : (0xe0 + c / 4096 - 0xe0) * 4096
          + (0x80 + c / 64 % 64 - 0x80) * 64
          + (0x80 + c % 64 - 0x80)
        ≡ c =
      omega arith in
    rw
      (
        ltb-false (0xe0 + c / 4096) 0x80 (omega arith),
        above 0xc2 0xdf (0xe0 + c / 4096) (omega arith),
        within 0xe0 0xef (0xe0 + c / 4096) (omega arith) (omega arith),
        second-fits (0xe0 + c / 4096) (0x80 + c / 64 % 64) (omega arith) (omega arith)
            (low_three c a) (high_three c s) (inl (omega arith)) (inl (omega arith)),
        within 0x80 0xbf (0x80 + c % 64) (omega arith) (omega arith),
      )
      (ap (λ n. record { code = n; size = 3 }) same)
  where
    low_three : (c : ℕ) → 0x800 ≤ c → ((0xe0 + c / 4096) ≢ 0xe0) ⊎ (0xa0 ≤ (0x80 + c / 64 % 64))
    low_three c a = elim (Bool-cases (ltb c 0x1000)) [
      | inl e ↦ inr (omega (arith, ltb→lt c 0x1000 e))
      | inr e ↦ inl (λ q. omega (arith, q, not_less c 0x1000 e))
    ]

    high_three :
        (c : ℕ)
        → (c < 0xd800) ⊎ (0xdfff < c)
        → ((0xe0 + c / 4096) ≢ 0xed) ⊎ ((0x80 + c / 64 % 64) ≤ 0x9f)
    high_three c (inl l) = elim (Bool-cases (ltb c 0xd000)) [
      | inl e ↦ inl (λ q. omega (arith, q, ltb→lt c 0xd000 e))
      | inr e ↦ inr (omega (arith, l, not_less c 0xd000 e))
    ]
    high_three c (inr h) = inl (λ q. omega (arith, q, h))

decode_four-back :
    (c : ℕ) (rest : Bytes)
    → 0x10000 ≤ c
    → c < 0x110000
    → decode_rune
        (0xf0 + c / 262144)
        ((0x80 + c / 4096 % 64) ∷ (0x80 + c / 64 % 64) ∷ (0x80 + c % 64) ∷ rest)
      ≡ record { code = c; size = 4 }
unfolding decode_rune decode_four between
decode_four-back c rest a b =
    let same : (0xf0 + c / 262144 - 0xf0) * 262144
          + (0x80 + c / 4096 % 64 - 0x80) * 4096
          + (0x80 + c / 64 % 64 - 0x80) * 64
          + (0x80 + c % 64 - 0x80)
        ≡ c =
      omega arith in
    rw
      (
        ltb-false (0xf0 + c / 262144) 0x80 (omega arith),
        above 0xc2 0xdf (0xf0 + c / 262144) (omega arith),
        above 0xe0 0xef (0xf0 + c / 262144) (omega arith),
        within 0xf0 0xf4 (0xf0 + c / 262144) (omega arith) (omega arith),
        second-fits (0xf0 + c / 262144) (0x80 + c / 4096 % 64) (omega arith) (omega arith)
            (inl (omega arith)) (inl (omega arith)) (low_four c a) (high_four c b),
        within 0x80 0xbf (0x80 + c / 64 % 64) (omega arith) (omega arith),
        within 0x80 0xbf (0x80 + c % 64) (omega arith) (omega arith),
      )
      (ap (λ n. record { code = n; size = 4 }) same)
  where
    low_four :
        (c : ℕ) → 0x10000 ≤ c → ((0xf0 + c / 262144) ≢ 0xf0) ⊎ (0x90 ≤ (0x80 + c / 4096 % 64))
    low_four c a = elim (Bool-cases (ltb c 0x40000)) [
      | inl e ↦ inr (omega (arith, a, ltb→lt c 0x40000 e))
      | inr e ↦ inl (λ q. omega (arith, q, not_less c 0x40000 e))
    ]

    high_four :
        (c : ℕ) → c < 0x110000 → ((0xf0 + c / 262144) ≢ 0xf4) ⊎ ((0x80 + c / 4096 % 64) ≤ 0x8f)
    high_four c b = elim (Bool-cases (ltb c 0x100000)) [
      | inl e ↦ inl (λ q. omega (arith, q, ltb→lt c 0x100000 e))
      | inr e ↦ inr (omega (arith, b, not_less c 0x100000 e))
    ]

runes-bytes :
    (c : ℕ) (w : Width c) (rest : Bytes)
    → runes (bytes_of c w ++ rest) ≡ record { code = c; size = utf8_size w } ∷ runes rest
unfolding runes runes_from
runes-bytes c (one a) rest = decode_rune-first c rest _ (decode_one-back c rest a)
runes-bytes c (two a b) rest =
    decode_rune-first (0xc0 + c / 64) ((0x80 + c % 64) ∷ rest) _ (decode_two-back c rest a b)
runes-bytes c (three a s b) rest =
    decode_rune-first (0xe0 + c / 4096) ((0x80 + c / 64 % 64) ∷ (0x80 + c % 64) ∷ rest) _
      (decode_three-back c rest a s b)
runes-bytes c (four a b) rest =
    decode_rune-first (0xf0 + c / 262144)
      ((0x80 + c / 4096 % 64) ∷ (0x80 + c / 64 % 64) ∷ (0x80 + c % 64) ∷ rest) _
      (decode_four-back c rest a b)

-- What is written of a value is read back as that value, whatever follows.
pub runes-encode_rune :
    (c : ℕ) (w : Width c) (rest : Bytes)
    → runes (encode_rune c ++ rest) ≡ record { code = c; size = utf8_size w } ∷ runes rest
runes-encode_rune c w rest =
    ap (λ s. runes (s ++ rest)) (encode_rune-bytes c w) ∙ runes-bytes c w rest
