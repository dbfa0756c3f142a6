-- ===== src/Sanitize/Clean.antt =====
-- What `sanitize.String` promises: its result has nothing that a terminal takes for control.
use auto_tunnel.Prelude.{
  ℕ, ◌≤◌, ◌<◌, ◌≡◌, refl, ap, ◌∙◌, ◌≢◌, ◌⊎◌, inl, inr, Bool, true, false, not, ◌&&◌, ◌||◌, List, [],
  ◌∷◌, ◌++◌, arith, ◌==◌, Bool-cases, if_both, and_left, and_right, false_of_not, All,
}
use auto_tunnel.Text.{Bytes}
use auto_tunnel.Sanitize.{
  Rune, rune_error, runes, is_control, is_invalid, is_clean, is_clean_runes, encode_rune,
  write_rune, write_runes, sanitize, between,
}
use auto_tunnel.Sanitize.Runes.{Width, one, two, three, four, runes-Width}
use auto_tunnel.Sanitize.Written.{runes-encode_rune, utf8_size}

-- A rune that `String` keeps: no control character, and not the mark of a byte that starts no rune.
abbrev pub IsPrintable : Rune → Type 0
IsPrintable r =
    (0x20 ≤ r.code) × ((r.code < 0x7f) ⊎ (0x9f < r.code)) × ((r.code ≢ 0xfffd) ⊎ (r.size ≡ 3))

is_control-false : (c : ℕ) → is_control c ≡ false → (0x20 ≤ c) × ((c < 0x7f) ⊎ (0x9f < c))
unfolding is_control between
is_control-false c h = (ground arith, ground arith)

is_invalid-false : (r : Rune) → is_invalid r ≡ false → (r.code ≢ 0xfffd) ⊎ (r.size ≡ 3)
unfolding is_invalid
is_invalid-false r h = elim (Bool-cases (r.code == rune_error)) [
  | inl e ↦ inr (ground arith)
  | inr e ↦ inl (λ q. ground arith)
]

is_clean_runes-IsPrintable : (rs : List Rune) → is_clean_runes rs ≡ true → All IsPrintable rs
unfolding is_clean_runes
is_clean_runes-IsPrintable [] h = tt
is_clean_runes-IsPrintable (r ∷ rs) h =
    let both = and_left (not (is_control r.code) && not (is_invalid r)) (is_clean_runes rs) h in
    let (low, apart) =
      is_control-false r.code
        (false_of_not _ (and_left (not (is_control r.code)) (not (is_invalid r)) both)) in
    (
      (
        low,
        apart,
        is_invalid-false r
            (false_of_not _ (and_right (not (is_control r.code)) (not (is_invalid r)) both)),
      ),
      is_clean_runes-IsPrintable rs
          (and_right (not (is_control r.code) && not (is_invalid r)) (is_clean_runes rs) h),
    )

-- The value that is written for a rune: printable, and its own size.
abbrev Written : Rune → Type 0
Written r =
    (c : ℕ) × (w : Width c) × (write_rune r ≡ encode_rune c)
    × (is_control c ≡ false)
    × (is_invalid (record { code = c; size = utf8_size w }) ≡ false)

rune_error-Width : Width rune_error
rune_error-Width = three (omega arith) (inr (omega arith)) (omega arith)

or_left_false : (a b : Bool) → (a || b) ≡ false → a ≡ false
or_left_false false b h = refl
or_left_false true b h = h

or_right_false : (a b : Bool) → (a || b) ≡ false → b ≡ false
or_right_false false b h = h
or_right_false true b h = cc

read_size : (c : ℕ) (w : Width c) → is_invalid (record { code = c; size = utf8_size w }) ≡ false
unfolding is_invalid
read_size c (one a) = ground arith
read_size c (two a b) = ground arith
read_size c (three a s b) = ground arith
read_size c (four a b) = ground arith

write_rune-Written : (r : Rune) → Width r.code → Written r
unfolding write_rune
write_rune-Written r w = elim (Bool-cases (is_invalid r || is_control r.code)) [
  | inl e ↦ (
    rune_error,
    rune_error-Width,
    rw e refl,
    unfold is_control in refl,
    read_size rune_error rune_error-Width,
  )
  | inr e ↦ (r.code, w, rw e refl, or_right_false _ _ e, read_size r.code w)
]

write_runes-clean :
    (rs : List Rune) → All (λ r. Width r.code) rs → is_clean_runes (runes (write_runes rs)) ≡ true
unfolding write_runes
write_runes-clean [] h = unfold runes in unfold is_clean_runes in refl
write_runes-clean (r ∷ rs) h =
    let (c, w, e, quiet, valid) = write_rune-Written r h.0 in
    ap (λ s. is_clean_runes (runes (s ++ write_runes rs))) e
    ∙ ap is_clean_runes (runes-encode_rune c w (write_runes rs))
    ∙ clean_cons (record { code = c; size = utf8_size w }) (runes (write_runes rs)) quiet valid
        (write_runes-clean rs h.1)
  where
    clean_cons :
        (r : Rune) (rs : List Rune)
        → is_control r.code ≡ false
        → is_invalid r ≡ false
        → is_clean_runes rs ≡ true
        → is_clean_runes (r ∷ rs) ≡ true
    clean_cons r rs q v k = unfold is_clean_runes in rw (q, v, k) refl

is_clean-sanitize : (s : Bytes) → is_clean (sanitize s) ≡ true
unfolding sanitize is_clean
is_clean-sanitize s =
    if_both (λ t. is_clean_runes (runes t) ≡ true) (is_clean_runes (runes s)) (λ e. e)
      (λ e. write_runes-clean (runes s) (runes-Width s))

-- Whatever bytes the remote host sends, the sanitized text is valid UTF-8 without a control character:
-- each of its runes is at least U+0020, none is from U+007F to U+009F, and none stands for a byte that
-- starts no rune. To sanitize the text again changes nothing.
pub sanitize-IsPrintable :
    (s : Bytes) → All IsPrintable (runes (sanitize s)) × (sanitize (sanitize s) ≡ sanitize s)
sanitize-IsPrintable s = (
  is_clean_runes-IsPrintable (runes (sanitize s)) (unfold is_clean in is_clean-sanitize s),
  kept (sanitize s) (is_clean-sanitize s),
)
  where
    kept : (t : Bytes) → is_clean t ≡ true → sanitize t ≡ t
    kept t e = unfold sanitize in rw e refl
