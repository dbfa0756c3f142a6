-- ===== src/Engine/Files/Names.antt =====
-- The name of the file that remembers the choices for one target.
use auto_tunnel.Prelude.{
  ℕ, ◌≤◌, ◌≡◌, refl, ◌⊎◌, inl, inr, false, List, [], ◌∷◌, ◌++◌, arith, if◌then◌else◌, Bool-cases,
  if_both, Elem, All,
}
use auto_tunnel.Text.{Bytes, codes, is_empty, trim, trim_left, trim_right}
use auto_tunnel.Sanitize.{Rune, runes, between}
use auto_tunnel.Engine.Files.{safe_byte, safe_bytes, is_filler, stem, selection_file_name}

-- A letter, a digit, or one of ". - _ @": no path separator, no white space, nothing a shell reads.
abbrev pub IsSafeByte : ℕ → Type 0
IsSafeByte c =
    (97 ≤ c × c ≤ 122)
    ⊎ (65 ≤ c × c ≤ 90)
    ⊎ (48 ≤ c × c ≤ 57)
    ⊎ (c ≡ 46)
    ⊎ (c ≡ 45)
    ⊎ (c ≡ 95)
    ⊎ (c ≡ 64)

safe_byte-IsSafeByte : (r : ℕ) → IsSafeByte (safe_byte r)
unfolding safe_byte between
safe_byte-IsSafeByte r = ground arith

safe_bytes-All : (rs : List Rune) → All IsSafeByte (safe_bytes rs)
unfolding safe_bytes
safe_bytes-All [] = tt
safe_bytes-All (r ∷ rs) = (safe_byte-IsSafeByte r.code, safe_bytes-All rs)

-- A byte of the text that is neither a dot nor an underscore.
abbrev pub HasOther : Bytes → Type 0
HasOther s = (c : ℕ) × Elem c s × (is_filler c ≡ false)

trim_right-HasOther : (s : Bytes) → is_empty (trim_right is_filler s) ≡ false → HasOther s
unfolding trim_right is_empty
trim_right-HasOther [] h = cc
trim_right-HasOther (c ∷ s) h = go (trim_right is_filler s) h (λ e. trim_right-HasOther s e)
  where
    go :
        (rest : Bytes)
        → is_empty (elim rest [ [] ↦ if is_filler c then [] else c ∷ [] | d ∷ more ↦ c ∷ d ∷ more ])
          ≡ false
        → (is_empty rest ≡ false → HasOther s)
        → HasOther (c ∷ s)
    go [] e k = elim (Bool-cases (is_filler c)) [
      | inl f ↦ absurd (cc (rw f at e))
      | inr f ↦ (c, inl refl, f)
    ]
    go (d ∷ more) e k = let (b, at, f) = k refl in (b, inr at, f)

HasOther-trim_left : (s : Bytes) → HasOther (trim_left is_filler s) → HasOther s
unfolding trim_left
HasOther-trim_left [] h = h
HasOther-trim_left (c ∷ s) h = elim (Bool-cases (is_filler c)) [
  | inl e ↦ let (b, at, f) = HasOther-trim_left s (rw e at h) in (b, inr at, f)
  | inr e ↦ (c, inl refl, e)
]

-- What makes a name, before ".json", one worth writing.
abbrev pub IsStem : Bytes → Type 0
IsStem s = All IsSafeByte s × HasOther s

stem-IsStem : (s : Bytes) → All IsSafeByte s → IsStem (stem s)
unfolding stem trim
stem-IsStem s h =
    if_both IsStem (is_empty (trim_right is_filler (trim_left is_filler s)))
      (λ e. (default_safe, (b'd', inl refl, ground arith)))
      (λ e. (h, HasOther-trim_left s (trim_right-HasOther (trim_left is_filler s) e)))
  where
    default_safe : All IsSafeByte (codes "default")
    default_safe = ground arith

-- Whatever the text of a target, the choices for it are kept in a file whose name, before ".json", is made of letters, digits and ". - _ @" only, and has a byte
-- besides dots and underscores. So it names a file in the directory itself, never another directory.
pub selection_file_name-IsStem :
    (target : Bytes) → (s : Bytes) × (selection_file_name target ≡ s ++ codes ".json") × IsStem s
unfolding selection_file_name
selection_file_name-IsStem target = (
  stem (safe_bytes (runes target)),
  refl,
  stem-IsStem (safe_bytes (runes target)) (safe_bytes-All (runes target)),
)
