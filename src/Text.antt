-- ===== src/Text.antt =====
-- The functions of Go's `strings` and `strconv` packages that the program calls, over a Go string
-- as the list of its bytes. White space is that of ASCII.
pub mod Equality
pub mod Decimal
pub mod Digits
use Prim.Native.Char.{code}
use auto_tunnel.Prelude.{
  ℕ, String, Bool, true, false, ◌&&◌, ◌||◌, List, [], ◌∷◌, ◌++◌, Option, none, some, ltb, ◌==◌,
  if◌then◌else◌,
}

abbrev pub Bytes : Type 0
Bytes = List ℕ

-- The bytes of an ASCII literal.
abbrev pub codes : String → Bytes
codes String.[] = []
codes (String.◌∷◌ c s) = code c ∷ codes s

-- `==` of Go strings.
unfoldable pub eqb : Bytes → Bytes → Bool
eqb [] [] = true
eqb [] (y ∷ ys) = false
eqb (x ∷ xs) [] = false
eqb (x ∷ xs) (y ∷ ys) = x == y && eqb xs ys

-- `<` of Go strings: byte by byte, a proper prefix first.
unfoldable pub ltb_bytes : Bytes → Bytes → Bool
ltb_bytes xs [] = false
ltb_bytes [] (y ∷ ys) = true
ltb_bytes (x ∷ xs) (y ∷ ys) = ltb x y || x == y && ltb_bytes xs ys

unfoldable pub is_empty : Bytes → Bool
is_empty [] = true
is_empty (x ∷ xs) = false

-- strings.HasPrefix
unfoldable pub has_prefix : Bytes → Bytes → Bool
has_prefix s [] = true
has_prefix [] (p ∷ ps) = false
has_prefix (c ∷ s) (p ∷ ps) = c == p && has_prefix s ps

-- `strings.Cut` at the first occurrence of a byte: what stands before and behind it.
unfoldable pub cut_first : ℕ → Bytes → Option (Bytes × Bytes)
cut_first b [] = none
cut_first b (c ∷ s) =
    let rest = cut_first b s in
    if c == b
    then some ([], s)
    else elim rest [ none ↦ none | some (before, after) ↦ some (c ∷ before, after) ]

-- The same at the last occurrence, as `strings.LastIndex` finds it.
unfoldable pub cut_last : ℕ → Bytes → Option (Bytes × Bytes)
cut_last b [] = none
cut_last b (c ∷ s) = elim (cut_last b s) [
  | none ↦ if c == b then some ([], s) else none
  | some (before, after) ↦ some (c ∷ before, after)
]

-- strings.Split at one byte.
unfoldable pub split : ℕ → Bytes → List Bytes
split b [] = [] ∷ []
split b (c ∷ s) = elim (split b s) [
  | [] ↦ []
  | part ∷ parts ↦ if c == b then [] ∷ part ∷ parts else (c ∷ part) ∷ parts
]

unfoldable pub is_space : ℕ → Bool
is_space c = c == 9 || c == 10 || c == 11 || c == 12 || c == 13 || c == 32

-- strings.TrimLeft and strings.TrimRight by a test on bytes.
unfoldable pub trim_left : (ℕ → Bool) → Bytes → Bytes
trim_left p [] = []
trim_left p (c ∷ s) = let rest = trim_left p s in if p c then rest else c ∷ s

unfoldable pub trim_right : (ℕ → Bool) → Bytes → Bytes
trim_right p [] = []
trim_right p (c ∷ s) = elim (trim_right p s) [
  | [] ↦ if p c then [] else c ∷ []
  | d ∷ rest ↦ c ∷ d ∷ rest
]

unfoldable pub trim : (ℕ → Bool) → Bytes → Bytes
unfolding trim_left trim_right
trim p s = trim_right p (trim_left p s)

-- strings.TrimSpace
unfoldable pub trim_space : Bytes → Bytes
unfolding trim is_space
trim_space = trim is_space

-- strings.Trim(s, "[]")
unfoldable pub trim_brackets : Bytes → Bytes
unfolding trim
trim_brackets = trim (λ c. c == b'[' || c == b']')

-- strings.Fields: the maximal runs of bytes that are not white space.
add_byte : Bool → ℕ → Bool × List Bytes → Bool × List Bytes
add_byte true c (open_field, words) = (false, words)
add_byte false c (true, []) = (true, (c ∷ []) ∷ [])
add_byte false c (true, word ∷ words) = (true, (c ∷ word) ∷ words)
add_byte false c (false, words) = (true, (c ∷ []) ∷ words)

fields_from : Bytes → Bool × List Bytes
unfolding add_byte is_space
fields_from [] = (false, [])
fields_from (c ∷ s) = add_byte (is_space c) c (fields_from s)

unfoldable pub fields : Bytes → List Bytes
unfolding fields_from
fields s = (fields_from s).1

-- Leading bytes that pass a test, and the rest.
unfoldable pub span : (ℕ → Bool) → Bytes → Bytes × Bytes
span p [] = ([], [])
span p (c ∷ s) = let rest = span p s in if p c then (c ∷ rest.0, rest.1) else ([], c ∷ s)

-- strings.Join
unfoldable pub join : Bytes → List Bytes → Bytes
join separator [] = []
join separator (part ∷ []) = part
join separator (part ∷ next ∷ parts) = part ++ (separator ++ join separator (next ∷ parts))
