-- ===== src/Discovery/Ports/Match.antt =====
-- internal/discovery/ports.go, `publishedRe` and `exposedRe`. A byte that one part of an expression
-- accepts never begins the next part, so the longest match of each part is the only one that counts.
use auto_tunnel.Prelude.{
  ℕ, ◌≡◌, refl, Bool, not, ◌&&◌, ◌||◌, Option, none, some, [], ◌∷◌, ◌++◌, leb, ◌==◌, if◌then◌else◌,
  drop,
}
use auto_tunnel.Text.{Bytes, codes, is_empty, has_prefix, span}
use auto_tunnel.Text.Decimal.{is_digit}

-- The submatches of `publishedRe` and `exposedRe`; one that took no part is empty.
pub record Published : Type 0 where
  pub ip : Bytes
  pub host_lo : Bytes
  pub host_hi : Bytes
  pub container_lo : Bytes
  pub container_hi : Bytes
  pub proto : Bytes

pub record Exposed : Type 0 where
  pub lo : Bytes
  pub hi : Bytes
  pub proto : Bytes

-- `(\d+)(?:-(\d+))?` and the rest of the text.
match_hi : Bytes → Bytes → Option (Bytes × Bytes × Bytes)
unfolding span is_digit
match_hi lo (c ∷ rest) =
    let (hi, after) = span is_digit rest in
    if c == b'-' && not (is_empty hi) then some (lo, hi, after) else some (lo, [], c ∷ rest)
match_hi lo [] = some (lo, [], [])

unfoldable pub match_range : Bytes → Option (Bytes × Bytes × Bytes)
unfolding match_hi span is_digit is_empty
match_range s = let (lo, rest) = span is_digit s in if is_empty lo then none else match_hi lo rest

is_lower : ℕ → Bool
is_lower c = leb b'a' c && leb c b'z'

-- `/([a-z]+)$`
unfoldable pub match_proto : Bytes → Option Bytes
unfolding span is_lower is_empty
match_proto [] = none
match_proto (c ∷ s) =
    let (letters, rest) = span is_lower s in
    if c == b'/' && not (is_empty letters) && is_empty rest then some letters else none

is_ip4 : ℕ → Bool
unfolding is_digit
is_ip4 c = is_digit c || c == b'.'

is_ip6 : ℕ → Bool
unfolding is_digit
is_ip6 c =
    is_digit c
    || leb b'a' c && leb c b'f'
    || leb b'A' c && leb c b'F'
    || c == b':'
    || c == b'.'
    || c == b'%'

behind_bracket : Bytes × Bytes → Option (Bytes × Bytes)
unfolding is_empty
behind_bracket (ip, (d ∷ e ∷ rest)) =
    if not (is_empty ip) && d == b']' && e == b':'
    then some (b'[' ∷ (ip ++ b']' ∷ []), rest)
    else none
behind_bracket (ip, _) = none

behind_ip4 : Bytes × Bytes → Option (Bytes × Bytes)
behind_ip4 (ip, d ∷ rest) = if d == b':' then some (ip, rest) else none
behind_ip4 (ip, []) = none

-- `(?:(\[[0-9a-fA-F:.%]+\]|[0-9][0-9.]*):)`
unfoldable pub match_host : Bytes → Option (Bytes × Bytes)
unfolding span is_ip4 is_ip6 behind_bracket behind_ip4 is_digit
match_host [] = none
match_host (c ∷ s) =
    if c == b'['
    then behind_bracket (span is_ip6 s)
    else if is_digit c
    then behind_ip4 (span is_ip4 (c ∷ s))
    else none

-- publishedRe behind the optional host.
published_tail : Bytes → Bytes → Option Published
unfolding match_range match_proto
published_tail ip s = elim (match_range s) [
  | none ↦ none
  | some (host_lo, host_hi, arrow) ↦
      if has_prefix arrow (b'-' ∷ b'>' ∷ [])
      then elim (match_range (drop 2 arrow)) [
        | none ↦ none
        | some (container_lo, container_hi, rest) ↦ elim (match_proto rest) [
          | none ↦ none
          | some proto ↦ some (record {
            ip = ip;
            host_lo = host_lo;
            host_hi = host_hi;
            container_lo = container_lo;
            container_hi = container_hi;
            proto = proto;
          })
        ]
      ]
      else none
]

unfoldable pub match_published : Bytes → Option Published
unfolding match_host published_tail has_prefix
match_published s = elim (match_host s) [
  | none ↦ published_tail [] s
  | some (ip, rest) ↦ published_tail ip rest
]

unfoldable pub match_exposed : Bytes → Option Exposed
unfolding match_range match_proto
match_exposed s = elim (match_range s) [
  | none ↦ none
  | some (lo, hi, rest) ↦ elim (match_proto rest) [
    | none ↦ none
    | some proto ↦ some (record { lo = lo; hi = hi; proto = proto })
  ]
]

published_range :
    match_published (codes "[::]:8000-8002->9000-9002/tcp")
    ≡ some (record {
      ip = codes "[::]";
      host_lo = codes "8000";
      host_hi = codes "8002";
      container_lo = codes "9000";
      container_hi = codes "9002";
      proto = codes "tcp";
    })
unfolding match_published
published_range = refl

exposed_plain :
    match_exposed (codes "8080/tcp")
    ≡ some (record { lo = codes "8080"; hi = []; proto = codes "tcp" })
unfolding match_exposed
exposed_plain = refl

not_published :
    (match_published (codes "8080/tcp") ≡ none)
    × (match_published (codes "0.0.0.0:80->80/TCP") ≡ none)
    × (match_exposed (codes "80/tcp ") ≡ none)
unfolding match_published match_exposed
not_published = (refl, refl, refl)
