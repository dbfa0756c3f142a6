-- ===== src/Discovery/Static/Forms.antt =====
-- The forms of a spec that the documentation lists, and a list of specs.
use auto_tunnel.Prelude.{
  ℕ, ◌≤◌, ◌<◌, ◌≡◌, refl, ap, ◌∙◌, inl, inr, false, some, List, [], ◌∷◌, ◌++◌, append_assoc,
  append-nil, arith, All, All-append, ok, err,
}
use auto_tunnel.Prelude.Int.{pos}
use auto_tunnel.Text.{Bytes, is_empty, is_space, cut_last}
use auto_tunnel.Text.Digits.{
  NoSpace, format-IsDigit, NoSpace-digits, Lacks, Lacks-digits, cut_first-none, cut_last-none,
  cut_last-append, trim_space-NoSpace,
}
use auto_tunnel.Text.Decimal.{format, itoa, atoi}
use auto_tunnel.Text.Decimal.RoundTrip.{atoi-itoa}
use auto_tunnel.Discovery.Types.{PortMap}
use auto_tunnel.Discovery.Ports.Expand.{returns, expand_range, expand_lo}
use auto_tunnel.Discovery.Static.{
  loopback, ForwardError, in_port_range, check_ports, checked, expand_dashed, expand_port_spec,
  forward_row, forward_rows_at, both_sides, parse_host, parse_label, parse_forward, append_forward,
  parse_forwards_from, parse_forwards,
}

abbrev pub IsPort : ℕ → Type 0
IsPort n = (1 ≤ n) × (n ≤ 65535)

format-atoi : (n : ℕ) → IsPort n → atoi (format n) ≡ ok (pos n)
format-atoi n h = unfold itoa in atoi-itoa (pos n) (omega arith)

-- No number prints as the empty text.
is_empty-format : (n : ℕ) → IsPort n → is_empty (format n) ≡ false
is_empty-format n h = go (format n) (format-atoi n h)
  where
    go : (s : Bytes) → atoi s ≡ ok (pos n) → is_empty s ≡ false
    go [] e = absurd (unfold atoi in cc)
    go (c ∷ s) e = unfold is_empty in refl

expand_range-format : (n : ℕ) → IsPort n → expand_range (format n) [] ≡ returns (ok (pos n ∷ []))
unfolding expand_range
expand_range-format n h = rw (format-atoi n h) (unfold expand_lo is_empty in refl)

checked-port : (n : ℕ) → IsPort n → checked (returns (ok (pos n ∷ []))) ≡ returns (ok (pos n ∷ []))
unfolding checked check_ports in_port_range
checked-port n h = ground arith

-- One port in decimal stands for itself.
pub expand_port_spec-format :
    (n : ℕ) → IsPort n → expand_port_spec (format n) ≡ returns (ok (pos n ∷ []))
unfolding expand_port_spec
expand_port_spec-format n h =
    rw
      (
        trim_space-NoSpace (format n) (NoSpace-digits _ (format-IsDigit n)),
        is_empty-format n h,
        cut_first-none b'-' (format n) (Lacks-digits b'-' _ (inr (omega arith)) (format-IsDigit n)),
      )
      (unfold expand_dashed in rw (expand_range-format n h) (checked-port n h))

-- `15432:5432`
unfoldable pub two_ports : ℕ → ℕ → Bytes
two_ports l r = format l ++ b':' ∷ format r

two_ports-All :
    (P : ℕ → Type 0) (l r : ℕ)
    → All P (format l)
    → P b':'
    → All P (format r)
    → All P (two_ports l r)
unfolding two_ports
two_ports-All P l r hl p hr = All-append P (format l) _ hl (p, hr)

two_ports-NoSpace : (l r : ℕ) → NoSpace (two_ports l r)
two_ports-NoSpace l r =
    two_ports-All _ l r (NoSpace-digits _ (format-IsDigit l)) (unfold is_space in refl)
      (NoSpace-digits _ (format-IsDigit r))

two_ports-Lacks : (b l r : ℕ) → b':' < b → Lacks b (two_ports l r)
two_ports-Lacks b l r h =
    two_ports-All _ l r (Lacks-digits b _ (inl (omega arith)) (format-IsDigit l)) (λ e. omega arith)
      (Lacks-digits b _ (inl (omega arith)) (format-IsDigit r))

two_ports-cut : (l r : ℕ) → cut_last b':' (two_ports l r) ≡ some (format l, format r)
unfolding two_ports
two_ports-cut l r =
    cut_last-append b':' (format l) (format r)
      (Lacks-digits b':' _ (inl (omega arith)) (format-IsDigit r))

is_empty-two_ports : (l r : ℕ) → is_empty (two_ports l r) ≡ false
unfolding two_ports is_empty
is_empty-two_ports l r = go (format l)
  where
    go : (s : Bytes) → is_empty (s ++ b':' ∷ format r) ≡ false
    go [] = refl
    go (c ∷ s) = refl

-- For ports from 1 to 65535, `L:R` forwards local port L to port R of the remote host itself, in one row that is named after
-- the remote port and shows the spec.
pub parse_forward-two_ports :
    (l r : ℕ)
    → IsPort l
    → IsPort r
    → parse_forward (two_ports l r)
      ≡ returns (
          ok (
            forward_row
              (record { original = two_ports l r; label = []; host = loopback; count = 1 })
              (pos r)
              (pos l)
            ∷ []))
unfolding parse_forward parse_label parse_host
parse_forward-two_ports l r hl hr =
    rw
      (
        trim_space-NoSpace (two_ports l r) (two_ports-NoSpace l r),
        is_empty-two_ports l r,
        cut_first-none b'=' (two_ports l r) (two_ports-Lacks b'=' l r (omega arith)),
        cut_last-none b'@' (two_ports l r) (two_ports-Lacks b'@' l r (omega arith)),
        two_ports-cut l r,
        is_empty-format l hl,
        expand_port_spec-format r hr,
        expand_port_spec-format l hl,
      )
      (unfold both_sides forward_rows_at in refl)

-- The rows of specs that all parse, in order.
abbrev pub Parses : List Bytes → List PortMap → Type 0
Parses [] maps = maps ≡ []
Parses (spec ∷ specs) maps =
    (first : List PortMap) × (rest : List PortMap) × (parse_forward spec ≡ returns (ok first))
    × Parses specs rest
    × (maps ≡ first ++ rest)

module _ (bad : Bytes) (rest : List Bytes) (e : ForwardError)
    (h : parse_forward bad ≡ returns (err e)) where
  refused_from :
      (specs : List Bytes) (maps before : List PortMap)
      → Parses specs maps
      → parse_forwards_from before (specs ++ bad ∷ rest) ≡ returns (err e)
  unfolding parse_forwards_from append_forward
  refused_from [] maps before p = rw h refl
  refused_from (spec ∷ specs) maps before (first, later, ef, ps, em) =
      rw ef (refused_from specs later (before ++ first) ps)

accepted_from :
    (specs : List Bytes) (maps before : List PortMap)
    → Parses specs maps
    → parse_forwards_from before specs ≡ returns (ok (before ++ maps))
unfolding parse_forwards_from append_forward
accepted_from [] maps before p = rw (p, append-nil) refl
accepted_from (spec ∷ specs) maps before (first, later, ef, ps, em) =
    rw (ef, em)
      (accepted_from specs later (before ++ first) ps
        ∙ ap (λ m. returns (ok m)) (append_assoc before first later))

-- Specs that all parse give their rows in order; and however many good specs stand before it, the
-- first bad one makes the whole set an error, which is its own.
pub parse_forwards-all_or_none :
    (specs : List Bytes) (maps : List PortMap)
    → Parses specs maps
    → (parse_forwards specs ≡ returns (ok maps))
      × ((bad : Bytes) (rest : List Bytes) (e : ForwardError)
          → parse_forward bad ≡ returns (err e)
          → parse_forwards (specs ++ bad ∷ rest) ≡ returns (err e))
unfolding parse_forwards
parse_forwards-all_or_none specs maps p =
    (accepted_from specs maps [] p, λ bad rest e h. refused_from bad rest e h specs maps [] p)
