-- ===== src/Discovery/Static/Rows.antt =====
-- What every row of a declared forward is.
use auto_tunnel.Prelude.{
  suc, ◌≤◌, ◌≡◌, refl, ap, subst, ◌⊎◌, inl, inr, true, false, Option, none, some, List, [], ◌∷◌,
  arith, ◌==◌, Bool-cases, Option-cases, length, All, Result, ok, err,
}
use auto_tunnel.Prelude.Int.{ℤ, pos}
use auto_tunnel.Text.{Bytes, is_empty, cut_first, cut_last, trim_space}
use auto_tunnel.Discovery.Types.{static, PortMap, proto_tcp}
use auto_tunnel.Discovery.Ports.Expand.{
  RangeError, Run, returns, never_returns, Gives, expand_range,
}
use auto_tunnel.Discovery.Ports.Expand.Bounds.{IsCapped, expand_range-IsCapped}
use auto_tunnel.Discovery.Static.{
  in_port_range, check_ports, checked, expand_dashed, expand_port_spec, Spec, forward_row,
  forward_rows, forward_rows_at, Expanded, only_remote, both_sides, parse_sides, parse_host,
  parse_label, parse_forward,
}

-- Every row is a TCP forward that is on, to a real port, and asks for a real local port or for none.
pub record IsForward (pm : PortMap) : Type 0 where
  pub source : pm.source ≡ static
  pub proto : pm.proto ≡ proto_tcp
  pub on : pm.offered ≡ false
  pub same_port : pm.host_port ≡ pm.container_port
  pub same_host : pm.target_host ≡ pm.host_ip
  pub port : in_port_range pm.container_port ≡ true
  pub local : (pm.local_pref ≡ pos 0) ⊎ (in_port_range pm.local_pref ≡ true)

abbrev pub InRange : List ℤ → Type 0
InRange = All (λ p. in_port_range p ≡ true)

abbrev IsPorts : List ℤ → Type 0
IsPorts ps = InRange ps × IsCapped ps

abbrev pub AreForwards : List PortMap → Type 0
AreForwards maps = All IsForward maps × (length maps ≤ 64)

check_ports-InRange : (ps : List ℤ) → check_ports ps ≡ none → InRange ps
unfolding check_ports
check_ports-InRange [] h = tt
check_ports-InRange (p ∷ ps) h = elim (Bool-cases (in_port_range p)) [
  | inl e ↦ (e, check_ports-InRange ps (rw e at h))
  | inr e ↦ absurd (cc (rw e at h))
]

checked-IsPorts :
    (r : Run (Result RangeError (List ℤ))) → Gives IsCapped r → Gives IsPorts (checked r)
unfolding checked
checked-IsPorts never_returns c = tt
checked-IsPorts (returns (err e)) c = tt
checked-IsPorts (returns (ok ps)) c = elim (Option-cases (check_ports ps)) [
  | inl e ↦ rw (e, checked) (check_ports-InRange ps e, c)
  | inr (p, e) ↦ rw (e, checked) tt
]

expand_dashed-IsPorts : (s : Bytes) (o : Option (Bytes × Bytes)) → Gives IsPorts (expand_dashed s o)
unfolding expand_dashed
expand_dashed-IsPorts s none = checked-IsPorts (expand_range s []) (expand_range-IsCapped s [])
expand_dashed-IsPorts s (some (lo, hi)) = elim (Bool-cases (is_empty hi)) [
  | inl e ↦ rw e tt
  | inr e ↦ rw e (checked-IsPorts (expand_range lo hi) (expand_range-IsCapped lo hi))
]

-- Either side of a spec is at most 64 ports, each from 1 to 65535.
expand_port_spec-IsPorts : (spec : Bytes) → Gives IsPorts (expand_port_spec spec)
unfolding expand_port_spec
expand_port_spec-IsPorts spec = elim (Bool-cases (is_empty (trim_space spec))) [
  | inl e ↦ rw e tt
  | inr e ↦ rw e (expand_dashed-IsPorts (trim_space spec) (cut_first b'-' (trim_space spec)))
]

rows-AreForwards :
    (spec : Spec) (rps : List ℤ) → InRange rps → All IsForward (forward_rows spec rps)
unfolding forward_rows forward_row
rows-AreForwards spec [] h = tt
rows-AreForwards spec (rp ∷ rps) h = (
  record {
    source = refl;
    proto = refl;
    on = refl;
    same_port = refl;
    same_host = refl;
    port = h.0;
    local = inl refl;
  },
  rows-AreForwards spec rps h.1,
)

length-rows : (spec : Spec) (rps : List ℤ) → length (forward_rows spec rps) ≡ length rps
unfolding forward_rows
length-rows spec [] = refl
length-rows spec (rp ∷ rps) = ap suc (length-rows spec rps)

rows_at-AreForwards :
    (spec : Spec) (lps rps : List ℤ)
    → InRange lps
    → InRange rps
    → All IsForward (forward_rows_at spec lps rps)
unfolding forward_rows_at forward_row
rows_at-AreForwards spec [] rps h k = tt
rows_at-AreForwards spec (lp ∷ lps) [] h k = tt
rows_at-AreForwards spec (lp ∷ lps) (rp ∷ rps) h k = (
  record {
    source = refl;
    proto = refl;
    on = refl;
    same_port = refl;
    same_host = refl;
    port = k.0;
    local = inr h.0;
  },
  rows_at-AreForwards spec lps rps h.1 k.1,
)

length-rows_at :
    (spec : Spec) (lps rps : List ℤ) → length (forward_rows_at spec lps rps) ≤ length rps
unfolding forward_rows_at
length-rows_at spec [] rps = omega arith
length-rows_at spec (lp ∷ lps) [] = omega arith
length-rows_at spec (lp ∷ lps) (rp ∷ rps) = omega (arith, length-rows_at spec lps rps)

only_remote-AreForwards :
    (original label host : Bytes) (r : Expanded)
    → Gives IsPorts r
    → Gives AreForwards (only_remote original label host r)
unfolding only_remote
only_remote-AreForwards original label host never_returns h = tt
only_remote-AreForwards original label host (returns (err e)) h = tt
only_remote-AreForwards original label host (returns (ok rps)) h = (
  rows-AreForwards _ rps h.0,
  omega (
    arith,
    length-rows (record { original = original; label = label; host = host; count = length rps })
        rps,
    h.1,
  ),
)

both_sides-AreForwards :
    (original label host : Bytes) (r l : Expanded)
    → Gives IsPorts r
    → Gives IsPorts l
    → Gives AreForwards (both_sides original label host r l)
unfolding both_sides
both_sides-AreForwards original label host never_returns l h k = tt
both_sides-AreForwards original label host (returns (err e)) l h k = tt
both_sides-AreForwards original label host (returns (ok rps)) never_returns h k = tt
both_sides-AreForwards original label host (returns (ok rps)) (returns (err e)) h k = tt
both_sides-AreForwards original label host (returns (ok rps)) (returns (ok lps)) h k =
    elim (Bool-cases (length lps == length rps)) [
      | inl e ↦ rw e (
        rows_at-AreForwards _ lps rps k.0 h.0,
        omega (
          arith,
          length-rows_at
              (record { original = original; label = label; host = host; count = length rps }) lps
              rps,
          h.1,
        ),
      )
      | inr e ↦ rw e tt
    ]

parse_sides-AreForwards :
    (original label host rest : Bytes) (o : Option (Bytes × Bytes))
    → Gives AreForwards (parse_sides original label host rest o)
unfolding parse_sides
parse_sides-AreForwards original label host rest none =
    only_remote-AreForwards original label host (expand_port_spec rest)
      (expand_port_spec-IsPorts rest)
parse_sides-AreForwards original label host rest (some (l, r)) = elim (Bool-cases (is_empty l)) [
  | inl e ↦ rw e tt
  | inr e ↦ rw e (
      both_sides-AreForwards original label host (expand_port_spec r) (expand_port_spec l)
        (expand_port_spec-IsPorts r) (expand_port_spec-IsPorts l))
]

parse_host-AreForwards :
    (original label rest : Bytes) (o : Option (Bytes × Bytes))
    → Gives AreForwards (parse_host original label rest o)
unfolding parse_host
parse_host-AreForwards original label rest none =
    parse_sides-AreForwards original label _ rest (cut_last b':' rest)
parse_host-AreForwards original label rest (some (ports, host_text)) =
    elim (Bool-cases (is_empty (trim_space host_text))) [
      | inl e ↦ rw e tt
      | inr e ↦ rw e (
          parse_sides-AreForwards original label (trim_space host_text) ports (cut_last b':' ports))
    ]

parse_label-AreForwards :
    (original : Bytes) (o : Option (Bytes × Bytes)) → Gives AreForwards (parse_label original o)
unfolding parse_label
parse_label-AreForwards original none =
    parse_host-AreForwards original [] original (cut_last b'@' original)
parse_label-AreForwards original (some (label_text, rest)) =
    elim (Bool-cases (is_empty (trim_space label_text))) [
      | inl e ↦ rw e tt
      | inr e ↦
          rw e (parse_host-AreForwards original (trim_space label_text) rest (cut_last b'@' rest))
    ]

parse_forward-Gives : (spec : Bytes) → Gives AreForwards (parse_forward spec)
unfolding parse_forward
parse_forward-Gives spec = elim (Bool-cases (is_empty (trim_space spec))) [
  | inl e ↦ rw e tt
  | inr e ↦ rw e (parse_label-AreForwards (trim_space spec) (cut_first b'=' (trim_space spec)))
]

-- A spec that parses gives at most 64 rows, each a TCP forward that is on, with one port from 1 to
-- 65535 on the remote side, dialed at the host that it names, and a preferred local port that is from
-- 1 to 65535 or left open.
pub parse_forward-AreForwards :
    (spec : Bytes) (maps : List PortMap) → parse_forward spec ≡ returns (ok maps) → AreForwards maps
parse_forward-AreForwards spec maps h = subst (Gives AreForwards) h (parse_forward-Gives spec)
