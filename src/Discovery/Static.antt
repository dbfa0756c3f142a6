-- ===== src/Discovery/Static.antt =====
-- internal/discovery/static.go: the forwards declared with -forward. An error is the data that its
-- message is formatted from.
pub mod Rows
pub mod Forms
use auto_tunnel.Prelude.{
  ℕ, ◌+◌, ◌-◌, Bool, false, not, ◌||◌, Option, none, some, List, [], ◌∷◌, ◌++◌, ltb, ◌==◌,
  if◌then◌else◌, length, Result, ok, err,
}
use auto_tunnel.Prelude.Int.{ℤ, pos, leb_ℤ, ltb_ℤ}
use auto_tunnel.Text.{Bytes, codes, is_empty, cut_first, cut_last, trim_space}
use auto_tunnel.Text.Decimal.{itoa}
use auto_tunnel.Discovery.Types.{PortMap, static, proto_tcp}
use auto_tunnel.Discovery.Ports.Expand.{RangeError, Run, returns, never_returns, expand_range}

abbrev pub loopback : Bytes
loopback = codes "127.0.0.1"

pub data SpecError : Type 0 where
  port_missing upper_bound_missing : SpecError
  bad_range : RangeError → SpecError
  port_out_of_range : ℤ → SpecError

pub data ForwardError : Type 0 where
  empty_spec empty_label empty_host local_missing : ForwardError
  remote local : SpecError → ForwardError
  sizes_differ : ℕ → ℕ → ForwardError

unfoldable pub in_port_range : ℤ → Bool
in_port_range p = not (leb_ℤ p (pos 0) || ltb_ℤ (pos 65535) p)

-- The first port out of range, if there is one.
unfoldable pub check_ports : List ℤ → Option ℤ
unfolding in_port_range
check_ports [] = none
check_ports (p ∷ ps) = let rest = check_ports ps in if in_port_range p then rest else some p

unfoldable pub checked : Run (Result RangeError (List ℤ)) → Run (Result SpecError (List ℤ))
unfolding check_ports
checked never_returns = never_returns
checked (returns (err e)) = returns (err (bad_range e))
checked (returns (ok ports)) = elim (check_ports ports) [
  | none ↦ returns (ok ports)
  | some p ↦ returns (err (port_out_of_range p))
]

-- The text behind a dash, if there is one.
unfoldable pub expand_dashed : Bytes → Option (Bytes × Bytes) → Run (Result SpecError (List ℤ))
unfolding checked is_empty
expand_dashed s none = checked (expand_range s [])
expand_dashed s (some (lo, hi)) =
    if is_empty hi then returns (err upper_bound_missing) else checked (expand_range lo hi)

unfoldable pub expand_port_spec : Bytes → Run (Result SpecError (List ℤ))
unfolding expand_dashed
expand_port_spec spec =
    let s = trim_space spec in
    if is_empty s then returns (err port_missing) else expand_dashed s (cut_first b'-' s)

-- A labelled range is told apart row by row; a single labelled port reads as its label.
unfoldable pub forward_name : Bytes → ℤ → ℕ → Bytes
forward_name label port count =
    if is_empty label
    then codes "forward " ++ itoa port
    else if ltb 1 count
    then label ++ b':' ∷ itoa port
    else label

-- What the rows of one spec share.
pub record Spec : Type 0 where
  pub original : Bytes
  pub label : Bytes
  pub host : Bytes
  pub count : ℕ

unfoldable pub forward_row : Spec → ℤ → ℤ → PortMap
forward_row spec rp local_pref = record {
  source = static;
  owner = if is_empty spec.label then codes "forward" else spec.label;
  container_id = [];
  name = forward_name spec.label rp spec.count;
  image = spec.original;
  container_port = rp;
  host_ip = spec.host;
  host_port = rp;
  local_pref = local_pref;
  proto = proto_tcp;
  target_host = spec.host;
  offered = false;
}

unfoldable pub forward_rows : Spec → List ℤ → List PortMap
unfolding forward_row
forward_rows spec [] = []
forward_rows spec (rp ∷ rps) = forward_row spec rp (pos 0) ∷ forward_rows spec rps

unfoldable pub forward_rows_at : Spec → List ℤ → List ℤ → List PortMap
unfolding forward_row
forward_rows_at spec (lp ∷ lps) (rp ∷ rps) = forward_row spec rp lp ∷ forward_rows_at spec lps rps
forward_rows_at spec _ _ = []

abbrev pub Forwards : Type 0
Forwards = Run (Result ForwardError (List PortMap))

abbrev pub Expanded : Type 0
Expanded = Run (Result SpecError (List ℤ))

-- With the ports of the remote side, no local side given.
unfoldable pub only_remote : Bytes → Bytes → Bytes → Expanded → Forwards
unfolding forward_rows
only_remote original label host never_returns = never_returns
only_remote original label host (returns (err e)) = returns (err (remote e))
only_remote original label host (returns (ok rps)) = returns (
    ok (
      forward_rows (record { original = original; label = label; host = host; count = length rps })
        rps))

-- With the ports of both sides, the remote ones read first.
unfoldable pub both_sides : Bytes → Bytes → Bytes → Expanded → Expanded → Forwards
unfolding forward_rows_at
both_sides original label host never_returns lps = never_returns
both_sides original label host (returns (err e)) lps = returns (err (remote e))
both_sides original label host (returns (ok rps)) never_returns = never_returns
both_sides original label host (returns (ok rps)) (returns (err e)) = returns (err (local e))
both_sides original label host (returns (ok rps)) (returns (ok lps)) =
    if length lps == length rps
    then returns (
        ok (
          forward_rows_at
            (record { original = original; label = label; host = host; count = length rps }) lps
            rps))
    else returns (err (sizes_differ (length lps) (length rps)))

-- The text round the last colon, if there is one.
unfoldable pub parse_sides : Bytes → Bytes → Bytes → Bytes → Option (Bytes × Bytes) → Forwards
unfolding only_remote both_sides
parse_sides original label host rest none = only_remote original label host (expand_port_spec rest)
parse_sides original label host rest (some (local_spec, remote_spec)) =
    if is_empty local_spec
    then returns (err local_missing)
    else both_sides original label host (expand_port_spec remote_spec) (expand_port_spec local_spec)

-- The text round the last "@", if there is one.
unfoldable pub parse_host : Bytes → Bytes → Bytes → Option (Bytes × Bytes) → Forwards
unfolding parse_sides
parse_host original label rest none = parse_sides original label loopback rest (cut_last b':' rest)
parse_host original label rest (some (ports, host_text)) =
    let host = trim_space host_text in
    if is_empty host
    then returns (err empty_host)
    else parse_sides original label host ports (cut_last b':' ports)

-- The text round the first "=", if there is one.
unfoldable pub parse_label : Bytes → Option (Bytes × Bytes) → Forwards
unfolding parse_host
parse_label original none = parse_host original [] original (cut_last b'@' original)
parse_label original (some (label_text, rest)) =
    let label = trim_space label_text in
    if is_empty label
    then returns (err empty_label)
    else parse_host original label rest (cut_last b'@' rest)

unfoldable pub parse_forward : Bytes → Forwards
unfolding parse_label
parse_forward spec =
    let original = trim_space spec in
    if is_empty original
    then returns (err empty_spec)
    else parse_label original (cut_first b'=' original)

-- One more spec behind the rows so far.
unfoldable pub append_forward : List PortMap → Forwards → (List PortMap → Forwards) → Forwards
append_forward maps never_returns next = never_returns
append_forward maps (returns (err e)) next = returns (err e)
append_forward maps (returns (ok parsed)) next = next (maps ++ parsed)

unfoldable pub parse_forwards_from : List PortMap → List Bytes → Forwards
unfolding append_forward
parse_forwards_from maps [] = returns (ok maps)
parse_forwards_from maps (spec ∷ specs) =
    append_forward maps (parse_forward spec) (λ m. parse_forwards_from m specs)

unfoldable pub parse_forwards : List Bytes → Forwards
unfolding parse_forwards_from
parse_forwards = parse_forwards_from []
