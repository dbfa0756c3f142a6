-- ===== src/Discovery/Ports/Parse.antt =====
-- internal/discovery/ports.go, `ParsePorts`: the Ports column as port specs. A warning is the data
-- that its message is formatted from. `byPort` holds, for each key, the place of its spec in
-- `specs`; here that place is looked for by the key.
pub mod Unique
use auto_tunnel.Prelude.{
  ◌+◌, ◌/◌, Bool, not, ◌&&◌, Option, none, some, List, [], ◌∷◌, ◌++◌, ◌==◌, if◌then◌else◌, length,
  Result, ok, err,
}
use auto_tunnel.Prelude.Int.{ℤ, pos, ltb_ℤ, eqb_ℤ}
use auto_tunnel.Prelude.Sort.{sort_by}
use auto_tunnel.Text.{Bytes, eqb, ltb_bytes, is_empty, split, trim_space, trim_brackets}
use auto_tunnel.Text.Decimal.{itoa}
use auto_tunnel.Discovery.Types.{PortSpec, PortSpec_published}
use auto_tunnel.Discovery.Ports.Expand.{RangeError, Run, returns, never_returns, expand_range}
use auto_tunnel.Discovery.Ports.Match.{Published, Exposed, match_published, match_exposed}

pub data Warning : Type 0 where
  bad_range : Bytes → RangeError → Warning
  size_mismatch : Bytes → Warning
  unrecognised : Bytes → Warning

unfoldable pub port_key : PortSpec → Bytes
unfolding itoa
port_key s = itoa s.container_port ++ b'/' ∷ s.proto

-- A published mapping takes the place of an exposed one; otherwise the first entry stays.
unfoldable pub add : PortSpec → List PortSpec → List PortSpec
add s [] = s ∷ []
add s (t ∷ specs) =
    let rest = add s specs in
    if eqb (port_key t) (port_key s)
    then (if not (PortSpec_published t) && PortSpec_published s then s else t) ∷ specs
    else t ∷ rest

pub add_published : Bytes → Bytes → List ℤ → List ℤ → List PortSpec → List PortSpec
unfolding add
add_published ip proto (h ∷ hs) (c ∷ cs) specs =
    add_published ip proto hs cs
      (add (record { host_ip = ip; host_port = h; container_port = c; proto = proto }) specs)
add_published ip proto _ _ specs = specs

pub add_exposed : Bytes → List ℤ → List PortSpec → List PortSpec
unfolding add
add_exposed proto [] specs = specs
add_exposed proto (c ∷ cs) specs =
    add_exposed proto cs
      (add (record { host_ip = []; host_port = pos 0; container_port = c; proto = proto }) specs)

-- The two results of the loop so far.
pub record Parsed : Type 0 where
  pub specs : List PortSpec
  pub warnings : List Warning

pub warn : Parsed → Warning → Parsed
warn p w = record p { warnings = p.warnings ++ w ∷ [] }

pub same_size : List ℤ → List ℤ → Bool
same_size xs ys = length xs == length ys

abbrev pub Ports : Type 0
Ports = Run (Result RangeError (List ℤ))

-- With what the two ranges expand to; the second counts only if the first is good.
pub add_mapping : Bytes → Published → Parsed → Ports → Ports → Run Parsed
unfolding warn add_published same_size trim_brackets
add_mapping entry m p never_returns container = never_returns
add_mapping entry m p (returns (err e)) container = returns (warn p (bad_range entry e))
add_mapping entry m p (returns (ok host_ports)) never_returns = never_returns
add_mapping entry m p (returns (ok host_ports)) (returns (err e)) =
    returns (warn p (bad_range entry e))
add_mapping entry m p (returns (ok host_ports)) (returns (ok container_ports)) =
    if same_size host_ports container_ports
    then returns (record p {
      specs = add_published (trim_brackets m.ip) m.proto host_ports container_ports p.specs;
    })
    else returns (warn p (size_mismatch entry))

pub add_ports : Bytes → Exposed → Parsed → Ports → Run Parsed
unfolding warn add_exposed
add_ports entry m p never_returns = never_returns
add_ports entry m p (returns (err e)) = returns (warn p (bad_range entry e))
add_ports entry m p (returns (ok ports)) =
    returns (record p { specs = add_exposed m.proto ports p.specs })

pub parse_matched : Bytes → Parsed → Option Published → Option Exposed → Run Parsed
unfolding add_mapping add_ports warn
parse_matched entry p (some m) exposed =
    add_mapping entry m p (expand_range m.host_lo m.host_hi)
      (expand_range m.container_lo m.container_hi)
parse_matched entry p none (some m) = add_ports entry m p (expand_range m.lo m.hi)
parse_matched entry p none none = returns (warn p (unrecognised entry))

-- One round of the loop.
unfoldable pub parse_entry : Bytes → Parsed → Run Parsed
unfolding parse_matched trim_space
parse_entry raw p =
    let entry = trim_space raw in
    if is_empty entry
    then returns p
    else parse_matched entry p (match_published entry) (match_exposed entry)

unfoldable pub parse_entries : List Bytes → Parsed → Run Parsed
unfolding parse_entry
parse_entries [] p = returns p
parse_entries (raw ∷ rest) p = elim (parse_entry raw p) [
  | never_returns ↦ never_returns
  | returns q ↦ parse_entries rest q
]

unfoldable pub spec_less : PortSpec → PortSpec → Bool
unfolding ltb_bytes
spec_less a b =
    if eqb_ℤ a.container_port b.container_port
    then ltb_bytes a.proto b.proto
    else ltb_ℤ a.container_port b.container_port

pub sort_specs : Run Parsed → Run Parsed
unfolding sort_by spec_less
sort_specs never_returns = never_returns
sort_specs (returns p) = returns (record p { specs = sort_by spec_less p.specs })

unfoldable pub parse_ports : Bytes → Run Parsed
unfolding parse_entries split sort_specs
parse_ports column =
    sort_specs (parse_entries (split b',' column) (record { specs = []; warnings = [] }))
