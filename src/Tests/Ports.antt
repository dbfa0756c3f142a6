-- ===== src/Tests/Ports.antt =====
-- Ports columns, declared forwards and keys.
use auto_tunnel.Prelude.{◌≡◌, refl, true, List, [], ◌∷◌, ◌++◌, arith, AllPairs, ok, err}
use auto_tunnel.Prelude.Int.{pos, max_int}
use auto_tunnel.Text.{Bytes, codes, is_empty, eqb}
use auto_tunnel.Text.Digits.{Lacks}
use auto_tunnel.Text.Decimal.{atoi}
use auto_tunnel.Discovery.Types.{PortMap, PortSpec, PortSpec_published, src, owner_id, key}
use auto_tunnel.Discovery.Types.Key.{key-injective}
use auto_tunnel.Discovery.Ports.Expand.{
  returns, never_returns, expand_range, expand_from, expand_sized, range_size, ports_from,
}
use auto_tunnel.Discovery.Ports.Expand.Bounds.{expand_range-range_spec}
use auto_tunnel.Discovery.Ports.Match.{match_published, match_exposed}
use auto_tunnel.Discovery.Ports.Parse.{port_key, parse_ports, spec_less, unrecognised}
use auto_tunnel.Discovery.Ports.Parse.Unique.{parse_ports-Increasing}
use auto_tunnel.Discovery.Static.{
  loopback, forward_row, parse_forward, parse_forwards, ForwardError,
}
use auto_tunnel.Discovery.Static.Rows.{AreForwards, parse_forward-AreForwards}
use auto_tunnel.Discovery.Static.Forms.{
  two_ports, parse_forward-two_ports, parse_forwards-all_or_none,
}
use auto_tunnel.Tests.Samples.{web}

abbrev web_spec : PortSpec
web_spec = record {
  host_ip = codes "0.0.0.0";
  host_port = pos 8080;
  container_port = pos 80;
  proto = codes "tcp";
}

-- The IPv4 and IPv6 rows of a publish collapse, a bad range warns, and the rest is read.
mixed_column :
    parse_ports (codes "80/tcp, 0.0.0.0:8080->80/tcp, [::]:8080->80/tcp, x")
    ≡ returns (record { specs = web_spec ∷ []; warnings = unrecognised (codes "x") ∷ [] })
unfolding parse_ports match_published match_exposed expand_range expand_from expand_sized range_size
    ports_from is_empty atoi eqb port_key PortSpec_published
mixed_column = refl

-- Ports columns that end the program.
full_range_column : parse_ports (codes "0-9223372036854775807/tcp") ≡ never_returns
unfolding parse_ports match_published match_exposed expand_range expand_from expand_sized range_size
    ports_from is_empty atoi eqb port_key PortSpec_published
full_range_column = refl

last_port_column : parse_ports (codes "9223372036854775807-9223372036854775807/tcp") ≡ never_returns
unfolding parse_ports match_published match_exposed expand_range expand_from expand_sized range_size
    ports_from is_empty atoi eqb port_key PortSpec_published
last_port_column = refl

-- The theorems at these inputs.
expand_range-range_spec_example :
    expand_range (codes "0") (codes "9223372036854775807") ≡ never_returns
expand_range-range_spec_example =
    expand_range-range_spec (codes "0") (codes "9223372036854775807") 0 (pos max_int)
      (unfold atoi in refl) (λ e. absurd (cc e)) (unfold atoi in refl)

parse_ports-Increasing_example : AllPairs (λ x y. spec_less x y ≡ true) (web_spec ∷ [])
parse_ports-Increasing_example =
    parse_ports-Increasing (codes "80/tcp, 0.0.0.0:8080->80/tcp, [::]:8080->80/tcp, x")
      (record { specs = web_spec ∷ []; warnings = unrecognised (codes "x") ∷ [] }) mixed_column

abbrev declared : PortMap
declared =
    forward_row (record { original = two_ports 15432 5432; label = []; host = loopback; count = 1 })
      (pos 5432) (pos 15432)

parse_forward-AreForwards_example : AreForwards (declared ∷ [])
parse_forward-AreForwards_example =
    parse_forward-AreForwards (two_ports 15432 5432) (declared ∷ [])
      (parse_forward-two_ports 15432 5432 (omega arith, omega arith) (omega arith, omega arith))

parse_forwards-all_or_none_example :
    (parse_forwards (two_ports 15432 5432 ∷ []) ≡ returns (ok (declared ∷ [])))
    × ((bad : Bytes) (rest : List Bytes) (e : ForwardError)
        → parse_forward bad ≡ returns (err e)
        → parse_forwards ((two_ports 15432 5432 ∷ []) ++ bad ∷ rest) ≡ returns (err e))
parse_forwards-all_or_none_example =
    parse_forwards-all_or_none (two_ports 15432 5432 ∷ []) (declared ∷ []) (
      declared ∷ [],
      [],
      parse_forward-two_ports 15432 5432 (omega arith, omega arith) (omega arith, omega arith),
      refl,
      refl,
    )

-- The container after a restart on another port.
abbrev restarted : PortMap
restarted = record web { container_id = codes "beef"; host_port = pos 9090 }

tcp_Lacks : Lacks b':' (codes "tcp")
tcp_Lacks = (omega arith, (omega arith, (omega arith, tt)))

udp_Lacks : Lacks b':' (codes "udp")
udp_Lacks = (omega arith, (omega arith, (omega arith, tt)))

key-injective_example :
    (src web ≡ src restarted)
    × (owner_id web ≡ owner_id restarted)
    × (web.container_port ≡ restarted.container_port)
    × (web.proto ≡ restarted.proto)
unfolding key owner_id
key-injective_example =
    key-injective web restarted tcp_Lacks tcp_Lacks (omega arith) (omega arith) refl
