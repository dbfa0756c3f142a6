-- ===== src/Tests/Discoveries.antt =====
-- A pass over the sockets of a host, and passes over one container.
use auto_tunnel.Discovery.Ports.Match.{match_published, match_exposed}
use auto_tunnel.Discovery.Ports.Parse.{parse_ports, port_key}
use auto_tunnel.Prelude.{
  ◌≡◌, refl, ◌≢◌, true, false, none, [], ◌∷◌, ◌++◌, arith, if◌then◌else◌, All, AllPairs, Result, ok,
  err,
}
use auto_tunnel.Prelude.Int.{pos, eqb_ℤ}
use auto_tunnel.Text.{trim_brackets, cut_last, Bytes, codes, has_prefix}
use auto_tunnel.Text.Decimal.{itoa, atoi}
use auto_tunnel.GoMap.{Map}
use auto_tunnel.Discovery.Types.{PortSpec_published, PortMap, host, docker, key, proto_tcp}
use auto_tunnel.Discovery.Ports.Expand.{expand_range, returns}
use auto_tunnel.Discovery.Host.{
  add_listener, HostOptions, parse_listeners, split_addr_port, discover_host,
}
use auto_tunnel.Discovery.Host.Listeners.{split_addr_port-itoa}
use auto_tunnel.Discovery.Host.Rows.{IsHostRow, discover_host-IsHostRow}
use auto_tunnel.Discovery.Docker.{
  container_row, PsLine, Options, Seen, default_ps_command, default_inspect_command, inspect_line,
}
use auto_tunnel.Discovery.Docker.Pass.{discover}
use auto_tunnel.Discovery.Docker.Commands.{discover-alike}
use auto_tunnel.Discovery.Docker.Read.{IsContainerRow}
use auto_tunnel.Discovery.Docker.Rows.{discover-IsContainerRow}

address_read : split_addr_port (codes "[::]" ++ b':' ∷ itoa (pos 8080)) ≡ ok (codes "::", pos 8080)
unfolding trim_brackets
address_read = split_addr_port-itoa (codes "[::]") 8080 (omega arith) (omega arith)

abbrev host_options : HostOptions
host_options = record { exclude = none; skip_ports = λ p. eqb_ℤ p (pos 22); offered = true }

abbrev sockets : Bytes
sockets =
    codes
      "LISTEN 0 511 *:80 *:* users:((\"nginx\",pid=7,fd=6))\ntcp 0 0 127.0.0.1:22 0.0.0.0:* LISTEN 1/sshd\n"

abbrev nginx : PortMap
nginx = record {
  source = host;
  owner = codes "host";
  container_id = [];
  name = codes "nginx";
  image = codes "*";
  container_port = pos 80;
  host_ip = codes "*";
  host_port = pos 80;
  local_pref = pos 0;
  proto = proto_tcp;
  target_host = codes "127.0.0.1";
  offered = true;
}

one_socket : discover_host host_options (ok sockets) ≡ ok (nginx ∷ [], [])
unfolding discover_host parse_listeners split_addr_port cut_last atoi add_listener
one_socket = refl

discover_host-IsHostRow_example :
    All (IsHostRow host_options) (nginx ∷ []) × AllPairs (λ p q. key p ≢ key q) (nginx ∷ [])
discover_host-IsHostRow_example =
    discover_host-IsHostRow host_options sockets (nginx ∷ []) [] one_socket

abbrev as_it_is : Map Bytes → Map Bytes
as_it_is ips = ips

abbrev options : Options
options = record {
  ps_command = default_ps_command;
  inspect_command = default_inspect_command;
  include = none;
  exclude = none;
  include_unpublished = true;
}

abbrev web_line : PsLine
web_line = record {
  id = codes "c0ffee";
  names = codes "web";
  image = codes "nginx";
  ports = codes "0.0.0.0:8080->80/tcp, 9000/tcp";
}

abbrev decode : Bytes → Result Bytes PsLine
decode line = ok web_line

abbrev remote : Bytes → Result Bytes Bytes
remote command =
    if has_prefix command (codes "docker ps")
    then ok (codes "{}\n")
    else ok (codes "c0ffee01 10.0.0.7\n")

-- A host that answers every command but those of Docker with an error.
abbrev guarded : Bytes → Result Bytes Bytes
guarded command = if has_prefix command (codes "docker") then remote command else err (codes "no")

discover-alike_example :
    discover as_it_is decode remote options ≡ discover as_it_is decode guarded options
unfolding inspect_line has_prefix
discover-alike_example =
    discover-alike as_it_is decode remote guarded options (refl, λ ids n safe. refl)

abbrev web_port : PortMap
web_port = record {
  source = docker;
  owner = codes "c0ffee";
  container_id = codes "c0ffee";
  name = codes "web";
  image = codes "nginx";
  container_port = pos 80;
  host_ip = codes "0.0.0.0";
  host_port = pos 8080;
  local_pref = pos 0;
  proto = proto_tcp;
  target_host = codes "127.0.0.1";
  offered = false;
}

abbrev found : Seen
found = record {
  maps =
      web_port
      ∷ record web_port {
        container_port = pos 9000;
        host_ip = [];
        host_port = pos 0;
        target_host = codes "10.0.0.7";
      }
      ∷ [];
  warnings = [];
  containers = 1;
  need_ip = codes "c0ffee" ∷ [];
}

two_ports : discover as_it_is decode remote options ≡ returns (ok found)
unfolding discover parse_ports match_published expand_range atoi match_exposed port_key
    PortSpec_published container_row
two_ports = refl

discover-IsContainerRow_example : All (IsContainerRow options) found.maps
discover-IsContainerRow_example =
    discover-IsContainerRow as_it_is decode remote options found two_ports
