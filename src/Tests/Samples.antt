-- ===== src/Tests/Samples.antt =====
-- Inputs that the runs share.
use auto_tunnel.Prelude.{Bool, true, false, none, [], ◌∷◌, if◌then◌else◌}
use auto_tunnel.Prelude.Int.{ℤ, pos}
use auto_tunnel.Text.{Bytes, codes}
use auto_tunnel.Discovery.Types.{PortMap, docker, host}
use auto_tunnel.State.{Tunnel, listening, offered}
use auto_tunnel.Dial.Target.{Target}
use auto_tunnel.Tunnel.Allocator.{Allocator, Net}
use auto_tunnel.Tunnel.Manager.{Manager}
use auto_tunnel.Engine.{Engine}

abbrev pub web : PortMap
web = record {
  source = docker;
  owner = codes "app/web";
  container_id = codes "c0ffee";
  name = codes "web";
  image = codes "nginx";
  container_port = pos 80;
  host_ip = codes "0.0.0.0";
  host_port = pos 8080;
  local_pref = pos 0;
  proto = codes "tcp";
  target_host = codes "127.0.0.1";
  offered = true;
}

abbrev pub dns : PortMap
dns = record web {
  source = host;
  owner = codes "127.0.0.53";
  name = codes "dns";
  container_port = pos 53;
  proto = codes "udp";
}

abbrev pub nobody : ℤ → Bool
nobody p = false

abbrev pub quiet_net : Net
quiet_net = record { busy = nobody; open_ports = pos 8080 ∷ [] }

abbrev pub local : Allocator
local = record {
  bind = codes "127.0.0.1";
  fallback_base = pos 20000;
  fallback_size = pos 3;
  assigned = [];
}

abbrev pub idle : Manager
idle = record { alloc = local; net = quiet_net; forwarders = []; problems = []; offered = [] }

abbrev pub engine : Engine
engine = record {
  manager = idle;
  docker_on = true;
  host_on = true;
  static = [];
  selection_path = codes "sel.json";
  containers = 0;
  discovery_err = [];
  warnings = [];
  last_docker = [];
  last_host = [];
  last_maps = web ∷ [];
  selected = [];
  saved = none;
  rescan = false;
}

abbrev pub row : Bytes → Bytes → Bool → Tunnel
row k name on = record {
  key = k;
  source = codes "docker";
  enabled = on;
  name = name;
  image = [];
  proto = codes "tcp";
  container_port = pos 80;
  remote_port = pos 80;
  remote_target = codes "127.0.0.1:80";
  local_port = pos 80;
  published = false;
  state = if on then listening else offered;
  active_conns = 0;
  total_conns = 0;
  bytes_in = 0;
  bytes_out = 0;
  last_error = [];
  url = [];
}

abbrev pub server : Target
server = record {
  spec = codes "box";
  alias = codes "box";
  user = codes "me";
  host = codes "box";
  port = pos 22;
  identity_files = [];
  proxy_jump = [];
}
