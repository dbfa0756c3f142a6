-- ===== src/Tunnel/Forwarder.antt =====
-- internal/tunnel/forwarder.go: one local listener as the dashboard sees it. The connections
-- themselves are bytes in flight and are not modelled; their counters are.
use auto_tunnel.Prelude.{ℕ, ◌+◌, ◌-◌, Bool, true, false, not, ◌||◌, [], ◌++◌, ltb, if◌then◌else◌}
use auto_tunnel.Prelude.Int.{ℤ}
use auto_tunnel.Text.{Bytes, codes, eqb}
use auto_tunnel.Text.Decimal.{itoa}
use auto_tunnel.Discovery.Types.{
  PortMap, src, source_name, published, remote_port, target, join_host_port,
}
use auto_tunnel.Sanitize.{sanitize}
use auto_tunnel.State.{Tunnel, TunnelState, listening, active, degraded}

-- probe.Scheme; `unknown` is the zero value "", also before a probe has answered.
pub data Scheme : Type 0 where
  unknown http https : Scheme

unfoldable pub scheme_name : Scheme → Bytes
scheme_name unknown = []
scheme_name http = codes "http"
scheme_name https = codes "https"

pub record Forwarder : Type 0 where
  pub key : Bytes
  pub port_map : PortMap
  pub local_port : ℤ
  pub bind : Bytes
  pub paused : Bool
  pub scheme : Scheme
  pub active_conns : ℕ
  pub total_conns : ℕ
  pub bytes_in : ℕ
  pub bytes_out : ℕ
  pub last_err : Bytes

unfoldable pub new_forwarder : Bytes → PortMap → ℤ → Bytes → Forwarder
new_forwarder key pm local_port bind = record {
  key = key;
  port_map = pm;
  local_port = local_port;
  bind = bind;
  paused = false;
  scheme = unknown;
  active_conns = 0;
  total_conns = 0;
  bytes_in = 0;
  bytes_out = 0;
  last_err = [];
}

unfoldable pub browser_host : Bytes → Bytes
unfolding eqb
browser_host bind =
    if eqb bind [] || eqb bind (codes "0.0.0.0") || eqb bind (codes "::")
    then codes "127.0.0.1"
    else bind

unfoldable pub url_of : Scheme → Forwarder → Bytes
unfolding scheme_name browser_host join_host_port itoa
url_of unknown f = []
url_of scheme f =
    scheme_name scheme ++ (codes "://" ++ join_host_port (browser_host f.bind) (itoa f.local_port))

unfoldable pub url : Forwarder → Bytes
unfolding url_of
url f = url_of f.scheme f

unfoldable pub toggle_pause : Forwarder → Forwarder × Bool
toggle_pause f = (record f { paused = not f.paused }, not f.paused)

unfoldable pub set_error : Bytes → Forwarder → Forwarder
unfolding sanitize
set_error message f = record f { last_err = sanitize message }

unfoldable pub clear_error : Forwarder → Forwarder
clear_error f = record f { last_err = [] }

-- `handle` with a client that dialed the target: up to the copy, and when the copy ends.
unfoldable pub conn_opened : Forwarder → Forwarder
unfolding clear_error
conn_opened f =
    clear_error (record f { total_conns = f.total_conns + 1; active_conns = f.active_conns + 1 })

unfoldable pub conn_closed : Forwarder → Forwarder
conn_closed f = record f { active_conns = f.active_conns - 1 }

unfoldable pub wrote_out : ℕ → Forwarder → Forwarder
wrote_out n f = record f { bytes_out = f.bytes_out + n }

unfoldable pub wrote_in : ℕ → Forwarder → Forwarder
wrote_in n f = record f { bytes_in = f.bytes_in + n }

-- What the probe stores once the service has answered.
unfoldable pub probed : Scheme → Forwarder → Forwarder
probed scheme f = record f { scheme = scheme }

unfoldable pub row_state : Bool → Forwarder → TunnelState
row_state ssh_up f =
    if f.paused
    then TunnelState.paused
    else if not ssh_up
    then degraded
    else if ltb 0 f.active_conns
    then active
    else listening

unfoldable pub status : Bool → Forwarder → Tunnel
unfolding url row_state
status ssh_up f = record {
  key = f.key;
  source = source_name (src f.port_map);
  enabled = true;
  name = f.port_map.name;
  image = f.port_map.image;
  proto = f.port_map.proto;
  container_port = f.port_map.container_port;
  remote_port = remote_port f.port_map;
  remote_target = target f.port_map;
  local_port = f.local_port;
  published = published f.port_map;
  state = row_state ssh_up f;
  active_conns = f.active_conns;
  total_conns = f.total_conns;
  bytes_in = f.bytes_in;
  bytes_out = f.bytes_out;
  last_error = f.last_err;
  url = url f;
}
