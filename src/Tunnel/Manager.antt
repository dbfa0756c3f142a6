-- ===== src/Tunnel/Manager.antt =====
-- internal/tunnel/manager.go: the live listeners are made equal to what discovery reports. The state
-- holds the manager's three maps, its allocator, and what the operating system knows of ports. Go
-- visits a map in any order: `visit` is the order in which `Reconcile` goes through `desired`.
pub mod Lookup
pub mod LastRow
pub mod Growth
pub mod Settled
pub mod Maps
pub mod Moved
pub mod Ports
pub mod Single
use auto_tunnel.Prelude.{
  ◌+◌, ◌≡◌, Bool, true, false, Option, none, some, List, [], ◌∷◌, ◌++◌, if◌then◌else◌,
}
use auto_tunnel.Prelude.Int.{ℤ, pos, ltb_ℤ}
use auto_tunnel.Prelude.Sort.{sort_by}
use auto_tunnel.Text.{Bytes, codes, eqb, ltb_bytes}
use auto_tunnel.Sanitize.{sanitize}
use auto_tunnel.GoMap.{Map, lookup, insert, delete, keep, IsMap}
use auto_tunnel.Discovery.Types.{
  PortMap, src, source_name, published, remote_port, target, preferred_local, forwardable, key,
}
use auto_tunnel.State.{Tunnel, TunnelState, error, unsupported, offered}
use auto_tunnel.Tunnel.Allocator.{Allocator, Net, close_port, Listened, listen, no_free_port}
use auto_tunnel.Tunnel.Forwarder.{Forwarder, new_forwarder, status, toggle_pause}

pub record Manager : Type 0 where
  pub alloc : Allocator
  pub net : Net
  pub forwarders : Map Forwarder
  pub problems : Map Tunnel
  pub offered : Map Tunnel

-- NewManager
unfoldable pub new_manager : Allocator → Net → Manager
new_manager alloc net = record {
  alloc = alloc;
  net = net;
  forwarders = [];
  problems = [];
  offered = [];
}

unfoldable pub scrub : PortMap → PortMap
unfolding sanitize
scrub pm = record pm {
  name = sanitize pm.name;
  image = sanitize pm.image;
  target_host = sanitize pm.target_host;
}

unfoldable pub base_row : PortMap → TunnelState → Tunnel
base_row pm state = record {
  key = key pm;
  source = source_name (src pm);
  enabled = false;
  name = pm.name;
  image = pm.image;
  proto = pm.proto;
  container_port = pm.container_port;
  remote_port = remote_port pm;
  remote_target = target pm;
  local_port = pos 0;
  published = published pm;
  state = state;
  active_conns = 0;
  total_conns = 0;
  bytes_in = 0;
  bytes_out = 0;
  last_error = [];
  url = [];
}

unfoldable pub unsupported_row : PortMap → Tunnel
unfolding base_row
unsupported_row pm = record (base_row pm unsupported) {
  enabled = true;
  last_error = codes "ssh forwards tcp only";
}

unfoldable pub error_row : PortMap → Bytes → Tunnel
unfolding base_row
error_row pm reason = record (base_row pm error) { enabled = true; last_error = reason }

unfoldable pub offered_row : PortMap → Tunnel
unfolding base_row
offered_row pm = base_row pm TunnelState.offered

-- `desired[pm.Key()] = scrub(pm)` for each candidate.
unfoldable pub desired_from : Map PortMap → List PortMap → Map PortMap
unfolding scrub insert
desired_from desired [] = desired
desired_from desired (pm ∷ maps) = desired_from (insert (key pm) (scrub pm) desired) maps

-- Whether a live forwarder is still what is wanted.
unfoldable pub still_wanted : Option PortMap → Forwarder → Bool
unfolding eqb
still_wanted none f = false
still_wanted (some pm) f = eqb (target pm) (target f.port_map)

unfoldable pub wanted : Option PortMap → Bool
wanted none = false
wanted (some pm) = true

-- `toStop` of the first loop.
unfoldable pub stale : Map PortMap → Map Forwarder → List Forwarder
unfolding still_wanted lookup
stale desired [] = []
stale desired ((k, f) ∷ fs) =
    let rest = stale desired fs in if still_wanted (lookup k desired) f then rest else f ∷ rest

-- The three loops that drop what is gone or has moved.
unfoldable pub drop_gone : Map PortMap → Manager → Manager
unfolding still_wanted wanted
drop_gone desired m = record m {
  forwarders = keep (λ k f. still_wanted (lookup k desired) f) m.forwarders;
  problems = keep (λ k row. wanted (lookup k desired)) m.problems;
  offered = keep (λ k row. wanted (lookup k desired)) m.offered;
}

-- Manager.start, with what `Listen` returned.
unfoldable pub started : Bytes → PortMap → Manager → Option Listened → Manager
unfolding new_forwarder
started k pm m none = record m {
  problems = insert k (error_row pm (no_free_port m.alloc k (preferred_local pm))) m.problems;
}
started k pm m (some l) = record m {
  alloc = l.alloc;
  net = l.net;
  problems = delete k m.problems;
  forwarders = insert k (new_forwarder k pm l.port m.alloc.bind) m.forwarders;
}

unfoldable pub start : Bytes → PortMap → Manager → Manager
start k pm m = started k pm m (listen m.alloc m.net k (preferred_local pm))

-- The state, and `toStop`, between two rounds of the last loop.
pub record Round : Type 0 where
  pub manager : Manager
  pub to_stop : List Forwarder

-- A listed row: a live forwarder gives its port back.
unfoldable pub disabled : Bytes → PortMap → Round → Option Forwarder → Round
disabled k pm r none = record r {
  manager = record r.manager {
    problems = delete k r.manager.problems;
    offered = insert k (offered_row pm) r.manager.offered;
  };
}
disabled k pm r (some f) = record {
  manager = record r.manager {
    forwarders = delete k r.manager.forwarders;
    problems = delete k r.manager.problems;
    offered = insert k (offered_row pm) r.manager.offered;
  };
  to_stop = r.to_stop ++ f ∷ [];
}

unfoldable pub refused : Bytes → PortMap → Round → Round
refused k pm r = record r {
  manager = record r.manager {
    offered = delete k r.manager.offered;
    problems = insert k (unsupported_row pm) r.manager.problems;
  };
}

unfoldable pub no_offer : Bytes → Manager → Manager
no_offer k m = record m { offered = delete k m.offered }

-- A row that is on: what is live stays as it is.
unfoldable pub enabled : Bytes → PortMap → Round → Option Forwarder → Round
enabled k pm r (some f) = record r { manager = no_offer k r.manager }
enabled k pm r none = record r { manager = start k pm (no_offer k r.manager) }

-- The branches of a round: whether SSH can carry the port, and whether the row is only listed.
unfoldable pub visit_by : Bytes → PortMap → Round → Bool → Bool → Round
visit_by k pm r false listed = refused k pm r
visit_by k pm r true true = disabled k pm r (lookup k r.manager.forwarders)
visit_by k pm r true false = enabled k pm r (lookup k r.manager.forwarders)

unfoldable pub visit : Bytes → PortMap → Round → Round
visit k pm r = visit_by k pm r (forwardable pm) pm.offered

unfoldable pub visit_all : Map PortMap → Round → Round
visit_all [] r = r
visit_all ((k, pm) ∷ order) r = visit_all order (visit k pm r)

-- forwarder.stop, for each of `toStop`: its listener is closed.
unfoldable pub close_all : List Forwarder → List ℤ → List ℤ
close_all [] ports = ports
close_all (f ∷ fs) ports = close_all fs (close_port f.local_port ports)

unfoldable pub stop_all : Round → Manager
stop_all r = record r.manager {
  net = record r.manager.net { open_ports = close_all r.to_stop r.manager.net.open_ports };
}

unfoldable pub desired : List PortMap → Map PortMap
desired = desired_from []

-- The state before the last loop.
unfoldable pub before_visits : Map PortMap → Manager → Round
before_visits wants m = record { manager = drop_gone wants m; to_stop = stale wants m.forwarders }

-- Manager.Reconcile. `order` is `desired maps` in the order in which the last loop visits it.
unfoldable pub reconcile : Map PortMap → List PortMap → Manager → Manager
reconcile order maps m = stop_all (visit_all order (before_visits (desired maps) m))

-- An order in which a map may be visited.
pub record IsOrderOf (order wants : Map PortMap) : Type 0 where
  pub once : IsMap order
  pub same : (k : Bytes) → lookup k order ≡ lookup k wants

abbrev rows_of : {V : Type 0} → (V → Tunnel) → Map V → List Tunnel
rows_of row [] = []
rows_of row ((k, v) ∷ m) = row v ∷ rows_of row m

unfoldable pub row_less : Tunnel → Tunnel → Bool
unfolding eqb ltb_bytes
row_less a b =
    if eqb a.name b.name then ltb_ℤ a.container_port b.container_port else ltb_bytes a.name b.name

-- Manager.Tunnels. Rows of one name and port may come in any order.
unfoldable pub tunnels : Bool → Manager → List Tunnel
unfolding sort_by row_less status
tunnels ssh_up m = sort_by row_less (
    rows_of (status ssh_up) m.forwarders
    ++ (rows_of (λ row. row) m.problems ++ rows_of (λ row. row) m.offered))

unfoldable pub toggled : Bytes → Manager → Option Forwarder → Manager × Bool × Bool
unfolding toggle_pause
toggled k m none = (m, false, false)
toggled k m (some f) =
    let (g, paused) = toggle_pause f in
    (record m { forwarders = insert k g m.forwarders }, paused, true)

-- Manager.TogglePause: the state, the new value, and whether the key is live.
unfoldable pub toggle_pause_of : Bytes → Manager → Manager × Bool × Bool
unfolding toggled
toggle_pause_of k m = toggled k m (lookup k m.forwarders)

abbrev pub live : Map Forwarder → List Forwarder
live [] = []
live ((k, f) ∷ fs) = f ∷ live fs

-- Manager.Close
unfoldable pub close : Manager → Manager
unfolding close_all close_port
close m = record m {
  forwarders = [];
  net = record m.net { open_ports = close_all (live m.forwarders) m.net.open_ports };
}
