-- ===== src/Engine.antt =====
-- engine.go: discovery and reconciliation. What the remote commands answer is an input of a poll;
-- the files of remembered choices are the state `saved`. Go's choice of an order in which to visit
-- the wanted rows is the parameter `visit_order`.
pub mod Files
pub mod Interleave
pub mod Merge
pub mod Choice
pub mod Valid
pub mod Poll
pub mod History
pub mod Several
pub mod Ports
pub mod Start
pub mod Life
use auto_tunnel.Prelude.{
  ℕ, ◌+◌, Bool, true, false, not, ◌&&◌, ◌||◌, Option, none, some, List, [], ◌∷◌, ◌++◌, ◌==◌,
  if◌then◌else◌, Result, ok, err,
}
use auto_tunnel.Prelude.Int.{ℤ}
use auto_tunnel.Text.{Bytes, codes, eqb, is_empty}
use auto_tunnel.Sanitize.{sanitize, sanitize_all}
use auto_tunnel.GoMap.{Map, lookup, insert}
use auto_tunnel.Discovery.Types.{PortMap, published, key}
use auto_tunnel.Tunnel.Allocator.{member}
use auto_tunnel.Tunnel.Manager.{Manager, desired, reconcile, toggle_pause_of}

-- The ports of `taken` in `dropDockerPublished`.
unfoldable pub taken : List PortMap → List ℤ
taken [] = []
taken (pm ∷ docker) = let rest = taken docker in if published pm then pm.host_port ∷ rest else rest

unfoldable pub drop_ports : List ℤ → List PortMap → List PortMap
unfolding member
drop_ports ports [] = []
drop_ports ports (pm ∷ host) =
    let rest = drop_ports ports host in if member pm.container_port ports then rest else pm ∷ rest

unfoldable pub drop_docker_published : List PortMap → List PortMap → List PortMap
unfolding taken drop_ports
drop_docker_published docker host = drop_ports (taken docker) host

unfoldable pub member_key : Bytes → List Bytes → Bool
member_key k [] = false
member_key k (j ∷ js) = eqb k j || member_key k js

abbrev pub second_forward : Bytes → Bytes
second_forward k = codes "ignoring a second forward for " ++ k

-- dedupeKeys: what is kept, and the warnings, with the keys seen so far.
unfoldable pub dedupe_from : List Bytes → List PortMap → List Bytes → List PortMap × List Bytes
dedupe_from seen [] warnings = ([], warnings)
dedupe_from seen (pm ∷ maps) warnings =
    let again = dedupe_from seen maps (warnings ++ second_forward (key pm) ∷ []) in
    let rest = dedupe_from (key pm ∷ seen) maps warnings in
    if member_key (key pm) seen then again else (pm ∷ rest.0, rest.1)

unfoldable pub dedupe_keys : List PortMap → List Bytes → List PortMap × List Bytes
unfolding dedupe_from
dedupe_keys = dedupe_from []

-- The user's choice overrides a default.
abbrev pub chosen : PortMap → Option Bool → PortMap
chosen pm none = pm
chosen pm (some on) = record pm { offered = not on }

unfoldable pub apply_selection : Map Bool → List PortMap → List PortMap
unfolding lookup key
apply_selection selected [] = []
apply_selection selected (pm ∷ maps) =
    chosen pm (lookup (key pm) selected) ∷ apply_selection selected maps

unfoldable pub known_key : Bytes → List PortMap → Bool
known_key k [] = false
known_key k (pm ∷ maps) = eqb (key pm) k || known_key k maps

-- What one discovery pass found.
pub record Found : Type 0 where
  pub maps : List PortMap
  pub warnings : List Bytes
  pub containers : ℕ

pub record Engine : Type 0 where
  pub manager : Manager
  pub docker_on : Bool
  pub host_on : Bool
  pub static : List PortMap
  pub selection_path : Bytes
  pub containers : ℕ
  pub discovery_err : Bytes
  pub warnings : List Bytes
  pub last_docker : List PortMap
  pub last_host : List PortMap
  pub last_maps : List PortMap
  pub selected : Map Bool
  pub saved : Option (Map Bool)
  pub rescan : Bool

-- What a poll meets: the client, the answers of the remote commands, and whether the context has
-- ended when `pollDocker`, `poll` and `pollHost` ask.
pub record Answers : Type 0 where
  pub connected : Bool
  pub docker : Result Bytes Found
  pub host : Result Bytes Found
  pub ended_docker : Bool
  pub ended_poll : Bool
  pub ended_host : Bool

pub record DockerPass : Type 0 where
  pub engine : Engine
  pub found : Found
  pub good : Bool

abbrev nothing : Found
nothing = record { maps = []; warnings = []; containers = 0 }

unfoldable pub docker_pass : Engine → Bool → Result Bytes Found → DockerPass
unfolding sanitize
docker_pass e ended (ok found) = record {
  engine = record e { last_docker = found.maps };
  found = found;
  good = true;
}
docker_pass e true (err message) = record { engine = e; found = nothing; good = false }
docker_pass e false (err message) = record {
  engine = record e { discovery_err = sanitize message };
  found = record { maps = e.last_docker; warnings = []; containers = e.containers };
  good = false;
}

unfoldable pub poll_docker : Engine → Answers → DockerPass
unfolding docker_pass
poll_docker e a =
    if e.docker_on
    then docker_pass e a.ended_docker a.docker
    else record { engine = e; found = nothing; good = true }

pub record HostPass : Type 0 where
  pub engine : Engine
  pub maps : List PortMap
  pub warnings : List Bytes

unfoldable pub host_pass : Engine → Bool → Result Bytes Found → HostPass
unfolding sanitize
host_pass e ended (ok found) = record {
  engine = record e { last_host = found.maps };
  maps = found.maps;
  warnings = found.warnings;
}
host_pass e true (err message) = record { engine = e; maps = e.last_host; warnings = [] }
host_pass e false (err message) = record {
  engine = e;
  maps = e.last_host;
  warnings = sanitize message ∷ [];
}

unfoldable pub poll_host : Engine → Answers → HostPass
unfolding host_pass
poll_host e a =
    if e.host_on
    then host_pass e a.ended_host a.host
    else record { engine = e; maps = []; warnings = [] }

-- The rows of the three sources in one list, before keys are deduplicated.
unfoldable pub merged : List PortMap → List PortMap → List PortMap → List PortMap
unfolding drop_docker_published
merged docker host static = docker ++ (drop_docker_published docker host ++ static)

module _ (visit_order : Map PortMap → Map PortMap) where
  -- The manager given a set under the choices of the moment.
  unfoldable pub reconcile_selected : List PortMap → Engine → Engine
  reconcile_selected maps e =
      let chosen_maps = apply_selection e.selected maps in
      record e { manager = reconcile (visit_order (desired chosen_maps)) chosen_maps e.manager }

  -- engine.reconcile
  unfoldable pub reconcile_maps : List PortMap → Engine → Engine
  unfolding reconcile_selected
  reconcile_maps maps e = reconcile_selected maps (record e { last_maps = maps })

  unfoldable pub reapply_maps : List PortMap → Engine → Engine
  unfolding reconcile_selected
  reapply_maps [] e = e
  reapply_maps (pm ∷ maps) e = reconcile_selected (pm ∷ maps) e

  unfoldable pub reapply : Engine → Engine
  unfolding reapply_maps
  reapply e = reapply_maps e.last_maps e

  -- The last part of `poll`, with what both passes found.
  unfoldable pub publish : DockerPass → HostPass → Engine
  unfolding reconcile_maps merged dedupe_keys sanitize_all
  publish d h =
      let (maps, warnings) =
        dedupe_keys (merged d.found.maps h.maps h.engine.static) (d.found.warnings ++ h.warnings) in
      let e = reconcile_maps maps h.engine in
      record e {
        containers = d.found.containers;
        warnings = sanitize_all warnings;
        discovery_err = if d.good then [] else e.discovery_err;
      }

  unfoldable pub poll : Answers → Engine → Engine
  unfolding poll_docker poll_host publish
  poll a e =
      let d = poll_docker e a in
      if not a.connected
      then record e { discovery_err = [] }
      else if a.ended_poll
      then d.engine
      else publish d (poll_host d.engine a)

  unfoldable pub save_selection : Engine → Engine
  unfolding is_empty
  save_selection e = if is_empty e.selection_path then e else record e { saved = some e.selected }

  -- SetEnabled: the state and whether the key is known.
  unfoldable pub set_enabled : Bytes → Bool → Engine → Engine × Bool
  unfolding reapply save_selection insert known_key
  set_enabled k on e =
      if known_key k e.last_maps
      then (reapply (save_selection (record e { selected = insert k on e.selected })), true)
      else (e, false)

  abbrev pub same_choice : Bool → Option Bool → Bool
  same_choice on none = false
  same_choice true (some prev) = prev
  same_choice false (some prev) = not prev

  -- The choices and the number of changes after `SetEnabledAll` has gone through some keys.
  unfoldable pub choose_all : List PortMap → Bool → List Bytes → Map Bool → ℕ → Map Bool × ℕ
  choose_all maps on [] selected changed = (selected, changed)
  choose_all maps on (k ∷ keys) selected changed =
      let skipped = choose_all maps on keys selected changed in
      let made = choose_all maps on keys (insert k on selected) (changed + 1) in
      if known_key k maps && not (same_choice on (lookup k selected)) then made else skipped

  unfoldable pub set_enabled_all : List Bytes → Bool → Engine → Engine × ℕ
  unfolding choose_all
  set_enabled_all keys on e =
      let (selected, changed) = choose_all e.last_maps on keys e.selected 0 in
      if changed == 0
      then (e, 0)
      else (reapply (save_selection (record e { selected = selected })), changed)

-- Rescan: a request that is queued already is as good as a second one.
unfoldable pub request_rescan : Engine → Engine
request_rescan e = record e { rescan = true }

-- engine.TogglePause
unfoldable pub toggle_pause_key : Bytes → Engine → Engine × Bool × Bool
unfolding toggle_pause_of
toggle_pause_key k e =
    let (m, paused, known) = toggle_pause_of k e.manager in
    (record e { manager = m }, paused, known)
