-- ===== src/Engine/Start.antt =====
-- engine.go: newEngine, loadSelection and snapshot, with NewHost of
-- internal/discovery/hostports.go. The configuration directory, the joining of paths, the
-- file system and the JSON decoder are parameters.
use auto_tunnel.Prelude.{Bool, true, false, not, Option, none, some, List, [], ◌∷◌, if◌then◌else◌}
use auto_tunnel.Prelude.Int.{ℤ, eqb_ℤ}
use auto_tunnel.Text.{Bytes, codes, eqb, is_empty}
use auto_tunnel.GoMap.{Map}
use auto_tunnel.State.{Tunnel}
use auto_tunnel.Discovery.Types.{PortMap}
use auto_tunnel.Discovery.Docker.{Options, with_defaults}
use auto_tunnel.Discovery.Host.{HostMode, mode_enabled, mode_offered, HostOptions}
use auto_tunnel.Dial.Target.{Target, show_target}
use auto_tunnel.Tunnel.Allocator.{Net, new_allocator, default_fallback_size}
use auto_tunnel.Tunnel.Manager.{new_manager, tunnels}
use auto_tunnel.Conn.{Status}
use auto_tunnel.Ui.View.{Frame}
use auto_tunnel.Engine.{Engine}
use auto_tunnel.Engine.Files.{
  ReadAnswer, missing, unreadable, contents, resolve_selection_path, PrefsWarning, not_read,
  not_parsed,
}

abbrev pub default_listen_command : Bytes
default_listen_command = codes "ss -Hltnp 2>/dev/null || netstat -tlnp 2>/dev/null"

-- NewHost, of the command: the options of `Discover` are as they are given.
unfoldable pub listen_command_of : Bytes → Bytes
unfolding is_empty
listen_command_of command = if is_empty command then default_listen_command else command

-- What `newEngine` reads of the configuration.
pub record Settings : Type 0 where
  pub bind : Bytes
  pub fallback_base : ℤ
  pub static : List PortMap
  pub no_docker : Bool
  pub docker : Options
  pub host_mode : HostMode
  pub listen_command : Bytes
  pub host_exclude : Option (Bytes → Bool)
  pub selection_path : Bytes

-- An engine, with what its two discoverers are made of and the place of the preferences.
pub record Setup : Type 0 where
  pub engine : Engine
  pub docker : Option Options
  pub listen_command : Bytes
  pub host : Option HostOptions
  pub prefs_path : Bytes
  pub nil_choices : Bool

abbrev pub is_some : {A : Type 0} → Option A → Bool
is_some none = false
is_some (some x) = true

abbrev pub selection_off : Bytes
selection_off = codes "off"

-- `decode` of a text that is no JSON map is none, and its `some none` is JSON's null, at which Go's map
-- becomes nil.
module _ (decode : Bytes → Option (Option (Map Bool))) where
  -- The choices, none for a nil map.
  unfoldable pub selection_of : ReadAnswer → Option (Map Bool) × List PrefsWarning
  selection_of missing = (some [], [])
  selection_of unreadable = (some [], not_read ∷ [])
  selection_of (contents text) = elim (decode text) [
    | none ↦ (some [], not_parsed ∷ [])
    | some selected ↦ (selected, [])
  ]

  -- A nil map reads as an empty one. A write to it panics, and the field `nil_choices` of a Setup tells
  -- that the engine has one.
  abbrev pub read_choices : Option (Map Bool) → Map Bool
  read_choices none = []
  read_choices (some selected) = selected

  module _ (join3 : Bytes → Bytes → Bytes → Bytes) (config_dir : Option Bytes)
      (read : Bytes → ReadAnswer) where
    -- loadSelection, if there is a path.
    unfoldable pub load_selection : Bytes → Option (Map Bool)
    unfolding selection_of is_empty
    load_selection path = if is_empty path then some [] else (selection_of (read path)).0

    unfoldable pub prefs_path_of : Bytes → Bytes
    unfolding eqb
    prefs_path_of flag = if eqb flag selection_off then [] else elim config_dir [
      | none ↦ []
      | some dir ↦ join3 dir (codes "auto-tunnel") (codes "view.json")
    ]

    -- Forwarding the port that the connection goes through is never what is meant.
    unfoldable pub host_options_of : Settings → Target → HostOptions
    unfolding mode_offered
    host_options_of s t = record {
      exclude = s.host_exclude;
      skip_ports = eqb_ℤ t.port;
      offered = mode_offered s.host_mode;
    }

    unfoldable pub first_engine : Settings → Net → Bytes → Engine
    unfolding new_manager new_allocator mode_enabled load_selection
    first_engine s net path = record {
      manager = new_manager (new_allocator s.bind s.fallback_base default_fallback_size) net;
      docker_on = not s.no_docker;
      host_on = mode_enabled s.host_mode;
      static = s.static;
      selection_path = path;
      containers = 0;
      discovery_err = [];
      warnings = [];
      last_docker = [];
      last_host = [];
      last_maps = [];
      selected = read_choices (load_selection path);
      saved = none;
      rescan = false;
    }

    -- newEngine
    unfoldable pub new_engine : Settings → Target → Net → Setup
    unfolding first_engine host_options_of listen_command_of prefs_path_of with_defaults
        resolve_selection_path mode_enabled
    new_engine s t net = record {
      engine =
          first_engine s net
            (resolve_selection_path join3 config_dir s.selection_path (show_target t));
      docker = if s.no_docker then none else some (with_defaults s.docker);
      listen_command = listen_command_of s.listen_command;
      host = if mode_enabled s.host_mode then some (host_options_of s t) else none;
      prefs_path = prefs_path_of s.selection_path;
      nil_choices = not (
          is_some (
            load_selection
              (resolve_selection_path join3 config_dir s.selection_path (show_target t))));
    }

-- engine.snapshot, with the times that the dashboard reads off it.
pub record Snapshot : Type 0 where
  pub frame : Frame
  pub warnings : List Bytes
  pub tunnels : List Tunnel

unfoldable pub snapshot : Target → Status → Bool → ℤ → Option ℤ → Engine → Snapshot
unfolding tunnels show_target
snapshot t ssh ssh_up uptime next_scan e = record {
  frame = record {
    target = show_target t;
    ssh = ssh;
    containers = e.containers;
    discovery_error = e.discovery_err;
    uptime = uptime;
    next_scan = next_scan;
  };
  warnings = e.warnings;
  tunnels = tunnels ssh_up e.manager;
}
