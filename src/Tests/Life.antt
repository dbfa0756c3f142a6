-- ===== src/Tests/Life.antt =====
-- The engine from newEngine through a poll, the manager from its start, and the probes.
use auto_tunnel.Prelude.{
  ◌≡◌, refl, Bool, true, false, Option, none, some, List, [], ◌∷◌, ◌++◌, err, arith, if◌then◌else◌,
}
use auto_tunnel.Prelude.Int.{ℤ, pos}
use auto_tunnel.Text.{Bytes, codes, eqb, is_empty}
use auto_tunnel.GoMap.{Map, lookup}
use auto_tunnel.Discovery.Types.{PortMap, key}
use auto_tunnel.Discovery.Host.{off}
use auto_tunnel.Tunnel.Allocator.{Net}
use auto_tunnel.Tunnel.Manager.{new_manager, desired, reconcile, toggle_pause_of}
use auto_tunnel.Tunnel.Manager.Maps.{desired-IsMap}
use auto_tunnel.Tunnel.Manager.Lookup.{view}
use auto_tunnel.Tunnel.Manager.Single.{rows_shown, row_if}
use auto_tunnel.Tunnel.Manager.Single.Shown.{made, reconciled, paused, reconcile-shown}
use auto_tunnel.Tunnel.Forwarder.{http, https, unknown, Forwarder, new_forwarder}
use auto_tunnel.Tunnel.Probing.{
  asks, holds, Prober, Probes, no_probes, takes_slot, starts_probe, probes, no_step, then_step,
  AreCounted, MayStart, ProbeSteps-AreCounted,
}
use auto_tunnel.Probe.{Service, detect, answers, all_advanced, idle_line, detect_lem}
use auto_tunnel.Engine.{Engine, Answers, poll}
use auto_tunnel.Engine.Files.{ReadAnswer, missing, resolve_selection_path}
use auto_tunnel.Engine.Start.{Settings, load_selection, new_engine}
use auto_tunnel.Engine.Life.{
  waiting, at, polls_now, starts, then_beats, closed_down, unblocked, run-IsOwner,
}
use auto_tunnel.Engine.Ports.{IsSound}
use auto_tunnel.Tunnel.Manager.Ports.Counts.{count}
use auto_tunnel.Tests.Samples.{web, nobody, local, quiet_net, server}

-- A host with no Docker, and one declared forward.
abbrev db : PortMap
db = record web { owner = codes "db"; name = codes "db"; host_port = pos 5432; offered = false }

abbrev settings : Settings
settings = record {
  bind = [];
  fallback_base = pos 0;
  static = db ∷ [];
  no_docker = true;
  docker = record {
    ps_command = [];
    inspect_command = [];
    include = none;
    exclude = none;
    include_unpublished = false;
  };
  host_mode = off;
  listen_command = [];
  host_exclude = none;
  selection_path = codes "off";
}

abbrev no_json : Bytes → Option (Option (Map Bool))
no_json text = none

abbrev joined : Bytes → Bytes → Bytes → Bytes
joined a b c = a ++ (b ++ c)

abbrev no_file : Bytes → ReadAnswer
no_file path = missing

abbrev fresh_net : Net
fresh_net = record { busy = nobody; open_ports = [] }

abbrev in_order : Map PortMap → Map PortMap
in_order wants = wants

abbrev answered : Answers
answered = record {
  connected = true;
  docker = err [];
  host = err [];
  ended_docker = false;
  ended_poll = false;
  ended_host = false;
}

abbrev first : Engine
first = (new_engine no_json joined none no_file settings server fresh_net).engine

abbrev polled : Engine
polled = poll in_order answered first

-- One poll, which binds the port of the forward.
run-IsOwner_example :
    IsSound polled.manager
    × ((gone : List Forwarder) (p : ℤ)
        → count p (closed_down (unblocked gone polled)).manager.net.open_ports ≡ 0)
unfolding new_engine load_selection resolve_selection_path is_empty eqb
run-IsOwner_example =
    run-IsOwner no_json joined none no_file in_order settings server fresh_net (at waiting polled)
      refl refl (then_beats starts (polls_now first answered (refl, refl, refl)))

-- The container is first on and paused, and then only listed.
reconcile-shown_example :
    let on = desired (record web { offered = false } ∷ []) in
    let m = reconcile on (record web { offered = false } ∷ []) (new_manager local quiet_net) in
    rows_shown
      (view (key web) (reconcile (desired (web ∷ [])) (web ∷ []) (toggle_pause_of (key web) m).0))
    ≡ row_if (lookup (key web) (desired (web ∷ [])))
reconcile-shown_example =
    let on = desired (record web { offered = false } ∷ []) in
    reconcile-shown (desired (web ∷ [])) (web ∷ [])
      (toggle_pause_of (key web)
        (reconcile on (record web { offered = false } ∷ []) (new_manager local quiet_net))).0
      (key web)
      (paused (key web) (
        reconciled on (record web { offered = false } ∷ []) (made local quiet_net)
          (record { once = desired-IsMap (record web { offered = false } ∷ []); same = λ k. refl })
          (omega arith)))
      (record { once = desired-IsMap (web ∷ []); same = λ k. refl }) (omega arith)

-- A plain web server: the handshake fails, and the second connection gets an answer.
abbrev over_tls : Service
over_tls = record { dials = true; shakes_hands = false; takes_request = true; answer = none }

abbrev over_tcp : Service
over_tcp = record over_tls { answer = some (codes "HTTP/") }

detect_lem_example :
    let r = detect over_tls over_tcp (codes "127.0.0.1:80") in
    (r.1
      ≡ (if answers over_tls true then https else if answers over_tcp false then http else unknown))
    × (all_advanced r.0 (some (idle_line 0))
        ≡ some (idle_line (if answers over_tls true then 1 else 2)))
detect_lem_example = detect_lem over_tls over_tcp (codes "127.0.0.1:80")

abbrev prober : Prober
prober = record { stage = asks; forwarder = new_forwarder (key web) web (pos 8080) [] }

abbrev probing : Probes
probing = record { slots = 1; probers = record prober { stage = holds } ∷ [] }

ProbeSteps-AreCounted_example : AreCounted probing × MayStart probing
unfolding no_probes
ProbeSteps-AreCounted_example = ProbeSteps-AreCounted (
    then_step (then_step no_step (starts_probe no_probes prober.forwarder)) (
      probes (record { slots = 0; probers = prober ∷ [] }) [] [] prober
        (record prober { stage = holds }) 1 refl (takes_slot refl (omega arith))))
