-- ===== src/Engine/Ports.antt =====
-- The manager of an engine, whatever is asked of it, and the listeners that are open.
use auto_tunnel.Prelude.{
  ℕ, inl, inr, Bool, true, false, not, List, [], ◌∷◌, ◌==◌, Bool-cases, Result, ok, err,
}
use auto_tunnel.Text.{Bytes, is_empty}
use auto_tunnel.GoMap.{Map, insert}
use auto_tunnel.Discovery.Types.{PortMap}
use auto_tunnel.Tunnel.Manager.{Manager, reconcile, toggle_pause_of}
use auto_tunnel.Tunnel.Manager.Settled.{AreMaps}
use auto_tunnel.Tunnel.Manager.Maps.{reconcile-AreMaps, toggle_pause_of-AreMaps}
use auto_tunnel.Tunnel.Manager.Ports.{IsOwner, reconcile-IsOwner, toggle_pause_of-IsOwner}
use auto_tunnel.Engine.{
  Found, Engine, Answers, DockerPass, HostPass, docker_pass, poll_docker, host_pass, poll_host,
  reconcile_selected, reconcile_maps, reapply_maps, reapply, publish, poll, save_selection,
  known_key, set_enabled, choose_all, set_enabled_all, request_rescan, toggle_pause_key,
}
use auto_tunnel.Engine.Valid.{if_either, Op, polls, enables, enables_all, pauses, rescans, perform}

-- What `Reconcile` and TogglePause keep of the manager.
pub record IsKept (P : Manager → Type 0) : Type 0 where
  pub reconciled :
      (order : Map PortMap) (maps : List PortMap) (m : Manager) → P m → P (reconcile order maps m)
  pub toggled : (k : Bytes) (m : Manager) → P m → P (toggle_pause_of k m).0

module _ (visit_order : Map PortMap → Map PortMap) {P : Manager → Type 0} (kept : IsKept P) where
  reapply_maps-keeps :
      (maps : List PortMap) (e : Engine) → P e.manager → P (reapply_maps visit_order maps e).manager
  unfolding reapply_maps reconcile_selected
  reapply_maps-keeps [] e h = h
  reapply_maps-keeps (pm ∷ maps) e h = kept.reconciled _ _ e.manager h

  -- The choices and their file are no part of the manager.
  save_selection-keeps : (e : Engine) → P e.manager → P (save_selection visit_order e).manager
  unfolding save_selection
  save_selection-keeps e h = elim (Bool-cases (is_empty e.selection_path)) [
    | inl t ↦ rw t h
    | inr t ↦ rw t h
  ]

  chosen-keeps :
      (choices : Map Bool) (e : Engine)
      → P e.manager
      → P
          (reapply visit_order
            (save_selection visit_order (record e { selected = choices }))).manager
  unfolding reapply
  chosen-keeps choices e h = reapply_maps-keeps _ _ (save_selection-keeps _ h)

  docker_pass-keeps :
      (e : Engine) (ended : Bool) (r : Result Bytes Found)
      → P e.manager
      → P (docker_pass e ended r).engine.manager
  unfolding docker_pass
  docker_pass-keeps e ended (ok found) h = h
  docker_pass-keeps e true (err m) h = h
  docker_pass-keeps e false (err m) h = h

  host_pass-keeps :
      (e : Engine) (ended : Bool) (r : Result Bytes Found)
      → P e.manager
      → P (host_pass e ended r).engine.manager
  unfolding host_pass
  host_pass-keeps e ended (ok found) h = h
  host_pass-keeps e true (err m) h = h
  host_pass-keeps e false (err m) h = h

  publish-keeps :
      (d : DockerPass) (g : HostPass) → P g.engine.manager → P (publish visit_order d g).manager
  unfolding publish reconcile_maps reconcile_selected
  publish-keeps d g h = kept.reconciled _ _ g.engine.manager h

  poll-keeps : (a : Answers) (e : Engine) → P e.manager → P (poll visit_order a e).manager
  unfolding poll poll_docker poll_host
  poll-keeps a e h =
      let docker =
        if_either (λ (d : DockerPass). P d.engine.manager) e.docker_on
          (docker_pass-keeps e a.ended_docker a.docker h) h in
      let d = poll_docker e a in
      let host =
        if_either (λ (g : HostPass). P g.engine.manager) d.engine.host_on
          (host_pass-keeps d.engine a.ended_host a.host docker) docker in
      if_either (λ (f : Engine). P f.manager) (not a.connected) h
        (if_either (λ (f : Engine). P f.manager) a.ended_poll docker
          (publish-keeps d (poll_host d.engine a) host))

  set_enabled-keeps :
      (k : Bytes) (on : Bool) (e : Engine)
      → P e.manager
      → P (set_enabled visit_order k on e).0.manager
  unfolding set_enabled
  set_enabled-keeps k on e h =
      if_either (λ (r : Engine × Bool). P r.0.manager) (known_key k e.last_maps)
        (chosen-keeps (insert k on e.selected) e h) h

  set_enabled_all-keeps :
      (ks : List Bytes) (on : Bool) (e : Engine)
      → P e.manager
      → P (set_enabled_all visit_order ks on e).0.manager
  unfolding set_enabled_all
  set_enabled_all-keeps ks on e h =
      let chosen = choose_all visit_order e.last_maps on ks e.selected 0 in
      if_either (λ (r : Engine × ℕ). P r.0.manager) (chosen.1 == 0) h (chosen-keeps chosen.0 e h)

  -- Every operation of the engine keeps it too.
  pub perform-keeps : (op : Op) (e : Engine) → P e.manager → P (perform visit_order op e).manager
  unfolding perform toggle_pause_key request_rescan
  perform-keeps (polls a) e h = poll-keeps a e h
  perform-keeps (enables k on) e h = set_enabled-keeps k on e h
  perform-keeps (enables_all ks on) e h = set_enabled_all-keeps ks on e h
  perform-keeps (pauses k) e h = kept.toggled k e.manager h
  perform-keeps rescans e h = h

-- The maps hold each key once, and the open listeners are those of the live forwarders.
pub record IsSound (m : Manager) : Type 0 where
  pub maps : AreMaps m
  pub owned : IsOwner m

sound : IsKept IsSound
sound = record {
  reconciled = λ order maps m h. record {
    maps = reconcile-AreMaps order maps m h.maps;
    owned = reconcile-IsOwner order maps m h.maps h.owned;
  };
  toggled = λ k m h. record {
    maps = toggle_pause_of-AreMaps k m h.maps;
    owned = toggle_pause_of-IsOwner k m h.owned;
  };
}

-- Whatever is asked of an engine, its open listeners are those of its live forwarders afterwards, and
-- no port is open twice, if this was so before and the maps hold each key once.
pub perform-IsSound :
    (visit_order : Map PortMap → Map PortMap) (op : Op) (e : Engine)
    → IsSound e.manager
    → IsSound (perform visit_order op e).manager
perform-IsSound visit_order op e h = perform-keeps visit_order sound op e h
