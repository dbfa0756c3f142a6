-- ===== src/Engine/Valid.antt =====
-- What every operation of the engine keeps: each map holds a key once, and the last set names no
-- tunnel twice.
use auto_tunnel.Prelude.{
  inl, inr, Bool, true, false, not, List, [], ◌∷◌, ◌==◌, if◌then◌else◌, Bool-cases, Result, ok, err,
}
use auto_tunnel.Text.{Bytes, is_empty}
use auto_tunnel.GoMap.{Map, insert}
use auto_tunnel.Discovery.Types.{PortMap}
use auto_tunnel.Tunnel.Manager.Settled.{AreMaps}
use auto_tunnel.Tunnel.Manager.Maps.{reconcile-AreMaps, toggle_pause_of-AreMaps}
use auto_tunnel.Engine.{
  Found, Engine, Answers, DockerPass, HostPass, docker_pass, poll_docker, host_pass, poll_host,
  reconcile_selected, reconcile_maps, reapply_maps, reapply, publish, poll, save_selection,
  known_key, set_enabled, choose_all, set_enabled_all, request_rescan, toggle_pause_key,
}
use auto_tunnel.Engine.Merge.{DistinctKeys, dedupe_keys-first}

pub record IsValid (e : Engine) : Type 0 where
  pub maps : AreMaps e.manager
  pub distinct : DistinctKeys e.last_maps

pub if_either :
    {A : Type 0} (P : A → Type 0) (b : Bool) {x y : A} → P x → P y → P (if b then x else y)
if_either P true px py = px
if_either P false px py = py

-- What an operation that a user or the poll loop asks for does to the engine.
pub data Op : Type 0 where
  polls : (a : Answers) → Op
  enables : (k : Bytes) (on : Bool) → Op
  enables_all : (ks : List Bytes) (on : Bool) → Op
  pauses : (k : Bytes) → Op
  rescans : Op

module _ (visit_order : Map PortMap → Map PortMap) where
  unfoldable pub perform : Op → Engine → Engine
  unfolding poll set_enabled set_enabled_all toggle_pause_key request_rescan
  perform (polls a) e = poll visit_order a e
  perform (enables k on) e = (set_enabled visit_order k on e).0
  perform (enables_all ks on) e = (set_enabled_all visit_order ks on e).0
  perform (pauses k) e = (toggle_pause_key k e).0
  perform rescans e = request_rescan e

  pub reconcile_selected-IsValid :
      (maps : List PortMap) (e : Engine)
      → IsValid e
      → IsValid (reconcile_selected visit_order maps e)
  unfolding reconcile_selected
  reconcile_selected-IsValid maps e v = record {
    maps = reconcile-AreMaps _ _ e.manager v.maps;
    distinct = v.distinct;
  }

  reapply_maps-IsValid :
      (maps : List PortMap) (e : Engine) → IsValid e → IsValid (reapply_maps visit_order maps e)
  unfolding reapply_maps
  reapply_maps-IsValid [] e v = v
  reapply_maps-IsValid (pm ∷ maps) e v = reconcile_selected-IsValid (pm ∷ maps) e v

  pub save_selection-IsValid : (e : Engine) → IsValid e → IsValid (save_selection visit_order e)
  unfolding save_selection
  save_selection-IsValid e v = elim (Bool-cases (is_empty e.selection_path)) [
    | inl t ↦ rw t v
    | inr t ↦ rw t (record { maps = v.maps; distinct = v.distinct })
  ]

  -- A change of the choices alone, applied.
  chosen-IsValid :
      (choices : Map Bool) (e : Engine)
      → IsValid e
      → IsValid (reapply visit_order (save_selection visit_order (record e { selected = choices })))
  unfolding reapply
  chosen-IsValid choices e v = reapply_maps-IsValid _ _ (
      save_selection-IsValid (record e { selected = choices })
        (record { maps = v.maps; distinct = v.distinct }))

  set_enabled-IsValid :
      (k : Bytes) (on : Bool) (e : Engine) → IsValid e → IsValid (set_enabled visit_order k on e).0
  unfolding set_enabled
  set_enabled-IsValid k on e v = elim (Bool-cases (known_key k e.last_maps)) [
    | inl t ↦ rw t (chosen-IsValid (insert k on e.selected) e v)
    | inr t ↦ rw t v
  ]

  set_enabled_all-IsValid :
      (ks : List Bytes) (on : Bool) (e : Engine)
      → IsValid e
      → IsValid (set_enabled_all visit_order ks on e).0
  unfolding set_enabled_all
  set_enabled_all-IsValid ks on e v =
      elim (Bool-cases ((choose_all visit_order e.last_maps on ks e.selected 0).1 == 0)) [
        | inl t ↦ rw t v
        | inr t ↦
            rw t (chosen-IsValid (choose_all visit_order e.last_maps on ks e.selected 0).0 e v)
      ]

  docker_pass-IsValid :
      (e : Engine) (ended : Bool) (r : Result Bytes Found)
      → IsValid e
      → IsValid (docker_pass e ended r).engine
  unfolding docker_pass
  docker_pass-IsValid e ended (ok found) v = record { maps = v.maps; distinct = v.distinct }
  docker_pass-IsValid e true (err m) v = v
  docker_pass-IsValid e false (err m) v = record { maps = v.maps; distinct = v.distinct }

  poll_docker-IsValid : (e : Engine) (a : Answers) → IsValid e → IsValid (poll_docker e a).engine
  unfolding poll_docker
  poll_docker-IsValid e a v =
      if_either (λ (d : DockerPass). IsValid d.engine) e.docker_on
        (docker_pass-IsValid e a.ended_docker a.docker v) v

  host_pass-IsValid :
      (e : Engine) (ended : Bool) (r : Result Bytes Found)
      → IsValid e
      → IsValid (host_pass e ended r).engine
  unfolding host_pass
  host_pass-IsValid e ended (ok found) v = record { maps = v.maps; distinct = v.distinct }
  host_pass-IsValid e true (err m) v = v
  host_pass-IsValid e false (err m) v = v

  poll_host-IsValid : (e : Engine) (a : Answers) → IsValid e → IsValid (poll_host e a).engine
  unfolding poll_host
  poll_host-IsValid e a v =
      if_either (λ (d : HostPass). IsValid d.engine) e.host_on
        (host_pass-IsValid e a.ended_host a.host v) v

  publish-IsValid :
      (d : DockerPass) (h : HostPass) → IsValid h.engine → IsValid (publish visit_order d h)
  unfolding publish reconcile_maps reconcile_selected
  publish-IsValid d h v = record {
    maps = reconcile-AreMaps _ _ h.engine.manager v.maps;
    distinct = (dedupe_keys-first _ _).0;
  }

  poll-IsValid : (a : Answers) (e : Engine) → IsValid e → IsValid (poll visit_order a e)
  unfolding poll
  poll-IsValid a e v = elim (Bool-cases (not a.connected)) [
    | inl t ↦ rw t (record { maps = v.maps; distinct = v.distinct })
    | inr t ↦ rw t (elim (Bool-cases a.ended_poll) [
      | inl u ↦ rw u (poll_docker-IsValid e a v)
      | inr u ↦
          rw u (
            publish-IsValid (poll_docker e a) _ (poll_host-IsValid _ a (poll_docker-IsValid e a v)))
    ])
  ]

  -- Whatever is asked of an engine whose maps hold each key once and whose last set has no key twice
  -- leaves it so: a poll, with any answers of the remote commands and an end of the context at any
  -- of its points, a choice for one tunnel or for several, a pause, or a rescan.
  pub perform-IsValid : (op : Op) (e : Engine) → IsValid e → IsValid (perform op e)
  unfolding perform
  perform-IsValid (polls a) e v = poll-IsValid a e v
  perform-IsValid (enables k on) e v = set_enabled-IsValid k on e v
  perform-IsValid (enables_all ks on) e v = set_enabled_all-IsValid ks on e v
  perform-IsValid (pauses k) e v =
      unfold toggle_pause_key in
      record { maps = toggle_pause_of-AreMaps k e.manager v.maps; distinct = v.distinct }
  perform-IsValid rescans e v =
      unfold request_rescan in record { maps = v.maps; distinct = v.distinct }
