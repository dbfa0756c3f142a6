-- ===== src/Engine/History/Seen.antt =====
-- What an operation of the engine changes of what its sources have answered.
use auto_tunnel.Prelude.{
  ℕ, ◌≡◌, refl, ap, ◌∙◌, Bool, true, false, not, ◌&&◌, some, List, [], ◌∷◌, ◌==◌, if◌then◌else◌,
  Result, ok, err,
}
use auto_tunnel.Text.{Bytes, is_empty}
use auto_tunnel.GoMap.{Map, insert}
use auto_tunnel.Discovery.Types.{PortMap}
use auto_tunnel.Engine.{
  Found, Engine, Answers, DockerPass, HostPass, docker_pass, poll_docker, host_pass, poll_host,
  reconcile_selected, reconcile_maps, reapply_maps, reapply, publish, poll, save_selection,
  known_key, set_enabled, choose_all, set_enabled_all, request_rescan, toggle_pause_key,
}
use auto_tunnel.Engine.Valid.{Op, polls, enables, enables_all, pauses, rescans, perform}

-- The rows of an answer, or of the one before it.
abbrev pub answered : Result Bytes Found → List PortMap → List PortMap
answered (ok found) last = found.maps
answered (err message) last = last

-- The last good answer of Docker, and of the host, after a poll: Docker is asked if there is a
-- connection, and the host if the context has not ended then.
abbrev pub docker_seen : Bool → Answers → List PortMap → List PortMap
docker_seen on a last = if a.connected && on then answered a.docker last else last

abbrev pub host_seen : Bool → Answers → List PortMap → List PortMap
host_seen on a last = if a.connected && (not a.ended_poll && on) then answered a.host last else last

-- The fields that discovery reads.
pub record Sources : Type 0 where
  pub docker_on : Bool
  pub host_on : Bool
  pub static : List PortMap
  pub last_docker : List PortMap
  pub last_host : List PortMap

abbrev pub sources : Engine → Sources
sources e = record {
  docker_on = e.docker_on;
  host_on = e.host_on;
  static = e.static;
  last_docker = e.last_docker;
  last_host = e.last_host;
}

abbrev pub seen : Answers → Sources → Sources
seen a s = record s {
  last_docker = docker_seen s.docker_on a s.last_docker;
  last_host = host_seen s.host_on a s.last_host;
}

docker_pass-sources :
    (e : Engine) (ended : Bool) (r : Result Bytes Found)
    → sources (docker_pass e ended r).engine
      ≡ record (sources e) { last_docker = answered r e.last_docker }
unfolding docker_pass
docker_pass-sources e ended (ok found) = refl
docker_pass-sources e true (err message) = refl
docker_pass-sources e false (err message) = refl

host_pass-sources :
    (e : Engine) (ended : Bool) (r : Result Bytes Found)
    → sources (host_pass e ended r).engine
      ≡ record (sources e) { last_host = answered r e.last_host }
unfolding host_pass
host_pass-sources e ended (ok found) = refl
host_pass-sources e true (err message) = refl
host_pass-sources e false (err message) = refl

poll_docker-sources :
    (e : Engine) (a : Answers)
    → sources (poll_docker e a).engine ≡ record (sources e) {
      last_docker = if e.docker_on then answered a.docker e.last_docker else e.last_docker;
    }
unfolding poll_docker
poll_docker-sources e a = by_test e.docker_on
  where
    by_test :
        (on : Bool)
        → sources
            (if on then docker_pass e a.ended_docker a.docker else record {
              engine = e;
              found = record { maps = []; warnings = []; containers = 0 };
              good = true;
            }).engine
          ≡ record (sources e) {
            last_docker = if on then answered a.docker e.last_docker else e.last_docker;
          }
    by_test true = docker_pass-sources e a.ended_docker a.docker
    by_test false = refl

poll_host-sources :
    (e : Engine) (a : Answers)
    → sources (poll_host e a).engine ≡ record (sources e) {
      last_host = if e.host_on then answered a.host e.last_host else e.last_host;
    }
unfolding poll_host
poll_host-sources e a = by_test e.host_on
  where
    by_test :
        (on : Bool)
        → sources
            (if on
              then host_pass e a.ended_host a.host
              else record { engine = e; maps = []; warnings = [] }).engine
          ≡ record (sources e) {
            last_host = if on then answered a.host e.last_host else e.last_host;
          }
    by_test true = host_pass-sources e a.ended_host a.host
    by_test false = refl

-- What the sources have answered, after an operation.
abbrev pub after_op : Op → Sources → Sources
after_op (polls a) s = seen a s
after_op (enables k on) s = s
after_op (enables_all ks on) s = s
after_op (pauses k) s = s
after_op rescans s = s

module _ (visit_order : Map PortMap → Map PortMap) where
  publish-sources :
      (d : DockerPass) (h : HostPass) → sources (publish visit_order d h) ≡ sources h.engine
  unfolding publish reconcile_maps reconcile_selected
  publish-sources d h = refl

  poll-sources : (a : Answers) (e : Engine) → sources (poll visit_order a e) ≡ seen a (sources e)
  unfolding poll
  poll-sources a e =
      let d = poll_docker e a in
      by_tests a.connected a.ended_poll d.engine (publish visit_order d (poll_host d.engine a))
        (poll_docker-sources e a)
        (publish-sources d (poll_host d.engine a)
          ∙ poll_host-sources d.engine a
          ∙ ap
              (λ (s : Sources). record s {
                last_host = if s.host_on then answered a.host s.last_host else s.last_host;
              })
              (poll_docker-sources e a))
    where
      by_tests :
          (connected ended : Bool) (f g : Engine)
          → sources f ≡ record (sources e) {
            last_docker = if e.docker_on then answered a.docker e.last_docker else e.last_docker;
          }
          → sources g ≡ record (sources e) {
            last_docker = if e.docker_on then answered a.docker e.last_docker else e.last_docker;
            last_host = if e.host_on then answered a.host e.last_host else e.last_host;
          }
          → sources
              (if not connected then record e { discovery_err = [] } else if ended then f else g)
            ≡ record (sources e) {
              last_docker =
                  if connected && e.docker_on
                  then answered a.docker e.last_docker
                  else e.last_docker;
              last_host =
                  if connected && (not ended && e.host_on)
                  then answered a.host e.last_host
                  else e.last_host;
            }
      by_tests false ended f g p q = refl
      by_tests true true f g p q = p
      by_tests true false f g p q = q

  reapply_maps-sources :
      (maps : List PortMap) (e : Engine) → sources (reapply_maps visit_order maps e) ≡ sources e
  unfolding reapply_maps reconcile_selected
  reapply_maps-sources [] e = refl
  reapply_maps-sources (pm ∷ maps) e = refl

  save_selection-sources : (e : Engine) → sources (save_selection visit_order e) ≡ sources e
  unfolding save_selection
  save_selection-sources e = by_path (is_empty e.selection_path)
    where
      by_path :
          (b : Bool) → sources (if b then e else record e { saved = some e.selected }) ≡ sources e
      by_path true = refl
      by_path false = refl

  chosen-sources :
      (choices : Map Bool) (e : Engine)
      → sources (reapply visit_order (save_selection visit_order (record e { selected = choices })))
        ≡ sources e
  unfolding reapply
  chosen-sources choices e =
      reapply_maps-sources _ _ ∙ save_selection-sources (record e { selected = choices })

  kept_if :
      {A : Type 0} (f : A → Engine) (b : Bool) {x y : A} (e : Engine)
      → sources (f x) ≡ sources e
      → sources (f y) ≡ sources e
      → sources (f (if b then x else y)) ≡ sources e
  kept_if f true e p q = p
  kept_if f false e p q = q

  pub perform-sources :
      (op : Op) (e : Engine) → sources (perform visit_order op e) ≡ after_op op (sources e)
  unfolding perform set_enabled set_enabled_all toggle_pause_key request_rescan
  perform-sources (polls a) e = poll-sources a e
  perform-sources (enables k on) e =
      kept_if (λ (r : Engine × Bool). r.0) (known_key k e.last_maps) e
        (chosen-sources (insert k on e.selected) e) refl
  perform-sources (enables_all ks on) e =
      let made = choose_all visit_order e.last_maps on ks e.selected 0 in
      kept_if (λ (r : Engine × ℕ). r.0) (made.1 == 0) e refl (chosen-sources made.0 e)
  perform-sources (pauses k) e = refl
  perform-sources rescans e = refl
