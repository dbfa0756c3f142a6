-- ===== src/Engine/History.antt =====
-- What a poll publishes, by what the sources have answered since the engine was made.
pub mod Seen
pub mod Published
use auto_tunnel.Prelude.{◌≡◌, refl, ap, ◌∙◌, Bool, true, false, Option, List, [], ◌∷◌}
use auto_tunnel.Text.{Bytes}
use auto_tunnel.GoMap.{Map}
use auto_tunnel.Discovery.Types.{PortMap}
use auto_tunnel.Engine.{Engine, Answers, poll}
use auto_tunnel.Engine.Merge.{find_map}
use auto_tunnel.Engine.Valid.{Op, polls, enables, enables_all, pauses, rescans, perform}
use auto_tunnel.Engine.Poll.{docker_rows, host_rows, first_of, poll-find}
use auto_tunnel.Engine.History.Seen.{
  docker_seen, host_seen, Sources, sources, after_op, perform-sources,
}
use auto_tunnel.Engine.History.Published.{find_unpublished, find_unpublished_lem}

-- The last good answers after any operations, oldest first; only polls ask.
abbrev pub good_docker : Bool → List Op → List PortMap → List PortMap
good_docker on [] last = last
good_docker on (polls a ∷ ops) last = good_docker on ops (docker_seen on a last)
good_docker on (enables k b ∷ ops) last = good_docker on ops last
good_docker on (enables_all ks b ∷ ops) last = good_docker on ops last
good_docker on (pauses k ∷ ops) last = good_docker on ops last
good_docker on (rescans ∷ ops) last = good_docker on ops last

abbrev pub good_host : Bool → List Op → List PortMap → List PortMap
good_host on [] last = last
good_host on (polls a ∷ ops) last = good_host on ops (host_seen on a last)
good_host on (enables k b ∷ ops) last = good_host on ops last
good_host on (enables_all ks b ∷ ops) last = good_host on ops last
good_host on (pauses k ∷ ops) last = good_host on ops last
good_host on (rescans ∷ ops) last = good_host on ops last

abbrev good : List Op → Sources → Sources
good ops s = record s {
  last_docker = good_docker s.docker_on ops s.last_docker;
  last_host = good_host s.host_on ops s.last_host;
}

good_step : (op : Op) (ops : List Op) (s : Sources) → good ops (after_op op s) ≡ good (op ∷ ops) s
good_step (polls a) ops s = refl
good_step (enables k on) ops s = refl
good_step (enables_all ks on) ops s = refl
good_step (pauses k) ops s = refl
good_step rescans ops s = refl

-- The first row of a key: Docker's, the host's whose port no container of Docker's rows publishes, or
-- a declared one.
abbrev pub first_row : Bytes → List PortMap → List PortMap → List PortMap → Option PortMap
first_row k docker host static =
    first_of (find_map k docker) (first_of (find_unpublished k docker host) (find_map k static))

-- What the sources contribute to a poll of an engine.
abbrev row_of : Answers → Bytes → Sources → Option PortMap
row_of a k s =
    let docker = docker_rows s.docker_on a.ended_docker a.docker s.last_docker in
    first_row k docker (host_rows s.host_on a.host s.last_host) s.static

module _ (visit_order : Map PortMap → Map PortMap) where
  -- The engine after some operations, oldest first.
  abbrev pub performs : List Op → Engine → Engine
  performs [] e = e
  performs (op ∷ ops) e = performs ops (perform visit_order op e)

  performs-sources : (ops : List Op) (e : Engine) → sources (performs ops e) ≡ good ops (sources e)
  performs-sources [] e = refl
  performs-sources (op ∷ ops) e =
      performs-sources ops (perform visit_order op e)
      ∙ ap (good ops) (perform-sources visit_order op e)
      ∙ good_step op ops (sources e)

  poll-row_of :
      (a : Answers) (e : Engine) (k : Bytes)
      → a.connected ≡ true
      → a.ended_poll ≡ false
      → find_map k (poll visit_order a e).last_maps ≡ row_of a k (sources e)
  poll-row_of a e k c n =
      let docker = docker_rows e.docker_on a.ended_docker a.docker e.last_docker in
      let host = host_rows e.host_on a.host e.last_host in
      poll-find visit_order a e k c n
      ∙ ap (λ o. first_of (find_map k docker) (first_of o (find_map k e.static)))
          (find_unpublished_lem k docker host)

  -- After any polls, choices, pauses and rescans, a poll that has a connection and whose context has not
  -- ended leaves as the candidate of a key the first one of: Docker's rows, the host's rows whose port
  -- none of Docker's rows publishes, and the declared forwards. The rows of a source whose pass fails
  -- are those of the last of the earlier polls in which it was asked and answered without an error, or
  -- what the engine began with if there is none; none for Docker if the context ended in its pass. So a
  -- declared forward is there whatever has failed.
  pub poll-found :
      (ops : List Op) (a : Answers) (e : Engine) (k : Bytes)
      → a.connected ≡ true
      → a.ended_poll ≡ false
      → let docker =
          docker_rows e.docker_on a.ended_docker a.docker
            (good_docker e.docker_on ops e.last_docker) in
        let host = host_rows e.host_on a.host (good_host e.host_on ops e.last_host) in
        find_map k (poll visit_order a (performs ops e)).last_maps
        ≡ first_row k docker host e.static
  poll-found ops a e k c n =
      poll-row_of a (performs ops e) k c n ∙ ap (row_of a k) (performs-sources ops e)
