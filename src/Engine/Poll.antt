-- ===== src/Engine/Poll.antt =====
-- What one poll leaves as the set of candidates.
use auto_tunnel.Prelude.{
  ◌≡◌, refl, ap, ◌∙◌, inl, inr, Bool, true, false, not, Option, none, some, List, [], ◌∷◌, ◌++◌,
  if◌then◌else◌, Bool-cases, Result, ok, err,
}
use auto_tunnel.Text.{Bytes, eqb}
use auto_tunnel.GoMap.{Map}
use auto_tunnel.Discovery.Types.{PortMap, key}
use auto_tunnel.Engine.{
  Found, Engine, Answers, DockerPass, HostPass, docker_pass, poll_docker, host_pass, poll_host,
  merged, drop_docker_published, dedupe_keys, reconcile_selected, reconcile_maps, publish, poll,
}
use auto_tunnel.Engine.Merge.{find_map, dedupe_keys-first}

-- The rows that the Docker pass contributes, by whether there is one, whether the context ended in it,
-- and its answer: a pass that failed contributes the last good answer.
abbrev pub docker_rows : Bool → Bool → Result Bytes Found → List PortMap → List PortMap
docker_rows false ended r last = []
docker_rows true ended (ok found) last = found.maps
docker_rows true true (err message) last = []
docker_rows true false (err message) last = last

abbrev pub host_rows : Bool → Result Bytes Found → List PortMap → List PortMap
host_rows false r last = []
host_rows true (ok found) last = found.maps
host_rows true (err message) last = last

-- The first of two that is there.
abbrev pub first_of : Option PortMap → Option PortMap → Option PortMap
first_of none other = other
first_of (some pm) other = some pm

find_map-append :
    (k : Bytes) (xs ys : List PortMap)
    → find_map k (xs ++ ys) ≡ first_of (find_map k xs) (find_map k ys)
find_map-append k [] ys = refl
find_map-append k (x ∷ xs) ys = elim (Bool-cases (eqb (key x) k)) [
  | inl e ↦ rw e refl
  | inr e ↦ rw e (find_map-append k xs ys)
]

-- The first candidate of a key among the three sources.
abbrev pub of_sources : Bytes → List PortMap → List PortMap → List PortMap → Option PortMap
of_sources k docker host static =
    first_of (find_map k docker)
      (first_of (find_map k (drop_docker_published docker host)) (find_map k static))

merged-find :
    (k : Bytes) (docker host static : List PortMap)
    → find_map k (merged docker host static) ≡ of_sources k docker host static
unfolding merged
merged-find k docker host static =
    find_map-append k docker (drop_docker_published docker host ++ static)
    ∙ ap (first_of (find_map k docker))
        (find_map-append k (drop_docker_published docker host) static)

-- What a Docker pass leaves alone.
abbrev Same : Engine → Engine → Type 0
Same e d = (d.static ≡ e.static) × (d.host_on ≡ e.host_on) × (d.last_host ≡ e.last_host)

docker_pass-rows :
    (e : Engine) (on ended : Bool) (r : Result Bytes Found)
    → let d = if on then docker_pass e ended r else record {
      engine = e;
      found = record { maps = []; warnings = []; containers = 0 };
      good = true;
    } in
      (d.found.maps ≡ docker_rows on ended r e.last_docker) × Same e d.engine
unfolding docker_pass
docker_pass-rows e false ended r = (refl, (refl, refl, refl))
docker_pass-rows e true ended (ok found) = (refl, (refl, refl, refl))
docker_pass-rows e true true (err message) = (refl, (refl, refl, refl))
docker_pass-rows e true false (err message) = (refl, (refl, refl, refl))

poll_docker-rows :
    (e : Engine) (a : Answers)
    → ((poll_docker e a).found.maps ≡ docker_rows e.docker_on a.ended_docker a.docker e.last_docker)
      × Same e (poll_docker e a).engine
unfolding poll_docker
poll_docker-rows e a = docker_pass-rows e e.docker_on a.ended_docker a.docker

host_pass-rows :
    (e : Engine) (on ended : Bool) (r : Result Bytes Found)
    → let h = if on then host_pass e ended r else record { engine = e; maps = []; warnings = [] } in
      (h.maps ≡ host_rows on r e.last_host) × (h.engine.static ≡ e.static)
unfolding host_pass
host_pass-rows e false ended r = (refl, refl)
host_pass-rows e true ended (ok found) = (refl, refl)
host_pass-rows e true true (err message) = (refl, refl)
host_pass-rows e true false (err message) = (refl, refl)

poll_host-rows :
    (e : Engine) (a : Answers)
    → ((poll_host e a).maps ≡ host_rows e.host_on a.host e.last_host)
      × ((poll_host e a).engine.static ≡ e.static)
unfolding poll_host
poll_host-rows e a = host_pass-rows e e.host_on a.ended_host a.host

if_false : {A : Type 0} {b : Bool} (x : A) {y : A} → b ≡ false → (if b then x else y) ≡ y
if_false x {y = y} e = ap (λ c. if c then x else y) e

module _ (visit_order : Map PortMap → Map PortMap) where
  publish-last_maps :
      (d : DockerPass) (h : HostPass)
      → (publish visit_order d h).last_maps
        ≡ (dedupe_keys
            (merged d.found.maps h.maps h.engine.static)
            (d.found.warnings ++ h.warnings)).0
  unfolding publish reconcile_maps reconcile_selected
  publish-last_maps d h = refl

  poll-publish :
      (a : Answers) (e : Engine)
      → a.connected ≡ true
      → a.ended_poll ≡ false
      → poll visit_order a e
        ≡ publish visit_order (poll_docker e a) (poll_host (poll_docker e a).engine a)
  unfolding poll
  poll-publish a e c n =
      let disconnected : not a.connected ≡ false = ap not c in
      if_false _ disconnected ∙ if_false _ n

  -- After a poll that has a connection and whose context has not ended, the candidate of a key is the
  -- first one of: Docker's rows, the host's rows whose port Docker does not publish, and the declared
  -- forwards. A source whose pass failed counts with its last good answer, so a declared forward is
  -- there whatever has failed.
  pub poll-find :
      (a : Answers) (e : Engine) (k : Bytes)
      → a.connected ≡ true
      → a.ended_poll ≡ false
      → let docker = docker_rows e.docker_on a.ended_docker a.docker e.last_docker in
        let host = host_rows e.host_on a.host e.last_host in
        find_map k (poll visit_order a e).last_maps ≡ of_sources k docker host e.static
  poll-find a e k c n =
      let d = poll_docker e a in
      let h = poll_host d.engine a in
      let (dm, (ds, don, dl)) = poll_docker-rows e a in
      let (hm, hs) = poll_host-rows d.engine a in
      let host_same : h.maps ≡ host_rows e.host_on a.host e.last_host =
        hm
        ∙ ap (λ on. host_rows on a.host d.engine.last_host) don
        ∙ ap (host_rows e.host_on a.host) dl in
      ap (λ (r : Engine). find_map k r.last_maps) (poll-publish a e c n)
      ∙ ap (find_map k) (publish-last_maps d h)
      ∙ (dedupe_keys-first (merged d.found.maps h.maps h.engine.static)
            (d.found.warnings ++ h.warnings)).1
          k
      ∙ merged-find k d.found.maps h.maps h.engine.static
      ∙ ap (λ x. of_sources k x h.maps h.engine.static) dm
      ∙ ap
          (λ x.
            of_sources k (docker_rows e.docker_on a.ended_docker a.docker e.last_docker) x
              h.engine.static)
          host_same
      ∙ ap
          (of_sources k (docker_rows e.docker_on a.ended_docker a.docker e.last_docker)
            (host_rows e.host_on a.host e.last_host))
          (hs ∙ ds)
