-- ===== src/Engine/History/Published.antt =====
-- The rows of the host that are not those of a container.
use auto_tunnel.Prelude.{
  ◌≡◌, refl, ap, inl, inr, Bool, false, not, ◌&&◌, ◌||◌, Option, none, some, List, [], ◌∷◌,
  if◌then◌else◌, Bool-cases,
}
use auto_tunnel.Prelude.Int.{ℤ, eqb_ℤ}
use auto_tunnel.Text.{Bytes, eqb}
use auto_tunnel.Discovery.Types.{PortMap, key, published}
use auto_tunnel.Tunnel.Allocator.{member}
use auto_tunnel.Engine.{taken, drop_ports, drop_docker_published}
use auto_tunnel.Engine.Merge.{find_map}

-- Whether some container publishes a port on the host.
abbrev pub publishes : List PortMap → ℤ → Bool
publishes [] port = false
publishes (pm ∷ docker) port = (published pm && eqb_ℤ port pm.host_port) || publishes docker port

-- The first row of a key whose port no container publishes.
abbrev pub find_unpublished : Bytes → List PortMap → List PortMap → Option PortMap
find_unpublished k docker [] = none
find_unpublished k docker (pm ∷ host) =
    if eqb (key pm) k && not (publishes docker pm.container_port)
    then some pm
    else find_unpublished k docker host

publishes_lem :
    (docker : List PortMap) (port : ℤ) → member port (taken docker) ≡ publishes docker port
unfolding taken member
publishes_lem [] port = refl
publishes_lem (pm ∷ docker) port = elim (Bool-cases (published pm)) [
  | inl e ↦ rw e (ap (λ b. eqb_ℤ port pm.host_port || b) (publishes_lem docker port))
  | inr e ↦ rw e (publishes_lem docker port)
]

pub find_unpublished_lem :
    (k : Bytes) (docker host : List PortMap)
    → find_map k (drop_docker_published docker host) ≡ find_unpublished k docker host
unfolding drop_docker_published drop_ports
find_unpublished_lem k docker [] = refl
find_unpublished_lem k docker (pm ∷ host) =
    let same = publishes_lem docker pm.container_port in
    let rest = find_unpublished_lem k docker host in
    elim (Bool-cases (publishes docker pm.container_port)) [
      | inl p ↦ elim (Bool-cases (eqb (key pm) k)) [
        | inl e ↦ rw (same, p, e) rest
        | inr e ↦ rw (same, p, e) rest
      ]
      | inr p ↦ elim (Bool-cases (eqb (key pm) k)) [
        | inl e ↦ rw (same, p) (rw e refl)
        | inr e ↦ rw (same, p) (rw e rest)
      ]
    ]
