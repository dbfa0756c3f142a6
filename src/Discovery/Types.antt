-- ===== src/Discovery/Types.antt =====
-- internal/discovery/types.go: a forwarding candidate and its key.
pub mod Key
use auto_tunnel.Prelude.{◌+◌, ◌/◌, Bool, not, none, some, [], ◌∷◌, ◌++◌, if◌then◌else◌}
use auto_tunnel.Prelude.Int.{ℤ, pos, eqb_ℤ}
use auto_tunnel.Text.{Bytes, codes, eqb, is_empty, cut_first}
use auto_tunnel.Text.Decimal.{itoa}

-- `unset` is the zero value "".
pub data Source : Type 0 where
  unset docker host static : Source

unfoldable pub source_name : Source → Bytes
source_name unset = []
source_name docker = codes "docker"
source_name host = codes "host"
source_name static = codes "static"

abbrev pub proto_tcp : Bytes
proto_tcp = codes "tcp"

pub record PortSpec : Type 0 where
  pub host_ip : Bytes
  pub host_port : ℤ
  pub container_port : ℤ
  pub proto : Bytes

unfoldable pub PortSpec_published : PortSpec → Bool
PortSpec_published p = not (eqb_ℤ p.host_port (pos 0))

pub record PortMap : Type 0 where
  pub source : Source
  pub owner : Bytes
  pub container_id : Bytes
  pub name : Bytes
  pub image : Bytes
  pub container_port : ℤ
  pub host_ip : Bytes
  pub host_port : ℤ
  pub local_pref : ℤ
  pub proto : Bytes
  pub target_host : Bytes
  pub offered : Bool

unfoldable pub src : PortMap → Source
src p = elim p.source [ unset ↦ docker | s ↦ s ]

unfoldable pub owner_id : PortMap → Bytes
unfolding is_empty
owner_id p = if is_empty p.owner then p.container_id else p.owner

unfoldable pub published : PortMap → Bool
published p = not (eqb_ℤ p.host_port (pos 0))

unfoldable pub remote_port : PortMap → ℤ
unfolding published
remote_port p = if published p then p.host_port else p.container_port

-- net.JoinHostPort: brackets round a host with a colon.
unfoldable pub join_host_port : Bytes → Bytes → Bytes
unfolding cut_first
join_host_port h port = elim (cut_first b':' h) [
  | none ↦ h ++ b':' ∷ port
  | some _ ↦ b'[' ∷ (h ++ b']' ∷ b':' ∷ port)
]

unfoldable pub target : PortMap → Bytes
unfolding join_host_port remote_port itoa
target p = join_host_port p.target_host (itoa (remote_port p))

unfoldable pub preferred_local : PortMap → ℤ
unfolding remote_port
preferred_local p = if eqb_ℤ p.local_pref (pos 0) then remote_port p else p.local_pref

unfoldable pub forwardable : PortMap → Bool
unfolding eqb
forwardable p = eqb p.proto proto_tcp

unfoldable pub key : PortMap → Bytes
unfolding src owner_id itoa source_name
key p =
    source_name (src p) ++ b':' ∷ (owner_id p ++ b':' ∷ (itoa p.container_port ++ b'/' ∷ p.proto))
