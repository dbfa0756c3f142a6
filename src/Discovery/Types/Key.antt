-- ===== src/Discovery/Types/Key.antt =====
-- The tunnel key tells candidates apart.
use auto_tunnel.Prelude.{
  Bool, false, none, append_assoc, ◌≡◌, refl, sym, ap, ◌∙◌, inl, inr, Option, some, ◌∷◌, ◌++◌,
  arith, if◌then◌else◌, All-append,
}
use auto_tunnel.Prelude.Int.{ℤ}
use auto_tunnel.Text.{Bytes, codes, cut_first, cut_last, eqb}
use auto_tunnel.Text.Digits.{Lacks, cut_first-append, cut_last-append, Lacks-itoa}
use auto_tunnel.Text.Decimal.{itoa, atoi}
use auto_tunnel.Text.Decimal.RoundTrip.{IsInt, atoi-itoa}
use auto_tunnel.Discovery.Types.{
  Source, unset, docker, host, static, source_name, PortMap, src, owner_id, key, forwardable,
  proto_tcp,
}

Lacks-source_name : (s : Source) → Lacks b':' (source_name s)
unfolding source_name
Lacks-source_name unset = tt
Lacks-source_name docker = omega arith
Lacks-source_name host = omega arith
Lacks-source_name static = omega arith

source_of_name : Bytes → Source
unfolding eqb
source_of_name s =
    if eqb s (codes "docker")
    then docker
    else if eqb s (codes "host")
    then host
    else if eqb s (codes "static")
    then static
    else unset

source_of_name-source_name : (s : Source) → source_of_name (source_name s) ≡ s
unfolding source_of_name source_name
source_of_name-source_name unset = refl
source_of_name-source_name docker = refl
source_of_name-source_name host = refl
source_of_name-source_name static = refl

source_name-injective : (s t : Source) → source_name s ≡ source_name t → s ≡ t
source_name-injective s t h =
    sym (source_of_name-source_name s) ∙ ap source_of_name h ∙ source_of_name-source_name t

-- Two parts that a separator joins, neither half of which the cut can lose.
cons_part :
    {a c b d : Bytes}
    → ◌≡◌ {A = Option (Bytes × Bytes)} (some (a, b)) (some (c, d))
    → (a ≡ c) × (b ≡ d)
cons_part h = (ground arith, ground arith)

itoa-injective : (y z : ℤ) → IsInt y → IsInt z → itoa y ≡ itoa z → y ≡ z
itoa-injective y z hy hz e = ground (arith, atoi-itoa y hy, atoi-itoa z hz, ap atoi e)

port_part : PortMap → Bytes
port_part p = itoa p.container_port ++ b'/' ∷ p.proto

Lacks-port_part : (p : PortMap) → Lacks b':' p.proto → Lacks b':' (port_part p)
unfolding port_part
Lacks-port_part p h =
    All-append _ (itoa p.container_port) _ (Lacks-itoa b':' _ (inl (omega arith))) (omega arith, h)

-- The fields that a key is made of can be read back from it.
key_parts :
    (p q : PortMap)
    → Lacks b':' p.proto
    → Lacks b':' q.proto
    → key p ≡ key q
    → (source_name (src p) ≡ source_name (src q))
      × (owner_id p ≡ owner_id q)
      × (itoa p.container_port ≡ itoa q.container_port)
      × (p.proto ≡ q.proto)
unfolding key
key_parts p q hp hq e = (ends.0, middle.0, last.0, last.1)
  where
    ends :
        (source_name (src p) ≡ source_name (src q))
        × (owner_id p ++ b':' ∷ port_part p ≡ owner_id q ++ b':' ∷ port_part q)
    ends =
        unfold port_part in
        cons_part (
          sym (cut_first-append b':' (source_name (src p)) _ (Lacks-source_name (src p)))
          ∙ ap (cut_first b':') e
          ∙ cut_first-append b':' (source_name (src q)) _ (Lacks-source_name (src q)))

    middle : (owner_id p ≡ owner_id q) × (port_part p ≡ port_part q)
    middle = cons_part (
        sym (cut_last-append b':' (owner_id p) _ (Lacks-port_part p hp))
        ∙ ap (cut_last b':') ends.1
        ∙ cut_last-append b':' (owner_id q) _ (Lacks-port_part q hq))

    last : (itoa p.container_port ≡ itoa q.container_port) × (p.proto ≡ q.proto)
    last =
        unfold port_part in
        cons_part (
          sym (cut_first-append b'/' _ _ (Lacks-itoa b'/' p.container_port (inr refl)))
          ∙ ap (cut_first b'/') (unfold port_part in middle.1)
          ∙ cut_first-append b'/' _ _ (Lacks-itoa b'/' q.container_port (inr refl)))

-- Two candidates with one key have the same source, owner, container port and protocol, if the
-- protocols hold no colon and the ports are 64-bit integers.
pub key-injective :
    (p q : PortMap)
    → Lacks b':' p.proto
    → Lacks b':' q.proto
    → IsInt p.container_port
    → IsInt q.container_port
    → key p ≡ key q
    → (src p ≡ src q)
      × (owner_id p ≡ owner_id q)
      × (p.container_port ≡ q.container_port)
      × (p.proto ≡ q.proto)
key-injective p q hp hq ip iq e =
    let parts = key_parts p q hp hq e in
    (
      source_name-injective (src p) (src q) parts.0,
      parts.1,
      itoa-injective _ _ ip iq parts.2,
      parts.3,
    )

-- Of two candidates with one key, whose protocols hold no colon, SSH can carry both or neither.
pub forwardable-key :
    (p q : PortMap)
    → Lacks b':' p.proto
    → Lacks b':' q.proto
    → key p ≡ key q
    → forwardable p ≡ forwardable q
unfolding forwardable
forwardable-key p q hp hq e = ap (λ s. eqb s proto_tcp) (key_parts p q hp hq e).3

-- Whether the protocol at the end of a key is one that SSH carries.
abbrev is_tcp_part : Option (Bytes × Bytes) → Bool
is_tcp_part none = false
is_tcp_part (some (port, proto)) = eqb proto proto_tcp

abbrev is_tcp_key : Option (Bytes × Bytes) → Bool
is_tcp_key none = false
is_tcp_key (some (owner, last)) = is_tcp_part (cut_first b'/' last)

pub is_carried : Bytes → Bool
is_carried k = is_tcp_key (cut_last b':' k)

pub is_carried-key : (p : PortMap) → Lacks b':' p.proto → is_carried (key p) ≡ forwardable p
unfolding is_carried key forwardable
is_carried-key p h =
    let front = source_name (src p) ++ b':' ∷ owner_id p in
    let whole = append_assoc (source_name (src p)) (b':' ∷ owner_id p) (b':' ∷ port_part p) in
    let proto : cut_last b':' (front ++ b':' ∷ port_part p) ≡ some (front, port_part p) =
      cut_last-append b':' front (port_part p) (Lacks-port_part p h) in
    let last : is_tcp_part (cut_first b'/' (port_part p)) ≡ eqb p.proto proto_tcp =
      unfold port_part in
      ap is_tcp_part
        (cut_first-append b'/' _ p.proto (Lacks-itoa b'/' p.container_port (inr refl))) in
    unfold port_part in
    ap (λ s. is_tcp_key (cut_last b':' s)) (sym whole) ∙ ap is_tcp_key proto ∙ last
