-- ===== src/Tunnel/Allocator.antt =====
-- internal/tunnel/portalloc.go: local listeners. `net.Listen` succeeds on a port that nobody holds:
-- `busy` stands for the ports that the machine's other programs hold, `open_ports` for those that
-- this program listens on, and a successful call adds the port to them.
pub mod Listen
pub mod Order
use auto_tunnel.Prelude.{
  ℕ, zero, suc, ◌+◌, ◌-◌, Bool, false, not, ◌||◌, Option, none, some, List, ◌++◌, [], ◌∷◌, ◌++◌,
  if◌then◌else◌,
}
use auto_tunnel.Prelude.Int.{ℤ, pos, ◌+ℤ◌, ◌-ℤ◌, leb_ℤ, ltb_ℤ, eqb_ℤ}
use auto_tunnel.Text.{Bytes, codes, is_empty}
use auto_tunnel.Text.Decimal.{itoa}
use auto_tunnel.GoMap.{Map, lookup, insert, delete}

abbrev pub default_fallback_base : ℤ
default_fallback_base = pos 20000

abbrev pub default_fallback_size : ℤ
default_fallback_size = pos 1000

pub record Allocator : Type 0 where
  pub bind : Bytes
  pub fallback_base : ℤ
  pub fallback_size : ℤ
  pub assigned : Map ℤ

unfoldable pub new_allocator : Bytes → ℤ → ℤ → Allocator
unfolding is_empty
new_allocator bind fallback_base fallback_size = record {
  bind = if is_empty bind then codes "127.0.0.1" else bind;
  fallback_base = if leb_ℤ fallback_base (pos 0) then default_fallback_base else fallback_base;
  fallback_size = if leb_ℤ fallback_size (pos 0) then default_fallback_size else fallback_size;
  assigned = [];
}

-- What the operating system knows of ports.
pub record Net : Type 0 where
  pub busy : ℤ → Bool
  pub open_ports : List ℤ

unfoldable pub member : ℤ → List ℤ → Bool
member p [] = false
member p (q ∷ qs) = eqb_ℤ p q || member p qs

-- net.Listen: whether the port could be bound.
unfoldable pub free : Net → ℤ → Bool
unfolding member
free net port = not (net.busy port || member port net.open_ports)

-- listener.Close
unfoldable pub close_port : ℤ → List ℤ → List ℤ
close_port p [] = []
close_port p (q ∷ qs) = let rest = close_port p qs in if eqb_ℤ q p then rest else q ∷ rest

unfoldable pub valid_port : ℤ → Bool
valid_port port = not (leb_ℤ port (pos 0) || ltb_ℤ (pos 65535) port)

-- The calls of `attempt` in a row: the first port that is valid, was not tried, and can be bound. An
-- invalid port is not noted in `tried`.
unfoldable pub attempts : Net → List ℤ → List ℤ → Option ℤ
unfolding valid_port member free
attempts net tried [] = none
attempts net tried (port ∷ ports) =
    let skipped = attempts net tried ports in
    let refused = attempts net (port ∷ tried) ports in
    if not (valid_port port) || member port tried
    then skipped
    else if free net port
    then some port
    else refused

-- `port := base; port < base+size; port++`
unfoldable pub fallback_ports : ℤ → ℕ → List ℤ
unfolding ◌+ℤ◌
fallback_ports base zero = []
fallback_ports base (suc n) = base ∷ fallback_ports (base +ℤ pos 1) n

unfoldable pub size_of : ℤ → ℕ
size_of (pos n) = n
size_of _ = 0

-- A key that is missing reads as 0.
abbrev pub or_zero : Option ℤ → ℤ
or_zero none = pos 0
or_zero (some port) = port

unfoldable pub sticky : Allocator → Bytes → ℤ
sticky a key = or_zero (lookup key a.assigned)

unfoldable pub candidates : Allocator → Bytes → ℤ → List ℤ
unfolding sticky fallback_ports size_of
candidates a key preferred =
    sticky a key ∷ preferred ∷ fallback_ports a.fallback_base (size_of a.fallback_size)

unfoldable pub remember : Allocator → Bytes → ℤ → Allocator
remember a key port = record a { assigned = insert key port a.assigned }

unfoldable pub forget : Allocator → Bytes → Allocator
forget a key = record a { assigned = delete key a.assigned }

pub record Listened : Type 0 where
  pub alloc : Allocator
  pub net : Net
  pub port : ℤ

-- The error of a call that found no port.
unfoldable pub no_free_port : Allocator → Bytes → ℤ → Bytes
unfolding itoa ◌+ℤ◌ ◌-ℤ◌
no_free_port a key preferred =
    codes "no free local port for "
    ++ (key
        ++ (codes ": tried "
            ++ (itoa preferred
                ++ (codes ", then "
                    ++ (itoa a.fallback_base
                        ++ b'-' ∷ itoa (a.fallback_base +ℤ a.fallback_size -ℤ pos 1))))))

-- Listen: the allocator and the operating system afterwards with the port, or none.
unfoldable pub listen : Allocator → Net → Bytes → ℤ → Option Listened
unfolding attempts candidates remember
listen a net key preferred = elim (attempts net [] (candidates a key preferred)) [
  | none ↦ none
  | some port ↦ some (record {
    alloc = remember a key port;
    net = record net { open_ports = port ∷ net.open_ports };
    port = port;
  })
]
