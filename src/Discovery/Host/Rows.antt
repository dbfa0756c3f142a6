-- ===== src/Discovery/Host/Rows.antt =====
-- The candidates that a pass over the host's sockets reports.
use auto_tunnel.Prelude.{
  ◌≡◌, refl, sym, subst, ◌≢◌, inl, inr, Bool, true, false, ◌||◌, List, [], ◌∷◌, arith, Bool-cases,
  All, AllPairs, ok,
}
use auto_tunnel.Prelude.Int.{ℤ, pos, negsuc, ltb_ℤ}
use auto_tunnel.Text.{Bytes, codes, is_empty}
use auto_tunnel.Text.Digits.{Lacks}
use auto_tunnel.Text.Decimal.RoundTrip.{IsInt}
use auto_tunnel.Discovery.Types.{PortMap, host, proto_tcp, key}
use auto_tunnel.Discovery.Types.Key.{key-injective}
use auto_tunnel.Discovery.Static.{in_port_range}
use auto_tunnel.Discovery.Host.{
  Listener, AddrError, parse_listeners, HostOptions, excluded, host_row, listed_rows, discover_host,
  dial_host,
}
use auto_tunnel.Discovery.Host.Listeners.{HasPort, parse_listeners-Increasing}

-- A row of a socket that the options let through.
pub record IsHostRow (o : HostOptions) (pm : PortMap) : Type 0 where
  pub source : pm.source ≡ host
  pub proto : pm.proto ≡ proto_tcp
  pub owner : pm.owner ≡ codes "host"
  pub port : in_port_range pm.container_port ≡ true
  pub same_port : pm.host_port ≡ pm.container_port
  pub wanted : o.skip_ports pm.container_port ≡ false
  pub listed : pm.offered ≡ o.offered
  pub target : pm.target_host ≢ []

abbrev Increases : List PortMap → Type 0
Increases = AllPairs (λ p q. ltb_ℤ p.container_port q.container_port ≡ true)

dial_host-nonempty : (addr : Bytes) → dial_host addr ≢ []
unfolding dial_host is_empty
dial_host-nonempty [] e = cc
dial_host-nonempty (c ∷ s) e = ground arith

or_false_left : (a b : Bool) → (a || b) ≡ false → a ≡ false
or_false_left false b h = refl
or_false_left true b h = h

host_row-IsHostRow :
    (o : HostOptions) (l : Listener)
    → HasPort l
    → o.skip_ports l.port ≡ false
    → IsHostRow o (host_row o.offered l)
unfolding host_row
host_row-IsHostRow o l h s = record {
  source = refl;
  proto = refl;
  owner = refl;
  port = h;
  same_port = refl;
  wanted = s;
  listed = refl;
  target = dial_host-nonempty l.addr;
}

listed_rows-IsHostRow :
    (o : HostOptions) (ls : List Listener) → All HasPort ls → All (IsHostRow o) (listed_rows o ls)
unfolding listed_rows
listed_rows-IsHostRow o [] h = tt
listed_rows-IsHostRow o (l ∷ ls) h =
    elim (Bool-cases (o.skip_ports l.port || excluded o.exclude l)) [
      | inl e ↦ rw e (listed_rows-IsHostRow o ls h.1)
      | inr e ↦ rw e (
        host_row-IsHostRow o l h.0 (or_false_left (o.skip_ports l.port) (excluded o.exclude l) e),
        listed_rows-IsHostRow o ls h.1,
      )
    ]

-- What holds of the ports of all listeners holds of the rows' ports.
listed_rows-All :
    (P : ℤ → Type 0) (o : HostOptions) (ls : List Listener)
    → All (λ l. P l.port) ls
    → All (λ pm. P pm.container_port) (listed_rows o ls)
unfolding listed_rows host_row
listed_rows-All P o [] h = tt
listed_rows-All P o (l ∷ ls) h = elim (Bool-cases (o.skip_ports l.port || excluded o.exclude l)) [
  | inl e ↦ rw e (listed_rows-All P o ls h.1)
  | inr e ↦ rw e (h.0, listed_rows-All P o ls h.1)
]

listed_rows-Increases :
    (o : HostOptions) (ls : List Listener)
    → AllPairs (λ a b. ltb_ℤ a.port b.port ≡ true) ls
    → Increases (listed_rows o ls)
unfolding listed_rows host_row
listed_rows-Increases o [] h = tt
listed_rows-Increases o (l ∷ ls) h =
    elim (Bool-cases (o.skip_ports l.port || excluded o.exclude l)) [
      | inl e ↦ rw e (listed_rows-Increases o ls h.1)
      | inr e ↦
          rw e
            (listed_rows-All (λ p. ltb_ℤ l.port p ≡ true) o ls h.0, listed_rows-Increases o ls h.1)
    ]

tcp_Lacks : (s : Bytes) → s ≡ proto_tcp → Lacks b':' s
tcp_Lacks s e = subst (Lacks b':') (sym e) (omega arith, (omega arith, (omega arith, tt)))

in_port_range-IsInt : (p : ℤ) → in_port_range p ≡ true → IsInt p
unfolding in_port_range
in_port_range-IsInt (pos n) h = ground arith
in_port_range-IsInt (negsuc n) h = ground arith

ltb_ℤ-ne : (a b : ℤ) → ltb_ℤ a b ≡ true → a ≢ b
ltb_ℤ-ne a b h e = ground arith

key_apart :
    (o : HostOptions) (p q : PortMap)
    → IsHostRow o p
    → IsHostRow o q
    → ltb_ℤ p.container_port q.container_port ≡ true
    → key p ≢ key q
key_apart o p q a b h e =
    ltb_ℤ-ne _ _ h
      (key-injective p q (tcp_Lacks p.proto a.proto) (tcp_Lacks q.proto b.proto)
        (in_port_range-IsInt p.container_port a.port) (in_port_range-IsInt q.container_port b.port)
        e).2

keys_apart :
    (o : HostOptions) (p : PortMap) (qs : List PortMap)
    → IsHostRow o p
    → All (IsHostRow o) qs
    → All (λ q. ltb_ℤ p.container_port q.container_port ≡ true) qs
    → All (λ q. key p ≢ key q) qs
keys_apart o p [] a b h = tt
keys_apart o p (q ∷ qs) a b h = (key_apart o p q a b.0 h.0, keys_apart o p qs a b.1 h.1)

rows_apart :
    (o : HostOptions) (qs : List PortMap)
    → All (IsHostRow o) qs
    → Increases qs
    → AllPairs (λ p q. key p ≢ key q) qs
rows_apart o [] a h = tt
rows_apart o (p ∷ qs) a h = (keys_apart o p qs a.0 a.1 h.0, rows_apart o qs a.1 h.1)

-- Every row of a pass that succeeds is a TCP candidate of the host with a port from 1 to 65535 that is
-- not to be skipped, an address to dial, and the start that the options ask for; and no two rows have
-- one tunnel key.
pub discover_host-IsHostRow :
    (o : HostOptions) (out : Bytes) (maps : List PortMap) (warnings : List (Bytes × AddrError))
    → discover_host o (ok out) ≡ ok (maps, warnings)
    → All (IsHostRow o) maps × AllPairs (λ p q. key p ≢ key q) maps
unfolding discover_host
discover_host-IsHostRow o out maps warnings e =
    let (rising, ports) = parse_listeners-Increasing out in
    let ls = (parse_listeners out).listeners in
    let rows = listed_rows-IsHostRow o ls ports in
    let same : listed_rows o ls ≡ maps = cc in
    subst (λ ms. All (IsHostRow o) ms × AllPairs (λ p q. key p ≢ key q) ms) same
      (rows, rows_apart o (listed_rows o ls) rows (listed_rows-Increases o ls rising))
