-- ===== src/Tunnel/Allocator/Listen.antt =====
-- Which port `Listen` binds.
use auto_tunnel.Prelude.{
  ◌≡◌, refl, sym, ap, ◌∙◌, inl, inr, Bool, true, false, ◌&&◌, Option, none, some, List, [], ◌∷◌,
  arith, if◌then◌else◌, Bool-cases, Option-cases, All,
}
use auto_tunnel.Prelude.Int.{ℤ, eqb_ℤ, eqb_ℤ→eq}
use auto_tunnel.Text.{Bytes}
use auto_tunnel.Text.Equality.{eqb_refl}
use auto_tunnel.GoMap.{lookup, insert, lookup-insert}
use auto_tunnel.Tunnel.Allocator.{
  Allocator, Net, member, free, valid_port, attempts, or_zero, sticky, candidates, remember,
  Listened, listen,
}

-- A port that can be handed out.
abbrev pub usable : Net → ℤ → Bool
usable net port = valid_port port && free net port

-- The specification: the first of some ports that can be handed out.
abbrev pub first_usable : Net → List ℤ → Option ℤ
first_usable net [] = none
first_usable net (port ∷ ports) = if usable net port then some port else first_usable net ports

unusable_of_member :
    (net : Net) (port : ℤ) (tried : List ℤ)
    → All (λ t. usable net t ≡ false) tried
    → member port tried ≡ true
    → usable net port ≡ false
unfolding member
unusable_of_member net port [] h m = cc
unusable_of_member net port (t ∷ tried) h m = elim (Bool-cases (eqb_ℤ port t)) [
  | inl e ↦ rw (eqb_ℤ→eq port t e) h.0
  | inr e ↦ unusable_of_member net port tried h.1 (rw e at m)
]

-- Leaving out the ports that were tried before changes nothing.
attempts-first_usable :
    (net : Net) (tried ports : List ℤ)
    → All (λ t. usable net t ≡ false) tried
    → attempts net tried ports ≡ first_usable net ports
unfolding attempts
attempts-first_usable net tried [] h = refl
attempts-first_usable net tried (port ∷ ports) h = elim (Bool-cases (valid_port port)) [
  | inl v ↦ elim (Bool-cases (member port tried)) [
    | inl m ↦
        ground
          (arith, unusable_of_member net port tried h m, attempts-first_usable net tried ports h)
    | inr m ↦ elim (Bool-cases (free net port)) [
      | inl f ↦ rw (v, m, f) refl
      | inr f ↦ rw (v, m, f) (attempts-first_usable net (port ∷ tried) ports (rw (v, f) refl, h))
    ]
  ]
  | inr v ↦ rw v (attempts-first_usable net tried ports h)
]

-- The result of `Listen` with a port.
abbrev pub opened : Allocator → Net → Bytes → Option ℤ → Option Listened
opened a net key none = none
opened a net key (some port) = some (record {
  alloc = remember a key port;
  net = record net { open_ports = port ∷ net.open_ports };
  port = port;
})

-- `Listen` binds the first port that is valid and free, in the order: the port that the key had last,
-- the preferred one, the fallback range. It fails only if there is none. What it binds it remembers.
pub listen-first_usable :
    (a : Allocator) (net : Net) (key : Bytes) (preferred : ℤ)
    → listen a net key preferred ≡ opened a net key (first_usable net (candidates a key preferred))
unfolding listen
listen-first_usable a net key preferred =
    ground (arith, attempts-first_usable net [] (candidates a key preferred) tt)

first_usable-usable :
    (net : Net) (ports : List ℤ) (p : ℤ) → first_usable net ports ≡ some p → usable net p ≡ true
first_usable-usable net [] p h = cc
first_usable-usable net (q ∷ ports) p h = elim (Bool-cases (usable net q)) [
  | inl u ↦ let same : q ≡ p = ground arith in rw (← same) u
  | inr u ↦ first_usable-usable net ports p (ground arith)
]

-- A port that `Listen` returns is valid and was free: neither this program had it open nor did
-- another hold it. It is the one port that is opened.
pub listen-usable :
    (a : Allocator) (net : Net) (key : Bytes) (preferred : ℤ) (l : Listened)
    → listen a net key preferred ≡ some l
    → (usable net l.port ≡ true)
      × (l.net.open_ports ≡ l.port ∷ net.open_ports)
      × (l.net.busy ≡ net.busy)
listen-usable a net key preferred l h =
    elim (Option-cases (first_usable net (candidates a key preferred))) [
      | inl e ↦ absurd (cc (listen-first_usable a net key preferred, e))
      | inr (p, e) ↦
          let made : opened a net key (some p) ≡ some l =
            ap (opened a net key) (sym e) ∙ sym (listen-first_usable a net key preferred) ∙ h in
          let u = first_usable-usable net (candidates a key preferred) p e in ground arith
    ]

sticky-remember : (a : Allocator) (key : Bytes) (p : ℤ) → sticky (remember a key p) key ≡ p
unfolding sticky remember
sticky-remember a key p =
    let found : lookup key (insert key p a.assigned) ≡ some p =
      lookup-insert key key p a.assigned
      ∙ ap (λ b. if b then some p else lookup key a.assigned) (eqb_refl key) in
    ap or_zero found

first_usable-sticky :
    (a : Allocator) (net : Net) (key : Bytes) (preferred p : ℤ)
    → sticky a key ≡ p
    → usable net p ≡ true
    → first_usable net (candidates a key preferred) ≡ some p
unfolding candidates
first_usable-sticky a net key preferred p s u = rw (s, u) refl

pub listen-alloc :
    (a : Allocator) (net : Net) (key : Bytes) (preferred : ℤ) (l : Listened)
    → listen a net key preferred ≡ some l
    → l.alloc ≡ remember a key l.port
listen-alloc a net key preferred l h = ground (arith, listen-first_usable a net key preferred)

-- A key that listens again gets the port that it had, whatever it prefers now, if nobody took the
-- port in the meantime.
listen-sticky :
    (a : Allocator) (net later : Net) (key : Bytes) (preferred again : ℤ) (l : Listened)
    → listen a net key preferred ≡ some l
    → free later l.port ≡ true
    → listen l.alloc later key again
      ≡ some (record {
        alloc = remember l.alloc key l.port;
        net = record later { open_ports = l.port ∷ later.open_ports };
        port = l.port;
      })
listen-sticky a net later key preferred again l h f =
    let u = (listen-usable a net key preferred l h).0 in
    let valid : valid_port l.port ≡ true = ground arith in
    let same : sticky l.alloc key ≡ l.port =
      rw (listen-alloc a net key preferred l h) (sticky-remember a key l.port) in
    listen-first_usable l.alloc later key again
    ∙ ap (opened l.alloc later key)
        (first_usable-sticky l.alloc later key again l.port same (rw (valid, f) refl))
