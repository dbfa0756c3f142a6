-- ===== src/Discovery/Ports/Parse/Unique.antt =====
-- The specs of one column: a port and protocol appears once, in order, and a published mapping wins.
use auto_tunnel.Prelude.{
  ◌≡◌, refl, sym, subst, ◌≢◌, inl, inr, true, false, not, ◌&&◌, Option, none, some, List, [], ◌∷◌,
  arith, if◌then◌else◌, Bool-cases, All, AllPairs, AllPairs-both, ok, err,
}
use auto_tunnel.Prelude.Int.{ℤ, eqb_ℤ→eq}
use auto_tunnel.Prelude.Sort.{AllPairs-sort_by, IsOrder, sort_by-IsSorted}
use auto_tunnel.Text.{split, is_empty, trim_space, Bytes, eqb}
use auto_tunnel.Text.Equality.{
  eqb_iff, eq_of_eqb, ltb_bytes_irrefl, ltb_bytes_trans_not, ltb_bytes_trans, ltb_bytes_total,
}
use auto_tunnel.Discovery.Types.{PortSpec, PortSpec_published}
use auto_tunnel.Discovery.Ports.Expand.{Run, returns, never_returns, Ends, expand_range}
use auto_tunnel.Discovery.Ports.Match.{Published, Exposed}
use auto_tunnel.Discovery.Ports.Parse.{
  Parsed, warn, same_size, port_key, add, add_published, add_exposed, add_mapping, add_ports, Ports,
  parse_matched, parse_entry, parse_entries, spec_less, sort_specs, parse_ports,
}

-- The spec of a key.
abbrev find : Bytes → List PortSpec → Option PortSpec
find k [] = none
find k (s ∷ specs) = if eqb (port_key s) k then some s else find k specs

-- What `ParsePorts` means to keep of two specs of one key.
abbrev prefer : Option PortSpec → PortSpec → PortSpec
prefer none s = s
prefer (some t) s = if not (PortSpec_published t) && PortSpec_published s then s else t

-- Adding a spec changes the spec of its own key only: it becomes the new one if there was none, or
-- if the old one was not published and the new one is.
pub find-add :
    (k : Bytes) (s : PortSpec) (specs : List PortSpec)
    → find k (add s specs)
      ≡ (if eqb (port_key s) k then some (prefer (find k specs) s) else find k specs)
unfolding add
find-add k s [] = refl
find-add k s (t ∷ specs) = ground (
  arith,
  eqb_iff (port_key t) (port_key s),
  eqb_iff (port_key s) k,
  eqb_iff (port_key t) k,
  find-add k s specs,
)

abbrev DistinctKeys : List PortSpec → Type 0
DistinctKeys = AllPairs (λ s t. port_key s ≢ port_key t)

All-add :
    (P : PortSpec → Type 0) (s : PortSpec) (specs : List PortSpec)
    → P s
    → All P specs
    → All P (add s specs)
unfolding add
All-add P s [] p h = (p, tt)
All-add P s (t ∷ specs) p h = elim (Bool-cases (eqb (port_key t) (port_key s))) [
  | inl e ↦ rw e (elim (Bool-cases (not (PortSpec_published t) && PortSpec_published s)) [
    | inl c ↦ rw c (p, h.1)
    | inr c ↦ rw c h
  ])
  | inr e ↦ rw e (h.0, All-add P s specs p h.1)
]

ne_of_eqb : (s t : Bytes) → eqb s t ≡ false → s ≢ t
ne_of_eqb s t h e = ground (arith, eqb_iff s t)

Distinct-add :
    (s : PortSpec) (specs : List PortSpec) → DistinctKeys specs → DistinctKeys (add s specs)
unfolding add
Distinct-add s [] d = (tt, tt)
Distinct-add s (t ∷ specs) d = elim (Bool-cases (eqb (port_key t) (port_key s))) [
  | inl e ↦ rw e (elim (Bool-cases (not (PortSpec_published t) && PortSpec_published s)) [
    | inl c ↦ rw c (subst (λ k. All (λ u. k ≢ port_key u) specs) (eq_of_eqb _ _ e) d.0, d.1)
    | inr c ↦ rw c d
  ])
  | inr e ↦ rw e (
    All-add (λ u. port_key t ≢ port_key u) s specs (ne_of_eqb _ _ e) d.0,
    Distinct-add s specs d.1,
  )
]

Distinct-add_published :
    (ip proto : Bytes) (hs cs : List ℤ) (specs : List PortSpec)
    → DistinctKeys specs
    → DistinctKeys (add_published ip proto hs cs specs)
unfolding add_published
Distinct-add_published ip proto [] cs specs d = d
Distinct-add_published ip proto (h ∷ hs) [] specs d = d
Distinct-add_published ip proto (h ∷ hs) (c ∷ cs) specs d =
    Distinct-add_published ip proto hs cs (add _ specs) (Distinct-add _ specs d)

Distinct-add_exposed :
    (proto : Bytes) (cs : List ℤ) (specs : List PortSpec)
    → DistinctKeys specs
    → DistinctKeys (add_exposed proto cs specs)
unfolding add_exposed
Distinct-add_exposed proto [] specs d = d
Distinct-add_exposed proto (c ∷ cs) specs d =
    Distinct-add_exposed proto cs (add _ specs) (Distinct-add _ specs d)

abbrev IsDistinct : Parsed → Type 0
IsDistinct p = DistinctKeys p.specs

add_mapping-Distinct :
    (entry : Bytes) (m : Published) (p : Parsed) (hs cs : Ports)
    → IsDistinct p
    → Ends IsDistinct (add_mapping entry m p hs cs)
unfolding add_mapping warn
add_mapping-Distinct entry m p never_returns cs d = tt
add_mapping-Distinct entry m p (returns (err e)) cs d = d
add_mapping-Distinct entry m p (returns (ok hs)) never_returns d = tt
add_mapping-Distinct entry m p (returns (ok hs)) (returns (err e)) d = d
add_mapping-Distinct entry m p (returns (ok hs)) (returns (ok cs)) d =
    elim (Bool-cases (same_size hs cs)) [
      | inl e ↦ rw e (Distinct-add_published _ m.proto hs cs p.specs d)
      | inr e ↦ rw e d
    ]

add_ports-Distinct :
    (entry : Bytes) (m : Exposed) (p : Parsed) (ps : Ports)
    → IsDistinct p
    → Ends IsDistinct (add_ports entry m p ps)
unfolding add_ports warn
add_ports-Distinct entry m p never_returns d = tt
add_ports-Distinct entry m p (returns (err e)) d = d
add_ports-Distinct entry m p (returns (ok ps)) d = Distinct-add_exposed m.proto ps p.specs d

parse_matched-Distinct :
    (entry : Bytes) (p : Parsed) (m : Option Published) (n : Option Exposed)
    → IsDistinct p
    → Ends IsDistinct (parse_matched entry p m n)
unfolding parse_matched warn
parse_matched-Distinct entry p (some m) n d =
    add_mapping-Distinct entry m p (expand_range m.host_lo m.host_hi)
      (expand_range m.container_lo m.container_hi) d
parse_matched-Distinct entry p none (some m) d =
    add_ports-Distinct entry m p (expand_range m.lo m.hi) d
parse_matched-Distinct entry p none none d = d

parse_entry-Distinct :
    (raw : Bytes) (p : Parsed) → IsDistinct p → Ends IsDistinct (parse_entry raw p)
unfolding parse_entry
parse_entry-Distinct raw p d = elim (Bool-cases (is_empty (trim_space raw))) [
  | inl e ↦ rw e d
  | inr e ↦ rw e (parse_matched-Distinct (trim_space raw) p _ _ d)
]

parse_entries-Distinct :
    (raws : List Bytes) (p : Parsed) → IsDistinct p → Ends IsDistinct (parse_entries raws p)
unfolding parse_entries
parse_entries-Distinct [] p d = d
parse_entries-Distinct (raw ∷ raws) p d =
    go (parse_entry raw p) (parse_entry-Distinct raw p d) (λ q. parse_entries-Distinct raws q)
  where
    go :
        (r : Run Parsed)
        → Ends IsDistinct r
        → ((q : Parsed) → IsDistinct q → Ends IsDistinct (parse_entries raws q))
        → Ends IsDistinct
            (elim r [ never_returns ↦ never_returns | returns q ↦ parse_entries raws q ])
    go never_returns h k = tt
    go (returns q) h k = k q h

spec_less-asym : (x y : PortSpec) → spec_less x y ≡ true → spec_less y x ≡ false
unfolding spec_less
spec_less-asym x y h =
    ground (arith, ltb_bytes_irrefl x.proto, ltb_bytes_trans x.proto y.proto x.proto)

port_key-eq :
    (x y : PortSpec)
    → x.container_port ≡ y.container_port
    → x.proto ≡ y.proto
    → port_key x ≡ port_key y
unfolding port_key
port_key-eq x y p q = rw (p, q) refl

spec_less-total :
    (x y : PortSpec) → spec_less y x ≡ false → port_key x ≢ port_key y → spec_less x y ≡ true
unfolding spec_less
spec_less-total x y h n = ground (
  arith,
  ltb_bytes_total x.proto y.proto,
  port_key-eq x y,
  eqb_ℤ→eq x.container_port y.container_port,
)

spec_less-trans_not :
    (x y z : PortSpec) → spec_less y x ≡ false → spec_less z y ≡ false → spec_less z x ≡ false
unfolding spec_less
spec_less-trans_not x y z h k = ground (arith, ltb_bytes_trans_not x.proto y.proto z.proto)

spec_less-IsOrder : IsOrder spec_less
spec_less-IsOrder = record { asym = spec_less-asym; trans_not = spec_less-trans_not }

sort_specs-Increasing :
    (r : Run Parsed)
    → Ends IsDistinct r
    → Ends (λ p. AllPairs (λ x y. spec_less x y ≡ true) p.specs) (sort_specs r)
unfolding sort_specs
sort_specs-Increasing never_returns d = tt
sort_specs-Increasing (returns p) d =
    AllPairs-both (λ x y less_not apart. spec_less-total x y less_not apart) _
      (sort_by-IsSorted spec_less-IsOrder p.specs)
      (AllPairs-sort_by spec_less (λ x y n e. n (sym e)) p.specs d)

-- If `ParsePorts` returns, its specs strictly increase by container port and then by protocol; so
-- none appears twice.
pub parse_ports-Increasing :
    (column : Bytes) (p : Parsed)
    → parse_ports column ≡ returns p
    → AllPairs (λ x y. spec_less x y ≡ true) p.specs
parse_ports-Increasing column p e =
    subst (Ends (λ q. AllPairs (λ x y. spec_less x y ≡ true) q.specs)) e (
      unfold parse_ports in
      sort_specs-Increasing _ (parse_entries-Distinct (split b',' column) _ tt))
