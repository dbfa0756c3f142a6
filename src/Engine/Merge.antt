-- ===== src/Engine/Merge.antt =====
-- One set of rows out of three sources.
use auto_tunnel.Prelude.{
  ◌+◌, ◌≡◌, refl, sym, ap, ◌≢◌, inl, inr, Bool, true, false, Option, none, some, List, [], ◌∷◌,
  ◌++◌, arith, if◌then◌else◌, Bool-cases, length, length-append, All, AllPairs, All-imp,
}
use auto_tunnel.Prelude.Int.{ℤ}
use auto_tunnel.Text.{Bytes, eqb}
use auto_tunnel.Text.Equality.{eqb_iff}
use auto_tunnel.Discovery.Types.{PortMap, key}
use auto_tunnel.Tunnel.Allocator.{member}
use auto_tunnel.Engine.{drop_ports, member_key, second_forward, dedupe_from, dedupe_keys}

-- The tunnel keys of some rows are pairwise different.
abbrev pub DistinctKeys : List PortMap → Type 0
DistinctKeys = AllPairs (λ p q. key p ≢ key q)

not_member_of_true :
    (k : Bytes) (seen : List Bytes) (j : Bytes)
    → member_key k (j ∷ seen) ≡ false
    → (k ≢ j) × (member_key k seen ≡ false)
unfolding member_key
not_member_of_true k seen j h = (λ e. ground (arith, eqb_iff k j), ground arith)

not_same :
    (i k : Bytes) (seen : List Bytes)
    → member_key i seen ≡ true
    → member_key k seen ≡ false
    → eqb i k ≡ false
not_same i k seen h n = elim (Bool-cases (eqb i k)) [
  | inl e ↦ absurd (cc (ap (λ j. member_key j seen) ((eqb_iff i k).0 e)))
  | inr e ↦ e
]

unseen :
    (k j : Bytes) (seen : List Bytes)
    → eqb j k ≡ false
    → member_key k seen ≡ false
    → member_key k (j ∷ seen) ≡ false
unfolding member_key
unseen k j seen e n = ground (arith, eqb_iff k j, eqb_iff j k)

-- What is kept has keys that were not seen before.
dedupe_from-new :
    (maps : List PortMap) (seen warnings : List Bytes)
    → All (λ pm. member_key (key pm) seen ≡ false) (dedupe_from seen maps warnings).0
unfolding dedupe_from
dedupe_from-new [] seen warnings = tt
dedupe_from-new (pm ∷ maps) seen warnings =
    new_rest (member_key (key pm) seen) refl (dedupe_from-new maps seen _)
      (dedupe_from-new maps (key pm ∷ seen) warnings)
  where
    new_rest :
        (b : Bool)
        → member_key (key pm) seen ≡ b
        → All
            (λ q. member_key (key q) seen ≡ false)
            (dedupe_from seen maps (warnings ++ second_forward (key pm) ∷ [])).0
        → All
            (λ q. member_key (key q) (key pm ∷ seen) ≡ false)
            (dedupe_from (key pm ∷ seen) maps warnings).0
        → All
            (λ q. member_key (key q) seen ≡ false)
            (if b then dedupe_from seen maps (warnings ++ second_forward (key pm) ∷ []) else (
              pm ∷ (dedupe_from (key pm ∷ seen) maps warnings).0,
              (dedupe_from (key pm ∷ seen) maps warnings).1,
            )).0
    new_rest true e again rest = again
    new_rest false e again rest =
        (e, All-imp (λ q n. (not_member_of_true (key q) seen (key pm) n).1) _ rest)

dedupe_from-Distinct :
    (maps : List PortMap) (seen warnings : List Bytes)
    → DistinctKeys (dedupe_from seen maps warnings).0
unfolding dedupe_from
dedupe_from-Distinct [] seen warnings = tt
dedupe_from-Distinct (pm ∷ maps) seen warnings =
    distinct_rest (member_key (key pm) seen) (dedupe_from-Distinct maps seen _)
      (dedupe_from-Distinct maps (key pm ∷ seen) warnings)
  where
    distinct_rest :
        (b : Bool)
        → DistinctKeys (dedupe_from seen maps (warnings ++ second_forward (key pm) ∷ [])).0
        → DistinctKeys (dedupe_from (key pm ∷ seen) maps warnings).0
        → DistinctKeys
            (if b then dedupe_from seen maps (warnings ++ second_forward (key pm) ∷ []) else (
              pm ∷ (dedupe_from (key pm ∷ seen) maps warnings).0,
              (dedupe_from (key pm ∷ seen) maps warnings).1,
            )).0
    distinct_rest true again rest = again
    distinct_rest false again rest = (
      All-imp (λ q n e. (not_member_of_true (key q) seen (key pm) n).0 (sym e)) _
          (dedupe_from-new maps (key pm ∷ seen) warnings),
      rest,
    )

-- Each row is kept or warned of.
dedupe_from-length :
    (maps : List PortMap) (seen warnings : List Bytes)
    → length (dedupe_from seen maps warnings).0 + length (dedupe_from seen maps warnings).1
      ≡ length maps + length warnings
unfolding dedupe_from
dedupe_from-length [] seen warnings = omega arith
dedupe_from-length (pm ∷ maps) seen warnings = elim (Bool-cases (member_key (key pm) seen)) [
  | inl e ↦ rw e (
      omega (
        arith,
        dedupe_from-length maps seen (warnings ++ second_forward (key pm) ∷ []),
        length-append {0} warnings (second_forward (key pm) ∷ []),
      ))
  | inr e ↦ rw e (omega (arith, dedupe_from-length maps (key pm ∷ seen) warnings))
]

-- The first row of each new key is the one that is kept.
abbrev pub find_map : Bytes → List PortMap → Option PortMap
find_map k [] = none
find_map k (pm ∷ maps) = if eqb (key pm) k then some pm else find_map k maps

dedupe_from-find :
    (k : Bytes) (maps : List PortMap) (seen warnings : List Bytes)
    → member_key k seen ≡ false
    → find_map k (dedupe_from seen maps warnings).0 ≡ find_map k maps
unfolding dedupe_from
dedupe_from-find k [] seen warnings n = refl
dedupe_from-find k (pm ∷ maps) seen warnings n = elim (Bool-cases (member_key (key pm) seen)) [
  | inl e ↦
      let other : eqb (key pm) k ≡ false = not_same (key pm) k seen e n in
      rw (e, other) (dedupe_from-find k maps seen (warnings ++ second_forward (key pm) ∷ []) n)
  | inr e ↦ elim (Bool-cases (eqb (key pm) k)) [
    | inl q ↦ rw (e, q) refl
    | inr q ↦
        rw (e, q) (dedupe_from-find k maps (key pm ∷ seen) warnings (unseen k (key pm) seen q n))
  ]
]

-- Of a list of rows `dedupeKeys` keeps, for each tunnel key, the first row with it and no other; the
-- rows that it leaves out are as many as the warnings that it adds.
pub dedupe_keys-first :
    (maps : List PortMap) (warnings : List Bytes)
    → let r = dedupe_keys maps warnings in
      DistinctKeys r.0
      × ((k : Bytes) → find_map k r.0 ≡ find_map k maps)
      × (length r.0 + length r.1 ≡ length maps + length warnings)
unfolding dedupe_keys
dedupe_keys-first maps warnings = (
  dedupe_from-Distinct maps [] warnings,
  λ k. dedupe_from-find k maps [] warnings (unfold member_key in refl),
  dedupe_from-length maps [] warnings,
)

-- No host row is left whose port some container publishes.
drop_ports-free :
    (ports : List ℤ) (host : List PortMap)
    → All (λ pm. member pm.container_port ports ≡ false) (drop_ports ports host)
unfolding drop_ports
drop_ports-free ports [] = tt
drop_ports-free ports (pm ∷ host) = elim (Bool-cases (member pm.container_port ports)) [
  | inl e ↦ rw e (drop_ports-free ports host)
  | inr e ↦ rw e (e, drop_ports-free ports host)
]
