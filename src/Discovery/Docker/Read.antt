-- ===== src/Discovery/Docker/Read.antt =====
-- The rows of a pass over the containers: while the lines are read, and once their addresses are known.
use auto_tunnel.Prelude.{
  ℕ, ◌≡◌, refl, sym, ap, ◌∙◌, ◌≢◌, inl, inr, true, false, not, ◌||◌, List, [], ◌∷◌, ◌++◌,
  Bool-cases, if_both, true_of_not, false_of_not, All, All-append, Result, ok, err,
}
use auto_tunnel.Text.Equality.{is_empty-true, is_empty-false}
use auto_tunnel.Text.{Bytes, is_empty}
use auto_tunnel.Discovery.Types.{PortSpec, PortSpec_published, PortMap, docker, published}
use auto_tunnel.Discovery.Static.{loopback}
use auto_tunnel.Discovery.Ports.Expand.{Ends, Run, never_returns, returns}
use auto_tunnel.Discovery.Ports.Parse.{Parsed, parse_ports}
use auto_tunnel.Discovery.Docker.{
  Options, PsLine, Seen, DockerWarning, container_row, keep_name, primary_name, add_spec, add_specs,
  see_ports, see_container, attach_one,
}

-- What a row has before the addresses of unpublished ports are known.
pub record IsSeenRow (o : Options) (pm : PortMap) : Type 0 where
  pub source : pm.source ≡ docker
  pub owned : pm.owner ≡ pm.container_id
  pub kept : keep_name o pm.name ≡ true
  pub unoffered : pm.offered ≡ false
  pub allowed : (published pm || o.include_unpublished) ≡ true
  pub loop : published pm ≡ true → pm.target_host ≡ loopback

-- A row that can be forwarded.
pub record IsContainerRow (o : Options) (pm : PortMap) : Type 0 where
  pub source : pm.source ≡ docker
  pub owned : pm.owner ≡ pm.container_id
  pub kept : keep_name o pm.name ≡ true
  pub unoffered : pm.offered ≡ false
  pub allowed : (published pm || o.include_unpublished) ≡ true
  pub loop : published pm ≡ true → pm.target_host ≡ loopback
  pub reachable : pm.target_host ≢ []

pub with_target :
    (o : Options) (pm : PortMap) → IsSeenRow o pm → pm.target_host ≢ [] → IsContainerRow o pm
with_target o pm h r = record {
  source = h.source;
  owned = h.owned;
  kept = h.kept;
  unoffered = h.unoffered;
  allowed = h.allowed;
  loop = h.loop;
  reachable = r;
}

-- While the lines are read: without an id to ask for, every row is published.
abbrev pub IsSeen : Options → Seen → Type 0
IsSeen o seen =
    All (IsSeenRow o) seen.maps × (seen.need_ip ≡ [] → All (λ pm. published pm ≡ true) seen.maps)

container_row-IsSeenRow :
    (o : Options) (c : PsLine) (name : Bytes) (s : PortSpec)
    → keep_name o name ≡ true
    → (PortSpec_published s || o.include_unpublished) ≡ true
    → IsSeenRow o (container_row c name s)
unfolding container_row published PortSpec_published
container_row-IsSeenRow o c name s k a = record {
  source = refl;
  owned = refl;
  kept = k;
  unoffered = refl;
  allowed = a;
  loop = λ e. rw e refl;
}

row-published :
    (c : PsLine) (name : Bytes) (s : PortSpec)
    → PortSpec_published s ≡ true
    → published (container_row c name s) ≡ true
unfolding container_row published PortSpec_published
row-published c name s e = e

snoc-nonempty {ℓ} : {A : Type ℓ} (xs : List A) (x : A) → xs ++ x ∷ [] ≢ []
snoc-nonempty [] x e = cc
snoc-nonempty (y ∷ ys) x e = cc

add_spec-IsSeen :
    (o : Options) (c : PsLine) (name : Bytes) (s : PortSpec) (seen : Seen)
    → keep_name o name ≡ true
    → IsSeen o seen
    → IsSeen o (add_spec o c name s seen)
unfolding add_spec
add_spec-IsSeen o c name s seen k h =
    if_both (IsSeen o) (PortSpec_published s)
      (λ e. (
        All-append (IsSeenRow o) seen.maps _ h.0
            (seen_row (ap (λ b. b || o.include_unpublished) e), tt),
        λ n.
            All-append (λ pm. published pm ≡ true) seen.maps _ (h.1 n)
              (row-published c name s e, tt),
      ))
      (λ e.
        if_both (IsSeen o) o.include_unpublished
          (λ i. (
            All-append (IsSeenRow o) seen.maps _ h.0
                (seen_row (ap (λ b. b || o.include_unpublished) e ∙ i), tt),
            λ n. elim (snoc-nonempty seen.need_ip c.id n) [ ],
          ))
          (λ i. h))
  where
    seen_row :
        (PortSpec_published s || o.include_unpublished) ≡ true
        → IsSeenRow o (container_row c name s)
    seen_row = container_row-IsSeenRow o c name s k

add_specs-IsSeen :
    (o : Options) (c : PsLine) (name : Bytes) (specs : List PortSpec) (seen : Seen)
    → keep_name o name ≡ true
    → IsSeen o seen
    → IsSeen o (add_specs o c name specs seen)
unfolding add_specs
add_specs-IsSeen o c name [] seen k h = h
add_specs-IsSeen o c name (s ∷ specs) seen k h =
    add_specs-IsSeen o c name specs (add_spec o c name s seen) k
      (add_spec-IsSeen o c name s seen k h)

see_ports-IsSeen :
    (o : Options) (c : PsLine) (name : Bytes) (run : Run Parsed) (seen : Seen)
    → keep_name o name ≡ true
    → IsSeen o seen
    → Ends (IsSeen o) (see_ports o c name run seen)
unfolding see_ports
see_ports-IsSeen o c name never_returns seen k h = tt
see_ports-IsSeen o c name (returns p) seen k h = add_specs-IsSeen o c name p.specs _ k h

pub see_container-IsSeen :
    (o : Options) (r : Result Bytes PsLine) (seen : Seen)
    → IsSeen o seen
    → Ends (IsSeen o) (see_container o r seen)
unfolding see_container
see_container-IsSeen o (err reason) seen h = h
see_container-IsSeen o (ok c) seen h =
    if_both (Ends (IsSeen o)) (keep_name o (primary_name c.names))
      (λ k. see_ports-IsSeen o c (primary_name c.names) (parse_ports c.ports) seen k h) (λ k. h)

targetless-unpublished :
    (o : Options) (pm : PortMap)
    → IsSeenRow o pm
    → is_empty pm.target_host ≡ true
    → published pm ≡ false
targetless-unpublished o pm h e = elim (Bool-cases (published pm)) [
  | inl y ↦ cons-nonempty (sym (h.loop y) ∙ is_empty-true pm.target_host e)
  | inr n ↦ n
]
  where
    cons-nonempty : {A : Type 0} {c : ℕ} {s : Bytes} → (c ∷ s) ≡ [] → A
    cons-nonempty e = cc

with_address :
    (o : Options) (pm : PortMap) (ip : Bytes)
    → IsSeenRow o pm
    → published pm ≡ false
    → ip ≢ []
    → IsContainerRow o (record pm { target_host = ip })
unfolding published
with_address o pm ip h u r = record {
  source = h.source;
  owned = h.owned;
  kept = h.kept;
  unoffered = h.unoffered;
  allowed = h.allowed;
  loop = λ y. elim (true-not-false (sym y ∙ u)) [ ];
  reachable = r;
}
  where
    true-not-false : true ≢ false
    true-not-false e = cc

abbrev pub AreRows : Options → List PortMap × List DockerWarning → Type 0
AreRows o r = All (IsContainerRow o) r.0

pub attach_one-AreRows :
    (o : Options) (pm : PortMap) (ip : Bytes) (r : List PortMap × List DockerWarning)
    → IsSeenRow o pm
    → AreRows o r
    → AreRows o (attach_one pm ip r)
unfolding attach_one
attach_one-AreRows o pm ip (maps, warnings) h i =
    if_both (AreRows o) (not (is_empty pm.target_host))
      (λ e. (with_target o pm h (is_empty-false pm.target_host (false_of_not _ e)), i))
      (λ e.
        if_both (AreRows o) (is_empty ip) (λ x. i)
          (λ x. (
            with_address o pm ip h (targetless-unpublished o pm h (true_of_not _ e))
                (is_empty-false ip x),
            i,
          )))

pub loopback-nonempty : (s : Bytes) → s ≡ loopback → s ≢ []
loopback-nonempty s e n = cc
