-- ===== src/Tunnel/Manager/Growth.antt =====
-- The allocator and the open ports from one round of `Reconcile` to the next.
use auto_tunnel.Prelude.{
  ◌≡◌, refl, sym, ap, subst, ◌∙◌, ◌≢◌, ◌⊎◌, inl, inr, Bool, true, false, Option, none, some, [],
  ◌∷◌, if◌then◌else◌, All, Elem,
}
use auto_tunnel.Prelude.Int.{ℤ}
use auto_tunnel.Text.{Bytes, eqb}
use auto_tunnel.GoMap.{Map, lookup, lookup-insert}
use auto_tunnel.Discovery.Types.{PortMap, preferred_local, forwardable}
use auto_tunnel.Tunnel.Allocator.{Allocator, Net, Listened, listen, remember}
use auto_tunnel.Tunnel.Allocator.Listen.{listen-usable, listen-alloc}
use auto_tunnel.Tunnel.Forwarder.{Forwarder, new_forwarder}
use auto_tunnel.Tunnel.Manager.{
  Manager, started, start, Round, disabled, refused, no_offer, enabled, visit_by, visit, visit_all,
}
use auto_tunnel.Tunnel.Manager.Lookup.{view, lookup-insert_self, not_eqb, visit_other}

-- What a round for the key `j` does to the allocator and the open ports: one port more at most, which is
-- that of the forwarder of `j` and remembered for `j` alone.
record Grows (j : Bytes) (m n : Manager) : Type 0 where
  bind : n.alloc.bind ≡ m.alloc.bind
  base : n.alloc.fallback_base ≡ m.alloc.fallback_base
  size : n.alloc.fallback_size ≡ m.alloc.fallback_size
  busy : n.net.busy ≡ m.net.busy
  others : (k : Bytes) → eqb j k ≡ false → lookup k n.alloc.assigned ≡ lookup k m.alloc.assigned
  keeps : (p : ℤ) → Elem p m.net.open_ports → Elem p n.net.open_ports
  adds :
      (p : ℤ)
      → Elem p n.net.open_ports
      → Elem p m.net.open_ports
        ⊎ ((f : Forwarder) × (lookup j n.forwarders ≡ some f) × (f.local_port ≡ p))

module _ (k : Bytes) (pm : PortMap) where
  started-Grows :
      (m : Manager) (o : Option Listened)
      → listen m.alloc m.net k (preferred_local pm) ≡ o
      → Grows k m (started k pm m o)
  unfolding started new_forwarder remember
  started-Grows m none e = record {
    bind = refl;
    base = refl;
    size = refl;
    busy = refl;
    others = λ i q. refl;
    keeps = λ p h. h;
    adds = λ p h. inl h;
  }
  started-Grows m (some l) e =
      let (u, opened, busy) = listen-usable m.alloc m.net k (preferred_local pm) l e in
      let a = listen-alloc m.alloc m.net k (preferred_local pm) l e in
      record {
        bind = ap (λ (x : Allocator). x.bind) a;
        base = ap (λ (x : Allocator). x.fallback_base) a;
        size = ap (λ (x : Allocator). x.fallback_size) a;
        busy = busy;
        others = λ i q.
            ap (λ (x : Allocator). lookup i x.assigned) a
            ∙ lookup-insert k i l.port m.alloc.assigned
            ∙ ap (λ b. if b then some l.port else lookup i m.alloc.assigned) q;
        keeps = λ p h. subst (Elem p) (sym opened) (inr h);
        adds = λ p h. adds p (subst (Elem p) opened h);
      }
    where
      adds :
          (p : ℤ)
          → Elem p (l.port ∷ m.net.open_ports)
          → Elem p m.net.open_ports
            ⊎ ((f : Forwarder) × (lookup k (started k pm m (some l)).forwarders ≡ some f)
                × (f.local_port ≡ p))
      adds p (inl same) = inr (_, lookup-insert_self k _ m.forwarders, sym same)
      adds p (inr h) = inl h

  enabled-Grows : (r : Round) (o : Option Forwarder) → Grows k r.manager (enabled k pm r o).manager
  unfolding enabled no_offer start
  enabled-Grows r none =
      let g = started-Grows (no_offer k r.manager) _ refl in
      record {
        bind = g.bind;
        base = g.base;
        size = g.size;
        busy = g.busy;
        others = g.others;
        keeps = g.keeps;
        adds = g.adds;
      }
  enabled-Grows r (some f) = record {
    bind = refl;
    base = refl;
    size = refl;
    busy = refl;
    others = λ i q. refl;
    keeps = λ p h. h;
    adds = λ p h. inl h;
  }

  quiet-Grows : (m n : Manager) → n.alloc ≡ m.alloc → n.net ≡ m.net → Grows k m n
  quiet-Grows m n a e = record {
    bind = ap (λ (x : Allocator). x.bind) a;
    base = ap (λ (x : Allocator). x.fallback_base) a;
    size = ap (λ (x : Allocator). x.fallback_size) a;
    busy = ap (λ (x : Net). x.busy) e;
    others = λ i q. ap (λ (x : Allocator). lookup i x.assigned) a;
    keeps = λ p h. subst (λ (x : Net). Elem p x.open_ports) (sym e) h;
    adds = λ p h. inl (subst (λ (x : Net). Elem p x.open_ports) e h);
  }

  disabled-Grows :
      (r : Round) (o : Option Forwarder) → Grows k r.manager (disabled k pm r o).manager
  unfolding disabled
  disabled-Grows r none = quiet-Grows _ _ refl refl
  disabled-Grows r (some f) = quiet-Grows _ _ refl refl

  visit_by-Grows :
      (r : Round) (carried listed : Bool)
      → Grows k r.manager (visit_by k pm r carried listed).manager
  unfolding visit_by refused
  visit_by-Grows r false listed = quiet-Grows _ _ refl refl
  visit_by-Grows r true true = disabled-Grows r (lookup k r.manager.forwarders)
  visit_by-Grows r true false = enabled-Grows r (lookup k r.manager.forwarders)

  visit-Grows : (r : Round) → Grows k r.manager (visit k pm r).manager
  unfolding visit
  visit-Grows r = visit_by-Grows r (forwardable pm) pm.offered

pub visit_all_absent :
    (k : Bytes) (order : Map PortMap) (r : Round)
    → All (λ e. k ≢ e.0) order
    → view k (visit_all order r).manager ≡ view k r.manager
unfolding visit_all
visit_all_absent k [] r h = refl
visit_all_absent k ((j, pm) ∷ order) r h =
    visit_all_absent k order (visit j pm r) h.1
    ∙ visit_other j k (not_eqb j k (λ e. h.0 (sym e))) pm r

-- An allocator and a machine at which `Listen` may be called for a key while `m` becomes `n`: the range
-- and the key's own port are those of `m`, what other programs hold has not changed, no listener has
-- been closed, and every port opened since is that of a forwarder that is live in `n`.
pub record Between (k : Bytes) (m n : Manager) (a : Allocator) (net : Net) : Type 0 where
  pub bind : a.bind ≡ m.alloc.bind
  pub base : a.fallback_base ≡ m.alloc.fallback_base
  pub size : a.fallback_size ≡ m.alloc.fallback_size
  pub own : lookup k a.assigned ≡ lookup k m.alloc.assigned
  pub busy : net.busy ≡ m.net.busy
  pub keeps : (p : ℤ) → Elem p m.net.open_ports → Elem p net.open_ports
  pub adds :
      (p : ℤ)
      → Elem p net.open_ports
      → Elem p m.net.open_ports
        ⊎ ((j : Bytes) × (f : Forwarder) × (lookup j n.forwarders ≡ some f) × (f.local_port ≡ p))

pub Between-start : (k : Bytes) (m n : Manager) → Between k m n m.alloc m.net
Between-start k m n = record {
  bind = refl;
  base = refl;
  size = refl;
  own = refl;
  busy = refl;
  keeps = λ p h. h;
  adds = λ p h. inl h;
}

-- A round for another key goes before.
pub Between-visit :
    (k j : Bytes) (pm : PortMap) (order : Map PortMap) (r : Round) (a : Allocator) (net : Net)
    → eqb j k ≡ false
    → All (λ e. j ≢ e.0) order
    → let n = (visit_all order (visit j pm r)).manager in
      Between k (visit j pm r).manager n a net → Between k r.manager n a net
Between-visit k j pm order r a net other later b =
    let g = visit-Grows j pm r in
    record {
      bind = b.bind ∙ g.bind;
      base = b.base ∙ g.base;
      size = b.size ∙ g.size;
      own = b.own ∙ g.others k other;
      busy = b.busy ∙ g.busy;
      keeps = λ p h. b.keeps p (g.keeps p h);
      adds = λ p h. elim (b.adds p h) [
        | inl old ↦ elim (g.adds p old) [
          | inl older ↦ inl older
          | inr (f, live, port) ↦
              let kept = ap (λ v. v.live) (visit_all_absent j order (visit j pm r) later) in
              inr (j, f, kept ∙ live, port)
        ]
        | inr new ↦ inr new
      ];
    }
