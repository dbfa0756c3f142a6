-- ===== src/Tunnel/Manager/Moved.antt =====
-- A tunnel whose target has changed, and its local port.
use auto_tunnel.Prelude.{
  ◌≡◌, refl, sym, ap, subst, ◌∙◌, ◌≢◌, inl, inr, Bool, true, false, Option, none, some, List, [],
  ◌∷◌, arith, if◌then◌else◌, Bool-cases,
}
use auto_tunnel.Prelude.Int.{ℤ}
use auto_tunnel.Text.{Bytes, eqb}
use auto_tunnel.GoMap.{Map, lookup, insert, delete, kept, lookup-insert, lookup-delete, lookup-keep}
use auto_tunnel.Discovery.Types.{PortMap, preferred_local, forwardable}
use auto_tunnel.Tunnel.Allocator.{Net, member, free, Listened, listen}
use auto_tunnel.Tunnel.Allocator.Listen.{usable, listen-usable}
use auto_tunnel.Tunnel.Forwarder.{Forwarder, new_forwarder}
use auto_tunnel.Tunnel.Manager.{
  Manager, desired, still_wanted, drop_gone, started, start, Round, disabled, refused, no_offer,
  enabled, visit_by, visit, visit_all, stop_all, before_visits, reconcile,
}
use auto_tunnel.Tunnel.Manager.Settled.{AreMaps}

abbrev Elsewhere : ℤ → Option Forwarder → Type 0
Elsewhere p none = Unit
Elsewhere p (some g) = g.local_port ≢ p

module _ (p : ℤ) (k : Bytes) where
  -- The port is open still, and the forwarder of the key is on another one.
  abbrev Held : Manager → Type 0
  Held m = (member p m.net.open_ports ≡ true) × Elsewhere p (lookup k m.forwarders)

  usable-other : (net : Net) (q : ℤ) → usable net q ≡ true → member p net.open_ports ≡ true → q ≢ p
  unfolding free
  usable-other net q u h e =
      let held : member q net.open_ports ≡ true =
        subst (λ x. member x net.open_ports ≡ true) (sym e) h in
      absurd (ground arith)

  member-cons : (q : ℤ) (ports : List ℤ) → member p ports ≡ true → member p (q ∷ ports) ≡ true
  unfolding member
  member-cons q ports h = ground arith

  insert-Elsewhere :
      (j : Bytes) (g : Forwarder) (fs : Map Forwarder)
      → g.local_port ≢ p
      → Elsewhere p (lookup k fs)
      → Elsewhere p (lookup k (insert j g fs))
  insert-Elsewhere j g fs n h =
      subst (Elsewhere p) (sym (lookup-insert j k g fs))
        (elim (Bool-cases (eqb j k)) [ inl e ↦ rw e n | inr e ↦ rw e h ])

  delete-Elsewhere :
      (j : Bytes) (fs : Map Forwarder)
      → Elsewhere p (lookup k fs)
      → Elsewhere p (lookup k (delete j fs))
  delete-Elsewhere j fs h =
      subst (Elsewhere p) (sym (lookup-delete j k fs))
        (elim (Bool-cases (eqb j k)) [ inl e ↦ rw e tt | inr e ↦ rw e h ])

  module _ (j : Bytes) (pm : PortMap) where
    started-Held :
        (m : Manager) (o : Option Listened)
        → listen m.alloc m.net j (preferred_local pm) ≡ o
        → Held m
        → Held (started j pm m o)
    unfolding started new_forwarder
    started-Held m none e h = h
    started-Held m (some l) e (open_still, elsewhere) =
        let (u, opened_one, _) = listen-usable m.alloc m.net j (preferred_local pm) l e in
        (
          subst (λ ports. member p ports ≡ true) (sym opened_one)
              (member-cons l.port m.net.open_ports open_still),
          insert-Elsewhere j _ m.forwarders (usable-other m.net l.port u open_still) elsewhere,
        )

    enabled-Held :
        (r : Round) (o : Option Forwarder) → Held r.manager → Held (enabled j pm r o).manager
    unfolding enabled start no_offer
    enabled-Held r (some f) h = h
    enabled-Held r none h = started-Held (no_offer j r.manager) _ refl h

    disabled-Held :
        (r : Round) (o : Option Forwarder) → Held r.manager → Held (disabled j pm r o).manager
    unfolding disabled
    disabled-Held r none h = h
    disabled-Held r (some f) h = (h.0, delete-Elsewhere j r.manager.forwarders h.1)

    visit_by-Held :
        (r : Round) (carried listed : Bool)
        → Held r.manager
        → Held (visit_by j pm r carried listed).manager
    unfolding visit_by refused
    visit_by-Held r false listed h = h
    visit_by-Held r true true h = disabled-Held r (lookup j r.manager.forwarders) h
    visit_by-Held r true false h = enabled-Held r (lookup j r.manager.forwarders) h

  visit_all-Held :
      (order : Map PortMap) (r : Round) → Held r.manager → Held (visit_all order r).manager
  unfolding visit_all visit
  visit_all-Held [] r h = h
  visit_all-Held ((j, pm) ∷ order) r h =
      visit_all-Held order _ (visit_by-Held j pm r (forwardable pm) pm.offered h)

  stop_all-Elsewhere : (r : Round) → Held r.manager → Elsewhere p (lookup k (stop_all r).forwarders)
  unfolding stop_all
  stop_all-Elsewhere r h = h.1

-- A forwarder that is not wanted as it is has left the map before the last loop.
drop_gone-none :
    (wants : Map PortMap) (m : Manager) (k : Bytes) (f : Forwarder)
    → AreMaps m
    → lookup k m.forwarders ≡ some f
    → still_wanted (lookup k wants) f ≡ false
    → lookup k (drop_gone wants m).forwarders ≡ none
unfolding drop_gone
drop_gone-none wants m k f a live moved =
    lookup-keep (λ i g. still_wanted (lookup i wants) g) k m.forwarders a.forwarders
    ∙ ap (kept (λ i g. still_wanted (lookup i wants) g) k) live
    ∙ ap (λ b. if b then some f else none) moved

-- If a tunnel is live on an open port, and its row now asks for another target, then the forwarder
-- that `Reconcile` leaves for the key, if any, is on another local port: the old listener is closed
-- only after the new one has been opened.
pub reconcile-moved :
    (order : Map PortMap) (maps : List PortMap) (m : Manager) (k : Bytes) (f g : Forwarder)
    → AreMaps m
    → lookup k m.forwarders ≡ some f
    → member f.local_port m.net.open_ports ≡ true
    → still_wanted (lookup k (desired maps)) f ≡ false
    → lookup k (reconcile order maps m).forwarders ≡ some g
    → g.local_port ≢ f.local_port
unfolding reconcile before_visits
reconcile-moved order maps m k f g a live held moved e =
    let gone = drop_gone-none (desired maps) m k f a live moved in
    let first : Held f.local_port k (drop_gone (desired maps) m) =
      (unfold drop_gone in held, subst (Elsewhere f.local_port) (sym gone) tt) in
    subst (Elsewhere f.local_port) e (
      stop_all-Elsewhere f.local_port k (visit_all order (before_visits (desired maps) m))
        (visit_all-Held f.local_port k order (before_visits (desired maps) m) first))
