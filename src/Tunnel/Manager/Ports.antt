-- ===== src/Tunnel/Manager/Ports.antt =====
-- The manager's listeners: which ports are open, and whose they are.
pub mod Counts
use auto_tunnel.Prelude.{
  ◌+◌, ◌≤◌, ◌≡◌, refl, subst, inl, inr, Bool, true, false, Option, none, some, List, [], ◌∷◌, arith,
  Bool-cases,
}
use auto_tunnel.Prelude.Int.{ℤ, eqb_ℤ, eqb_ℤ→eq}
use auto_tunnel.Text.{Bytes}
use auto_tunnel.GoMap.{Map, lookup}
use auto_tunnel.Discovery.Types.{PortMap, preferred_local, forwardable}
use auto_tunnel.Tunnel.Allocator.{member, free, Listened, listen}
use auto_tunnel.Tunnel.Allocator.Listen.{listen-usable}
use auto_tunnel.Tunnel.Forwarder.{Forwarder, new_forwarder, toggle_pause}
use auto_tunnel.Tunnel.Manager.{
  Manager, desired, drop_gone, started, start, Round, disabled, refused, no_offer, enabled,
  visit_by, visit, visit_all, stop_all, before_visits, reconcile, live, toggled, toggle_pause_of,
  close,
}
use auto_tunnel.Tunnel.Manager.Settled.{AreMaps}
use auto_tunnel.Tunnel.Manager.Maps.{drop_gone-AreMaps, visit_by-AreMaps}
use auto_tunnel.Tunnel.Manager.Ports.Counts.{
  count, ports_of, count-ports_of-append, count-not_member, count-insert, count-replace,
  count-delete, count-keep, count-close_all,
}

-- The open listeners are those of the live forwarders, no port twice.
abbrev pub IsOwner : Manager → Type 0
IsOwner m =
    (p : ℤ)
    → (count p m.net.open_ports ≡ count p (ports_of (live m.forwarders)))
      × (count p m.net.open_ports ≤ 1)

-- The same between two rounds, where some listeners wait to be closed.
abbrev AreHeld : Round → Type 0
AreHeld r =
    (p : ℤ)
    → (count p r.manager.net.open_ports
        ≡ count p (ports_of (live r.manager.forwarders)) + count p (ports_of r.to_stop))
      × (count p r.manager.net.open_ports ≤ 1)

module _ (k : Bytes) (pm : PortMap) where
  -- A new listener takes a port that was not open.
  started-AreHeld :
      (r : Round) (o : Option Listened)
      → listen r.manager.alloc r.manager.net k (preferred_local pm) ≡ o
      → lookup k r.manager.forwarders ≡ none
      → AreHeld r
      → AreHeld (record r { manager = started k pm r.manager o })
  unfolding started new_forwarder free
  started-AreHeld r none e fresh h p = h p
  started-AreHeld r (some l) e fresh h p =
      let (u, opened, _) = listen-usable r.manager.alloc r.manager.net k (preferred_local pm) l e in
      let unheld : member l.port r.manager.net.open_ports ≡ false = ground arith in
      let none_there = count-not_member l.port r.manager.net.open_ports unheld in
      let f = new_forwarder k pm l.port r.manager.alloc.bind in
      let added = count-insert p k f r.manager.forwarders fresh in
      let before = h p in
      elim (Bool-cases (eqb_ℤ l.port p)) [
        | inl t ↦
            let here =
              subst (λ q. count q r.manager.net.open_ports ≡ 0) (eqb_ℤ→eq l.port p t) none_there in
            (rw (opened, added) (rw t (omega arith)), rw opened (rw t (omega arith)))
        | inr t ↦ (rw (opened, added) (rw t (omega arith)), rw opened (rw t (omega arith)))
      ]

  enabled-AreHeld :
      (r : Round) (o : Option Forwarder)
      → lookup k r.manager.forwarders ≡ o
      → AreHeld r
      → AreHeld (enabled k pm r o)
  unfolding enabled start no_offer
  enabled-AreHeld r (some f) e h = h
  enabled-AreHeld r none e h =
      started-AreHeld (record r { manager = no_offer k r.manager }) _ refl e h

  -- A listener that is to be closed changes sides.
  disabled-AreHeld :
      (r : Round) (o : Option Forwarder)
      → lookup k r.manager.forwarders ≡ o
      → AreMaps r.manager
      → AreHeld r
      → AreHeld (disabled k pm r o)
  unfolding disabled
  disabled-AreHeld r none e a h p = h p
  disabled-AreHeld r (some f) e a h p =
      let gone = count-delete p k f r.manager.forwarders a.forwarders e in
      let moved = count-ports_of-append p r.to_stop (f ∷ []) in
      let before = h p in (omega arith, omega arith)

  visit_by-AreHeld :
      (r : Round) (carried listed : Bool)
      → AreMaps r.manager
      → AreHeld r
      → AreHeld (visit_by k pm r carried listed)
  unfolding visit_by refused
  visit_by-AreHeld r false listed a h = h
  visit_by-AreHeld r true true a h = disabled-AreHeld r _ refl a h
  visit_by-AreHeld r true false a h = enabled-AreHeld r _ refl h

visit_all-AreHeld :
    (order : Map PortMap) (r : Round) → AreMaps r.manager → AreHeld r → AreHeld (visit_all order r)
unfolding visit_all visit
visit_all-AreHeld [] r a h = h
visit_all-AreHeld ((k, pm) ∷ order) r a h =
    visit_all-AreHeld order _ (visit_by-AreMaps k pm r (forwardable pm) pm.offered a)
      (visit_by-AreHeld k pm r (forwardable pm) pm.offered a h)

before_visits-AreHeld :
    (wants : Map PortMap) (m : Manager) → IsOwner m → AreHeld (before_visits wants m)
unfolding before_visits drop_gone
before_visits-AreHeld wants m h p = rw (← (count-keep p wants m.forwarders)) (h p)

stop_all-IsOwner : (r : Round) → AreHeld r → IsOwner (stop_all r)
unfolding stop_all
stop_all-IsOwner r h p =
    let before = h p in ground (arith, count-close_all p r.to_stop r.manager.net.open_ports)

-- The listeners that are open after a `Reconcile` are those of the live forwarders, and no port is
-- open twice, if this was so before and the maps hold each key once: no listener is left behind, and
-- no two tunnels share a port.
pub reconcile-IsOwner :
    (order : Map PortMap) (maps : List PortMap) (m : Manager)
    → AreMaps m
    → IsOwner m
    → IsOwner (reconcile order maps m)
unfolding reconcile before_visits
reconcile-IsOwner order maps m a h = stop_all-IsOwner _ (
    visit_all-AreHeld order (before_visits (desired maps) m) (drop_gone-AreMaps (desired maps) m a)
      (before_visits-AreHeld (desired maps) m h))

toggled-IsOwner :
    (k : Bytes) (m : Manager) (o : Option Forwarder)
    → lookup k m.forwarders ≡ o
    → IsOwner m
    → IsOwner (toggled k m o).0
unfolding toggled toggle_pause
toggled-IsOwner k m none e h p = h p
toggled-IsOwner k m (some f) e h p =
    rw (count-replace p k f (toggle_pause f).0 m.forwarders e refl) (h p)

pub toggle_pause_of-IsOwner :
    (k : Bytes) (m : Manager) → IsOwner m → IsOwner (toggle_pause_of k m).0
unfolding toggle_pause_of
toggle_pause_of-IsOwner k m h = toggled-IsOwner k m _ refl h

-- Close leaves no port open.
pub close-none : (m : Manager) → IsOwner m → (p : ℤ) → count p (close m).net.open_ports ≡ 0
unfolding close
close-none m h p =
    let before = h p in ground (arith, count-close_all p (live m.forwarders) m.net.open_ports)
