-- ===== src/Tunnel/Manager/Maps.antt =====
-- The manager's maps hold each key once, whatever is done to them.
use auto_tunnel.Prelude.{Bool, true, false, Option, none, some, List, [], ◌∷◌}
use auto_tunnel.Text.{Bytes}
use auto_tunnel.GoMap.{Map, lookup, IsMap, insert-IsMap, delete-IsMap, keep-IsMap}
use auto_tunnel.Discovery.Types.{PortMap, key, forwardable}
use auto_tunnel.Tunnel.Allocator.{Listened}
use auto_tunnel.Tunnel.Forwarder.{Forwarder}
use auto_tunnel.Tunnel.Manager.{
  Manager, scrub, desired_from, desired, drop_gone, started, start, Round, disabled, refused,
  no_offer, enabled, visit_by, visit, visit_all, stop_all, before_visits, reconcile, toggled,
  toggle_pause_of,
}
use auto_tunnel.Tunnel.Manager.Settled.{AreMaps}

desired_from-IsMap : (maps : List PortMap) (d : Map PortMap) → IsMap d → IsMap (desired_from d maps)
unfolding desired_from
desired_from-IsMap [] d h = h
desired_from-IsMap (pm ∷ maps) d h =
    desired_from-IsMap maps _ (insert-IsMap (key pm) (scrub pm) d h)

pub desired-IsMap : (maps : List PortMap) → IsMap (desired maps)
unfolding desired
desired-IsMap maps = desired_from-IsMap maps [] tt

module _ (k : Bytes) (pm : PortMap) where
  started-AreMaps : (m : Manager) (o : Option Listened) → AreMaps m → AreMaps (started k pm m o)
  unfolding started
  started-AreMaps m none a = record {
    forwarders = a.forwarders;
    problems = insert-IsMap k _ m.problems a.problems;
    offered = a.offered;
  }
  started-AreMaps m (some l) a = record {
    forwarders = insert-IsMap k _ m.forwarders a.forwarders;
    problems = delete-IsMap k m.problems a.problems;
    offered = a.offered;
  }

  no_offer-AreMaps : (m : Manager) → AreMaps m → AreMaps (no_offer k m)
  unfolding no_offer
  no_offer-AreMaps m a = record {
    forwarders = a.forwarders;
    problems = a.problems;
    offered = delete-IsMap k m.offered a.offered;
  }

  refused-AreMaps : (r : Round) → AreMaps r.manager → AreMaps (refused k pm r).manager
  unfolding refused
  refused-AreMaps r a = record {
    forwarders = a.forwarders;
    problems = insert-IsMap k _ r.manager.problems a.problems;
    offered = delete-IsMap k r.manager.offered a.offered;
  }

  disabled-AreMaps :
      (r : Round) (o : Option Forwarder) → AreMaps r.manager → AreMaps (disabled k pm r o).manager
  unfolding disabled
  disabled-AreMaps r none a = record {
    forwarders = a.forwarders;
    problems = delete-IsMap k r.manager.problems a.problems;
    offered = insert-IsMap k _ r.manager.offered a.offered;
  }
  disabled-AreMaps r (some f) a = record {
    forwarders = delete-IsMap k r.manager.forwarders a.forwarders;
    problems = delete-IsMap k r.manager.problems a.problems;
    offered = insert-IsMap k _ r.manager.offered a.offered;
  }

  enabled-AreMaps :
      (r : Round) (o : Option Forwarder) → AreMaps r.manager → AreMaps (enabled k pm r o).manager
  unfolding enabled start
  enabled-AreMaps r (some f) a = no_offer-AreMaps r.manager a
  enabled-AreMaps r none a = started-AreMaps (no_offer k r.manager) _ (no_offer-AreMaps r.manager a)

  pub visit_by-AreMaps :
      (r : Round) (carried listed : Bool)
      → AreMaps r.manager
      → AreMaps (visit_by k pm r carried listed).manager
  unfolding visit_by
  visit_by-AreMaps r false listed a = refused-AreMaps r a
  visit_by-AreMaps r true true a = disabled-AreMaps r (lookup k r.manager.forwarders) a
  visit_by-AreMaps r true false a = enabled-AreMaps r (lookup k r.manager.forwarders) a

visit_all-AreMaps :
    (order : Map PortMap) (r : Round) → AreMaps r.manager → AreMaps (visit_all order r).manager
unfolding visit_all visit
visit_all-AreMaps [] r a = a
visit_all-AreMaps ((k, pm) ∷ order) r a =
    visit_all-AreMaps order _ (visit_by-AreMaps k pm r (forwardable pm) pm.offered a)

pub drop_gone-AreMaps :
    (wants : Map PortMap) (m : Manager) → AreMaps m → AreMaps (drop_gone wants m)
unfolding drop_gone
drop_gone-AreMaps wants m a = record {
  forwarders = keep-IsMap _ m.forwarders a.forwarders;
  problems = keep-IsMap _ m.problems a.problems;
  offered = keep-IsMap _ m.offered a.offered;
}

stop_all-AreMaps : (r : Round) → AreMaps r.manager → AreMaps (stop_all r)
unfolding stop_all
stop_all-AreMaps r a = record {
  forwarders = a.forwarders;
  problems = a.problems;
  offered = a.offered;
}

pub reconcile-AreMaps :
    (order : Map PortMap) (maps : List PortMap) (m : Manager)
    → AreMaps m
    → AreMaps (reconcile order maps m)
unfolding reconcile before_visits
reconcile-AreMaps order maps m a =
    stop_all-AreMaps _ (visit_all-AreMaps order _ (drop_gone-AreMaps (desired maps) m a))

toggled-AreMaps :
    (k : Bytes) (m : Manager) (o : Option Forwarder) → AreMaps m → AreMaps (toggled k m o).0
unfolding toggled
toggled-AreMaps k m none a = a
toggled-AreMaps k m (some f) a = record {
  forwarders = insert-IsMap k _ m.forwarders a.forwarders;
  problems = a.problems;
  offered = a.offered;
}

pub toggle_pause_of-AreMaps :
    (k : Bytes) (m : Manager) → AreMaps m → AreMaps (toggle_pause_of k m).0
unfolding toggle_pause_of
toggle_pause_of-AreMaps k m a = toggled-AreMaps k m (lookup k m.forwarders) a
