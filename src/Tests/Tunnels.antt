-- ===== src/Tests/Tunnels.antt =====
-- The allocator, the manager and the engine.
use auto_tunnel.Prelude.{◌≡◌, refl, ◌≢◌, true, false, Option, some, [], ◌∷◌}
use auto_tunnel.Prelude.Int.{ℤ, pos}
use auto_tunnel.Text.{codes}
use auto_tunnel.GoMap.{Map, lookup, insert, delete, keep}
use auto_tunnel.Discovery.Types.{
  PortMap, key, owner_id, forwardable, preferred_local, target, published,
}
use auto_tunnel.Tunnel.Allocator.{
  Listened, remember, listen, candidates, sticky, fallback_ports, size_of, attempts, valid_port,
  free, member,
}
use auto_tunnel.Tunnel.Allocator.Order.{last_port, Picks, Binds, listen-Picks}
use auto_tunnel.Tunnel.Manager.{
  Manager, scrub, desired, desired_from, reconcile, IsOrderOf, visit_all, visit, visit_by, enabled,
  start, started, drop_gone, still_wanted, stop_all, before_visits, no_offer,
}
use auto_tunnel.Tunnel.Manager.Settled.{Settled, AreMaps, reconcile-Settled}
use auto_tunnel.Tunnel.Manager.LastRow.{last_row}
use auto_tunnel.Tunnel.Manager.Moved.{reconcile-moved}
use auto_tunnel.Tunnel.Forwarder.{Forwarder, new_forwarder}
use auto_tunnel.Sanitize.{sanitize}
use auto_tunnel.Text.{eqb}
use auto_tunnel.Engine.{known_key, set_enabled}
use auto_tunnel.Engine.Choice.{IsVisitOrder, Promised, set_enabled-Settled}
use auto_tunnel.Engine.Valid.{IsValid, enables, perform, perform-IsValid}
use auto_tunnel.Tests.Samples.{web, quiet_net, local, idle, engine}

-- 8080 is taken, so the first port of the fallback range is bound.
abbrev bound : Listened
bound = record {
  alloc = remember local (codes "k") (pos 20000);
  net = record quiet_net { open_ports = pos 20000 ∷ pos 8080 ∷ [] };
  port = pos 20000;
}

bound_first : listen local quiet_net (codes "k") (pos 8080) ≡ some bound
unfolding listen attempts candidates sticky fallback_ports size_of valid_port free member lookup
bound_first = refl

listen-Picks_example :
    (o : Option ℤ) × Picks quiet_net
      (last_port (lookup (codes "k") bound.alloc.assigned))
      (pos 8080)
      (pos 20000)
      (size_of (pos 3))
      o
    × Binds bound.alloc quiet_net
        (codes "k")
        o
        (listen bound.alloc quiet_net (codes "k") (pos 8080))
unfolding remember
listen-Picks_example = listen-Picks bound.alloc quiet_net (codes "k") (pos 8080)

idle-AreMaps : AreMaps idle
idle-AreMaps = record { forwarders = tt; problems = tt; offered = tt }

abbrev web_on : PortMap
web_on = record web { offered = false }

abbrev web_first : Map PortMap
web_first = (key web_on, scrub web_on) ∷ []

web_first-IsOrderOf : IsOrderOf web_first (desired (web_on ∷ []))
unfolding desired desired_from insert
web_first-IsOrderOf = record { once = (tt, tt); same = λ k. refl }

reconcile-Settled_example :
    Settled
      (key web_on)
      (last_row (key web_on) (web_on ∷ []))
      idle
      (reconcile web_first (web_on ∷ []) idle)
reconcile-Settled_example =
    reconcile-Settled web_first (web_on ∷ []) idle (key web_on) idle-AreMaps web_first-IsOrderOf

-- The web container, forwarded on 20000, now asks for the target of another address.
abbrev web_moved : PortMap
web_moved = record web_on { target_host = codes "10.0.0.9" }

abbrev web_live : Forwarder
web_live = new_forwarder (key web) (scrub web_on) (pos 20000) (codes "127.0.0.1")

abbrev busy : Manager
busy = record idle {
  alloc = remember local (key web) (pos 20000);
  net = record quiet_net { open_ports = pos 20000 ∷ pos 8080 ∷ [] };
  forwarders = (key web, web_live) ∷ [];
}

abbrev moved_first : Map PortMap
moved_first = (key web, scrub web_moved) ∷ []

busy-AreMaps : AreMaps busy
busy-AreMaps = record { forwarders = (tt, tt); problems = tt; offered = tt }

busy_live : lookup (key web) busy.forwarders ≡ some web_live
unfolding lookup key owner_id eqb
busy_live = refl

busy_held : member web_live.local_port busy.net.open_ports ≡ true
unfolding member new_forwarder
busy_held = refl

busy_moved : still_wanted (lookup (key web) (desired (web_moved ∷ []))) web_live ≡ false
unfolding still_wanted lookup desired desired_from insert target new_forwarder scrub key eqb
    sanitize
busy_moved = refl

busy_after :
    lookup (key web) (reconcile moved_first (web_moved ∷ []) busy).forwarders
    ≡ some (new_forwarder (key web) (scrub web_moved) (pos 20001) (codes "127.0.0.1"))
unfolding reconcile visit_all visit visit_by enabled start started listen attempts candidates sticky
    fallback_ports size_of valid_port free member lookup insert delete keep desired desired_from
    drop_gone still_wanted stop_all before_visits no_offer forwardable preferred_local target
    published eqb remember new_forwarder scrub sanitize key
busy_after = refl

reconcile-moved_example : pos 20001 ≢ pos 20000
unfolding new_forwarder
reconcile-moved_example =
    reconcile-moved moved_first (web_moved ∷ []) busy (key web) web_live
      (new_forwarder (key web) (scrub web_moved) (pos 20001) (codes "127.0.0.1")) busy-AreMaps
      busy_live busy_held busy_moved busy_after

abbrev in_order : Map PortMap → Map PortMap
in_order wants = wants

in_order-IsVisitOrder : IsVisitOrder in_order
in_order-IsVisitOrder wants h = record { once = h; same = λ k. refl }

set_enabled-Settled_example :
    let r = set_enabled in_order (key web) true engine in
    (known_key (key web) (web ∷ []) ≡ true
      → (r.1 ≡ true) × Promised idle (insert (key web) true []) (web ∷ []) r.0)
    × (known_key (key web) (web ∷ []) ≡ false → r ≡ (engine, false))
set_enabled-Settled_example =
    set_enabled-Settled in_order in_order-IsVisitOrder engine (key web) true idle-AreMaps (tt, tt)

perform-IsValid_example : IsValid (perform in_order (enables (key web) true) engine)
perform-IsValid_example =
    perform-IsValid in_order (enables (key web) true) engine
      (record { maps = idle-AreMaps; distinct = (tt, tt) })
