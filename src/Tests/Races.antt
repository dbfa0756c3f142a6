-- ===== src/Tests/Races.antt =====
-- A choice that reads the last set just before a poll stores a newer one.
use auto_tunnel.Prelude.{◌≡◌, refl, Bool, true, false, none, some, [], ◌∷◌}
use auto_tunnel.Text.{eqb, is_empty}
use auto_tunnel.Text.Decimal.{itoa}
use auto_tunnel.GoMap.{Map, lookup, insert, keep}
use auto_tunnel.Discovery.Types.{
  PortMap, key, source_name, src, owner_id, forwardable, preferred_local, join_host_port, target,
  remote_port, published,
}
use auto_tunnel.Tunnel.Allocator.{
  listen, attempts, candidates, sticky, fallback_ports, size_of, valid_port, free, member, remember,
}
use auto_tunnel.Tunnel.Manager.{
  no_offer, close_all, stale, reconcile, stop_all, visit_all, desired, desired_from, visit,
  visit_by, enabled, before_visits, drop_gone, start, started,
}
use auto_tunnel.Tunnel.Manager.Settled.{Settled}
use auto_tunnel.Engine.{Engine, dedupe_keys, reconcile_selected, apply_selection}
use auto_tunnel.Engine.Choice.{IsVisitOrder, wish}
use auto_tunnel.Engine.Valid.{IsValid}
use auto_tunnel.Engine.Interleave.{
  Shared, alone, Moves, still, then_moves, poll_stores, poll_reconciles, reapply_reads,
}
use auto_tunnel.Engine.Interleave.Settles.{poll_reconciles-Settled}
use auto_tunnel.Tests.Samples.{web, engine}

abbrev in_order : Map PortMap → Map PortMap
in_order wants = wants

in_order-IsVisitOrder : IsVisitOrder in_order
in_order-IsVisitOrder wants h = record { once = h; same = λ k. refl }

abbrev sought : PortMap
sought = record web { offered = false }

-- The last set has one row.
abbrev running : Engine
running = record engine { last_maps = sought ∷ [] }

running-IsValid : IsValid running
running-IsValid = record {
  maps = record { forwarders = tt; problems = tt; offered = tt };
  distinct = (tt, tt);
}

abbrev has_read : Shared
has_read = record { engine = running; polled = none; read = (sought ∷ []) ∷ [] }

-- The poll finds no row any more.
abbrev raced : Shared
raced = record {
  engine = record running { last_maps = [] };
  polled = some [];
  read = (sought ∷ []) ∷ [];
}

-- The poll finds the row again, and reconciles.
abbrev found : Shared
found = record raced {
  engine = record running { last_maps = (dedupe_keys (sought ∷ []) []).0 };
  polled = some (dedupe_keys (sought ∷ []) []).0;
}

found-Moves : Moves in_order (alone running) found
unfolding alone
found-Moves =
    then_moves (then_moves still (reapply_reads (alone running) sought [] refl))
      (poll_stores has_read (sought ∷ []) [] refl)

abbrev settled : Shared
settled = record found {
  engine = reconcile_selected in_order (dedupe_keys (sought ∷ []) []).0 found.engine;
  polled = none;
}

poll_reconciles-Settled_example :
    let maps = (dedupe_keys (sought ∷ []) []).0 in
    (maps ≡ maps)
    × (settled.engine.last_maps ≡ maps)
    × (settled.engine.selected ≡ [])
    × Settled (key sought) (wish [] (key sought) maps) running.manager settled.engine.manager
poll_reconciles-Settled_example =
    poll_reconciles-Settled in_order running found settled (dedupe_keys (sought ∷ []) []).0
      (key sought) in_order-IsVisitOrder running-IsValid found-Moves refl
      (poll_reconciles found (dedupe_keys (sought ∷ []) []).0 refl) refl

abbrev forwards : Engine → PortMap → Bool
forwards e pm = elim (lookup (key pm) e.manager.forwarders) [ none ↦ false | some f ↦ true ]

-- The poll has stopped nothing, and then the choice reconciles the set that it read: the tunnel that is
-- gone is live again until the next poll.
stale_tunnel :
    forwards
      (reconcile_selected in_order (sought ∷ []) (reconcile_selected in_order [] raced.engine))
      sought
    ≡ true
unfolding reconcile_selected lookup insert key source_name src owner_id is_empty itoa reconcile
    stop_all visit_all desired desired_from apply_selection visit visit_by forwardable enabled
    before_visits drop_gone keep start started listen attempts candidates sticky fallback_ports
    size_of valid_port free member remember preferred_local join_host_port target remote_port
    published eqb no_offer close_all stale
stale_tunnel = refl
