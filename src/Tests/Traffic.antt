-- ===== src/Tests/Traffic.antt =====
-- A forwarder with one connection, before and after it is stopped.
use auto_tunnel.Prelude.{◌≤◌, ◌≡◌, refl, ◌⊎◌, true, false, none, some, List, [], ◌∷◌, ◌++◌, All}
use auto_tunnel.Prelude.Int.{pos}
use auto_tunnel.Text.{codes}
use auto_tunnel.Tunnel.Forwarder.{unknown, Forwarder, conn_opened, conn_closed}
use auto_tunnel.Tunnel.Connections.{
  Stage, Serve, serve, started, tracked, bridged, track, dials, interrupted, Step, accept,
  accept_ends, cancel, handle, Reach, here, next,
}
use auto_tunnel.Tunnel.Connections.Active.{
  bridges, weight, Falls, Proceeds, Reach-active, stopped-ends,
}
use auto_tunnel.Tunnel.Sockets.{
  Link, accepted, tracks, sweep, Pool, first_pool, has_closed, has_cancelled, has_returned,
  stop_cancels, stop_closes, Reaches, begins, changes,
}
use auto_tunnel.Tunnel.Sockets
use auto_tunnel.Tunnel.Sockets.Held.{IsHeld, IsLate, Reaches-IsHeld}
use auto_tunnel.Tests.Samples.{web}

abbrev forwarder : Forwarder
forwarder = record {
  key = codes "k";
  port_map = web;
  local_port = pos 8080;
  bind = [];
  paused = false;
  scheme = unknown;
  active_conns = 0;
  total_conns = 0;
  bytes_in = 0;
  bytes_out = 0;
  last_err = [];
}

abbrev open_one : Serve
open_one = record {
  forwarder = conn_opened forwarder;
  accepting = true;
  cancelled = false;
  stages = bridged ∷ [];
}

open_one-Reach : Reach (serve forwarder) open_one
unfolding serve
open_one-Reach =
    let v0 = serve forwarder in
    let v1 : Serve = record v0 { stages = started ∷ [] } in
    let v2 : Serve = record v0 { stages = tracked ∷ [] } in
    next
      (next (next here (accept v0 refl refl))
        (handle v1 [] [] started (some tracked) forwarder refl track))
      (handle v2 [] [] tracked (some bridged) (conn_opened forwarder) refl dials)

Reach-active_example : open_one.forwarder.active_conns ≡ bridges (bridged ∷ [])
Reach-active_example = Reach-active forwarder open_one refl open_one-Reach

abbrev stopped : Serve
stopped = record open_one { accepting = false; cancelled = true }

stopped-Reach : Reach (serve forwarder) stopped
stopped-Reach =
    next (next open_one-Reach (cancel open_one))
      (accept_ends (record open_one { cancelled = true }) refl refl)

abbrev ended : Serve
ended = record stopped { forwarder = conn_closed (conn_opened forwarder); stages = [] }

ended-Step : Step stopped ended
ended-Step =
    handle stopped [] [] bridged none (conn_closed (conn_opened forwarder)) refl (interrupted refl)

stopped-ends_example :
    ((before after : List Stage) (s : Stage)
      → stopped.stages ≡ before ++ s ∷ after
      → Proceeds stopped before s after)
    × ((stopped.stages ≡ []) × (stopped.forwarder.active_conns ≡ 0) ⊎ Falls stopped)
    × (ended.accepting ≡ false)
    × (ended.cancelled ≡ true)
    × (weight ended.stages ≤ weight stopped.stages)
stopped-ends_example = stopped-ends forwarder stopped ended refl stopped-Reach refl refl ended-Step

abbrev waiting : Link
waiting = record (Sockets.track accepted) { stage = some tracked }

-- stop has closed the listener, with one connection in the map and one on its way there.
abbrev closing : Pool
closing = record first_pool {
  links = accepted ∷ waiting ∷ [];
  cancelled = true;
  listening = false;
  stopping = has_closed;
}

closing-Reaches : Reaches closing
unfolding first_pool accepted
closing-Reaches =
    let p0 = first_pool in
    let p1 : Pool = record p0 { links = accepted ∷ [] } in
    let p2 : Pool = record p0 { links = waiting ∷ [] } in
    let p3 : Pool = record p0 { links = accepted ∷ waiting ∷ [] } in
    let p4 : Pool = record p3 { cancelled = true; stopping = has_cancelled } in
    changes
      (changes
        (changes
          (changes (changes begins (Sockets.accept p0 refl))
            (Sockets.handle p1 [] [] accepted waiting refl (tracks accepted refl)))
          (Sockets.accept p2 refl))
        (stop_cancels p3 refl))
      (stop_closes p4 refl)

Reaches-IsHeld_example :
    All IsHeld closing.links
    × All IsLate (sweep closing.links)
    × (closing.stopping ≡ has_returned
        → (closing.cancelled ≡ true) × (closing.listening ≡ false) × (closing.accepting ≡ false))
Reaches-IsHeld_example = Reaches-IsHeld closing closing-Reaches
