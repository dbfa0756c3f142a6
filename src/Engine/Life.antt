-- ===== src/Engine/Life.antt =====
-- engine.go: run, the loop that polls until its context ends, with what the dashboard asks for and
-- other programs do in between, and the Close that it defers. A poll and a choice come one after the
-- other here; Engine/Interleave lets them overlap. The run goes as long as its context lives: what is
-- asked or polled after its end is left out.
use auto_tunnel.Prelude.{◌≡◌, Bool, true, false, Option, List, [], arith}
use auto_tunnel.Prelude.Int.{ℤ}
use auto_tunnel.Text.{Bytes}
use auto_tunnel.GoMap.{Map}
use auto_tunnel.Discovery.Types.{PortMap}
use auto_tunnel.Tunnel.Allocator.{Net}
use auto_tunnel.Tunnel.Forwarder.{Forwarder}
use auto_tunnel.Tunnel.Manager.{new_manager, live, close_all, close}
use auto_tunnel.Tunnel.Manager.Ports.{IsOwner}
use auto_tunnel.Tunnel.Manager.Ports.Counts.{count, count-close_all}
use auto_tunnel.Dial.Target.{Target}
use auto_tunnel.Engine.{Engine, Answers, poll}
use auto_tunnel.Engine.Files.{ReadAnswer}
use auto_tunnel.Engine.Valid.{Op, polls, perform}
use auto_tunnel.Engine.Ports.{IsSound, perform-IsSound}
use auto_tunnel.Engine.Start.{Settings, new_engine, first_engine}

-- Where the loop stands: before its poll, or in its `select`.
pub data Turn : Type 0 where
  polling waiting : Turn

pub record Running : Type 0 where
  pub turn : Turn
  pub engine : Engine

-- What the dashboard asks for is no poll.
unfoldable pub is_choice : Op → Bool
is_choice (polls a) = false
is_choice op = true

-- `defer e.manager.Close()`
unfoldable pub closed_down : Engine → Engine
unfolding close
closed_down e = record e { manager = close e.manager }

-- A request for a scan is taken off its channel.
abbrev pub taken_up : Engine → Engine
taken_up e = record e { rescan = false }

abbrev pub at : Turn → Engine → Running
at turn e = record { turn = turn; engine = e }

-- Other programs take ports and give them back.
unfoldable pub others_hold : (ℤ → Bool) → Engine → Engine
others_hold busy e = record e {
  manager = record e.manager { net = record e.manager.net { busy = busy } };
}

-- The goroutines that acceptLoop starts close the listeners of some forwarders.
unfoldable pub unblocked : List Forwarder → Engine → Engine
unfolding close_all
unblocked gone e = record e {
  manager = record e.manager {
    net = record e.manager.net { open_ports = close_all gone e.manager.net.open_ports };
  };
}

-- The context did not end while a poll asked.
abbrev pub NotEnded : Answers → Type 0
NotEnded a = (a.ended_docker ≡ false) × (a.ended_poll ≡ false) × (a.ended_host ≡ false)

module _ (visit_order : Map PortMap → Map PortMap) where
  pub data Beat : Running → Running → Type 0 where
    polls_now :
        (e : Engine) (a : Answers)
        → NotEnded a
        → Beat (at polling e) (at waiting (poll visit_order a e))
    ticks : (e : Engine) → Beat (at waiting e) (at polling e)
    scans_again : (e : Engine) → e.rescan ≡ true → Beat (at waiting e) (at polling (taken_up e))
    asks :
        (turn : Turn) (e : Engine) (op : Op)
        → is_choice op ≡ true
        → Beat (at turn e) (at turn (perform visit_order op e))
    others :
        (turn : Turn) (e : Engine) (busy : ℤ → Bool)
        → Beat (at turn e) (at turn (others_hold busy e))

  pub data Beats (s : Running) : Running → Type 0 where
    starts : Beats s s
    then_beats : {t u : Running} → Beats s t → Beat t u → Beats s u

  others_hold-IsSound :
      (busy : ℤ → Bool) (e : Engine) → IsSound e.manager → IsSound (others_hold busy e).manager
  unfolding others_hold
  others_hold-IsSound busy e h = record {
    maps = record {
      forwarders = h.maps.forwarders;
      problems = h.maps.problems;
      offered = h.maps.offered;
    };
    owned = h.owned;
  }

  Beat-IsSound : {s t : Running} → Beat s t → IsSound s.engine.manager → IsSound t.engine.manager
  Beat-IsSound (polls_now e a n) h = unfold perform in perform-IsSound visit_order (polls a) e h
  Beat-IsSound (ticks e) h = h
  Beat-IsSound (scans_again e r) h = h
  Beat-IsSound (asks turn e op c) h = perform-IsSound visit_order op e h
  Beat-IsSound (others turn e busy) h = others_hold-IsSound busy e h

  Beats-IsSound : {s t : Running} → Beats s t → IsSound s.engine.manager → IsSound t.engine.manager
  Beats-IsSound starts h = h
  Beats-IsSound (then_beats bs b) h = Beat-IsSound b (Beats-IsSound bs h)

closed_down-none :
    (gone : List Forwarder) (e : Engine)
    → IsOwner e.manager
    → (p : ℤ) → count p (closed_down (unblocked gone e)).manager.net.open_ports ≡ 0
unfolding closed_down unblocked close
closed_down-none gone e h p =
    let before = h p in
    ground (
      arith,
      count-close_all p gone e.manager.net.open_ports,
      count-close_all p (live e.manager.forwarders) (close_all gone e.manager.net.open_ports),
    )

module _ (decode : Bytes → Option (Option (Map Bool))) (join3 : Bytes → Bytes → Bytes → Bytes)
    (config_dir : Option Bytes) (read : Bytes → ReadAnswer) where
  new_engine-IsSound :
      (s : Settings) (t : Target) (net : Net)
      → net.open_ports ≡ []
      → IsSound (new_engine decode join3 config_dir read s t net).engine.manager
  unfolding new_engine first_engine new_manager
  new_engine-IsSound s t net fresh = record {
    maps = record { forwarders = tt; problems = tt; offered = tt };
    owned = λ p. rw fresh (omega arith, omega arith);
  }

  -- Of a run that was started with no open listener and with a map of choices that is not nil, as long as
  -- its context lives, whatever the polls met, the dashboard asked for and other programs did in between:
  -- each map of the manager holds a key once, the open listeners are those of the live forwarders, and
  -- no port is open twice. And if the context ends then, and nothing is polled or asked for afterwards,
  -- Close leaves no listener open, whichever listeners the goroutines of acceptLoop have closed before.
  pub run-IsOwner :
      (visit_order : Map PortMap → Map PortMap) (s : Settings) (t : Target) (net : Net)
      (r : Running)
      → net.open_ports ≡ []
      → (new_engine decode join3 config_dir read s t net).nil_choices ≡ false
      → Beats visit_order (at polling (new_engine decode join3 config_dir read s t net).engine) r
      → IsSound r.engine.manager
        × ((gone : List Forwarder) (p : ℤ)
            → count p (closed_down (unblocked gone r.engine)).manager.net.open_ports ≡ 0)
  run-IsOwner visit_order s t net r fresh writable bs =
      let sound = Beats-IsSound visit_order bs (new_engine-IsSound s t net fresh) in
      (sound, λ gone p. closed_down-none gone r.engine sound.owned p)
