-- ===== src/Tunnel/Connections.antt =====
-- internal/tunnel/forwarder.go: acceptLoop, handle and stop. Each accepted connection is a goroutine of
-- its own; what the operating system and the ssh client answer, and who moves next, is left open.
pub mod Active
use auto_tunnel.Prelude.{ℕ, ◌+◌, ◌≡◌, Bool, true, false, Option, none, some, List, [], ◌∷◌, ◌++◌}
use auto_tunnel.Text.{Bytes, codes}
use auto_tunnel.Tunnel.Forwarder.{
  Forwarder, set_error, conn_opened, conn_closed, wrote_out, wrote_in,
}

-- Where `handle` is: just started, with the connection tracked, or with both sides bridged.
pub data Stage : Type 0 where
  started tracked bridged : Stage

-- `accepting` until acceptLoop returns; `cancelled` once the context is done.
pub record Serve : Type 0 where
  pub forwarder : Forwarder
  pub accepting : Bool
  pub cancelled : Bool
  pub stages : List Stage

-- When a forwarder starts.
unfoldable pub serve : Forwarder → Serve
serve f = record { forwarder = f; accepting = true; cancelled = false; stages = [] }

-- One step of `handle`, from a stage to the next, or to its return; the deferred calls are part of the
-- step that returns.
pub data Advance (cancelled : Bool) : Stage → Forwarder → Option Stage → Forwarder → Type 0 where
  track : {f : Forwarder} → Advance cancelled started f (some tracked) f
  no_client :
      {f : Forwarder}
      → Advance cancelled tracked f none (set_error (codes "ssh connection is down") f)
  dial_fails :
      {f : Forwarder} (reason : Bytes) → Advance cancelled tracked f none (set_error reason f)
  dials : {f : Forwarder} → Advance cancelled tracked f (some bridged) (conn_opened f)
  sends : {f : Forwarder} (n : ℕ) → Advance cancelled bridged f (some bridged) (wrote_out n f)
  receives : {f : Forwarder} (n : ℕ) → Advance cancelled bridged f (some bridged) (wrote_in n f)
  copied : {f : Forwarder} → Advance cancelled bridged f none (conn_closed f)
  interrupted :
      {f : Forwarder} → cancelled ≡ true → Advance cancelled bridged f none (conn_closed f)

abbrev pub at_most_one : Option Stage → List Stage → List Stage
at_most_one none after = after
at_most_one (some s) after = s ∷ after

pub data Step : Serve → Serve → Type 0 where
  accept :
      (v : Serve)
      → v.accepting ≡ true
      → v.forwarder.paused ≡ false
      → Step v (record v { stages = started ∷ v.stages })
  -- A paused forwarder closes the connection at once.
  turn_away : (v : Serve) → v.accepting ≡ true → v.forwarder.paused ≡ true → Step v v
  accept_fails :
      (v : Serve) (reason : Bytes)
      → v.accepting ≡ true
      → v.cancelled ≡ false
      → Step v (record v { forwarder = set_error reason v.forwarder })
  accept_ends :
      (v : Serve)
      → v.accepting ≡ true
      → v.cancelled ≡ true
      → Step v (record v { accepting = false })
  -- `stop`, or the end of the context that it was started with.
  cancel : (v : Serve) → Step v (record v { cancelled = true })
  handle :
      (v : Serve) (before after : List Stage) (s : Stage) (next : Option Stage) (f : Forwarder)
      → v.stages ≡ before ++ s ∷ after
      → Advance v.cancelled s v.forwarder next f
      → Step v (record v { forwarder = f; stages = before ++ at_most_one next after })

pub data Reach (v : Serve) : Serve → Type 0 where
  here : Reach v v
  next : {w u : Serve} → Reach v w → Step w u → Reach v u
