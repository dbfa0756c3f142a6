-- ===== src/Tunnel/Sockets.antt =====
-- internal/tunnel/forwarder.go: the sockets of handle, the map `conns` of those that stop is to close,
-- and stop itself, call by call. A connection is its own key in the map, so that each one says whether
-- it is in there.
pub mod Held
use auto_tunnel.Prelude.{
  ◌≡◌, ◌⊎◌, Bool, true, false, Option, none, some, List, [], ◌∷◌, ◌++◌, if◌then◌else◌,
}
use auto_tunnel.Tunnel.Connections.{Stage, started, tracked, bridged}

-- One run of `handle`: where it is, `none` once it has returned, and which of its sockets are open.
pub record Link : Type 0 where
  pub stage : Option Stage
  pub in_conns : Bool
  pub local_open : Bool
  pub remote_open : Bool

unfoldable pub accepted : Link
accepted = record { stage = some started; in_conns = false; local_open = true; remote_open = false }

unfoldable pub track : Link → Link
track l = record l { in_conns = true }

unfoldable pub untrack : Link → Link
untrack l = record l { in_conns = false }

-- Whether a socket is still open after closeWrite: it is closed if it cannot be closed for writing alone.
unfoldable pub close_write : (has_close_write is_open : Bool) → Bool
close_write has_close_write is_open = if has_close_write then is_open else false

-- The deferred calls, last first, without and with a remote side.
unfoldable pub give_up : Link → Link
give_up l =
    let closed : Link = record l { local_open = false } in record (untrack closed) { stage = none }

unfoldable pub leave : Link → Link
leave l = give_up (record l { remote_open = false })

-- One step of `handle`.
pub data HandleStep (cancelled : Bool) : Link → Link → Type 0 where
  tracks :
      (l : Link)
      → l.stage ≡ some started
      → HandleStep cancelled l (record (track l) { stage = some tracked })
  -- No client, or a dial that fails.
  gives_up : (l : Link) → l.stage ≡ some tracked → HandleStep cancelled l (give_up l)
  dials :
      (l : Link)
      → l.stage ≡ some tracked
      → HandleStep cancelled l (record l { stage = some bridged; remote_open = true })
  sent_all :
      (l : Link) (has_close_write : Bool)
      → l.stage ≡ some bridged
      → HandleStep cancelled l
          (record l { remote_open = close_write has_close_write l.remote_open })
  received_all :
      (l : Link) (has_close_write : Bool)
      → l.stage ≡ some bridged
      → HandleStep cancelled l (record l { local_open = close_write has_close_write l.local_open })
  copied : (l : Link) → l.stage ≡ some bridged → HandleStep cancelled l (leave l)
  interrupted :
      (l : Link) → l.stage ≡ some bridged → cancelled ≡ true → HandleStep cancelled l (leave l)

-- How far `stop` is.
pub data Stopping : Type 0 where
  not_called has_cancelled has_closed has_swept has_returned : Stopping

-- `accepting` until acceptLoop returns, `listening` until the listener is closed.
pub record Pool : Type 0 where
  pub accepting : Bool
  pub listening : Bool
  pub cancelled : Bool
  pub stopping : Stopping
  pub links : List Link

unfoldable pub first_pool : Pool
first_pool = record {
  accepting = true;
  listening = true;
  cancelled = false;
  stopping = not_called;
  links = [];
}

unfoldable pub close_tracked : Link → Link
close_tracked l = if l.in_conns then record l { local_open = false } else l

-- The loop of `stop` over the map.
unfoldable pub sweep : List Link → List Link
sweep [] = []
sweep (l ∷ ls) = close_tracked l ∷ sweep ls

pub data PoolStep : Pool → Pool → Type 0 where
  accept : (p : Pool) → p.accepting ≡ true → PoolStep p (record p { links = accepted ∷ p.links })
  -- Accept fails for good only once the context is done or the listener is closed.
  accept_ends :
      (p : Pool)
      → p.accepting ≡ true
      → (p.cancelled ≡ true) ⊎ (p.listening ≡ false)
      → PoolStep p (record p { accepting = false })
  -- The context that the forwarder was started with ends.
  context_ends : (p : Pool) → PoolStep p (record p { cancelled = true })
  -- The goroutine of acceptLoop that waits for the context.
  unblock : (p : Pool) → p.cancelled ≡ true → PoolStep p (record p { listening = false })
  stop_cancels :
      (p : Pool)
      → p.stopping ≡ not_called
      → PoolStep p (record p { cancelled = true; stopping = has_cancelled })
  stop_closes :
      (p : Pool)
      → p.stopping ≡ has_cancelled
      → PoolStep p (record p { listening = false; stopping = has_closed })
  stop_sweeps :
      (p : Pool)
      → p.stopping ≡ has_closed
      → PoolStep p (record p { links = sweep p.links; stopping = has_swept })
  -- acceptLoop closes the channel `done` when it returns.
  stop_returns :
      (p : Pool)
      → p.stopping ≡ has_swept
      → p.accepting ≡ false
      → PoolStep p (record p { stopping = has_returned })
  handle :
      (p : Pool) (before after : List Link) (l k : Link)
      → p.links ≡ before ++ l ∷ after
      → HandleStep p.cancelled l k
      → PoolStep p (record p { links = before ++ k ∷ after })

pub data Reaches : Pool → Type 0 where
  begins : Reaches first_pool
  changes : {p q : Pool} → Reaches p → PoolStep p q → Reaches q
