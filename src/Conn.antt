-- ===== src/Conn.antt =====
-- internal/sshconn/keepalive.go: the SSH connection that is dialled again whenever it drops. What a
-- dial, a keepalive or the remote end answers is an event of the run. Times of day are not modelled;
-- durations are counts of nanoseconds, and the random jitter of a wait is an argument.
pub mod Run
pub mod Ready
use auto_tunnel.Prelude.{
  ℕ, ◌+◌, ◌*◌, ◌%◌, ◌^◌, min, Option, none, some, List, [], ◌∷◌, ◌++◌, leb, ◌==◌, if◌then◌else◌,
}
use auto_tunnel.Text.{Bytes, codes, is_empty}
use auto_tunnel.Text.Decimal.{format}
use auto_tunnel.Sanitize.{sanitize}

-- The type `State`.
pub data Lifecycle : Type 0 where
  connecting connected reconnecting closed : Lifecycle

pub record Timings : Type 0 where
  pub min_backoff : ℕ
  pub max_backoff : ℕ

abbrev pub second : ℕ
second = 1000000000

abbrev pub default_timings : Timings
default_timings = record { min_backoff = 1 * second; max_backoff = 30 * second }

abbrev pub keepalive_fails_max : ℕ
keepalive_fails_max = 2

pub record Status : Type 0 where
  pub state : Lifecycle
  pub rtt : ℕ
  pub last_error : Bytes
  pub attempts : ℕ
  pub generation : ℕ

-- A client is named by a number. `ready` is the number of the channel that `readyCh` holds, and
-- `open_channels` are the channels made that nobody has closed yet.
pub record Conn : Type 0 where
  pub client : Option ℕ
  pub status : Status
  pub ready : ℕ
  pub open_channels : List ℕ

abbrev pub new_conn : Conn
new_conn = record {
  client = none;
  status = record { state = connecting; rtt = 0; last_error = []; attempts = 0; generation = 0 };
  ready = 0;
  open_channels = 0 ∷ [];
}

-- `select { case <-c.readyCh: default: close(c.readyCh) }`
unfoldable pub close_channel : ℕ → List ℕ → List ℕ
close_channel c [] = []
close_channel c (d ∷ ds) = let rest = close_channel c ds in if c == d then rest else d ∷ rest

-- setConnected. `Generation` is a uint64.
unfoldable pub set_connected : ℕ → Conn → Conn
unfolding close_channel
set_connected client c = record c {
  client = some client;
  status = record c.status {
    state = connected;
    attempts = 0;
    last_error = [];
    generation = (c.status.generation + 1) % 2 ^ 64;
  };
  open_channels = close_channel c.ready c.open_channels;
}

-- An error that is nil leaves the last one.
unfoldable pub error_text : Option Bytes → Bytes → Bytes
unfolding sanitize
error_text none old = old
error_text (some message) old = sanitize message

-- setDisconnected
unfoldable pub set_disconnected : Option Bytes → Conn → Conn
set_disconnected reason c = record {
  client = none;
  status = record c.status {
    state = reconnecting;
    rtt = 0;
    last_error = error_text reason c.status.last_error;
  };
  ready = c.ready + 1;
  open_channels = (c.ready + 1) ∷ c.open_channels;
}

-- recordFailure. `Attempts` is an int that counts failures in a row.
unfoldable pub record_failure : Option Bytes → Conn → Conn
record_failure failure c = record c {
  client = none;
  status = record c.status {
    state = reconnecting;
    attempts = c.status.attempts + 1;
    last_error = error_text failure c.status.last_error;
  };
}

unfoldable pub set_rtt : ℕ → Conn → Conn
set_rtt rtt c = record c { status = record c.status { rtt = rtt } }

-- setClosed
unfoldable pub set_closed : Conn → Conn
unfolding close_channel
set_closed c = record c {
  client = none;
  status = record c.status { state = closed };
  open_channels = close_channel c.ready c.open_channels;
}

-- Where `Run` stands: before a dial with the backoff to come, in the wait after a failed one, in
-- `monitor` with the failures counted so far, or returned.
pub data Phase : Type 0 where
  dialing waiting : (backoff : ℕ) → Phase
  monitoring : (fails : ℕ) → Phase
  returned : Phase

pub record Runner : Type 0 where
  pub timings : Timings
  pub conn : Conn
  pub phase : Phase

pub data Event : Type 0 where
  cancelled wait_over : Event
  dial_failed : (message : Bytes) → Event
  dial_worked : (client : ℕ) → Event
  remote_closed : (message : Option Bytes) → Event
  ping_failed : (message : Bytes) → Event
  ping_answered : (rtt : ℕ) → Event

unfoldable pub start_run : Timings → Runner
start_run t = record { timings = t; conn = new_conn; phase = dialing t.min_backoff }

-- `min(backoff*2, c.timings.maxBackoff)`
unfoldable pub next_backoff : Timings → ℕ → ℕ
next_backoff t backoff = min (backoff * 2) t.max_backoff

abbrev pub keepalive_failed : ℕ → Bytes → Bytes
keepalive_failed fails message =
    codes "keepalive failed " ++ (format fails ++ (codes " times: " ++ message))

-- client.Close and setDisconnected, with the next round of the loop.
unfoldable pub lost : Bytes → Runner → Runner
lost reason r = record r {
  conn = set_disconnected (some reason) r.conn;
  phase = dialing r.timings.min_backoff;
}

-- A keepalive that failed, with the failures in a row that it makes.
unfoldable pub ping_missed : ℕ → Bytes → Runner → Runner
unfolding lost
ping_missed fails message r =
    if leb keepalive_fails_max fails
    then lost (keepalive_failed fails message) r
    else record r { phase = monitoring fails }

abbrev pub closed_reason : Option Bytes → Bytes
closed_reason none = codes "connection closed by remote"
closed_reason (some message) = message

-- `Run` up to its next wait. An event that cannot happen where `Run` stands has no result.
unfoldable pub step : Event → Timings → Conn → Phase → Option Runner
unfolding next_backoff lost ping_missed
step cancelled t c (dialing b) =
    some (record { timings = t; conn = set_closed c; phase = returned })
step cancelled t c (waiting b) =
    some (record { timings = t; conn = set_closed c; phase = returned })
step cancelled t c (monitoring fails) = some (record {
  timings = t;
  conn = set_closed (set_disconnected (some (codes "context canceled")) c);
  phase = returned;
})
step (dial_failed message) t c (dialing b) =
    some (record { timings = t; conn = record_failure (some message) c; phase = waiting b })
step (dial_worked client) t c (dialing b) =
    some (record { timings = t; conn = set_connected client c; phase = monitoring 0 })
step wait_over t c (waiting b) =
    some (record { timings = t; conn = c; phase = dialing (next_backoff t b) })
step (remote_closed message) t c (monitoring fails) =
    some (lost (closed_reason message) (record { timings = t; conn = c; phase = monitoring fails }))
step (ping_failed message) t c (monitoring fails) =
    some
      (ping_missed (fails + 1) message (record { timings = t; conn = c; phase = monitoring fails }))
step (ping_answered rtt) t c (monitoring fails) =
    some (record { timings = t; conn = set_rtt rtt c; phase = monitoring 0 })
step _ t c p = none

-- `Run` through a sequence of events.
unfoldable pub run : List Event → Option Runner → Option Runner
unfolding step
run [] o = o
run (e ∷ es) none = none
run (e ∷ es) (some r) = run es (step e r.timings r.conn r.phase)

-- withJitter: `random` is what rand.Int63n returned for `d/2+1`.
unfoldable pub with_jitter : ℕ → ℕ → ℕ
with_jitter d random = d + random

-- What `WaitReady` does on one look at the connection: it returns the client or an error, or waits
-- for a channel to be closed.
pub data Waited : Type 0 where
  got : (client : ℕ) → Waited
  failed : (message : Bytes) → Waited
  waits_for : (channel : ℕ) → Waited

unfoldable pub wait_without : Lifecycle → Bytes → ℕ → Waited
unfolding is_empty
wait_without closed last_error channel =
    if is_empty last_error
    then failed (codes "ssh connection closed")
    else failed (codes "ssh connection closed: " ++ last_error)
wait_without _ last_error channel = waits_for channel

unfoldable pub wait_look : Option ℕ → Conn → Waited
unfolding wait_without
wait_look (some client) c = got client
wait_look none c = wait_without c.status.state c.status.last_error c.ready

-- WaitReady
unfoldable pub wait_ready : Conn → Waited
unfolding wait_look
wait_ready c = wait_look c.client c
