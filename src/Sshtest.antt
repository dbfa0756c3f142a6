-- ===== src/Sshtest.antt =====
-- internal/sshtest/server.go: the state of the SSH server of the tests, its counters and connections, and
-- what it answers to the requests and channels of a client. The handshake, the network and the reading
-- of a payload are parameters or inputs.
pub mod Served
use auto_tunnel.Prelude.{
  ℕ, ◌+◌, Bool, true, false, Option, none, some, List, [], ◌∷◌, ◌++◌, if◌then◌else◌, length, leb,
}
use auto_tunnel.Prelude.Int.{ℤ, pos, ltb_ℤ}
use auto_tunnel.Text.{Bytes, codes, eqb}
use auto_tunnel.Text.Decimal.{itoa}
use auto_tunnel.Discovery.Types.{join_host_port}

pub record ExecResult : Type 0 where
  pub stdout : Bytes
  pub stderr : Bytes
  pub exit : ℕ

-- A connection is a number.
pub record Server : Type 0 where
  pub exec : Bytes → ExecResult
  pub keepalive_gap : ℤ
  pub pings : ℕ
  pub commands : List Bytes
  pub conns : List ℕ
  pub closed : Bool

unfoldable pub new_server : Server
new_server = record {
  exec = λ command. record { stdout = []; stderr = []; exit = 0 };
  keepalive_gap = pos 0;
  pings = 0;
  commands = [];
  conns = [];
  closed = false;
}

unfoldable pub set_exec : (Bytes → ExecResult) → Server → Server
set_exec fn s = record s { exec = fn }

unfoldable pub set_keepalive_gap : ℤ → Server → Server
set_keepalive_gap d s = record s { keepalive_gap = d }

unfoldable pub ping_count : Server → ℕ
ping_count s = s.pings

unfoldable pub conn_count : Server → ℕ
conn_count s = length s.conns

-- Whether a look finds a connection before the deadline: the server as it is at each turn of the loop.
unfoldable pub wait_for_connection : List Server → Bool
wait_for_connection [] = false
wait_for_connection (s ∷ later) =
    let rest = wait_for_connection later in if leb 1 (conn_count s) then true else rest

-- What a client asks for; the payload is `none` where it cannot be read.
pub record Request : Type 0 where
  pub kind : Bytes
  pub want_reply : Bool
  pub payload : Option Bytes

pub data Answer : Type 0 where
  slept : (gap : ℤ) → Answer
  replied : (accepted : Bool) → Answer
  wrote_stdout wrote_stderr : (text : Bytes) → Answer
  exit_status : (status : ℕ) → Answer
  channel_closed : Answer

abbrev pub is_keepalive : Request → Bool
is_keepalive r = eqb r.kind (codes "keepalive@openssh.com")

abbrev pub is_exec : Request → Bool
is_exec r = eqb r.kind (codes "exec")

unfoldable pub refuse : Request → List Answer
refuse r = if r.want_reply then replied false ∷ [] else []

unfoldable pub sleep : ℤ → List Answer
sleep gap = if ltb_ℤ (pos 0) gap then slept gap ∷ [] else []

-- One turn of the loop of handleGlobalRequests.
unfoldable pub global_request : Server → Request → Server × List Answer
global_request s r =
    if is_keepalive r
    then (record s { pings = s.pings + 1 }, sleep s.keepalive_gap ++ refuse r)
    else (s, refuse r)

unfoldable pub handle_global_requests : Server → List Request → Server × List Answer
handle_global_requests s [] = (s, [])
handle_global_requests s (r ∷ rs) =
    let (after, answers) = global_request s r in
    let (last, rest) = handle_global_requests after rs in (last, answers ++ rest)

unfoldable pub run_exec : Server → Option Bytes → Server × List Answer
run_exec s none = (s, replied false ∷ channel_closed ∷ [])
run_exec s (some command) =
    let res = s.exec command in
    (
      record s { commands = s.commands ++ command ∷ [] },
      replied true
          ∷ wrote_stdout res.stdout
          ∷ wrote_stderr res.stderr
          ∷ exit_status res.exit
          ∷ channel_closed
          ∷ [],
    )

-- The loop of handleSession over the requests of an accepted channel.
unfoldable pub handle_session : Server → List Request → Server × List Answer
handle_session s [] = (s, channel_closed ∷ [])
handle_session s (r ∷ rs) =
    let rest = handle_session s rs in
    if is_exec r then run_exec s r.payload else (rest.0, refuse r ++ rest.1)

pub data Forwarding : Type 0 where
  rejected : (reason : Bytes) → Forwarding
  -- The client does not take the channel; the connection to the target is closed.
  given_up : (target : Bytes) → Forwarding
  bridged_to : (target : Bytes) → Forwarding

unfoldable pub forward_to : (dial : Bytes → Option Bytes) → (accepts : Bool) → Bytes → Forwarding
forward_to dial accepts target = elim (dial target) [
  | some reason ↦ rejected reason
  | none ↦ if accepts then bridged_to target else given_up target
]

-- handleDirectTCPIP up to its goroutines; `dial` gives the reason of a failure.
unfoldable pub handle_direct_tcpip :
    (dial : Bytes → Option Bytes) → (accepts : Bool) → (payload : Option (Bytes × ℕ)) → Forwarding
handle_direct_tcpip dial accepts none = rejected (codes "bad direct-tcpip payload")
handle_direct_tcpip dial accepts (some (addr, port)) =
    forward_to dial accepts (join_host_port addr (itoa (pos port)))

-- What becomes of a new channel, by its type.
pub data Channel : Type 0 where
  to_session to_direct_tcpip : Channel
  unknown_type : (name : Bytes) → Channel

unfoldable pub channel_of : Bytes → Channel
channel_of name =
    if eqb name (codes "session")
    then to_session
    else if eqb name (codes "direct-tcpip")
    then to_direct_tcpip
    else unknown_type name

-- The handshake of a connection is done.
unfoldable pub registered : ℕ → Server → Server
registered conn s = record s { conns = s.conns ++ conn ∷ [] }

-- The server and the connections that are closed then.
unfoldable pub drop_connections : Server → Server × List ℕ
drop_connections s = (record s { conns = [] }, s.conns)

unfoldable pub close_server : Server → Server × List ℕ
close_server s = if s.closed then (s, []) else (record s { closed = true; conns = [] }, s.conns)

pub data Call : Type 0 where
  connects : (conn : ℕ) → Call
  drops closes : Call

unfoldable pub called : Server → Call → Server × List ℕ
called s (connects conn) = (registered conn s, [])
called s drops = drop_connections s
called s closes = close_server s

unfoldable pub calls : Server → List Call → Server × List ℕ
calls s [] = (s, [])
calls s (c ∷ cs) =
    let (after, ended) = called s c in let (last, rest) = calls after cs in (last, ended ++ rest)
