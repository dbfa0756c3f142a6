-- ===== src/Dial/Connect.antt =====
-- internal/sshconn/dial.go: Dial, clientConfig and authMethods. The ssh-agent, the reading of known_hosts
-- and of keys, and the package ssh are parameters. A log says which connections are opened and closed.
pub mod Ends
pub mod Leaves
use auto_tunnel.Prelude.{
  ℕ, zero, suc, ◌+◌, Bool, true, false, not, ◌||◌, Option, none, some, List, [], ◌∷◌, ◌++◌,
  if◌then◌else◌, Result, ok, err,
}
use auto_tunnel.Prelude.Int.{ℤ, pos, leb_ℤ}
use auto_tunnel.Text.{Bytes, codes, eqb, is_empty, cut_first}
use auto_tunnel.Dial.Target.{Machine, Target, TargetError, addr, resolve_target}
use auto_tunnel.Dial.HostKey.{KnownHostsError, open_known_hosts}

pub data AuthMethod : Type 0 where
  agent_keys : AuthMethod
  disk_keys : (files : List Bytes) → AuthMethod

pub record ClientConfig : Type 0 where
  pub user : Bytes
  pub auth : List AuthMethod
  pub timeout : ℤ

-- `ask_agent` connects to a socket and asks for the number of signers: no connection, or a connection
-- with an error or a number. The other functions tell whether there is an error.
pub record World : Type 0 where
  pub machine : Machine
  pub agent_socket : Bytes
  pub ask_agent : Bytes → Option (Result Bytes ℕ)
  pub read_known_hosts : List Bytes → Result Bytes Unit
  pub ssh_dial : Bytes → ClientConfig → Result Bytes Unit
  pub dial_through : Bytes → Bytes → Result Bytes Unit
  pub handshake : Bytes → Bytes → ClientConfig → Result Bytes Unit

-- An SSH session with the host at an address, and a TCP connection to an address through a jump host.
pub data Conn : Type 0 where
  session hop : (addr : Bytes) → Conn

pub data Event : Type 0 where
  agent_opened agent_closed : Event
  opened closed : Conn → Event
  -- The goroutine that closes the second session once the first has ended.
  closes_after : (ends closes : Conn) → Event

pub data DialError : Type 0 where
  known_hosts : KnownHostsError → DialError
  no_credentials : (alias : Bytes) → DialError
  not_dialled : (addr reason : Bytes) → DialError
  multi_hop nested : (jump : Bytes) → DialError
  bad_jump : (jump : Bytes) → TargetError → DialError
  jump_not_dialled : (jump : Target) → DialError → DialError
  no_hop no_handshake : (addr : Bytes) (jump : Target) (reason : Bytes) → DialError

pub record Outcome : Type 0 where
  pub log : List Event
  pub result : Result DialError Conn

-- The default, 10 seconds.
abbrev pub default_dial_timeout : ℤ
default_dial_timeout = pos 10000000000

unfoldable pub agent_answer : Option (Result Bytes ℕ) → List Event × List AuthMethod
agent_answer none = ([], [])
agent_answer (some (ok (suc n))) = (agent_opened ∷ [], agent_keys ∷ [])
agent_answer (some _) = (agent_opened ∷ agent_closed ∷ [], [])

unfoldable pub agent_methods : World → List Event × List AuthMethod
agent_methods w =
    if is_empty w.agent_socket then ([], []) else agent_answer (w.ask_agent w.agent_socket)

unfoldable pub disk_methods : List Bytes → List AuthMethod
disk_methods [] = []
disk_methods (f ∷ fs) = disk_keys (f ∷ fs) ∷ []

unfoldable pub some_methods : Target → List AuthMethod → Result DialError (List AuthMethod)
some_methods t [] = err (no_credentials t.alias)
some_methods t (a ∷ methods) = ok (a ∷ methods)

unfoldable pub auth_methods : World → Target → List Event × Result DialError (List AuthMethod)
auth_methods w t =
    let (log, methods) = agent_methods w in
    (log, some_methods t (methods ++ disk_methods t.identity_files))

unfoldable pub with_methods :
    Target → ℤ → Result DialError (List AuthMethod) → Result DialError ClientConfig
with_methods t timeout (err e) = err e
with_methods t timeout (ok methods) = ok (record {
  user = t.user;
  auth = methods;
  timeout = if leb_ℤ timeout (pos 0) then default_dial_timeout else timeout;
})

unfoldable pub config_with :
    World → ℤ → Target → Result KnownHostsError Unit → List Event × Result DialError ClientConfig
config_with w timeout t (err e) = ([], err (known_hosts e))
config_with w timeout t (ok _) =
    let (log, methods) = auth_methods w t in (log, with_methods t timeout methods)

-- clientConfig
unfoldable pub client_config : World → ℤ → Target → List Event × Result DialError ClientConfig
client_config w timeout t = config_with w timeout t (open_known_hosts w.machine w.read_known_hosts)

-- What follows `ssh.Dial`.
unfoldable pub dialled : List Event → Target → Result Bytes Unit → Outcome
dialled log t (err reason) = record { log = log; result = err (not_dialled (addr t) reason) }
dialled log t (ok _) = record {
  log = log ++ opened (session (addr t)) ∷ [];
  result = ok (session (addr t));
}

-- What follows `ssh.NewClientConn` on the hop.
unfoldable pub shaken : List Event → Target → Target → Result Bytes Unit → Outcome
shaken log t jump (err reason) = record {
  log = log ++ closed (hop (addr t)) ∷ closed (session (addr jump)) ∷ [];
  result = err (no_handshake (addr t) jump reason);
}
shaken log t jump (ok _) = record {
  log =
      (log ++ opened (session (addr t)) ∷ [])
      ++ closes_after (session (addr t)) (session (addr jump)) ∷ [];
  result = ok (session (addr t));
}

-- What follows `jumpClient.Dial("tcp", t.Addr())`.
unfoldable pub hopped :
    World → List Event → Target → ClientConfig → Target → Result Bytes Unit → Outcome
hopped w log t cfg jump (err reason) = record {
  log = log ++ closed (session (addr jump)) ∷ [];
  result = err (no_hop (addr t) jump reason);
}
hopped w log t cfg jump (ok _) =
    shaken (log ++ opened (hop (addr t)) ∷ []) t jump (w.handshake (addr jump) (addr t) cfg)

-- What follows the dial of the jump host.
unfoldable pub jumped :
    World → List Event → Target → ClientConfig → Target → Result DialError Conn → Outcome
jumped w log t cfg jump (err e) = record { log = log; result = err (jump_not_dialled jump e) }
jumped w log t cfg jump (ok _) = hopped w log t cfg jump (w.dial_through (addr jump) (addr t))

unfoldable pub after_jump :
    World → List Event → Target → ClientConfig → Target → Option Outcome → Option Outcome
after_jump w log t cfg jump none = none
after_jump w log t cfg jump (some o) = some (jumped w (log ++ o.log) t cfg jump o.result)

unfoldable pub dial_jump :
    (Target → Option Outcome)
    → World
    → List Event
    → Target
    → ClientConfig
    → Result TargetError Target
    → Option Outcome
dial_jump next w log t cfg (err e) =
    some (record { log = log; result = err (bad_jump t.proxy_jump e) })
dial_jump next w log t cfg (ok jump) =
    if not (is_empty jump.proxy_jump)
    then some (record { log = log; result = err (nested t.proxy_jump) })
    else after_jump w log t cfg jump (next jump)

abbrev contains_comma : Bytes → Bool
contains_comma s = elim (cut_first b',' s) [ none ↦ false | some _ ↦ true ]

unfoldable pub dial_configured :
    (Target → Option Outcome)
    → World
    → Target
    → List Event
    → Result DialError ClientConfig
    → Option Outcome
dial_configured next w t log (err e) = some (record { log = log; result = err e })
dial_configured next w t log (ok cfg) =
    if is_empty t.proxy_jump || eqb t.proxy_jump (codes "none")
    then some (dialled log t (w.ssh_dial (addr t) cfg))
    else if contains_comma t.proxy_jump
    then some (record { log = log; result = err (multi_hop t.proxy_jump) })
    else dial_jump next w log t cfg (resolve_target w.machine t.proxy_jump)

-- The body of `Dial`, with its own call as an argument.
unfoldable pub dial_body : (Target → Option Outcome) → World → ℤ → Target → Option Outcome
dial_body next w timeout t =
    let (log, config) = client_config w timeout t in dial_configured next w t log config

-- Dial, on fuel.
unfoldable pub dial : ℕ → World → ℤ → Target → Option Outcome
dial zero w timeout t = none
dial (suc fuel) w timeout t = dial_body (dial fuel w timeout) w timeout t
