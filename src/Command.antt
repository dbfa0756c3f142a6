-- ===== src/Command.antt =====
-- main.go: the command line. The package flag, regexp.Compile, net.ParseIP, the folding of case and the
-- build's version are parameters.
pub mod Report
pub mod Words
pub mod Program
pub mod Plain
pub mod Dashboard
use auto_tunnel.Prelude.{
  ℕ, zero, suc, ◌+◌, ◌-◌, Bool, true, false, not, ◌&&◌, ◌||◌, Option, none, some, List, [], ◌∷◌,
  ◌++◌, if◌then◌else◌, length, Result, ok, err,
}
use auto_tunnel.Discovery.Ports.Expand.{Run, returns, never_returns}
use auto_tunnel.Prelude.Int.{ℤ, pos, leb_ℤ}
use auto_tunnel.Text.{Bytes, codes, eqb, is_empty}
use auto_tunnel.Discovery.Types.{PortMap}
use auto_tunnel.Discovery.Static.{ForwardError, parse_forwards}
use auto_tunnel.Discovery.Host.{HostMode, parse_host_mode, mode_enabled}

-- The flags that `parseFlags` looks at again, as the package flag leaves them.
pub record Flags : Type 0 where
  pub interval : ℤ
  pub include : Bytes
  pub exclude : Bytes
  pub host_exclude : Bytes
  pub host_mode : Bytes
  pub forwards : List Bytes
  pub no_docker : Bool
  pub show_version : Bool

-- What becomes of them.
pub record Config : Type 0 where
  pub target : Bytes
  pub interval : ℤ
  pub host_mode : HostMode
  pub static : List PortMap
  pub no_docker : Bool

pub data FlagError : Type 0 where
  not_parsed : (reason : Bytes) → FlagError
  version_requested bad_host_mode nothing_to_forward : FlagError
  host_count : ℕ → FlagError
  bad_interval : ℤ → FlagError
  bad_include bad_exclude bad_host_exclude : (pattern : Bytes) → FlagError
  bad_forward : ForwardError → FlagError

-- `resolveVersion`, with the main module's version of the build information.
unfoldable pub resolve_version : Bytes → Option Bytes → Bytes
resolve_version version info = if not (eqb version (codes "dev")) then version else elim info [
  | none ↦ version
  | some built ↦ if is_empty built || eqb built (codes "(devel)") then version else built
]

-- `nil` of net.ParseIP is none, and else the answer of IsLoopback.
unfoldable pub is_loopback :
    (parse_ip : Bytes → Option Bool) → (equal_fold : Bytes → Bytes → Bool) → Bytes → Bool
is_loopback parse_ip equal_fold bind = if is_empty bind then true else elim (parse_ip bind) [
  | none ↦ equal_fold bind (codes "localhost")
  | some loopback ↦ loopback
]

-- One of the three tests of a pattern: an empty one is no pattern.
unfoldable pub compiles : (Bytes → Bool) → Bytes → Bool
compiles compile pattern = is_empty pattern || compile pattern

abbrev is_none : List PortMap → Bool
is_none [] = true
is_none (pm ∷ maps) = false

unfoldable pub with_sources : Flags → Bytes → HostMode → List PortMap → Result FlagError Config
with_sources f host mode static =
    if f.no_docker && not (mode_enabled mode) && is_none static
    then err nothing_to_forward
    else ok (record {
      target = host;
      interval = f.interval;
      host_mode = mode;
      static = static;
      no_docker = f.no_docker;
    })

unfoldable pub with_forwards :
    Flags
    → Bytes
    → HostMode
    → Run (Result ForwardError (List PortMap))
    → Run (Result FlagError Config)
with_forwards f host mode never_returns = never_returns
with_forwards f host mode (returns (err e)) = returns (err (bad_forward e))
with_forwards f host mode (returns (ok static)) = returns (with_sources f host mode static)

unfoldable pub with_mode : Flags → Bytes → Option HostMode → Run (Result FlagError Config)
with_mode f host none = returns (err bad_host_mode)
with_mode f host (some mode) = with_forwards f host mode (parse_forwards f.forwards)

unfoldable pub with_host :
    (compile : Bytes → Bool) → Flags → List Bytes → Run (Result FlagError Config)
with_host compile f (host ∷ []) =
    if leb_ℤ f.interval (pos 0)
    then returns (err (bad_interval f.interval))
    else if not (compiles compile f.include)
    then returns (err (bad_include f.include))
    else if not (compiles compile f.exclude)
    then returns (err (bad_exclude f.exclude))
    else if not (compiles compile f.host_exclude)
    then returns (err (bad_host_exclude f.host_exclude))
    else with_mode f host (parse_host_mode f.host_mode)
with_host compile f hosts = returns (err (host_count (length hosts)))

-- What `parseFlags` does once the words are parsed.
unfoldable pub check_flags :
    (compile : Bytes → Bool) → Flags → List Bytes → Run (Result FlagError Config)
check_flags compile f positional =
    if f.show_version then returns (err version_requested) else with_host compile f positional

-- The loop that takes one positional argument at a time. `parse` is fs.Parse: the flags then, and the
-- words from the first that is no flag. A round takes one word at least, so that more rounds than words
-- are enough (Command/Words).
unfoldable pub peel :
    (parse : List Bytes → Flags → Result Bytes (Flags × List Bytes))
    → ℕ
    → List Bytes
    → Flags
    → List Bytes
    → Option (Result FlagError (Flags × List Bytes))
peel parse zero words f positional = none
peel parse (suc fuel) words f positional = elim (parse words f) [
  | err reason ↦ some (err (not_parsed reason))
  | ok (g, []) ↦ some (ok (g, positional))
  | ok (g, host ∷ rest) ↦ peel parse fuel rest g (positional ++ host ∷ [])
]

-- Where `newLogger` writes: an error, standard error, or a file, at the level of debugging or not.
pub data Logging : Type 0 where
  refused : Logging
  to_stderr : (debug : Bool) → Logging
  to_file : (path : Bytes) (debug : Bool) → Logging

unfoldable pub new_logger : (no_tui verbose : Bool) → Bytes → Logging
new_logger no_tui verbose path =
    if eqb path (codes "-") || is_empty path
    then (if not no_tui then refused else to_stderr verbose)
    else to_file path verbose
