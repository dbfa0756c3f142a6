-- ===== src/Command/Program.antt =====
-- main.go: run, which is run_program, and main. What the program does to the world is a list of effects, in order. What the parts
-- answer, each a parameter of `run_program`, is the record `Outside`; the parts themselves are in the modules
-- Conn, Engine, Command/Plain and Command/Dashboard.
pub mod Uses
use auto_tunnel.Prelude.{
  Bool, true, false, not, ◌&&◌, ◌||◌, Option, none, some, List, [], ◌∷◌, ◌++◌, if◌then◌else◌,
  Result, ok, err,
}
use auto_tunnel.Text.{Bytes}
use auto_tunnel.Discovery.Host.{HostMode, all_ports}
use auto_tunnel.Dial.Target.{Target, TargetError}
use auto_tunnel.Command.{Config, FlagError, version_requested}

pub data Failure : Type 0 where
  bad_flags : FlagError → Failure
  no_log : (reason : Bytes) → Failure
  bad_target : TargetError → Failure
  not_ready : (reason : Bytes) → Failure
  display_failed : (reason : Bytes) → Failure

pub data Effect : Type 0 where
  prints_version opens_log closes_log warns_of_bind warns_of_host_ports : Effect
  starts_connection prints_connecting starts_engine shows_plain shows_dashboard : Effect
  -- `engStop` and `<-engDone`; `stop` and `<-connDone`.
  stops_engine stops_connection : Effect
  prints_failure : Failure → Effect
  exits_with_1 : Effect

-- What the parts answer. `log` is none without a log file that has to be closed, and `display` what
-- runPlain or runTUI returned.
pub record Outside : Type 0 where
  pub flags : Result FlagError Config
  pub log : Result Bytes Bool
  pub loopback : Bool
  pub no_tui : Bool
  pub resolved : Result TargetError Target
  pub ready : Option Bytes
  pub display : Option Bytes

abbrev pub Ran : Type 0
Ran = List Effect × Option Failure

abbrev pub after : List Effect → Ran → Ran
after first (effects, failure) = (first ++ effects, failure)

abbrev pub when : Bool → Effect → List Effect
when test effect = if test then effect ∷ [] else []

abbrev pub is_all : HostMode → Bool
is_all all_ports = true
is_all mode = false

-- The engine's part, with what the display returned.
unfoldable pub run_display : Outside → Ran
run_display o = (
  starts_engine ∷ (if o.no_tui then shows_plain else shows_dashboard) ∷ stops_engine ∷ [],
  elim o.display [ none ↦ none | some reason ↦ some (display_failed reason) ],
)

unfoldable pub run_connected : Outside → Ran
unfolding run_display
run_connected o =
    let shown : Ran = elim o.ready [
      | none ↦ run_display o
      | some reason ↦ ([], some (not_ready reason))
    ] in
    after (starts_connection ∷ prints_connecting ∷ []) (shown.0 ++ stops_connection ∷ [], shown.1)

unfoldable pub run_target : Outside → Ran
unfolding run_connected
run_target o = elim o.resolved [
  | err reason ↦ ([], some (bad_target reason))
  | ok target ↦ run_connected o
]

-- Behind newLogger, with the file that `defer` closes.
unfoldable pub run_logged : Outside → Config → Bool → Ran
unfolding run_target
run_logged o cfg file =
    let rest =
      after (when (not o.loopback) warns_of_bind)
        (after (when (is_all cfg.host_mode) warns_of_host_ports) (run_target o)) in
    (when file opens_log ++ (rest.0 ++ when file closes_log), rest.1)

unfoldable pub run_configured : Outside → Config → Ran
unfolding run_logged
run_configured o cfg = elim o.log [
  | err reason ↦ ([], some (no_log reason))
  | ok file ↦ run_logged o cfg file
]

unfoldable pub run_refused : FlagError → Ran
run_refused version_requested = (prints_version ∷ [], none)
run_refused reason = ([], some (bad_flags reason))

-- run
unfoldable pub run_program : Outside → Ran
unfolding run_configured run_refused
run_program o = elim o.flags [ err reason ↦ run_refused reason | ok cfg ↦ run_configured o cfg ]

unfoldable pub main_of : Ran → List Effect
main_of (effects, none) = effects
main_of (effects, some failure) = effects ++ prints_failure failure ∷ exits_with_1 ∷ []

-- main
unfoldable pub main : Outside → List Effect
unfolding run_program main_of
main o = main_of (run_program o)

-- What is in use at a moment of a run.
pub record InUse : Type 0 where
  pub log : Bool
  pub connection : Bool
  pub engine : Bool

abbrev pub at_rest : InUse
at_rest = record { log = false; connection = false; engine = false }

-- What an effect makes of it, if it may come then: the engine needs the connection for as long as it
-- runs, and both may write to the log.
unfoldable pub used : Effect → InUse → Option InUse
used opens_log u = if u.log then none else some (record u { log = true })
used closes_log u =
    if u.log && not u.connection && not u.engine then some (record u { log = false }) else none
used starts_connection u = if u.connection then none else some (record u { connection = true })
used stops_connection u =
    if u.connection && not u.engine then some (record u { connection = false }) else none
used starts_engine u =
    if u.connection && not u.engine then some (record u { engine = true }) else none
used stops_engine u = if u.engine then some (record u { engine = false }) else none
used shows_plain u = if u.engine then some u else none
used shows_dashboard u = if u.engine then some u else none
used exits_with_1 u = if u.log || u.connection || u.engine then none else some u
used effect u = some u

-- The effects one by one, none once one has come out of its place.
unfoldable pub used_all : List Effect → Option InUse → Option InUse
unfolding used
used_all [] u = u
used_all (effect ∷ effects) u = used_all effects (elim u [ none ↦ none | some v ↦ used effect v ])
