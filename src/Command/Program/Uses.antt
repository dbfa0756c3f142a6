-- ===== src/Command/Program/Uses.antt =====
-- main.go: what a run of the program takes and gives back.
use auto_tunnel.Prelude.{Bool, not, Option, some, List, ◌++◌}
use auto_tunnel.Dial.Target.{Target}
use auto_tunnel.Command.{Config}
use auto_tunnel.Command.Program.{
  Effect, warns_of_bind, warns_of_host_ports, Outside, when, is_all, run_target, InUse, at_rest,
}

-- A run with nothing in use but perhaps the log.
abbrev resting : Bool → Option InUse
resting file = some (record at_rest { log = file })

abbrev warned : Outside → Config → List Effect
warned o cfg =
    when (not o.loopback) warns_of_bind
    ++ (when (is_all cfg.host_mode) warns_of_host_ports ++ (run_target o).0)
