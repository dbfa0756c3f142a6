-- ===== src/Tests/Programs.antt =====
-- A run of the program, its dashboard and its plain report.
use auto_tunnel.Prelude.{◌≡◌, refl, true, false, Option, none, some, [], ◌∷◌, ◌++◌, ok}
use auto_tunnel.Prelude.Int.{pos}
use auto_tunnel.Text.{Bytes, codes}
use auto_tunnel.Discovery.Host.{all_ports}
use auto_tunnel.Conn.{connected}
use auto_tunnel.Command.{Config}
use auto_tunnel.Command.Program.{Outside}
use auto_tunnel.Command.Dashboard.{
  Dashboard, shown_first, returned, display_error, signalled, feed_ends, program_ends, returns_now,
  unchanged, then_changes, returned-ended,
}
use auto_tunnel.Command.Plain.{Reported, run_plain, run_plain-quiet}
use auto_tunnel.Tests.Samples.{row, server}

abbrev config : Config
config = record {
  target = codes "box";
  interval = pos 5000000000;
  host_mode = all_ports;
  static = [];
  no_docker = false;
}

-- Every warning, a connection and a dashboard that fails.
abbrev outside : Outside
outside = record {
  flags = ok config;
  log = ok true;
  loopback = false;
  no_tui = false;
  resolved = ok server;
  ready = none;
  display = some (codes "no terminal");
}

-- The user quits; the call returns once a signal has come.
abbrev quit_late : Dashboard
quit_late = record { showing = returned none; feeding = false; ended = true }

returned-ended_example : (quit_late.ended ≡ true) × (◌≡◌ {A = Option Bytes} none none)
unfolding display_error
returned-ended_example =
    returned-ended quit_late none
      (then_changes
        (then_changes
          (then_changes (then_changes unchanged (program_ends shown_first none refl)) (signalled _))
          (feed_ends _ refl refl))
        (returns_now _ none refl refl))
      refl

abbrev reported : Reported
reported = record {
  ssh = connected;
  containers = 1;
  discovery_error = [];
  tunnels = row (codes "k") (codes "web") true ∷ [];
}

-- The row has carried some bytes.
abbrev reported_later : Reported
reported_later = record reported {
  tunnels = record (row (codes "k") (codes "web") true) { total_conns = 1; bytes_in = 512 } ∷ [];
}

abbrev as_it_is : Bytes → Bytes
as_it_is s = s

run_plain-quiet_example :
    run_plain as_it_is (codes "127.0.0.1") ([] ++ reported ∷ reported_later ∷ [])
    ≡ run_plain as_it_is (codes "127.0.0.1") ([] ++ reported ∷ [])
run_plain-quiet_example =
    run_plain-quiet as_it_is (codes "127.0.0.1") [] reported (reported_later ∷ [])
      ((refl, refl, refl, (refl, tt)), tt)
