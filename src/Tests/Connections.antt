-- ===== src/Tests/Connections.antt =====
-- The connection and the log.
use auto_tunnel.Prelude.{◌≡◌, refl, some, List, [], ◌∷◌, arith}
use auto_tunnel.Prelude.Int.{pos}
use auto_tunnel.Text.{codes}
use auto_tunnel.Conn.{
  Runner, Event, wait_over, dial_failed, dial_worked, monitoring, connected, default_timings,
  start_run, step, run, set_connected, record_failure, close_channel, wait_ready,
}
use auto_tunnel.Conn.Run.{During, run-During}
use auto_tunnel.Conn.Ready.{Answered, wait_ready-Answered}
use auto_tunnel.Logbuf.{new_buffer, add_all, last_lines, add_all-last}

abbrev second_try : List Event
second_try = dial_failed (codes "refused") ∷ wait_over ∷ dial_worked 7 ∷ []

abbrev live : Runner
live = record {
  timings = default_timings;
  conn = record {
    client = some 7;
    status = record { state = connected; rtt = 0; last_error = []; attempts = 0; generation = 1 };
    ready = 0;
    open_channels = [];
  };
  phase = monitoring 0;
}

live_run : run second_try (some (start_run default_timings)) ≡ some live
unfolding run step start_run record_failure set_connected close_channel
live_run = refl

run-During_example : During default_timings (monitoring 0) live.conn
run-During_example = run-During default_timings second_try live (omega arith) live_run

wait_ready-Answered_example : Answered (monitoring 0) live.conn (wait_ready live.conn)
wait_ready-Answered_example =
    wait_ready-Answered default_timings second_try live (omega arith) live_run

add_all-last_example :
    let b = new_buffer (pos 2) in
    (add_all (codes "a" ∷ codes "b" ∷ codes "c" ∷ []) b).lines
    ≡ last_lines b.max_lines (codes "a" ∷ codes "b" ∷ codes "c" ∷ [])
add_all-last_example = add_all-last (pos 2) (codes "a" ∷ codes "b" ∷ codes "c" ∷ [])
