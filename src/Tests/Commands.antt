-- ===== src/Tests/Commands.antt =====
-- Command lines and a report.
use auto_tunnel.Discovery.Static.{parse_forwards}
use auto_tunnel.Prelude.{◌≡◌, refl, Bool, true, false, some, List, [], ◌∷◌, Result, ok, err}
use auto_tunnel.Prelude.Int.{pos}
use auto_tunnel.Text.{is_empty, Bytes, codes, eqb}
use auto_tunnel.Discovery.Ports.Expand.{returns}
use auto_tunnel.Discovery.Host.{parse_host_mode, mode_enabled}
use auto_tunnel.Command.{
  compiles, with_mode, with_forwards, with_sources, with_host, Flags, nothing_to_forward,
  host_count, check_flags, peel, new_logger, refused,
}

abbrev flags : Flags
flags = record {
  interval = pos 5000000000;
  include = [];
  exclude = [];
  host_exclude = [];
  host_mode = codes "off";
  forwards = [];
  no_docker = true;
  show_version = false;
}

abbrev any_pattern : Bytes → Bool
any_pattern pattern = true

nothing_left : check_flags any_pattern flags (codes "host" ∷ []) ≡ returns (err nothing_to_forward)
unfolding check_flags with_host compiles is_empty with_mode parse_host_mode with_forwards
    parse_forwards with_sources mode_enabled
nothing_left = refl

two_hosts :
    check_flags any_pattern flags (codes "a" ∷ codes "b" ∷ []) ≡ returns (err (host_count 2))
unfolding check_flags with_host
two_hosts = refl

-- A parser that knows no flag.
abbrev no_flags : List Bytes → Flags → Result Bytes (Flags × List Bytes)
no_flags words f = ok (f, words)

both_peeled :
    peel no_flags 3 (codes "a" ∷ codes "b" ∷ []) flags []
    ≡ some (ok (flags, codes "a" ∷ codes "b" ∷ []))
unfolding peel
both_peeled = refl

dashboard_needs_file : new_logger false false (codes "-") ≡ refused
unfolding new_logger eqb
dashboard_needs_file = refl
