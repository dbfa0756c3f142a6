-- ===== src/Tests/Polls.antt =====
-- A good poll, then one in which both passes fail, and a choice for several tunnels.
use auto_tunnel.Prelude.{◌≡◌, refl, true, false, ◌&&◌, [], ◌∷◌, ok, err}
use auto_tunnel.Text.{Bytes, codes}
use auto_tunnel.GoMap.{Map, lookup}
use auto_tunnel.Discovery.Types.{PortMap, static, key}
use auto_tunnel.Engine.{Answers, Engine, poll, member_key, known_key, set_enabled_all}
use auto_tunnel.Engine.Several.{choice_after, set_enabled_all-choices}
use auto_tunnel.Engine.Merge.{find_map}
use auto_tunnel.Engine.Valid.{polls, enables}
use auto_tunnel.Engine.History.{performs, first_row, poll-found}
use auto_tunnel.Tests.Samples.{web, dns, engine}

abbrev in_order : Map PortMap → Map PortMap
in_order wants = wants

abbrev api : PortMap
api = record web { source = static; owner = codes "api" }

abbrev all_failed : Answers
all_failed = record {
  connected = true;
  docker = err (codes "no docker");
  host = err (codes "no ss");
  ended_docker = false;
  ended_poll = false;
  ended_host = false;
}

abbrev remembers : Engine
remembers = record engine { static = api ∷ [] }

abbrev all_answered : Answers
all_answered = record all_failed {
  docker = ok (record { maps = web ∷ []; warnings = []; containers = 1 });
  host = ok (record { maps = dns ∷ []; warnings = []; containers = 0 });
}

-- A good poll, a choice, and then a poll whose passes fail.
poll-found_example :
    find_map
      (key web)
      (poll in_order all_failed
        (performs in_order (polls all_answered ∷ enables (key web) true ∷ []) remembers)).last_maps
    ≡ first_row (key web) (web ∷ []) (dns ∷ []) (api ∷ [])
poll-found_example =
    poll-found in_order (polls all_answered ∷ enables (key web) true ∷ []) all_failed remembers
      (key web) refl refl

set_enabled_all-choices_example :
    let r = set_enabled_all in_order (key web ∷ key dns ∷ []) true engine in
    ((j : Bytes)
      → lookup j r.0.selected
        ≡ choice_after true
            (member_key j (key web ∷ key dns ∷ []) && known_key j (web ∷ []))
            (lookup j []))
    × (r.1 ≡ 0 → r.0 ≡ engine)
set_enabled_all-choices_example =
    set_enabled_all-choices in_order (key web ∷ key dns ∷ []) true engine
