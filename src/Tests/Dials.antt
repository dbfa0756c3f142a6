-- ===== src/Tests/Dials.antt =====
-- A target with a jump host, on a machine with three keys.
use auto_tunnel.Prelude.{
  ◌≡◌, refl, false, ◌&&◌, some, List, [], ◌∷◌, ◌++◌, arith, if◌then◌else◌, ok, err,
}
use auto_tunnel.Prelude.Int.{pos}
use auto_tunnel.Text.{Bytes, codes, eqb, is_empty, trim_space, has_prefix, cut_last, cut_first}
use auto_tunnel.Text.Decimal.{atoi, itoa}
use auto_tunnel.Discovery.Types.{join_host_port}
use auto_tunnel.Dial.Target.{
  Machine, Target, addr, show_target, expand_tilde, file_exists, append_unique, split_user,
  count_byte, with_port, read_cut, read_address, or_else, or_port, config_port, add_config_files,
  add_default_files, some_user, fill, resolve_alias, resolve_target,
}
use auto_tunnel.Dial.Target.Spelling.{IsSpelled, resolve_target-show_target}
use auto_tunnel.Dial.Target.Resolved.{IsResolved, resolve_target-IsResolved}
use auto_tunnel.Dial.HostKey.{
  Verdict, trusted, unknown_host, not_in_known_hosts, existing, open_known_hosts, keyscan_hint,
  note_text, default_port_note, plain_host, split_host_port, name_parts, explain, check_host_key,
}
use auto_tunnel.Dial.HostKey.Advice.{advised, check_host_key-addr}
use auto_tunnel.Dial.Connect.{
  World, agent_opened, opened, closed, session, hop, Outcome, no_handshake, agent_answer,
  agent_methods, disk_methods, some_methods, auth_methods, with_methods, config_with, client_config,
  dialled, shaken, hopped, jumped, after_jump, dial_jump, dial_configured, dial_body, dial,
}
use auto_tunnel.Dial.Connect.Ends.{dial-enough}
use auto_tunnel.Dial.Connect.Leaves.{LeavesOpen, dial-LeavesOpen}

abbrev config : Bytes → Bytes → Bytes
config alias field =
    if eqb alias (codes "db") && eqb field (codes "ProxyJump") then codes "me@bastion" else []

abbrev machine : Machine
machine = record {
  get = config;
  get_all = λ alias field. codes "~/db_key" ∷ [];
  current_user = ok (codes "me");
  home = some (codes "/home/me");
  join = λ a b. a ++ b;
  stat_dir = λ path. some false;
}

abbrev keys : List Bytes
keys =
    codes "/home/me/db_key"
    ∷ codes "/home/me/.ssh/id_ed25519"
    ∷ codes "/home/me/.ssh/id_ecdsa"
    ∷ codes "/home/me/.ssh/id_rsa"
    ∷ []

abbrev spelled : Target
spelled = record {
  spec = [];
  alias = [];
  user = codes "deploy";
  host = codes "fe80::1";
  port = pos 2222;
  identity_files = [];
  proxy_jump = [];
}

spelled-IsSpelled : IsSpelled spelled
spelled-IsSpelled = record {
  user = λ e. cc;
  host = λ e. cc;
  no_at = ground arith;
  no_open = ground arith;
  no_close = ground arith;
  port = λ e. ground arith;
  int = omega arith;
}

resolve_target-show_target_example :
    (r : Target) × (resolve_target machine (show_target spelled) ≡ ok r)
    × (r.user ≡ codes "deploy")
    × (r.alias ≡ codes "fe80::1")
    × (r.port ≡ pos 2222)
    × (r.host ≡ or_else (config (codes "fe80::1") (codes "HostName")) (codes "fe80::1"))
resolve_target-show_target_example = resolve_target-show_target machine spelled spelled-IsSpelled

abbrev db : Target
db = record {
  spec = codes "db:2222";
  alias = codes "db";
  user = codes "me";
  host = codes "db";
  port = pos 2222;
  identity_files = keys;
  proxy_jump = codes "me@bastion";
}

db_resolved : resolve_target machine (codes "db:2222") ≡ ok db
unfolding resolve_target is_empty trim_space read_address has_prefix split_user cut_last count_byte
    read_cut cut_first with_port atoi resolve_alias some_user or_else eqb fill or_port
    add_default_files add_config_files config_port append_unique file_exists expand_tilde
db_resolved = refl

resolve_target-IsResolved_example : IsResolved machine (codes "db:2222") db
resolve_target-IsResolved_example =
    resolve_target-IsResolved machine (codes "db:2222") db (λ e. cc) db_resolved

abbrev bastion : Target
bastion = record {
  spec = codes "me@bastion";
  alias = codes "bastion";
  user = codes "me";
  host = codes "bastion";
  port = pos 22;
  identity_files = keys;
  proxy_jump = [];
}

-- The agent has two keys, and the handshake with the target fails.
abbrev world : World
world = record {
  machine = machine;
  agent_socket = codes "/run/agent";
  ask_agent = λ socket. some (ok 2);
  read_known_hosts = λ files. ok tt;
  ssh_dial = λ to config. ok tt;
  dial_through = λ via to. ok tt;
  handshake = λ via to config. err (codes "timeout");
}

dial-enough_example :
    (o : Outcome) × (dial 5 world (pos 0) db ≡ some o) × (dial 2 world (pos 0) db ≡ some o)
dial-enough_example = dial-enough 3 world (pos 0) db

abbrev failed : Outcome
failed = record {
  log =
      agent_opened
      ∷ agent_opened
      ∷ opened (session (addr bastion))
      ∷ opened (hop (addr db))
      ∷ closed (hop (addr db))
      ∷ closed (session (addr bastion))
      ∷ [];
  result = err (no_handshake (addr db) bastion (codes "timeout"));
}

handshake_fails : dial 2 world (pos 0) db ≡ some failed
unfolding resolve_target is_empty trim_space read_address has_prefix split_user cut_last count_byte
    read_cut cut_first with_port atoi resolve_alias some_user or_else eqb fill or_port
    add_default_files add_config_files config_port append_unique file_exists expand_tilde addr
    join_host_port itoa dial dial_body client_config config_with open_known_hosts existing
    auth_methods agent_methods agent_answer some_methods disk_methods with_methods dial_configured
    dial_jump after_jump jumped hopped shaken dialled
handshake_fails = refl

dial-LeavesOpen_example : LeavesOpen db failed.log failed.result
dial-LeavesOpen_example = dial-LeavesOpen 2 world (pos 0) db failed handshake_fails

-- A key that is known under port 22 only.
abbrev known_on_22 : Bytes → Verdict
known_on_22 name = if eqb name (codes "db:22") then trusted else unknown_host

other_port_noted :
    check_host_key known_on_22 (codes "db:2222")
    ≡ some (
        not_in_known_hosts
          (codes "db:2222")
          (codes
            "; this exact key is already trusted for db on port 22, but known_hosts entries are port-qualified, so port 2222 needs its own [db]:2222 entry")
          (codes "ssh-keyscan -H -p 2222 db >> ~/.ssh/known_hosts"))
unfolding check_host_key explain name_parts split_host_port plain_host default_port_note note_text
    keyscan_hint eqb cut_last join_host_port is_empty
other_port_noted = refl

check_host_key-addr_example :
    check_host_key known_on_22 (addr db) ≡ advised known_on_22 db (known_on_22 (addr db))
check_host_key-addr_example =
    check_host_key-addr known_on_22 db (omega arith, (omega arith, tt))
      (omega arith, (omega arith, tt)) (omega arith)
