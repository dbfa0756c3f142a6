-- ===== src/Discovery/Docker/Pass.antt =====
-- internal/discovery/docker.go: Discover, and the addresses of unpublished ports.
use auto_tunnel.Prelude.{
  none, some, List, [], ◌∷◌, ◌++◌, leb, if◌then◌else◌, length, Result, ok, err,
}
use auto_tunnel.Prelude.Sort.{sort_by}
use auto_tunnel.Text.{Bytes, codes, is_empty, split, trim_space}
use auto_tunnel.GoMap.{Map, lookup}
use auto_tunnel.Discovery.Types.{PortMap}
use auto_tunnel.Discovery.Ports.Expand.{Run, returns, never_returns}
use auto_tunnel.Discovery.Docker.{
  DockerWarning, Options, PsLine, Seen, attach_one, bad_ids, dedupe_ids, filter_ids, first_prefixed,
  inspect_line, max_line, name_port_less, read_addresses, see_container,
}

-- `visit` is the order in which a map is visited, `decode` reads a line, and `remote` runs a command.
module _ (visit : Map Bytes → Map Bytes) (decode : Bytes → Result Bytes PsLine)
    (remote : Bytes → Result Bytes Bytes) where
  unfoldable pub see_line : Options → Bytes → Seen → Run Seen
  unfolding see_container trim_space is_empty
  see_line o raw seen =
      let line = trim_space raw in
      if is_empty line then returns seen else see_container o (decode line) seen

  unfoldable pub scan_lines : Options → List Bytes → Seen → Run (Result Bytes Seen)
  unfolding see_line
  scan_lines o [] seen = returns (ok seen)
  scan_lines o (raw ∷ rest) seen =
      if leb max_line (length raw)
      then returns (err (codes "read docker ps output: bufio.Scanner: token too long"))
      else elim (see_line o raw seen) [
        | never_returns ↦ never_returns
        | returns next ↦ scan_lines o rest next
      ]

  unfoldable pub lookup_by_prefix : Map Bytes → Bytes → Bytes
  unfolding lookup first_prefixed
  lookup_by_prefix ips id = elim (lookup id ips) [
    | some ip ↦ ip
    | none ↦ first_prefixed id (visit ips)
  ]

  -- attachContainerIPs
  unfoldable pub attach : Map Bytes → List PortMap → List PortMap × List DockerWarning
  unfolding attach_one lookup_by_prefix
  attach ips [] = ([], [])
  attach ips (pm ∷ maps) = attach_one pm (lookup_by_prefix ips pm.container_id) (attach ips maps)

  -- The inspect command runs if there is an id to ask for.
  unfoldable pub container_ips : Options → List Bytes → Map Bytes × List DockerWarning
  unfolding read_addresses inspect_line
  container_ips o [] = ([], [])
  container_ips o (id ∷ ids) = read_addresses (remote (inspect_line o (id ∷ ids)))

  -- `if len(needIP) > 0`
  unfoldable pub resolve : Options → List Bytes → Seen → Seen
  unfolding filter_ids dedupe_ids attach bad_ids container_ips
  resolve o [] seen = seen
  resolve o (id ∷ need) seen =
      let (ids, rejected) = filter_ids (dedupe_ids [] (id ∷ need)) in
      let (ips, failed) = container_ips o ids in
      let (maps, missing) = attach ips seen.maps in
      record seen {
        maps = maps;
        warnings = seen.warnings ++ (bad_ids rejected ++ (failed ++ missing));
      }

  unfoldable pub sorted_rows : Seen → Seen
  unfolding sort_by name_port_less
  sorted_rows seen = record seen { maps = sort_by name_port_less seen.maps }

  unfoldable pub finish : Options → Run (Result Bytes Seen) → Run (Result Bytes Seen)
  unfolding resolve sorted_rows
  finish o never_returns = never_returns
  finish o (returns (err message)) = returns (err message)
  finish o (returns (ok seen)) = returns (ok (sorted_rows (resolve o seen.need_ip seen)))

  unfoldable pub discover_answer : Options → Result Bytes Bytes → Run (Result Bytes Seen)
  unfolding finish scan_lines split
  discover_answer o (err message) = returns (err (codes "docker discovery: " ++ message))
  discover_answer o (ok out) = finish o (
      scan_lines o (split b'\n' out)
        (record { maps = []; warnings = []; containers = 0; need_ip = [] }))

  -- Discoverer.Discover
  unfoldable pub discover : Options → Run (Result Bytes Seen)
  unfolding discover_answer
  discover o = discover_answer o (remote o.ps_command)
