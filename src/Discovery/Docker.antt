-- ===== src/Discovery/Docker.antt =====
-- internal/discovery/docker.go: one line of `docker ps`, the ids that may reach a command, and the
-- addresses of the containers. The user's regular expressions are parameters.
pub mod Pass
pub mod Commands
pub mod Read
pub mod Rows
use auto_tunnel.Prelude.{
  ℕ, ◌+◌, Bool, true, false, not, ◌&&◌, ◌||◌, Option, none, some, List, [], ◌∷◌, ◌++◌, leb,
  if◌then◌else◌, length, Result, ok, err,
}
use auto_tunnel.Prelude.Int.{ℤ, pos, ltb_ℤ}
use auto_tunnel.Text.{Bytes, codes, eqb, ltb_bytes, is_empty, has_prefix, cut_first, split, fields}
use auto_tunnel.Text.Decimal.{is_digit}
use auto_tunnel.Sanitize.{sanitize}
use auto_tunnel.GoMap.{Map, insert}
use auto_tunnel.Discovery.Types.{PortSpec, PortSpec_published, PortMap, docker}
use auto_tunnel.Discovery.Ports.Expand.{Run, returns, never_returns}
use auto_tunnel.Discovery.Ports.Parse.{Warning, Parsed, parse_ports}
use auto_tunnel.Discovery.Static.{loopback}

pub record PsLine : Type 0 where
  pub id : Bytes
  pub names : Bytes
  pub image : Bytes
  pub ports : Bytes

pub record Options : Type 0 where
  pub ps_command : Bytes
  pub inspect_command : Bytes
  pub include : Option (Bytes → Bool)
  pub exclude : Option (Bytes → Bool)
  pub include_unpublished : Bool

abbrev pub default_ps_command : Bytes
default_ps_command = codes "docker ps --format '{{json .}}'"

abbrev pub default_inspect_command : Bytes
default_inspect_command =
    codes
      "docker inspect --format '{{.Id}} {{range .NetworkSettings.Networks}}{{.IPAddress}} {{end}}'"

-- New
unfoldable pub with_defaults : Options → Options
unfolding is_empty
with_defaults o = record o {
  ps_command = if is_empty o.ps_command then default_ps_command else o.ps_command;
  inspect_command =
      if is_empty o.inspect_command then default_inspect_command else o.inspect_command;
}

pub data DockerWarning : Type 0 where
  unparseable : (reason : Bytes) → DockerWarning
  in_column : (name : Bytes) (warning : Warning) → DockerWarning
  not_an_id : (shown : Bytes) → DockerWarning
  inspect_failed : (reason : Bytes) → DockerWarning
  no_container_ip : (name : Bytes) (port : ℤ) → DockerWarning

-- The fields of `Result` and the list `needIP`, while the lines are read.
pub record Seen : Type 0 where
  pub maps : List PortMap
  pub warnings : List DockerWarning
  pub containers : ℕ
  pub need_ip : List Bytes

unfoldable pub primary_name : Bytes → Bytes
unfolding cut_first
primary_name names = elim (cut_first b',' names) [ none ↦ names | some (first, rest) ↦ first ]

abbrev matched : Option (Bytes → Bool) → Bytes → Bool → Bool
matched none name otherwise = otherwise
matched (some test) name otherwise = test name

-- Discoverer.keep
unfoldable pub keep_name : Options → Bytes → Bool
keep_name o name = not (matched o.exclude name false) && matched o.include name true

unfoldable pub container_row : PsLine → Bytes → PortSpec → PortMap
unfolding PortSpec_published
container_row c name s = record {
  source = docker;
  owner = c.id;
  container_id = c.id;
  name = name;
  image = c.image;
  container_port = s.container_port;
  host_ip = s.host_ip;
  host_port = s.host_port;
  local_pref = pos 0;
  proto = s.proto;
  target_host = if PortSpec_published s then loopback else [];
  offered = false;
}

unfoldable pub add_spec : Options → PsLine → Bytes → PortSpec → Seen → Seen
add_spec o c name s seen =
    if PortSpec_published s
    then record seen { maps = seen.maps ++ container_row c name s ∷ [] }
    else if o.include_unpublished
    then record seen {
      maps = seen.maps ++ container_row c name s ∷ [];
      need_ip = seen.need_ip ++ c.id ∷ [];
    }
    else seen

unfoldable pub add_specs : Options → PsLine → Bytes → List PortSpec → Seen → Seen
unfolding add_spec
add_specs o c name [] seen = seen
add_specs o c name (s ∷ specs) seen = add_specs o c name specs (add_spec o c name s seen)

abbrev in_columns : Bytes → List Warning → List DockerWarning
in_columns name [] = []
in_columns name (w ∷ ws) = in_column name w ∷ in_columns name ws

unfoldable pub see_ports : Options → PsLine → Bytes → Run Parsed → Seen → Run Seen
unfolding add_specs
see_ports o c name never_returns seen = never_returns
see_ports o c name (returns p) seen = returns (
    add_specs o c name p.specs (record seen {
      containers = seen.containers + 1;
      warnings = seen.warnings ++ in_columns name p.warnings;
    }))

unfoldable pub see_container : Options → Result Bytes PsLine → Seen → Run Seen
unfolding see_ports keep_name primary_name
see_container o (err reason) seen =
    returns (record seen { warnings = seen.warnings ++ unparseable reason ∷ [] })
see_container o (ok c) seen =
    let name = primary_name c.names in
    if keep_name o name then see_ports o c name (parse_ports c.ports) seen else returns seen

-- The scanner takes no line of this length or more.
abbrev pub max_line : ℕ
max_line = 1048576

is_one_of : Bytes → List Bytes → Bool
unfolding eqb
is_one_of id [] = false
is_one_of id (j ∷ js) = eqb id j || is_one_of id js

-- dedupe, with the ids seen so far.
unfoldable pub dedupe_ids : List Bytes → List Bytes → List Bytes
unfolding is_one_of
dedupe_ids seen [] = []
dedupe_ids seen (id ∷ ids) =
    let known = dedupe_ids seen ids in
    let new = dedupe_ids (id ∷ seen) ids in if is_one_of id seen then known else id ∷ new

is_hex : ℕ → Bool
unfolding is_digit
is_hex c = is_digit c || leb b'a' c && leb c b'f'

all_hex : Bytes → Bool
unfolding is_hex
all_hex [] = true
all_hex (c ∷ s) = is_hex c && all_hex s

-- validContainerID
unfoldable pub is_container_id : Bytes → Bool
unfolding all_hex
is_container_id id = leb 6 (length id) && leb (length id) 64 && all_hex id

unfoldable pub filter_ids : List Bytes → List Bytes × List Bytes
unfolding is_container_id
filter_ids [] = ([], [])
filter_ids (id ∷ ids) =
    let (safe, rejected) = filter_ids ids in
    if is_container_id id then (id ∷ safe, rejected) else (safe, id ∷ rejected)

-- strings.Join with a space.
unfoldable pub join_words : List Bytes → Bytes
join_words [] = []
join_words (w ∷ []) = w
join_words (w ∷ v ∷ ws) = w ++ b' ' ∷ join_words (v ∷ ws)

unfoldable pub inspect_line : Options → List Bytes → Bytes
unfolding join_words
inspect_line o ids = o.inspect_command ++ b' ' ∷ join_words ids

unfoldable pub add_address : List Bytes → Map Bytes → Map Bytes
unfolding insert
add_address (id ∷ ip ∷ more) ips = insert id ip ips
add_address _ ips = ips

unfoldable pub addresses : List Bytes → Map Bytes → Map Bytes
unfolding add_address fields
addresses [] ips = ips
addresses (line ∷ lines) ips = addresses lines (add_address (fields line) ips)

-- The map and the warnings of `containerIPs`.
unfoldable pub read_addresses : Result Bytes Bytes → Map Bytes × List DockerWarning
unfolding addresses split
read_addresses (err reason) =
    ([], inspect_failed (codes "docker inspect for unpublished ports: " ++ reason) ∷ [])
read_addresses (ok out) = (addresses (split b'\n' out) [], [])

unfoldable pub first_prefixed : Bytes → Map Bytes → Bytes
unfolding has_prefix
first_prefixed id [] = []
first_prefixed id ((full, ip) ∷ ips) =
    let rest = first_prefixed id ips in if has_prefix full id then ip else rest

unfoldable pub bad_ids : List Bytes → List DockerWarning
unfolding sanitize
bad_ids [] = []
bad_ids (id ∷ ids) = not_an_id (sanitize id) ∷ bad_ids ids

unfoldable pub name_port_less : PortMap → PortMap → Bool
unfolding eqb ltb_bytes
name_port_less a b =
    if eqb a.name b.name then ltb_ℤ a.container_port b.container_port else ltb_bytes a.name b.name

unfoldable pub attach_one :
    PortMap → Bytes → List PortMap × List DockerWarning → List PortMap × List DockerWarning
unfolding is_empty
attach_one pm ip (maps, warnings) =
    if not (is_empty pm.target_host)
    then (pm ∷ maps, warnings)
    else if is_empty ip
    then (maps, no_container_ip pm.name pm.container_port ∷ warnings)
    else (record pm { target_host = ip } ∷ maps, warnings)
