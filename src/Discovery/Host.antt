-- ===== src/Discovery/Host.antt =====
-- internal/discovery/hostports.go: the TCP sockets that the remote host itself listens on. What the
-- remote command prints is an input; a regular expression of the user's is its test on texts.
pub mod Listeners
pub mod Rows
use auto_tunnel.Prelude.{
  ℕ, ◌+◌, ◌-◌, ◌*◌, ◌/◌, ◌≡◌, refl, Bool, true, false, not, ◌&&◌, ◌||◌, Option, none, some, List,
  [], ◌∷◌, ◌++◌, leb, ◌==◌, if◌then◌else◌, length, get_elem?, drop, Result, ok, err,
}
use auto_tunnel.Prelude.Int.{ℤ, pos, leb_ℤ, ltb_ℤ, eqb_ℤ}
use auto_tunnel.Prelude.Sort.{sort_by}
use auto_tunnel.Text.{
  Bytes, codes, eqb, is_empty, has_prefix, cut_last, split, trim_space, trim_brackets, fields, span,
}
use auto_tunnel.Text.Decimal.{itoa, is_digit, NumError, atoi}
use auto_tunnel.Discovery.Types.{PortMap, host, proto_tcp}
use auto_tunnel.Discovery.Static.{loopback}

-- `unset` is the zero value "".
pub data HostMode : Type 0 where
  unset off select all_ports : HostMode

unfoldable pub parse_host_mode : Bytes → Option HostMode
unfolding eqb
parse_host_mode s =
    if eqb s (codes "off")
    then some off
    else if eqb s (codes "select")
    then some select
    else if eqb s (codes "all")
    then some all_ports
    else none

-- HostMode.Enabled
unfoldable pub mode_enabled : HostMode → Bool
mode_enabled off = false
mode_enabled _ = true

-- HostMode.Offered
unfoldable pub mode_offered : HostMode → Bool
mode_offered all_ports = false
mode_offered _ = true

pub record Listener : Type 0 where
  pub addr : Bytes
  pub port : ℤ
  pub proc : Bytes

pub data AddrError : Type 0 where
  no_port bad_port : AddrError
  out_of_range : ℤ → AddrError

unfoldable pub check_port : Bytes → Result NumError ℤ → Result AddrError (Bytes × ℤ)
unfolding trim_brackets
check_port before (err e) = err bad_port
check_port before (ok port) =
    if leb_ℤ port (pos 0) || ltb_ℤ (pos 65535) port
    then err (out_of_range port)
    else ok (trim_brackets before, port)

unfoldable pub split_cut : Option (Bytes × Bytes) → Result AddrError (Bytes × ℤ)
unfolding check_port
split_cut none = err no_port
split_cut (some (before, after)) = check_port before (atoi after)

-- splitAddrPort
unfoldable pub split_addr_port : Bytes → Result AddrError (Bytes × ℤ)
unfolding split_cut
split_addr_port s = split_cut (cut_last b':' s)

unfoldable pub dial_host : Bytes → Bytes
unfolding eqb is_empty
dial_host addr =
    if is_empty addr || eqb addr (codes "*") || eqb addr (codes "0.0.0.0") || eqb addr (codes "::")
    then loopback
    else addr

not_quote : ℕ → Bool
not_quote c = not (c == b'"')

-- `[^"]+"`, where the first quote is the one that ends it.
quoted : Bytes × Bytes → Option Bytes
unfolding is_empty
quoted (name, []) = none
quoted (name, q ∷ rest) = if is_empty name then none else some name

-- `ssProcRe`: the leftmost place that matches.
unfoldable pub ss_proc : Bytes → Option Bytes
unfolding not_quote quoted span has_prefix
ss_proc [] = none
ss_proc (c ∷ s) =
    let later = ss_proc s in
    if has_prefix (c ∷ s) (codes "(\"")
    then elim (quoted (span not_quote (drop 1 s))) [ none ↦ later | some name ↦ some name ]
    else later

-- `netstatProcRe`
unfoldable pub netstat_proc : Bytes → Option Bytes
unfolding span is_digit is_empty
netstat_proc s =
    let (digits, rest) = span is_digit s in
    if not (is_empty digits) && has_prefix rest (codes "/") && not (is_empty (drop 1 rest))
    then some (drop 1 rest)
    else none

-- A submatch that is not there leaves the name empty.
abbrev or_unnamed : Option Bytes → Bytes
or_unnamed none = []
or_unnamed (some name) = name

-- `fields[i]`, for an `i` that the code has tested.
abbrev field : ℕ → List Bytes → Bytes
field i fs = or_unnamed (get_elem? fs i)

-- The switch over the two layouts: the local address and the process, if the row is a listener.
unfoldable pub listening_row : Bytes → List Bytes → Option (Bytes × Bytes)
unfolding eqb has_prefix ss_proc netstat_proc
listening_row line fs =
    if eqb (field 0 fs) (codes "LISTEN") && leb 4 (length fs)
    then some (field 3 fs, or_unnamed (ss_proc line))
    else if has_prefix (field 0 fs) (codes "tcp")
        && leb 6 (length fs)
        && eqb (field 5 fs) (codes "LISTEN")
    then some
        (field 3 fs, (if leb 7 (length fs) then or_unnamed (netstat_proc (field 6 fs)) else []))
    else none

abbrev pub named : Listener → Bytes → Listener
named l proc = if is_empty l.proc then record l { proc = proc } else l

-- The closure `add`.
unfoldable pub add_listener : Listener → List Listener → List Listener
unfolding is_empty
add_listener l [] = l ∷ []
add_listener l (m ∷ ms) =
    let rest = add_listener l ms in if eqb_ℤ m.port l.port then named m l.proc ∷ ms else m ∷ rest

pub record Heard : Type 0 where
  pub listeners : List Listener
  pub warnings : List (Bytes × AddrError)

unfoldable pub hear_at : Bytes → Bytes → Result AddrError (Bytes × ℤ) → Heard → Heard
hear_at address proc (err e) h = record h { warnings = h.warnings ++ (address, e) ∷ [] }
hear_at address proc (ok (addr, port)) h = record h {
  listeners = add_listener (record { addr = addr; port = port; proc = proc }) h.listeners;
}

unfoldable pub hear_row : Option (Bytes × Bytes) → Heard → Heard
unfolding hear_at
hear_row none h = h
hear_row (some (address, proc)) h = hear_at address proc (split_addr_port address) h

-- One line of the output.
unfoldable pub hear : Bytes → Heard → Heard
unfolding is_empty trim_space hear_row listening_row fields
hear raw h =
    let line = trim_space raw in
    if is_empty line then h else hear_row (listening_row line (fields line)) h

unfoldable pub hear_all : List Bytes → Heard → Heard
unfolding hear
hear_all [] h = h
hear_all (raw ∷ rest) h = hear_all rest (hear raw h)

unfoldable pub port_less : Listener → Listener → Bool
port_less a b = ltb_ℤ a.port b.port

-- ParseListeners
unfoldable pub parse_listeners : Bytes → Heard
unfolding hear_all split sort_by port_less
parse_listeners out =
    let h = hear_all (split b'\n' out) (record { listeners = []; warnings = [] }) in
    record h { listeners = sort_by port_less h.listeners }

pub record HostOptions : Type 0 where
  pub exclude : Option (Bytes → Bool)
  pub skip_ports : ℤ → Bool
  pub offered : Bool

unfoldable pub listener_name : Listener → Bytes
unfolding is_empty itoa
listener_name l = if is_empty l.proc then codes "port " ++ itoa l.port else l.proc

unfoldable pub excluded : Option (Bytes → Bool) → Listener → Bool
unfolding listener_name itoa
excluded none l = false
excluded (some matches) l = matches (listener_name l) || matches (itoa l.port)

unfoldable pub host_row : Bool → Listener → PortMap
unfolding listener_name dial_host
host_row listed l = record {
  source = host;
  owner = codes "host";
  container_id = [];
  name = listener_name l;
  image = l.addr;
  container_port = l.port;
  host_ip = l.addr;
  host_port = l.port;
  local_pref = pos 0;
  proto = proto_tcp;
  target_host = dial_host l.addr;
  offered = listed;
}

unfoldable pub listed_rows : HostOptions → List Listener → List PortMap
unfolding excluded host_row
listed_rows o [] = []
listed_rows o (l ∷ ls) =
    let rest = listed_rows o ls in
    if o.skip_ports l.port || excluded o.exclude l then rest else host_row o.offered l ∷ rest

-- HostDiscoverer.Discover on what the command answered.
unfoldable pub discover_host :
    HostOptions → Result Bytes Bytes → Result Bytes (List PortMap × List (Bytes × AddrError))
unfolding listed_rows parse_listeners
discover_host o (err message) = err (codes "host port discovery: " ++ message)
discover_host o (ok out) = let h = parse_listeners out in ok (listed_rows o h.listeners, h.warnings)

-- The two layouts, with the sockets of one service in two rows.
both_layouts :
    parse_listeners (
      codes
        "LISTEN 0 511 *:80 *:* users:((\"nginx\",pid=7,fd=6))\ntcp6 0 0 :::80 :::* LISTEN -\ntcp 0 0 127.0.0.1:22 0.0.0.0:* LISTEN 1/sshd\nState x\n")
    ≡ record {
      listeners =
          record { addr = codes "127.0.0.1"; port = pos 22; proc = codes "sshd" }
          ∷ record { addr = codes "*"; port = pos 80; proc = codes "nginx" }
          ∷ [];
      warnings = [];
    }
unfolding parse_listeners split_addr_port cut_last atoi add_listener
both_layouts = refl
