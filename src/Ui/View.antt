-- ===== src/Ui/View.antt =====
-- internal/ui/view.go: what the dashboard draws. The styles of the package lipgloss, the text of a float
-- with one decimal, strconv.Quote and the passing of time are parameters.
pub mod Draw
pub mod Window
use auto_tunnel.Prelude.{
  ℕ, zero, suc, ◌+◌, ◌-◌, ◌/◌, ◌%◌, min, max, Bool, true, false, not, ◌&&◌, Option, none, some,
  List, [], ◌∷◌, ◌++◌, ltb, leb, if◌then◌else◌, length, get_elem?, drop, take,
}
use auto_tunnel.Prelude.Int.{ℤ, pos, negsuc, ◌-ℤ◌, leb_ℤ, eqb_ℤ, pos_part}
use auto_tunnel.Text.{join, Bytes, codes, is_empty}
use auto_tunnel.Text.Decimal.{format, itoa}
use auto_tunnel.Sanitize.{runes}
use auto_tunnel.State.{Tunnel, TunnelState}
use auto_tunnel.Conn.{Status, Lifecycle, connecting, connected, reconnecting, closed}
use auto_tunnel.Ui.{Model, source_filters}

-- The snapshot's other fields, with times from now: how long ago the engine started, and when the next
-- scan is, if that is known.
pub record Frame : Type 0 where
  pub target : Bytes
  pub ssh : Status
  pub containers : ℕ
  pub discovery_error : Bytes
  pub uptime : ℤ
  pub next_scan : Option ℤ

pub data Style : Type 0 where
  title dim header selected_row banner : Style
  of_tunnel : TunnelState → Style
  of_ssh : Lifecycle → Style

unfoldable pub lifecycle_name : Lifecycle → Bytes
lifecycle_name connecting = codes "connecting"
lifecycle_name connected = codes "connected"
lifecycle_name reconnecting = codes "reconnecting"
lifecycle_name closed = codes "closed"

unfoldable pub max_ℤ : ℤ → ℤ → ℤ
max_ℤ a b = if leb_ℤ a b then b else a

unfoldable pub min_ℤ : ℤ → ℤ → ℤ
min_ℤ a b = if leb_ℤ a b then a else b

unfoldable pub clamp : ℤ → ℤ → ℤ → ℤ
unfolding max_ℤ min_ℤ
clamp v lo hi = max_ℤ lo (min_ℤ hi v)

-- `/` of Go, towards 0.
unfoldable pub quarter : ℤ → ℤ
quarter (pos n) = pos (n / 4)
quarter (negsuc n) = pos 0 -ℤ pos ((n + 1) / 4)

-- Between 3 and 12.
unfoldable pub log_height : Model → ℕ
unfolding clamp quarter
log_height m = pos_part (clamp (quarter m.height) (pos 3) (pos 12))

-- The lines besides the rows: 6, one for a banner, and those of the log.
unfoldable pub chrome : Bool → Model → ℕ
unfolding log_height
chrome has_banner m =
    6 + (if has_banner then 1 else 0) + (if m.show_log then log_height m + 1 else 0)

unfoldable pub visible_row_count : Bool → Model → ℕ
unfolding chrome ◌-ℤ◌
visible_row_count has_banner m = max 1 (pos_part (m.height -ℤ pos (chrome has_banner m)))

-- `start` and `end` of `table`.
unfoldable pub window_start : ℕ → ℕ → ℕ
window_start visible cursor = if leb visible cursor then cursor - visible + 1 else 0

unfoldable pub window_end : ℕ → ℕ → ℕ → ℕ
unfolding window_start
window_end visible cursor count = min count (window_start visible cursor + visible)

-- The rows that the loop draws.
unfoldable pub drawn_rows : ℕ → Model → List Tunnel
unfolding window_start window_end
drawn_rows visible m =
    let start = window_start visible m.cursor in
    take (window_end visible m.cursor (length m.rows) - start) (drop start m.rows)

-- The text "…" in UTF-8.
abbrev pub ellipsis : Bytes
ellipsis = 0xe2 ∷ 0x80 ∷ 0xa6 ∷ []

unfoldable pub truncate : Bytes → ℤ → Bytes
unfolding ◌-ℤ◌
truncate s width =
    if leb_ℤ width (pos 0)
    then []
    else if leb_ℤ (pos (length s)) width
    then s
    else if eqb_ℤ width (pos 1)
    then ellipsis
    else take (pos_part (width -ℤ pos 1)) s ++ ellipsis

abbrev spaces : ℕ → Bytes
spaces zero = []
spaces (suc n) = b' ' ∷ spaces n

-- The verbs %-*s and %*s, which count runes.
unfoldable pub pad_right : ℕ → Bytes → Bytes
unfolding runes
pad_right width s = s ++ spaces (width - length (runes s))

unfoldable pub pad_left : ℕ → Bytes → Bytes
unfolding runes
pad_left width s = spaces (width - length (runes s)) ++ s

abbrev pub nanoseconds : ℕ
nanoseconds = 1000000000

unfoldable pub short_duration : ℤ → Bytes
unfolding format
short_duration d =
    let s = pos_part d / nanoseconds in
    if ltb s 60
    then format s ++ codes "s"
    else if ltb s 3600
    then format (s / 60) ++ codes "m"
    else format (s / 3600) ++ (codes "h" ++ (format (s / 60 % 60) ++ codes "m"))

unfoldable pub next_scan_text : Option ℤ → Bytes
unfolding short_duration
next_scan_text none = codes "-"
next_scan_text (some d) = if leb_ℤ d (pos 0) then codes "now" else short_duration d

unfoldable pub on_off : Bool → Bytes
on_off on = if on then codes "on" else codes "off"

abbrev pub part_if : Bool → Bytes → List Bytes
part_if test part = if test then part ∷ [] else []

-- `sourceFilters[m.source]`, where the index is in range.
unfoldable pub source_shown : Model → Bytes
source_shown m = elim (get_elem? source_filters m.source) [ none ↦ [] | some s ↦ s ]

unfoldable pub describe_filter : Model → Bytes
unfolding join source_shown is_empty
describe_filter m = join (codes " ") (
    part_if m.only_on (codes "forwarded")
    ++ (part_if (not (is_empty (source_shown m))) (source_shown m)
        ++ part_if (not (is_empty m.filter)) m.filter))

-- `detailW`
unfoldable pub detail_width : Model → ℕ
unfolding clamp ◌-ℤ◌
detail_width m = pos_part (clamp (m.width -ℤ pos 112) (pos 10) (pos 34))

unfoldable pub local_text : Tunnel → Bytes
unfolding itoa
local_text t = if eqb_ℤ t.local_port (pos 0) then codes "-" else itoa t.local_port

unfoldable pub source_text : Tunnel → Bytes
unfolding is_empty
source_text t = if is_empty t.source then codes "docker" else t.source

unfoldable pub remote_text : Tunnel → Bytes
unfolding is_empty
remote_text t = if is_empty t.url then t.remote_target else t.url

unfoldable pub is_connected : Lifecycle → Bool
is_connected connected = true
is_connected _ = false

unfoldable pub is_reconnecting : Lifecycle → Bool
is_reconnecting reconnecting = true
is_reconnecting _ = false

-- The text of `banner`, before it is styled.
unfoldable pub banner_text : Frame → Bytes
unfolding is_empty is_connected
banner_text f =
    if not (is_empty f.discovery_error)
    then codes "docker discovery failing: " ++ f.discovery_error
    else if not (is_connected f.ssh.state) && not (is_empty f.ssh.last_error)
    then codes "ssh: " ++ f.ssh.last_error
    else []

-- The exponent of `humanBytes`, and the value left below it: at most four rounds.
unfoldable pub unit_of : ℕ → ℕ → ℕ → ℕ
unit_of zero v e = e
unit_of (suc rounds) v e =
    let more = unit_of rounds (v / 1024) (suc e) in if leb 1024 v then more else e

-- `"KMGTP"[exp]`
unfoldable pub unit_letter : ℕ → Bytes
unit_letter e = elim (get_elem? (codes "KMGTP") e) [ none ↦ [] | some letter ↦ letter ∷ [] ]
