-- ===== src/Ui.antt =====
-- internal/ui/model.go: the dashboard's model. The engine that its keys act on is the record
-- `Actions` over a state of the engine's own.
pub mod Update
pub mod Rows
pub mod Order
pub mod Table
pub mod Keys
pub mod View
use auto_tunnel.Prelude.{
  ℕ, suc, ◌+◌, ◌/◌, Bool, true, false, ◌||◌, Option, none, some, List, [], ◌∷◌, ltb, ◌==◌,
  if◌then◌else◌, get_elem?,
}
use auto_tunnel.Prelude.Int.{ℤ, pos, eqb_ℤ, ltb_ℤ}
use auto_tunnel.Prelude.Sort.{sort_by}
use auto_tunnel.Text.{Bytes, codes, eqb, ltb_bytes, is_empty, has_prefix}
use auto_tunnel.State.{
  TunnelState, listening, active, degraded, paused, error, unsupported, offered, Tunnel,
}

pub data SortMode : Type 0 where
  by_name by_local_port by_traffic by_remote : SortMode

-- sortMode.String
unfoldable pub sort_name : SortMode → Bytes
sort_name by_local_port = codes "local port"
sort_name by_traffic = codes "traffic"
sort_name by_remote = codes "remote/url"
sort_name by_name = codes "name"

abbrev first_named : Bytes → List SortMode → SortMode
first_named s [] = by_name
first_named s (mode ∷ modes) =
    let rest = first_named s modes in if eqb (sort_name mode) s then mode else rest

unfoldable pub parse_sort_mode : Bytes → SortMode
unfolding eqb sort_name
parse_sort_mode s = first_named s (by_name ∷ by_local_port ∷ by_traffic ∷ by_remote ∷ [])

-- `(m.sort + 1) % sortModes`
unfoldable pub next_sort : SortMode → SortMode
next_sort by_name = by_local_port
next_sort by_local_port = by_traffic
next_sort by_traffic = by_remote
next_sort by_remote = by_name

abbrev pub source_filters : List Bytes
source_filters = [] ∷ codes "docker" ∷ codes "host" ∷ codes "static" ∷ []

unfoldable pub source_filter_name : Bytes → Bytes
unfolding is_empty
source_filter_name s = if is_empty s then codes "all" else s

-- What the dashboard asks of the engine, whose state is an `S`.
pub record Actions (S : Type 0) : Type 0 where
  pub toggle_pause : Bytes → S → S × Bool × Bool
  pub set_enabled : Bytes → Bool → S → S × Bool
  pub set_enabled_all : List Bytes → Bool → S → S × ℕ
  pub open_url : Bytes → S → S × Option Bytes
  pub prefs : S → Bytes
  pub save_prefs : Bytes → S → S
  pub rescan : S → S

pub record Model : Type 0 where
  pub snap : List Tunnel
  pub rows : List Tunnel
  pub width : ℤ
  pub height : ℤ
  pub cursor : ℕ
  pub sort : SortMode
  pub filter : Bytes
  pub source : ℕ
  pub only_on : Bool
  pub editing : Bool
  pub show_log : Bool
  pub status : Bytes

unfoldable pub new_model : Bytes → Model
unfolding parse_sort_mode
new_model sort_pref = record {
  snap = [];
  rows = [];
  width = pos 100;
  height = pos 30;
  cursor = 0;
  sort = parse_sort_mode sort_pref;
  filter = [];
  source = 0;
  only_on = false;
  editing = false;
  show_log = false;
  status = [];
}

-- The highlighted row.
unfoldable pub selected : Model → Option Tunnel
selected m = get_elem? m.rows m.cursor

unfoldable pub remote_key : Tunnel → Bytes
unfolding is_empty
remote_key t = if is_empty t.url then t.remote_target else t.url

unfoldable pub from_source : Bytes → Tunnel → Bool
unfolding is_empty eqb
from_source source t =
    if is_empty source
    then true
    else if is_empty t.source
    then eqb source (codes "docker")
    else eqb t.source source

-- The strings of a row's state.
unfoldable pub state_name : TunnelState → Bytes
state_name listening = codes "LISTENING"
state_name active = codes "ACTIVE"
state_name degraded = codes "DEGRADED"
state_name paused = codes "PAUSED"
state_name error = codes "ERROR"
state_name unsupported = codes "UNSUPPORTED"
state_name offered = codes "AVAILABLE"

-- strings.Contains
unfoldable pub contains : Bytes → Bytes → Bool
unfolding has_prefix is_empty
contains [] needle = is_empty needle
contains (b ∷ bs) needle = has_prefix (b ∷ bs) needle || contains bs needle

abbrev pub any_contains : List Bytes → Bytes → Bool
any_contains [] needle = false
any_contains (hay ∷ hays) needle = contains hay needle || any_contains hays needle

-- The comparison of `sortRows`.
unfoldable pub name_less : Tunnel → Tunnel → Bool
unfolding eqb ltb_bytes
name_less a b =
    if eqb a.name b.name then ltb_ℤ a.container_port b.container_port else ltb_bytes a.name b.name

-- The sums of `BytesIn` and `BytesOut`, both an int64.
unfoldable pub traffic : Tunnel → ℕ
traffic t = t.bytes_in + t.bytes_out

unfoldable pub row_before : SortMode → Tunnel → Tunnel → Bool
unfolding name_less traffic remote_key eqb ltb_bytes
row_before by_local_port a b =
    if eqb_ℤ a.local_port b.local_port then name_less a b else ltb_ℤ a.local_port b.local_port
row_before by_traffic a b =
    if traffic a == traffic b then name_less a b else ltb (traffic b) (traffic a)
row_before by_remote a b =
    if eqb (remote_key a) (remote_key b)
    then name_less a b
    else ltb_bytes (remote_key a) (remote_key b)
row_before by_name a b = name_less a b

unfoldable pub sort_rows : SortMode → List Tunnel → List Tunnel
unfolding sort_by row_before
sort_rows mode = sort_by (row_before mode)

unfoldable pub key_of : Option Tunnel → Bytes
key_of none = []
key_of (some t) = t.key

abbrev pub next_row : Option ℕ → Option ℕ
next_row none = none
next_row (some i) = some (suc i)

-- The first row with the key.
unfoldable pub cursor_at : Bytes → List Tunnel → Option ℕ
unfolding eqb
cursor_at k [] = none
cursor_at k (t ∷ ts) = let rest = next_row (cursor_at k ts) in if eqb t.key k then some 0 else rest

abbrev pub or_first : Option ℕ → ℕ
or_first none = 0
or_first (some i) = i

abbrev pub at_source : ℕ → Bytes
at_source i = elim (get_elem? source_filters i) [ none ↦ [] | some s ↦ s ]
