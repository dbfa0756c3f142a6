-- ===== src/Ui/Update.antt =====
-- internal/ui/model.go: Update with the dashboard's keys.
use auto_tunnel.Prelude.{
  ℕ, ◌+◌, ◌-◌, ◌%◌, Bool, true, false, not, ◌&&◌, ◌||◌, Option, none, some, List, [], ◌∷◌, ◌++◌,
  ltb, leb, if◌then◌else◌, length, take,
}
use auto_tunnel.Prelude.Int.{ℤ, pos, ltb_ℤ}
use auto_tunnel.Text.{Bytes, codes, eqb, is_empty}
use auto_tunnel.Text.Decimal.{format}
use auto_tunnel.State.{Tunnel}
use auto_tunnel.Ui.{
  Actions, Model, any_contains, at_source, contains, cursor_at, from_source, key_of, next_sort,
  or_first, selected, sort_name, sort_rows, source_filter_name, state_name,
}

unfoldable pub scope_name : Bool → Bytes
scope_name true = codes "forwarded only"
scope_name false = codes "everything discovered"

-- What the terminal library says of a key: its kind, the text typed, and its name.
pub data KeyType : Type 0 where
  key_esc key_enter key_backspace key_ctrl_c key_runes key_space key_other : KeyType

pub record KeyMsg : Type 0 where
  pub kind : KeyType
  pub runes : Bytes
  pub name : Bytes

pub data Msg : Type 0 where
  window_size : (width height : ℤ) → Msg
  snapshot : (rows : List Tunnel) → Msg
  key_press : (key : KeyMsg) → Msg
  other_msg : Msg

-- The cases of `handleKey`.
pub data Press : Type 0 where
  quit up down home end rescan pause toggle all open_row scope source sort log edit nothing : Press

abbrev press_names : List (Bytes × Press)
press_names =
    (codes "q", quit)
    ∷ (codes "ctrl+c", quit)
    ∷ (codes "esc", quit)
    ∷ (codes "up", up)
    ∷ (codes "k", up)
    ∷ (codes "down", down)
    ∷ (codes "j", down)
    ∷ (codes "home", home)
    ∷ (codes "g", home)
    ∷ (codes "end", end)
    ∷ (codes "G", end)
    ∷ (codes "r", rescan)
    ∷ (codes "p", pause)
    ∷ (codes "enter", toggle)
    ∷ (codes " ", toggle)
    ∷ (codes "a", all)
    ∷ (codes "o", open_row)
    ∷ (codes "f", scope)
    ∷ (codes "t", source)
    ∷ (codes "s", sort)
    ∷ (codes "l", log)
    ∷ (codes "/", edit)
    ∷ []

abbrev named_press : Bytes → List (Bytes × Press) → Press
named_press name [] = nothing
named_press name ((n, press) ∷ presses) =
    let rest = named_press name presses in if eqb n name then press else rest

unfoldable pub press_of : Bytes → Press
unfolding eqb
press_of name = named_press name press_names

-- `if msg.Width > 0`
unfoldable pub resized : ℤ → ℤ → ℤ
resized new old = if ltb_ℤ (pos 0) new then new else old

-- `on` of `toggleAllVisible`: some row is not enabled.
unfoldable pub some_off : List Tunnel → Bool
some_off [] = false
some_off (t ∷ ts) = not t.enabled || some_off ts

unfoldable pub keys_of : List Tunnel → List Bytes
keys_of [] = []
keys_of (t ∷ ts) = t.key ∷ keys_of ts

-- What the key of a paused row says.
unfoldable pub pause_text : Bytes → Bool → Bool → Bytes
pause_text name now false = name ++ codes " cannot be paused"
pause_text name true true = codes "paused " ++ name
pause_text name false true = codes "resumed " ++ name

unfoldable pub enabled_text : Tunnel → Bool → Bytes
enabled_text t false = t.name ++ codes " cannot be forwarded"
enabled_text t true = (if t.enabled then codes "stopped " else codes "forwarding ") ++ t.name

unfoldable pub open_text : Bytes → Option Bytes → Bytes
open_text url none = codes "opening " ++ url
open_text url (some failure) = codes "could not open " ++ (url ++ (codes ": " ++ failure))

-- strings.ToLower is the parameter `to_lower`.
module _ (to_lower : Bytes → Bytes) where
  unfoldable pub matches : Bytes → Tunnel → Bool
  unfolding is_empty contains state_name
  matches filter t =
      if is_empty filter
      then true
      else any_contains
          (to_lower t.name
            ∷ to_lower t.image
            ∷ to_lower t.remote_target
            ∷ to_lower (state_name t.state)
            ∷ to_lower t.source
            ∷ [])
          (to_lower filter)

  -- Whether a row of the snapshot is shown.
  unfoldable pub shown : Model → Tunnel → Bool
  unfolding from_source matches
  shown m t =
      if m.only_on && not t.enabled
      then false
      else from_source (at_source m.source) t && matches m.filter t

  unfoldable pub shown_rows : Model → List Tunnel → List Tunnel
  shown_rows m [] = []
  shown_rows m (t ∷ ts) = let rest = shown_rows m ts in if shown m t then t ∷ rest else rest

  -- The cursor after the rows have been replaced.
  unfoldable pub cursor_in : Bytes → List Tunnel → ℕ
  unfolding cursor_at
  cursor_in k rows =
      let c = or_first (cursor_at k rows) in if leb (length rows) c then length rows - 1 else c

  unfoldable pub refresh : Model → Model
  unfolding sort_rows shown_rows selected key_of cursor_in
  refresh m =
      let rows = sort_rows m.sort (shown_rows m m.snap) in
      record m { rows = rows; cursor = cursor_in (key_of (selected m)) rows }

  module _ {S : Type 0} (actions : Actions S) where
    unfoldable pub toggle_pause : Option Tunnel → S → Bytes × S
    unfolding pause_text
    toggle_pause none s = ([], s)
    toggle_pause (some t) s =
        let (after, now, known) = actions.toggle_pause t.key s in
        (pause_text t.name now known, after)

    unfoldable pub toggle_enabled : Option Tunnel → S → Bytes × S
    unfolding enabled_text
    toggle_enabled none s = ([], s)
    toggle_enabled (some t) s =
        let (after, known) = actions.set_enabled t.key (not t.enabled) s in
        (enabled_text t known, after)

    unfoldable pub toggle_all_visible : List Tunnel → S → Bytes × S
    unfolding some_off keys_of
    toggle_all_visible [] s = ([], s)
    toggle_all_visible (t ∷ ts) s =
        let on = some_off (t ∷ ts) in
        let keys = keys_of (t ∷ ts) in
        let (after, changed) = actions.set_enabled_all keys on s in
        (
          (if on then codes "forwarding" else codes "stopped")
              ++ (b' ' ∷ format changed
                  ++ (codes " of " ++ (format (length keys) ++ codes " shown"))),
          after,
        )

    unfoldable pub open_selected : Option Tunnel → S → Bytes × S
    unfolding open_text is_empty
    open_selected none s = ([], s)
    open_selected (some t) s =
        let (after, failure) = actions.open_url t.url s in
        if is_empty t.url
        then (t.name ++ codes " is not a web service", s)
        else (open_text t.url failure, after)

    abbrev with_status : Model → Bytes × S → Model × S × Bool
    with_status m (status, s) = (record m { status = status }, s, false)

    -- handleKey: the model, the engine, and whether the program ends.
    unfoldable pub press : Press → Model → S → Model × S × Bool
    unfolding toggle_pause toggle_enabled toggle_all_visible open_selected next_sort sort_name
        source_filter_name scope_name
    press quit m s = (m, s, true)
    press up m s = (record m { cursor = m.cursor - 1 }, s, false)
    press down m s = (
      record m { cursor = if ltb (m.cursor + 1) (length m.rows) then m.cursor + 1 else m.cursor },
      s,
      false,
    )
    press home m s = (record m { cursor = 0 }, s, false)
    press end m s = (record m { cursor = length m.rows - 1 }, s, false)
    press rescan m s = (record m { status = codes "rescanning" }, actions.rescan s, false)
    press pause m s = with_status m (toggle_pause (selected m) s)
    press toggle m s = with_status m (toggle_enabled (selected m) s)
    press all m s = with_status m (toggle_all_visible m.rows s)
    press open_row m s = with_status m (open_selected (selected m) s)
    press scope m s =
        let on = not m.only_on in
        (refresh (record m { only_on = on; status = codes "showing " ++ scope_name on }), s, false)
    press source m s =
        let i = (m.source + 1) % 4 in
        (
          refresh (record m {
            source = i;
            status = codes "showing " ++ source_filter_name (at_source i);
          }),
          s,
          false,
        )
    press sort m s =
        let mode = next_sort m.sort in
        (
          refresh (record m { sort = mode; status = codes "sorted by " ++ sort_name mode }),
          actions.save_prefs (sort_name mode) s,
          false,
        )
    press log m s = (record m { show_log = not m.show_log }, s, false)
    press edit m s = (record m { editing = true; filter = [] }, s, false)
    press nothing m s = (m, s, false)

    -- handleFilterKey. Backspace takes the last byte.
    unfoldable pub filter_key : KeyType → Bytes → Model → S → Model × S × Bool
    filter_key key_esc runes m s = (refresh (record m { editing = false; filter = [] }), s, false)
    filter_key key_enter runes m s = (refresh (record m { editing = false }), s, false)
    filter_key key_backspace runes m s =
        (refresh (record m { filter = take (length m.filter - 1) m.filter }), s, false)
    filter_key key_ctrl_c runes m s = (m, s, true)
    filter_key key_runes runes m s = (refresh (record m { filter = m.filter ++ runes }), s, false)
    filter_key key_space runes m s = (refresh (record m { filter = m.filter ++ runes }), s, false)
    filter_key key_other runes m s = (refresh m, s, false)

    unfoldable pub update : Msg → Model → S → Model × S × Bool
    unfolding filter_key press press_of resized
    update (window_size width height) m s =
        (record m { width = resized width m.width; height = resized height m.height }, s, false)
    update (snapshot rows) m s = (refresh (record m { snap = rows }), s, false)
    update (key_press key) m s =
        if m.editing then filter_key key.kind key.runes m s else press (press_of key.name) m s
    update other_msg m s = (m, s, false)
