-- ===== src/Ui/View/Draw.antt =====
-- internal/ui/view.go: the lines of the dashboard, from the header to the footer.
use auto_tunnel.Prelude.{
  ℕ, suc, ◌+◌, ◌/◌, ◌^◌, Bool, not, ◌&&◌, ◌||◌, Option, none, some, List, [], ◌∷◌, ◌++◌, ltb, ◌==◌,
  if◌then◌else◌, length, drop, take,
}
use auto_tunnel.Prelude.Int.{pos, ◌-ℤ◌}
use auto_tunnel.Text.{join, Bytes, codes, is_empty}
use auto_tunnel.Text.Decimal.{format}
use auto_tunnel.State.{Tunnel, counts}
use auto_tunnel.Conn.{Status}
use auto_tunnel.Ui.{source_filter_name, sort_name, Model, selected, state_name}
use auto_tunnel.Ui.View.{
  on_off, Frame, Style, banner, banner_text, describe_filter, detail_width, dim, drawn_rows, header,
  is_connected, is_reconnecting, lifecycle_name, local_text, max_ℤ, next_scan_text, of_ssh,
  of_tunnel, pad_left, pad_right, part_if, remote_text, selected_row, short_duration, source_shown,
  source_text, title, truncate, unit_letter, unit_of, visible_row_count, window_end, window_start,
}

-- The texts " · " and "↑/↓" in UTF-8.
abbrev pub dot : Bytes
dot = b' ' ∷ 0xc2 ∷ 0xb7 ∷ b' ' ∷ []

abbrev pub up_down : Bytes
up_down = 0xe2 ∷ 0x86 ∷ 0x91 ∷ b'/' ∷ 0xe2 ∷ 0x86 ∷ 0x93 ∷ []

module _ (render : Style → Bytes → Bytes) (one_decimal : ℕ → ℕ → Bytes) (round_rtt : ℕ → Bytes)
    (quote : Bytes → Bytes) where
  unfoldable pub human_bytes : ℕ → Bytes
  unfolding unit_of unit_letter format
  human_bytes n =
      if ltb n 1024
      then format n ++ codes "B"
      else let e = unit_of 4 (n / 1024) 0 in
        one_decimal n (1024 ^ suc e) ++ (unit_letter e ++ codes "B")

  unfoldable pub ssh_text : Status → Bytes
  unfolding lifecycle_name is_connected is_reconnecting format
  ssh_text s =
      lifecycle_name s.state
      ++ ((if is_connected s.state && ltb 0 s.rtt then codes " " ++ round_rtt s.rtt else [])
          ++ (if is_reconnecting s.state && ltb 0 s.attempts
              then codes " (attempt " ++ (format s.attempts ++ codes ")")
              else []))

  unfoldable pub tunnel_counts : List Tunnel → Bytes
  unfolding counts format
  tunnel_counts ts =
      let c = counts ts in
      format (length ts)
      ++ (codes " tunnel(s): "
          ++ (format c.active
              ++ (codes " active, "
                  ++ (format c.listening
                      ++ (codes " idle, "
                          ++ (format c.degraded
                              ++ (codes " degraded, " ++ (format c.broken ++ codes " broken"))))))))

  unfoldable pub header_line : Frame → Model → Bytes
  unfolding join ssh_text short_duration next_scan_text tunnel_counts source_shown counts
  header_line f m = join (render dim (dot)) (
      (render title (codes "auto-tunnel")
        ∷ f.target
        ∷ (codes "ssh " ++ render (of_ssh f.ssh.state) (ssh_text f.ssh))
        ∷ (codes "up " ++ short_duration f.uptime)
        ∷ (codes "next scan " ++ next_scan_text f.next_scan)
        ∷ (format f.containers ++ codes " container(s)")
        ∷ tunnel_counts m.snap
        ∷ [])
      ++ (part_if (ltb 0 (counts m.snap).offered)
            (format (counts m.snap).offered ++ codes " available")
          ++ (part_if (not (is_empty (source_shown m))) (codes "showing " ++ source_shown m)
              ++ part_if m.only_on (codes "forwarded only"))))

  -- One row of the table, before it is styled.
  unfoldable pub row_line : Model → Tunnel → Bytes
  unfolding detail_width local_text source_text remote_text truncate pad_right pad_left human_bytes
      state_name
  row_line m t =
      let detail = detail_width m in
      join (codes " ") (
        pad_right 12 (state_name t.state)
        ∷ pad_right 6 (truncate (source_text t) (pos 6))
        ∷ pad_right 22 (truncate t.name (pos 22))
        ∷ pad_right detail (truncate t.image (pos detail))
        ∷ pad_right 12 (local_text t)
        ∷ pad_right 24 (truncate (remote_text t) (pos 24))
        ∷ pad_left 7 (format t.active_conns)
        ∷ pad_left 10 (human_bytes t.bytes_in)
        ∷ pad_left 10 (human_bytes t.bytes_out)
        ∷ [])

  unfoldable pub column_header : Model → Bytes
  unfolding detail_width pad_right pad_left join
  column_header m = join (codes " ") (
      pad_right 12 (codes "STATE")
      ∷ pad_right 6 (codes "SRC")
      ∷ pad_right 22 (codes "NAME")
      ∷ pad_right (detail_width m) (codes "DETAIL")
      ∷ pad_right 12 (codes "LOCAL")
      ∷ pad_right 24 (codes "REMOTE / URL")
      ∷ pad_left 7 (codes "CONNS")
      ∷ pad_left 10 (codes "IN")
      ∷ pad_left 10 (codes "OUT")
      ∷ [])

  -- The row of the cursor is styled as a whole, and of any other the first column.
  unfoldable pub styled_row : Model → Bool → Tunnel → Bytes
  unfolding row_line
  styled_row m under_cursor t =
      let line = row_line m t in
      if under_cursor
      then render selected_row line
      else render (of_tunnel t.state) (take 12 line) ++ drop 12 line

  -- The rows from the one of number `i` on, each with its line end.
  unfoldable pub styled_rows : Model → ℕ → List Tunnel → Bytes
  unfolding styled_row
  styled_rows m i [] = []
  styled_rows m i (t ∷ ts) = styled_row m (i == m.cursor) t ++ b'\n' ∷ styled_rows m (suc i) ts

  unfoldable pub showing_note : ℕ → ℕ → ℕ → Bytes
  unfolding format
  showing_note start end count =
      if ltb end count || ltb 0 start
      then render dim (
          codes "  showing "
          ++ (format (start + 1)
              ++ (codes "-" ++ (format end ++ (codes " of " ++ (format count ++ b'\n' ∷ []))))))
      else []

  -- What is said below the table of the row of the cursor.
  unfoldable pub row_notes : Model → Option Tunnel → Bytes
  unfolding truncate max_ℤ is_empty ◌-ℤ◌
  row_notes m none = []
  row_notes m (some row) =
      (if is_empty row.last_error
        then []
        else render dim (
            codes "  "
            ++ (row.name
                ++ (codes ": " ++ truncate row.last_error (max_ℤ (pos 20) (m.width -ℤ pos 6)))))
          ++ b'\n' ∷ [])
      ++ (if is_empty row.url
          then []
          else render dim
              (codes "  open: " ++ (row.url ++ (codes "  (o)   via " ++ row.remote_target)))
            ++ b'\n' ∷ [])

  unfoldable pub table : Frame → Model → Bytes
  unfolding column_header styled_rows showing_note row_notes visible_row_count window_start
      window_end drawn_rows selected describe_filter banner_text
  table f m =
      if length m.snap == 0
      then render dim (codes "  no forwardable ports discovered yet")
      else if length m.rows == 0
      then render dim (codes "  no tunnels match " ++ quote (describe_filter m))
      else let visible = visible_row_count (not (is_empty (banner_text f))) m in
        let start = window_start visible m.cursor in
        render header (column_header m)
        ++ b'\n'
          ∷ (styled_rows m start (drawn_rows visible m)
              ++ (showing_note start (window_end visible m.cursor (length m.rows)) (length m.rows)
                  ++ row_notes m (selected m)))

  unfoldable pub log_lines : Model → List Bytes → Bytes
  unfolding truncate max_ℤ ◌-ℤ◌
  log_lines m [] = []
  log_lines m (line ∷ lines) =
      render dim (codes "  " ++ truncate line (max_ℤ (pos 20) (m.width -ℤ pos 2)))
      ++ b'\n' ∷ log_lines m lines

  -- The lines are the last `log_height` of the log.
  unfoldable pub log_pane : Model → List Bytes → Bytes
  unfolding log_lines
  log_pane m [] = render dim (codes "  (no log output yet)")
  log_pane m (line ∷ lines) = render header (codes "LOG") ++ b'\n' ∷ log_lines m (line ∷ lines)

  unfoldable pub help_text : Model → Bytes
  unfolding on_off source_shown
  help_text m = join dot (
      (up_down ++ codes " select")
      ∷ codes "enter on/off"
      ∷ codes "o open"
      ∷ (codes "f forwarded (" ++ (on_off m.only_on ++ codes ")"))
      ∷ codes "a all shown"
      ∷ (codes "t source (" ++ (source_filter_name (source_shown m) ++ codes ")"))
      ∷ codes "p pause"
      ∷ codes "r rescan"
      ∷ (codes "s sort (" ++ (sort_name m.sort ++ codes ")"))
      ∷ codes "/ filter"
      ∷ codes "l log"
      ∷ codes "q quit"
      ∷ [])

  unfoldable pub footer : Model → Bytes
  unfolding help_text is_empty
  footer m =
      if m.editing
      then render title (codes "filter: ")
        ++ (m.filter ++ render dim (codes "   (enter to apply, esc to clear)"))
      else (if is_empty m.filter
          then []
          else render dim (codes "filter " ++ (quote m.filter ++ dot)))
        ++ (render dim (help_text m)
            ++ (if is_empty m.status then [] else render dim (codes "   " ++ m.status)))

  -- View
  unfoldable pub view : Frame → Model → List Bytes → Bytes
  unfolding header_line banner_text table log_pane is_empty
  view f m tail =
      header_line f m
      ++ b'\n'
        ∷ ((if is_empty (banner_text f) then [] else render banner (banner_text f) ++ b'\n' ∷ [])
            ++ b'\n'
              ∷ (table f m
                  ++ b'\n'
                    ∷ ((if m.show_log then log_pane m tail ++ b'\n' ∷ [] else []) ++ footer m)))
