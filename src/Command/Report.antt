-- ===== src/Command/Report.antt =====
-- main.go: the plain report of -no-tui. What strings.ToUpper makes of a protocol is a parameter.
use auto_tunnel.Prelude.{ℕ, ◌-◌, not, List, [], ◌∷◌, ◌++◌, leb, if◌then◌else◌, length, take}
use auto_tunnel.Prelude.Int.{pos, eqb_ℤ}
use auto_tunnel.Text.{Bytes, codes, is_empty}
use auto_tunnel.Text.Decimal.{format, itoa}
use auto_tunnel.Discovery.Types.{join_host_port}
use auto_tunnel.State.{Tunnel, TunnelState, unsupported, error, offered}
use auto_tunnel.Conn.{Lifecycle}
use auto_tunnel.Ui.{state_name}
use auto_tunnel.Ui.View.{lifecycle_name, pad_right, ellipsis}

-- The `truncate` of main.go.
unfoldable pub cut_name : Bytes → ℕ → Bytes
cut_name s n =
    if leb (length s) n then s else if leb n 1 then take n s else take (n - 1) s ++ ellipsis

abbrev pub middle_dot : Bytes
middle_dot = b' ' ∷ 0xc2 ∷ 0xb7 ∷ b' ' ∷ []

unfoldable pub local_address : Bytes → Tunnel → Bytes
local_address bind t =
    if eqb_ℤ t.local_port (pos 0) then codes "-" else join_host_port bind (itoa t.local_port)

unfoldable pub other_note : Tunnel → Bytes
other_note t =
    if not (is_empty t.url)
    then codes "  (" ++ (t.url ++ codes ")")
    else if not t.published
    then codes "  (unpublished, via container IP)"
    else []

unfoldable pub note_of : (upper : Bytes → Bytes) → TunnelState → Tunnel → Bytes
note_of upper unsupported t =
    codes "  (" ++ (upper t.proto ++ codes " is not forwardable over ssh)")
note_of upper error t = codes "  (" ++ (t.last_error ++ codes ")")
note_of upper offered t = codes "  (available, not forwarded)"
note_of upper _ t = other_note t

unfoldable pub report_row : (upper : Bytes → Bytes) → Bytes → Tunnel → Bytes
report_row upper bind t =
    codes "  "
    ++ (pad_right 11 (state_name t.state)
        ++ (codes " "
            ++ (pad_right 7 t.source
                ++ (codes " "
                    ++ (pad_right 24 (cut_name t.name 24)
                        ++ (codes " "
                            ++ (pad_right 22 (local_address bind t)
                                ++ (codes " -> "
                                    ++ (t.remote_target
                                        ++ (note_of upper t.state t ++ b'\n' ∷ []))))))))))

unfoldable pub report_rows : (upper : Bytes → Bytes) → Bytes → List Tunnel → Bytes
report_rows upper bind [] = []
report_rows upper bind (t ∷ ts) = report_row upper bind t ++ report_rows upper bind ts

-- render
unfoldable pub render :
    (upper : Bytes → Bytes) → Bytes → Lifecycle → ℕ → Bytes → List Tunnel → Bytes
render upper bind state containers discovery_error ts =
    codes "ssh "
    ++ (lifecycle_name state
        ++ (middle_dot
            ++ (format containers
                ++ (codes " container(s)"
                    ++ (middle_dot
                        ++ (format (length ts)
                            ++ (codes " tunnel(s)\n"
                                ++ ((if is_empty discovery_error
                                      then []
                                      else codes "  discovery error: "
                                        ++ (discovery_error ++ b'\n' ∷ []))
                                    ++ report_rows upper bind ts))))))))
