-- ===== src/Tests/Screen.antt =====
-- Texts and tables on the screen, and a file's name.
use auto_tunnel.Prelude.{
  ◌-◌, ◌≤◌, ◌≡◌, refl, true, false, some, [], ◌∷◌, ◌++◌, length, get_elem?, All,
}
use auto_tunnel.Prelude.Int.{pos}
use auto_tunnel.Text.{Bytes, codes}
use auto_tunnel.Sanitize.{runes, sanitize}
use auto_tunnel.Sanitize.Clean.{IsPrintable, sanitize-IsPrintable}
use auto_tunnel.State.{Tunnel}
use auto_tunnel.Ui.{Model, by_name, selected}
use auto_tunnel.Ui.View.{visible_row_count, window_start, drawn_rows, truncate, ellipsis}
use auto_tunnel.Ui.View.Window.{drawn_rows-selected}
use auto_tunnel.Engine.Files.{selection_file_name}
use auto_tunnel.Engine.Files.Names.{IsStem, selection_file_name-IsStem}
use auto_tunnel.Tests.Samples.{row}

-- An escape sequence, and a control character of two bytes in UTF-8.
abbrev hostile : Bytes
hostile = 0x1b ∷ b'[' ∷ b'2' ∷ b'J' ∷ 0xc2 ∷ 0x9b ∷ b'A' ∷ []

sanitize-IsPrintable_example :
    All IsPrintable (runes (sanitize hostile)) × (sanitize (sanitize hostile) ≡ sanitize hostile)
sanitize-IsPrintable_example = sanitize-IsPrintable hostile

abbrev api : Tunnel
api = row (codes "docker:api") (codes "api") true

abbrev db : Tunnel
db = row (codes "docker:db") (codes "db") false

abbrev web : Tunnel
web = row (codes "docker:web") (codes "web") true

-- Room for two rows, with the cursor on the third.
abbrev small : Model
small = record {
  snap = api ∷ db ∷ web ∷ [];
  rows = api ∷ db ∷ web ∷ [];
  width = pos 80;
  height = pos 8;
  cursor = 2;
  sort = by_name;
  filter = [];
  source = 0;
  only_on = false;
  editing = false;
  show_log = false;
  status = [];
}

last_two_drawn : drawn_rows (visible_row_count false small) small ≡ db ∷ web ∷ []
unfolding drawn_rows visible_row_count
last_two_drawn = refl

drawn_rows-selected_example :
    let visible = visible_row_count false small in
    (get_elem? (drawn_rows visible small) (2 - window_start visible 2) ≡ some web)
    × (length (drawn_rows visible small) ≤ visible)
drawn_rows-selected_example = drawn_rows-selected false small web (unfold selected in refl)

-- The cut falls within the letter, of which the first byte is left.
letter_cut : truncate (b'a' ∷ 0xc3 ∷ 0xa4 ∷ b'b' ∷ []) (pos 3) ≡ b'a' ∷ 0xc3 ∷ ellipsis
unfolding truncate
letter_cut = refl

parent_refused : selection_file_name (codes "/../..") ≡ codes "default.json"
unfolding selection_file_name
parent_refused = refl

selection_file_name-IsStem_example :
    (s : Bytes) × (selection_file_name (codes "root@[fe80::1]:22") ≡ s ++ codes ".json") × IsStem s
selection_file_name-IsStem_example = selection_file_name-IsStem (codes "root@[fe80::1]:22")
