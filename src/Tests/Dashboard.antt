-- ===== src/Tests/Dashboard.antt =====
-- The dashboard's model over an engine that only counts what it is asked.
use mathlib.Core.List.Perm
use auto_tunnel.Prelude.{
  ℕ, ◌+◌, ◌≡◌, refl, ◌≢◌, ◌⊎◌, inr, true, false, none, some, [], ◌∷◌, arith, length, All,
}
use auto_tunnel.Prelude.Int.{pos}
use auto_tunnel.Text.{Bytes, codes}
use auto_tunnel.State.{Tunnel}
use auto_tunnel.Ui.{Actions, Model, by_traffic, selected, new_model}
use auto_tunnel.Ui.Update.{update, snapshot, refresh, shown_rows}
use auto_tunnel.Ui.Rows.{refresh-selected}
use auto_tunnel.Ui.Keys.{IsValid, update-IsValid}
use auto_tunnel.Ui.Table.{IsCurrent, update-IsCurrent}
use auto_tunnel.Tests.Samples.{row}

abbrev same_case : Bytes → Bytes
same_case s = s

abbrev counting : Actions ℕ
counting = record {
  toggle_pause = λ k n. (n + 1, true, true);
  set_enabled = λ k on n. (n + 1, true);
  set_enabled_all = λ ks on n. (n + length ks, length ks);
  open_url = λ u n. (n, none);
  prefs = λ n. [];
  save_prefs = λ p n. n;
  rescan = λ n. n + 1;
}

abbrev api : Tunnel
api = row (codes "docker:api") (codes "api") true

abbrev db : Tunnel
db = row (codes "docker:db") (codes "db") false

abbrev shown_two : Model
shown_two = record {
  snap = db ∷ api ∷ [];
  rows = api ∷ db ∷ [];
  width = pos 100;
  height = pos 30;
  cursor = 1;
  sort = by_traffic;
  filter = [];
  source = 0;
  only_on = false;
  editing = false;
  show_log = false;
  status = [];
}

refresh-selected_example :
    ((u : Tunnel) × (selected (refresh same_case shown_two) ≡ some u) × (u.key ≡ codes "docker:db"))
    ⊎ All (λ u. u.key ≢ codes "docker:db") (refresh same_case shown_two).rows
refresh-selected_example = refresh-selected same_case shown_two db (unfold selected in refl)

update-IsValid_example :
    IsValid same_case counting (update same_case counting (snapshot []) shown_two 0).0
update-IsValid_example =
    update-IsValid same_case counting (snapshot []) shown_two 0 (inr (omega arith), omega arith)

first_IsCurrent : IsCurrent same_case (new_model [])
unfolding new_model shown_rows
first_IsCurrent = λ e. (Perm.refl _, tt)

update-IsCurrent_example :
    IsCurrent same_case (update same_case counting (snapshot (db ∷ api ∷ [])) (new_model []) 0).0
update-IsCurrent_example =
    update-IsCurrent same_case counting (snapshot (db ∷ api ∷ [])) (new_model []) 0 first_IsCurrent
