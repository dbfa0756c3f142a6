-- ===== src/Ui/Rows.antt =====
-- The rows that are shown, and the cursor among them.
use mathlib.Core.List.{Perm}
use auto_tunnel.Prelude.{
  ℕ, ◌-◌, ◌<◌, ◌≡◌, refl, ap, subst, ◌≢◌, ◌⊎◌, inl, inr, Option, none, some, List, [], ◌∷◌, arith,
  leb, if◌then◌else◌, leb→le, Bool-cases, length, get_elem?, All,
}
use auto_tunnel.Prelude.Sort.{sort_by-perm}
use auto_tunnel.Text.{Bytes, eqb}
use auto_tunnel.Text.Equality.{eqb_iff}
use auto_tunnel.State.{Tunnel}
use auto_tunnel.Ui.{
  Model, SortMode, by_name, by_local_port, by_traffic, by_remote, sort_name, parse_sort_mode,
  row_before, sort_rows, selected, key_of, cursor_at, next_row, or_first,
}
use auto_tunnel.Ui.Update.{cursor_in, shown_rows, refresh}

-- What the search for a key finds.
abbrev pub Found : Bytes → List Tunnel → Option ℕ → Type 0
Found k ts none = All (λ t. t.key ≢ k) ts
Found k ts (some i) = (i < length ts) × ((t : Tunnel) × (get_elem? ts i ≡ some t) × (t.key ≡ k))

next_row-Found :
    (k : Bytes) (t : Tunnel) (ts : List Tunnel) (o : Option ℕ)
    → t.key ≢ k
    → Found k ts o
    → Found k (t ∷ ts) (next_row o)
next_row-Found k t ts none n h = (n, h)
next_row-Found k t ts (some i) n (l, (u, e, same)) = (omega (arith, l), (u, e, same))

cursor_at-Found : (k : Bytes) (ts : List Tunnel) → Found k ts (cursor_at k ts)
unfolding cursor_at
cursor_at-Found k [] = tt
cursor_at-Found k (t ∷ ts) = elim (Bool-cases (eqb t.key k)) [
  | inl e ↦ rw e (omega arith, (t, refl, (eqb_iff t.key k).0 e))
  | inr e ↦ rw e (
      next_row-Found k t ts (cursor_at k ts) (λ same. absurd (cc (e, (eqb_iff t.key k).1 same)))
        (cursor_at-Found k ts))
]

-- The cursor that `refresh` sets, by what the search found.
abbrev Placed : Bytes → List Tunnel → ℕ → Type 0
Placed k ts c =
    ((c ≡ 0) ⊎ (c < length ts))
    × (((t : Tunnel) × (get_elem? ts c ≡ some t) × (t.key ≡ k)) ⊎ All (λ t. t.key ≢ k) ts)

abbrev cut : ℕ → ℕ → ℕ
cut n c = if leb n c then n - 1 else c

cut-Placed :
    (k : Bytes) (ts : List Tunnel) (o : Option ℕ)
    → Found k ts o
    → Placed k ts (cut (length ts) (or_first o))
cut-Placed k ts none h = (
  elim (Bool-cases (leb (length ts) 0)) [
    | inl e ↦ rw e (inl (grind (arith, e, leb→le)))
    | inr e ↦ rw e (inl refl)
  ],
  inr h,
)
cut-Placed k ts (some i) (l, (t, e, same)) = elim (Bool-cases (leb (length ts) i)) [
  | inl over ↦ absurd (grind (arith, over, leb→le, l))
  | inr fits ↦ rw fits (inr l, inl (t, e, same))
]

cursor_in-Placed :
    (to_lower : Bytes → Bytes) (k : Bytes) (ts : List Tunnel)
    → Placed k ts (cursor_in to_lower k ts)
unfolding cursor_in
cursor_in-Placed to_lower k ts = cut-Placed k ts (cursor_at k ts) (cursor_at-Found k ts)

-- The cursor is on a row, or on the first place of an empty list.
abbrev pub InView : Model → Type 0
InView m = (m.cursor ≡ 0) ⊎ (m.cursor < length m.rows)

pub refresh-InView : (to_lower : Bytes → Bytes) (m : Model) → InView (refresh to_lower m)
unfolding refresh
refresh-InView to_lower m =
    (cursor_in-Placed to_lower (key_of (selected m))
      (sort_rows m.sort (shown_rows to_lower m m.snap))).0

-- A refresh shows the rows of the snapshot that pass the filters, each as often as it is there.
pub refresh-perm :
    (to_lower : Bytes → Bytes) (m : Model)
    → Perm (refresh to_lower m).rows (shown_rows to_lower m m.snap)
unfolding refresh sort_rows
refresh-perm to_lower m = sort_by-perm (row_before m.sort) (shown_rows to_lower m m.snap)

-- A refresh leaves the cursor on a row with the key of the row it was on, wherever that row has
-- moved, unless no row that is shown has the key any more.
pub refresh-selected :
    (to_lower : Bytes → Bytes) (m : Model) (t : Tunnel)
    → selected m ≡ some t
    → ((u : Tunnel) × (selected (refresh to_lower m) ≡ some u) × (u.key ≡ t.key))
      ⊎ All (λ u. u.key ≢ t.key) (refresh to_lower m).rows
unfolding refresh selected key_of
refresh-selected to_lower m t e =
    let rows = sort_rows m.sort (shown_rows to_lower m m.snap) in
    let same : key_of (selected m) ≡ t.key = ap key_of e in
    subst
      (λ k.
        ((u : Tunnel) × (get_elem? rows (cursor_in to_lower (key_of (selected m)) rows) ≡ some u)
          × (u.key ≡ k))
        ⊎ All (λ (u : Tunnel). u.key ≢ k) rows)
      same (cursor_in-Placed to_lower (key_of (selected m)) rows).1

-- A sort mode's name, as the preferences hold it, is read back as the mode.
pub parse_sort_mode-sort_name : (mode : SortMode) → parse_sort_mode (sort_name mode) ≡ mode
unfolding parse_sort_mode sort_name eqb
parse_sort_mode-sort_name by_name = refl
parse_sort_mode-sort_name by_local_port = refl
parse_sort_mode-sort_name by_traffic = refl
parse_sort_mode-sort_name by_remote = refl
