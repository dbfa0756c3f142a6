-- ===== src/Ui/Table.antt =====
-- What the table shows, whatever messages come.
use mathlib.Core.List.{Perm}
use auto_tunnel.Prelude.{
  ◌≡◌, refl, sym, subst, inl, inr, true, false, List, [], ◌∷◌, if◌then◌else◌, Bool-cases,
}
use auto_tunnel.Prelude.Sort.{IsSorted, sort_by-IsSorted}
use auto_tunnel.Text.{Bytes}
use auto_tunnel.State.{Tunnel}
use auto_tunnel.Ui.{Actions, Model, row_before, sort_rows}
use auto_tunnel.Ui.Order.{row_before-IsOrder}
use auto_tunnel.Ui.Rows.{refresh-perm}
use auto_tunnel.Ui.Update.{
  press, filter_key, update, Msg, window_size, snapshot, key_press, other_msg, KeyType, key_ctrl_c,
  Press, scope, source, sort, edit, press_of, refresh, shown, shown_rows,
}

module _ (to_lower : Bytes → Bytes) where
  -- The rows are those of the snapshot that the filters let through, each as often as it is there, in
  -- the order of the sort mode.
  abbrev pub Shows : Model → Type 0
  Shows m = Perm m.rows (shown_rows to_lower m m.snap) × IsSorted (row_before m.sort) m.rows

  -- The same but while a filter is typed.
  abbrev pub IsCurrent : Model → Type 0
  IsCurrent m = m.editing ≡ false → Shows m

  shown_rows-same :
      (m n : Model) (ts : List Tunnel)
      → m.only_on ≡ n.only_on
      → m.source ≡ n.source
      → m.filter ≡ n.filter
      → shown_rows to_lower m ts ≡ shown_rows to_lower n ts
  unfolding shown_rows shown
  shown_rows-same m n [] a b c = refl
  shown_rows-same m n (t ∷ ts) a b c = rw (a, b, c, shown_rows-same m n ts a b c) refl

  -- A change of anything else leaves the table as it is.
  untouched :
      (m n : Model)
      → n.rows ≡ m.rows
      → n.snap ≡ m.snap
      → n.sort ≡ m.sort
      → n.only_on ≡ m.only_on
      → n.source ≡ m.source
      → n.filter ≡ m.filter
      → Shows m
      → Shows n
  untouched m n r p o a b f h = rw (shown_rows-same n m n.snap a b f, r, p, o) h

  refresh-Shows : (m : Model) → Shows (refresh to_lower m)
  refresh-Shows m =
      let same : shown_rows to_lower (refresh to_lower m) m.snap ≡ shown_rows to_lower m m.snap =
        unfold refresh in shown_rows-same (refresh to_lower m) m m.snap refl refl refl in
      (
        unfold refresh in
            subst (λ rows. Perm (refresh to_lower m).rows rows) (sym same)
              (refresh-perm to_lower m),
        unfold refresh sort_rows in
            sort_by-IsSorted (row_before-IsOrder m.sort) (shown_rows to_lower m m.snap),
      )

  module _ {S : Type 0} (actions : Actions S) where
    press-IsCurrent :
        (p : Press) (m : Model) (s : S)
        → m.editing ≡ false
        → IsCurrent m
        → IsCurrent (press to_lower actions p m s).0
    unfolding press
    press-IsCurrent scope m s e h = λ f. refresh-Shows _
    press-IsCurrent source m s e h = λ f. refresh-Shows _
    press-IsCurrent sort m s e h = λ f. refresh-Shows _
    press-IsCurrent edit m s e h = λ f. absurd (cc)
    press-IsCurrent p m s e h = λ f. untouched m _ refl refl refl refl refl refl (h e)

    filter_key-IsCurrent :
        (k : KeyType) (text : Bytes) (m : Model) (s : S)
        → m.editing ≡ true
        → IsCurrent (filter_key to_lower actions k text m s).0
    unfolding filter_key
    filter_key-IsCurrent key_ctrl_c text m s e = λ f. absurd (cc)
    filter_key-IsCurrent k text m s e = λ f. refresh-Shows _

    -- Whatever messages come, the table shows the rows of the last snapshot that pass the filters,
    -- each as often as it is there, in the order of the sort mode, unless a filter is being typed: if
    -- it was so before a message, it is so after it.
    pub update-IsCurrent :
        (msg : Msg) (m : Model) (s : S)
        → IsCurrent m
        → IsCurrent (update to_lower actions msg m s).0
    unfolding update
    update-IsCurrent (window_size w h) m s v =
        λ f. untouched m _ refl refl refl refl refl refl (v f)
    update-IsCurrent (snapshot rows) m s v = λ f. refresh-Shows _
    update-IsCurrent (key_press key) m s v = elim (Bool-cases m.editing) [
      | inl e ↦
          subst
            (λ b.
              IsCurrent
                (if b
                  then filter_key to_lower actions key.kind key.runes m s
                  else press to_lower actions (press_of key.name) m s).0)
            (sym e) (filter_key-IsCurrent key.kind key.runes m s e)
      | inr e ↦
          subst
            (λ b.
              IsCurrent
                (if b
                  then filter_key to_lower actions key.kind key.runes m s
                  else press to_lower actions (press_of key.name) m s).0)
            (sym e) (press-IsCurrent (press_of key.name) m s e v)
    ]
    update-IsCurrent other_msg m s v = v
