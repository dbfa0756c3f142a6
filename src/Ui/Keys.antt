-- ===== src/Ui/Keys.antt =====
-- What a message leaves of the model.
use auto_tunnel.Prelude.{
  ◌+◌, ◌<◌, ◌≡◌, refl, sym, subst, ◌≢◌, ◌↔◌, inl, inr, Bool, true, false, List, [], ◌∷◌, arith, ltb,
  if◌then◌else◌, ltb→lt, Bool-cases, length, All,
}
use auto_tunnel.Text.{Bytes}
use auto_tunnel.State.{Tunnel}
use auto_tunnel.Ui.{Actions, Model}
use auto_tunnel.Ui.Update.{
  press, filter_key, update, toggle_all_visible, Msg, window_size, snapshot, key_press, other_msg,
  KeyType, key_esc, key_enter, key_backspace, key_ctrl_c, key_runes, key_space, key_other, Press,
  quit, up, down, home, end, rescan, pause, toggle, all, open_row, scope, source, sort, log, edit,
  nothing, press_of, keys_of, some_off, refresh,
}
use auto_tunnel.Ui.Rows.{InView, refresh-InView}

module _ (to_lower : Bytes → Bytes) {S : Type 0} (actions : Actions S) where
  -- The cursor is in view and the source filter is one that there is.
  abbrev pub IsValid : Model → Type 0
  IsValid m = InView m × (m.source < 4)

  refresh-IsValid : (m : Model) → m.source < 4 → IsValid (refresh to_lower m)
  refresh-IsValid m h = (refresh-InView to_lower m, unfold refresh in h)

  press-IsValid :
      (p : Press) (m : Model) (s : S) → IsValid m → IsValid (press to_lower actions p m s).0
  unfolding press
  press-IsValid quit m s h = h
  press-IsValid up m s h = (omega (arith, h.0), h.1)
  press-IsValid down m s h = elim (Bool-cases (ltb (m.cursor + 1) (length m.rows))) [
    | inl e ↦ rw e (inr (grind (arith, e, ltb→lt)), h.1)
    | inr e ↦ rw e h
  ]
  press-IsValid home m s h = (inl refl, h.1)
  press-IsValid end m s h = (omega (arith, h.0), h.1)
  press-IsValid rescan m s h = h
  press-IsValid pause m s h = h
  press-IsValid toggle m s h = h
  press-IsValid all m s h = h
  press-IsValid open_row m s h = h
  press-IsValid scope m s h = refresh-IsValid _ h.1
  press-IsValid source m s h = refresh-IsValid _ (omega arith)
  press-IsValid sort m s h = refresh-IsValid _ h.1
  press-IsValid log m s h = h
  press-IsValid edit m s h = h
  press-IsValid nothing m s h = h

  filter_key-IsValid :
      (k : KeyType) (text : Bytes) (m : Model) (s : S)
      → IsValid m
      → IsValid (filter_key to_lower actions k text m s).0
  unfolding filter_key
  filter_key-IsValid key_esc text m s h = refresh-IsValid _ h.1
  filter_key-IsValid key_enter text m s h = refresh-IsValid _ h.1
  filter_key-IsValid key_backspace text m s h = refresh-IsValid _ h.1
  filter_key-IsValid key_ctrl_c text m s h = h
  filter_key-IsValid key_runes text m s h = refresh-IsValid _ h.1
  filter_key-IsValid key_space text m s h = refresh-IsValid _ h.1
  filter_key-IsValid key_other text m s h = refresh-IsValid _ h.1

  -- Whatever message comes, the cursor stays on a row of the table, or on its first place, and the
  -- source filter stays one of the four.
  pub update-IsValid :
      (msg : Msg) (m : Model) (s : S) → IsValid m → IsValid (update to_lower actions msg m s).0
  unfolding update
  update-IsValid (window_size w h) m s v = v
  update-IsValid (snapshot rows) m s v = refresh-IsValid _ v.1
  update-IsValid (key_press key) m s v = elim (Bool-cases m.editing) [
    | inl e ↦
        subst
          (λ b.
            IsValid
              (if b
                then filter_key to_lower actions key.kind key.runes m s
                else press to_lower actions (press_of key.name) m s).0)
          (sym e) (filter_key-IsValid key.kind key.runes m s v)
    | inr e ↦
        subst
          (λ b.
            IsValid
              (if b
                then filter_key to_lower actions key.kind key.runes m s
                else press to_lower actions (press_of key.name) m s).0)
          (sym e) (press-IsValid (press_of key.name) m s v)
  ]
  update-IsValid other_msg m s v = v

  some_off-All :
      (ts : List Tunnel)
      → (some_off ts ≡ false → All (λ t. t.enabled ≡ true) ts)
        × (All (λ t. t.enabled ≡ true) ts → some_off ts ≡ false)
  unfolding some_off
  some_off-All [] = (λ e. tt, λ h. refl)
  some_off-All (t ∷ ts) = elim (Bool-cases t.enabled) [
    | inl e ↦ (λ h. (e, (some_off-All ts).0 (rw e at h)), λ h. rw e ((some_off-All ts).1 h.1))
    | inr e ↦ (λ h. absurd (cc (h, e)), λ h. absurd (cc (h.0, e)))
  ]

  visible_none :
      (ts : List Tunnel) (s : S) → ts ≡ [] → (toggle_all_visible to_lower actions ts s).1 ≡ s
  unfolding toggle_all_visible
  visible_none [] s e = refl
  visible_none (t ∷ ts) s e = absurd (cc e)

  visible_some :
      (ts : List Tunnel) (s : S)
      → ts ≢ []
      → (toggle_all_visible to_lower actions ts s).1
        ≡ (actions.set_enabled_all (keys_of ts) (some_off ts) s).0
  unfolding toggle_all_visible
  visible_some [] s n = absurd (n refl)
  visible_some (t ∷ ts) s n = refl

  -- The key for all rows asks the engine once, for the rows that are shown and no other. It turns
  -- them off just when all of them are on, and otherwise turns them on; with no row shown it does
  -- nothing.
  press-all :
      (m : Model) (s : S)
      → (m.rows ≡ [] → (press to_lower actions all m s).1 ≡ s)
        × (m.rows ≢ []
            → (on : Bool) × ((on ≡ false) ↔ All (λ t. t.enabled ≡ true) m.rows)
              × ((press to_lower actions all m s).1
                  ≡ (actions.set_enabled_all (keys_of m.rows) on s).0))
  unfolding press
  press-all m s = (
    λ e. visible_none m.rows s e,
    λ n. (some_off m.rows, some_off-All m.rows, visible_some m.rows s n),
  )
