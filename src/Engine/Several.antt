-- ===== src/Engine/Several.antt =====
-- A choice for several tunnels at once.
use auto_tunnel.Prelude.{
  ℕ, ◌+◌, ◌≤◌, ◌≡◌, refl, sym, ap, subst, ◌∙◌, inl, inr, Bool, true, false, not, ◌&&◌, ◌||◌, Option,
  none, some, List, [], ◌∷◌, arith, ◌==◌, if◌then◌else◌, ==_iff, Bool-cases,
}
use auto_tunnel.Text.{Bytes, eqb}
use auto_tunnel.Text.Equality.{eqb_iff}
use auto_tunnel.GoMap.{Map, lookup, insert, lookup-insert}
use auto_tunnel.Discovery.Types.{PortMap}
use auto_tunnel.Engine.Choice.{reapply_maps-selected, save_selection-keeps}
use auto_tunnel.Engine.{
  Engine, member_key, known_key, same_choice, choose_all, set_enabled_all, reapply, save_selection,
}

-- The choice for a key afterwards.
abbrev pub choice_after : Bool → Bool → Option Bool → Option Bool
choice_after on picked old = if picked then some on else old

module _ (visit_order : Map PortMap → Map PortMap) (maps : List PortMap) (on : Bool) where
  same_choice-some : (o : Option Bool) (b : Bool) → same_choice visit_order b o ≡ true → o ≡ some b
  same_choice-some none b h = absurd (cc h)
  same_choice-some (some prev) true h = ap some h
  same_choice-some (some true) false h = absurd (cc h)
  same_choice-some (some false) false h = refl

  -- A count that has not grown means that no choice was made.
  choose_all-none :
      (keys : List Bytes) (selected : Map Bool) (changed : ℕ)
      → let r = choose_all visit_order maps on keys selected changed in
        (changed ≤ r.1) × (r.1 ≡ changed → r.0 ≡ selected)
  unfolding choose_all
  choose_all-none [] selected changed = (omega arith, λ e. refl)
  choose_all-none (k ∷ keys) selected changed =
      elim (Bool-cases (known_key k maps && not (same_choice visit_order on (lookup k selected)))) [
        | inl e ↦
            let more = (choose_all-none keys (insert k on selected) (changed + 1)).0 in
            rw e (omega (arith, more), λ same. absurd (omega (arith, more, same)))
        | inr e ↦ rw e (choose_all-none keys selected changed)
      ]

  choice_after_same : (picked : Bool) → choice_after on picked (some on) ≡ some on
  choice_after_same true = refl
  choice_after_same false = refl

  no_choice : (b : Bool) (o : Option Bool) → choice_after on (b && false) o ≡ o
  no_choice true o = refl
  no_choice false o = refl

  skipped_self :
      (j : Bytes) (selected : Map Bool) (later : Bool)
      → (known_key j maps && not (same_choice visit_order on (lookup j selected))) ≡ false
      → choice_after on (later && known_key j maps) (lookup j selected)
        ≡ choice_after on (known_key j maps) (lookup j selected)
  skipped_self j selected later h = elim (Bool-cases (known_key j maps)) [
    | inl t ↦
        let made : same_choice visit_order on (lookup j selected) ≡ true = ground arith in
        rw (t, same_choice-some (lookup j selected) on made) (choice_after_same (later && true))
    | inr t ↦ rw t (no_choice later (lookup j selected))
  ]

  -- One more key that was not chosen changes no answer.
  skipped_key :
      (j k : Bytes) (selected : Map Bool) (later : Bool)
      → (known_key k maps && not (same_choice visit_order on (lookup k selected))) ≡ false
      → choice_after on (later && known_key j maps) (lookup j selected)
        ≡ choice_after on ((eqb j k || later) && known_key j maps) (lookup j selected)
  skipped_key j k selected later h = elim (Bool-cases (eqb j k)) [
    | inl e ↦
        let same : k ≡ j = sym ((eqb_iff j k).0 e) in
        rw e (
          skipped_self j selected later (
            subst
              (λ i.
                (known_key i maps && not (same_choice visit_order on (lookup i selected))) ≡ false)
              same h))
    | inr e ↦ rw e refl
  ]

  made_key :
      (j k : Bytes) (selected : Map Bool) (later : Bool)
      → known_key k maps ≡ true
      → choice_after on (later && known_key j maps) (lookup j (insert k on selected))
        ≡ choice_after on ((eqb j k || later) && known_key j maps) (lookup j selected)
  made_key j k selected later h = elim (Bool-cases (eqb j k)) [
    | inl e ↦
        let same : k ≡ j = sym ((eqb_iff j k).0 e) in
        let known : known_key j maps ≡ true = subst (λ i. known_key i maps ≡ true) same h in
        let put : lookup j (insert k on selected) ≡ some on =
          lookup-insert k j on selected
          ∙ ap (λ b. if b then some on else lookup j selected) ((eqb_iff k j).1 same) in
        rw (e, known, put) (choice_after_same (later && true))
    | inr e ↦
        let apart : eqb k j ≡ false = ground (arith, eqb_iff j k, eqb_iff k j) in
        let kept : lookup j (insert k on selected) ≡ lookup j selected =
          lookup-insert k j on selected
          ∙ ap (λ b. if b then some on else lookup j selected) apart in
        rw (e, kept) refl
  ]

  choose_all-lookup :
      (j : Bytes) (keys : List Bytes) (selected : Map Bool) (changed : ℕ)
      → lookup j (choose_all visit_order maps on keys selected changed).0
        ≡ choice_after on (member_key j keys && known_key j maps) (lookup j selected)
  unfolding choose_all member_key
  choose_all-lookup j [] selected changed = refl
  choose_all-lookup j (k ∷ keys) selected changed =
      elim (Bool-cases (known_key k maps && not (same_choice visit_order on (lookup k selected)))) [
        | inl e ↦
            let known : known_key k maps ≡ true = ground arith in
            rw e (
              choose_all-lookup j keys (insert k on selected) (changed + 1)
              ∙ made_key j k selected (member_key j keys) known)
        | inr e ↦ rw e (
            choose_all-lookup j keys selected changed
            ∙ skipped_key j k selected (member_key j keys) e)
      ]

module _ (visit_order : Map PortMap → Map PortMap) where
  chosen-selected :
      (choices : Map Bool) (e : Engine)
      → (reapply visit_order
          (save_selection visit_order (record e { selected = choices }))).selected
        ≡ choices
  unfolding reapply
  chosen-selected choices e =
      save_selection-keeps visit_order (λ m given maps s. (reapply visit_order s).selected ≡ given)
        (λ s. reapply_maps-selected visit_order s s.last_maps) (record e { selected = choices })

  -- SetEnabledAll chooses for each of the keys that is in the last set and leaves every other choice,
  -- whatever the choices were and even if a key is named twice. If it reports no change, the engine is
  -- as it was.
  pub set_enabled_all-choices :
      (keys : List Bytes) (on : Bool) (e : Engine)
      → let r = set_enabled_all visit_order keys on e in
        ((j : Bytes)
          → lookup j r.0.selected
            ≡ choice_after on (member_key j keys && known_key j e.last_maps) (lookup j e.selected))
        × (r.1 ≡ 0 → r.0 ≡ e)
  unfolding set_enabled_all
  set_enabled_all-choices keys on e =
      let c = choose_all visit_order e.last_maps on keys e.selected 0 in
      let asked = λ (j : Bytes). choose_all-lookup visit_order e.last_maps on j keys e.selected 0 in
      elim (Bool-cases (c.1 == 0)) [
        | inl z ↦
            let same : c.0 ≡ e.selected =
              (choose_all-none visit_order e.last_maps on keys e.selected 0).1
                ((==_iff c.1 0).0 z) in
            rw z (λ j. ap (lookup j) (sym same) ∙ asked j, λ h. refl)
        | inr n ↦ rw n (
          λ j. ap (lookup j) (chosen-selected c.0 e) ∙ asked j,
          λ h. absurd (cc ((==_iff c.1 0).1 h, n)),
        )
      ]
