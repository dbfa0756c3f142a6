-- ===== src/Engine/Choice.antt =====
-- The user's choices: what they do to a set of rows, and what SetEnabled does to the tunnels.
use auto_tunnel.Prelude.{
  ◌≡◌, refl, sym, ap, subst, ◌∙◌, ◌≢◌, inl, inr, Bool, true, false, Option, none, some, List, [],
  ◌∷◌, arith, if◌then◌else◌, Bool-cases, All,
}
use auto_tunnel.Text.{Bytes, eqb, is_empty}
use auto_tunnel.Text.Equality.{eqb_iff}
use auto_tunnel.GoMap.{Map, lookup, insert, lookup-insert, IsMap}
use auto_tunnel.Discovery.Types.{PortMap, key}
use auto_tunnel.Tunnel.Manager.{Manager, scrub, desired_from, desired, reconcile, IsOrderOf}
use auto_tunnel.Tunnel.Manager.Maps.{desired-IsMap}
use auto_tunnel.Tunnel.Manager.Settled.{Settled, AreMaps, reconcile-desired}
use auto_tunnel.Engine.{
  chosen, apply_selection, known_key, Engine, reconcile_selected, reapply_maps, reapply,
  save_selection, set_enabled,
}
use auto_tunnel.Engine.Merge.{DistinctKeys, find_map}

-- Neither a choice nor scrubbing changes a key.
pub key-chosen : (pm : PortMap) (o : Option Bool) → key (chosen pm o) ≡ key pm
unfolding key
key-chosen pm none = refl
key-chosen pm (some on) = refl

abbrev map_option : {A B : Type 0} → (A → B) → Option A → Option B
map_option f none = none
map_option f (some a) = some (f a)

find_map-apply_selection :
    (selected : Map Bool) (k : Bytes) (maps : List PortMap)
    → find_map k (apply_selection selected maps)
      ≡ map_option (λ pm. chosen pm (lookup k selected)) (find_map k maps)
unfolding apply_selection
find_map-apply_selection selected k [] = refl
find_map-apply_selection selected k (pm ∷ maps) =
    let same = key-chosen pm (lookup (key pm) selected) in
    elim (Bool-cases (eqb (key pm) k)) [
      | inl e ↦
          let found : eqb (key (chosen pm (lookup (key pm) selected))) k ≡ true =
            ap (λ j. eqb j k) same ∙ e in
          let at_k = ap (λ j. some (chosen pm (lookup j selected))) ((eqb_iff (key pm) k).0 e) in
          rw (found, e) at_k
      | inr e ↦
          let missed : eqb (key (chosen pm (lookup (key pm) selected))) k ≡ false =
            ap (λ j. eqb j k) same ∙ e in
          rw (missed, e) (find_map-apply_selection selected k maps)
    ]

All-chosen :
    (selected : Map Bool) (P : Bytes → Type 0) (maps : List PortMap)
    → All (λ q. P (key q)) maps
    → All (λ q. P (key q)) (apply_selection selected maps)
unfolding apply_selection
All-chosen selected P [] h = tt
All-chosen selected P (pm ∷ maps) h =
    (subst P (sym (key-chosen pm (lookup (key pm) selected))) h.0, All-chosen selected P maps h.1)

apply_selection-Distinct :
    (selected : Map Bool) (maps : List PortMap)
    → DistinctKeys maps
    → DistinctKeys (apply_selection selected maps)
unfolding apply_selection
apply_selection-Distinct selected [] h = tt
apply_selection-Distinct selected (pm ∷ maps) h = (
  subst (λ j. All (λ q. j ≢ key q) (apply_selection selected maps))
      (sym (key-chosen pm (lookup (key pm) selected)))
      (All-chosen selected (λ j. key pm ≢ j) maps h.0),
  apply_selection-Distinct selected maps h.1,
)

-- What the manager is given for a key, over what it had.
abbrev found_or : Option PortMap → Option PortMap → Option PortMap
found_or none old = old
found_or (some pm) old = some (scrub pm)

find_map-absent :
    (k : Bytes) (maps : List PortMap) → All (λ q. k ≢ key q) maps → find_map k maps ≡ none
find_map-absent k [] h = refl
find_map-absent k (pm ∷ maps) h = ground (arith, eqb_iff (key pm) k, find_map-absent k maps h.1)

lookup-desired_from :
    (k : Bytes) (maps : List PortMap) (d : Map PortMap)
    → DistinctKeys maps
    → lookup k (desired_from d maps) ≡ found_or (find_map k maps) (lookup k d)
unfolding desired_from
lookup-desired_from k [] d h = refl
lookup-desired_from k (pm ∷ maps) d h =
    let ih = lookup-desired_from k maps (insert (key pm) (scrub pm) d) h.1 in
    let put = lookup-insert (key pm) k (scrub pm) d in
    elim (Bool-cases (eqb (key pm) k)) [
      | inl e ↦
          let gone =
            find_map-absent k maps
              (subst (λ j. All (λ q. j ≢ key q) maps) ((eqb_iff (key pm) k).0 e) h.0) in
          let old : lookup k (insert (key pm) (scrub pm) d) ≡ some (scrub pm) =
            put ∙ ap (λ b. if b then some (scrub pm) else lookup k d) e in
          let here : found_or (find_map k (pm ∷ maps)) (lookup k d) ≡ some (scrub pm) = rw e refl in
          ih ∙ ap (λ o. found_or o (lookup k (insert (key pm) (scrub pm) d))) gone ∙ old ∙ sym here
      | inr e ↦
          let old : lookup k (insert (key pm) (scrub pm) d) ≡ lookup k d =
            put ∙ ap (λ b. if b then some (scrub pm) else lookup k d) e in
          let there : found_or (find_map k (pm ∷ maps)) (lookup k d)
              ≡ found_or (find_map k maps) (lookup k d) =
            rw e refl in
          ih ∙ ap (found_or (find_map k maps)) old ∙ sym there
    ]

-- Whether a row is only listed: the user's choice, on or off, decides, and the row's own default only
-- where there is none.
abbrev pub listed_under : Bool → Option Bool → Bool
listed_under default none = default
listed_under default (some true) = false
listed_under default (some false) = true

-- What is desired of a key: its row under the user's choice, scrubbed.
abbrev pub wish : Map Bool → Bytes → List PortMap → Option PortMap
wish selected k maps =
    map_option
      (λ (pm : PortMap).
        scrub (record pm { offered = listed_under pm.offered (lookup k selected) }))
      (find_map k maps)

scrub-chosen :
    (pm : PortMap) (c : Option Bool)
    → scrub (chosen pm c) ≡ scrub (record pm { offered = listed_under pm.offered c })
scrub-chosen pm none = refl
scrub-chosen pm (some true) = refl
scrub-chosen pm (some false) = refl

found-wish :
    (selected : Map Bool) (k : Bytes) (maps : List PortMap)
    → found_or (map_option (λ pm. chosen pm (lookup k selected)) (find_map k maps)) none
      ≡ wish selected k maps
found-wish selected k maps = by_row (find_map k maps)
  where
    by_row :
        (o : Option PortMap)
        → found_or (map_option (λ pm. chosen pm (lookup k selected)) o) none
          ≡ map_option
              (λ (pm : PortMap).
                scrub (record pm { offered = listed_under pm.offered (lookup k selected) }))
              o
    by_row none = refl
    by_row (some pm) = ap some (scrub-chosen pm (lookup k selected))

lookup-desired :
    (selected : Map Bool) (k : Bytes) (maps : List PortMap)
    → DistinctKeys maps
    → lookup k (desired (apply_selection selected maps)) ≡ wish selected k maps
unfolding desired lookup
lookup-desired selected k maps h =
    lookup-desired_from k (apply_selection selected maps) []
      (apply_selection-Distinct selected maps h)
    ∙ ap (λ o. found_or o none) (find_map-apply_selection selected k maps)
    ∙ found-wish selected k maps

-- An order of visiting that visits each wanted row once.
abbrev pub IsVisitOrder : (Map PortMap → Map PortMap) → Type 0
IsVisitOrder visit_order = (wants : Map PortMap) → IsMap wants → IsOrderOf (visit_order wants) wants

-- What SetEnabled promises for a known key, of the engine it returns.
abbrev pub Promised : Manager → Map Bool → List PortMap → Engine → Type 0
Promised m choices maps r =
    (r.selected ≡ choices) × ((j : Bytes) → Settled j (wish choices j maps) m r.manager)

module _ (visit_order : Map PortMap → Map PortMap) where
  pub reapply_maps-selected :
      (e : Engine) (maps : List PortMap) → (reapply_maps visit_order maps e).selected ≡ e.selected
  unfolding reapply_maps reconcile_selected
  reapply_maps-selected e [] = refl
  reapply_maps-selected e (pm ∷ maps) = refl

  -- Saving touches neither the tunnels, nor the choices, nor the last set.
  pub save_selection-keeps :
      (P : Manager → Map Bool → List PortMap → Engine → Type 0)
      → ((s : Engine) → P s.manager s.selected s.last_maps s)
      → (e : Engine) → P e.manager e.selected e.last_maps (save_selection visit_order e)
  unfolding save_selection
  save_selection-keeps P h e = elim (Bool-cases (is_empty e.selection_path)) [
    | inl t ↦ rw t (h e)
    | inr t ↦ rw t (h (record e { saved = some e.selected }))
  ]

module _ (visit_order : Map PortMap → Map PortMap) (any_order : IsVisitOrder visit_order) where
  pub reconcile_selected-Settled :
      (e : Engine) (maps : List PortMap) (k : Bytes)
      → AreMaps e.manager
      → DistinctKeys maps
      → Settled k (wish e.selected k maps) e.manager (reconcile_selected visit_order maps e).manager
  unfolding reconcile_selected
  reconcile_selected-Settled e maps k a d =
      subst
        (λ w. Settled k w e.manager (
          reconcile (visit_order (desired (apply_selection e.selected maps)))
            (apply_selection e.selected maps) e.manager))
        (lookup-desired e.selected k maps d)
        (reconcile-desired _ (apply_selection e.selected maps) e.manager k a
          (any_order _ (desired-IsMap (apply_selection e.selected maps))))

  reapply_maps-Settled :
      (e : Engine) (maps : List PortMap) (k j : Bytes)
      → known_key j maps ≡ true
      → AreMaps e.manager
      → DistinctKeys maps
      → Settled k (wish e.selected k maps) e.manager (reapply_maps visit_order maps e).manager
  unfolding reapply_maps
  reapply_maps-Settled e [] k j h a d = unfold known_key in absurd (cc h)
  reapply_maps-Settled e (pm ∷ maps) k j h a d = reconcile_selected-Settled e (pm ∷ maps) k a d

  reapply-Promised :
      (e : Engine) (k : Bytes)
      → known_key k e.last_maps ≡ true
      → AreMaps e.manager
      → DistinctKeys e.last_maps
      → Promised e.manager e.selected e.last_maps
          (reapply visit_order (save_selection visit_order e))
  unfolding reapply
  reapply-Promised e k h a d =
      save_selection-keeps visit_order
        (λ m choices maps s.
          known_key k maps ≡ true
          → AreMaps m
          → DistinctKeys maps
          → Promised m choices maps (reapply visit_order s))
        (λ s h2 a2 d2. (
          reapply_maps-selected visit_order s s.last_maps,
          λ j. reapply_maps-Settled s s.last_maps j k h2 a2 d2,
        ))
        e h a d

  -- SetEnabled on a key of the last set brings every tunnel into the state that its row asks for under
  -- the choices with this one made, whatever the state of the tunnels was and whatever the order in
  -- which they are visited. On any other key it changes nothing and says so.
  pub set_enabled-Settled :
      (e : Engine) (k : Bytes) (on : Bool)
      → AreMaps e.manager
      → DistinctKeys e.last_maps
      → let r = set_enabled visit_order k on e in
        (known_key k e.last_maps ≡ true
          → (r.1 ≡ true) × Promised e.manager (insert k on e.selected) e.last_maps r.0)
        × (known_key k e.last_maps ≡ false → r ≡ (e, false))
  unfolding set_enabled
  set_enabled-Settled e k on a d = elim (Bool-cases (known_key k e.last_maps)) [
    | inl t ↦ rw t (
      λ h. (refl, reapply-Promised (record e { selected = insert k on e.selected }) k t a d),
      λ h. absurd (cc h),
    )
    | inr t ↦ rw t (λ h. absurd (cc h), λ h. refl)
  ]
