-- ===== src/Engine/Interleave/Settles.antt =====
-- What a poll makes good, whatever ran in between.
use auto_tunnel.Prelude.{◌≡◌, refl, sym, subst, ◌∙◌, none, some, List}
use auto_tunnel.Text.{Bytes}
use auto_tunnel.GoMap.{Map}
use auto_tunnel.Discovery.Types.{PortMap}
use auto_tunnel.Tunnel.Manager.Settled.{Settled}
use auto_tunnel.Engine.{Engine, reconcile_selected, save_selection}
use auto_tunnel.Engine.Merge.{dedupe_keys-first}
use auto_tunnel.Engine.Choice.{IsVisitOrder, wish, reconcile_selected-Settled, save_selection-keeps}
use auto_tunnel.Engine.Valid.{IsValid, reconcile_selected-IsValid, save_selection-IsValid}
use auto_tunnel.Engine.Interleave.{
  Shared, alone, Move, poll_stores, poll_reconciles, chooses, reapply_reads, reapply_reconciles,
  Moves, still, then_moves,
}

-- The set that the poll has stored is still the last one.
abbrev IsLast : Shared → Type 0
IsLast s = (maps : List PortMap) → s.polled ≡ some maps → s.engine.last_maps ≡ maps

abbrev IsSound : Shared → Type 0
IsSound s = IsValid s.engine × IsLast s

module _ (visit_order : Map PortMap → Map PortMap) where
  save_selection-last : (e : Engine) → (save_selection visit_order e).last_maps ≡ e.last_maps
  save_selection-last e =
      save_selection-keeps visit_order (λ m choices maps s. s.last_maps ≡ maps) (λ s. refl) e

  Move-IsSound : {s t : Shared} → Move visit_order s t → IsSound s → IsSound t
  unfolding reconcile_selected
  Move-IsSound (poll_stores s found warnings n) h =
      (record { maps = h.0.maps; distinct = (dedupe_keys-first found warnings).0 }, λ maps e. cc)
  Move-IsSound (poll_reconciles s maps p) h =
      (reconcile_selected-IsValid visit_order maps s.engine h.0, λ other e. absurd (cc e))
  Move-IsSound (chooses s k on) h = (
    save_selection-IsValid visit_order _ (record { maps = h.0.maps; distinct = h.0.distinct }),
    λ maps e. save_selection-last _ ∙ h.1 maps e,
  )
  Move-IsSound (reapply_reads s pm maps e) h = h
  Move-IsSound (reapply_reconciles s before after maps e) h =
      (reconcile_selected-IsValid visit_order maps s.engine h.0, h.1)

  Moves-IsSound : {s t : Shared} → Moves visit_order s t → IsSound s → IsSound t
  Moves-IsSound still h = h
  Moves-IsSound (then_moves r m) h = Move-IsSound m (Moves-IsSound r h)

-- However the poll loop and any number of choices interleave, even if a choice reconciles a set that it
-- read before the poll stored a newer one: the step after which the set of a poll no longer waits brings
-- every tunnel from the state that it had into the one that the newest set asks for under all the
-- choices made by then, and changes neither the set nor the choices.
pub poll_reconciles-Settled :
    (visit_order : Map PortMap → Map PortMap) (e : Engine) (s t : Shared) (maps : List PortMap)
    (k : Bytes)
    → IsVisitOrder visit_order
    → IsValid e
    → Moves visit_order (alone e) s
    → s.polled ≡ some maps
    → Move visit_order s t
    → t.polled ≡ none
    → (s.engine.last_maps ≡ maps)
      × (t.engine.last_maps ≡ maps)
      × (t.engine.selected ≡ s.engine.selected)
      × Settled k (wish s.engine.selected k s.engine.last_maps) s.engine.manager t.engine.manager
unfolding alone reconcile_selected
poll_reconciles-Settled visit_order e s t maps k any_order v moves waits move done =
    let (valid, last) = Moves-IsSound visit_order moves (v, λ other q. absurd (cc q)) in
    let same = last maps waits in by_move valid same move done
  where
    by_move :
        {u : Shared}
        → IsValid s.engine
        → s.engine.last_maps ≡ maps
        → Move visit_order s u
        → u.polled ≡ none
        → (s.engine.last_maps ≡ maps)
          × (u.engine.last_maps ≡ maps)
          × (u.engine.selected ≡ s.engine.selected)
          × Settled k
              (wish s.engine.selected k s.engine.last_maps)
              s.engine.manager
              u.engine.manager
    by_move valid same (poll_stores _ found warnings n) d = absurd (cc (n, waits))
    by_move valid same (poll_reconciles _ ms p) d =
        let read : ms ≡ s.engine.last_maps = cc (p, waits, same) in
        let settled =
          reconcile_selected-Settled visit_order any_order s.engine s.engine.last_maps k valid.maps
            valid.distinct in
        (
          same,
          same,
          refl,
          subst
              (λ rows.
                Settled k (wish s.engine.selected k s.engine.last_maps) s.engine.manager
                  (reconcile_selected visit_order rows s.engine).manager)
              (sym read) settled,
        )
    by_move valid same (chooses _ j on) d = absurd (cc (d, waits))
    by_move valid same (reapply_reads _ pm ms q) d = absurd (cc (d, waits))
    by_move valid same (reapply_reconciles _ before after ms q) d = absurd (cc (d, waits))
