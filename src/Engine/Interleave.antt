-- ===== src/Engine/Interleave.antt =====
-- engine.go: reconcile, reapply and the choices as the goroutines of the poll loop and of the dashboard
-- interleave. What runs under one lock is one step: the last set under `mu`, the choices under `selMu`,
-- and the manager under `reconcileMu`, which reads the choices again.
pub mod Settles
use auto_tunnel.Prelude.{◌≡◌, Bool, Option, none, some, List, [], ◌∷◌, ◌++◌}
use auto_tunnel.Text.{Bytes}
use auto_tunnel.GoMap.{Map, insert}
use auto_tunnel.Discovery.Types.{PortMap}
use auto_tunnel.Engine.{Engine, dedupe_keys, reconcile_selected, save_selection}

-- `polled` is the set that the poll has stored and not yet reconciled, and `read` the sets that calls
-- of reapply have read and not yet reconciled.
pub record Shared : Type 0 where
  pub engine : Engine
  pub polled : Option (List PortMap)
  pub read : List (List PortMap)

unfoldable pub alone : Engine → Shared
alone e = record { engine = e; polled = none; read = [] }

abbrev pub stored : List PortMap → Shared → Shared
stored maps s = record s { engine = record s.engine { last_maps = maps }; polled = some maps }

module _ (visit_order : Map PortMap → Map PortMap) where
  pub data Move : Shared → Shared → Type 0 where
    -- `e.lastMaps = maps`, with what dedupeKeys left.
    poll_stores :
        (s : Shared) (found : List PortMap) (warnings : List Bytes)
        → s.polled ≡ none
        → Move s (stored (dedupe_keys found warnings).0 s)
    poll_reconciles :
        (s : Shared) (maps : List PortMap)
        → s.polled ≡ some maps
        → Move s (record s { engine = reconcile_selected visit_order maps s.engine; polled = none })
    -- `e.selected[key] = on`, and saving.
    chooses :
        (s : Shared) (k : Bytes) (on : Bool)
        → Move s (record s {
          engine =
              save_selection visit_order
                (record s.engine { selected = insert k on s.engine.selected });
        })
    -- `maps := e.lastMaps` of reapply, which goes on unless there are none.
    reapply_reads :
        (s : Shared) (pm : PortMap) (maps : List PortMap)
        → s.engine.last_maps ≡ pm ∷ maps
        → Move s (record s { read = (pm ∷ maps) ∷ s.read })
    reapply_reconciles :
        (s : Shared) (before after : List (List PortMap)) (maps : List PortMap)
        → s.read ≡ before ++ maps ∷ after
        → Move s (record s {
          engine = reconcile_selected visit_order maps s.engine;
          read = before ++ after;
        })

  pub data Moves (s : Shared) : Shared → Type 0 where
    still : Moves s s
    then_moves : {t u : Shared} → Moves s t → Move t u → Moves s u
