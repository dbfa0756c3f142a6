-- ===== src/Tunnel/Manager/LastRow.antt =====
-- What `desired` holds for a key: the last row with it.
use auto_tunnel.Prelude.{
  ◌≡◌, refl, ap, ◌∙◌, Option, none, some, List, [], ◌∷◌, if◌then◌else◌, Bool, true, false,
}
use auto_tunnel.Text.{Bytes, eqb}
use auto_tunnel.GoMap.{Map, lookup, insert, lookup-insert}
use auto_tunnel.Discovery.Types.{PortMap, key}
use auto_tunnel.Tunnel.Manager.{scrub, desired, desired_from}

-- The last row with a key, scrubbed.
abbrev pub last_row : Bytes → List PortMap → Option PortMap
last_row k [] = none
last_row k (pm ∷ maps) = elim (last_row k maps) [
  | some later ↦ some later
  | none ↦ if eqb (key pm) k then some (scrub pm) else none
]

abbrev row_or : Option PortMap → Option PortMap → Option PortMap
row_or none old = old
row_or (some pm) old = some pm

row_or-if :
    (b : Bool) (pm : PortMap) (o old : Option PortMap)
    → row_or o (if b then some pm else old)
      ≡ row_or (elim o [ some later ↦ some later | none ↦ if b then some pm else none ]) old
row_or-if true pm none old = refl
row_or-if false pm none old = refl
row_or-if b pm (some later) old = refl

desired_from-last_row :
    (k : Bytes) (maps : List PortMap) (d : Map PortMap)
    → lookup k (desired_from d maps) ≡ row_or (last_row k maps) (lookup k d)
unfolding desired_from
desired_from-last_row k [] d = refl
desired_from-last_row k (pm ∷ maps) d =
    desired_from-last_row k maps (insert (key pm) (scrub pm) d)
    ∙ ap (row_or (last_row k maps)) (lookup-insert (key pm) k (scrub pm) d)
    ∙ row_or-if (eqb (key pm) k) (scrub pm) (last_row k maps) (lookup k d)

row_or-none : (o : Option PortMap) → row_or o none ≡ o
row_or-none none = refl
row_or-none (some pm) = refl

pub desired-last_row : (k : Bytes) (maps : List PortMap) → lookup k (desired maps) ≡ last_row k maps
unfolding desired lookup
desired-last_row k maps = desired_from-last_row k maps [] ∙ row_or-none (last_row k maps)
