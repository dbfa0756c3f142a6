-- ===== src/Tunnel/Manager/Single/Shown.antt =====
-- What a manager shows after any calls.
use auto_tunnel.Prelude.{
  ◌≡◌, refl, sym, ap, subst, ◌∙◌, inl, inr, Bool, true, false, Option, none, some, List, [], ◌∷◌,
  arith, if◌then◌else◌, Bool-cases, All,
}
use auto_tunnel.Text.{Bytes, eqb}
use auto_tunnel.Text.Digits.{Lacks}
use auto_tunnel.Text.Equality.{eqb_iff}
use auto_tunnel.GoMap.{Map, lookup, insert, lookup-insert}
use auto_tunnel.Discovery.Types.{PortMap, forwardable, key}
use auto_tunnel.Discovery.Types.Key.{is_carried, is_carried-key}
use auto_tunnel.Tunnel.Allocator.{Allocator, Net}
use auto_tunnel.Tunnel.Forwarder.{Forwarder, toggle_pause}
use auto_tunnel.Tunnel.Manager.{
  Manager, new_manager, scrub, desired_from, desired, reconcile, IsOrderOf, toggled,
  toggle_pause_of,
}
use auto_tunnel.Tunnel.Manager.Lookup.{view}
use auto_tunnel.Tunnel.Manager.Maps.{reconcile-AreMaps, toggle_pause_of-AreMaps}
use auto_tunnel.Tunnel.Manager.Settled.{AreMaps, reconcile-desired}
use auto_tunnel.Tunnel.Manager.Single.{
  one_of, rows_shown, IsSingle, row_if, one_of-none, Fits, Settled-IsSingle,
}

-- No protocol of a row holds a colon.
abbrev pub ArePlain : List PortMap → Type 0
ArePlain = All (λ pm. Lacks b':' pm.proto)

insert-Fits :
    (k : Bytes) (pm : PortMap) (d : Map PortMap)
    → Lacks b':' pm.proto
    → Fits (is_carried k) (lookup k d)
    → Fits (is_carried k) (lookup k (insert (key pm) (scrub pm) d))
insert-Fits k pm d plain h =
    rw (lookup-insert (key pm) k (scrub pm) d) (elim (Bool-cases (eqb (key pm) k)) [
      | inl e ↦
          let same = (eqb_iff (key pm) k).0 e in
          let carried = sym (is_carried-key pm plain) ∙ ap is_carried same in
          rw e (unfold scrub forwardable in carried)
      | inr e ↦ rw e h
    ])

desired_from-Fits :
    (k : Bytes) (maps : List PortMap) (d : Map PortMap)
    → ArePlain maps
    → Fits (is_carried k) (lookup k d)
    → Fits (is_carried k) (lookup k (desired_from d maps))
unfolding desired_from
desired_from-Fits k [] d plain h = h
desired_from-Fits k (pm ∷ maps) d plain h =
    desired_from-Fits k maps _ plain.1 (insert-Fits k pm d plain.0 h)

desired-Fits :
    (k : Bytes) (maps : List PortMap)
    → ArePlain maps
    → Fits (is_carried k) (lookup k (desired maps))
unfolding desired lookup
desired-Fits k maps plain = desired_from-Fits k maps [] plain tt

-- The calls that a manager has seen since NewManager.
pub data History : Manager → Type 0 where
  made : (alloc : Allocator) (net : Net) → History (new_manager alloc net)
  reconciled :
      {m : Manager} (order : Map PortMap) (maps : List PortMap)
      → History m
      → IsOrderOf order (desired maps)
      → ArePlain maps
      → History (reconcile order maps m)
  paused : {m : Manager} (k : Bytes) → History m → History (toggle_pause_of k m).0

abbrev AreSingle : Manager → Type 0
AreSingle m = (k : Bytes) → IsSingle (is_carried k) (view k m)

reconcile-IsSingle :
    (order : Map PortMap) (maps : List PortMap) (m : Manager) (k : Bytes)
    → AreMaps m
    → AreSingle m
    → IsOrderOf order (desired maps)
    → ArePlain maps
    → IsSingle (is_carried k) (view k (reconcile order maps m))
      × (rows_shown (view k (reconcile order maps m)) ≡ row_if (lookup k (desired maps)))
reconcile-IsSingle order maps m k a s o plain =
    Settled-IsSingle k (is_carried k) (lookup k (desired maps)) m _ (desired-Fits k maps plain)
      (s k) (reconcile-desired order maps m k a o)

one_of-replaced :
    {A : Type 0} (t : Bool) (x y : A) (o : Option A)
    → (t ≡ true → o ≡ some x)
    → one_of (if t then some y else o) ≡ one_of o
one_of-replaced true x y o h = sym (ap one_of (h refl))
one_of-replaced false x y o h = refl

toggled-live :
    (j k : Bytes) (m : Manager) (o : Option Forwarder)
    → lookup j m.forwarders ≡ o
    → one_of (lookup k (toggled j m o).0.forwarders) ≡ one_of (lookup k m.forwarders)
unfolding toggled
toggled-live j k m none e = refl
toggled-live j k m (some f) e =
    ap one_of (lookup-insert j k (toggle_pause f).0 m.forwarders)
    ∙ one_of-replaced (eqb j k) f _ (lookup k m.forwarders)
        (λ t. subst (λ i. lookup i m.forwarders ≡ some f) ((eqb_iff j k).0 t) e)

toggled-rows :
    (j : Bytes) (m : Manager) (o : Option Forwarder)
    → ((toggled j m o).0.problems ≡ m.problems) × ((toggled j m o).0.offered ≡ m.offered)
unfolding toggled
toggled-rows j m none = (refl, refl)
toggled-rows j m (some f) = (refl, refl)

toggled-AreSingle : (j : Bytes) (m : Manager) → AreSingle m → AreSingle (toggle_pause_of j m).0
unfolding toggle_pause_of
toggled-AreSingle j m s k =
    let l = toggled-live j k m (lookup j m.forwarders) refl in
    let (p, o) = toggled-rows j m (lookup j m.forwarders) in
    (rw (p, o) (omega (arith, (s k).0)), λ e. one_of-none _ (l ∙ ap one_of ((s k).1 e)))

History-AreMaps : {m : Manager} → History m → AreMaps m
History-AreMaps (made alloc net) =
    unfold new_manager in record { forwarders = tt; problems = tt; offered = tt }
History-AreMaps (reconciled {m} order maps h o plain) =
    reconcile-AreMaps order maps m (History-AreMaps h)
History-AreMaps (paused {m} k h) = toggle_pause_of-AreMaps k m (History-AreMaps h)

History-AreSingle : {m : Manager} → History m → AreSingle m
History-AreSingle (made alloc net) k = unfold new_manager lookup in (omega arith, λ e. refl)
History-AreSingle (reconciled {m} order maps h o plain) k =
    (reconcile-IsSingle order maps m k (History-AreMaps h) (History-AreSingle h) o plain).0
History-AreSingle (paused {m} j h) k = toggled-AreSingle j m (History-AreSingle h) k

-- After a `Reconcile`, whatever calls of `Reconcile` and TogglePause the manager has seen since it was
-- made, a key has just one row, live, broken or on offer, if a row with the key is wanted, and none
-- otherwise. No protocol of a row holds a colon, and the wanted rows are visited in any order, each
-- once.
pub reconcile-shown :
    (order : Map PortMap) (maps : List PortMap) (m : Manager) (k : Bytes)
    → History m
    → IsOrderOf order (desired maps)
    → ArePlain maps
    → rows_shown (view k (reconcile order maps m)) ≡ row_if (lookup k (desired maps))
reconcile-shown order maps m k h o plain =
    (reconcile-IsSingle order maps m k (History-AreMaps h) (History-AreSingle h) o plain).1
