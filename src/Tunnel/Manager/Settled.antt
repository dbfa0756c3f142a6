-- ===== src/Tunnel/Manager/Settled.antt =====
-- `Reconcile` key by key: what is live, what is broken and what is on offer afterwards.
use auto_tunnel.Prelude.{
  ◌≡◌, refl, sym, ap, subst, ◌∙◌, ◌≢◌, inl, inr, Option, none, some, List, [], ◌∷◌, if◌then◌else◌,
  Bool-cases, All,
}
use auto_tunnel.Text.{Bytes, eqb}
use auto_tunnel.Text.Equality.{eqb_iff}
use auto_tunnel.GoMap.{Map, lookup, kept, IsMap, lookup-cons, lookup-keep}
use auto_tunnel.Discovery.Types.{PortMap, forwardable, target}
use auto_tunnel.State.{Tunnel}
use auto_tunnel.Tunnel.Forwarder.{Forwarder}
use auto_tunnel.Tunnel.Manager.{
  Manager, desired, still_wanted, wanted, drop_gone, Round, visit, visit_all, stop_all,
  before_visits, reconcile, IsOrderOf,
}
use auto_tunnel.Tunnel.Allocator.{Allocator, Net}
use auto_tunnel.Tunnel.Manager.Lookup.{View, view, Visited, visit_self, visit_other}
use auto_tunnel.Tunnel.Manager.Growth.{Between, Between-start, Between-visit, visit_all_absent}
use auto_tunnel.Tunnel.Manager.LastRow.{last_row, desired-last_row}

-- What the last loop makes of the view of a key that is in the map or not.
abbrev pub AllVisited : Allocator → Net → Bytes → Option PortMap → View → View → Type 0
AllVisited a net k none before after = after ≡ before
AllVisited a net k (some pm) before after =
    Visited a net k pm (forwardable pm) pm.offered before after

visit_all_here :
    (k : Bytes) (pm : PortMap) (order : Map PortMap) (r : Round)
    → All (λ e. k ≢ e.0) order
    → AllVisited r.manager.alloc r.manager.net k
        (some pm)
        (view k r.manager)
        (view k (visit_all ((k, pm) ∷ order) r).manager)
unfolding visit_all
visit_all_here k pm order r h =
    subst
      (Visited r.manager.alloc r.manager.net k pm (forwardable pm) pm.offered (view k r.manager))
      (sym (visit_all_absent k order (visit k pm r) h)) (visit_self k pm r)

-- `Listen` is called between two managers, and leaves what a desired row asks for.
abbrev pub Reached : Bytes → Option PortMap → View → Manager → Manager → Type 0
Reached k o before m n =
    (a : Allocator) × (net : Net) × Between k m n a net × AllVisited a net k o before (view k n)

visit_all_lem :
    (k : Bytes) (order : Map PortMap) (r : Round)
    → IsMap order
    → Reached k (lookup k order) (view k r.manager) r.manager (visit_all order r).manager
unfolding visit_all
visit_all_lem k [] r h = unfold lookup in (_, _, Between-start k r.manager r.manager, refl)
visit_all_lem k ((j, pm) ∷ order) r h =
    let n = (visit_all ((j, pm) ∷ order) r).manager in
    elim (Bool-cases (eqb j k)) [
      | inl e ↦
          let found : lookup k ((j, pm) ∷ order) ≡ some pm =
            lookup-cons k j pm order ∙ ap (λ b. if b then some pm else lookup k order) e in
          subst (λ o. Reached k o (view k r.manager) r.manager n) (sym found)
            (subst (λ i. Reached i (some pm) (view i r.manager) r.manager n) ((eqb_iff j k).0 e)
              (_, _, Between-start j r.manager n, visit_all_here j pm order r h.0))
      | inr e ↦
          let found : lookup k ((j, pm) ∷ order) ≡ lookup k order =
            lookup-cons k j pm order ∙ ap (λ b. if b then some pm else lookup k order) e in
          let (a, net, between, rest) = visit_all_lem k order (visit j pm r) h.1 in
          subst (λ o. Reached k o (view k r.manager) r.manager n) (sym found)
            (
              a,
              net,
              Between-visit k j pm order r a net e h.0 between,
              subst (λ v. AllVisited a net k (lookup k order) v (view k n)) (visit_other j k e pm r)
                  rest,
            )
    ]

-- A forwarder that dials the target of the row.
abbrev pub on_target : PortMap → Option Forwarder → Option Forwarder
on_target pm none = none
on_target pm (some f) = if eqb (target pm) (target f.port_map) then some f else none

-- What the first three loops leave of the view of a key.
abbrev pub surviving : Option PortMap → View → View
surviving none v = record { live = none; problem = none; offer = none }
surviving (some pm) v = record { live = on_target pm v.live; problem = v.problem; offer = v.offer }

-- The specification of `Reconcile` at one key, by what is desired of it now.
abbrev pub Settled : Bytes → Option PortMap → Manager → Manager → Type 0
Settled k o m n = Reached k o (surviving o (view k m)) m n

-- The maps of a manager hold each key once.
pub record AreMaps (m : Manager) : Type 0 where
  pub forwarders : IsMap m.forwarders
  pub problems : IsMap m.problems
  pub offered : IsMap m.offered

module _ (wants : Map PortMap) (k : Bytes) where
  kept_live :
      (o : Option PortMap) (x : Option Forwarder) (v : View)
      → lookup k wants ≡ o
      → kept (λ i f. still_wanted (lookup i wants) f) k x
        ≡ (surviving o (record v { live = x })).live
  unfolding still_wanted
  kept_live none none v e = refl
  kept_live none (some f) v e = rw e refl
  kept_live (some pm) none v e = refl
  kept_live (some pm) (some f) v e = rw e refl

  kept_row :
      (o : Option PortMap) (x : Option Tunnel)
      → lookup k wants ≡ o
      → kept (λ i row. wanted (lookup i wants)) k x ≡ (if wanted o then x else none)
  unfolding wanted
  kept_row none none e = refl
  kept_row none (some t) e = rw e refl
  kept_row (some pm) none e = refl
  kept_row (some pm) (some t) e = rw e refl

  row_surviving :
      (o : Option PortMap) (v : View)
      → ((if wanted o then v.problem else none) ≡ (surviving o v).problem)
        × ((if wanted o then v.offer else none) ≡ (surviving o v).offer)
  unfolding wanted
  row_surviving none v = (refl, refl)
  row_surviving (some pm) v = (refl, refl)

  drop_gone_lem :
      (m : Manager) (o : Option PortMap)
      → AreMaps m
      → lookup k wants ≡ o
      → view k (drop_gone wants m) ≡ surviving o (view k m)
  unfolding drop_gone
  drop_gone_lem m o a e =
      let live =
        lookup-keep _ k m.forwarders a.forwarders
        ∙ kept_live o (lookup k m.forwarders) (view k m) e in
      let problem =
        lookup-keep _ k m.problems a.problems
        ∙ kept_row o (lookup k m.problems) e
        ∙ (row_surviving o (view k m)).0 in
      let offer =
        lookup-keep _ k m.offered a.offered
        ∙ kept_row o (lookup k m.offered) e
        ∙ (row_surviving o (view k m)).1 in
      λ i. record { live = live i; problem = problem i; offer = offer i }

-- Dropping and stopping change neither the allocator nor, but for the ports that are closed at last, the
-- machine.
whole :
    (order wants : Map PortMap) (k : Bytes) (o : Option PortMap) (v : View) (m : Manager)
    → let r = visit_all order (before_visits wants m) in
      Reached k o v (drop_gone wants m) r.manager → Reached k o v m (stop_all r)
unfolding drop_gone before_visits stop_all
whole order wants k o v m (a, net, b, rest) = (
  a,
  net,
  record {
    bind = b.bind;
    base = b.base;
    size = b.size;
    own = b.own;
    busy = b.busy;
    keeps = b.keeps;
    adds = b.adds;
  },
  rest,
)

-- The same, by what the loop over the rows makes of them.
pub reconcile-desired :
    (order : Map PortMap) (maps : List PortMap) (m : Manager) (k : Bytes)
    → AreMaps m
    → IsOrderOf order (desired maps)
    → Settled k (lookup k (desired maps)) m (reconcile order maps m)
unfolding reconcile
reconcile-desired order maps m k a o =
    let wants = desired maps in
    let n = (visit_all order (before_visits wants m)).manager in
    let all = visit_all_lem k order (before_visits wants m) o.once in
    let gone = drop_gone_lem wants k m (lookup k order) a (sym (o.same k)) in
    whole order wants k (lookup k wants) (surviving (lookup k wants) (view k m)) m (
      subst (λ w. Reached k w (surviving w (view k m)) (drop_gone wants m) n) (o.same k)
        (subst (λ v. Reached k (lookup k order) v (drop_gone wants m) n) gone
          (unfold before_visits in all)))

-- If the manager's maps hold each key once and the rows are visited in any order, each once,
-- `Reconcile` leaves each key as the last row with that key asks. Without such a row, nothing is left
-- of the key. A forwarder is live just as before if the row is on, or is one SSH cannot carry, and the
-- forwarder dials the target of the row. A row that SSH cannot carry has its problem recorded. A row
-- that is only listed has no forwarder, and is on offer. A row that is on, with no forwarder kept, has
-- a new one on the port that `Listen` returned for it, and an error row just if `Listen` found none.
-- `Listen` was called with the range and the key's own port of before, while all ports open before were
-- open still and every other one that this program held was that of a forwarder that is live
-- afterwards. Only a listed row is on offer, and a listed row or a new forwarder has no problem
-- recorded.
pub reconcile-Settled :
    (order : Map PortMap) (maps : List PortMap) (m : Manager) (k : Bytes)
    → AreMaps m
    → IsOrderOf order (desired maps)
    → Settled k (last_row k maps) m (reconcile order maps m)
reconcile-Settled order maps m k a o =
    subst (λ w. Settled k w m (reconcile order maps m)) (desired-last_row k maps)
      (reconcile-desired order maps m k a o)
