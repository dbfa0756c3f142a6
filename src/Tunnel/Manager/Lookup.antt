-- ===== src/Tunnel/Manager/Lookup.antt =====
-- The rows of one key, before and after a round of the last loop of `Reconcile`.
use auto_tunnel.Prelude.{
  ◌≡◌, refl, ap, ◌∙◌, ◌≢◌, Bool, true, false, Option, none, some, arith, if◌then◌else◌,
}
use auto_tunnel.Text.{Bytes, eqb}
use auto_tunnel.Text.Equality.{eqb_iff, eqb_refl}
use auto_tunnel.GoMap.{Map, lookup, insert, delete, lookup-insert, lookup-delete}
use auto_tunnel.Discovery.Types.{PortMap, preferred_local, forwardable}
use auto_tunnel.State.{Tunnel}
use auto_tunnel.Tunnel.Allocator.{Allocator, Net, Listened, listen, no_free_port}
use auto_tunnel.Tunnel.Forwarder.{Forwarder, new_forwarder}
use auto_tunnel.Tunnel.Manager.{
  Manager, unsupported_row, error_row, offered_row, started, start, Round, disabled, refused,
  no_offer, enabled, visit_by, visit,
}

-- What the three maps hold for one key.
pub record View : Type 0 where
  pub live : Option Forwarder
  pub problem : Option Tunnel
  pub offer : Option Tunnel

abbrev pub view : Bytes → Manager → View
view k m = record {
  live = lookup k m.forwarders;
  problem = lookup k m.problems;
  offer = lookup k m.offered;
}

-- A row that is on and has no live forwarder, by what `Listen` returned: a new forwarder on that port, or
-- the row that says that none was free.
abbrev pub Tried : Allocator → Bytes → PortMap → Option Listened → View → Type 0
Tried a k pm (some l) after =
    (after.live ≡ some (new_forwarder k pm l.port a.bind))
    × (after.problem ≡ none)
    × (after.offer ≡ none)
Tried a k pm none after =
    (after.live ≡ none)
    × (after.problem ≡ some (error_row pm (no_free_port a k (preferred_local pm))))
    × (after.offer ≡ none)

-- A row that is on: a live forwarder stays as it is, and otherwise `Listen` is called.
abbrev pub Enabled : Allocator → Net → Bytes → PortMap → Option Forwarder → View → View → Type 0
Enabled a net k pm (some f) before after =
    (after.live ≡ some f) × (after.problem ≡ before.problem) × (after.offer ≡ none)
Enabled a net k pm none before after = Tried a k pm (listen a net k (preferred_local pm)) after

-- What a round of the last loop makes of the view of its own key, by the two tests of a round.
abbrev pub Visited : Allocator → Net → Bytes → PortMap → Bool → Bool → View → View → Type 0
Visited a net k pm false listed before after =
    (after.live ≡ before.live) × (after.problem ≡ some (unsupported_row pm)) × (after.offer ≡ none)
Visited a net k pm true true before after =
    (after.live ≡ none) × (after.problem ≡ none) × (after.offer ≡ some (offered_row pm))
Visited a net k pm true false before after = Enabled a net k pm before.live before after

pub lookup-insert_self :
    {V : Type 0} (k : Bytes) (v : V) (m : Map V) → lookup k (insert k v m) ≡ some v
lookup-insert_self k v m =
    lookup-insert k k v m ∙ ap (λ b. if b then some v else lookup k m) (eqb_refl k)

lookup-delete_self : {V : Type 0} (k : Bytes) (m : Map V) → lookup k (delete k m) ≡ none
lookup-delete_self k m = lookup-delete k k m ∙ ap (λ b. if b then none else lookup k m) (eqb_refl k)

module _ (k : Bytes) (pm : PortMap) (r : Round) where
  abbrev before : View
  before = view k r.manager

  refused_self :
      let after = view k (refused k pm r).manager in
      (after.live ≡ before.live)
      × (after.problem ≡ some (unsupported_row pm))
      × (after.offer ≡ none)
  unfolding refused
  refused_self = (
    refl,
    lookup-insert_self k (unsupported_row pm) r.manager.problems,
    lookup-delete_self k r.manager.offered,
  )

  disabled_self :
      (o : Option Forwarder)
      → lookup k r.manager.forwarders ≡ o
      → let after = view k (disabled k pm r o).manager in
        (after.live ≡ none) × (after.problem ≡ none) × (after.offer ≡ some (offered_row pm))
  unfolding disabled
  disabled_self none e = (
    e,
    lookup-delete_self k r.manager.problems,
    lookup-insert_self k (offered_row pm) r.manager.offered,
  )
  disabled_self (some f) e = (
    lookup-delete_self k r.manager.forwarders,
    lookup-delete_self k r.manager.problems,
    lookup-insert_self k (offered_row pm) r.manager.offered,
  )

  started_self :
      (o : Option Listened)
      → lookup k r.manager.forwarders ≡ none
      → Tried r.manager.alloc k pm o (view k (started k pm (no_offer k r.manager) o))
  unfolding started no_offer
  started_self none e =
      (e, lookup-insert_self k _ r.manager.problems, lookup-delete_self k r.manager.offered)
  started_self (some l) e = (
    lookup-insert_self k _ r.manager.forwarders,
    lookup-delete_self k r.manager.problems,
    lookup-delete_self k r.manager.offered,
  )

  enabled_self :
      (o : Option Forwarder)
      → lookup k r.manager.forwarders ≡ o
      → Enabled r.manager.alloc r.manager.net k pm o before (view k (enabled k pm r o).manager)
  unfolding enabled no_offer
  enabled_self (some f) e = (e, refl, lookup-delete_self k r.manager.offered)
  enabled_self none e = unfold start in started_self _ e

  visit_by_self :
      (carried listed : Bool)
      → Visited r.manager.alloc r.manager.net k pm carried listed before
          (view k (visit_by k pm r carried listed).manager)
  unfolding visit_by
  visit_by_self false listed = refused_self
  visit_by_self true true = disabled_self (lookup k r.manager.forwarders) refl
  visit_by_self true false = enabled_self (lookup k r.manager.forwarders) refl

  pub visit_self :
      Visited r.manager.alloc r.manager.net k pm
        (forwardable pm)
        pm.offered
        before
        (view k (visit k pm r).manager)
  unfolding visit
  visit_self = visit_by_self (forwardable pm) pm.offered

pub not_eqb : (s t : Bytes) → s ≢ t → eqb s t ≡ false
not_eqb s t n = ground (arith, eqb_iff s t)

-- A round leaves the view of every other key.
module _ (k j : Bytes) (other : eqb k j ≡ false) where
  insert_other : {V : Type 0} (v : V) (m : Map V) → lookup j (insert k v m) ≡ lookup j m
  insert_other v m = lookup-insert k j v m ∙ ap (λ b. if b then some v else lookup j m) other

  delete_other : {V : Type 0} (m : Map V) → lookup j (delete k m) ≡ lookup j m
  delete_other m = lookup-delete k j m ∙ ap (λ b. if b then none else lookup j m) other

  started_other :
      (pm : PortMap) (m : Manager) (o : Option Listened)
      → view j (started k pm (no_offer k m) o) ≡ view j m
  unfolding started no_offer
  started_other pm m none = ground (
    arith,
    insert_other (error_row pm (no_free_port m.alloc k (preferred_local pm))) m.problems,
    delete_other m.offered,
  )
  started_other pm m (some l) = ground (
    arith,
    insert_other (new_forwarder k pm l.port m.alloc.bind) m.forwarders,
    delete_other m.problems,
    delete_other m.offered,
  )

  disabled_other :
      (pm : PortMap) (r : Round) (o : Option Forwarder)
      → view j (disabled k pm r o).manager ≡ view j r.manager
  unfolding disabled
  disabled_other pm r none =
      ground
        (arith, insert_other (offered_row pm) r.manager.offered, delete_other r.manager.problems)
  disabled_other pm r (some f) = ground (
    arith,
    insert_other (offered_row pm) r.manager.offered,
    delete_other r.manager.problems,
    delete_other r.manager.forwarders,
  )

  enabled_other :
      (pm : PortMap) (r : Round) (o : Option Forwarder)
      → view j (enabled k pm r o).manager ≡ view j r.manager
  unfolding enabled
  enabled_other pm r none = unfold start in started_other pm r.manager _
  enabled_other pm r (some f) = unfold no_offer in ground (arith, delete_other r.manager.offered)

  refused_other : (pm : PortMap) (r : Round) → view j (refused k pm r).manager ≡ view j r.manager
  unfolding refused
  refused_other pm r =
      ground (
        arith,
        insert_other (unsupported_row pm) r.manager.problems,
        delete_other r.manager.offered,
      )

  visit_by_other :
      (pm : PortMap) (r : Round) (carried listed : Bool)
      → view j (visit_by k pm r carried listed).manager ≡ view j r.manager
  unfolding visit_by
  visit_by_other pm r false listed = refused_other pm r
  visit_by_other pm r true true = disabled_other pm r (lookup k r.manager.forwarders)
  visit_by_other pm r true false = enabled_other pm r (lookup k r.manager.forwarders)

  pub visit_other : (pm : PortMap) (r : Round) → view j (visit k pm r).manager ≡ view j r.manager
  unfolding visit
  visit_other pm r = visit_by_other pm r (forwardable pm) pm.offered
