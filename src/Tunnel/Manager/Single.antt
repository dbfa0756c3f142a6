-- ===== src/Tunnel/Manager/Single.antt =====
-- The rows of one key in the manager's three maps: the dashboard shows one row for each candidate.
pub mod Shown
use auto_tunnel.Prelude.{
  ℕ, ◌+◌, ◌≤◌, ◌≡◌, refl, sym, subst, ◌∙◌, inl, inr, Bool, true, false, Option, none, some, arith,
  Bool-cases,
}
use auto_tunnel.Text.{Bytes, eqb}
use auto_tunnel.Discovery.Types.{PortMap, forwardable, target}
use auto_tunnel.Tunnel.Forwarder.{Forwarder}
use auto_tunnel.Tunnel.Allocator.{Allocator, Net, Listened}
use auto_tunnel.Tunnel.Manager.{Manager}
use auto_tunnel.Tunnel.Manager.Lookup.{View, view, Visited, Tried, Enabled}
use auto_tunnel.Tunnel.Manager.Settled.{on_target, surviving, Settled}

abbrev pub one_of : {A : Type 0} → Option A → ℕ
one_of none = 0
one_of (some x) = 1

-- How many rows a key has.
abbrev pub rows_shown : View → ℕ
rows_shown v = one_of v.live + one_of v.problem + one_of v.offer

-- A key has one row at most, and a forwarder only if SSH carries its protocol.
abbrev pub IsSingle : Bool → View → Type 0
IsSingle carried v = (rows_shown v ≤ 1) × (carried ≡ false → v.live ≡ none)

-- How many rows a key has if one is wanted or not.
abbrev pub row_if : Option PortMap → ℕ
row_if none = 0
row_if (some pm) = 1

pub one_of-none : {A : Type 0} (o : Option A) → one_of o ≡ 0 → o ≡ none
one_of-none none h = refl
one_of-none (some x) h = absurd (omega arith)

abbrev pub Fits : Bool → Option PortMap → Type 0
Fits carried none = Unit {0}
Fits carried (some pm) = forwardable pm ≡ carried

module _ (a : Allocator) (net : Net) (k : Bytes) (pm : PortMap) where
  Tried-IsSingle :
      (o : Option Listened) (after : View)
      → Tried a k pm o after
      → IsSingle true after × (rows_shown after ≡ 1)
  Tried-IsSingle (some r) after (l, p, o) = (rw (l, p, o) (omega arith, λ t. cc), rw (l, p, o) refl)
  Tried-IsSingle none after (l, p, o) = (rw (l, p, o) (omega arith, λ t. refl), rw (l, p, o) refl)

  Enabled-IsSingle :
      (l : Option Forwarder) (before after : View)
      → before.live ≡ l
      → IsSingle true before
      → Enabled a net k pm l before after
      → IsSingle true after × (rows_shown after ≡ 1)
  Enabled-IsSingle (some f) before after e s (l, p, o) =
      let alone : one_of before.live ≡ 1 = rw e refl in
      let fixed : before.problem ≡ none = one_of-none before.problem (omega arith) in
      let gone : after.problem ≡ none = p ∙ fixed in
      (rw (l, gone, o) (omega arith, λ t. cc), rw (l, gone, o) refl)
  Enabled-IsSingle none before after e s v = Tried-IsSingle _ after v

  Visited-IsSingle :
      (carried listed : Bool) (before after : View)
      → IsSingle carried before
      → Visited a net k pm carried listed before after
      → IsSingle carried after × (rows_shown after ≡ 1)
  Visited-IsSingle false listed before after s (l, p, o) =
      let gone : after.live ≡ none = l ∙ s.1 refl in
      (rw (gone, p, o) (omega arith, λ e. refl), rw (gone, p, o) refl)
  Visited-IsSingle true true before after s (l, p, o) =
      (rw (l, p, o) (omega arith, λ e. refl), rw (l, p, o) refl)
  Visited-IsSingle true false before after s v = Enabled-IsSingle before.live before after refl s v

-- A forwarder that is dropped is no row.
on_target-le : (pm : PortMap) (o : Option Forwarder) → one_of (on_target pm o) ≤ one_of o
on_target-le pm none = omega arith
on_target-le pm (some f) = elim (Bool-cases (eqb (target pm) (target f.port_map))) [
  | inl e ↦ rw e (omega arith)
  | inr e ↦ rw e (omega arith)
]

on_target-none : (pm : PortMap) (o : Option Forwarder) → o ≡ none → on_target pm o ≡ none
on_target-none pm o e = rw e refl

surviving-IsSingle :
    (carried : Bool) (o : Option PortMap) (v : View)
    → IsSingle carried v
    → IsSingle carried (surviving o v)
surviving-IsSingle carried none v s = (omega arith, λ e. refl)
surviving-IsSingle carried (some pm) v s =
    (omega (arith, on_target-le pm v.live), λ e. on_target-none pm v.live (s.1 e))

pub Settled-IsSingle :
    (k : Bytes) (carried : Bool) (o : Option PortMap) (m n : Manager)
    → Fits carried o
    → IsSingle carried (view k m)
    → Settled k o m n
    → IsSingle carried (view k n) × (rows_shown (view k n) ≡ row_if o)
Settled-IsSingle k carried none m n f s (a, net, b, h) =
    subst (λ w. IsSingle carried w × (rows_shown w ≡ 0)) (sym h)
      (surviving-IsSingle carried none (view k m) s, refl)
Settled-IsSingle k carried (some pm) m n f s (a, net, b, h) =
    let left = surviving-IsSingle carried (some pm) (view k m) s in
    Visited-IsSingle a net k pm carried pm.offered _ (view k n) left
      (subst (λ c. Visited a net k pm c pm.offered (surviving (some pm) (view k m)) (view k n)) f h)
