-- ===== src/Tunnel/Allocator/Order.antt =====
-- The order in which `Listen` looks for a port, and what it remembers.
use auto_tunnel.Prelude.{
  ℕ, zero, suc, ◌<◌, ◌≡◌, refl, sym, ap, subst, ◌∙◌, ◌⊎◌, inl, inr, Bool, true, false, not, ◌&&◌,
  Option, none, some, List, [], ◌∷◌, arith, if◌then◌else◌, Bool-cases,
}
use auto_tunnel.Prelude.Int.{ℤ, pos, negsuc, ◌+ℤ◌, leb_ℤ, eqb_ℤ}
use auto_tunnel.Text.{Bytes, eqb}
use auto_tunnel.GoMap.{lookup, lookup-insert}
use auto_tunnel.Tunnel.Allocator.{
  Allocator, Net, member, free, valid_port, fallback_ports, size_of, sticky, candidates, remember,
  Listened, listen,
}
use auto_tunnel.Tunnel.Allocator.Listen.{usable, first_usable, opened, listen-first_usable}

abbrev pub unheld : ℤ → List ℤ → Bool
unheld p [] = true
unheld p (q ∷ qs) = not (eqb_ℤ p q) && unheld p qs

-- A port from 1 to 65535 that no other program holds and this one does not listen on.
abbrev pub bindable : Net → ℤ → Bool
bindable net p =
    leb_ℤ (pos 1) p && (leb_ℤ p (pos 65535) && (not (net.busy p) && unheld p net.open_ports))

unheld_lem : (p : ℤ) (ports : List ℤ) → not (member p ports) ≡ unheld p ports
unfolding member
unheld_lem p [] = refl
unheld_lem p (q ∷ qs) = ground (arith, unheld_lem p qs)

bindable_lem : (net : Net) (p : ℤ) → usable net p ≡ bindable net p
unfolding valid_port free
bindable_lem net p = ground (arith, unheld_lem p net.open_ports)

-- The first of some ports in a row that can be bound, or that there is none.
abbrev pub FirstInRange : Net → ℤ → ℕ → Option ℤ → Type 0
FirstInRange net base size none = (i : ℕ) → i < size → bindable net (base +ℤ pos i) ≡ false
FirstInRange net base size (some p) =
    (i : ℕ) × (i < size)
    × (p ≡ base +ℤ pos i)
    × (bindable net p ≡ true)
    × ((j : ℕ) → j < i → bindable net (base +ℤ pos j) ≡ false)

-- The port that was bound for a key the last time, the one that is preferred, and the range behind.
abbrev pub Picks : Net → ℤ → ℤ → ℤ → ℕ → Option ℤ → Type 0
Picks net last preferred base size o =
    ((o ≡ some last) × (bindable net last ≡ true))
    ⊎ ((bindable net last ≡ false)
        × (((o ≡ some preferred) × (bindable net preferred ≡ true))
            ⊎ ((bindable net preferred ≡ false) × FirstInRange net base size o)))

add_zero : (b : ℤ) → b +ℤ pos 0 ≡ b
unfolding ◌+ℤ◌
add_zero (pos n) = ground arith
add_zero (negsuc n) = ground arith

add_suc : (b : ℤ) (i : ℕ) → (b +ℤ pos 1) +ℤ pos i ≡ b +ℤ pos (suc i)
unfolding ◌+ℤ◌
add_suc (pos n) i = ground arith
add_suc (negsuc n) i = ground arith

module _ (net : Net) where
  shift_below :
      (base : ℤ) (n : ℕ)
      → bindable net base ≡ false
      → ((j : ℕ) → j < n → bindable net (base +ℤ pos 1 +ℤ pos j) ≡ false)
      → (j : ℕ) → j < suc n
      → bindable net (base +ℤ pos j) ≡ false
  shift_below base n first rest zero lt = ap (bindable net) (add_zero base) ∙ first
  shift_below base n first rest (suc j) lt =
      ap (bindable net) (sym (add_suc base j)) ∙ rest j (omega arith)

  shift :
      (base : ℤ) (n : ℕ) (o : Option ℤ)
      → bindable net base ≡ false
      → FirstInRange net (base +ℤ pos 1) n o
      → FirstInRange net base (suc n) o
  shift base n none first rest = shift_below base n first rest
  shift base n (some p) first (i, lt, at_i, can, before) =
      (suc i, omega arith, at_i ∙ add_suc base i, can, shift_below base i first before)

  in_range : (base : ℤ) (n : ℕ) → FirstInRange net base n (first_usable net (fallback_ports base n))
  unfolding fallback_ports
  in_range base zero = λ i lt. absurd (omega arith)
  in_range base (suc n) = elim (Bool-cases (usable net base)) [
    | inl u ↦ rw u (
      0,
      omega arith,
      sym (add_zero base),
      sym (bindable_lem net base) ∙ u,
      λ j lt. absurd (omega arith),
    )
    | inr u ↦ rw u (shift base n _ (sym (bindable_lem net base) ∙ u) (in_range (base +ℤ pos 1) n))
  ]

  picks :
      (last preferred base : ℤ) (size : ℕ)
      → Picks net last preferred base size
          (first_usable net (last ∷ preferred ∷ fallback_ports base size))
  picks last preferred base size = elim (Bool-cases (usable net last)) [
    | inl l ↦ rw l (inl (refl, sym (bindable_lem net last) ∙ l))
    | inr l ↦ rw l (
        inr (
          sym (bindable_lem net last) ∙ l,
          elim (Bool-cases (usable net preferred)) [
            | inl p ↦ rw p (inl (refl, sym (bindable_lem net preferred) ∙ p))
            | inr p ↦ rw p (inr (sym (bindable_lem net preferred) ∙ p, in_range base size))
          ],
        ))
  ]

-- What a call leaves: the port is open as well, and the key's port is the new one, and no other key's
-- has changed.
abbrev pub Binds : Allocator → Net → Bytes → Option ℤ → Option Listened → Type 0
Binds a net key none r = r ≡ none
Binds a net key (some p) r =
    (l : Listened) × (r ≡ some l)
    × (l.port ≡ p)
    × (l.net.open_ports ≡ p ∷ net.open_ports)
    × (l.net.busy ≡ net.busy)
    × (l.alloc.bind ≡ a.bind)
    × (l.alloc.fallback_base ≡ a.fallback_base)
    × (l.alloc.fallback_size ≡ a.fallback_size)
    × ((k : Bytes)
        → lookup k l.alloc.assigned ≡ (if eqb key k then some p else lookup k a.assigned))

opened-Binds :
    (a : Allocator) (net : Net) (key : Bytes) (o : Option ℤ)
    → Binds a net key o (opened a net key o)
unfolding remember
opened-Binds a net key none = refl
opened-Binds a net key (some p) =
    (_, refl, refl, refl, refl, refl, refl, refl, λ k. lookup-insert key k p a.assigned)

-- The port that a key had, where 0 is none.
abbrev pub last_port : Option ℤ → ℤ
last_port none = pos 0
last_port (some p) = p

-- `Listen` takes the port that the key had last if it can be bound, which is a port from 1 to 65535 that
-- neither another program nor this one holds; otherwise the preferred port if that can be bound;
-- otherwise the lowest one of the fallback range that can be bound; and it fails only if none of these
-- can. The port that it takes is then open and remembered for the key, and nothing else has changed.
pub listen-Picks :
    (a : Allocator) (net : Net) (key : Bytes) (preferred : ℤ)
    → (o : Option ℤ) × Picks net
        (last_port (lookup key a.assigned))
        preferred
        a.fallback_base
        (size_of a.fallback_size)
        o
      × Binds a net key o (listen a net key preferred)
unfolding candidates sticky
listen-Picks a net key preferred =
    let last = last_port (lookup key a.assigned) in
    let o = first_usable net (candidates a key preferred) in
    (
      o,
      picks net last preferred a.fallback_base (size_of a.fallback_size),
      subst (Binds a net key o) (sym (listen-first_usable a net key preferred))
          (opened-Binds a net key o),
    )
