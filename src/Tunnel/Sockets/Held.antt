-- ===== src/Tunnel/Sockets/Held.antt =====
-- The sockets of a forwarder: whose they are at every moment, and what stop leaves of them.
use auto_tunnel.Prelude.{
  ◌≡◌, refl, sym, subst, ◌∙◌, ◌≢◌, Bool, true, false, Option, none, some, List, [], ◌∷◌, ◌++◌, All,
  if◌then◌else◌,
}
use auto_tunnel.Tunnel.Connections.{Stage, started, tracked, bridged}
use auto_tunnel.Tunnel.Sockets.{
  Link, accepted, track, untrack, close_write, give_up, leave, HandleStep, tracks, gives_up, dials,
  sent_all, received_all, copied, interrupted, Stopping, not_called, has_cancelled, has_closed,
  has_swept, has_returned, Pool, first_pool, close_tracked, sweep, PoolStep, accept, accept_ends,
  context_ends, unblock, stop_cancels, stop_closes, stop_sweeps, stop_returns, handle, Reaches,
  begins, changes,
}

-- What is open, by where `handle` is.
abbrev pub HeldAt : Option Stage → Link → Type 0
HeldAt none l = (l.in_conns ≡ false) × (l.local_open ≡ false) × (l.remote_open ≡ false)
HeldAt (some started) l = (l.in_conns ≡ false) × (l.local_open ≡ true) × (l.remote_open ≡ false)
HeldAt (some tracked) l = (l.in_conns ≡ true) × (l.remote_open ≡ false)
HeldAt (some bridged) l = l.in_conns ≡ true

abbrev pub IsHeld : Link → Type 0
IsHeld l = HeldAt l.stage l

-- What stop has done so far.
abbrev pub StopsAt : Stopping → Pool → Type 0
StopsAt not_called p = Unit
StopsAt has_cancelled p = p.cancelled ≡ true
StopsAt has_closed p = (p.cancelled ≡ true) × (p.listening ≡ false)
StopsAt has_swept p = (p.cancelled ≡ true) × (p.listening ≡ false)
StopsAt has_returned p = (p.cancelled ≡ true) × (p.listening ≡ false) × (p.accepting ≡ false)

true-not-false : true ≢ false
true-not-false e = cc

held_at : (l : Link) {o : Option Stage} → l.stage ≡ o → IsHeld l → HeldAt o l
held_at l e h = subst (λ o. HeldAt o l) e h

HandleStep-IsHeld : {c : Bool} {l k : Link} → HandleStep c l k → IsHeld l → IsHeld k
unfolding track give_up leave untrack close_write
HandleStep-IsHeld (tracks l e) h = (refl, (held_at l e h).2)
HandleStep-IsHeld (gives_up l e) h = (refl, refl, (held_at l e h).1)
HandleStep-IsHeld (dials l e) h = (held_at l e h).0
HandleStep-IsHeld (sent_all l w e) h =
    let k : Link = record l { remote_open = close_write w l.remote_open } in
    subst (λ o. HeldAt o k) (sym e) (held_at l e h)
HandleStep-IsHeld (received_all l w e) h =
    let k : Link = record l { local_open = close_write w l.local_open } in
    subst (λ o. HeldAt o k) (sym e) (held_at l e h)
HandleStep-IsHeld (copied l e) h = (refl, refl, refl)
HandleStep-IsHeld (interrupted l e c) h = (refl, refl, refl)

close_tracked_lem :
    (P : Link → Type 0) (l : Link)
    → (l.in_conns ≡ false → P l)
    → (l.in_conns ≡ true → P (record l { local_open = false }))
    → P (close_tracked l)
unfolding close_tracked
close_tracked_lem P l f t = by_test l.in_conns refl
  where
    by_test : (b : Bool) → l.in_conns ≡ b → P (if b then record l { local_open = false } else l)
    by_test true e = t e
    by_test false e = f e

closed-HeldAt :
    (o : Option Stage) (l : Link)
    → HeldAt o l
    → l.in_conns ≡ true
    → HeldAt o (record l { local_open = false })
closed-HeldAt none l h e = (h.0, refl, h.2)
closed-HeldAt (some started) l h e = absurd (true-not-false (sym e ∙ h.0))
closed-HeldAt (some tracked) l h e = h
closed-HeldAt (some bridged) l h e = h

close_tracked-IsHeld : (l : Link) → IsHeld l → IsHeld (close_tracked l)
close_tracked-IsHeld l h = close_tracked_lem IsHeld l (λ e. h) (closed-HeldAt l.stage l h)

sweep-IsHeld : (ls : List Link) → All IsHeld ls → All IsHeld (sweep ls)
unfolding sweep
sweep-IsHeld [] h = tt
sweep-IsHeld (l ∷ ls) h = (close_tracked-IsHeld l h.0, sweep-IsHeld ls h.1)

StopsAt-pool :
    (s : Stopping) (p q : Pool)
    → (p.cancelled ≡ true → q.cancelled ≡ true)
    → (p.listening ≡ false → q.listening ≡ false)
    → (p.accepting ≡ false → q.accepting ≡ false)
    → StopsAt s p
    → StopsAt s q
StopsAt-pool not_called p q c l a h = tt
StopsAt-pool has_cancelled p q c l a h = c h
StopsAt-pool has_closed p q c l a h = (c h.0, l h.1)
StopsAt-pool has_swept p q c l a h = (c h.0, l h.1)
StopsAt-pool has_returned p q c l a h = (c h.0, l h.1, a h.2)

All-replace :
    {A : Type 0} (P : A → Type 0) (before after : List A) (x y : A)
    → (P x → P y)
    → All P (before ++ x ∷ after)
    → All P (before ++ y ∷ after)
All-replace P [] after x y f h = (f h.0, h.1)
All-replace P (b ∷ before) after x y f h = (h.0, All-replace P before after x y f h.1)

PoolStep-IsHeld : {p q : Pool} → PoolStep p q → All IsHeld p.links → All IsHeld q.links
unfolding accepted
PoolStep-IsHeld (accept p a) h = ((refl, refl, refl), h)
PoolStep-IsHeld (accept_ends p a e) h = h
PoolStep-IsHeld (context_ends p) h = h
PoolStep-IsHeld (unblock p c) h = h
PoolStep-IsHeld (stop_cancels p s) h = h
PoolStep-IsHeld (stop_closes p s) h = h
PoolStep-IsHeld (stop_sweeps p s) h = sweep-IsHeld p.links h
PoolStep-IsHeld (stop_returns p s a) h = h
PoolStep-IsHeld (handle p before after l k e t) h =
    All-replace IsHeld before after l k (HandleStep-IsHeld t) (subst (All IsHeld) e h)

abbrev Stops : Pool → Type 0
Stops p = StopsAt p.stopping p

stops_at : (p : Pool) {s : Stopping} → p.stopping ≡ s → Stops p → StopsAt s p
stops_at p e h = subst (λ s. StopsAt s p) e h

PoolStep-Stops : {p q : Pool} → PoolStep p q → Stops p → Stops q
PoolStep-Stops (accept p a) h = StopsAt-pool p.stopping p _ (λ e. e) (λ e. e) (λ e. e) h
PoolStep-Stops (accept_ends p a e) h = StopsAt-pool p.stopping p _ (λ e. e) (λ e. e) (λ e. refl) h
PoolStep-Stops (context_ends p) h = StopsAt-pool p.stopping p _ (λ e. refl) (λ e. e) (λ e. e) h
PoolStep-Stops (unblock p c) h = StopsAt-pool p.stopping p _ (λ e. e) (λ e. refl) (λ e. e) h
PoolStep-Stops (stop_cancels p s) h = refl
PoolStep-Stops (stop_closes p s) h = (stops_at p s h, refl)
PoolStep-Stops (stop_sweeps p s) h = stops_at p s h
PoolStep-Stops (stop_returns p s a) h = let (c, l) = stops_at p s h in (c, l, a)
PoolStep-Stops (handle p before after l k e t) h =
    StopsAt-pool p.stopping p _ (λ e. e) (λ e. e) (λ e. e) h

Reaches-both : {p : Pool} → Reaches p → All IsHeld p.links × Stops p
unfolding first_pool
Reaches-both begins = (tt, tt)
Reaches-both (changes r step) =
    let (held, stops) = Reaches-both r in (PoolStep-IsHeld step held, PoolStep-Stops step stops)

-- A local socket that is open and not in the map is of a call that has not tracked it yet.
untracked :
    (o : Option Stage) (l : Link)
    → HeldAt o l
    → l.in_conns ≡ false
    → l.local_open ≡ true
    → o ≡ some started
untracked none l h e t = absurd (true-not-false (sym t ∙ h.1))
untracked (some started) l h e t = refl
untracked (some tracked) l h e t = absurd (true-not-false (sym h.0 ∙ e))
untracked (some bridged) l h e t = absurd (true-not-false (sym h ∙ e))

-- What the loop of stop leaves open.
abbrev pub IsLate : Link → Type 0
IsLate l = l.local_open ≡ true → l.stage ≡ some started

close_tracked-IsLate : (l : Link) → IsHeld l → IsLate (close_tracked l)
close_tracked-IsLate l h =
    close_tracked_lem IsLate l (untracked l.stage l h) (λ e t. absurd (true-not-false (sym t)))

sweep-AreLate : (ls : List Link) → All IsHeld ls → All IsLate (sweep ls)
unfolding sweep
sweep-AreLate [] h = tt
sweep-AreLate (l ∷ ls) h = (close_tracked-IsLate l h.0, sweep-AreLate ls h.1)

-- At every moment, in whatever order the goroutines and stop move: a call of handle that has returned
-- has closed both its sockets and taken the connection from the map, the remote side is open only while
-- it is bridged, and the map holds just the connections that are tracked or bridged. The loop of stop,
-- run at that moment, would leave open no local socket but those that are accepted and not tracked yet.
-- And once stop has returned, the context is done, the listener is closed and nothing is accepted.
pub Reaches-IsHeld :
    (p : Pool)
    → Reaches p
    → All IsHeld p.links
      × All IsLate (sweep p.links)
      × (p.stopping ≡ has_returned
          → (p.cancelled ≡ true) × (p.listening ≡ false) × (p.accepting ≡ false))
Reaches-IsHeld p r =
    let (held, stops) = Reaches-both r in
    (held, sweep-AreLate p.links held, λ e. stops_at p e stops)
