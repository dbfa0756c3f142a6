-- ===== src/Tunnel/Connections/Active.antt =====
-- The counter of active connections, and the end of the connections of a stopped forwarder.
use auto_tunnel.Prelude.{
  ℕ, suc, ◌+◌, ◌≤◌, ◌<◌, ◌≡◌, refl, sym, ap, ◌∙◌, ◌≢◌, ◌⊎◌, inl, inr, Bool, true, false, Option,
  none, some, List, [], ◌∷◌, ◌++◌, arith,
}
use auto_tunnel.Text.{Bytes}
use auto_tunnel.Tunnel.Forwarder.{
  Forwarder, set_error, clear_error, conn_opened, conn_closed, wrote_out, wrote_in,
}
use auto_tunnel.Tunnel.Connections.{
  Stage, started, tracked, bridged, Serve, serve, Advance, track, no_client, dial_fails, dials,
  sends, receives, copied, interrupted, at_most_one, Step, accept, turn_away, accept_fails,
  accept_ends, cancel, handle, Reach, here, next,
}

-- How many connections are bridged.
abbrev pub bridges : List Stage → ℕ
bridges [] = 0
bridges (bridged ∷ ss) = suc (bridges ss)
bridges (started ∷ ss) = bridges ss
bridges (tracked ∷ ss) = bridges ss

bridges-append : (ss ts : List Stage) → bridges (ss ++ ts) ≡ bridges ss + bridges ts
bridges-append [] ts = omega arith
bridges-append (bridged ∷ ss) ts = omega (arith, bridges-append ss ts)
bridges-append (started ∷ ss) ts = bridges-append ss ts
bridges-append (tracked ∷ ss) ts = bridges-append ss ts

-- The steps that the connections have before them, at most, besides those that only move bytes.
abbrev pub weight : List Stage → ℕ
weight [] = 0
weight (started ∷ ss) = 3 + weight ss
weight (tracked ∷ ss) = 2 + weight ss
weight (bridged ∷ ss) = 1 + weight ss

weight-append : (ss ts : List Stage) → weight (ss ++ ts) ≡ weight ss + weight ts
weight-append [] ts = omega arith
weight-append (bridged ∷ ss) ts = omega (arith, weight-append ss ts)
weight-append (started ∷ ss) ts = omega (arith, weight-append ss ts)
weight-append (tracked ∷ ss) ts = omega (arith, weight-append ss ts)

-- A step of one connection changes the counter as it changes the number of bridged ones; `k` counts
-- others.
Advance-active :
    {cancelled : Bool} {s : Stage} {f g : Forwarder} {o : Option Stage}
    → Advance cancelled s f o g
    → (k : ℕ) (rest : List Stage) → f.active_conns ≡ k + bridges (s ∷ rest)
    → g.active_conns ≡ k + bridges (at_most_one o rest)
unfolding set_error clear_error conn_opened conn_closed wrote_out wrote_in
Advance-active track k rest e = e
Advance-active no_client k rest e = e
Advance-active (dial_fails reason) k rest e = e
Advance-active dials k rest e = omega (arith, e)
Advance-active (sends n) k rest e = e
Advance-active (receives n) k rest e = e
Advance-active copied k rest e = omega (arith, e)
Advance-active (interrupted c) k rest e = omega (arith, e)

abbrev IsCounted : Serve → Type 0
IsCounted v = v.forwarder.active_conns ≡ bridges v.stages

Step-IsCounted : {v w : Serve} → Step v w → IsCounted v → IsCounted w
unfolding set_error
Step-IsCounted (accept v a p) e = e
Step-IsCounted (turn_away v a p) e = e
Step-IsCounted (accept_fails v reason a c) e = e
Step-IsCounted (accept_ends v a c) e = e
Step-IsCounted (cancel v) e = e
Step-IsCounted (handle v before after s o f q adv) e =
    let split : v.forwarder.active_conns ≡ bridges before + bridges (s ∷ after) =
      e ∙ ap bridges q ∙ bridges-append before (s ∷ after) in
    Advance-active adv (bridges before) after split
    ∙ sym (bridges-append before (at_most_one o after))

-- At every moment the number of active connections that a row shows is the number of connections that
-- are bridged to the remote side, in whatever order the goroutines move and whether or not the
-- forwarder has been stopped. It starts with none.
pub Reach-active :
    (f : Forwarder) (v : Serve)
    → f.active_conns ≡ 0
    → Reach (serve f) v
    → v.forwarder.active_conns ≡ bridges v.stages
unfolding serve
Reach-active f v z r = go r
  where
    go : {w : Serve} → Reach (serve f) w → IsCounted w
    go here = z
    go (next r step) = Step-IsCounted step (go r)

abbrev IsEnding : Serve → Type 0
IsEnding v = (v.accepting ≡ false) × (v.cancelled ≡ true)

-- The next step of a connection, other than one that moves bytes.
abbrev pub Falls : Serve → Type 0
Falls v = (w : Serve) × Step v w × (weight w.stages < weight v.stages)

falls : (v : Serve) → IsEnding v → (v.stages ≡ []) ⊎ Falls v
falls v h = go v.stages refl
  where
    go : (ss : List Stage) → v.stages ≡ ss → (v.stages ≡ []) ⊎ Falls v
    go [] q = inl q
    go (started ∷ ss) q =
        inr
          (_, handle v [] ss started (some tracked) v.forwarder q track, omega (arith, ap weight q))
    go (tracked ∷ ss) q =
        inr (_, handle v [] ss tracked none _ q (dial_fails []), omega (arith, ap weight q))
    go (bridged ∷ ss) q =
        inr (_, handle v [] ss bridged none _ q (interrupted h.1), omega (arith, ap weight q))

Advance-weight :
    {cancelled : Bool} {s : Stage} {f g : Forwarder} {o : Option Stage}
    → Advance cancelled s f o g
    → (rest : List Stage) → weight (at_most_one o rest) ≤ weight (s ∷ rest)
Advance-weight track rest = omega arith
Advance-weight no_client rest = omega arith
Advance-weight (dial_fails reason) rest = omega arith
Advance-weight dials rest = omega arith
Advance-weight (sends n) rest = omega arith
Advance-weight (receives n) rest = omega arith
Advance-weight copied rest = omega arith
Advance-weight (interrupted c) rest = omega arith

true-not-false : true ≢ false
true-not-false e = cc

Step-IsEnding :
    {v w : Serve} → Step v w → IsEnding v → IsEnding w × (weight w.stages ≤ weight v.stages)
Step-IsEnding (accept v a p) h = absurd (true-not-false (sym a ∙ h.0))
Step-IsEnding (turn_away v a p) h = (h, omega arith)
Step-IsEnding (accept_fails v reason a c) h = (h, omega arith)
Step-IsEnding (accept_ends v a c) h = ((refl, h.1), omega arith)
Step-IsEnding (cancel v) h = ((h.0, refl), omega arith)
Step-IsEnding (handle v before after s o f q adv) h = (
  h,
  omega (
    arith,
    Advance-weight adv after,
    ap weight q,
    weight-append before (s ∷ after),
    weight-append before (at_most_one o after),
  ),
)

-- The steps of `handle` that wait neither for the network nor for a client: the first one, the return
-- without an ssh client, and the return at the end of the context. A dial waits for its answer, and
-- copying for both sides.
abbrev pub waits :
    {c : Bool} {s : Stage} {f g : Forwarder} {o : Option Stage} → Advance c s f o g → Bool
waits track = false
waits no_client = false
waits (dial_fails reason) = true
waits dials = true
waits (sends n) = true
waits (receives n) = true
waits copied = true
waits (interrupted e) = false

-- What a connection can do at its place without waiting: it is tracked next, or it ends, or a dial is
-- under way.
abbrev pub Proceeds : Serve → List Stage → Stage → List Stage → Type 0
Proceeds v before started after =
    (adv : Advance v.cancelled started v.forwarder (some tracked) v.forwarder) × (waits adv ≡ false)
    × Step v (record v { stages = before ++ tracked ∷ after })
Proceeds v before tracked after =
    (reason : Bytes) × Step v
      (record v { forwarder = set_error reason v.forwarder; stages = before ++ after })
Proceeds v before bridged after =
    (adv : Advance v.cancelled bridged v.forwarder none (conn_closed v.forwarder)) × (waits adv
      ≡ false)
    × Step v (record v { forwarder = conn_closed v.forwarder; stages = before ++ after })

proceeds :
    (v : Serve) (before after : List Stage) (s : Stage)
    → v.cancelled ≡ true
    → v.stages ≡ before ++ s ∷ after
    → Proceeds v before s after
proceeds v before after started c q =
    (track, refl, handle v before after started (some tracked) v.forwarder q track)
proceeds v before after tracked c q = ([], handle v before after tracked none _ q (dial_fails []))
proceeds v before after bridged c q =
    (interrupted c, refl, handle v before after bridged none _ q (interrupted c))

-- Once a forwarder is stopped and its accept loop has returned, each of its connections that is bridged
-- can end at once, whatever the network and the client do, and one that has just started can go on as
-- well; only a dial under way waits, for its answer. So either there is no connection left, and then
-- the counter of active connections is 0, or one of them can take a step that brings it nearer to its
-- end. And no step that is taken, of any kind, adds to what is left to do or starts to accept again. The
-- forwarder started with no active connection.
pub stopped-ends :
    (f : Forwarder) (v u : Serve)
    → f.active_conns ≡ 0
    → Reach (serve f) v
    → v.accepting ≡ false
    → v.cancelled ≡ true
    → Step v u
    → ((before after : List Stage) (s : Stage)
        → v.stages ≡ before ++ s ∷ after
        → Proceeds v before s after)
      × ((v.stages ≡ []) × (v.forwarder.active_conns ≡ 0) ⊎ Falls v)
      × (u.accepting ≡ false)
      × (u.cancelled ≡ true)
      × (weight u.stages ≤ weight v.stages)
stopped-ends f v u z r a c step =
    let (ending, less) = Step-IsEnding step (a, c) in
    let rest : (v.stages ≡ []) × (v.forwarder.active_conns ≡ 0) ⊎ Falls v = elim (falls v (a, c)) [
      | inl q ↦ inl (q, Reach-active f v z r ∙ ap bridges q)
      | inr x ↦ inr x
    ] in
    (λ before after s q. proceeds v before after s c q, rest, ending.0, ending.1, less)
