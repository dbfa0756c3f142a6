-- ===== src/Conn/Run.antt =====
-- What holds wherever `Run` stands, whatever the events were.
use auto_tunnel.Prelude.{
  ℕ, suc, ◌+◌, ◌*◌, ◌^◌, ◌≤◌, ◌<◌, min, ◌≡◌, refl, sym, ap, subst, ◌∙◌, ◌≢◌, ◌⊎◌, inl, inr, Option,
  none, some, List, [], ◌∷◌, arith, leb, leb→le, ==_iff, Bool-cases,
}
use native.Mathlib.Nat.{pow-suc, mul_assoc}
use auto_tunnel.Text.{Bytes, codes}
use auto_tunnel.Conn.{
  closed_reason, connecting, connected, reconnecting, closed, Timings, Conn, new_conn,
  close_channel, set_connected, set_disconnected, record_failure, set_closed, set_rtt,
  keepalive_failed, Phase, dialing, waiting, monitoring, returned, Runner, Event, cancelled,
  wait_over, dial_failed, dial_worked, remote_closed, ping_failed, ping_answered, start_run,
  next_backoff, lost, ping_missed, step, run, keepalive_fails_max,
}

-- The backoff before the attempt after `n` failures in a row.
abbrev pub backoff_after : Timings → ℕ → ℕ
backoff_after t n = min (t.min_backoff * 2 ^ n) t.max_backoff

-- Not connected: no client, and the one channel that is open is the one in `readyCh`.
abbrev pub Down : Conn → Type 0
Down c =
    (c.client ≡ none)
    × ((c.status.state ≡ connecting) ⊎ (c.status.state ≡ reconnecting))
    × (c.open_channels ≡ c.ready ∷ [])

-- The state of the connection at each place where `Run` waits.
abbrev pub During : Timings → Phase → Conn → Type 0
During t (dialing b) c = Down c × (b ≡ backoff_after t c.status.attempts)
During t (waiting b) c = Down c × ((n : ℕ) × (c.status.attempts ≡ suc n) × (b ≡ backoff_after t n))
During t (monitoring fails) c =
    ((client : ℕ) × (c.client ≡ some client))
    × (c.status.state ≡ connected)
    × (c.open_channels ≡ [])
    × (c.status.attempts ≡ 0)
    × (fails < 2)
During t returned c = (c.client ≡ none) × (c.status.state ≡ closed) × (c.open_channels ≡ [])

close_channel-only : (n : ℕ) → close_channel n (n ∷ []) ≡ []
unfolding close_channel
close_channel-only n = ground (arith, (==_iff n n).1)

close_own : (c : Conn) → c.open_channels ≡ c.ready ∷ [] → close_channel c.ready c.open_channels ≡ []
close_own c h = ap (close_channel c.ready) h ∙ close_channel-only c.ready

close_none : (n : ℕ) (cs : List ℕ) → cs ≡ [] → close_channel n cs ≡ []
unfolding close_channel
close_none n cs h = ap (close_channel n) h

pow_suc : (n : ℕ) → 2 ^ suc n ≡ 2 ^ n * 2
pow_suc n = pow-suc 2 n

doubled : (a b m : ℕ) → b ≡ a * 2 → min (min a m * 2) m ≡ min b m
doubled a b m h = omega (arith, h)

times_two : (x y : ℕ) → x * (y * 2) ≡ x * y * 2
times_two x y = sym (mul_assoc x y 2)

next_backoff-after :
    (t : Timings) (n : ℕ) → next_backoff t (backoff_after t n) ≡ backoff_after t (suc n)
unfolding next_backoff
next_backoff-after t n =
    doubled (t.min_backoff * 2 ^ n) (t.min_backoff * 2 ^ suc n) t.max_backoff
      (ap (λ x. t.min_backoff * x) (pow_suc n) ∙ times_two t.min_backoff (2 ^ n))

backoff_after_none :
    (t : Timings) → t.min_backoff ≤ t.max_backoff → t.min_backoff ≡ backoff_after t 0
backoff_after_none t h = omega (arith, h)

set_connected-During :
    (t : Timings) (client : ℕ) (c : Conn)
    → Down c
    → During t (monitoring 0) (set_connected client c)
unfolding set_connected
set_connected-During t client c d = ((client, refl), refl, close_own c d.2, refl, omega arith)

lost-Down :
    (reason : Option Bytes) (c : Conn) → c.open_channels ≡ [] → Down (set_disconnected reason c)
unfolding set_disconnected
lost-Down reason c h = (refl, inr refl, ap (λ cs. (c.ready + 1) ∷ cs) h)

lost_timings : (reason : Bytes) (r : Runner) → (lost reason r).timings ≡ r.timings
unfolding lost
lost_timings reason r = refl

ping_missed_timings :
    (fails : ℕ) (message : Bytes) (r : Runner) → (ping_missed fails message r).timings ≡ r.timings
unfolding ping_missed
ping_missed_timings fails message r = elim (Bool-cases (leb keepalive_fails_max fails)) [
  | inl e ↦ rw e (lost_timings (keepalive_failed fails message) r)
  | inr e ↦ rw e refl
]

module _ (t : Timings) (positive : t.min_backoff ≤ t.max_backoff) where
  lost-During :
      (reason : Bytes) (c : Conn) (p : Phase)
      → (c.open_channels ≡ [])
      → (c.status.attempts ≡ 0)
      → let r = lost reason (record { timings = t; conn = c; phase = p }) in During t r.phase r.conn
  unfolding lost
  lost-During reason c p h z = (
    lost-Down (some reason) c h,
    backoff_after_none t positive ∙ ap (backoff_after t) (sym z ∙ unfold set_disconnected in refl),
  )

  ping_missed-During :
      (fails : ℕ) (message : Bytes) (c : Conn)
      → During t (monitoring fails) c
      → let r =
          ping_missed
            (fails + 1)
            message
            (record { timings = t; conn = c; phase = monitoring fails }) in
        During t r.phase r.conn
  unfolding ping_missed
  ping_missed-During fails message c d = elim (Bool-cases (leb keepalive_fails_max (fails + 1))) [
    | inl e ↦ rw e (lost-During _ c (monitoring fails) d.2 d.3)
    | inr e ↦ rw e (d.0, d.1, d.2, d.3, grind (arith, e, leb→le))
  ]

  -- What a step leads to.
  abbrev Continues : Option Runner → Type 0
  Continues none = Unit
  Continues (some r) = (r.timings ≡ t) × During t r.phase r.conn

  set_closed-During :
      (c : Conn) → close_channel c.ready c.open_channels ≡ [] → During t returned (set_closed c)
  unfolding set_closed
  set_closed-During c h = (refl, refl, h)

  record_failure-During :
      (message : Bytes) (b : ℕ) (c : Conn)
      → During t (dialing b) c
      → During t (waiting b) (record_failure (some message) c)
  unfolding record_failure
  record_failure-During message b c ((d, _, h), e) =
      ((refl, inr refl, h), (c.status.attempts, omega arith, e))

  waited-During :
      (b : ℕ) (c : Conn) → During t (waiting b) c → During t (dialing (next_backoff t b)) c
  waited-During b c (d, (n, z, e)) =
      (d, ap (next_backoff t) e ∙ next_backoff-after t n ∙ ap (backoff_after t) (sym z))

  step-During : (e : Event) (c : Conn) (p : Phase) → During t p c → Continues (step e t c p)
  unfolding step
  step-During cancelled c (dialing b) d = (refl, set_closed-During c (close_own c d.0.2))
  step-During cancelled c (waiting b) d = (refl, set_closed-During c (close_own c d.0.2))
  step-During cancelled c (monitoring fails) d =
      let gone = set_disconnected (some (codes "context canceled")) c in
      (
        refl,
        set_closed-During gone
            (close_own gone (lost-Down (some (codes "context canceled")) c d.2).2),
      )
  step-During (dial_failed message) c (dialing b) d = (refl, record_failure-During message b c d)
  step-During (dial_worked client) c (dialing b) d = (refl, set_connected-During t client c d.0)
  step-During wait_over c (waiting b) d = (refl, waited-During b c d)
  step-During (remote_closed message) c (monitoring fails) d = (
    lost_timings (closed_reason message)
        (record { timings = t; conn = c; phase = monitoring fails }),
    lost-During _ c (monitoring fails) d.2 d.3,
  )
  step-During (ping_failed message) c (monitoring fails) d = (
    ping_missed_timings (fails + 1) message
        (record { timings = t; conn = c; phase = monitoring fails }),
    ping_missed-During fails message c d,
  )
  step-During (ping_answered rtt) c (monitoring fails) d =
      (refl, unfold set_rtt in (d.0, d.1, d.2, d.3, omega arith))
  step-During _ c p d = tt

  run-Continues : (es : List Event) (o : Option Runner) → Continues o → Continues (run es o)
  unfolding run
  run-Continues [] o h = h
  run-Continues (e ∷ es) none h = tt
  run-Continues (e ∷ es) (some r) h = run-Continues es (step e r.timings r.conn r.phase) (
      subst (λ u. Continues (step e u r.conn r.phase)) (sym h.0) (step-During e r.conn r.phase h.1))

-- Wherever `Run` waits, after any events, if the first backoff is at most the greatest: before a dial
-- and in the wait after a failed one there is no client, the one open channel is the one that
-- `WaitReady` would wait on, and the backoff is the first one doubled at each failure since the last
-- connect and cut at the greatest; in `monitor` there is a client, the state is connected, no channel
-- is open, and fewer keepalives than the limit have failed in a row; and after the return there is no
-- client, the state is closed and no channel is open. So a channel that is replaced has been closed,
-- and whoever waited on it goes on.
pub run-During :
    (t : Timings) (es : List Event) (r : Runner)
    → t.min_backoff ≤ t.max_backoff
    → run es (some (start_run t)) ≡ some r
    → During t r.phase r.conn
run-During t es r h e =
    let first : During t (dialing t.min_backoff) new_conn =
      ((refl, inl refl, refl), backoff_after_none t h) in
    (subst (Continues t h) e
      (run-Continues t h es (some (start_run t)) (unfold start_run in (refl, first)))).1

nothing_more : (t : Timings) (c : Conn) (e : Event) → step e t c returned ≡ none
unfolding step
nothing_more t c cancelled = refl
nothing_more t c wait_over = refl
nothing_more t c (dial_failed _) = refl
nothing_more t c (dial_worked _) = refl
nothing_more t c (remote_closed _) = refl
nothing_more t c (ping_failed _) = refl
nothing_more t c (ping_answered _) = refl

-- The end of the context ends the run from wherever it waits, in one step, with the connection
-- closed; nothing happens after that.
pub step-cancelled :
    (t : Timings) (c : Conn) (p : Phase)
    → (p ≢ returned
        → (r : Runner) × (step cancelled t c p ≡ some r)
          × (r.phase ≡ returned)
          × (r.conn.client ≡ none)
          × (r.conn.status.state ≡ closed))
      × (p ≡ returned → (e : Event) → step e t c p ≡ none)
unfolding step set_closed
step-cancelled t c (dialing b) = (λ n. (_, refl, refl, refl, refl), λ h. absurd (cc h))
step-cancelled t c (waiting b) = (λ n. (_, refl, refl, refl, refl), λ h. absurd (cc h))
step-cancelled t c (monitoring fails) = (λ n. (_, refl, refl, refl, refl), λ h. absurd (cc h))
step-cancelled t c returned = (λ n. absurd (n refl), λ h. nothing_more t c)
