-- ===== src/Conn/Ready.antt =====
-- What a caller of `WaitReady` meets at any time of a run.
use auto_tunnel.Prelude.{
  ℕ, ◌≤◌, ◌≡◌, refl, ap, ◌∙◌, ◌⊎◌, inl, inr, Option, none, some, List, [], ◌∷◌, Bool-cases,
}
use auto_tunnel.Text.{Bytes, is_empty}
use auto_tunnel.Conn.{
  Lifecycle, connecting, connected, reconnecting, closed, Timings, Conn, Phase, dialing, waiting,
  monitoring, returned, Runner, Event, start_run, run, Waited, got, failed, waits_for, wait_without,
  wait_look, wait_ready,
}
use auto_tunnel.Conn.Run.{Down, During, run-During}

-- The caller's answer: it waits on the one open channel, has the client of the connection, or has an
-- error.
abbrev pub Answered : Phase → Conn → Waited → Type 0
Answered (monitoring fails) c w = (client : ℕ) × (c.client ≡ some client) × (w ≡ got client)
Answered returned c w = (message : Bytes) × (w ≡ failed message)
Answered _ c w = (c.open_channels ≡ c.ready ∷ []) × (w ≡ waits_for c.ready)

wait_without-Down :
    (s : Lifecycle) (last_error : Bytes) (channel : ℕ)
    → (s ≡ connecting) ⊎ (s ≡ reconnecting)
    → wait_without s last_error channel ≡ waits_for channel
unfolding wait_without
wait_without-Down connecting last_error channel h = refl
wait_without-Down reconnecting last_error channel h = refl
wait_without-Down connected last_error channel h = refl
wait_without-Down closed last_error channel (inl h) = absurd (cc h)
wait_without-Down closed last_error channel (inr h) = absurd (cc h)

wait_without-closed :
    (last_error : Bytes) (channel : ℕ)
    → (message : Bytes) × (wait_without closed last_error channel ≡ failed message)
unfolding wait_without
wait_without-closed last_error channel = elim (Bool-cases (is_empty last_error)) [
  | inl e ↦ rw e (_, refl)
  | inr e ↦ rw e (_, refl)
]

wait_ready-look : (o : Option ℕ) (c : Conn) → c.client ≡ o → wait_ready c ≡ wait_look o c
unfolding wait_ready
wait_ready-look o c e = ap (λ x. wait_look x c) e

wait_ready-Down : (c : Conn) → Down c → wait_ready c ≡ waits_for c.ready
wait_ready-Down c d =
    wait_ready-look none c d.0
    ∙ (unfold wait_look in wait_without-Down c.status.state c.status.last_error c.ready d.1)

wait_look-closed :
    (c : Conn)
    → c.status.state ≡ closed
    → wait_look none c ≡ wait_without closed c.status.last_error c.ready
unfolding wait_look
wait_look-closed c s = ap (λ x. wait_without x c.status.last_error c.ready) s

wait_look-got : (client : ℕ) (c : Conn) → wait_look (some client) c ≡ got client
unfolding wait_look
wait_look-got client c = refl

wait_ready-During :
    (t : Timings) (p : Phase) (c : Conn) → During t p c → Answered p c (wait_ready c)
wait_ready-During t (dialing b) c d = (d.0.2, wait_ready-Down c d.0)
wait_ready-During t (waiting b) c d = (d.0.2, wait_ready-Down c d.0)
wait_ready-During t (monitoring fails) c ((client, e), _, _, _, _) =
    (client, e, wait_ready-look (some client) c e ∙ wait_look-got client c)
wait_ready-During t returned c (e, s, h) =
    let (message, is_failed) = wait_without-closed c.status.last_error c.ready in
    (message, wait_ready-look none c e ∙ wait_look-closed c s ∙ is_failed)

-- At any time of a run whose first backoff is at most the greatest, `WaitReady` returns the live
-- client while there is one and an error once the run is over, and otherwise waits on the one channel
-- that is open.
pub wait_ready-Answered :
    (t : Timings) (es : List Event) (r : Runner)
    → t.min_backoff ≤ t.max_backoff
    → run es (some (start_run t)) ≡ some r
    → Answered r.phase r.conn (wait_ready r.conn)
wait_ready-Answered t es r h e = wait_ready-During t r.phase r.conn (run-During t es r h e)
