-- ===== src/Dial/Connect/Leaves.antt =====
-- The connections that a dial leaves open.
use auto_tunnel.Prelude.{
  ℕ, zero, suc, ◌≡◌, refl, ap, subst, ◌∙◌, ◌⊎◌, inl, inr, Bool, false, not, ◌||◌, Option, none,
  some, List, [], ◌∷◌, ◌++◌, if◌then◌else◌, if_both, true_of_not, Result, ok, err,
}
use auto_tunnel.Prelude.Int.{ℤ}
use auto_tunnel.Text.{Bytes, is_empty, codes, eqb}
use auto_tunnel.Text.Equality.{eqb_refl, is_empty-true}
use auto_tunnel.Dial.Target.{Target, TargetError, addr, resolve_target}
use auto_tunnel.Dial.HostKey.{KnownHostsError, open_known_hosts}
use auto_tunnel.Dial.Connect.{
  AuthMethod, World, Conn, session, hop, Event, agent_opened, agent_closed, opened, closed,
  closes_after, ClientConfig, DialError, Outcome, agent_answer, agent_methods, config_with,
  client_config, auth_methods, dialled, shaken, hopped, jumped, after_jump, dial_jump,
  dial_configured, dial_body, dial, contains_comma,
}

abbrev same_conn : Conn → Conn → Bool
same_conn (session a) (session b) = eqb a b
same_conn (hop a) (hop b) = eqb a b
same_conn _ _ = false

abbrev remove : Conn → List Conn → List Conn
remove c [] = []
remove c (d ∷ open_now) =
    let rest = remove c open_now in if same_conn c d then open_now else d ∷ rest

-- The connections that are open after a log, the last one opened first.
abbrev pub left_after : List Event → List Conn → List Conn
left_after [] open_now = open_now
left_after (opened c ∷ log) open_now = left_after log (c ∷ open_now)
left_after (closed c ∷ log) open_now = left_after log (remove c open_now)
left_after (agent_opened ∷ log) open_now = left_after log open_now
left_after (agent_closed ∷ log) open_now = left_after log open_now
left_after (closes_after c d ∷ log) open_now = left_after log open_now

abbrev pub left_open : List Event → List Conn
left_open log = left_after log []

-- With a jump host the session with it, and the hop, are left open below the session with the target;
-- then the last thing that is done is to see to it that the former ends with the latter.
abbrev pub ViaJump : Target → List Event → Type 0
ViaJump t log =
    (jump : Target) × (before : List Event) × (log
      ≡ before ++ closes_after (session (addr t)) (session (addr jump)) ∷ [])
    × (left_open log ≡ session (addr t) ∷ hop (addr t) ∷ session (addr jump) ∷ [])

-- What a dial of `t` may leave open: nothing if it fails, and else a session with `t`.
abbrev pub LeavesOpen : Target → List Event → Result DialError Conn → Type 0
LeavesOpen t log (err e) = left_open log ≡ []
LeavesOpen t log (ok c) =
    (c ≡ session (addr t)) × ((left_open log ≡ session (addr t) ∷ []) ⊎ ViaJump t log)

abbrev LeavesDirect : Target → List Event → Result DialError Conn → Type 0
LeavesDirect t log (err e) = left_open log ≡ []
LeavesDirect t log (ok c) = left_open log ≡ session (addr t) ∷ []

left_after-append :
    (a b : List Event) (open_now : List Conn)
    → left_after (a ++ b) open_now ≡ left_after b (left_after a open_now)
left_after-append [] b open_now = refl
left_after-append (opened c ∷ a) b open_now = left_after-append a b (c ∷ open_now)
left_after-append (closed c ∷ a) b open_now = left_after-append a b (remove c open_now)
left_after-append (agent_opened ∷ a) b open_now = left_after-append a b open_now
left_after-append (agent_closed ∷ a) b open_now = left_after-append a b open_now
left_after-append (closes_after c d ∷ a) b open_now = left_after-append a b open_now

-- What is left after a log, from what is left after its first part.
left_then :
    (a b : List Event) {now : List Conn} → left_open a ≡ now → left_open (a ++ b) ≡ left_after b now
left_then a b e = left_after-append a b [] ∙ ap (left_after b) e

remove-first : (c : Conn) (open_now : List Conn) → remove c (c ∷ open_now) ≡ open_now
remove-first (session a) open_now = rw (eqb_refl a) refl
remove-first (hop a) open_now = rw (eqb_refl a) refl

agent_answer-none : (r : Option (Result Bytes ℕ)) → left_open (agent_answer r).0 ≡ []
unfolding agent_answer
agent_answer-none none = refl
agent_answer-none (some (ok zero)) = refl
agent_answer-none (some (ok (suc n))) = refl
agent_answer-none (some (err e)) = refl

config_with-none :
    (w : World) (timeout : ℤ) (t : Target) (r : Result KnownHostsError Unit)
    → left_open (config_with w timeout t r).0 ≡ []
unfolding config_with auth_methods agent_methods
config_with-none w timeout t (err e) = refl
config_with-none w timeout t (ok u) =
    if_both (λ (r : List Event × List AuthMethod). left_open r.0 ≡ []) (is_empty w.agent_socket)
      (λ e. refl) (λ e. agent_answer-none (w.ask_agent w.agent_socket))

client_config-none :
    (w : World) (timeout : ℤ) (t : Target) → left_open (client_config w timeout t).0 ≡ []
unfolding client_config
client_config-none w timeout t =
    config_with-none w timeout t (open_known_hosts w.machine w.read_known_hosts)

dialled-Leaves :
    (log : List Event) (t : Target) (r : Result Bytes Unit)
    → left_open log ≡ []
    → LeavesDirect t (dialled log t r).log (dialled log t r).result
unfolding dialled
dialled-Leaves log t (err reason) n = n
dialled-Leaves log t (ok u) n = left_then log (opened (session (addr t)) ∷ []) n

abbrev Leaves : Target → Outcome → Type 0
Leaves t o = LeavesOpen t o.log o.result

LeavesDirect→LeavesOpen :
    (log : List Event) (t : Target) (r : Result Bytes Unit)
    → left_open log ≡ []
    → Leaves t (dialled log t r)
unfolding dialled
LeavesDirect→LeavesOpen log t (err reason) n = n
LeavesDirect→LeavesOpen log t (ok u) n =
    (refl, inl (left_then log (opened (session (addr t)) ∷ []) n))

shaken-Leaves :
    (log : List Event) (t jump : Target) (r : Result Bytes Unit)
    → left_open log ≡ hop (addr t) ∷ session (addr jump) ∷ []
    → Leaves t (shaken log t jump r)
unfolding shaken
shaken-Leaves log t jump (err reason) n =
    left_then log _ n
    ∙ ap (remove (session (addr jump))) (remove-first (hop (addr t)) (session (addr jump) ∷ []))
    ∙ remove-first (session (addr jump)) []
shaken-Leaves log t jump (ok u) n = (
  refl,
  inr (
    jump,
    log ++ opened (session (addr t)) ∷ [],
    refl,
    left_then (log ++ opened (session (addr t)) ∷ []) _ (left_then log _ n),
  ),
)

hopped-Leaves :
    (w : World) (log : List Event) (t : Target) (cfg : ClientConfig) (jump : Target)
    (r : Result Bytes Unit)
    → left_open log ≡ session (addr jump) ∷ []
    → Leaves t (hopped w log t cfg jump r)
unfolding hopped
hopped-Leaves w log t cfg jump (err reason) n =
    left_then log _ n ∙ remove-first (session (addr jump)) []
hopped-Leaves w log t cfg jump (ok u) n = shaken-Leaves _ t jump _ (left_then log _ n)

jumped-Leaves :
    (w : World) (log : List Event) (t : Target) (cfg : ClientConfig) (jump : Target)
    (r : Result DialError Conn)
    → LeavesDirect jump log r
    → Leaves t (jumped w log t cfg jump r)
unfolding jumped
jumped-Leaves w log t cfg jump (err e) n = n
jumped-Leaves w log t cfg jump (ok c) n = hopped-Leaves w log t cfg jump _ n

LeavesDirect-after :
    (a b : List Event) (t : Target) (r : Result DialError Conn)
    → left_open a ≡ []
    → LeavesDirect t b r
    → LeavesDirect t (a ++ b) r
LeavesDirect-after a b t (err e) n h = left_then a b n ∙ h
LeavesDirect-after a b t (ok c) n h = left_then a b n ∙ h

-- What holds of an outcome, if there is one.
abbrev IfSome : (Outcome → Type 0) → Option Outcome → Type 0
IfSome P none = Unit
IfSome P (some o) = P o

after_jump-Leaves :
    (w : World) (log : List Event) (t : Target) (cfg : ClientConfig) (jump : Target)
    (r : Option Outcome)
    → left_open log ≡ []
    → IfSome (λ o. LeavesDirect jump o.log o.result) r
    → IfSome (Leaves t) (after_jump w log t cfg jump r)
unfolding after_jump
after_jump-Leaves w log t cfg jump none n h = tt
after_jump-Leaves w log t cfg jump (some o) n h =
    jumped-Leaves w (log ++ o.log) t cfg jump o.result
      (LeavesDirect-after log o.log jump o.result n h)

-- The dials of targets without a jump host.
abbrev DialsDirect : (Target → Option Outcome) → Type 0
DialsDirect next =
    (t : Target) → t.proxy_jump ≡ [] → IfSome (λ o. LeavesDirect t o.log o.result) (next t)

dial_jump-Leaves :
    (next : Target → Option Outcome) (w : World) (log : List Event) (t : Target)
    (cfg : ClientConfig) (r : Result TargetError Target)
    → left_open log ≡ []
    → DialsDirect next
    → IfSome (Leaves t) (dial_jump next w log t cfg r)
unfolding dial_jump
dial_jump-Leaves next w log t cfg (err e) n d = n
dial_jump-Leaves next w log t cfg (ok jump) n d =
    if_both (IfSome (Leaves t)) (not (is_empty jump.proxy_jump)) (λ e. n)
      (λ e.
        after_jump-Leaves w log t cfg jump (next jump) n
          (d jump (is_empty-true jump.proxy_jump (true_of_not _ e))))

dial_configured-Leaves :
    (next : Target → Option Outcome) (w : World) (t : Target) (log : List Event)
    (r : Result DialError ClientConfig)
    → left_open log ≡ []
    → DialsDirect next
    → IfSome (Leaves t) (dial_configured next w t log r)
unfolding dial_configured
dial_configured-Leaves next w t log (err e) n d = n
dial_configured-Leaves next w t log (ok cfg) n d =
    if_both (IfSome (Leaves t)) (is_empty t.proxy_jump || eqb t.proxy_jump (codes "none"))
      (λ e. LeavesDirect→LeavesOpen log t (w.ssh_dial (addr t) cfg) n)
      (λ e.
        if_both (IfSome (Leaves t)) (contains_comma t.proxy_jump) (λ c. n)
          (λ c. dial_jump-Leaves next w log t cfg (resolve_target w.machine t.proxy_jump) n d))

dial_configured-direct :
    (next : Target → Option Outcome) (w : World) (t : Target) (log : List Event)
    (r : Result DialError ClientConfig)
    → t.proxy_jump ≡ []
    → left_open log ≡ []
    → IfSome (λ o. LeavesDirect t o.log o.result) (dial_configured next w t log r)
unfolding dial_configured is_empty
dial_configured-direct next w t log (err x) e n = n
dial_configured-direct next w t log (ok cfg) e n =
    rw (ap is_empty e) (dialled-Leaves log t (w.ssh_dial (addr t) cfg) n)

dial-DialsDirect : (fuel : ℕ) (w : World) (timeout : ℤ) → DialsDirect (dial fuel w timeout)
unfolding dial dial_body
dial-DialsDirect zero w timeout t e = tt
dial-DialsDirect (suc fuel) w timeout t e =
    dial_configured-direct (dial fuel w timeout) w t (client_config w timeout t).0
      (client_config w timeout t).1 e (client_config-none w timeout t)

-- A dial that fails leaves no SSH session and no hop open, at whatever step it fails. One that succeeds
-- leaves a session with the target; and with a jump host also the hop and the session with the jump
-- host, which then is closed once the session with the target has ended.
pub dial-LeavesOpen :
    (fuel : ℕ) (w : World) (timeout : ℤ) (t : Target) (o : Outcome)
    → dial fuel w timeout t ≡ some o
    → LeavesOpen t o.log o.result
unfolding dial dial_body
dial-LeavesOpen zero w timeout t o e = cc
dial-LeavesOpen (suc fuel) w timeout t o e = subst (IfSome (Leaves t)) e (
    dial_configured-Leaves (dial fuel w timeout) w t (client_config w timeout t).0
      (client_config w timeout t).1 (client_config-none w timeout t)
      (dial-DialsDirect fuel w timeout))
