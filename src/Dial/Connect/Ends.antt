-- ===== src/Dial/Connect/Ends.antt =====
-- A dial of a target ends: it recurs for one jump host, and that host's own dial does not recur.
use auto_tunnel.Prelude.{
  ℕ, zero, suc, ◌≡◌, refl, ap, inl, inr, not, ◌||◌, Option, some, List, [], Bool-cases, true_of_not,
  Result, ok, err,
}
use auto_tunnel.Prelude.Int.{ℤ}
use auto_tunnel.Text.{is_empty, codes, eqb}
use auto_tunnel.Text.Equality.{is_empty-true}
use auto_tunnel.Dial.Target.{Target, TargetError, resolve_target}
use auto_tunnel.Dial.Connect.{
  after_jump, World, Event, ClientConfig, DialError, Outcome, client_config, dial_jump,
  dial_configured, dial_body, dial, contains_comma,
}

-- A call of `Dial` that returns, with two functions in place of its own call that agree on every
-- target without a jump host.
abbrev Agree : (Target → Option Outcome) → (Target → Option Outcome) → Type 0
Agree f g = (t : Target) → t.proxy_jump ≡ [] → (o : Outcome) × (f t ≡ some o) × (g t ≡ some o)

abbrev Same : Option Outcome → Option Outcome → Type 0
Same p q = (o : Outcome) × (p ≡ some o) × (q ≡ some o)

same : (o : Outcome) → Same (some o) (some o)
same o = (o, refl, refl)

dial_jump-Same :
    (f g : Target → Option Outcome) (w : World) (log : List Event) (t : Target) (cfg : ClientConfig)
    (r : Result TargetError Target)
    → Agree f g
    → Same (dial_jump f w log t cfg r) (dial_jump g w log t cfg r)
unfolding dial_jump after_jump
dial_jump-Same f g w log t cfg (err e) a = same _
dial_jump-Same f g w log t cfg (ok jump) a = elim (Bool-cases (not (is_empty jump.proxy_jump))) [
  | inl e ↦ rw e (same _)
  | inr e ↦
      let (o, p, q) = a jump (is_empty-true jump.proxy_jump (true_of_not _ e)) in
      rw (e, p, q) (same _)
]

dial_configured-Same :
    (f g : Target → Option Outcome) (w : World) (t : Target) (log : List Event)
    (r : Result DialError ClientConfig)
    → Agree f g
    → Same (dial_configured f w t log r) (dial_configured g w t log r)
unfolding dial_configured
dial_configured-Same f g w t log (err e) a = same _
dial_configured-Same f g w t log (ok cfg) a =
    elim (Bool-cases (is_empty t.proxy_jump || eqb t.proxy_jump (codes "none"))) [
      | inl e ↦ rw e (same _)
      | inr e ↦ rw e (elim (Bool-cases (contains_comma t.proxy_jump)) [
        | inl c ↦ rw c (same _)
        | inr c ↦ rw c (dial_jump-Same f g w log t cfg (resolve_target w.machine t.proxy_jump) a)
      ])
    ]

dial_body-Same :
    (f g : Target → Option Outcome) (w : World) (timeout : ℤ) (t : Target)
    → Agree f g
    → Same (dial_body f w timeout t) (dial_body g w timeout t)
unfolding dial_body
dial_body-Same f g w timeout t a =
    dial_configured-Same f g w t (client_config w timeout t).0 (client_config w timeout t).1 a

-- A target without a jump host is dialled without a call of `Dial`.
dial_body-direct :
    (f g : Target → Option Outcome) (w : World) (timeout : ℤ) (t : Target)
    → t.proxy_jump ≡ []
    → Same (dial_body f w timeout t) (dial_body g w timeout t)
unfolding dial_body dial_configured is_empty
dial_body-direct f g w timeout t e = go (client_config w timeout t).0 (client_config w timeout t).1
  where
    go :
        (log : List Event) (r : Result DialError ClientConfig)
        → Same (dial_configured f w t log r) (dial_configured g w t log r)
    go log (err x) = same _
    go log (ok cfg) = rw (ap is_empty e) (same _)

-- With fuel for two calls or more `Dial` gives a result, and the same result as with two: the dial of
-- a jump host calls `Dial` no more.
pub dial-enough :
    (fuel : ℕ) (w : World) (timeout : ℤ) (t : Target)
    → (o : Outcome) × (dial (suc (suc fuel)) w timeout t ≡ some o) × (dial 2 w timeout t ≡ some o)
unfolding dial
dial-enough fuel w timeout t =
    dial_body-Same (dial (suc fuel) w timeout) (dial 1 w timeout) w timeout t
      (λ jump e. dial_body-direct (dial fuel w timeout) (dial zero w timeout) w timeout jump e)
