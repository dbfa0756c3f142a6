-- ===== src/State.antt =====
-- internal/state/snapshot.go: a dashboard row, and the totals of the header line. A row's time of
-- start is not modelled.
use auto_tunnel.Prelude.{ℕ, ◌+◌, ◌≡◌, Bool, List, [], ◌∷◌, arith, length}
use auto_tunnel.Prelude.Int.{ℤ}
use auto_tunnel.Text.{Bytes}

pub data TunnelState : Type 0 where
  listening active degraded paused error unsupported offered : TunnelState

pub record Tunnel : Type 0 where
  pub key : Bytes
  pub source : Bytes
  pub enabled : Bool
  pub name : Bytes
  pub image : Bytes
  pub proto : Bytes
  pub container_port : ℤ
  pub remote_port : ℤ
  pub remote_target : Bytes
  pub local_port : ℤ
  pub published : Bool
  pub state : TunnelState
  pub active_conns : ℕ
  pub total_conns : ℕ
  pub bytes_in : ℕ
  pub bytes_out : ℕ
  pub last_error : Bytes
  pub url : Bytes

pub record Totals : Type 0 where
  pub active : ℕ
  pub listening : ℕ
  pub degraded : ℕ
  pub broken : ℕ
  pub offered : ℕ

unfoldable pub count_state : Totals → TunnelState → Totals
count_state c active = record c { active = c.active + 1 }
count_state c listening = record c { listening = c.listening + 1 }
count_state c paused = record c { listening = c.listening + 1 }
count_state c degraded = record c { degraded = c.degraded + 1 }
count_state c error = record c { broken = c.broken + 1 }
count_state c unsupported = record c { broken = c.broken + 1 }
count_state c offered = record c { offered = c.offered + 1 }

unfoldable pub counts_from : Totals → List Tunnel → Totals
unfolding count_state
counts_from c [] = c
counts_from c (t ∷ ts) = counts_from (count_state c t.state) ts

-- Snapshot.Counts
unfoldable pub counts : List Tunnel → Totals
unfolding counts_from
counts = counts_from (record { active = 0; listening = 0; degraded = 0; broken = 0; offered = 0 })

counts_from-total :
    (c : Totals) (ts : List Tunnel)
    → let r = counts_from c ts in
      r.active + r.listening + r.degraded + r.broken + r.offered
      ≡ c.active + c.listening + c.degraded + c.broken + c.offered + length ts
unfolding counts_from
counts_from-total c [] = omega arith
counts_from-total c (t ∷ ts) = ground (arith, counts_from-total (count_state c t.state) ts)

-- Every row is counted once: the five totals add up to the number of rows.
pub counts-total :
    (ts : List Tunnel)
    → let r = counts ts in r.active + r.listening + r.degraded + r.broken + r.offered ≡ length ts
unfolding counts
counts-total ts = omega (
  arith,
  counts_from-total (record { active = 0; listening = 0; degraded = 0; broken = 0; offered = 0 })
      ts,
)
