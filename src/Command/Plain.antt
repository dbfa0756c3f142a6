-- ===== src/Command/Plain.antt =====
-- main.go: runPlain, on the reports that `render` makes of one snapshot after the other until the context
-- ends. The time in front of a report is left out.
use auto_tunnel.Prelude.{
  ℕ, ◌≡◌, ◌≢◌, refl, sym, ap, ◌∙◌, inl, inr, List, [], ◌∷◌, ◌++◌, arith, if◌then◌else◌, Bool-cases,
  All, length, suc, subst,
}
use auto_tunnel.Text.{Bytes, eqb}
use auto_tunnel.Text.Equality.{eqb_iff}
use auto_tunnel.State.{Tunnel, TunnelState, unsupported}
use auto_tunnel.Conn.{Lifecycle}
use auto_tunnel.Command.Report.{local_address, note_of, other_note, report_row, report_rows, render}

-- A report is printed if it is not the one printed last.
unfoldable pub printed : Bytes → List Bytes → List Bytes
unfolding eqb
printed previous [] = []
printed previous (summary ∷ summaries) =
    let rest = printed summary summaries in
    let same = printed previous summaries in if eqb summary previous then same else summary ∷ rest

-- What `render` is given of a snapshot.
pub record Reported : Type 0 where
  pub ssh : Lifecycle
  pub containers : ℕ
  pub discovery_error : Bytes
  pub tunnels : List Tunnel

module _ (upper : Bytes → Bytes) (bind : Bytes) where
  unfoldable pub report : Reported → Bytes
  unfolding render
  report r = render upper bind r.ssh r.containers r.discovery_error r.tunnels

  unfoldable pub reports : List Reported → List Bytes
  unfolding report
  reports [] = []
  reports (r ∷ rs) = report r ∷ reports rs

  unfoldable pub run_plain : List Reported → List Bytes
  unfolding printed reports
  run_plain rs = printed [] (reports rs)

-- The row with other counters.
abbrev recounted : ℕ → ℕ → ℕ → ℕ → Tunnel → Tunnel
recounted active total bytes_in bytes_out t = record t {
  active_conns = active;
  total_conns = total;
  bytes_in = bytes_in;
  bytes_out = bytes_out;
}

-- The rows of two snapshots differ in their counters alone.
abbrev pub OnlyCounters : List Tunnel → List Tunnel → Type 0
OnlyCounters [] [] = Unit {0}
OnlyCounters (t ∷ ts) (u ∷ us) =
    (u ≡ recounted u.active_conns u.total_conns u.bytes_in u.bytes_out t) × OnlyCounters ts us
OnlyCounters ts us = ⊥

abbrev pub IsAlike : Reported → Reported → Type 0
IsAlike r s =
    (s.ssh ≡ r.ssh)
    × (s.containers ≡ r.containers)
    × (s.discovery_error ≡ r.discovery_error)
    × OnlyCounters r.tunnels s.tunnels

length-counters : (ts us : List Tunnel) → OnlyCounters ts us → length us ≡ length ts
length-counters [] [] h = refl
length-counters [] (u ∷ us) h = absurd h
length-counters (t ∷ ts) [] h = absurd h
length-counters (t ∷ ts) (u ∷ us) h = ap (λ (n : ℕ). suc n) (length-counters ts us h.1)

-- What an entry is set against: the last of those before it.
abbrev last_of : Bytes → List Bytes → Bytes
last_of first [] = first
last_of first (s ∷ ss) = last_of s ss

-- No entry is the one before it.
abbrev Changing : Bytes → List Bytes → Type 0
Changing first [] = Unit {0}
Changing first (s ∷ ss) = (s ≢ first) × Changing s ss

printed-Changing : (previous : Bytes) (ss : List Bytes) → Changing previous (printed previous ss)
unfolding printed
printed-Changing previous [] = tt
printed-Changing previous (s ∷ ss) = elim (Bool-cases (eqb s previous)) [
  | inl e ↦ rw e (printed-Changing previous ss)
  | inr e ↦ rw e (λ q. absurd (cc ((eqb_iff s previous).1 q)), printed-Changing s ss)
]

printed-last :
    (previous : Bytes) (ss : List Bytes)
    → last_of previous (printed previous ss) ≡ last_of previous ss
unfolding printed
printed-last previous [] = refl
printed-last previous (s ∷ ss) = elim (Bool-cases (eqb s previous)) [
  | inl e ↦
      rw e
        (printed-last previous ss ∙ ap (λ first. last_of first ss) (sym ((eqb_iff s previous).0 e)))
  | inr e ↦ rw e (printed-last s ss)
]

printed-same :
    (previous : Bytes) (ss : List Bytes) → All (λ s. s ≡ previous) ss → printed previous ss ≡ []
unfolding printed
printed-same previous [] h = refl
printed-same previous (s ∷ ss) h = ground (arith, eqb_iff s previous, printed-same previous ss)

printed-quiet :
    (previous s : Bytes) (before ss : List Bytes)
    → All (λ t. t ≡ s) ss
    → printed previous (before ++ s ∷ ss) ≡ printed previous (before ++ s ∷ [])
unfolding printed
printed-quiet previous s [] ss h = elim (Bool-cases (eqb s previous)) [
  | inl e ↦
      let same = (eqb_iff s previous).0 e in
      rw e (printed-same previous ss (subst (λ x. All (λ t. t ≡ x) ss) same h))
  | inr e ↦ rw e (ap (λ rest. s ∷ rest) (printed-same s ss h))
]
printed-quiet previous s (b ∷ before) ss h = elim (Bool-cases (eqb b previous)) [
  | inl e ↦ rw e (printed-quiet previous s before ss h)
  | inr e ↦ rw e (ap (λ rest. b ∷ rest) (printed-quiet b s before ss h))
]

module _ (upper : Bytes → Bytes) (bind : Bytes) where
  note-counters :
      (a b c d : ℕ) (state : TunnelState) (t : Tunnel)
      → note_of upper state (recounted a b c d t) ≡ note_of upper state t
  unfolding note_of other_note
  note-counters a b c d unsupported t = refl
  note-counters a b c d state t = refl

  row-counters :
      (a b c d : ℕ) (t : Tunnel)
      → report_row upper bind (recounted a b c d t) ≡ report_row upper bind t
  unfolding report_row local_address
  row-counters a b c d t = rw (note-counters a b c d t.state t) refl

  rows-counters :
      (ts us : List Tunnel)
      → OnlyCounters ts us
      → report_rows upper bind us ≡ report_rows upper bind ts
  unfolding report_rows
  rows-counters [] [] h = refl
  rows-counters [] (u ∷ us) h = absurd h
  rows-counters (t ∷ ts) [] h = absurd h
  rows-counters (t ∷ ts) (u ∷ us) h =
      let row =
        ap (report_row upper bind) h.0
        ∙ row-counters u.active_conns u.total_conns u.bytes_in u.bytes_out t in
      rw (row, rows-counters ts us h.1) refl

  report-alike : (r s : Reported) → IsAlike r s → report upper bind s ≡ report upper bind r
  unfolding report render
  report-alike r s (ssh, containers, discovery_error, rows) =
      rw
        (
          ssh,
          containers,
          discovery_error,
          length-counters r.tunnels s.tunnels rows,
          rows-counters r.tunnels s.tunnels rows,
        )
        refl

  reports-alike :
      (r : Reported) (rs : List Reported)
      → All (IsAlike r) rs
      → All (λ t. t ≡ report upper bind r) (reports upper bind rs)
  unfolding reports
  reports-alike r [] h = tt
  reports-alike r (s ∷ rs) h = (report-alike r s h.0, reports-alike r rs h.1)

  reports-append :
      (rs ss : List Reported)
      → reports upper bind (rs ++ ss) ≡ reports upper bind rs ++ reports upper bind ss
  unfolding reports
  reports-append [] ss = refl
  reports-append (r ∷ rs) ss = ap (λ rest. report upper bind r ∷ rest) (reports-append rs ss)

  -- What stands on the terminal last is the report of the last snapshot, and no report is printed
  -- twice in a row.
  pub run_plain-last :
      (rs : List Reported)
      → (last_of [] (run_plain upper bind rs) ≡ last_of [] (reports upper bind rs))
        × Changing [] (run_plain upper bind rs)
  unfolding run_plain
  run_plain-last rs =
      (printed-last [] (reports upper bind rs), printed-Changing [] (reports upper bind rs))

  -- Whatever snapshots have come before, those that differ from the last of them in the counters of
  -- bytes and connections alone print nothing.
  pub run_plain-quiet :
      (before : List Reported) (r : Reported) (rs : List Reported)
      → All (IsAlike r) rs
      → run_plain upper bind (before ++ r ∷ rs) ≡ run_plain upper bind (before ++ r ∷ [])
  unfolding run_plain
  run_plain-quiet before r rs h =
      rw (reports-append before (r ∷ rs), reports-append before (r ∷ []))
        (unfold reports in
          printed-quiet [] (report upper bind r) (reports upper bind before) (reports upper bind rs)
            (reports-alike r rs h))
