-- ===== src/Tunnel/Probing.antt =====
-- internal/tunnel/forwarder.go: the probes of all forwarders, which share `probeSlots`. Each goroutine is a
-- stage; they move in any order. What `Detect` answers is in the module Probe.
use auto_tunnel.Prelude.{
  ℕ, ◌+◌, ◌≤◌, ◌<◌, ◌≡◌, refl, ap, ◌∙◌, List, [], ◌∷◌, ◌++◌, ◌⊎◌, inl, inr, arith,
}
use native.Mathlib.Decide.{dec_lt}
use auto_tunnel.Probe.{Service, detect}
use auto_tunnel.Tunnel.Forwarder.{Forwarder, probed}
use auto_tunnel.Discovery.Types.{target}

abbrev pub max_concurrent_probes : ℕ
max_concurrent_probes = 8

-- `asks` waits for a slot, `holds` has one and waits for SSH or is in `Detect`, and `gone` has returned.
pub data ProbeStage : Type 0 where
  asks holds gone : ProbeStage

pub record Prober : Type 0 where
  pub stage : ProbeStage
  pub forwarder : Forwarder

-- The channel holds one value for each probe under way.
pub record Probes : Type 0 where
  pub slots : ℕ
  pub probers : List Prober

unfoldable pub no_probes : Probes
no_probes = record { slots = 0; probers = [] }

abbrev pub gone_with : Forwarder → Prober
gone_with f = record { stage = gone; forwarder = f }

-- One goroutine's step: from its stage to the next, with what it makes of the slots. A forwarder's context
-- may end at any time.
pub data Probing : Prober → ℕ → Prober → ℕ → Type 0 where
  takes_slot :
      {p : Prober} {n : ℕ}
      → p.stage ≡ asks
      → n < max_concurrent_probes
      → Probing p n (record p { stage = holds }) (n + 1)
  gives_up : {p : Prober} {n : ℕ} → p.stage ≡ asks → Probing p n (gone_with p.forwarder) n
  -- There is no client, and a second later the goroutine looks again.
  waits : {p : Prober} {n : ℕ} → p.stage ≡ holds → Probing p n p n
  -- The context has ended, in the wait or in `Detect`; the deferred call frees the slot.
  cancelled :
      {p : Prober} {n m : ℕ} → p.stage ≡ holds → n ≡ m + 1 → Probing p n (gone_with p.forwarder) m
  detects :
      {p : Prober} {n m : ℕ} (first second : Service)
      → p.stage ≡ holds
      → n ≡ m + 1
      → Probing p n
          (gone_with (probed (detect first second (target p.forwarder.port_map)).1 p.forwarder))
          m

pub data ProbeStep : Probes → Probes → Type 0 where
  -- forwarder.start, with probing on.
  starts_probe :
      (ps : Probes) (f : Forwarder)
      → ProbeStep ps (record ps { probers = record { stage = asks; forwarder = f } ∷ ps.probers })
  probes :
      (ps : Probes) (before after : List Prober) (p q : Prober) (n : ℕ)
      → ps.probers ≡ before ++ p ∷ after
      → Probing p ps.slots q n
      → ProbeStep ps (record { slots = n; probers = before ++ q ∷ after })

pub data ProbeSteps (ps : Probes) : Probes → Type 0 where
  no_step : ProbeSteps ps ps
  then_step : {qs rs : Probes} → ProbeSteps ps qs → ProbeStep qs rs → ProbeSteps ps rs

abbrev holding : ProbeStage → ℕ
holding holds = 1
holding stage = 0

-- How many goroutines have a slot.
abbrev pub under_way : List Prober → ℕ
under_way [] = 0
under_way (p ∷ ps) = holding p.stage + under_way ps

abbrev pub AreCounted : Probes → Type 0
AreCounted ps = (under_way ps.probers ≡ ps.slots) × (ps.slots ≤ max_concurrent_probes)

under_way-append :
    (xs : List Prober) (p : Prober) (ys : List Prober)
    → under_way (xs ++ p ∷ ys) ≡ holding p.stage + (under_way xs + under_way ys)
under_way-append [] p ys = omega arith
under_way-append (x ∷ xs) p ys = omega (arith, under_way-append xs p ys)

-- A step moves as many slots as it moves goroutines.
Probing-counts :
    {p q : Prober} {n m : ℕ}
    → Probing p n q m
    → (holding q.stage + n ≡ holding p.stage + m)
      × (n ≤ max_concurrent_probes → m ≤ max_concurrent_probes)
Probing-counts (takes_slot e h) = (rw e (omega arith), λ k. omega arith)
Probing-counts (gives_up e) = (rw e (omega arith), λ k. k)
Probing-counts (waits e) = (omega arith, λ k. k)
Probing-counts (cancelled e h) = (rw e (omega arith), λ k. omega arith)
Probing-counts (detects first second e h) = (rw e (omega arith), λ k. omega arith)

ProbeStep-AreCounted : {ps qs : Probes} → ProbeStep ps qs → AreCounted ps → AreCounted qs
ProbeStep-AreCounted (starts_probe ps f) h = (omega arith, h.1)
ProbeStep-AreCounted (probes ps before after p q n e s) h =
    let (moved, bounded) = Probing-counts s in
    let was = ap under_way e ∙ under_way-append before p after in
    let is_now = under_way-append before q after in (omega arith, bounded h.1)

counted : {ps : Probes} → ProbeSteps no_probes ps → AreCounted ps
unfolding no_probes
counted no_step = (refl, omega arith)
counted (then_step s t) = ProbeStep-AreCounted t (counted s)

-- A goroutine that has a slot, and its place.
abbrev Holder : List Prober → Type 0
Holder ps =
    (before : List Prober) × (p : Prober) × (after : List Prober) × (ps ≡ before ++ p ∷ after)
    × (p.stage ≡ holds)

behind : (p : Prober) (ps : List Prober) → Holder ps → Holder (p ∷ ps)
behind q ps (before, p, after, e, held) = (q ∷ before, p, after, ap (λ rest. q ∷ rest) e, held)

leading :
    (stage : ProbeStage) (p : Prober) (ps : List Prober)
    → p.stage ≡ stage
    → 0 < under_way (p ∷ ps)
    → (0 < under_way ps → Holder ps)
    → Holder (p ∷ ps)
leading holds p ps e h rest = ([], p, ps, refl, e)
leading asks p ps e h rest = behind p ps (rest (let none_here = ap holding e in omega arith))
leading gone p ps e h rest = behind p ps (rest (let none_here = ap holding e in omega arith))

holder : (ps : List Prober) → 0 < under_way ps → Holder ps
holder [] h = absurd (omega arith)
holder (p ∷ ps) h = leading p.stage p ps refl h (holder ps)

-- A slot is free, or there is a probe under way whose end frees one.
abbrev pub MayStart : Probes → Type 0
MayStart ps =
    (ps.slots < max_concurrent_probes)
    ⊎ ((qs : Probes) × ProbeStep ps qs × (qs.slots + 1 ≡ ps.slots))

frees : (ps : Probes) (n : ℕ) → ps.slots ≡ n + 1 → Holder ps.probers → MayStart ps
frees ps n full (before, p, after, e, held) = inr (
  record { slots = n; probers = before ++ gone_with p.forwarder ∷ after },
  probes ps before after p (gone_with p.forwarder) n e (cancelled held full),
  omega arith,
)

may_start : (ps : Probes) → AreCounted ps → MayStart ps
may_start ps h = elim (dec_lt ps.slots max_concurrent_probes) [
  | yes p ↦ inl p
  | no p ↦ frees ps 7 (omega arith) (holder ps.probers (omega arith))
]

-- However the goroutines move, and whenever a forwarder is stopped, the slots that are taken are those of
-- the probes under way, and these are eight at most. And where no slot is free, there is a probe under
-- way whose end frees one.
pub ProbeSteps-AreCounted : {ps : Probes} → ProbeSteps no_probes ps → AreCounted ps × MayStart ps
ProbeSteps-AreCounted s = (counted s, may_start _ (counted s))
