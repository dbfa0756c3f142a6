-- ===== src/Probe.antt =====
-- internal/probe/probe.go: what a forwarded port speaks. How the remote service answers an attempt is a
-- parameter, and what the probe does on the network is a list of events, in order. The end of the
-- context closes the connection, so that the step under way fails.
use auto_tunnel.Prelude.{
  ℕ, ◌+◌, ◌≡◌, refl, ap, Bool, true, false, ◌&&◌, ◌||◌, leb, not, ◌∙◌, inl, inr, Bool-cases, Option,
  none, some, List, [], ◌∷◌, ◌++◌, if◌then◌else◌,
}
use auto_tunnel.Prelude.Int.{ℤ, pos, leb_ℤ}
use auto_tunnel.Text.{Bytes, codes, eqb}
use auto_tunnel.Dial.HostKey.{name_parts}
use auto_tunnel.Tunnel.Forwarder.{Scheme, unknown, http, https}

-- Three seconds, in nanoseconds.
abbrev pub default_timeout : ℤ
default_timeout = pos 3000000000

-- How an attempt goes: whether the service can be dialled, whether the TLS handshake and the writing
-- of the request succeed, and the first bytes of the answer, none if the connection ends too early.
pub record Service : Type 0 where
  pub dials : Bool
  pub shakes_hands : Bool
  pub takes_request : Bool
  pub answer : Option Bytes

pub data ProbeEvent : Type 0 where
  opened refused closed secured : ProbeEvent
  wrote : Bytes → ProbeEvent

abbrev pub crlf : Bytes
crlf = 13 ∷ 10 ∷ []

unfoldable pub request : Bytes → Bytes
unfolding name_parts
request target =
    codes "HEAD / HTTP/1.1"
    ++ (crlf
        ++ (codes "Host: "
            ++ ((name_parts target).0
                ++ (crlf
                    ++ (codes "User-Agent: auto-tunnel-probe"
                        ++ (crlf ++ (codes "Connection: close" ++ (crlf ++ crlf))))))))

abbrev pub is_http : Option Bytes → Bool
is_http none = false
is_http (some prefix) = eqb prefix (codes "HTTP/")

-- The request and the answer, on a connection that is open.
unfoldable pub asked : Service → Bytes → List ProbeEvent × Bool
unfolding request
asked s target =
    if s.takes_request
    then (wrote (request target) ∷ closed ∷ [], is_http s.answer)
    else (closed ∷ [], false)

unfoldable pub secure : Service → Bytes → Bool → List ProbeEvent × Bool
unfolding asked
secure s target false = asked s target
secure s target true =
    let rest = asked s target in
    if s.shakes_hands then (secured ∷ rest.0, rest.1) else (closed ∷ [], false)

-- speaksHTTP
unfoldable pub speaks_http : Service → Bytes → Bool → List ProbeEvent × Bool
unfolding secure
speaks_http s target use_tls =
    let rest = secure s target use_tls in
    if s.dials then (opened ∷ rest.0, rest.1) else (refused ∷ [], false)

-- Detect, with the two attempts of it.
unfoldable pub detect : (first second : Service) → Bytes → List ProbeEvent × Scheme
unfolding speaks_http
detect first second target =
    let tls = speaks_http first target true in
    let plain = speaks_http second target false in
    if tls.1 then (tls.0, https) else (tls.0 ++ plain.0, if plain.1 then http else unknown)

unfoldable pub timeout_of : ℤ → ℤ
timeout_of timeout = if leb_ℤ timeout (pos 0) then default_timeout else timeout

-- How far the events have come: whether a connection is open, whether it is secured, and how often the
-- service has been dialled.
pub record Line : Type 0 where
  pub open_now : Bool
  pub safe : Bool
  pub tries : ℕ

abbrev pub idle_line : ℕ → Line
idle_line tries = record { open_now = false; safe = false; tries = tries }

-- What an event makes of it, none where it may not come: one connection is open at a time, nothing is
-- sent on the first one before it is secured, and there is no third.
unfoldable pub advanced : ProbeEvent → Line → Option Line
advanced opened l =
    if l.open_now || leb 2 l.tries
    then none
    else some (record { open_now = true; safe = false; tries = l.tries + 1 })
advanced refused l = if l.open_now || leb 2 l.tries then none else some (idle_line (l.tries + 1))
advanced closed l = if l.open_now then some (idle_line l.tries) else none
advanced secured l = if l.open_now then some (record l { safe = true }) else none
advanced (wrote bytes) l = if l.open_now && (l.safe || leb 2 l.tries) then some l else none

unfoldable pub all_advanced : List ProbeEvent → Option Line → Option Line
unfolding advanced
all_advanced [] l = l
all_advanced (e ∷ es) l = all_advanced es (elim l [ none ↦ none | some m ↦ advanced e m ])

all_advanced-append :
    (xs ys : List ProbeEvent) (l : Option Line)
    → all_advanced (xs ++ ys) l ≡ all_advanced ys (all_advanced xs l)
unfolding all_advanced
all_advanced-append [] ys l = refl
all_advanced-append (e ∷ xs) ys l = all_advanced-append xs ys _

-- Whether an attempt gets an HTTP answer.
abbrev pub answers : Service → Bool → Bool
answers s tls = s.dials && ((not tls || s.shakes_hands) && (s.takes_request && is_http s.answer))

-- The attempt over TLS is the first, and the plain one the second.
abbrev try_of : Bool → ℕ
try_of true = 0
try_of false = 1

abbrev Tried : Service → Bytes → Bool → Type 0
Tried s target tls =
    (all_advanced (speaks_http s target tls).0 (some (idle_line (try_of tls)))
      ≡ some (idle_line (try_of tls + 1)))
    × ((speaks_http s target tls).1 ≡ answers s tls)

tried :
    (dials shakes takes : Bool) (answer : Option Bytes) (target : Bytes) (tls : Bool)
    → Tried
        (record { dials = dials; shakes_hands = shakes; takes_request = takes; answer = answer })
        target
        tls
unfolding all_advanced advanced speaks_http
tried false shakes takes answer target true = (refl, refl)
tried false shakes takes answer target false = (refl, refl)
tried true false takes answer target true = (refl, refl)
tried true true false answer target true = (refl, refl)
tried true true true answer target true = (refl, refl)
tried true shakes false answer target false = (refl, refl)
tried true shakes true answer target false = (refl, refl)

tried-at : (s : Service) (target : Bytes) (tls : Bool) → Tried s target tls
tried-at s target tls = tried s.dials s.shakes_hands s.takes_request s.answer target tls

both-trace :
    (first second : Service) (target : Bytes)
    → all_advanced
        ((speaks_http first target true).0 ++ (speaks_http second target false).0)
        (some (idle_line 0))
      ≡ some (idle_line 2)
both-trace first second target =
    let plain = (speaks_http second target false).0 in
    all_advanced-append (speaks_http first target true).0 plain (some (idle_line 0))
    ∙ ap (all_advanced plain) (tried-at first target true).0
    ∙ (tried-at second target false).0

-- `Detect` says https if the attempt over TLS gets an HTTP answer, and otherwise http if the plain one
-- does, and else neither. It dials at most twice, with one connection open at a time and none left
-- open, and the first one carries no request before it is secured.
pub detect_lem :
    (first second : Service) (target : Bytes)
    → let r = detect first second target in
      (r.1 ≡ (if answers first true then https else if answers second false then http else unknown))
      × (all_advanced r.0 (some (idle_line 0))
          ≡ some (idle_line (if answers first true then 1 else 2)))
unfolding detect
detect_lem first second target =
    let (trace, verdict) = tried-at first target true in
    let (plain_trace, plain_verdict) = tried-at second target false in
    elim (Bool-cases (answers first true)) [
      | inl e ↦ rw (verdict, e) (refl, trace)
      | inr e ↦ rw (verdict, plain_verdict, e) (refl, both-trace first second target)
    ]
