-- ===== src/Discovery/Docker/Commands.antt =====
-- The commands that a pass over the containers runs on the remote host.
use auto_tunnel.Prelude.{
  ℕ, ◌≤◌, ◌≡◌, refl, ap, ◌∙◌, ◌≢◌, ◌⊎◌, inl, inr, true, ◌&&◌, List, [], ◌∷◌, arith, leb, leb→le,
  Bool-cases, and_left, and_right, length, All, Result, ok, err,
}
use auto_tunnel.Discovery.Ports.Expand.{Run, never_returns, returns}
use auto_tunnel.Text.{Bytes}
use auto_tunnel.Text.Decimal.{is_digit}
use auto_tunnel.GoMap.{Map}
use auto_tunnel.Discovery.Docker.{
  read_addresses, Options, PsLine, is_hex, all_hex, is_container_id, filter_ids, inspect_line, Seen,
  dedupe_ids,
}
use auto_tunnel.Discovery.Docker.Pass.{
  sorted_rows, finish, discover_answer, discover, container_ips, resolve,
}

-- A byte of "0123456789abcdef".
abbrev pub IsHexByte : ℕ → Type 0
IsHexByte c = (48 ≤ c × c ≤ 57) ⊎ (97 ≤ c × c ≤ 102)

-- 6 to 64 lower case hexadecimal digits: nothing that a shell reads as more than a word.
abbrev pub IsDockerId : Bytes → Type 0
IsDockerId id = 6 ≤ length id × length id ≤ 64 × All IsHexByte id

is_hex-IsHexByte : (c : ℕ) → is_hex c ≡ true → IsHexByte c
unfolding is_hex is_digit
is_hex-IsHexByte c h = elim (Bool-cases (leb 48 c && leb c 57)) [
  | inl e ↦ inl (ground arith)
  | inr e ↦ inr (ground arith)
]

all_hex-All : (s : Bytes) → all_hex s ≡ true → All IsHexByte s
unfolding all_hex
all_hex-All [] h = tt
all_hex-All (c ∷ s) h = (
  is_hex-IsHexByte c (and_left (is_hex c) (all_hex s) h),
  all_hex-All s (and_right (is_hex c) (all_hex s) h),
)

is_container_id-IsDockerId : (id : Bytes) → is_container_id id ≡ true → IsDockerId id
unfolding is_container_id
is_container_id-IsDockerId id h =
    let long = leb 6 (length id) in
    let short = leb (length id) 64 in
    let lengths = and_left (long && short) (all_hex id) h in
    (
      leb→le 6 (length id) (and_left long short lengths),
      leb→le (length id) 64 (and_right long short lengths),
      all_hex-All id (and_right (long && short) (all_hex id) h),
    )

filter_ids-IsDockerId : (ids : List Bytes) → All IsDockerId (filter_ids ids).0
unfolding filter_ids
filter_ids-IsDockerId [] = tt
filter_ids-IsDockerId (id ∷ ids) = elim (Bool-cases (is_container_id id)) [
  | inl e ↦ rw e (is_container_id-IsDockerId id e, filter_ids-IsDockerId ids)
  | inr e ↦ rw e (filter_ids-IsDockerId ids)
]

-- Two hosts that answer the listing alike, and alike every request that asks for one id or more, all
-- of them safe.
abbrev AnswerAlike : Options → (Bytes → Result Bytes Bytes) → (Bytes → Result Bytes Bytes) → Type 0
AnswerAlike o r q =
    r o.ps_command ≡ q o.ps_command
    × ((ids : List Bytes)
        → ids ≢ []
        → All IsDockerId ids
        → r (inspect_line o ids) ≡ q (inspect_line o ids))

module _ (visit : Map Bytes → Map Bytes) (decode : Bytes → Result Bytes PsLine)
    (r q : Bytes → Result Bytes Bytes) (o : Options) (alike : AnswerAlike o r q) where
  container_ips-alike :
      (ids : List Bytes)
      → All IsDockerId ids
      → container_ips visit decode r o ids ≡ container_ips visit decode q o ids
  unfolding container_ips
  container_ips-alike [] h = refl
  container_ips-alike (id ∷ ids) h = ap read_addresses (alike.1 (id ∷ ids) (λ e. cc) h)

  resolve-alike :
      (need : List Bytes) (seen : Seen)
      → resolve visit decode r o need seen ≡ resolve visit decode q o need seen
  unfolding resolve
  resolve-alike [] seen = refl
  resolve-alike (id ∷ need) seen =
      rw (container_ips-alike _ (filter_ids-IsDockerId (dedupe_ids [] (id ∷ need)))) refl

  finish-alike :
      (run : Run (Result Bytes Seen)) → finish visit decode r o run ≡ finish visit decode q o run
  unfolding finish
  finish-alike never_returns = refl
  finish-alike (returns (err e)) = refl
  finish-alike (returns (ok seen)) =
      ap (λ s. returns (ok (sorted_rows visit decode r s))) (resolve-alike seen.need_ip seen)

  answer-alike :
      (a : Result Bytes Bytes)
      → discover_answer visit decode r o a ≡ discover_answer visit decode q o a
  unfolding discover_answer
  answer-alike (err e) = refl
  answer-alike (ok out) = finish-alike _

-- Discovery asks the remote host two things at most: the listing, and the addresses of one id or more,
-- all of them 6 to 64 lower case hexadecimal digits. Two hosts that answer these alike, and that may
-- differ on every other command line, give the same result. So no text of the remote host but such an
-- id is part of a command whose answer counts.
pub discover-alike :
    (visit : Map Bytes → Map Bytes) (decode : Bytes → Result Bytes PsLine)
    (r q : Bytes → Result Bytes Bytes) (o : Options)
    → AnswerAlike o r q
    → discover visit decode r o ≡ discover visit decode q o
unfolding discover
discover-alike visit decode r q o alike =
    ap (discover_answer visit decode r o) alike.0
    ∙ answer-alike visit decode r q o alike (q o.ps_command)
