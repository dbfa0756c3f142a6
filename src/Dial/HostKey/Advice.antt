-- ===== src/Dial/HostKey/Advice.antt =====
-- The check of a host key at the address that is dialled, and what it advises.
use auto_tunnel.Prelude.{
  ℕ, ok, ◌≡◌, refl, sym, ap, ◌∙◌, ◌≢◌, inl, inr, false, not, ◌||◌, Option, none, some, [], ◌∷◌,
  ◌++◌, arith, ◌==◌, if◌then◌else◌, Bool-cases,
}
use auto_tunnel.Prelude.Int.{ℤ, pos, eqb_ℤ, eqb_ℤ→eq}
use auto_tunnel.Text.{Bytes, codes, eqb, is_empty, cut_first}
use auto_tunnel.Text.Digits.{Lacks, cut_first-append, cut_first-none, cut_last-append, Lacks-itoa}
use auto_tunnel.Text.Decimal.{itoa, atoi}
use auto_tunnel.Text.Decimal.RoundTrip.{IsInt, atoi-itoa}
use auto_tunnel.Text.Equality.{eqb_iff, is_empty-true}
use auto_tunnel.Discovery.Types.{join_host_port}
use auto_tunnel.Dial.Target.{Target, addr}
use auto_tunnel.Dial.HostKey.{
  Verdict, trusted, unknown_host, refused, HostKeyError, not_in_known_hosts, verification_failed,
  holds_byte, plain_host, bracket_host, split_host_port, name_parts, default_port_note,
  keyscan_hint, explain, is_trusted, note_text, check_host_key,
}

holds-Lacks : (b : ℕ) (s : Bytes) → Lacks b s → holds_byte b s ≡ false
holds-Lacks b s h = rw (cut_first-none b s h, holds_byte) refl

-- A host name or address with no square bracket, and a port, can be read back from what
-- net.JoinHostPort makes of them.
record ArePlain (host port : Bytes) : Type 0 where
  opens : Lacks b'[' host
  closes : Lacks b']' host
  port_opens : Lacks b'[' port
  port_closes : Lacks b']' port
  colons : Lacks b':' port

module _ (host port : Bytes) (p : ArePlain host port) where
  plain_lem : holds_byte b':' host ≡ false → plain_host host port ≡ some (host, port)
  unfolding plain_host
  plain_lem no_colon =
      rw
        (
          no_colon,
          holds-Lacks b'[' host p.opens,
          holds-Lacks b']' host p.closes,
          holds-Lacks b'[' port p.port_opens,
          holds-Lacks b']' port p.port_closes,
        )
        refl

  bracket_lem : bracket_host (some (host, b':' ∷ port)) ≡ some (host, port)
  unfolding bracket_host
  bracket_lem =
      rw
        (
          holds-Lacks b':' port p.colons,
          holds-Lacks b'[' host p.opens,
          holds-Lacks b'[' port p.port_opens,
          holds-Lacks b']' port p.port_closes,
        )
        refl

  split-bracketed : split_host_port (b'[' ∷ (host ++ b']' ∷ b':' ∷ port)) ≡ some (host, port)
  unfolding split_host_port
  split-bracketed = rw (cut_first-append b']' host (b':' ∷ port) p.closes) bracket_lem

-- The first byte decides, and is no bracket.
split-plain :
    (host port : Bytes)
    → ArePlain host port
    → holds_byte b':' host ≡ false
    → split_host_port (host ++ b':' ∷ port) ≡ some (host, port)
unfolding split_host_port
split-plain [] port p e = rw (cut_last-append b':' [] port p.colons) (plain_lem [] port p e)
split-plain (c ∷ host) port p e =
    let first : (c == b'[') ≡ false = ground (arith, p.opens.0) in
    rw (first, cut_last-append b':' (c ∷ host) port p.colons) (plain_lem (c ∷ host) port p e)

joined_by :
    (host port : Bytes) (cut : Option (Bytes × Bytes))
    → cut_first b':' host ≡ cut
    → ArePlain host port
    → split_host_port (join_host_port host port) ≡ some (host, port)
unfolding join_host_port
joined_by host port none e p =
    rw (e, join_host_port) (split-plain host port p (rw (e, holds_byte) refl))
joined_by host port (some parts) e p = rw (e, join_host_port) (split-bracketed host port p)

-- net.SplitHostPort reads back what net.JoinHostPort has written.
name_parts-join :
    (host port : Bytes) → ArePlain host port → name_parts (join_host_port host port) ≡ (host, port)
unfolding name_parts
name_parts-join host port p = rw (joined_by host port (cut_first b':' host) refl p, name_parts) refl

-- The address of a target.
address_parts :
    (t : Target)
    → Lacks b'[' t.host
    → Lacks b']' t.host
    → name_parts (addr t) ≡ (t.host, itoa t.port)
unfolding addr
address_parts t o c = name_parts-join t.host (itoa t.port) (record {
  opens = o;
  closes = c;
  port_opens = Lacks-itoa b'[' t.port (inl (omega arith));
  port_closes = Lacks-itoa b']' t.port (inl (omega arith));
  colons = Lacks-itoa b':' t.port (inl (omega arith));
})

atoi_22 : atoi (codes "22") ≡ ok (pos 22)
unfolding atoi
atoi_22 = refl

itoa_22 : itoa (pos 22) ≡ codes "22"
unfolding itoa
itoa_22 = refl

no_int : (z : ℤ) → atoi [] ≢ ok z
unfolding atoi
no_int z e = cc

-- The text of the port tells whether it is the default one.
default_port :
    (port : ℤ)
    → IsInt port
    → (is_empty (itoa port) || eqb (itoa port) (codes "22")) ≡ eqb_ℤ port (pos 22)
default_port port h = elim (Bool-cases (is_empty (itoa port))) [
  | inl e ↦ absurd (no_int port (sym (ap atoi (is_empty-true (itoa port) e)) ∙ atoi-itoa port h))
  | inr e ↦ rw e (elim (Bool-cases (eqb (itoa port) (codes "22"))) [
    | inl t ↦
        let same =
          sym (atoi-itoa port h) ∙ ap atoi ((eqb_iff (itoa port) (codes "22")).0 t) ∙ atoi_22 in
        rw t (ground arith)
    | inr t ↦ elim (Bool-cases (eqb_ℤ port (pos 22))) [
      | inl u ↦
          let text = ap itoa (eqb_ℤ→eq port (pos 22) u) ∙ itoa_22 in
          absurd (cc (t, (eqb_iff (itoa port) (codes "22")).1 text))
      | inr u ↦ rw (t, u) refl
    ]
  ])
]

-- What is advised at a host and a port, by the number of the port.
abbrev pub hint_at : Bytes → ℤ → Bytes
hint_at host port =
    if eqb_ℤ port (pos 22)
    then codes "ssh-keyscan -H " ++ (host ++ codes " >> ~/.ssh/known_hosts")
    else codes "ssh-keyscan -H -p "
      ++ (itoa port ++ (codes " " ++ (host ++ codes " >> ~/.ssh/known_hosts")))

abbrev pub note_at : (Bytes → Verdict) → Bytes → ℤ → Bytes
note_at base host port =
    if eqb_ℤ port (pos 22)
    then []
    else if not (is_trusted (base (join_host_port host (codes "22"))))
    then []
    else note_text host (itoa port)

-- What the check makes of each answer of known_hosts.
abbrev pub advised : (Bytes → Verdict) → Target → Verdict → Option HostKeyError
advised base t trusted = none
advised base t unknown_host =
    some (not_in_known_hosts (addr t) (note_at base t.host t.port) (hint_at t.host t.port))
advised base t (refused reason) = some (verification_failed (addr t))

explain_lem :
    (base : Bytes → Verdict) (t : Target) (v : Verdict)
    → Lacks b'[' t.host
    → Lacks b']' t.host
    → IsInt t.port
    → explain base (addr t) v ≡ advised base t v
unfolding explain default_port_note addr keyscan_hint is_trusted itoa
explain_lem base t trusted o c i = refl
explain_lem base t (refused reason) o c i = refl
explain_lem base t unknown_host o c i =
    rw (address_parts t o c, default_port_note, keyscan_hint, default_port t.port i) refl

-- At the address of a target, whose host holds no square bracket, the check accepts the key just if
-- known_hosts does. A key under a name that is not known is refused with the command that records
-- this very host and port, and with a note just if the key is trusted for the host at port 22 and
-- the port is another. Any other answer is refused without a command.
pub check_host_key-addr :
    (base : Bytes → Verdict) (t : Target)
    → Lacks b'[' t.host
    → Lacks b']' t.host
    → IsInt t.port
    → check_host_key base (addr t) ≡ advised base t (base (addr t))
unfolding check_host_key
check_host_key-addr base t o c i = explain_lem base t (base (addr t)) o c i
