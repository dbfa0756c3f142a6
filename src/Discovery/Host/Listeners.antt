-- ===== src/Discovery/Host/Listeners.antt =====
-- The listeners of one output: what is read of an address, and one entry for each port, in order.
use auto_tunnel.Prelude.{
  ℕ, ◌≤◌, ◌≡◌, refl, sym, ap, subst, ◌∙◌, ◌≢◌, inl, inr, true, false, ◌||◌, Option, none, some,
  List, [], ◌∷◌, ◌++◌, arith, Bool-cases, All, AllPairs, AllPairs-both, Result, ok, err,
}
use auto_tunnel.Prelude.Int.{ℤ, pos, leb_ℤ, ltb_ℤ, eqb_ℤ, eqb_ℤ→eq}
use auto_tunnel.Prelude.Sort.{sort_by, AllPairs-sort_by, All-sort_by, IsOrder, sort_by-IsSorted}
use auto_tunnel.Text.{Bytes, is_empty, trim_space, trim_brackets, cut_last, split, fields}
use auto_tunnel.Text.Digits.{cut_last-append, Lacks-itoa}
use auto_tunnel.Text.Decimal.{itoa, atoi, NumError}
use auto_tunnel.Text.Decimal.RoundTrip.{atoi-itoa}
use auto_tunnel.Discovery.Static.{in_port_range}
use auto_tunnel.Discovery.Host.{
  Listener, AddrError, check_port, split_cut, split_addr_port, named, add_listener, Heard, hear_at,
  hear_row, listening_row, hear, hear_all, port_less, parse_listeners,
}

check_port-ok :
    (before : Bytes) (port : ℕ)
    → 1 ≤ port
    → port ≤ 65535
    → check_port before (ok (pos port)) ≡ ok (trim_brackets before, pos port)
unfolding check_port
check_port-ok before port lo hi = ground arith

-- An address that `ss` or `netstat` prints: any address, a colon, and a port from 1 to 65535 in
-- decimal. It is read as the address, less square brackets round it, and that port, however many
-- colons the address holds.
pub split_addr_port-itoa :
    (addr : Bytes) (port : ℕ)
    → 1 ≤ port
    → port ≤ 65535
    → split_addr_port (addr ++ b':' ∷ itoa (pos port)) ≡ ok (trim_brackets addr, pos port)
unfolding split_addr_port
split_addr_port-itoa addr port lo hi =
    let cut =
      cut_last-append b':' addr (itoa (pos port))
        (Lacks-itoa b':' (pos port) (inl (omega arith))) in
    ap split_cut cut
    ∙ unfold split_cut in
      ap (check_port addr) (atoi-itoa (pos port) (omega arith)) ∙ check_port-ok addr port lo hi

abbrev DistinctPorts : List Listener → Type 0
DistinctPorts = AllPairs (λ a b. a.port ≢ b.port)

abbrev pub HasPort : Listener → Type 0
HasPort l = in_port_range l.port ≡ true

named-port : (l : Listener) (proc : Bytes) → (named l proc).port ≡ l.port
named-port l proc = elim (Bool-cases (is_empty l.proc)) [ inl e ↦ rw e refl | inr e ↦ rw e refl ]

-- A property of ports alone.
All-add_listener :
    (P : ℤ → Type 0) (l : Listener) (ls : List Listener)
    → P l.port
    → All (λ m. P m.port) ls
    → All (λ m. P m.port) (add_listener l ls)
unfolding add_listener
All-add_listener P l [] p h = (p, tt)
All-add_listener P l (m ∷ ms) p h = elim (Bool-cases (eqb_ℤ m.port l.port)) [
  | inl e ↦ rw e (subst P (sym (named-port m l.proc)) h.0, h.1)
  | inr e ↦ rw e (h.0, All-add_listener P l ms p h.1)
]

ne_of_eqb_ℤ : (a b : ℤ) → eqb_ℤ a b ≡ false → a ≢ b
ne_of_eqb_ℤ a b h e = ground arith

Distinct-add_listener :
    (l : Listener) (ls : List Listener) → DistinctPorts ls → DistinctPorts (add_listener l ls)
unfolding add_listener
Distinct-add_listener l [] d = (tt, tt)
Distinct-add_listener l (m ∷ ms) d = elim (Bool-cases (eqb_ℤ m.port l.port)) [
  | inl e ↦
      rw e (subst (λ p. All (λ (u : Listener). p ≢ u.port) ms) (sym (named-port m l.proc)) d.0, d.1)
  | inr e ↦ rw e (
    All-add_listener (λ p. m.port ≢ p) l ms (ne_of_eqb_ℤ m.port l.port e) d.0,
    Distinct-add_listener l ms d.1,
  )
]

-- What holds of the listeners found so far.
abbrev IsHeard : Heard → Type 0
IsHeard h = DistinctPorts h.listeners × All HasPort h.listeners

abbrev GivesPort : Result AddrError (Bytes × ℤ) → Type 0
GivesPort (ok (addr, port)) = in_port_range port ≡ true
GivesPort (err e) = Unit

check_port-GivesPort : (before : Bytes) (r : Result NumError ℤ) → GivesPort (check_port before r)
unfolding check_port in_port_range
check_port-GivesPort before (err e) = tt
check_port-GivesPort before (ok port) =
    elim (Bool-cases (leb_ℤ port (pos 0) || ltb_ℤ (pos 65535) port)) [
      | inl e ↦ rw e tt
      | inr e ↦ rw e (rw e refl)
    ]

split_cut-GivesPort : (o : Option (Bytes × Bytes)) → GivesPort (split_cut o)
unfolding split_cut
split_cut-GivesPort none = tt
split_cut-GivesPort (some (before, after)) = check_port-GivesPort before (atoi after)

hear_at-IsHeard :
    (address proc : Bytes) (r : Result AddrError (Bytes × ℤ)) (h : Heard)
    → GivesPort r
    → IsHeard h
    → IsHeard (hear_at address proc r h)
unfolding hear_at
hear_at-IsHeard address proc (err e) h g i = i
hear_at-IsHeard address proc (ok (addr, port)) h g i = (
  Distinct-add_listener _ h.listeners i.0,
  All-add_listener (λ p. in_port_range p ≡ true) _ h.listeners g i.1,
)

hear_row-IsHeard : (o : Option (Bytes × Bytes)) (h : Heard) → IsHeard h → IsHeard (hear_row o h)
unfolding hear_row
hear_row-IsHeard none h i = i
hear_row-IsHeard (some (address, proc)) h i =
    hear_at-IsHeard address proc (split_addr_port address) h
      (unfold split_addr_port in split_cut-GivesPort (cut_last b':' address)) i

hear-IsHeard : (raw : Bytes) (h : Heard) → IsHeard h → IsHeard (hear raw h)
unfolding hear
hear-IsHeard raw h i = elim (Bool-cases (is_empty (trim_space raw))) [
  | inl e ↦ rw e i
  | inr e ↦ rw e (hear_row-IsHeard (listening_row (trim_space raw) (fields (trim_space raw))) h i)
]

hear_all-IsHeard : (raws : List Bytes) (h : Heard) → IsHeard h → IsHeard (hear_all raws h)
unfolding hear_all
hear_all-IsHeard [] h i = i
hear_all-IsHeard (raw ∷ raws) h i = hear_all-IsHeard raws (hear raw h) (hear-IsHeard raw h i)

port_less-IsOrder : IsOrder port_less
unfolding port_less
port_less-IsOrder = record {
  asym = λ x y h. port_asym x y h;
  trans_not = λ x y z h k. port_trans x y z h k;
}
  where
    port_asym : (x y : Listener) → ltb_ℤ x.port y.port ≡ true → ltb_ℤ y.port x.port ≡ false
    port_asym x y h = ground arith

    port_trans :
        (x y z : Listener)
        → ltb_ℤ y.port x.port ≡ false
        → ltb_ℤ z.port y.port ≡ false
        → ltb_ℤ z.port x.port ≡ false
    port_trans x y z h k = ground arith

strict : (x y : Listener) → port_less y x ≡ false → x.port ≢ y.port → ltb_ℤ x.port y.port ≡ true
unfolding port_less
strict x y h n = ground (arith, eqb_ℤ→eq x.port y.port)

-- Whatever the remote command prints, the listeners have ports from 1 to 65535 and strictly increase by
-- port: the rows of one port are one entry.
pub parse_listeners-Increasing :
    (out : Bytes)
    → let ls = (parse_listeners out).listeners in
      AllPairs (λ a b. ltb_ℤ a.port b.port ≡ true) ls × All HasPort ls
unfolding parse_listeners
parse_listeners-Increasing out =
    let h = hear_all (split b'\n' out) (record { listeners = []; warnings = [] }) in
    let i =
      hear_all-IsHeard (split b'\n' out) (record { listeners = []; warnings = [] }) (tt, tt) in
    let apart = AllPairs-sort_by port_less (λ x y n e. n (sym e)) h.listeners i.0 in
    (
      AllPairs-both strict (sort_by port_less h.listeners)
          (sort_by-IsSorted port_less-IsOrder h.listeners) apart,
      All-sort_by port_less HasPort h.listeners i.1,
    )
