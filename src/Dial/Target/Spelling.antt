-- ===== src/Dial/Target/Spelling.antt =====
-- What a spec says: the user, the host and the port that `Target.String` writes are read back.
use auto_tunnel.Prelude.{
  ℕ, ◌≡◌, refl, ap, ◌∙◌, ◌≢◌, ◌⊎◌, inl, inr, Bool, false, none, some, [], ◌∷◌, ◌++◌, arith, ◌==◌,
  if◌then◌else◌, Bool-cases, if_both, All-append, Result, ok,
}
use auto_tunnel.Prelude.Int.{ℤ, pos, eqb_ℤ, eqb_ℤ→eq}
use auto_tunnel.Text.{
  Bytes, codes, is_empty, has_prefix, cut_first, trim, trim_left, trim_right, trim_space, is_space,
}
use auto_tunnel.Text.Digits.{Lacks, cut_first-append, cut_first-none, cut_last-append, Lacks-itoa}
use auto_tunnel.Text.Decimal.{itoa}
use auto_tunnel.Text.Decimal.RoundTrip.{IsInt, atoi-itoa}
use auto_tunnel.Discovery.Types.{join_host_port}
use auto_tunnel.Dial.Target.{
  default_ssh_port, addr, show_target, resolve_target, resolve_alias, Machine, Target, count_byte,
  with_port, read_tail, read_bracketed, read_cut, read_address, split_user, or_else, or_port,
  some_user, fill, resolve_target,
}

-- A target whose parts can be told apart.
pub record IsSpelled (t : Target) : Type 0 where
  pub user : t.user ≢ []
  pub host : t.host ≢ []
  pub no_at : Lacks b'@' t.host
  pub no_open : Lacks b'[' t.host
  pub no_close : Lacks b']' t.host
  pub port : t.port ≢ pos 0
  pub int : IsInt t.port

Lacks-or_cut :
    (b : ℕ) (s : Bytes) → Lacks b s ⊎ ((cut : Bytes × Bytes) × (cut_first b s ≡ some cut))
unfolding cut_first
Lacks-or_cut b [] = inl tt
Lacks-or_cut b (c ∷ s) = elim (Bool-cases (c == b)) [
  | inl e ↦ inr (([], s), rw e refl)
  | inr e ↦ elim (Lacks-or_cut b s) [
    | inl l ↦ inl (ground arith, l)
    | inr ((before, after), q) ↦ inr ((c ∷ before, after), rw (e, q) refl)
  ]
]

count_byte-Lacks : (b : ℕ) (s : Bytes) → Lacks b s → count_byte b s ≡ 0
unfolding count_byte
count_byte-Lacks b [] h = refl
count_byte-Lacks b (c ∷ s) h = rw (count_byte-Lacks b s h.1) (ground arith)

count_byte-once : (b : ℕ) (s t : Bytes) → Lacks b s → Lacks b t → count_byte b (s ++ b ∷ t) ≡ 1
unfolding count_byte
count_byte-once b [] t h k = rw (count_byte-Lacks b t k) (ground arith)
count_byte-once b (c ∷ s) t h k = rw (count_byte-once b s t h.1 k) (ground arith)

trim_right-keeps :
    (p : ℕ → Bool) (xs : Bytes) (c : ℕ) (r : Bytes)
    → p c ≡ false
    → is_empty (trim_right p (xs ++ c ∷ r)) ≡ false
unfolding trim_right is_empty
trim_right-keeps p [] c r h = go (trim_right p r)
  where
    go :
        (s : Bytes)
        → is_empty (elim s [ [] ↦ if p c then [] else c ∷ [] | d ∷ rest ↦ c ∷ d ∷ rest ]) ≡ false
    go [] = rw h refl
    go (d ∷ rest) = refl
trim_right-keeps p (x ∷ xs) c r h = go (trim_right p (xs ++ c ∷ r)) (trim_right-keeps p xs c r h)
  where
    go :
        (s : Bytes)
        → is_empty s ≡ false
        → is_empty (elim s [ [] ↦ if p x then [] else x ∷ [] | d ∷ rest ↦ x ∷ d ∷ rest ]) ≡ false
    go [] e = cc
    go (d ∷ rest) e = refl

trim-keeps :
    (p : ℕ → Bool) (u : Bytes) (c : ℕ) (r : Bytes)
    → p c ≡ false
    → is_empty (trim p (u ++ c ∷ r)) ≡ false
unfolding trim trim_left
trim-keeps p [] c r h = rw h (trim_right-keeps p [] c r h)
trim-keeps p (x ∷ u) c r h =
    if_both (λ s. is_empty (trim_right p s) ≡ false) (p x) (λ e. trim-keeps p u c r h)
      (λ e. trim_right-keeps p (x ∷ u) c r h)

read_address-plain :
    (host : Bytes) (port : ℤ)
    → host ≢ []
    → Lacks b'[' host
    → Lacks b':' host
    → IsInt port
    → read_address (host ++ b':' ∷ itoa port) ≡ ok (host, port)
unfolding read_address has_prefix with_port read_cut
read_address-plain [] port n o l i = absurd (n refl)
read_address-plain (c ∷ s) port n o l i =
    rw
      (
        count_byte-once b':' (c ∷ s) (itoa port) l (Lacks-itoa b':' port (inl (omega arith))),
        cut_first-append b':' (c ∷ s) (itoa port) l,
      )
      (ground (arith, atoi-itoa port i))

read_address-bracketed :
    (host : Bytes) (port : ℤ)
    → Lacks b']' host
    → IsInt port
    → read_address (b'[' ∷ (host ++ b']' ∷ b':' ∷ itoa port)) ≡ ok (host, port)
unfolding read_address has_prefix
read_address-bracketed host port l i =
    ap read_bracketed (cut_first-append b']' host (b':' ∷ itoa port) l)
    ∙ unfold read_bracketed in
      unfold read_tail in ap (with_port host) (atoi-itoa port i) ∙ unfold with_port in refl

join-plain : (host port : Bytes) → Lacks b':' host → join_host_port host port ≡ host ++ b':' ∷ port
unfolding join_host_port
join-plain host port k =
    ap (λ o. elim o [ none ↦ host ++ b':' ∷ port | some _ ↦ b'[' ∷ (host ++ b']' ∷ b':' ∷ port) ])
      (cut_first-none b':' host k)

join-bracketed :
    (host port : Bytes) (cut : Bytes × Bytes)
    → cut_first b':' host ≡ some cut
    → join_host_port host port ≡ b'[' ∷ (host ++ b']' ∷ b':' ∷ port)
unfolding join_host_port
join-bracketed host port cut q =
    ap (λ o. elim o [ none ↦ host ++ b':' ∷ port | some _ ↦ b'[' ∷ (host ++ b']' ∷ b':' ∷ port) ]) q

Lacks-address :
    (host : Bytes) (port : ℤ) → Lacks b'@' host → Lacks b'@' (join_host_port host (itoa port))
Lacks-address host port l =
    let digits = Lacks-itoa b'@' port (inl (omega arith)) in
    elim (Lacks-or_cut b':' host) [
      | inl k ↦
          rw (join-plain host (itoa port) k)
            (All-append (λ c. c ≢ b'@') host _ l (ground arith, digits))
      | inr (cut, q) ↦
          rw (join-bracketed host (itoa port) cut q) (
            ground arith,
            All-append (λ c. c ≢ b'@') host _ l (ground arith, (ground arith, digits)),
          )
    ]

read_address-join :
    (host : Bytes) (port : ℤ)
    → host ≢ []
    → Lacks b'[' host
    → Lacks b']' host
    → IsInt port
    → read_address (join_host_port host (itoa port)) ≡ ok (host, port)
read_address-join host port n o l i = elim (Lacks-or_cut b':' host) [
  | inl k ↦ ap read_address (join-plain host (itoa port) k) ∙ read_address-plain host port n o k i
  | inr (cut, q) ↦
      ap read_address (join-bracketed host (itoa port) cut q) ∙ read_address-bracketed host port l i
]

split_user-at :
    (user rest : Bytes) → Lacks b'@' rest → split_user (user ++ b'@' ∷ rest) ≡ (user, rest)
unfolding split_user
split_user-at user rest l =
    ap (λ o. elim o [ none ↦ ([], user ++ b'@' ∷ rest) | some (before, after) ↦ (before, after) ])
      (cut_last-append b'@' user rest l)

trim_space-at : (user rest : Bytes) → is_empty (trim_space (user ++ b'@' ∷ rest)) ≡ false
unfolding trim_space
trim_space-at user rest = trim-keeps is_space user b'@' rest refl

or_else-nonempty : (s other : Bytes) → s ≢ [] → or_else s other ≡ s
unfolding or_else is_empty
or_else-nonempty [] other n = absurd (n refl)
or_else-nonempty (c ∷ s) other n = refl

some_user-nonempty : (s : Bytes) (r : Result Bytes Bytes) → s ≢ [] → some_user s r ≡ ok s
unfolding some_user is_empty
some_user-nonempty [] r n = absurd (n refl)
some_user-nonempty (c ∷ s) r n = refl

or_port-nonzero : (p other : ℤ) → p ≢ pos 0 → or_port p other ≡ p
unfolding or_port
or_port-nonzero p other n = elim (Bool-cases (eqb_ℤ p (pos 0))) [
  | inl e ↦ absurd (n (eqb_ℤ→eq p (pos 0) e))
  | inr e ↦ rw e refl
]

resolve_alias-spelled :
    (m : Machine) (spec user host : Bytes) (port : ℤ)
    → user ≢ []
    → host ≢ []
    → resolve_alias m spec user (host, port) ≡ ok (fill m spec host port user)
unfolding resolve_alias is_empty
resolve_alias-spelled m spec user [] port u h = absurd (h refl)
resolve_alias-spelled m spec user (c ∷ host) port u h =
    rw
      (
        or_else-nonempty user (m.get (c ∷ host) (codes "User")) u,
        some_user-nonempty user m.current_user u,
      )
      refl

resolve_target-at :
    (m : Machine) (user rest host : Bytes) (port : ℤ)
    → user ≢ []
    → host ≢ []
    → Lacks b'@' rest
    → read_address rest ≡ ok (host, port)
    → resolve_target m (user ++ b'@' ∷ rest) ≡ ok (fill m (user ++ b'@' ∷ rest) host port user)
unfolding resolve_target
resolve_target-at m user rest host port u h l r =
    rw (trim_space-at user rest, split_user-at user rest l, r)
      (resolve_alias-spelled m _ user host port u h)

-- The spec that `Target.String` writes for a target is resolved, on any machine, to a target of the
-- same user, alias and port; its host is what ~/.ssh/config has for the written host, or that host
-- itself. The user and the host are not empty, the host holds no "@" and no square bracket, and the
-- port is an integer other than 0.
pub resolve_target-show_target :
    (m : Machine) (t : Target)
    → IsSpelled t
    → (r : Target) × (resolve_target m (show_target t) ≡ ok r)
      × (r.user ≡ t.user)
      × (r.alias ≡ t.host)
      × (r.port ≡ t.port)
      × (r.host ≡ or_else (m.get t.host (codes "HostName")) t.host)
unfolding show_target addr fill
resolve_target-show_target m t h = (
  fill m (show_target t) t.host t.port t.user,
  resolve_target-at m t.user (addr t) t.host t.port h.user h.host
      (Lacks-address t.host t.port h.no_at)
      (read_address-join t.host t.port h.host h.no_open h.no_close h.int),
  refl,
  refl,
  ap (λ p. or_port p default_ssh_port) (or_port-nonzero t.port _ h.port)
      ∙ or_port-nonzero t.port _ h.port,
  refl,
)
