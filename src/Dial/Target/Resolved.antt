-- ===== src/Dial/Target/Resolved.antt =====
-- What holds of every target that `ResolveTarget` returns.
use auto_tunnel.Prelude.{
  ◌≡◌, refl, sym, ap, subst, ◌∙◌, ◌≢◌, inl, inr, true, false, not, ◌&&◌, List, [], ◌∷◌, ◌++◌, arith,
  Bool-cases, if_both, and_right, All, All-append, AllPairs, Result, ok, err, ◌>>=◌,
}
use auto_tunnel.Prelude.Int.{ℤ, pos, eqb_ℤ}
use auto_tunnel.Text.{Bytes, codes, is_empty, eqb, trim_space}
use auto_tunnel.Text.Equality.{eqb_refl, is_empty-false}
use auto_tunnel.Dial.Target.{
  Machine, Target, no_user, default_ssh_port, expand_tilde, file_exists, has, append_unique,
  or_else, or_port, some_user, fill, resolve_alias, resolve_target, add_config_files,
  add_default_files, default_key_names, read_address, split_user,
}

-- A target that can be dialled.
pub record IsResolved (m : Machine) (s : Bytes) (t : Target) : Type 0 where
  pub spec : t.spec ≡ s
  pub alias : t.alias ≢ []
  pub host : t.host ≢ []
  pub user : t.user ≢ []
  pub port : t.port ≢ pos 0
  pub files_exist : All (λ f. file_exists m f ≡ true) t.identity_files
  pub files_differ : AllPairs (λ f g. f ≢ g) t.identity_files

abbrev AreKeys : Machine → List Bytes → Type 0
AreKeys m fs = All (λ f. file_exists m f ≡ true) fs × AllPairs (λ f g. f ≢ g) fs

has-false : (fs : List Bytes) (v : Bytes) → has fs v ≡ false → All (λ f. f ≢ v) fs
has-false [] v h = tt
has-false (f ∷ fs) v h = elim (Bool-cases (eqb f v)) [
  | inl e ↦ cc
  | inr e ↦ (
    (λ q. absurd (cc (sym (eqb_refl v) ∙ ap (λ g. eqb g v) (sym q) ∙ e))),
    has-false fs v (ground arith),
  )
]

AllPairs-snoc :
    (fs : List Bytes) (v : Bytes)
    → AllPairs (λ f g. f ≢ g) fs
    → All (λ f. f ≢ v) fs
    → AllPairs (λ f g. f ≢ g) (fs ++ v ∷ [])
AllPairs-snoc [] v p a = (tt, tt)
AllPairs-snoc (f ∷ fs) v p a =
    (All-append (λ g. f ≢ g) fs (v ∷ []) p.0 (a.0, tt), AllPairs-snoc fs v p.1 a.1)

append_unique-AreKeys :
    (m : Machine) (fs : List Bytes) (v : Bytes)
    → file_exists m v ≡ true
    → AreKeys m fs
    → AreKeys m (append_unique fs v)
unfolding append_unique
append_unique-AreKeys m fs v x h =
    if_both (AreKeys m) (has fs v) (λ e. h)
      (λ e. (All-append _ fs (v ∷ []) h.0 (x, tt), AllPairs-snoc fs v h.1 (has-false fs v e)))

add_config_files-AreKeys :
    (m : Machine) (names fs : List Bytes) → AreKeys m fs → AreKeys m (add_config_files m names fs)
unfolding add_config_files
add_config_files-AreKeys m [] fs h = h
add_config_files-AreKeys m (f ∷ names) fs h =
    let p = expand_tilde m f in
    add_config_files-AreKeys m names _ (
      if_both (AreKeys m) (not (is_empty p) && file_exists m p)
        (λ e. append_unique-AreKeys m fs p (and_right (not (is_empty p)) (file_exists m p) e) h)
        (λ e. h))

add_default_files-AreKeys :
    (m : Machine) (names fs : List Bytes) → AreKeys m fs → AreKeys m (add_default_files m names fs)
unfolding add_default_files
add_default_files-AreKeys m [] fs h = h
add_default_files-AreKeys m (name ∷ names) fs h =
    let p = expand_tilde m (codes "~/.ssh/" ++ name) in
    add_default_files-AreKeys m names _
      (if_both (AreKeys m) (file_exists m p) (λ e. append_unique-AreKeys m fs p e h) (λ e. h))

or_else-nonempty : (s other : Bytes) → other ≢ [] → or_else s other ≢ []
unfolding or_else
or_else-nonempty s other n = if_both (λ r. r ≢ []) (is_empty s) (λ e. n) (λ e. is_empty-false s e)

or_port-nonzero : (p other : ℤ) → other ≢ pos 0 → or_port p other ≢ pos 0
unfolding or_port
or_port-nonzero p other n = if_both (λ r. r ≢ pos 0) (eqb_ℤ p (pos 0)) (λ e. n) (λ e. nonzero p e)
  where
    nonzero : (q : ℤ) → eqb_ℤ q (pos 0) ≡ false → q ≢ pos 0
    nonzero q e z = ground arith

fill-IsResolved :
    (m : Machine) (spec alias user : Bytes) (port : ℤ)
    → alias ≢ []
    → user ≢ []
    → IsResolved m spec (fill m spec alias port user)
unfolding fill
fill-IsResolved m spec alias user port a u =
    let keys =
      add_default_files-AreKeys m default_key_names _
        (add_config_files-AreKeys m (m.get_all alias (codes "IdentityFile")) [] (tt, tt)) in
    record {
      spec = refl;
      alias = a;
      host = or_else-nonempty (m.get alias (codes "HostName")) alias a;
      user = u;
      port = or_port-nonzero _ default_ssh_port (λ e. ground arith);
      files_exist = keys.0;
      files_differ = keys.1;
    }

-- What holds of the result, if there is one.
abbrev IfOk : {E A : Type 0} → (A → Type 0) → Result E A → Type 0
IfOk P (ok a) = P a
IfOk P (err e) = Unit

some_user-nonempty :
    (m : Machine) (user : Bytes)
    → m.current_user ≢ ok []
    → IfOk (λ name. name ≢ []) (some_user user m.current_user)
unfolding some_user
some_user-nonempty m user n =
    if_both (IfOk (λ name. name ≢ [])) (is_empty user) (λ e. go m.current_user n)
      (λ e. is_empty-false user e)
  where
    go :
        (r : Result Bytes Bytes)
        → r ≢ ok []
        → IfOk
            (λ name. name ≢ [])
            (elim r [ ok name ↦ ok name | err reason ↦ err (no_user reason) ])
    go (ok name) k = λ e. k (ap ok e)
    go (err reason) k = tt

IfOk->>= :
    {E A B : Type 0} (P : A → Type 0) (Q : B → Type 0) (r : Result E A) (f : A → Result E B)
    → IfOk P r
    → ((a : A) → P a → IfOk Q (f a))
    → IfOk Q (r >>= f)
IfOk->>= P Q (ok a) f h k = k a h
IfOk->>= P Q (err e) f h k = tt

resolve_alias-IsResolved :
    (m : Machine) (spec user : Bytes) (at : Bytes × ℤ)
    → m.current_user ≢ ok []
    → IfOk (IsResolved m spec) (resolve_alias m spec user at)
unfolding resolve_alias
resolve_alias-IsResolved m spec user (alias, port) n =
    if_both (IfOk (IsResolved m spec)) (is_empty alias) (λ e. tt)
      (λ e.
        IfOk->>= (λ name. name ≢ []) (IsResolved m spec) (some_user _ m.current_user) _
          (some_user-nonempty m _ n)
          (λ name u. fill-IsResolved m spec alias name port (is_empty-false alias e) u))

-- A target that a spec is resolved to keeps that spec, and has an alias, a host, a user and a port
-- that is not 0. Its identity files exist and no two of them are the same. The machine's current user
-- has a name, where it is known.
pub resolve_target-IsResolved :
    (m : Machine) (spec : Bytes) (t : Target)
    → m.current_user ≢ ok []
    → resolve_target m spec ≡ ok t
    → IsResolved m spec t
unfolding resolve_target
resolve_target-IsResolved m spec t n e = subst (IfOk (IsResolved m spec)) e (
    if_both (IfOk (IsResolved m spec)) (is_empty (trim_space spec)) (λ x. tt)
      (λ x.
        IfOk->>= (λ at. Unit) (IsResolved m spec) (read_address (split_user spec).1) _
          (always (read_address (split_user spec).1))
          (λ at y. resolve_alias-IsResolved m spec _ at n)))
  where
    always : {E A : Type 0} (r : Result E A) → IfOk (λ a. Unit) r
    always (ok a) = tt
    always (err x) = tt
