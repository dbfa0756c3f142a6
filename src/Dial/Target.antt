-- ===== src/Dial/Target.antt =====
-- internal/sshconn/dial.go: Target, ResolveTarget and its helpers. What ~/.ssh/config says, the current
-- user, the home directory, how a path is joined to it and which files exist are parameters.
pub mod Spelling
pub mod Resolved
use auto_tunnel.Prelude.{
  ℕ, suc, ◌+◌, ◌/◌, Bool, false, not, ◌&&◌, ◌||◌, Option, none, some, List, [], ◌∷◌, ◌++◌, ◌==◌,
  if◌then◌else◌, drop, Result, ok, err, ◌>>=◌,
}
use auto_tunnel.Prelude.Int.{ℤ, pos, eqb_ℤ}
use auto_tunnel.Text.{Bytes, codes, eqb, is_empty, has_prefix, cut_first, cut_last, trim_space}
use auto_tunnel.Text.Decimal.{itoa, atoi, NumError}
use auto_tunnel.Discovery.Types.{join_host_port}

-- `get` and `get_all` are those of the package ssh_config, and `join` is filepath.Join.
pub record Machine : Type 0 where
  pub get : Bytes → Bytes → Bytes
  pub get_all : Bytes → Bytes → List Bytes
  pub current_user : Result Bytes Bytes
  pub home : Option Bytes
  pub join : Bytes → Bytes → Bytes
  -- os.Stat: whether the path is a directory, if there is one.
  pub stat_dir : Bytes → Option Bool

pub record Target : Type 0 where
  pub spec : Bytes
  pub alias : Bytes
  pub user : Bytes
  pub host : Bytes
  pub port : ℤ
  pub identity_files : List Bytes
  pub proxy_jump : Bytes

unfoldable pub addr : Target → Bytes
addr t = join_host_port t.host (itoa t.port)

-- Target.String
unfoldable pub show_target : Target → Bytes
show_target t = t.user ++ b'@' ∷ addr t

pub data TargetError : Type 0 where
  empty_target no_closing_bracket no_host : TargetError
  bad_port : NumError → TargetError
  no_user : (reason : Bytes) → TargetError

abbrev pub default_ssh_port : ℤ
default_ssh_port = pos 22

abbrev pub default_key_names : List Bytes
default_key_names = codes "id_ed25519" ∷ codes "id_ecdsa" ∷ codes "id_rsa" ∷ []

unfoldable pub expand_tilde : Machine → Bytes → Bytes
expand_tilde m path =
    if is_empty path
    then []
    else if not (has_prefix path (codes "~"))
    then path
    else elim m.home [ none ↦ path | some home ↦ m.join home (drop 1 path) ]

unfoldable pub file_exists : Machine → Bytes → Bool
file_exists m path = elim (m.stat_dir path) [ none ↦ false | some is_dir ↦ not is_dir ]

abbrev has : List Bytes → Bytes → Bool
has [] v = false
has (existing ∷ list) v = eqb existing v || has list v

unfoldable pub append_unique : List Bytes → Bytes → List Bytes
append_unique list v = if has list v then list else list ++ v ∷ []

-- `rest[:i], rest[i+1:]` at the last "@".
unfoldable pub split_user : Bytes → Bytes × Bytes
split_user spec = elim (cut_last b'@' spec) [ none ↦ ([], spec) | some (user, rest) ↦ (user, rest) ]

-- strings.Count of one byte.
unfoldable pub count_byte : ℕ → Bytes → ℕ
count_byte b [] = 0
count_byte b (c ∷ s) = let n = count_byte b s in if c == b then suc n else n

unfoldable pub with_port : Bytes → Result NumError ℤ → Result TargetError (Bytes × ℤ)
with_port host (ok port) = ok (host, port)
with_port host (err e) = err (bad_port e)

-- What stands behind the closing bracket.
unfoldable pub read_tail : Bytes → Bytes → Result TargetError (Bytes × ℤ)
read_tail host [] = ok (host, pos 0)
read_tail host (c ∷ tail) = if c == b':' then with_port host (atoi tail) else ok (host, pos 0)

unfoldable pub read_bracketed : Option (Bytes × Bytes) → Result TargetError (Bytes × ℤ)
read_bracketed none = err no_closing_bracket
read_bracketed (some (host, tail)) = read_tail host tail

unfoldable pub read_cut : Option (Bytes × Bytes) → Result TargetError (Bytes × ℤ)
read_cut none = ok ([], pos 0)
read_cut (some (host, port)) = with_port host (atoi port)

-- The `switch` of `ResolveTarget`: the alias and the port, 0 for none.
unfoldable pub read_address : Bytes → Result TargetError (Bytes × ℤ)
read_address rest =
    if has_prefix rest (codes "[")
    then read_bracketed (cut_first b']' (drop 1 rest))
    else if count_byte b':' rest == 1
    then read_cut (cut_first b':' rest)
    else ok (rest, pos 0)

unfoldable pub or_else : Bytes → Bytes → Bytes
or_else s other = if is_empty s then other else s

unfoldable pub or_port : ℤ → ℤ → ℤ
or_port port other = if eqb_ℤ port (pos 0) then other else port

-- `if p, err := strconv.Atoi(...); err == nil`
unfoldable pub config_port : Result NumError ℤ → ℤ
config_port (ok port) = port
config_port (err e) = pos 0

-- The loop on the files that ~/.ssh/config names.
unfoldable pub add_config_files : Machine → List Bytes → List Bytes → List Bytes
add_config_files m [] files = files
add_config_files m (f ∷ fs) files =
    let p = expand_tilde m f in
    add_config_files m fs
      (if not (is_empty p) && file_exists m p then append_unique files p else files)

unfoldable pub add_default_files : Machine → List Bytes → List Bytes → List Bytes
add_default_files m [] files = files
add_default_files m (name ∷ names) files =
    let p = expand_tilde m (codes "~/.ssh/" ++ name) in
    add_default_files m names (if file_exists m p then append_unique files p else files)

-- `if t.User == ""` the current user.
unfoldable pub some_user : Bytes → Result Bytes Bytes → Result TargetError Bytes
some_user user current =
    if is_empty user
    then elim current [ ok name ↦ ok name | err reason ↦ err (no_user reason) ]
    else ok user

unfoldable pub fill : Machine → Bytes → Bytes → ℤ → Bytes → Target
fill m spec alias port user = record {
  spec = spec;
  alias = alias;
  user = user;
  host = or_else (m.get alias (codes "HostName")) alias;
  port = or_port (or_port port (config_port (atoi (m.get alias (codes "Port"))))) default_ssh_port;
  identity_files =
      add_default_files m default_key_names
        (add_config_files m (m.get_all alias (codes "IdentityFile")) []);
  proxy_jump = m.get alias (codes "ProxyJump");
}

unfoldable pub resolve_alias : Machine → Bytes → Bytes → Bytes × ℤ → Result TargetError Target
resolve_alias m spec user (alias, port) =
    if is_empty alias
    then err no_host
    else some_user (or_else user (m.get alias (codes "User"))) m.current_user >>= λ name.
        ok (fill m spec alias port name)

-- ResolveTarget
unfoldable pub resolve_target : Machine → Bytes → Result TargetError Target
resolve_target m spec =
    if is_empty (trim_space spec)
    then err empty_target
    else let (user, rest) = split_user spec in read_address rest >>= resolve_alias m spec user
