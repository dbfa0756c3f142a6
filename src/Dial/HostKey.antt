-- ===== src/Dial/HostKey.antt =====
-- internal/sshconn/dial.go: the host key check. What known_hosts says of a key under a host name is a
-- parameter.
pub mod Advice
use auto_tunnel.Prelude.{
  ℕ, Bool, true, false, not, ◌||◌, Option, none, some, List, [], ◌∷◌, ◌++◌, ◌==◌, if◌then◌else◌,
  Result, ok, err,
}
use auto_tunnel.Text.{Bytes, codes, eqb, is_empty, cut_first, cut_last}
use auto_tunnel.Discovery.Types.{join_host_port}
use auto_tunnel.Dial.Target.{Machine, expand_tilde, file_exists}

-- What the callback of the package knownhosts answers: no error, a KeyError that knows no other key,
-- or any other error.
pub data Verdict : Type 0 where
  trusted unknown_host : Verdict
  refused : (reason : Bytes) → Verdict

pub data HostKeyError : Type 0 where
  not_in_known_hosts : (hostname note hint : Bytes) → HostKeyError
  verification_failed : (hostname : Bytes) → HostKeyError

pub data KnownHostsError : Type 0 where
  no_known_hosts : KnownHostsError
  bad_known_hosts : (reason : Bytes) → KnownHostsError

abbrev pub default_ssh_port_str : Bytes
default_ssh_port_str = codes "22"

unfoldable pub existing : Machine → List Bytes → List Bytes
existing m [] = []
existing m (name ∷ names) =
    let p = expand_tilde m name in
    let rest = existing m names in if file_exists m p then p ∷ rest else rest

-- What `hostKeyCallback` does before it returns the callback: the files to read, and reading them.
unfoldable pub open_known_hosts :
    Machine → (List Bytes → Result Bytes Unit) → Result KnownHostsError Unit
open_known_hosts m read =
    elim (existing m (codes "~/.ssh/known_hosts" ∷ codes "~/.ssh/known_hosts2" ∷ [])) [
      | [] ↦ err no_known_hosts
      | f ∷ fs ↦ elim (read (f ∷ fs)) [ ok _ ↦ ok tt | err reason ↦ err (bad_known_hosts reason) ]
    ]

unfoldable pub keyscan_hint : Bytes → Bytes → Bytes
keyscan_hint host port =
    if is_empty port || eqb port default_ssh_port_str
    then codes "ssh-keyscan -H " ++ (host ++ codes " >> ~/.ssh/known_hosts")
    else codes "ssh-keyscan -H -p "
      ++ (port ++ (codes " " ++ (host ++ codes " >> ~/.ssh/known_hosts")))

pub is_trusted : Verdict → Bool
is_trusted trusted = true
is_trusted _ = false

unfoldable pub note_text : Bytes → Bytes → Bytes
note_text host port =
    codes "; this exact key is already trusted for "
    ++ (host
        ++ (codes " on port "
            ++ (default_ssh_port_str
                ++ (codes ", but known_hosts entries are port-qualified, so port "
                    ++ (port
                        ++ (codes " needs its own ["
                            ++ (host ++ (codes "]:" ++ (port ++ codes " entry")))))))))

unfoldable pub default_port_note : (Bytes → Verdict) → Bytes → Bytes → Bytes
unfolding is_trusted
default_port_note base host port =
    if is_empty port || eqb port default_ssh_port_str
    then []
    else if not (is_trusted (base (join_host_port host default_ssh_port_str)))
    then []
    else note_text host port

abbrev pub holds_byte : ℕ → Bytes → Bool
holds_byte b s = elim (cut_first b s) [ none ↦ false | some _ ↦ true ]

unfoldable pub plain_host : Bytes → Bytes → Option (Bytes × Bytes)
plain_host host port =
    if holds_byte b':' host || (holds_byte b'[' host || holds_byte b']' host)
    then none
    else if holds_byte b'[' port || holds_byte b']' port
    then none
    else some (host, port)

-- Behind the closing bracket stands the colon of the port.
unfoldable pub bracket_host : Option (Bytes × Bytes) → Option (Bytes × Bytes)
bracket_host none = none
bracket_host (some (host, [])) = none
bracket_host (some (host, c ∷ port)) =
    if not (c == b':') || holds_byte b':' port
    then none
    else if holds_byte b'[' host || (holds_byte b'[' port || holds_byte b']' port)
    then none
    else some (host, port)

-- net.SplitHostPort: no address is split whose brackets or colons do not fit.
unfoldable pub split_host_port : Bytes → Option (Bytes × Bytes)
split_host_port [] = none
split_host_port (c ∷ s) =
    if c == b'['
    then bracket_host (cut_first b']' s)
    else elim (cut_last b':' (c ∷ s)) [ none ↦ none | some (host, port) ↦ plain_host host port ]

-- `host, port = hostname, ""` where the name cannot be split.
unfoldable pub name_parts : Bytes → Bytes × Bytes
name_parts hostname = elim (split_host_port hostname) [ none ↦ (hostname, []) | some parts ↦ parts ]

unfoldable pub explain : (Bytes → Verdict) → Bytes → Verdict → Option HostKeyError
explain base hostname trusted = none
explain base hostname unknown_host =
    let (host, port) = name_parts hostname in
    some (not_in_known_hosts hostname (default_port_note base host port) (keyscan_hint host port))
explain base hostname (refused reason) = some (verification_failed hostname)

-- The callback that `hostKeyCallback` returns.
unfoldable pub check_host_key : (Bytes → Verdict) → Bytes → Option HostKeyError
check_host_key base hostname = explain base hostname (base hostname)
