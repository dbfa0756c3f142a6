-- ===== src/Dial/Keys.antt =====
-- internal/sshconn/dial.go: loadPrivateKey, and the loop of authMethods that loads the key files. The
-- files, the parser of keys and the terminal are parameters; a signer is a text.
use auto_tunnel.Prelude.{
  suc, ◌+◌, ◌≡◌, ap, ◌∙◌, Bool, not, List, [], ◌∷◌, arith, if◌then◌else◌, length, Result, ok, err,
}
use auto_tunnel.Text.{Bytes}

-- What ssh.ParsePrivateKey answers.
pub data ParsedKey : Type 0 where
  signer : (name : Bytes) → ParsedKey
  missing_passphrase : ParsedKey
  not_a_key : (reason : Bytes) → ParsedKey

pub data KeyError : Type 0 where
  unreadable unparsed : (reason : Bytes) → KeyError
  no_terminal : KeyError
  no_passphrase : (reason : Bytes) → KeyError

pub record Keyring : Type 0 where
  pub read_file : Bytes → Result Bytes Bytes
  pub parse_key : Bytes → ParsedKey
  pub is_terminal : Bool
  pub read_password : Bytes → Result Bytes Bytes
  pub decrypt : Bytes → Bytes → Result Bytes Bytes

unfoldable pub parsed_with : Result Bytes Bytes → Result KeyError Bytes
parsed_with (ok name) = ok name
parsed_with (err reason) = err (unparsed reason)

unfoldable pub with_password : Keyring → Bytes → Result Bytes Bytes → Result KeyError Bytes
unfolding parsed_with
with_password k pem (err reason) = err (no_passphrase reason)
with_password k pem (ok password) = parsed_with (k.decrypt pem password)

unfoldable pub parsed : Keyring → Bytes → Bytes → ParsedKey → Result KeyError Bytes
unfolding with_password
parsed k path pem (signer name) = ok name
parsed k path pem (not_a_key reason) = err (unparsed reason)
parsed k path pem missing_passphrase =
    if not k.is_terminal then err no_terminal else with_password k pem (k.read_password path)

unfoldable pub load_read : Keyring → Bytes → Result Bytes Bytes → Result KeyError Bytes
unfolding parsed
load_read k path (err reason) = err (unreadable reason)
load_read k path (ok pem) = parsed k path pem (k.parse_key pem)

unfoldable pub load_private_key : Keyring → Bytes → Result KeyError Bytes
unfolding load_read
load_private_key k path = load_read k path (k.read_file path)

unfoldable pub add_signer :
    Bytes
    → Result KeyError Bytes
    → List Bytes × List (Bytes × KeyError)
    → List Bytes × List (Bytes × KeyError)
add_signer path (ok name) (signers, skipped) = (name ∷ signers, skipped)
add_signer path (err e) (signers, skipped) = (signers, (path, e) ∷ skipped)

-- The signers of the key files, and the files that are skipped with a message.
unfoldable pub disk_signers : Keyring → List Bytes → List Bytes × List (Bytes × KeyError)
unfolding add_signer load_private_key
disk_signers k [] = ([], [])
disk_signers k (path ∷ paths) = add_signer path (load_private_key k path) (disk_signers k paths)

add_signer-length :
    (path : Bytes) (r : Result KeyError Bytes) (found : List Bytes × List (Bytes × KeyError))
    → length (add_signer path r found).0 + length (add_signer path r found).1
      ≡ suc (length found.0 + length found.1)
unfolding add_signer
add_signer-length path (ok name) (signers, skipped) = omega arith
add_signer-length path (err e) (signers, skipped) = omega arith

-- A key that cannot be loaded does not sink the others: every file gives a signer or is skipped.
disk_signers-length :
    (k : Keyring) (paths : List Bytes)
    → length (disk_signers k paths).0 + length (disk_signers k paths).1 ≡ length paths
unfolding disk_signers
disk_signers-length k [] = omega arith
disk_signers-length k (path ∷ paths) =
    add_signer-length path (load_private_key k path) (disk_signers k paths)
    ∙ ap suc (disk_signers-length k paths)
