-- ===== src/Browser.antt =====
-- internal/openurl/openurl.go: which program is started for an address. The parser of URLs, the
-- operating system and whether a program starts are parameters.
use auto_tunnel.Prelude.{
  not, ◌&&◌, Option, none, some, List, [], ◌∷◌, if◌then◌else◌, Result, ok, err,
}
use auto_tunnel.Text.{Bytes, codes, eqb, is_empty}

pub data OpenError : Type 0 where
  not_a_url not_started : (reason : Bytes) → OpenError
  refused_scheme : (scheme : Bytes) → OpenError
  no_program : (os : Bytes) → OpenError

-- The program and its arguments.
unfoldable pub command : Bytes → Bytes → Bytes × List Bytes
command os url =
    if eqb os (codes "darwin")
    then (codes "open", url ∷ [])
    else if eqb os (codes "windows")
    then (codes "rundll32", codes "url.dll,FileProtocolHandler" ∷ url ∷ [])
    else (codes "xdg-open", url ∷ [])

-- The program that runs then, or none.
unfoldable pub started_command :
    (start : Bytes → List Bytes → Option Bytes)
    → Bytes
    → Bytes × List Bytes
    → Result OpenError (Bytes × List Bytes)
started_command start os (name, args) =
    if is_empty name
    then err (no_program os)
    else elim (start name args) [ none ↦ ok (name, args) | some reason ↦ err (not_started reason) ]

unfoldable pub open_scheme :
    (start : Bytes → List Bytes → Option Bytes)
    → Bytes
    → Bytes
    → Result Bytes Bytes
    → Result OpenError (Bytes × List Bytes)
open_scheme start os url (err reason) = err (not_a_url reason)
open_scheme start os url (ok scheme) =
    if not (eqb scheme (codes "http")) && not (eqb scheme (codes "https"))
    then err (refused_scheme scheme)
    else started_command start os (command os url)

-- Open; `scheme_of` is the scheme that url.Parse finds.
unfoldable pub open_browser :
    (scheme_of : Bytes → Result Bytes Bytes)
    → (start : Bytes → List Bytes → Option Bytes) → Bytes
    → Bytes
    → Result OpenError (Bytes × List Bytes)
open_browser scheme_of start os url = open_scheme start os url (scheme_of url)
