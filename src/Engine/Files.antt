-- ===== src/Engine/Files.antt =====
-- engine.go: where the forwarding choices and the dashboard's preferences are kept. The config directory,
-- the joining of paths, the file system and the JSON codec are parameters.
pub mod Names
use auto_tunnel.Prelude.{
  ℕ, ◌+◌, ◌-◌, Bool, true, false, ◌||◌, Option, none, some, List, [], ◌∷◌, ◌++◌, ◌==◌,
  if◌then◌else◌,
}
use auto_tunnel.Text.{Bytes, codes, eqb, is_empty, trim}
use auto_tunnel.Sanitize.{Rune, runes, between}

-- The function that `strings.Map` applies to each rune. Its values are ASCII, one byte each.
unfoldable pub safe_byte : ℕ → ℕ
unfolding between
safe_byte r =
    if between b'a' b'z' r || between b'A' b'Z' r || between b'0' b'9' r
    then r
    else if r == b'.' || r == b'-' || r == b'_' || r == b'@'
    then r
    else b'_'

unfoldable pub safe_bytes : List Rune → Bytes
unfolding safe_byte
safe_bytes [] = []
safe_bytes (r ∷ rs) = safe_byte r.code ∷ safe_bytes rs

-- `strings.Trim(safe, "._")`
abbrev pub is_filler : ℕ → Bool
is_filler c = c == b'.' || c == b'_'

unfoldable pub stem : Bytes → Bytes
unfolding trim is_empty
stem safe = if is_empty (trim is_filler safe) then codes "default" else safe

unfoldable pub selection_file_name : Bytes → Bytes
unfolding stem safe_bytes runes
selection_file_name target = stem (safe_bytes (runes target)) ++ codes ".json"

-- `join3` is filepath.Join of three parts.
unfoldable pub resolve_selection_path :
    (join3 : Bytes → Bytes → Bytes → Bytes) → Option Bytes → Bytes → Bytes → Bytes
unfolding selection_file_name eqb is_empty
resolve_selection_path join3 config_dir flag target =
    if eqb flag (codes "off")
    then []
    else if is_empty flag
    then elim config_dir [
      | none ↦ []
      | some dir ↦ join3 dir (codes "auto-tunnel") (selection_file_name target)
    ]
    else flag

-- What os.ReadFile answers.
pub data ReadAnswer : Type 0 where
  missing unreadable : ReadAnswer
  contents : Bytes → ReadAnswer

pub data PrefsWarning : Type 0 where
  not_read not_parsed not_encoded no_directory not_written : PrefsWarning

-- The dashboard's settings are the name of a sort mode, empty for none; and what is logged.
module _ (decode : Bytes → Option Bytes) (encode : Bytes → Option Bytes) where
  unfoldable pub prefs_of : ReadAnswer → Bytes × List PrefsWarning
  prefs_of missing = ([], [])
  prefs_of unreadable = ([], not_read ∷ [])
  prefs_of (contents data_read) = elim (decode data_read) [
    | none ↦ ([], not_parsed ∷ [])
    | some sort ↦ (sort, [])
  ]

  -- engine.Prefs
  unfoldable pub prefs : (read : Bytes → ReadAnswer) → Bytes → Bytes × List PrefsWarning
  unfolding prefs_of is_empty
  prefs read path = if is_empty path then ([], []) else prefs_of (read path)

  unfoldable pub written : Bool → Bool → Bytes → Option Bytes × List PrefsWarning
  written false could_write line = (none, no_directory ∷ [])
  written true false line = (none, not_written ∷ [])
  written true true line = (some line, [])

  -- engine.SavePrefs: what the file holds then, if it is written. The two tests tell whether the
  -- directory and the file could be written.
  unfoldable pub save_prefs :
      (made_directory could_write : Bool) → Bytes → Bytes → Option Bytes × List PrefsWarning
  unfolding written is_empty
  save_prefs made_directory could_write path sort =
      if is_empty path then (none, []) else elim (encode sort) [
        | none ↦ (none, not_encoded ∷ [])
        | some data_written ↦ written made_directory could_write (data_written ++ b'\n' ∷ [])
      ]
