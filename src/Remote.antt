-- ===== src/Remote.antt =====
-- internal/sshconn/exec.go: what a command on the remote host gives, by how its session ends.
use auto_tunnel.Prelude.{
  ℕ, ◌≡◌, refl, Option, none, some, List, [], ◌++◌, leb, if◌then◌else◌, length, take,
}
use auto_tunnel.Text.{Bytes, codes, is_empty, split, join, trim_space}

pub data Session : Type 0 where
  not_opened : (reason : Bytes) → Session
  finished : (failure : Option Bytes) (stdout stderr : Bytes) → Session
  -- The context ended first; the command is killed.
  interrupted : (reason : Bytes) → Session

pub data RunError : Type 0 where
  no_session ended : (reason : Bytes) → RunError
  failed : (command message : Bytes) → RunError

unfoldable pub some_lines : List Bytes → ℕ → Bytes
some_lines lines n =
    if leb (length lines) n
    then join (codes "; ") lines
    else join (codes "; ") (take n lines) ++ codes " ..."

unfoldable pub first_lines : Bytes → ℕ → Bytes
first_lines s n = some_lines (split b'\n' s) n

-- The text on standard error if there is any, and else the failure's own.
unfoldable pub failure_text : Bytes → Bytes → Bytes
failure_text stderr reason =
    if is_empty (trim_space stderr) then reason else first_lines (trim_space stderr) 3

-- RunCommand: the output and the error.
unfoldable pub run_command : Bytes → Session → Bytes × Option RunError
run_command command (not_opened reason) = ([], some (no_session reason))
run_command command (interrupted reason) = ([], some (ended reason))
run_command command (finished none stdout stderr) = (stdout, none)
run_command command (finished (some reason) stdout stderr) =
    (stdout, some (failed command (failure_text stderr reason)))

-- Four lines on standard error are cut to three.
three_lines_shown :
    run_command (codes "docker ps") (finished (some (codes "exit 1")) [] (codes "a\nb\nc\nd\n"))
    ≡ ([], some (failed (codes "docker ps") (codes "a; b; c ...")))
unfolding run_command failure_text first_lines some_lines is_empty trim_space split join
three_lines_shown = refl
