-- ===== src/Shell/Dispatch.antt =====
-- main.c: one line of the command line, and the loop over the lines. The history of linenoise is left
-- out; what `linenoise` returns is the list of lines, which ends with the null pointer.
use zkclient.Prelude.{
  ℕ, ◌+◌, Bool, ◌||◌, Option, none, some, List, [], ◌∷◌, length, leb, ◌==◌, if◌then◌else◌,
}
use zkclient.CInt.{minus}
use zkclient.Outcome.{Outcome, returns, undefined, Step}
use zkclient.Host.{Host}
use zkclient.Conn.{zk_ok, zk_socket_err}
use zkclient.Client.{World}
use zkclient.Client.Connect.{Cluster, do_connect, reset_zkclient}
use zkclient.Util.Split.{same_bytes, sdssplitlen}
use zkclient.Shell.Commands.{
  Locals, Message, Shell, print, last_err_of, get_command, create_command, mkdir_command,
  ls_command, stat_command, set_command, del_command,
}
use zkclient.Shell.Path.{strip_slashes}

abbrev pub ls_cmd : List ℕ
ls_cmd = b'l' ∷ b's' ∷ []

abbrev pub create_cmd : List ℕ
create_cmd = b'c' ∷ b'r' ∷ b'e' ∷ b'a' ∷ b't' ∷ b'e' ∷ []

abbrev pub get_cmd : List ℕ
get_cmd = b'g' ∷ b'e' ∷ b't' ∷ []

abbrev pub set_cmd : List ℕ
set_cmd = b's' ∷ b'e' ∷ b't' ∷ []

abbrev pub del_cmd : List ℕ
del_cmd = b'd' ∷ b'e' ∷ b'l' ∷ []

abbrev pub stat_cmd : List ℕ
stat_cmd = b's' ∷ b't' ∷ b'a' ∷ b't' ∷ []

abbrev pub mkdir_cmd : List ℕ
mkdir_cmd = b'm' ∷ b'k' ∷ b'd' ∷ b'i' ∷ b'r' ∷ []

abbrev pub quit_cmd : List ℕ
quit_cmd = b'q' ∷ b'u' ∷ b'i' ∷ b't' ∷ []

abbrev pub exit_cmd : List ℕ
exit_cmd = b'e' ∷ b'x' ∷ b'i' ∷ b't' ∷ []

-- The errors ZSYSTEMERROR, ZOPERATIONTIMEOUT, ZINVALIDSTATE, ZSESSIONEXPIRED, ZINVALIDACL, ZCLOSING,
-- ZAUTHFAILED and ZSESSIONMOVED.
unfoldable pub check_reconnect : ℕ → Bool
check_reconnect err =
    err == minus 1
    || err == minus 7
    || err == minus 9
    || err == minus 112
    || err == minus 114
    || err == minus 116
    || err == minus 115
    || err == minus 118

-- The command line: the machine, the connections of each reconnection with what `rand` returns, and
-- the variables of each command.
pub record Terminal : Type 0 where
  pub host : Host
  pub cluster : ℕ → Cluster
  pub rand : ℕ → ℕ
  pub locals : ℕ → Locals

-- The static variable `quit`, the variable `narg` of `main`, the commands so far, and the rest.
pub record Console : Type 0 where
  pub quit : Bool
  pub narg : ℕ
  pub lines : ℕ
  pub shell : Shell

abbrev pub world_of : Console → World
world_of s = s.shell.session.world

-- A command that needs a path: `none` is the label ARGN_ERR.
unfoldable pub with_path :
    List (List ℕ) → (List ℕ → List (List ℕ) → Outcome Shell) → Option (Outcome Shell)
with_path [] run = none
with_path (path ∷ rest) run = some (run (strip_slashes path) rest)

unfoldable pub create_with : Locals → Shell → List ℕ → List (List ℕ) → Outcome Shell
create_with k s path [] = create_command k path none 0 s
create_with k s path (buf ∷ rest) = create_command k path (some buf) (length buf) s

-- The version -1, or that of the argument, which no command uses.
unfoldable pub version_of : (List ℕ → ℕ) → List (List ℕ) → ℕ
version_of atoi [] = minus 1
version_of atoi (version ∷ rest) = atoi version

unfoldable pub set_with : (List ℕ → ℕ) → Locals → List (List ℕ) → Shell → Option (Outcome Shell)
set_with atoi k (path ∷ buf ∷ rest) s =
    some (set_command k (strip_slashes path) buf (length buf) (version_of atoi rest) s)
set_with atoi k _ s = none

-- The chain of tests for the command. `quitCommand` is in `process_command`.
unfoldable pub run_command :
    Terminal → Cluster → Locals → List ℕ → List (List ℕ) → Shell → Option (Outcome Shell)
run_command t cl k cmd args s =
    if same_bytes cmd get_cmd
    then with_path args (λ path rest. get_command k path s)
    else if same_bytes cmd create_cmd
    then with_path args (create_with k s)
    else if same_bytes cmd mkdir_cmd
    then with_path args (λ path rest. mkdir_command t.host k path s)
    else if same_bytes cmd ls_cmd
    then with_path args (λ path rest. ls_command k path s)
    else if same_bytes cmd stat_cmd
    then with_path args (λ path rest. stat_command t.host k path s)
    else if same_bytes cmd set_cmd
    then set_with cl.atoi k args s
    else if same_bytes cmd del_cmd
    then with_path args (λ path rest. del_command k path (version_of cl.atoi rest) s)
    else if same_bytes cmd quit_cmd || same_bytes cmd exit_cmd
    then some (returns zk_ok s)
    else some (returns zk_ok (print Message.unknown_command s))

unfoldable pub is_quit : List ℕ → Bool
is_quit cmd = same_bytes cmd quit_cmd || same_bytes cmd exit_cmd

-- After the attempt to reconnect. The result 1 is `exit(1)`.
unfoldable pub reconnected : Console → Outcome World → Outcome Console
reconnected s undefined = undefined
reconnected s (returns rc w) =
    let shell : Shell = record s.shell { session = record s.shell.session { world = w } } in
    returns (if rc == zk_ok then 0 else 1) (record s { shell = shell })

unfoldable pub connect_again : Cluster → ℕ → Outcome World → Outcome World
connect_again cl rand undefined = undefined
connect_again cl rand (returns rc w) = do_connect cl rand w

-- The status of the command, or the last error of the client, may ask for a new connection.
unfoldable pub after_command : Terminal → Cluster → ℕ → Console → Outcome Shell → Outcome Console
after_command t cl rand s undefined = undefined
after_command t cl rand s (returns status shell) =
    let s' : Console = record s { shell = shell } in
    if status == zk_socket_err || check_reconnect (last_err_of shell)
    then reconnected s' (connect_again cl rand (reset_zkclient t.host (world_of s')))
    else returns 0 s'

unfoldable pub finish_command :
    Terminal → Cluster → ℕ → Console → Option (Outcome Shell) → Outcome Console
finish_command t cl rand s none =
    returns 0 (record s { shell = print Message.argument_error s.shell })
finish_command t cl rand s (some o) = after_command t cl rand s o

-- The command and its arguments are the words of a line, of which there is one at least.
unfoldable pub process_command : Terminal → List (List ℕ) → Step Console
process_command t [] s = undefined
process_command t (cmd ∷ args) s =
    let n = s.lines in
    let s' : Console = record s { lines = n + 1; quit = s.quit || is_quit cmd } in
    finish_command t (t.cluster n) (t.rand n) s'
      (run_command t (t.cluster n) (t.locals n) cmd args s.shell)

unfoldable pub process_words :
    Terminal → Console → Outcome (Option (List (List ℕ)) × ℕ) → Outcome Console
process_words t s undefined = undefined
process_words t s (returns rc (none, narg)) =
    if leb 1 narg then undefined else returns 0 (record s { narg = narg })
process_words t s (returns rc (some args, narg)) =
    let s' : Console = record s { narg = narg } in
    if leb 1 narg then process_command t args s' else returns 0 s'

unfoldable pub process_line : Terminal → List ℕ → Step Console
process_line t line s =
    process_words t s (sdssplitlen t.host line (length line) (b' ' ∷ []) 1 s.narg)

-- After a line: the next ones, unless the program has ended.
unfoldable pub next_line : Step Console → Outcome Console → Outcome Console
next_line rest undefined = undefined
next_line rest (returns code s) = if code == 0 then rest s else returns code s

-- The loop of `main`.
unfoldable pub main_loop : Terminal → List (List ℕ) → Step Console
main_loop t [] s = returns 0 s
main_loop t (line ∷ lines) s =
    let after : Outcome Console = next_line (main_loop t lines) (process_line t line s) in
    if s.quit then returns 0 s else after
