-- ===== src/Shell/Program.antt =====
-- main.c: what holds of the client for as long as the command line runs.
use zkclient.Prelude.{
  ℕ, ◌+◌, ◌≡◌, refl, Bool, true, false, ◌||◌, inl, inr, Bool-cases, Option, none, some, List, [],
  ◌∷◌, ◌==◌, length, leb, if◌then◌else◌,
}
use zkclient.Outcome.{Outcome, returns, undefined}
use zkclient.Archive.{Buffer}
use zkclient.Archive.Safety.{IsUsable}
use zkclient.Conn.{zk_socket_err}
use zkclient.Client.Connect.{Cluster}
use zkclient.Request.Passwd.{IsPasswd}
use zkclient.Request.Kept.{passwd_of}
use zkclient.Util.Split.{same_bytes}
use zkclient.Shell.Commands.{Locals, Shell, last_err_of}
use zkclient.Shell.Dispatch.{
  is_quit, check_reconnect, Terminal, Console, world_of, with_path, create_with, set_with,
  run_command, get_cmd, create_cmd, mkdir_cmd, ls_cmd, stat_cmd, set_cmd, del_cmd, quit_cmd,
  exit_cmd, after_command, finish_command, process_command, process_words, process_line, next_line,
  main_loop,
}
use zkclient.Shell.Kept.{
  ShellHas, get_command-ShellHas, create_command-ShellHas, mkdir_command-ShellHas,
  ls_command-ShellHas, stat_command-ShellHas, set_command-ShellHas, del_command-ShellHas,
}
use zkclient.Shell.Reconnect.{Reconnected, after_command-Reconnected}

abbrev RunHas : Buffer → Option (Outcome Shell) → Type 0
RunHas p none = Unit
RunHas p (some o) = ShellHas p o

module _ (p : Buffer) where
  with_path-RunHas :
      (args : List (List ℕ)) (run : List ℕ → List (List ℕ) → Outcome Shell)
      → ((path : List ℕ) (rest : List (List ℕ)) → ShellHas p (run path rest))
      → RunHas p (with_path args run)
  unfolding with_path
  with_path-RunHas [] run h = tt
  with_path-RunHas (path ∷ rest) run h = h _ rest

  create_with-ShellHas :
      (k : Locals) (s : Shell) (path : List ℕ) (rest : List (List ℕ))
      → passwd_of s.session ≡ p
      → ShellHas p (create_with k s path rest)
  unfolding create_with
  create_with-ShellHas k s path [] h = create_command-ShellHas p k path none 0 s h
  create_with-ShellHas k s path (buf ∷ rest) h =
      create_command-ShellHas p k path (some buf) (length buf) s h

  set_with-RunHas :
      (atoi : List ℕ → ℕ) (k : Locals) (args : List (List ℕ)) (s : Shell)
      → passwd_of s.session ≡ p
      → RunHas p (set_with atoi k args s)
  unfolding set_with
  set_with-RunHas atoi k [] s h = tt
  set_with-RunHas atoi k (path ∷ []) s h = tt
  set_with-RunHas atoi k (path ∷ buf ∷ rest) s h = set_command-ShellHas p k _ buf (length buf) _ s h

  run_command-RunHas :
      (t : Terminal) (cl : Cluster) (k : Locals) (cmd : List ℕ) (args : List (List ℕ)) (s : Shell)
      → passwd_of s.session ≡ p
      → RunHas p (run_command t cl k cmd args s)
  unfolding run_command
  run_command-RunHas t cl k cmd args s h = elim (Bool-cases (same_bytes cmd get_cmd)) [
    | inl is ↦ rw is (with_path-RunHas args _ (λ path rest. get_command-ShellHas p k path s h))
    | inr other ↦ rw other (elim (Bool-cases (same_bytes cmd create_cmd)) [
      | inl is ↦ rw is (with_path-RunHas args _ (λ path rest. create_with-ShellHas k s path rest h))
      | inr other ↦ rw other (elim (Bool-cases (same_bytes cmd mkdir_cmd)) [
        | inl is ↦
            rw is
              (with_path-RunHas args _ (λ path rest. mkdir_command-ShellHas p t.host k path s h))
        | inr other ↦ rw other (elim (Bool-cases (same_bytes cmd ls_cmd)) [
          | inl is ↦ rw is (with_path-RunHas args _ (λ path rest. ls_command-ShellHas p k path s h))
          | inr other ↦ rw other (elim (Bool-cases (same_bytes cmd stat_cmd)) [
            | inl is ↦
                rw is
                  (with_path-RunHas args _ (λ path rest. stat_command-ShellHas p t.host k path s h))
            | inr other ↦ rw other (elim (Bool-cases (same_bytes cmd set_cmd)) [
              | inl is ↦ rw is (set_with-RunHas cl.atoi k args s h)
              | inr other ↦ rw other (elim (Bool-cases (same_bytes cmd del_cmd)) [
                | inl is ↦
                    rw is
                      (with_path-RunHas args _ (λ path rest. del_command-ShellHas p k path _ s h))
                | inr other ↦
                    rw other
                      (elim (Bool-cases (same_bytes cmd quit_cmd || same_bytes cmd exit_cmd)) [
                        | inl is ↦ rw is h
                        | inr other ↦ rw other h
                      ])
              ])
            ])
          ])
        ])
      ])
    ])
  ]

-- The allocator of every connection answers.
abbrev pub IsUsableAlways : Terminal → Type 0
IsUsableAlways t = (n : ℕ) → IsUsable (t.cluster n).host

abbrev pub ConsoleHasPasswd : Outcome Console → Type 0
ConsoleHasPasswd undefined = Unit
ConsoleHasPasswd (returns code s) = IsPasswd (world_of s).client.passwd

Reconnected-passwd : (cl : Cluster) (o : Outcome Console) → Reconnected cl o → ConsoleHasPasswd o
Reconnected-passwd cl undefined h = tt
Reconnected-passwd cl (returns code s) h = h.passwd

after_command-HasPasswd :
    (t : Terminal) (cl : Cluster) (rand : ℕ) (s : Console) (p : Buffer) (o : Outcome Shell)
    → IsUsable cl.host
    → IsPasswd p
    → ShellHas p o
    → ConsoleHasPasswd (after_command t cl rand s o)
unfolding after_command
after_command-HasPasswd t cl rand s p undefined u k h = tt
after_command-HasPasswd t cl rand s p (returns status shell) u k h =
    elim (Bool-cases (status == zk_socket_err || check_reconnect (last_err_of shell))) [
      | inl lost ↦
          Reconnected-passwd cl _ (after_command-Reconnected t cl rand status s shell u lost)
      | inr kept ↦ rw kept (rw h k)
    ]

finish_command-HasPasswd :
    (t : Terminal) (cl : Cluster) (rand : ℕ) (s : Console) (p : Buffer) (o : Option (Outcome Shell))
    → IsUsable cl.host
    → IsPasswd p
    → (world_of s).client.passwd ≡ p
    → RunHas p o
    → ConsoleHasPasswd (finish_command t cl rand s o)
unfolding finish_command
finish_command-HasPasswd t cl rand s p none u k e h = rw e k
finish_command-HasPasswd t cl rand s p (some o) u k e h =
    after_command-HasPasswd t cl rand s p o u k h

process_command-HasPasswd :
    (t : Terminal) (args : List (List ℕ)) (s : Console)
    → IsUsableAlways t
    → IsPasswd (world_of s).client.passwd
    → ConsoleHasPasswd (process_command t args s)
unfolding process_command
process_command-HasPasswd t [] s u k = tt
process_command-HasPasswd t (cmd ∷ args) s u k =
    finish_command-HasPasswd t (t.cluster s.lines) (t.rand s.lines)
      (record s { lines = s.lines + 1; quit = s.quit || is_quit cmd }) (world_of s).client.passwd
      (run_command t (t.cluster s.lines) (t.locals s.lines) cmd args s.shell) (u s.lines) k refl
      (run_command-RunHas _ t (t.cluster s.lines) (t.locals s.lines) cmd args s.shell refl)

process_words-HasPasswd :
    (t : Terminal) (s : Console) (o : Outcome (Option (List (List ℕ)) × ℕ))
    → IsUsableAlways t
    → IsPasswd (world_of s).client.passwd
    → ConsoleHasPasswd (process_words t s o)
unfolding process_words
process_words-HasPasswd t s undefined u k = tt
process_words-HasPasswd t s (returns rc (none, narg)) u k = elim (Bool-cases (leb 1 narg)) [
  | inl some_word ↦ rw some_word tt
  | inr empty ↦ rw empty k
]
process_words-HasPasswd t s (returns rc (some args, narg)) u k = elim (Bool-cases (leb 1 narg)) [
  | inl some_word ↦ rw some_word (process_command-HasPasswd t args (record s { narg = narg }) u k)
  | inr empty ↦ rw empty k
]

next_line-HasPasswd :
    (rest : Console → Outcome Console) (o : Outcome Console)
    → ((s : Console) → IsPasswd (world_of s).client.passwd → ConsoleHasPasswd (rest s))
    → ConsoleHasPasswd o
    → ConsoleHasPasswd (next_line rest o)
unfolding next_line
next_line-HasPasswd rest undefined h k = tt
next_line-HasPasswd rest (returns code s) h k = elim (Bool-cases (code == 0)) [
  | inl on ↦ rw on (h s k)
  | inr ended ↦ rw ended k
]

either-ConsoleHasPasswd :
    (b : Bool) (x y : Outcome Console)
    → ConsoleHasPasswd x
    → ConsoleHasPasswd y
    → ConsoleHasPasswd (if b then x else y)
either-ConsoleHasPasswd true x y hx hy = hx
either-ConsoleHasPasswd false x y hx hy = hy

-- Whatever lines are typed and whatever the servers answer, with connections lost and made anew
-- on the way, the client has a well-formed password at the end of the loop of `main` if it had
-- one at its beginning, where no behaviour on the way is undefined. The allocator refuses what exceeds the
-- largest object.
pub main_loop-ConsoleHasPasswd :
    (t : Terminal) (lines : List (List ℕ)) (s : Console)
    → IsUsableAlways t
    → IsPasswd (world_of s).client.passwd
    → ConsoleHasPasswd (main_loop t lines s)
unfolding main_loop process_line
main_loop-ConsoleHasPasswd t [] s u k = k
main_loop-ConsoleHasPasswd t (line ∷ lines) s u k =
    either-ConsoleHasPasswd s.quit (returns 0 s)
      (next_line (main_loop t lines) (process_line t line s)) k
      (next_line-HasPasswd (main_loop t lines) (process_line t line s)
        (λ s' k'. main_loop-ConsoleHasPasswd t lines s' u k') (process_words-HasPasswd t s _ u k))
