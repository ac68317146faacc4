-- ===== src/Shell/Kept.antt =====
-- main.c: no command changes the password of the client.
use zkclient.Prelude.{ℕ, ◌≡◌, inl, inr, Bool-cases, Option, none, some, List, ◌==◌}
use zkclient.Outcome.{Outcome, returns, undefined}
use zkclient.Host.{Host}
use zkclient.Archive.{Buffer}
use zkclient.Conn.{zk_ok}
use zkclient.Jute.Stat.{Stat}
use zkclient.Jute.Watch.{StringVector}
use zkclient.Request.Call.{Session}
use zkclient.Request.Kept.{
  passwd_of, LeavesPasswd, Outcome-cases, zk_get-LeavesPasswd, zk_get_children-LeavesPasswd,
  zk_set-LeavesPasswd, zk_create-LeavesPasswd, zk_del-LeavesPasswd, zk_exists-LeavesPasswd,
}
use zkclient.Request.KeptNodes.{LeavesNode, zk_mkdir-LeavesNode}
use zkclient.Util.Digits.{ll2string}
use zkclient.Shell.Commands.{
  Locals, Shell, JsonValue, report, fail, print_text, got_data, got_stat, get_command,
  create_command, made, mkdir_command, print_names, got_children, ls_command, is_small,
  add_longlong, print_stat, stat_found, stat_command, set_command, del_command,
}

-- The password after a command that returns.
abbrev pub ShellHas : Buffer → Outcome Shell → Type 0
ShellHas p undefined = Unit
ShellHas p (returns rc s) = passwd_of s.session ≡ p

module _ (p : Buffer) where
  report-ShellHas :
      (path : List ℕ) (s : Shell) (o : Outcome {0} (Unit × Session))
      → LeavesPasswd p o
      → ShellHas p (report path s o)
  unfolding report fail
  report-ShellHas path s undefined h = tt
  report-ShellHas path s (returns status (out, m)) h = elim (Bool-cases (status == zk_ok)) [
    | inl ok ↦ rw ok h
    | inr bad ↦ rw bad h
  ]

  print_text-ShellHas :
      (b : Option (List ℕ)) (s : Shell) → passwd_of s.session ≡ p → ShellHas p (print_text b s)
  unfolding print_text
  print_text-ShellHas none s h = tt
  print_text-ShellHas (some mem) s h = h

  got_data-ShellHas :
      (path : List ℕ) (s : Shell) (o : Outcome (Buffer × Session))
      → LeavesPasswd p o
      → ShellHas p (got_data path s o)
  unfolding got_data fail
  got_data-ShellHas path s undefined h = tt
  got_data-ShellHas path s (returns status (b, m)) h = elim (Bool-cases (status == zk_ok)) [
    | inl ok ↦ rw ok (print_text-ShellHas _ (record s { session = m }) h)
    | inr bad ↦ rw bad h
  ]

  got_stat-ShellHas :
      (k : Locals) (path : List ℕ) (s : Shell) (o : Outcome (Stat × Session))
      → LeavesPasswd p o
      → ShellHas p (got_stat k path s o)
  unfolding got_stat fail
  got_stat-ShellHas k path s undefined h = tt
  got_stat-ShellHas k path s (returns status (stat, m)) h = elim (Bool-cases (status == 1)) [
    | inr bad ↦ rw bad h
    | inl found ↦ rw found (elim (Bool-cases (stat.data_length == 0)) [
      | inl empty ↦ rw empty h
      | inr full ↦ rw full (
          got_data-ShellHas path (record s { session = m }) _
            (zk_get-LeavesPasswd p k.second k.get_resp (some path) _ m h))
    ])
  ]

  pub get_command-ShellHas :
      (k : Locals) (path : List ℕ) (s : Shell)
      → passwd_of s.session ≡ p
      → ShellHas p (get_command k path s)
  unfolding get_command
  get_command-ShellHas k path s h =
      got_stat-ShellHas k path s _
        (zk_exists-LeavesPasswd p k.context k.exists_resp (some path) k.stat s.session h)

  pub create_command-ShellHas :
      (k : Locals) (path : List ℕ) (buf : Option (List ℕ)) (len : ℕ) (s : Shell)
      → passwd_of s.session ≡ p
      → ShellHas p (create_command k path buf len s)
  unfolding create_command
  create_command-ShellHas k path buf len s h = report-ShellHas path s _ (
      zk_create-LeavesPasswd p k.context (k.create_calls 0).resp (some path) buf len 0 tt s.session
        h)

  made-ShellHas :
      (path : List ℕ) (s : Shell) (o : Outcome (ℕ × Session))
      → LeavesNode p o
      → ShellHas p (made path s o)
  unfolding made
  made-ShellHas path s undefined h = tt
  made-ShellHas path s (returns status (n, m)) h = report-ShellHas path s (returns status (tt, m)) h

  pub mkdir_command-ShellHas :
      (host : Host) (k : Locals) (path : List ℕ) (s : Shell)
      → passwd_of s.session ≡ p
      → ShellHas p (mkdir_command host k path s)
  unfolding mkdir_command
  mkdir_command-ShellHas host k path s h =
      made-ShellHas path s _ (zk_mkdir-LeavesNode p host k.create_calls path 0 s.session h)

  print_names-ShellHas :
      (found : Option (List (List ℕ))) (s : Shell)
      → passwd_of s.session ≡ p
      → ShellHas p (print_names found s)
  unfolding print_names
  print_names-ShellHas none s h = tt
  print_names-ShellHas (some found) s h = h

  got_children-ShellHas :
      (path : List ℕ) (s : Shell) (o : Outcome (StringVector × Session))
      → LeavesPasswd p o
      → ShellHas p (got_children path s o)
  unfolding got_children fail
  got_children-ShellHas path s undefined h = tt
  got_children-ShellHas path s (returns status (v, m)) h = elim (Bool-cases (status == zk_ok)) [
    | inl ok ↦ rw ok (print_names-ShellHas _ (record s { session = m }) h)
    | inr bad ↦ rw bad h
  ]

  pub ls_command-ShellHas :
      (k : Locals) (path : List ℕ) (s : Shell)
      → passwd_of s.session ≡ p
      → ShellHas p (ls_command k path s)
  unfolding ls_command
  ls_command-ShellHas k path s h =
      got_children-ShellHas path s _
        (zk_get_children-LeavesPasswd p k.context k.children_resp (some path) k.childs s.session h)

  add_longlong-ShellHas :
      (host : Host) (v : ℕ) (next : JsonValue → Outcome Shell)
      → ((j : JsonValue) → ShellHas p (next j))
      → ShellHas p (add_longlong host v next)
  unfolding add_longlong
  add_longlong-ShellHas host v next h = elim (Bool-cases (is_small v)) [
    | inl small ↦ rw (small, add_longlong) (h _)
    | inr large ↦
        rw (large, add_longlong)
          (elim (Outcome-cases (ll2string host v)) [
            | inl wrong ↦ rw (wrong, add_longlong) tt
            | inr (rc, text, e) ↦ rw (e, add_longlong) (h _)
          ])
  ]

  print_stat-ShellHas :
      (host : Host) (stat : Stat) (s : Shell)
      → passwd_of s.session ≡ p
      → ShellHas p (print_stat host stat s)
  unfolding print_stat
  print_stat-ShellHas host stat s h = add_longlong-ShellHas host _ _ (λ a.
      add_longlong-ShellHas host _ _ (λ b. add_longlong-ShellHas host _ _ (λ c.
        add_longlong-ShellHas host _ _
          (λ d. add_longlong-ShellHas host _ _ (λ e. add_longlong-ShellHas host _ _ (λ f. h))))))

  stat_found-ShellHas :
      (host : Host) (s : Shell) (o : Outcome (Stat × Session))
      → LeavesPasswd p o
      → ShellHas p (stat_found host s o)
  unfolding stat_found
  stat_found-ShellHas host s undefined h = tt
  stat_found-ShellHas host s (returns status (stat, m)) h = elim (Bool-cases (status == 1)) [
    | inl found ↦ rw found (print_stat-ShellHas host stat (record s { session = m }) h)
    | inr bad ↦ rw bad h
  ]

  pub stat_command-ShellHas :
      (host : Host) (k : Locals) (path : List ℕ) (s : Shell)
      → passwd_of s.session ≡ p
      → ShellHas p (stat_command host k path s)
  unfolding stat_command
  stat_command-ShellHas host k path s h =
      stat_found-ShellHas host s _
        (zk_exists-LeavesPasswd p k.context k.exists_resp (some path) k.stat s.session h)

  pub set_command-ShellHas :
      (k : Locals) (path buf : List ℕ) (len version : ℕ) (s : Shell)
      → passwd_of s.session ≡ p
      → ShellHas p (set_command k path buf len version s)
  unfolding set_command
  set_command-ShellHas k path buf len version s h =
      report-ShellHas path s _
        (zk_set-LeavesPasswd p k.context k.set_resp (some path) _ tt s.session h)

  pub del_command-ShellHas :
      (k : Locals) (path : List ℕ) (version : ℕ) (s : Shell)
      → passwd_of s.session ≡ p
      → ShellHas p (del_command k path version s)
  unfolding del_command
  del_command-ShellHas k path version s h =
      report-ShellHas path s _ (zk_del-LeavesPasswd p k.context (some path) tt s.session h)
