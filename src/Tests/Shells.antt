-- ===== src/Tests/Shells.antt =====
-- The command line.
use zkclient.Prelude.{◌≡◌, refl, false, none, [], ◌∷◌, arith}
use zkclient.Outcome.{returns, undefined}
use zkclient.Request.Call.{Session, Context}
use zkclient.Shell.Commands.{Locals, Shell, got_data}
use zkclient.Shell.Dispatch.{Terminal, Console, after_command, process_line, main_loop}
use zkclient.Shell.Lines.{run_words, process_line-words}
use zkclient.Shell.Overflow.{got_data-undefined}
use zkclient.Shell.Reconnect.{Reconnected, after_command-Reconnected}
use zkclient.Tests.Samples.{linux, linux-IsGenerous, linux-IsUsable, zk_path, hi, no_bytes, no_stat}
use zkclient.Shell.Program.{ConsoleHasPasswd, main_loop-ConsoleHasPasswd}
use zkclient.Tests.Handshakes.{passwd_of-IsPasswd}
use zkclient.Tests.Failovers.{cluster, start}

abbrev context : Context
context = record {
  host = linux;
  now = 1000;
  reply_header = record { xid = 205; zxid = 205; err = 205 };
}

abbrev locals : Locals
locals = record {
  context = context;
  second = context;
  create_calls = λ n. record { context = context; resp = record { path = none } };
  get_resp = record { data_buffer = no_bytes; stat = no_stat };
  children_resp = record { children = record { count = 0; items = [] } };
  set_resp = record { stat = no_stat };
  exists_resp = record { stat = no_stat };
  stat = no_stat;
  childs = record { count = 0; items = [] };
}

abbrev terminal : Terminal
terminal = record { host = linux; cluster = λ n. cluster; rand = λ n. n; locals = λ n. locals }

abbrev session : Session
session = record { world = start; xid = 7; mutex = [] }

abbrev shell : Shell
shell = record { session = session; printed = [] }

abbrev console : Console
console = record { quit = false; narg = 0; lines = 0; shell = shell }

-- A socket error, after which the second server is connected.
after_command-Reconnected_example :
    Reconnected cluster (after_command terminal cluster 0 console (returns 4294957294 shell))
after_command-Reconnected_example =
    after_command-Reconnected terminal cluster 0 4294957294 console shell linux-IsUsable refl

got_data-undefined_example : got_data zk_path shell (returns 0 (hi, session)) ≡ undefined
got_data-undefined_example =
    got_data-undefined zk_path shell hi (b'h' ∷ b'i' ∷ []) session refl refl (omega arith)

-- "ls /zk".
process_line-words_example :
    process_line terminal (b'l' ∷ b's' ∷ b' ' ∷ b'/' ∷ b'z' ∷ b'k' ∷ []) console
    ≡ run_words terminal ((b'l' ∷ b's' ∷ []) ∷ zk_path ∷ []) (record console { narg = 2 })
process_line-words_example =
    process_line-words terminal (b'l' ∷ b's' ∷ b' ' ∷ b'/' ∷ b'z' ∷ b'k' ∷ []) console
      linux-IsGenerous (omega arith)

-- "ls /zk", and then "quit".
main_loop-ConsoleHasPasswd_example : ConsoleHasPasswd (
    main_loop terminal
      ((b'l' ∷ b's' ∷ b' ' ∷ b'/' ∷ b'z' ∷ b'k' ∷ []) ∷ (b'q' ∷ b'u' ∷ b'i' ∷ b't' ∷ []) ∷ [])
      console)
main_loop-ConsoleHasPasswd_example =
    main_loop-ConsoleHasPasswd terminal
      ((b'l' ∷ b's' ∷ b' ' ∷ b'/' ∷ b'z' ∷ b'k' ∷ []) ∷ (b'q' ∷ b'u' ∷ b'i' ∷ b't' ∷ []) ∷ [])
      console (λ n. linux-IsUsable) (passwd_of-IsPasswd 0)
