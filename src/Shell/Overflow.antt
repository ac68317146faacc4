-- ===== src/Shell/Overflow.antt =====
-- main.c: the NUL that `getCommand` writes behind the data of a node.
use zkclient.Prelude.{ℕ, ◌+◌, ◌≤◌, ◌≡◌, refl, some, List, length, lt→leb, arith}
use zkclient.CInt.{int_max, to_size-natural}
use zkclient.Outcome.{returns, undefined}
use zkclient.Host.{store}
use zkclient.Archive.{Buffer}
use zkclient.Request.Call.{Session}
use zkclient.Shell.Commands.{Shell, add_terminator, print_text, got_data}

-- `getCommand` writes one byte past the data of every node that has some: its behaviour is
-- undefined after a `zk_get` that succeeded with a memory as long as the data.
pub got_data-undefined :
    (path : List ℕ) (s : Shell) (b : Buffer) (mem : List ℕ) (m : Session)
    → b.buff ≡ some mem
    → length mem ≡ b.len
    → b.len ≤ int_max
    → got_data path s (returns 0 (b, m)) ≡ undefined
unfolding got_data add_terminator print_text store
got_data-undefined path s b mem m e size l =
    rw (e, add_terminator)
      (rw (to_size-natural b.len l)
        (rw (lt→leb (b.len + 1) (length mem) (omega (arith, size))) refl))
