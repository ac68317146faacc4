-- ===== src/Shell/Reconnect.antt =====
-- main.c: the connection after a command that lost it.
use zkclient.Prelude.{ℕ, ◌≡◌, ◌||◌, true, inl, inr, Bool-cases, ◌==◌, ==→eq, ap, if◌then◌else◌}
use zkclient.Outcome.{Outcome, returns, undefined}
use zkclient.Archive.Safety.{IsUsable}
use zkclient.Conn.{zk_ok, zk_socket_err}
use zkclient.Client.{World}
use zkclient.Client.Connect.{state_authed, Cluster}
use zkclient.Client.Authed.{HasHandshake, IsAuthed, do_connect-IsAuthed}
use zkclient.Client.Made.{do_connect-HasPasswd, reset_zkclient-HasPasswd}
use zkclient.Request.Passwd.{IsPasswd}
use zkclient.Request.Handshake.{HasPasswd}
use zkclient.Shell.Commands.{Shell, last_err_of}
use zkclient.Shell.Dispatch.{
  check_reconnect, Terminal, Console, world_of, reconnected, connect_again, after_command,
}

-- The client that a command leaves: after a handshake that succeeded, in the state of an
-- authenticated client, and with a well-formed password. The result 1 is the end of the program.
pub record IsReconnected (cl : Cluster) (code : ℕ) (s : Console) : Type 0 where
  pub shakes_hands : code ≡ 0 → HasHandshake cl (world_of s)
  pub authenticated : code ≡ 0 → (world_of s).client.state ≡ state_authed
  pub passwd : IsPasswd (world_of s).client.passwd

abbrev pub Reconnected : Cluster → Outcome Console → Type 0
Reconnected cl undefined = Unit
Reconnected cl (returns code s) = IsReconnected cl code s

reconnected_lem :
    (cl : Cluster) (s : Console) (o : Outcome World)
    → IsAuthed cl o
    → HasPasswd o
    → Reconnected cl (reconnected s o)
unfolding reconnected
reconnected_lem cl s undefined h k = tt
reconnected_lem cl s (returns rc w) h k =
    let success : (if rc == zk_ok then 0 else 1) ≡ 0 → rc ≡ zk_ok = λ e.
      elim (Bool-cases (rc == zk_ok)) [
        | inl ok ↦ ==→eq rc zk_ok ok
        | inr bad ↦ absurd (cc (rw bad at e))
      ] in
    record {
      shakes_hands = λ e. h (success e);
      authenticated = λ e. ap (λ (v : World). v.client.state) (h (success e)).same;
      passwd = k;
    }

connect_again-IsAuthed :
    (cl : Cluster) (rand : ℕ) (o : Outcome World) → IsAuthed cl (connect_again cl rand o)
unfolding connect_again
connect_again-IsAuthed cl rand undefined = tt
connect_again-IsAuthed cl rand (returns rc w) = do_connect-IsAuthed cl rand w

connect_again-HasPasswd :
    (cl : Cluster) (rand : ℕ) (o : Outcome World)
    → IsUsable cl.host
    → HasPasswd o
    → HasPasswd (connect_again cl rand o)
unfolding connect_again
connect_again-HasPasswd cl rand undefined u k = tt
connect_again-HasPasswd cl rand (returns rc w) u k = do_connect-HasPasswd cl rand w u k

-- After a command with a socket error, or with a last error that `check_reconnect` names, the client
-- is made new, whatever state it was in. When `processCommand` goes on, and no behaviour was undefined,
-- the client is what a handshake left that returned 0, with a server of the list in one of the rounds of
-- `do_connect`, with the state of an authenticated client, and its password is well formed. The allocator
-- refuses what exceeds the largest object.
pub after_command-Reconnected :
    (t : Terminal) (cl : Cluster) (rand status : ℕ) (s : Console) (shell : Shell)
    → IsUsable cl.host
    → (status == zk_socket_err || check_reconnect (last_err_of shell)) ≡ true
    → Reconnected cl (after_command t cl rand s (returns status shell))
unfolding after_command
after_command-Reconnected t cl rand status s shell u lost = rw lost (
    reconnected_lem cl (record s { shell = shell }) _ (connect_again-IsAuthed cl rand _)
      (connect_again-HasPasswd cl rand _ u (reset_zkclient-HasPasswd t.host shell.session.world)))
