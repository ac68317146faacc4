-- ===== src/Conn.antt =====
-- conn.c: waiting for a socket, and the test for a numeric address. The system calls behind them
-- (`poll`, `socket`, `connect`, `gethostbyname`) are the environment.
use zkclient.Prelude.{
  ℕ, ◌≡◌, refl, Bool, true, false, not, ◌&&◌, ◌||◌, List, [], ◌∷◌, ltb, Option, none, some, ◌≢◌,
  ne→==, ◌==◌, if◌then◌else◌, arith,
}
use zkclient.CInt.{int_lt, is_negative}
use Prim.Native.Nat.{bit_and}

-- zkclient.h: ZK_OK, ZK_ERROR (-10000) and ZK_SOCKET_ERR (-10002).
abbrev pub zk_ok : ℕ
zk_ok = 0

abbrev pub zk_error : ℕ
zk_error = 4294957296

abbrev pub zk_socket_err : ℕ
zk_socket_err = 4294957294

-- CR_READ and CR_WRITE, POLLIN and POLLOUT.
abbrev pub cr_read : ℕ
cr_read = 1

abbrev pub cr_write : ℕ
cr_write = 2

abbrev pub pollin : ℕ
pollin = 1

abbrev pub pollout : ℕ
pollout = 4

-- What one call of `poll` returns, and the events that it reports.
pub record PollResult : Type 0 where
  pub n : ℕ
  pub revents : ℕ

unfoldable pub do_poll : PollResult → ℕ
do_poll p = if int_lt 0 p.n then p.revents else p.n

abbrev pub has_bits : ℕ → ℕ → Bool
has_bits a b = not (bit_and a b == 0)

unfoldable pub wait_socket : PollResult → ℕ → ℕ
unfolding do_poll
wait_socket p rw =
    let rc = do_poll p in
    if not (int_lt 0 rc)
    then zk_socket_err
    else if has_bits rw cr_read && has_bits rc pollin
    then zk_ok
    else if has_bits rw cr_write && has_bits rc pollout
    then zk_ok
    else zk_socket_err

-- The loop of `host2IP`: whether every character passes for one of a numeric address.
unfoldable pub is_ip : List ℕ → Bool
is_ip [] = true
is_ip (c ∷ host) = if not (c == b'.') || ltb c b'0' || ltb b'9' c then false else is_ip host

-- The loop takes no host name that has a character for a numeric address, not even one made of digits
-- and dots: it asks of each character that it is a dot and a digit at once.
pub is_ip-false : (c : ℕ) (host : List ℕ) → is_ip (c ∷ host) ≡ false
unfolding is_ip
is_ip-false c host = ground arith

-- `host2IP`, where `lookup` is what `gethostbyname` and `inet_ntoa` make of a name.
unfoldable pub host2_ip : (List ℕ → Option (List ℕ)) → List ℕ → Option (List ℕ)
host2_ip lookup host = if is_ip host then some host else lookup host

-- What the system calls of `connect_server` return: `socket`, `inet_pton`, `connect` (whether it
-- fails with an `errno` other than EINPROGRESS) and the `poll` that waits for the connection.
pub record ConnectCalls : Type 0 where
  pub lookup : List ℕ → Option (List ℕ)
  pub socket : ℕ
  pub is_address : List ℕ → Bool
  pub is_refused : Bool
  pub polled : PollResult

-- The options of the socket are set without a look at the results.
unfoldable pub connect_server : ConnectCalls → Option (List ℕ) → ℕ → ℕ
connect_server calls none port = 4294967295
connect_server calls (some host) port =
    if not (int_lt 0 port) || is_negative calls.socket
    then 4294967295
    else elim (host2_ip calls.lookup host) [
      | none ↦ 4294967295
      | some ip ↦
          if not (calls.is_address ip) || calls.is_refused
          then zk_error
          else if wait_socket calls.polled cr_write == zk_error
          then zk_error
          else calls.socket
    ]

wait_socket-zk_error : (p : PollResult) (mode : ℕ) → wait_socket p mode ≢ zk_error
unfolding wait_socket do_poll
wait_socket-zk_error p mode = ground arith

-- `connect_server` returns the socket of a connection that is under way whatever `poll` reports of
-- it, a time-out and an error included: it asks for ZK_ERROR, which `wait_socket` does not return.
pub connect_server-polled :
    (calls : ConnectCalls) (c : ℕ) (host ip : List ℕ) (port : ℕ)
    → int_lt 0 port ≡ true
    → is_negative calls.socket ≡ false
    → calls.lookup (c ∷ host) ≡ some ip
    → calls.is_address ip ≡ true
    → calls.is_refused ≡ false
    → connect_server calls (some (c ∷ host)) port ≡ calls.socket
unfolding connect_server host2_ip
connect_server-polled calls c host ip port valid opened found address going =
    rw (valid, opened)
      (rw (is_ip-false c host) (
        rw (found, connect_server)
          (rw (address, going)
            (rw
              (ne→== (wait_socket calls.polled cr_write) zk_error
                (wait_socket-zk_error calls.polled cr_write))
              refl))))
