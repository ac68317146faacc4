-- ===== src/Request/Socket.antt =====
-- request.c: the loops that read from and write to the socket, over a script of what each system
-- call does.
use zkclient.Prelude.{
  ℕ, ◌+◌, none, some, List, [], ◌∷◌, ◌++◌, length, take, drop, leb, if◌then◌else◌,
}
use zkclient.CInt.{int_lt, int_sub, is_negative, to_size}
use zkclient.Outcome.{Outcome, returns, undefined}
use zkclient.Host.{store, load}
use zkclient.Conn.{zk_ok, zk_socket_err, PollResult}

-- One call of `read`: the bytes at hand, of which it takes as many as were asked for and leaves the
-- rest for the next call; -1 with an `errno` that the loop names (EAGAIN, EINTR) or another; or the
-- end of the stream.
pub data ReadEvent : Type 0 where
  arrives : List ℕ → ReadEvent
  interrupted : ReadEvent
  broken : ReadEvent
  closed : ReadEvent

-- One call of `write`: how many bytes it accepts at most, or -1.
pub data WriteEvent : Type 0 where
  accepts : ℕ → WriteEvent
  interrupted : WriteEvent
  broken : WriteEvent

-- What is still to happen on the socket, and the bytes that it carried to the server. At the end of
-- a script the peer has closed: `poll` times out, `read` returns 0 and `write` fails.
pub record Net : Type 0 where
  pub polls : List PollResult
  pub reads : List ReadEvent
  pub writes : List WriteEvent
  pub sent : List ℕ

-- `x - 1` on an `int`.
abbrev pub pred_int : ℕ → ℕ
pred_int x = int_sub x 1

-- The loop of `read_socket` from `r_bytes` on. A result of -1 is added to `r_bytes` before it is
-- looked at. A read to an address before the buffer is undefined.
unfoldable pub read_loop : List ReadEvent → ℕ → ℕ → List ℕ → Outcome (List ℕ × List ReadEvent)
read_loop [] len r_bytes buf =
    if int_lt r_bytes len then returns zk_socket_err (buf, []) else returns zk_ok (buf, [])
read_loop (ReadEvent.closed ∷ es) len r_bytes buf =
    if int_lt r_bytes len
    then returns zk_socket_err (buf, es)
    else returns zk_ok (buf, ReadEvent.closed ∷ es)
read_loop (ReadEvent.interrupted ∷ es) len r_bytes buf =
    let again = read_loop es len (pred_int r_bytes) buf in
    if int_lt r_bytes len then again else returns zk_ok (buf, ReadEvent.interrupted ∷ es)
read_loop (ReadEvent.broken ∷ es) len r_bytes buf =
    let again = read_loop es len (pred_int r_bytes) buf in
    if int_lt r_bytes len then again else returns zk_ok (buf, ReadEvent.broken ∷ es)
read_loop (ReadEvent.arrives [] ∷ es) len r_bytes buf =
    if int_lt r_bytes len
    then returns zk_socket_err (buf, es)
    else returns zk_ok (buf, ReadEvent.arrives [] ∷ es)
read_loop (ReadEvent.arrives (b ∷ bs) ∷ es) len r_bytes buf =
    let n = to_size (int_sub len r_bytes) in
    let got = take n (b ∷ bs) in
    let next : Outcome (List ℕ × List ReadEvent) = elim (store buf r_bytes got) [
      | none ↦ undefined
      | some buf' ↦
          let more = read_loop es len (r_bytes + length got) buf' in
          if leb (length (b ∷ bs)) n
          then more
          else returns zk_ok (buf', ReadEvent.arrives (drop n (b ∷ bs)) ∷ es)
    ] in
    if int_lt r_bytes len
    then (if is_negative r_bytes then undefined else next)
    else returns zk_ok (buf, ReadEvent.arrives (b ∷ bs) ∷ es)

-- What the loop leaves on the socket.
abbrev pub read_end : Net → Outcome (List ℕ × List ReadEvent) → Outcome (List ℕ × Net)
read_end net undefined = undefined
read_end net (returns rc (buf, reads)) = returns rc (buf, record net { reads = reads })

-- `read_socket` into the allocation `buf`.
unfoldable pub read_socket : List ℕ → ℕ → Net → Outcome (List ℕ × Net)
read_socket buf len net = read_end net (read_loop net.reads len 0 buf)

-- The loop of `send_request` over a frame of `total` bytes, from `w_bytes` on. Here too -1 is added
-- to `w_bytes` where the loop goes on after an interruption.
unfoldable pub write_loop :
    List WriteEvent → ℕ → ℕ → List ℕ → List ℕ → Outcome (List ℕ × List WriteEvent)
write_loop [] total w_bytes buf sent =
    if int_lt w_bytes total then returns zk_socket_err (sent, []) else returns zk_ok (sent, [])
write_loop (WriteEvent.broken ∷ es) total w_bytes buf sent =
    if int_lt w_bytes total
    then returns zk_socket_err (sent, es)
    else returns zk_ok (sent, WriteEvent.broken ∷ es)
write_loop (WriteEvent.interrupted ∷ es) total w_bytes buf sent =
    let again = write_loop es total (pred_int w_bytes) buf sent in
    if int_lt w_bytes total then again else returns zk_ok (sent, WriteEvent.interrupted ∷ es)
write_loop (WriteEvent.accepts n ∷ es) total w_bytes buf sent =
    let rest = to_size (int_sub total w_bytes) in
    let bytes = if leb n rest then n else rest in
    let next : Outcome (List ℕ × List WriteEvent) = elim (load buf w_bytes bytes) [
      | none ↦ undefined
      | some out ↦ write_loop es total (w_bytes + bytes) buf (sent ++ out)
    ] in
    if int_lt w_bytes total
    then (if is_negative w_bytes then undefined else next)
    else returns zk_ok (sent, WriteEvent.accepts n ∷ es)
