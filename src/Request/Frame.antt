-- ===== src/Request/Frame.antt =====
-- request.c: a message on the wire is its length, four bytes in network order, and its bytes.
use zkclient.Prelude.{
  ℕ, ◌+◌, ◌*◌, ◌/◌, ◌%◌, Option, none, some, List, [], ◌∷◌, get_or, replicate, ◌==◌, if◌then◌else◌,
}
use zkclient.CInt.{int_lt, int_add, to_size}
use zkclient.Outcome.{Outcome, returns, undefined, Step}
use zkclient.Host.{Host, malloc, store}
use zkclient.Archive.{BuffStruct}
use zkclient.Archive.Output.{get_buffer, get_buffer_len, read_bytes}
use zkclient.Archive.Input.{create_buffer_iarchive}
use zkclient.Conn.{zk_ok, zk_error, zk_socket_err, cr_read, cr_write, wait_socket}
use zkclient.Client.{World, set_last_err}
use zkclient.Request.Socket.{Net, WriteEvent, read_socket, write_loop}

-- One call of `poll` on the socket. At the end of the script it times out.
unfoldable pub poll_socket : ℕ → Net → ℕ × Net
poll_socket rw net = elim net.polls [
  | [] ↦ (wait_socket (record { n = 0; revents = 0 }) rw, net)
  | ◌∷◌ p polls ↦ (wait_socket p rw, record net { polls = polls })
]

-- The four assignments `buf[0] = len >> 24` to `buf[3] = len & 0xff`: each keeps a byte.
unfoldable pub header_bytes : ℕ → List ℕ
header_bytes len = len / 16777216 % 256 ∷ len / 65536 % 256 ∷ len / 256 % 256 ∷ len % 256 ∷ []

-- The buffer after its first four bytes and the `memcpy` of the archive are filled in.
unfoldable pub fill_frame : BuffStruct → ℕ → List ℕ → Option (List ℕ)
fill_frame oa len buf = elim (store buf 0 (header_bytes len)) [
  | none ↦ none
  | some buf' ↦ elim (read_bytes (get_buffer oa) (to_size len)) [
    | none ↦ none
    | some bytes ↦ store buf' 4 bytes
  ]
]

-- The end of the write loop. The label `cleanup` notes a socket error.
unfoldable pub send_end : World → Outcome (List ℕ × List WriteEvent) → Outcome World
send_end w undefined = undefined
send_end w (returns rc (sent, writes)) =
    let w' : World = record w { net = record w.net { writes = writes; sent = sent } } in
    if rc == zk_ok then returns zk_ok w' else returns zk_socket_err (set_last_err zk_socket_err w')

-- What follows `wait_socket`. Here too `cleanup` notes a socket error, whatever went wrong.
unfoldable pub send_polled : List ℕ → ℕ → World → ℕ × Net → Outcome World
send_polled frame total w (rc, net) =
    let w' : World = record w { net = net } in
    if rc == zk_ok
    then send_end w' (write_loop net.writes total 0 frame net.sent)
    else returns zk_socket_err (set_last_err zk_socket_err w')

unfoldable pub send_frame : List ℕ → ℕ → Step World
send_frame frame total w = send_polled frame total w (poll_socket cr_write w.net)

unfoldable pub send_request : Host → BuffStruct → Step World
send_request host oa w =
    let len = get_buffer_len oa in
    elim (int_add len 4) [
      | none ↦ undefined
      | some total ↦ elim (malloc host (to_size total)) [
        | none ↦ returns zk_error (set_last_err zk_error w)
        | some buf ↦ elim (fill_frame oa len buf) [
          | none ↦ undefined
          | some frame ↦ send_frame frame total w
        ]
      ]
    ]

-- The four shifted bytes have no bit in common, so `|=` adds them.
unfoldable pub decode_int32 : List ℕ → ℕ → ℕ
decode_int32 buf off =
    get_or buf off 0 * 16777216
    + get_or buf (off + 1) 0 * 65536
    + get_or buf (off + 2) 0 * 256
    + get_or buf (off + 3) 0

-- What a function that returns a pointer leaves; `none` inside is the null pointer.
abbrev pub Response : Type 0
Response = Outcome (Option BuffStruct × World)

-- `return NULL` after an error is noted in the client.
abbrev pub failed_response : ℕ → World → Response
failed_response rc w = returns 0 (none, set_last_err rc w)

abbrev pub into_some : Outcome (List ℕ × Net) → Outcome (Option (List ℕ) × Net)
into_some undefined = undefined
into_some (returns rc (buf, net)) = returns rc (some buf, net)

-- `read_socket` into an allocation that may be null: a read through a null pointer happens when
-- at least one byte is asked for.
unfoldable pub read_into : Option (List ℕ) → ℕ → Net → Outcome (Option (List ℕ) × Net)
read_into (some buf) len net = into_some (read_socket buf len net)
read_into none len net = if int_lt 0 len then undefined else returns zk_ok (none, net)

-- The end of `recv_response`, after the second `read_socket`.
unfoldable pub recv_end : Host → ℕ → World → Outcome (Option (List ℕ) × Net) → Response
recv_end host len w undefined = undefined
recv_end host len w (returns rc (recv_buf, net)) =
    let w' : World = record w { net = net } in
    if rc == zk_ok
    then returns 0 (create_buffer_iarchive host recv_buf len, w')
    else failed_response rc w'

-- What follows the first `read_socket`.
unfoldable pub recv_body : Host → World → Outcome (List ℕ × Net) → Response
recv_body host w undefined = undefined
recv_body host w (returns rc (buf, net)) =
    let w' : World = record w { net = net } in
    let len = decode_int32 buf 0 in
    if rc == zk_ok
    then recv_end host len w' (read_into (malloc host (to_size len)) len net)
    else failed_response rc w'

-- What follows `wait_socket`.
unfoldable pub recv_polled : Host → World → ℕ × Net → Response
recv_polled host w (rc, net) =
    let w' : World = record w { net = net } in
    if rc == zk_ok
    then recv_body host w' (read_socket (replicate 4 host.junk) 4 net)
    else failed_response rc w'

unfoldable pub recv_response : Host → World → Response
recv_response host w = recv_polled host w (poll_socket cr_read w.net)
