-- ===== src/Client/Connect.antt =====
-- zkclient.c: how a client is made, connected and reset. What the sockets and the server do in each
-- round of `do_connect` is an argument; the ping thread is started without a failure.
use zkclient.Prelude.{
  ℕ, zero, suc, ◌+◌, ◌-◌, ◌*◌, ◌/◌, ◌%◌, Option, none, some, List, [], ◌∷◌, length, get_elem?,
  replicate, leb, ◌==◌, if◌then◌else◌,
}
use zkclient.CInt.{is_negative, minus, int32_mod}
use zkclient.Outcome.{Outcome, returns, undefined, Step}
use zkclient.Host.{Host, malloc}
use zkclient.Archive.{Buffer}
use zkclient.Conn.{zk_ok, zk_error, ConnectCalls, connect_server}
use zkclient.Jute.Connect.{ConnectResponse}
use zkclient.Client.{ZkClient, World}
use zkclient.Request.Socket.{Net}
use zkclient.Request.Authenticate.{authenticate}
use zkclient.Util.Split.{sdssplitlen}
use zkclient.Util.Last.{split_last}

-- ZK_STATE_INIT, ZK_STATE_CONNECTED, ZK_STATE_AUTHED and ZK_STATE_STOP.
abbrev pub state_init : ℕ
state_init = 0

abbrev pub state_connected : ℕ
state_connected = 1

abbrev pub state_authed : ℕ
state_authed = 2

abbrev pub state_stop : ℕ
state_stop = 3

-- One round: the system calls of the connection, the new socket, and what the variable for the reply
-- holds before it is read.
pub record Attempt : Type 0 where
  pub calls : ConnectCalls
  pub net : Net
  pub resp : ConnectResponse

-- The machine, `atoi` of libc, the servers of the client, and the rounds.
pub record Cluster : Type 0 where
  pub host : Host
  pub atoi : List ℕ → ℕ
  pub servers : List (List ℕ)
  pub attempt : ℕ → Attempt

unfoldable pub after_auth : Outcome World → Outcome World
after_auth undefined = undefined
after_auth (returns rc w) =
    if rc == zk_ok
    then returns zk_ok (record w { client = record w.client { state = state_authed } })
    else returns zk_error w

-- A new connection, before its handshake.
unfoldable pub connected : ℕ → Attempt → World → World
connected sock a w = record {
  client = record w.client { sock = sock; state = state_connected };
  net = a.net;
}

-- A round with a server whose address was taken apart. The name is copied into 512 bytes.
unfoldable pub connect_address :
    Cluster → Attempt → World → Option (List ℕ × List ℕ) → Outcome World
connect_address cl a w none = returns zk_error w
connect_address cl a w (some (name, port)) =
    if leb 512 (length name)
    then undefined
    else let sock = connect_server a.calls (some name) (cl.atoi port) in
      if sock == zk_error
      then returns zk_error w
      else after_auth (authenticate cl.host a.resp (connected sock a w))

unfoldable pub connect_round : Cluster → Attempt → Option (List ℕ) → Step World
connect_round cl a none w = undefined
connect_round cl a (some server) w = connect_address cl a w (split_last b':' server)

-- `continue`, unless the round returned.
unfoldable pub or_else : Step World → Outcome World → Outcome World
or_else rest undefined = undefined
or_else rest (returns rc w) = if rc == zk_ok then returns zk_ok w else rest w

-- The loop with `retries` rounds left; `k` counts the rounds.
unfoldable pub connect_loop : Cluster → ℕ → ℕ → ℕ → Step World
connect_loop cl zero start k w = returns zk_error w
connect_loop cl (suc retries) start k w =
    or_else (connect_loop cl retries (start + 1) (k + 1))
      (connect_round cl (cl.attempt k) (get_elem? cl.servers (start % length cl.servers)) w)

-- `rand` is what the function of libc returns.
unfoldable pub do_connect : Cluster → ℕ → Step World
do_connect cl rand w =
    if length cl.servers == 0
    then undefined
    else connect_loop cl (length cl.servers) (rand % length cl.servers) 0 w

unfoldable pub set_connect_timeout : ℕ → ZkClient → ZkClient
set_connect_timeout timeout c =
    if is_negative timeout then c else record c { connect_timeout = timeout }

unfoldable pub set_socket_timeout : ℕ → ZkClient → ZkClient
set_socket_timeout timeout c =
    if is_negative timeout then c else record c { read_timeout = timeout; write_timeout = timeout }

-- The sixteen zero bytes of a password that the server has not chosen yet. `memset` goes through the
-- pointer, null or not.
unfoldable pub no_passwd : Host → Option Buffer
no_passwd host = elim (malloc host 16) [
  | none ↦ none
  | some mem ↦ some (record { len = 16; buff = some (replicate 16 0) })
]

unfoldable pub reset_fields : World → Option Buffer → Outcome World
reset_fields w none = undefined
reset_fields w (some passwd) = returns 0 (record w {
  client = record w.client {
    sock = minus 1;
    state = state_init;
    last_ping = 0;
    session_id = 0;
    last_zxid = 0;
    passwd = passwd;
  };
})

-- The lock, the thread and the socket are given up.
unfoldable pub reset_zkclient : Host → Step World
reset_zkclient host w = reset_fields w (no_passwd host)

-- `v * 1000` and `v / 3` on `int`s; signed overflow is undefined, and the division truncates.
unfoldable pub int_thousand : ℕ → Option ℕ
int_thousand v =
    if is_negative v
    then (if leb (minus v * 1000) 2147483648 then some (minus (minus v * 1000)) else none)
    else if is_negative (v * 1000)
    then none
    else some (v * 1000)

unfoldable pub int_third : ℕ → ℕ
int_third v = if is_negative v then (int32_mod - minus v / 3) % int32_mod else v / 3

-- The time-out of a connection: a third of the session's, or a number of seconds.
unfoldable pub new_timeout : ℕ → ℕ → Option ℕ
new_timeout session_timeout timeout =
    if is_negative timeout then some (int_third session_timeout) else int_thousand timeout

-- The fields of a new client before it connects. `last_err` is not set: `junk` is what it holds.
unfoldable pub new_fields : ℕ → ℕ → ℕ → ℕ → Buffer → ZkClient
new_fields session_timeout connect_timeout now junk passwd = record {
  sock = minus 1;
  last_zxid = 0;
  session_id = 0;
  session_timeout = session_timeout;
  connect_timeout = connect_timeout;
  read_timeout = connect_timeout;
  write_timeout = connect_timeout;
  state = state_init;
  last_err = junk;
  passwd = passwd;
  last_ping = now;
}

abbrev pub idle : Net
idle = record { polls = []; reads = []; writes = []; sent = [] }

-- What `new_client` does once it has its servers. A client that cannot connect ends the program, as
-- the result `zk_error`.
unfoldable pub start_client : Cluster → ℕ → ℕ → ℕ → ℕ → ℕ → Outcome World
start_client cl rand now junk session_timeout timeout = elim (int_thousand session_timeout) [
  | none ↦ undefined
  | some session ↦ elim (new_timeout session timeout) [
    | none ↦ undefined
    | some connect ↦ elim (no_passwd cl.host) [
      | none ↦ undefined
      | some passwd ↦
          do_connect cl rand
            (record { client = new_fields session connect now junk passwd; net = idle })
    ]
  ]
]

unfoldable pub started : Outcome World → Outcome (Option World)
started undefined = undefined
started (returns rc w) = returns rc (some w)

-- The null pointer where the list names no server.
unfoldable pub new_from :
    Cluster → ℕ → ℕ → ℕ → ℕ → ℕ → Outcome (Option (List (List ℕ)) × ℕ) → Outcome (Option World)
new_from cl rand now junk session_timeout timeout undefined = undefined
new_from cl rand now junk session_timeout timeout (returns rc (none, n)) = returns 0 none
new_from cl rand now junk session_timeout timeout (returns rc (some servers, n)) =
    if n == 0
    then returns 0 none
    else started
        (start_client (record cl { servers = servers }) rand now junk session_timeout timeout)

unfoldable pub new_client : Cluster → ℕ → ℕ → ℕ → List ℕ → ℕ → ℕ → Outcome (Option World)
new_client cl rand now junk zk_list session_timeout timeout =
    new_from cl rand now junk session_timeout timeout
      (sdssplitlen cl.host zk_list (length zk_list) (b',' ∷ []) 1 0)
