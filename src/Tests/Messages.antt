-- ===== src/Tests/Messages.antt =====
-- Messages over a socket in pieces, and interrupted calls.
use zkclient.Prelude.{
  ℕ, ◌≡◌, refl, true, false, List, [], ◌∷◌, some, replicate, length-replicate, arith,
}
use zkclient.Outcome.{undefined}
use zkclient.Host.{load, store, malloc, big_endian, little_endian}
use zkclient.Archive.{BuffStruct}
use zkclient.Archive.Invariant.{IsArchive, written}
use zkclient.Archive.Output.{get_buffer, get_buffer_len, read_bytes}
use zkclient.Archive.Wire.{wire_int}
use zkclient.Conn.{
  ConnectCalls, connect_server, connect_server-polled, is_ip, is_ip-false, wait_socket, do_poll,
  cr_read, cr_write,
}
use zkclient.Client.{ZkClient, World}
use zkclient.Request.Socket.{ReadEvent, WriteEvent, arrives, accepts, read_loop, write_loop}
use zkclient.Request.Stream.{Filled}
use zkclient.Request.Reading.{read_loop-fills}
use zkclient.Request.Writing.{Sent}
use zkclient.Request.Frame.{
  fill_frame, header_bytes, poll_socket, send_frame, send_end, send_polled, send_request,
  recv_response,
}
use zkclient.Request.Framing.{framed, IsReady, Delivered, send_request-Delivered}
use zkclient.Request.Reply.{Received, recv_response-Received, recv_response-send_request}
use zkclient.Request.Interrupted.{read_loop-interrupted, write_loop-interrupted}
use zkclient.Tests.Samples.{linux, linux-IsGenerous, no_bytes}

abbrev pub client : ZkClient
client = record {
  sock = 3;
  last_zxid = 0;
  session_id = 0;
  session_timeout = 5000;
  connect_timeout = 1000;
  read_timeout = 1000;
  write_timeout = 1000;
  state = 2;
  last_err = 0;
  passwd = no_bytes;
  last_ping = 0;
}

-- An archive that holds the two bytes 7 and 8.
abbrev two_bytes : BuffStruct
two_bytes = record { len = 128; off = 2; buffer = some (7 ∷ 8 ∷ replicate 126 205) }

two_bytes-IsArchive : IsArchive two_bytes
two_bytes-IsArchive = record {
  mem = 7 ∷ 8 ∷ replicate 126 205;
  allocated = refl;
  size = omega (arith, length-replicate {A = ℕ} 126 205);
  fits = omega arith;
  at_least = omega arith;
  is_int = omega arith;
  at_most = omega arith;
}

-- The socket takes three bytes, and then the others.
abbrev sender : World
sender = record {
  client = client;
  net = record {
    polls = (record { n = 1; revents = 4 }) ∷ [];
    reads = [];
    writes = accepts 3 ∷ accepts 100 ∷ [];
    sent = [];
  };
}

abbrev pieces : List ReadEvent
pieces = arrives (0 ∷ 0 ∷ []) ∷ arrives (0 ∷ 2 ∷ 7 ∷ []) ∷ arrives (8 ∷ 9 ∷ []) ∷ []

-- The message arrives in pieces that do not meet its bounds, with one byte of the next.
abbrev receiver : World
receiver = record {
  client = client;
  net = record {
    polls = (record { n = 1; revents = 1 }) ∷ [];
    reads = pieces;
    writes = [];
    sent = [];
  };
}

sender-IsReady : IsReady cr_write sender.net
unfolding wait_socket do_poll
sender-IsReady = record {
  first = record { n = 1; revents = 4 };
  later = [];
  polls = refl;
  ready = refl;
}

receiver-IsReady : IsReady cr_read receiver.net
unfolding wait_socket do_poll
receiver-IsReady = record {
  first = record { n = 1; revents = 1 };
  later = [];
  polls = refl;
  ready = refl;
}

read_loop-fills_example :
    Filled (read_loop pieces 3 1 (1 ∷ 2 ∷ 3 ∷ [])) (1 ∷ []) (0 ∷ 0 ∷ 0 ∷ 2 ∷ 7 ∷ 8 ∷ 9 ∷ []) 2
read_loop-fills_example =
    read_loop-fills pieces 3 1 (1 ∷ 2 ∷ 3 ∷ []) tt refl (omega arith) (omega arith) (omega arith)

send_request-Delivered_example :
    Delivered sender (send_request linux two_bytes sender) (framed (written two_bytes))
send_request-Delivered_example =
    send_request-Delivered linux two_bytes sender linux-IsGenerous two_bytes-IsArchive (omega arith)
      sender-IsReady tt (omega arith)

recv_response-Received_example :
    Received receiver (recv_response linux receiver) (7 ∷ 8 ∷ []) (9 ∷ [])
unfolding wire_int big_endian little_endian
recv_response-Received_example =
    recv_response-Received linux receiver (7 ∷ 8 ∷ []) (9 ∷ []) linux-IsGenerous receiver-IsReady tt
      refl (omega arith)

recv_response-send_request_example :
    Received receiver (recv_response linux receiver) (written two_bytes) (9 ∷ [])
unfolding send_request malloc get_buffer_len fill_frame read_bytes get_buffer load store
    header_bytes send_frame send_polled send_end poll_socket wait_socket do_poll write_loop
recv_response-send_request_example =
    recv_response-send_request linux two_bytes sender receiver (9 ∷ []) linux-IsGenerous
      two_bytes-IsArchive (omega arith) sender-IsReady tt (omega arith) refl receiver-IsReady tt
      refl

read_loop-interrupted_example :
    read_loop (ReadEvent.interrupted ∷ arrives (7 ∷ []) ∷ []) 4 0 (replicate 4 205) ≡ undefined
read_loop-interrupted_example =
    read_loop-interrupted 7 [] [] 4 (replicate 4 205) (omega arith) (omega arith)

write_loop-interrupted_example :
    Sent
      (write_loop (WriteEvent.interrupted ∷ accepts 100 ∷ []) 4 2 (1 ∷ 2 ∷ 3 ∷ 4 ∷ []) (1 ∷ 2 ∷ []))
      (1 ∷ 2 ∷ 2 ∷ 3 ∷ 4 ∷ [])
write_loop-interrupted_example =
    write_loop-interrupted (accepts 100 ∷ []) 4 2 (1 ∷ 2 ∷ 3 ∷ 4 ∷ []) (1 ∷ 2 ∷ []) refl
      (omega arith) tt (omega arith) (omega arith) (omega arith)

-- "127.0.0.1".
is_ip-false_example :
    is_ip (b'1' ∷ b'2' ∷ b'7' ∷ b'.' ∷ b'0' ∷ b'.' ∷ b'0' ∷ b'.' ∷ b'1' ∷ []) ≡ false
is_ip-false_example = is_ip-false b'1' (b'2' ∷ b'7' ∷ b'.' ∷ b'0' ∷ b'.' ∷ b'0' ∷ b'.' ∷ b'1' ∷ [])

-- A server that does not answer before the time-out.
abbrev unanswered : ConnectCalls
unanswered = record {
  lookup = λ name. some name;
  socket = 3;
  is_address = λ ip. true;
  is_refused = false;
  polled = record { n = 0; revents = 0 };
}

connect_server-polled_example : connect_server unanswered (some (b'a' ∷ [])) 2181 ≡ 3
connect_server-polled_example =
    connect_server-polled unanswered b'a' [] (b'a' ∷ []) 2181 refl refl refl refl refl
