-- ===== src/Tests/Failovers.antt =====
-- Connecting to one of several servers, and the commands that reconnect.
use zkclient.Prelude.{ℕ, zero, suc, ◌≡◌, refl, ap, ◌∙◌, true, false, some, [], ◌∷◌, arith}
use zkclient.Outcome.{returns}
use zkclient.Host.{big_endian, little_endian}
use zkclient.Archive.Wire.{wire_int, wire_long, wire_buffer}
use zkclient.Jute.Connect.Codec.{wire_connect_request, wire_connect_response}
use zkclient.Client.{World}
use zkclient.Client.Connect.{Attempt, Cluster, connected, do_connect, new_client, idle}
use zkclient.Client.Failover.{
  HasAddress, sock_of, handshake, down, rejected, AllFail, none_left, one_fails, IsUp, authed,
  do_connect-IsUp, do_connect-AllFail,
}
use zkclient.Client.Made.{MadeWithPasswd, new_client-MadeWithPasswd}
use zkclient.Conn.{
  ConnectCalls, connect_server, host2_ip, is_ip, zk_error, wait_socket, do_poll, cr_read, cr_write,
}
use zkclient.Request.Framing.{IsReady}
use zkclient.Request.Answered.{polled_once}
use zkclient.Request.Authenticate.{authenticate, connect_request}
use zkclient.Request.Authenticated.{Authenticated, authenticate-Authenticated}
use zkclient.Util.Last.{split_last}
use zkclient.Tests.Messages.{client}
use zkclient.Tests.Samples.{linux, linux-IsGenerous, linux-IsUsable}
use zkclient.Tests.Handshakes.{passwd_of, passwd_of-IsPasswd, resp, accepted, newcomer}

abbrev pub refuses : ConnectCalls
refuses = record {
  lookup = λ name. some name;
  socket = 3;
  is_address = λ ip. true;
  is_refused = true;
  polled = record { n = 0; revents = 0 };
}

abbrev attempt_of : ℕ → Attempt
attempt_of zero = record { calls = refuses; net = idle; resp = resp }
attempt_of (suc zero) = record {
  calls = record refuses { is_refused = false };
  net = idle;
  resp = resp;
}
attempt_of (suc (suc n)) = record {
  calls = record refuses { is_refused = false };
  net = (newcomer accepted).net;
  resp = resp;
}

-- "a:1" refuses the connection, "c:3" does not answer in time, and "b:2" does.
abbrev pub cluster : Cluster
cluster = record {
  host = linux;
  atoi = λ text. 2181;
  servers = (b'a' ∷ b':' ∷ b'1' ∷ []) ∷ (b'c' ∷ b':' ∷ b'3' ∷ []) ∷ (b'b' ∷ b':' ∷ b'2' ∷ []) ∷ [];
  attempt = attempt_of;
}

abbrev pub start : World
start = record { client = record client { passwd = passwd_of 0 }; net = idle }

a-HasAddress : HasAddress cluster 0 (b'a' ∷ []) (b'1' ∷ [])
unfolding split_last
a-HasAddress = record {
  server = b'a' ∷ b':' ∷ b'1' ∷ [];
  listed = refl;
  parts = refl;
  fits = omega arith;
}

c-HasAddress : HasAddress cluster 1 (b'c' ∷ []) (b'3' ∷ [])
unfolding split_last
c-HasAddress = record {
  server = b'c' ∷ b':' ∷ b'3' ∷ [];
  listed = refl;
  parts = refl;
  fits = omega arith;
}

a_refuses : sock_of cluster 0 (b'a' ∷ []) (b'1' ∷ []) ≡ zk_error
unfolding connect_server host2_ip is_ip
a_refuses = refl

c_times_out : sock_of cluster 1 (b'c' ∷ []) (b'3' ∷ []) ≡ 3
unfolding connect_server host2_ip is_ip wait_socket do_poll
c_times_out = refl

-- What the handshake with "c:3" leaves.
abbrev timed_out : World
timed_out = record start {
  client = record client { passwd = passwd_of 0; state = 1; last_err = 4294957294 };
}

c_fails : handshake cluster 1 (b'c' ∷ []) (b'3' ∷ []) start ≡ returns 4294957294 timed_out
unfolding authenticate connected zkclient.Request.Authenticate.auth_end
    zkclient.Request.Call.recv_sent zkclient.Request.Call.send_built
    zkclient.Request.Authenticate.build_connect_request
    zkclient.Archive.Output.create_buffer_oarchive zkclient.Jute.Connect.serialize_connect_request
    zkclient.Outcome.◌>>◌ zkclient.Archive.Output.oa_start_record zkclient.Outcome.skip
    zkclient.Archive.Output.oa_serialize_int zkclient.Outcome.checked
    zkclient.Archive.Output.reserve_size zkclient.Archive.Output.append_bytes zkclient.Host.store
    zkclient.Host.image little_endian zkclient.Archive.Output.oa_serialize_long
    zkclient.Archive.Output.append_from zkclient.Archive.Output.get_buffer
    zkclient.Archive.Output.get_buffer_len zkclient.Archive.Output.oa_end_record
    zkclient.Archive.Output.oa_serialize_buffer zkclient.Archive.Output.read_bytes
    zkclient.Archive.Output.reserve_int zkclient.Archive.Output.resize_buffer
    zkclient.Archive.Output.resize_loop do_poll wait_socket big_endian
    zkclient.Host.from_little_endian zkclient.Host.htonl zkclient.Host.htonll zkclient.Host.load
    zkclient.Host.malloc zkclient.Host.realloc zkclient.Host.swap_bytes zkclient.Host.swap_loop
    zkclient.Host.value connect_request zkclient.Request.Frame.fill_frame
    zkclient.Request.Frame.header_bytes zkclient.Request.Frame.poll_socket
    zkclient.Request.Frame.send_end zkclient.Request.Frame.send_frame
    zkclient.Request.Frame.send_polled zkclient.Request.Frame.send_request
    zkclient.Request.Call.take_response connect_server host2_ip is_ip
c_fails = refl

two-AllFail : AllFail cluster 0 0 2 start timed_out
two-AllFail = one_fails 0 0 1 start start timed_out (down start _ _ a-HasAddress a_refuses) (
    one_fails 1 1 0 start timed_out timed_out
      (rejected start timed_out _ _ 4294957294 c-HasAddress (λ e. absurd (cc (c_times_out, e)))
        c_fails (λ e. absurd (cc e)))
      (none_left 2 2 timed_out))

b_connects : connect_server (record refuses { is_refused = false }) (some (b'b' ∷ [])) 2181 ≡ 3
unfolding connect_server host2_ip is_ip wait_socket do_poll
b_connects = refl

-- The client on its new socket.
abbrev arrived : World
arrived = connected 3 (cluster.attempt 2) timed_out

arrived-IsReady : IsReady cr_write arrived.net
unfolding wait_socket do_poll connected
arrived-IsReady = record {
  first = record { n = 1; revents = 4 };
  later = (record { n = 1; revents = 1 }) ∷ [];
  polls = refl;
  ready = refl;
}

polled_arrived-IsReady : IsReady cr_read (polled_once arrived).net
unfolding wait_socket do_poll connected
polled_arrived-IsReady = record {
  first = record { n = 1; revents = 1 };
  later = [];
  polls = refl;
  ready = refl;
}

b-Authenticated : Authenticated arrived (authenticate linux resp arrived) resp []
unfolding wire_connect_request wire_connect_response wire_int wire_long wire_buffer big_endian
    little_endian connect_request connected
b-Authenticated =
    authenticate-Authenticated linux resp resp arrived [] linux-IsGenerous (passwd_of-IsPasswd 0)
      (record {
        protocol_version = omega arith;
        last_zxid_seen = omega arith;
        time_out = omega arith;
        session_id = omega arith;
        passwd = refl;
      })
      (omega arith) arrived-IsReady tt (omega arith) polled_arrived-IsReady tt refl (omega arith)
      (record {
        protocol_version = omega arith;
        time_out = omega arith;
        session_id = omega arith;
        passwd = refl;
      })
      (passwd_of-IsPasswd 7) refl

b-IsUp : IsUp cluster 2 2 timed_out b-Authenticated.left
unfolding split_last
b-IsUp = record {
  name = b'b' ∷ [];
  port = b'2' ∷ [];
  address = record {
    server = b'b' ∷ b':' ∷ b'2' ∷ [];
    listed = refl;
    parts = refl;
    fits = omega arith;
  };
  connects = λ e. absurd (cc (b_connects, e));
  accepts =
      ap (λ sock. authenticate linux resp (connected sock (cluster.attempt 2) timed_out)) b_connects
      ∙ b-Authenticated.returned;
}

do_connect-IsUp_example : do_connect cluster 0 start ≡ returns 0 (authed b-Authenticated.left)
do_connect-IsUp_example =
    do_connect-IsUp cluster 0 2 start timed_out b-Authenticated.left (omega arith) two-AllFail
      b-IsUp

-- "a:1" and "c:3" alone, from the second one on.
abbrev lonely : Cluster
lonely = record cluster { servers = (b'c' ∷ b':' ∷ b'3' ∷ []) ∷ (b'a' ∷ b':' ∷ b'1' ∷ []) ∷ [] }

lonely-AllFail : AllFail lonely 1 0 2 start timed_out
unfolding split_last
lonely-AllFail =
    one_fails 1 0 1 start start timed_out
      (down start (b'a' ∷ []) (b'1' ∷ [])
        (record {
          server = b'a' ∷ b':' ∷ b'1' ∷ [];
          listed = refl;
          parts = refl;
          fits = omega arith;
        })
        a_refuses)
      (one_fails 2 1 0 start timed_out timed_out
        (rejected start timed_out (b'c' ∷ []) (b'3' ∷ []) 4294957294
          (record {
            server = b'c' ∷ b':' ∷ b'3' ∷ [];
            listed = refl;
            parts = refl;
            fits = omega arith;
          })
          (λ e. absurd (cc (c_times_out, e))) c_fails (λ e. absurd (cc e)))
        (none_left 3 2 timed_out))

do_connect-AllFail_example : do_connect lonely 7 start ≡ returns zk_error timed_out
do_connect-AllFail_example =
    do_connect-AllFail lonely 7 start timed_out (omega arith) lonely-AllFail

new_client-MadeWithPasswd_example :
    MadeWithPasswd
      (new_client cluster 0 1000 205 (b'a' ∷ b':' ∷ b'1' ∷ b',' ∷ b'b' ∷ b':' ∷ b'2' ∷ []) 60 3)
new_client-MadeWithPasswd_example =
    new_client-MadeWithPasswd cluster 0 1000 205
      (b'a' ∷ b':' ∷ b'1' ∷ b',' ∷ b'b' ∷ b':' ∷ b'2' ∷ []) 60 3 linux-IsUsable
