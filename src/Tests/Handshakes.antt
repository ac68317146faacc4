-- ===== src/Tests/Handshakes.antt =====
-- Handshakes, connections and reconnections.
use zkclient.Prelude.{ℕ, ◌≡◌, refl, none, some, List, [], ◌∷◌, replicate, length-replicate, arith}
use zkclient.Host.{big_endian, little_endian}
use zkclient.Archive.{Buffer}
use zkclient.Archive.Wire.{wire_int, wire_long, wire_buffer}
use zkclient.Jute.Connect.{ConnectResponse}
use zkclient.Jute.Connect.Codec.{wire_connect_request, wire_connect_response}
use zkclient.Client.{World}
use zkclient.Conn.{wait_socket, do_poll, cr_read, cr_write}
use zkclient.Request.Socket.{arrives, accepts}
use zkclient.Request.Framing.{framed, IsReady}
use zkclient.Request.Answered.{polled_once}
use zkclient.Request.Authenticate.{authenticate, adopt_passwd, connect_request}
use zkclient.Request.Passwd.{IsPasswd}
use zkclient.Request.Handshake.{HasPasswd, authenticate-HasPasswd, adopt_passwd-shorter}
use zkclient.Request.Authenticated.{Authenticated, authenticate-Authenticated}
use zkclient.Tests.Messages.{client}
use zkclient.Tests.Samples.{linux, linux-IsGenerous, linux-IsUsable, no_bytes}

abbrev pub passwd_of : ℕ → Buffer
passwd_of byte = record { len = 16; buff = some (replicate 16 byte) }

pub passwd_of-IsPasswd : (byte : ℕ) → IsPasswd (passwd_of byte)
passwd_of-IsPasswd byte = record {
  mem = replicate 16 byte;
  allocated = refl;
  size = omega (arith, length-replicate {A = ℕ} 16 byte);
  some_bytes = omega arith;
  is_int = omega arith;
}

abbrev pub resp : ConnectResponse
resp = record {
  protocol_version = 0;
  time_out = 4000;
  session_id = 4294967301;
  passwd = passwd_of 7;
}

abbrev junk_resp : ConnectResponse
junk_resp = record { protocol_version = 205; time_out = 205; session_id = 205; passwd = no_bytes }

-- A client with a new password, whose server sends `bs`.
abbrev pub newcomer : List ℕ → World
newcomer bs = record {
  client = record client { passwd = passwd_of 0 };
  net = record {
    polls = (record { n = 1; revents = 4 }) ∷ (record { n = 1; revents = 1 }) ∷ [];
    reads = arrives bs ∷ [];
    writes = accepts 5 ∷ accepts 1000 ∷ [];
    sent = [];
  };
}

newcomer-IsReady : (bs : List ℕ) → IsReady cr_write (newcomer bs).net
unfolding wait_socket do_poll
newcomer-IsReady bs = record {
  first = record { n = 1; revents = 4 };
  later = (record { n = 1; revents = 1 }) ∷ [];
  polls = refl;
  ready = refl;
}

polled_newcomer-IsReady : (bs : List ℕ) → IsReady cr_read (polled_once (newcomer bs)).net
unfolding wait_socket do_poll
polled_newcomer-IsReady bs = record {
  first = record { n = 1; revents = 1 };
  later = [];
  polls = refl;
  ready = refl;
}

abbrev pub accepted : List ℕ
accepted = framed (wire_connect_response resp)

authenticate-HasPasswd_example : HasPasswd (authenticate linux junk_resp (newcomer accepted))
authenticate-HasPasswd_example =
    authenticate-HasPasswd linux junk_resp (newcomer accepted) linux-IsUsable (passwd_of-IsPasswd 0)

adopt_passwd-shorter_example :
    adopt_passwd linux (passwd_of 0) (record { len = 1; buff = some (9 ∷ []) }) ≡ none
adopt_passwd-shorter_example =
    adopt_passwd-shorter linux (passwd_of 0) (record { len = 1; buff = some (9 ∷ []) }) (9 ∷ [])
      (passwd_of-IsPasswd 0) refl refl (omega arith)

authenticate-Authenticated_example :
    Authenticated (newcomer accepted) (authenticate linux junk_resp (newcomer accepted)) resp []
unfolding wire_connect_request wire_connect_response wire_int wire_long wire_buffer big_endian
    little_endian connect_request
authenticate-Authenticated_example =
    authenticate-Authenticated linux junk_resp resp (newcomer accepted) [] linux-IsGenerous
      (passwd_of-IsPasswd 0)
      (record {
        protocol_version = omega arith;
        last_zxid_seen = omega arith;
        time_out = omega arith;
        session_id = omega arith;
        passwd = refl;
      })
      (omega arith) (newcomer-IsReady accepted) tt (omega arith) (polled_newcomer-IsReady accepted)
      tt refl (omega arith)
      (record {
        protocol_version = omega arith;
        time_out = omega arith;
        session_id = omega arith;
        passwd = refl;
      })
      (passwd_of-IsPasswd 7) refl
