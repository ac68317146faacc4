-- ===== src/Request/Authenticated.antt =====
-- request.c: a handshake that the server answers.
use zkclient.Prelude.{
  ℕ, ◌+◌, ◌%◌, ◌≤◌, ◌≡◌, refl, sym, ap, ◌∙◌, List, [], ◌++◌, length, append-nil, arith,
}
use zkclient.CInt.{int32_mod}
use zkclient.Outcome.{Outcome, returns}
use zkclient.Host.{Host}
use zkclient.Archive.Invariant.{capacity}
use zkclient.Archive.Loads.{IsGenerous}
use zkclient.Client.{ZkClient, World}
use zkclient.Conn.{cr_read, cr_write}
use zkclient.Jute.Connect.{ConnectResponse}
use zkclient.Jute.Connect.Codec.{
  IsConnectRequest, wire_connect_request, serialize_connect_request-Writes, IsConnectResponse,
  wire_connect_response, deserialize_connect_response-Loads,
}
use zkclient.Jute.Transfer.{fresh, fresh-IsArchive, create_buffer_oarchive-fresh}
use zkclient.Request.Stream.{IsPlain, stream}
use zkclient.Request.Writing.{IsSteady, room}
use zkclient.Request.Framing.{framed, IsReady}
use zkclient.Request.Reply.{input_of}
use zkclient.Request.Answered.{built, recv_sent-Exchanged, polled_once}
use zkclient.Request.Authenticate.{
  connect_request, build_connect_request, adopt_passwd, auth_adopt, auth_read, auth_end,
  authenticate,
}
use zkclient.Request.Passwd.{IsPasswd, adopt_passwd-same_length}

-- The client has taken over the session of the reply, having sent one request and read one reply.
pub record Authenticated (w : World) (o : Outcome World) (v : ConnectResponse) (rest : List ℕ)
    : Type 0 where
  pub left : World
  pub returned : o ≡ returns 0 left
  pub client : left.client ≡ record w.client {
    session_id = v.session_id % int32_mod;
    session_timeout = v.time_out;
    passwd = v.passwd;
  }
  pub sent : left.net.sent ≡ w.net.sent ++ framed (wire_connect_request (connect_request w.client))
  pub behind : stream left.net.reads ≡ rest

-- `authenticate` on a new connection without interruptions, for a client whose password has the length
-- of the one in a well-formed reply: it returns 0, has sent the framed connect request with the session
-- and password of the client, and the client takes over the password, the time-out and the low 32 bits
-- of the session id of the reply.
pub authenticate-Authenticated :
    (host : Host) (resp v : ConnectResponse) (w : World) (rest : List ℕ)
    → IsGenerous host
    → IsPasswd w.client.passwd
    → IsConnectRequest (connect_request w.client)
    → length (wire_connect_request (connect_request w.client)) ≤ capacity
    → IsReady cr_write w.net
    → IsSteady w.net.writes
    → length (wire_connect_request (connect_request w.client)) + 4 ≤ room w.net.writes
    → IsReady cr_read (polled_once w).net
    → IsPlain w.net.reads
    → stream w.net.reads ≡ framed (wire_connect_response v) ++ rest
    → length (wire_connect_response v) ≤ capacity
    → IsConnectResponse v
    → IsPasswd v.passwd
    → v.passwd.len ≡ w.client.passwd.len
    → Authenticated w (authenticate host resp w) v rest
unfolding authenticate auth_end auth_read auth_adopt build_connect_request
authenticate-Authenticated host resp v w rest g k ok small can_write steady enough can_read plain
      here fits good k' same =
    let b =
      built host (build_connect_request host w.client)
        (wire_connect_request (connect_request w.client)) g
        (rw (create_buffer_oarchive-fresh host g, build_connect_request)
          ((serialize_connect_request-Writes host (connect_request w.client) ok).run (fresh host)
            (fresh-IsArchive host) (omega arith))) in
    let e =
      recv_sent-Exchanged host w (wire_connect_response v) rest g can_write steady can_read plain
        here fits _ _ b small enough in
    let r =
      (deserialize_connect_response-Loads host v resp g good).run
        (input_of (wire_connect_response v)) []
        (record {
          mem = wire_connect_response v;
          allocated = refl;
          size = refl;
          is_int = omega (arith, fits);
          fits = omega arith;
          ahead = sym (append-nil (wire_connect_response v));
        }) in
    record {
      left = record e.left {
        client = record e.left.client {
          session_id = v.session_id % int32_mod;
          session_timeout = v.time_out;
          passwd = v.passwd;
        };
      };
      returned =
          ap (auth_end host resp) e.returned
          ∙ ap (auth_read host e.left) r.returned
          ∙ ap (auth_adopt 0 v e.left) (
              ap (λ (c : ZkClient). adopt_passwd host c.passwd v.passwd) e.client
              ∙ adopt_passwd-same_length host w.client.passwd v.passwd g k k' same);
      client =
          ap
            (λ (c : ZkClient). record c {
              session_id = v.session_id % int32_mod;
              session_timeout = v.time_out;
              passwd = v.passwd;
            })
            e.client;
      sent = e.sent_all;
      behind = e.behind;
    }
