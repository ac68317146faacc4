-- ===== src/Request/Reply.antt =====
-- request.c: `recv_response` takes one message off the socket, however its bytes arrive.
use zkclient.Prelude.{
  ℕ, ◌+◌, ◌-◌, ◌≤◌, ◌≡◌, refl, ap, ap₂, ◌∙◌, some, List, [], ◌++◌, length, take, drop, replicate,
  append_assoc, length-append, length-replicate, take-append_length, drop-append_length, arith,
}
use zkclient.CInt.{int_max, to_size, to_size-natural}
use zkclient.Outcome.{Outcome, returns, undefined}
use zkclient.Host.{Host, malloc}
use zkclient.Host.Bytes.{length-big_endian}
use zkclient.Archive.{BuffStruct}
use zkclient.Archive.Invariant.{IsArchive, written, capacity}
use zkclient.Archive.Loads.{IsGenerous}
use zkclient.Archive.Input.{create_buffer_iarchive}
use zkclient.Archive.Wire.{wire_int}
use zkclient.Conn.{cr_read, cr_write}
use zkclient.Client.{World}
use zkclient.Request.Socket.{Net, ReadEvent, read_end, read_socket}
use zkclient.Request.Reading.{read_loop-fills}
use zkclient.Request.Stream.{IsPlain, stream}
use zkclient.Request.Writing.{IsSteady, room}
use zkclient.Request.Framing.{
  send_request-Delivered, length-written, framed, IsReady, poll_socket-ready,
  decode_int32-big_endian,
}
use zkclient.Request.Frame.{
  send_request, recv_polled, recv_end, decode_int32, Response, into_some, read_into, recv_body,
  recv_response,
}

-- The archive that `create_buffer_iarchive` makes of a whole message.
abbrev pub input_of : List ℕ → BuffStruct
input_of bs = record { len = length bs; off = 0; buffer = some bs }

-- What `recv_response` leaves: the client as it was, and behind the message the rest of the stream.
pub record Received (w : World) (o : Response) (bytes rest : List ℕ) : Type 0 where
  pub left : World
  pub returned : o ≡ returns 0 (some (input_of bytes), left)
  pub client : left.client ≡ w.client
  pub sent : left.net.sent ≡ w.net.sent
  pub plain : IsPlain left.net.reads
  pub behind : stream left.net.reads ≡ rest

-- A call of `read_socket` for a part of the stream that will arrive.
record Part (net : Net) (o : Outcome (List ℕ × Net)) (bytes rest : List ℕ) : Type 0 where
  reads : List ReadEvent
  returned : o ≡ returns 0 (bytes, record net { reads = reads })
  plain : IsPlain reads
  behind : stream reads ≡ rest

read_socket-Part :
    (n : ℕ) (buf : List ℕ) (net : Net) (bytes rest : List ℕ)
    → IsPlain net.reads
    → stream net.reads ≡ bytes ++ rest
    → length buf ≡ n
    → length bytes ≡ n
    → n ≤ int_max
    → Part net (read_socket buf n net) bytes rest
unfolding read_socket
read_socket-Part n buf net bytes rest plain here size all is_int =
    let f =
      read_loop-fills net.reads n 0 buf plain size is_int (omega arith)
        (omega (arith, ap length here, length-append bytes rest)) in
    record {
      reads = f.left;
      returned = ap (read_end net) (f.returned ∙ ap (λ t. returns 0 (t, f.left)) front);
      plain = f.plain;
      behind = f.rest ∙ ap₂ (λ k t. drop k t) whole here ∙ drop-append_length n bytes rest all;
    }
  where
    whole : n - 0 ≡ n
    whole = omega arith

    front : take (n - 0) (stream net.reads) ≡ bytes
    front = ap₂ (λ k t. take k t) whole here ∙ take-append_length n bytes rest all

recv_end-Received :
    (host : Host) (w : World) (bs rest : List ℕ)
    → IsGenerous host
    → IsPlain w.net.reads
    → stream w.net.reads ≡ bs ++ rest
    → length bs ≤ int_max
    → Received w
        (recv_end host
          (length bs)
          w
          (read_into (malloc host (to_size (length bs))) (length bs) w.net))
        bs
        rest
unfolding recv_end read_into create_buffer_iarchive
recv_end-Received host w bs rest g plain here h =
    let p =
      read_socket-Part (length bs) (replicate (length bs) host.junk) w.net bs rest plain here
        (length-replicate _ _) refl h in
    record {
      left = record w { net = record w.net { reads = p.reads } };
      returned =
          ap (λ b. recv_end host (length bs) w (read_into b (length bs) w.net)) granted
          ∙ ap (λ o. recv_end host (length bs) w (into_some o)) p.returned
          ∙ rw (g 80 (omega arith)) (rw (g 16 (omega arith)) refl);
      client = refl;
      sent = refl;
      plain = p.plain;
      behind = p.behind;
    }
  where
    granted : malloc host (to_size (length bs)) ≡ some (replicate (length bs) host.junk)
    granted = unfold malloc in rw (to_size-natural (length bs) h, g (length bs) (omega arith)) refl

-- A client that reads from a stream on which a message arrives, whatever the pieces, takes exactly
-- that message off it.
pub recv_response-Received :
    (host : Host) (w : World) (bs rest : List ℕ)
    → IsGenerous host
    → IsReady cr_read w.net
    → IsPlain w.net.reads
    → stream w.net.reads ≡ framed bs ++ rest
    → length bs ≤ capacity
    → Received w (recv_response host w) bs rest
unfolding recv_response recv_polled recv_body
recv_response-Received host w bs rest g r plain here h =
    let net : Net = record w.net { polls = r.later } in
    let p =
      read_socket-Part 4 (replicate 4 host.junk) net (wire_int (length bs)) (bs ++ rest) plain
        (here ∙ append_assoc (wire_int (length bs)) bs rest) (length-replicate 4 host.junk) four
        (omega arith) in
    let w' : World = record w { net = record net { reads = p.reads } } in
    let e = recv_end-Received host w' bs rest g p.plain p.behind (omega arith) in
    record {
      left = e.left;
      returned =
          ap (recv_polled host w) (poll_socket-ready cr_read w.net r)
          ∙ ap (recv_body host (record w { net = net })) p.returned
          ∙ ap (λ n. recv_end host n w' (read_into (malloc host (to_size n)) n w'.net)) decoded
          ∙ e.returned;
      client = e.client;
      sent = e.sent;
      plain = e.plain;
      behind = e.behind;
    }
  where
    four : length (wire_int (length bs)) ≡ 4
    four = unfold wire_int in length-big_endian 4 (length bs)

    decoded : decode_int32 (wire_int (length bs)) 0 ≡ length bs
    decoded = unfold wire_int in decode_int32-big_endian (length bs) (omega arith)

-- What is on the wire after a call.
abbrev pub sent_by : Outcome World → List ℕ
sent_by undefined = []
sent_by (returns rc w) = w.net.sent

-- A message that `send_request` puts on an idle wire arrives at a peer whose `recv_response` makes
-- an archive of exactly the bytes that the sender had serialised. Neither the pieces in which the one
-- socket accepts the bytes nor those in which the other delivers them matter.
pub recv_response-send_request :
    (host : Host) (a : BuffStruct) (w peer : World) (rest : List ℕ)
    → IsGenerous host
    → IsArchive a
    → a.off ≤ capacity
    → IsReady cr_write w.net
    → IsSteady w.net.writes
    → a.off + 4 ≤ room w.net.writes
    → w.net.sent ≡ []
    → IsReady cr_read peer.net
    → IsPlain peer.net.reads
    → stream peer.net.reads ≡ sent_by (send_request host a w) ++ rest
    → Received peer (recv_response host peer) (written a) rest
recv_response-send_request host a w peer rest g ok small r steady enough idle r' plain here =
    recv_response-Received host peer (written a) rest g r' plain
      (here ∙ ap (λ t. t ++ rest) on_wire) (omega (arith, length-written host a ok small))
  where
    on_wire : sent_by (send_request host a w) ≡ framed (written a)
    on_wire =
        let d = send_request-Delivered host a w g ok small r steady enough in
        ap sent_by d.returned ∙ d.sent ∙ ap (λ t. t ++ framed (written a)) idle
