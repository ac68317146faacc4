-- ===== src/Request/Answered.antt =====
-- request.c: a request whose reply arrives.
use zkclient.Prelude.{
  ℕ, ◌+◌, ◌≤◌, ◌≡◌, refl, ap, ◌∙◌, Bool, some, List, [], ◌∷◌, ◌++◌, length, drop, arith,
}
use zkclient.Outcome.{Outcome, returns, Step}
use zkclient.Host.{Host}
use zkclient.Archive.{BuffStruct}
use zkclient.Archive.Invariant.{IsArchive, Appends, appended, no_memory, written, capacity}
use zkclient.Archive.Appends.{Writes, Writes-checked}
use zkclient.Archive.Loads.{Remains, IsGenerous}
use zkclient.Jute.Transfer.{fresh, fresh-IsArchive, create_buffer_oarchive-fresh}
use zkclient.Jute.Header.{RequestHeader, ReplyHeader, deserialize_reply_header}
use zkclient.Jute.Header.Codec.{
  IsRequestHeader, IsReplyHeader, wire_request_header, wire_reply_header,
  serialize_request_header-Writes, deserialize_reply_header-Loads,
}
use zkclient.Conn.{cr_read, cr_write}
use zkclient.Client.{World, set_last_err}
use zkclient.Request.Stream.{IsPlain, stream}
use zkclient.Request.Writing.{IsSteady, room}
use zkclient.Request.Framing.{framed, IsReady, send_request-Delivered}
use zkclient.Request.Reply.{input_of, recv_response-Received}
use zkclient.Request.Frame.{Response}
use zkclient.Request.Call.{
  MutexCall, Session, log_mutex, Context, Finish, add_request_header, build_request, send_built,
  take_response, recv_sent, decode_reply_header, read_header, after_exchange, request, request_xid,
}

-- The archive of a request holds the wire form of its header and its record.
pub record Built (o : Outcome BuffStruct) (bs : List ℕ) : Type 0 where
  pub oa : BuffStruct
  pub returned : o ≡ returns 0 oa
  pub is_archive : IsArchive oa
  pub off : oa.off ≡ length bs
  pub bytes : written oa ≡ bs

pub built :
    (host : Host) (o : Outcome BuffStruct) (bs : List ℕ)
    → IsGenerous host
    → Appends host (fresh host) bs o
    → Built o bs
built host o bs g (appended a' e ok off all) = record {
  oa = a';
  returned = e;
  is_archive = ok;
  off = omega (arith, off);
  bytes = all;
}
built host o bs g (no_memory a' n e small refusal) = absurd (cc (refusal, g n (omega arith)))

pub build_request-Built :
    (host : Host) (xid opcode : ℕ) (body : Step BuffStruct) (bs : List ℕ)
    → IsGenerous host
    → IsRequestHeader (record { xid = xid; type = opcode })
    → Writes host body bs
    → length (wire_request_header (record { xid = xid; type = opcode }) ++ bs) ≤ capacity
    → Built
        (build_request host xid opcode body)
        (wire_request_header (record { xid = xid; type = opcode }) ++ bs)
unfolding build_request add_request_header
build_request-Built host xid opcode body bs g h w fits =
    rw (create_buffer_oarchive-fresh host g, build_request)
      (built host _ _ g (
        (Writes-checked
            (serialize_request_header-Writes host (record { xid = xid; type = opcode }) h) w).run
          (fresh host) (fresh-IsArchive host) (omega arith)))

-- The request went out, and the reply came in.
pub record Exchanged (w : World) (o : Response) (sent reply rest : List ℕ) : Type 0 where
  pub left : World
  pub returned : o ≡ returns 0 (some (input_of reply), left)
  pub client : left.client ≡ w.client
  pub sent_all : left.net.sent ≡ w.net.sent ++ framed sent
  pub behind : stream left.net.reads ≡ rest

-- The net after the first poll.
abbrev pub polled_once : World → World
polled_once w = record w { net = record w.net { polls = drop 1 w.net.polls } }

module _ (host : Host) (w : World) (reply rest : List ℕ) (g : IsGenerous host)
    (can_write : IsReady cr_write w.net) (steady : IsSteady w.net.writes)
    (can_read : IsReady cr_read (polled_once w).net) (plain : IsPlain w.net.reads)
    (here : stream w.net.reads ≡ framed reply ++ rest) (fits : length reply ≤ capacity) where
  pub recv_sent-Exchanged :
      (o : Outcome BuffStruct) (bs : List ℕ)
      → Built o bs
      → length bs ≤ capacity
      → length bs + 4 ≤ room w.net.writes
      → Exchanged w (recv_sent host (send_built host w o)) bs reply rest
  unfolding recv_sent send_built take_response
  recv_sent-Exchanged o bs b small enough =
      let d =
        send_request-Delivered host b.oa w g b.is_archive (omega (arith, b.off)) can_write steady
          (omega (arith, b.off)) in
      let ready : IsReady cr_read d.left.net = record {
        first = can_read.first;
        later = can_read.later;
        polls = d.polls ∙ can_read.polls;
        ready = can_read.ready;
      } in
      let r =
        recv_response-Received host d.left reply rest g ready (rw d.reads plain)
          (ap stream d.reads ∙ here) fits in
      record {
        left = r.left;
        returned =
            ap (λ t. recv_sent host (send_built host w t)) b.returned
            ∙ ap (recv_sent host) d.returned
            ∙ ap take_response r.returned;
        client = r.client ∙ d.client;
        sent_all = r.sent ∙ d.sent ∙ ap (λ t. w.net.sent ++ framed t) b.bytes;
        behind = r.behind;
      }

-- What a request comes to when the server answers it without an error: its end reads the rest of
-- the reply.
pub record Answered {ℓ} {A : Type ℓ} (k : Context) (opcode : ℕ) (first : MutexCall)
    (finish : Finish A) (out : A) (s : Session) (o : Outcome (A × Session)) (bs body rest : List ℕ)
    : Type ℓ where
  pub next : BuffStruct
  pub left : Session
  pub returned : o ≡ finish 0 next (out, left)
  pub remains : Remains next body
  pub sent : left.world.net.sent ≡ s.world.net.sent ++ framed bs
  pub mutex : left.mutex ≡ s.mutex ++ first ∷ [] ++ MutexCall.unlock ∷ []
  pub behind : stream left.world.net.reads ≡ rest
  pub last_err : left.world.client.last_err ≡ 0

-- The header that a request of the session gets.
abbrev pub header_of : Context → ℕ → Session → RequestHeader
header_of k opcode s = record { xid = (request_xid k.now opcode s.xid).0; type = opcode }

pub request-Answered {ℓ} :
    {A : Type ℓ} (k : Context) (opcode : ℕ) (first : MutexCall) (body : Step BuffStruct)
    (tolerates : ℕ → Bool) (finish : Finish A) (out : A) (s : Session) (bs : List ℕ)
    (h : ReplyHeader) (reply rest : List ℕ)
    → IsGenerous k.host
    → IsRequestHeader (header_of k opcode s)
    → Writes k.host body bs
    → length (wire_request_header (header_of k opcode s) ++ bs) ≤ capacity
    → IsReady cr_write s.world.net
    → IsSteady s.world.net.writes
    → length (wire_request_header (header_of k opcode s) ++ bs) + 4 ≤ room s.world.net.writes
    → IsReady cr_read (polled_once s.world).net
    → IsPlain s.world.net.reads
    → stream s.world.net.reads ≡ framed (wire_reply_header h ++ reply) ++ rest
    → length (wire_reply_header h ++ reply) ≤ capacity
    → IsReplyHeader h
    → h.err ≡ 0
    → Answered k opcode first finish out s
        (request k opcode first body tolerates finish (out, s))
        (wire_request_header (header_of k opcode s) ++ bs)
        reply
        rest
unfolding request after_exchange decode_reply_header read_header
request-Answered k opcode first body tolerates finish out s bs h reply rest g ok w small can_write
      steady enough can_read plain here fits good no_err =
    let b =
      build_request-Built k.host (request_xid k.now opcode s.xid).0 opcode body bs g ok w small in
    let e =
      recv_sent-Exchanged k.host s.world (wire_reply_header h ++ reply) rest g can_write steady
        can_read plain here fits _ _ b small enough in
    let r =
      (deserialize_reply_header-Loads k.host h k.reply_header good).run
        (input_of (wire_reply_header h ++ reply)) reply
        (record {
          mem = wire_reply_header h ++ reply;
          allocated = refl;
          size = refl;
          is_int = omega (arith, fits);
          fits = omega arith;
          ahead = refl;
        }) in
    let s' : Session = log_mutex first (record s { xid = (request_xid k.now opcode s.xid).1 }) in
    let s'' : Session = log_mutex MutexCall.unlock (record s' { world = e.left }) in
    record {
      next = r.next;
      left = record s'' { world = set_last_err 0 e.left };
      returned =
          ap (after_exchange k tolerates finish (out, s')) e.returned
          ∙ ap (read_header tolerates finish (out, s'')) (
              decoded k e.left (input_of (wire_reply_header h ++ reply)) r.next h r.returned
                no_err);
      remains = r.remains;
      sent = e.sent_all;
      mutex = refl;
      behind = e.behind;
      last_err = refl;
    }
  where
    decoded :
        (k : Context) (w : World) (ia next : BuffStruct) (h : ReplyHeader)
        → deserialize_reply_header k.host (k.reply_header, ia) ≡ returns 0 (h, next)
        → h.err ≡ 0
        → decode_reply_header k.host k.reply_header ia w ≡ returns 0 (next, set_last_err 0 w)
    decoded k w ia next h e z =
        rw (e, decode_reply_header) (ap (λ err. returns err (next, set_last_err err w)) z)
