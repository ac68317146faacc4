-- ===== src/Request/Ping.antt =====
-- request.c: a ping that is answered.
use zkclient.Prelude.{
  ℕ, zero, suc, ◌+◌, ◌≤◌, ◌≡◌, refl, ap, ◌∙◌, List, [], ◌∷◌, ◌++◌, length, ne→==, arith,
}
use zkclient.Outcome.{Outcome, returns, skip}
use zkclient.Archive.{BuffStruct}
use zkclient.Archive.Invariant.{capacity}
use zkclient.Archive.Appends.{Writes-skip}
use zkclient.Archive.Loads.{IsGenerous}
use zkclient.Conn.{cr_read, cr_write}
use zkclient.Client.{World, set_last_err}
use zkclient.Jute.Header.{RequestHeader, ReplyHeader}
use zkclient.Jute.Header.Codec.{
  IsReplyHeader, wire_request_header, wire_reply_header, deserialize_reply_header-Loads,
}
use zkclient.Request.Stream.{IsPlain, stream}
use zkclient.Request.Writing.{IsSteady, room}
use zkclient.Request.Framing.{framed, IsReady}
use zkclient.Request.Reply.{input_of}
use zkclient.Request.Call.{MutexCall, Session, log_mutex, Context, request_xid}
use zkclient.Request.Operations.{header_end, header_exchange, do_header_request, ping_end, zk_ping}
use zkclient.Request.Answered.{build_request-Built, recv_sent-Exchanged, polled_once}
use zkclient.Request.Refused.{decoded}

header_end-returns :
    (s : Session) (err : ℕ) (ia : BuffStruct) (w : World)
    → header_end s (returns err (ia, w)) ≡ returns err (record s { world = w })
unfolding header_end
header_end-returns s zero ia w = refl
header_end-returns s (suc err) ia w = rw (ne→== (suc err) 0 (omega arith)) refl

-- The header of a ping: the number -2 and the opcode 11.
abbrev pub ping_header : RequestHeader
ping_header = record { xid = 4294967294; type = 11 }

-- The ping returned `err`, which the client notes; it took no number, sent its header alone, and
-- locked and unlocked the mutex.
pub record Pinged (s : Session) (o : Outcome Session) (err : ℕ) (rest : List ℕ) : Type 0 where
  pub left : Session
  pub returned : o ≡ returns err left
  pub xid : left.xid ≡ s.xid
  pub sent :
      left.world.net.sent ≡ s.world.net.sent ++ framed (wire_request_header ping_header ++ [])
  pub mutex : left.mutex ≡ s.mutex ++ MutexCall.lock ∷ [] ++ MutexCall.unlock ∷ []
  pub behind : stream left.world.net.reads ≡ rest
  pub last_err : left.world.client.last_err ≡ err

-- `zk_ping` on a connection without interruptions returns the error of the reply header, 0 included,
-- and notes it in the client. It takes no request number, sends the framed header with the number -2,
-- consumes the reply, and locks and unlocks the mutex once.
pub zk_ping-Pinged :
    (k : Context) (s : Session) (h : ReplyHeader) (reply rest : List ℕ)
    → IsGenerous k.host
    → length (wire_request_header ping_header ++ []) ≤ capacity
    → IsReady cr_write s.world.net
    → IsSteady s.world.net.writes
    → length (wire_request_header ping_header ++ []) + 4 ≤ room s.world.net.writes
    → IsReady cr_read (polled_once s.world).net
    → IsPlain s.world.net.reads
    → stream s.world.net.reads ≡ framed (wire_reply_header h ++ reply) ++ rest
    → length (wire_reply_header h ++ reply) ≤ capacity
    → IsReplyHeader h
    → Pinged s (zk_ping k s) h.err rest
unfolding zk_ping ping_end do_header_request header_exchange request_xid
zk_ping-Pinged k s h reply rest g small can_write steady enough can_read plain here fits good =
    let b = build_request-Built k.host 4294967294 11 skip [] g (omega arith) Writes-skip small in
    let e =
      recv_sent-Exchanged k.host s.world (wire_reply_header h ++ reply) rest g can_write steady
        can_read plain here fits _ _ b small enough in
    let ia = input_of (wire_reply_header h ++ reply) in
    let r = (deserialize_reply_header-Loads k.host h k.reply_header good).run ia reply (record {
      mem = wire_reply_header h ++ reply;
      allocated = refl;
      size = refl;
      is_int = omega (arith, fits);
      fits = omega arith;
      ahead = refl;
    }) in
    let s' : Session = log_mutex MutexCall.lock s in
    let w : World = set_last_err h.err e.left in
    record {
      left = log_mutex MutexCall.unlock (record s' { world = w });
      returned =
          ap (λ o. ping_end (header_exchange k s' o)) e.returned
          ∙ ap (λ o. ping_end (header_end s' o)) (decoded k e.left ia r.next h r.returned)
          ∙ ap ping_end (header_end-returns s' h.err r.next w);
      xid = refl;
      sent = e.sent_all;
      mutex = refl;
      behind = e.behind;
      last_err = refl;
    }
