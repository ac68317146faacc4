-- ===== src/Request/Refused.antt =====
-- request.c: a request that the server answers with an error.
use zkclient.Prelude.{
  ℕ, ◌+◌, ◌≤◌, ◌≡◌, ◌≢◌, refl, ap, ◌∙◌, false, Bool, some, List, [], ◌∷◌, ◌++◌, length, ne→==,
  arith,
}
use zkclient.Outcome.{Outcome, returns, Step}
use zkclient.Archive.{BuffStruct, Buffer}
use zkclient.Archive.Invariant.{capacity}
use zkclient.Archive.Appends.{Writes}
use zkclient.Archive.Wire.{IsText}
use zkclient.Archive.Loads.{IsGenerous}
use zkclient.Conn.{cr_read, cr_write}
use zkclient.Client.{World, set_last_err}
use zkclient.Jute.Header.{ReplyHeader, deserialize_reply_header}
use zkclient.Jute.Header.Codec.{
  IsRequestHeader, IsReplyHeader, wire_reply_header, deserialize_reply_header-Loads,
}
use zkclient.Jute.Data.{GetDataResponse}
use zkclient.Jute.Data.Codec.{wire_get_data_request, serialize_get_data_request-Writes}
use zkclient.Request.Stream.{IsPlain, stream}
use zkclient.Request.Writing.{IsSteady, room}
use zkclient.Request.Framing.{framed, IsReady}
use zkclient.Request.Reply.{input_of}
use zkclient.Request.Call.{
  MutexCall, Session, log_mutex, Context, Finish, decode_reply_header, read_header, after_exchange,
  request, request_xid, no_error,
}
use zkclient.Request.Operations.{zk_get, get_end}
use zkclient.Request.Answered.{build_request-Built, recv_sent-Exchanged, header_of, polled_once}
use zkclient.Request.Results.{numbered}

-- The operation returns the error of the server, which the client notes, and leaves `out` as it was.
-- After the lock there are two calls that unlock the mutex.
pub record Refused {ℓ} {A : Type ℓ} (s : Session) (first : MutexCall) (err : ℕ) (out : A)
    (o : Outcome (A × Session)) (rest : List ℕ) : Type ℓ where
  pub left : Session
  pub returned : o ≡ returns err (out, left)
  pub mutex : left.mutex ≡ s.mutex ++ first ∷ [] ++ MutexCall.unlock ∷ [] ++ MutexCall.unlock ∷ []
  pub behind : stream left.world.net.reads ≡ rest
  pub last_err : left.world.client.last_err ≡ err

pub decoded :
    (k : Context) (w : World) (ia next : BuffStruct) (h : ReplyHeader)
    → deserialize_reply_header k.host (k.reply_header, ia) ≡ returns 0 (h, next)
    → decode_reply_header k.host k.reply_header ia w ≡ returns h.err (next, set_last_err h.err w)
unfolding decode_reply_header
decoded k w ia next h e = rw (e, decode_reply_header) refl

refused_header {ℓ} :
    {A : Type ℓ} (tolerates : ℕ → Bool) (finish : Finish A) (out : A) (s : Session) (err : ℕ)
    (ia : BuffStruct) (w : World)
    → err ≢ 0
    → tolerates err ≡ false
    → read_header tolerates finish (out, s) (returns err (ia, w))
      ≡ returns err (out, log_mutex MutexCall.unlock (record s { world = w }))
unfolding read_header
refused_header tolerates finish out s err ia w h t = rw (ne→== err 0 h, t) refl

pub request-Refused {ℓ} :
    {A : Type ℓ} (k : Context) (opcode : ℕ) (first : MutexCall) (body : Step BuffStruct)
    (tolerates : ℕ → Bool) (finish : Finish A) (out : A) (s : Session) (bs : List ℕ)
    (h : ReplyHeader) (reply rest : List ℕ)
    → IsGenerous k.host
    → IsRequestHeader (header_of k opcode s)
    → Writes k.host body bs
    → length (numbered k opcode s bs) ≤ capacity
    → IsReady cr_write s.world.net
    → IsSteady s.world.net.writes
    → length (numbered k opcode s bs) + 4 ≤ room s.world.net.writes
    → IsReady cr_read (polled_once s.world).net
    → IsPlain s.world.net.reads
    → stream s.world.net.reads ≡ framed (wire_reply_header h ++ reply) ++ rest
    → length (wire_reply_header h ++ reply) ≤ capacity
    → IsReplyHeader h
    → h.err ≢ 0
    → tolerates h.err ≡ false
    → Refused s first h.err out (request k opcode first body tolerates finish (out, s)) rest
unfolding request after_exchange
request-Refused k opcode first body tolerates finish out s bs h reply rest g ok w small can_write
      steady enough can_read plain here fits good is_err refuses =
    let b =
      build_request-Built k.host (request_xid k.now opcode s.xid).0 opcode body bs g ok w small in
    let e =
      recv_sent-Exchanged k.host s.world (wire_reply_header h ++ reply) rest g can_write steady
        can_read plain here fits _ _ b small enough in
    let ia = input_of (wire_reply_header h ++ reply) in
    let r = (deserialize_reply_header-Loads k.host h k.reply_header good).run ia reply (record {
      mem = wire_reply_header h ++ reply;
      allocated = refl;
      size = refl;
      is_int = omega (arith, fits);
      fits = omega arith;
      ahead = refl;
    }) in
    let s' : Session = log_mutex first (record s { xid = (request_xid k.now opcode s.xid).1 }) in
    let s'' : Session = log_mutex MutexCall.unlock (record s' { world = e.left }) in
    record {
      left = log_mutex MutexCall.unlock (record s'' { world = set_last_err h.err e.left });
      returned =
          ap (after_exchange k tolerates finish (out, s')) e.returned
          ∙ ap (read_header tolerates finish (out, s'')) (decoded k e.left ia r.next h r.returned)
          ∙ refused_header tolerates finish out s'' h.err r.next (set_last_err h.err e.left) is_err
              refuses;
      mutex = refl;
      behind = e.behind;
      last_err = refl;
    }

-- `zk_get` whose request goes out and whose reply has an error in its header returns that error,
-- notes it in the client and does not touch its result, with the reply consumed. It unlocks the mutex
-- twice.
pub zk_get-Refused :
    (k : Context) (s : Session) (h : ReplyHeader) (path reply rest : List ℕ)
    (resp : GetDataResponse) (out : Buffer)
    → IsGenerous k.host
    → IsText (some path)
    → IsRequestHeader (header_of k 4 s)
    → length (numbered k 4 s (wire_get_data_request (record { path = some path; watch = 0 })))
      ≤ capacity
    → IsReady cr_write s.world.net
    → IsSteady s.world.net.writes
    → length (numbered k 4 s (wire_get_data_request (record { path = some path; watch = 0 }))) + 4
      ≤ room s.world.net.writes
    → IsReady cr_read (polled_once s.world).net
    → IsPlain s.world.net.reads
    → stream s.world.net.reads ≡ framed (wire_reply_header h ++ reply) ++ rest
    → length (wire_reply_header h ++ reply) ≤ capacity
    → IsReplyHeader h
    → h.err ≢ 0
    → Refused s MutexCall.lock h.err out (zk_get k resp (some path) (out, s)) rest
unfolding zk_get
zk_get-Refused k s h path reply rest resp out g text ok small can_write steady enough can_read plain
      here fits good is_err =
    request-Refused k 4 MutexCall.lock _ no_error (get_end k.host resp) out s _ h reply rest g ok
      (serialize_get_data_request-Writes k.host (record { path = some path; watch = 0 })
        (record { path = text; watch = omega arith }))
      small can_write steady enough can_read plain here fits good is_err refl
