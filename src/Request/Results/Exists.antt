-- ===== src/Request/Results/Exists.antt =====
-- request.c: zk_exists.
use zkclient.Prelude.{ℕ, ◌+◌, ◌≤◌, ◌≡◌, refl, some, List, [], ◌++◌, length, append-nil, ◌==◌, arith}
use zkclient.Outcome.{returns}
use zkclient.Archive.{BuffStruct}
use zkclient.Archive.Invariant.{capacity}
use zkclient.Archive.Loads.{IsGenerous}
use zkclient.Archive.Wire.{IsText}
use zkclient.Conn.{cr_read, cr_write}
use zkclient.Jute.Header.{ReplyHeader}
use zkclient.Jute.Header.Codec.{IsRequestHeader, IsReplyHeader, wire_reply_header}
use zkclient.Jute.Stat.{Stat}
use zkclient.Jute.Exists.{ExistsResponse, deserialize_exists_response}
use zkclient.Jute.Exists.Codec.{
  wire_exists_request, serialize_exists_request-Writes, IsExistsResponse, wire_exists_response,
  deserialize_exists_response-Loads,
}
use zkclient.Request.Stream.{IsPlain, stream}
use zkclient.Request.Writing.{IsSteady, room}
use zkclient.Request.Framing.{framed, IsReady}
use zkclient.Request.Call.{MutexCall, Session, Context}
use zkclient.Request.Operations.{zk_exists, exists_end, znonode}
use zkclient.Request.Answered.{request-Answered, header_of, polled_once}
use zkclient.Request.Results.{Result, finished, numbered}

ended :
    (k : Context) (resp v : ExistsResponse) (out : Stat) (ia next : BuffStruct) (s : Session)
    → deserialize_exists_response k.host (resp, ia) ≡ returns 0 (v, next)
    → exists_end k.host resp 0 ia (out, s) ≡ returns 1 (v.stat, s)
unfolding exists_end
ended k resp v out ia next s e = rw (e, exists_end) refl

module _ (k : Context) (s : Session) (h : ReplyHeader) (path rest : List ℕ) (g : IsGenerous k.host)
    (text : IsText (some path)) (can_write : IsReady cr_write s.world.net)
    (steady : IsSteady s.world.net.writes) (can_read : IsReady cr_read (polled_once s.world).net)
    (plain : IsPlain s.world.net.reads) (good : IsReplyHeader h) (no_err : h.err ≡ 0) where
  -- `zk_exists` returns 1 with the status of the reply, where no call is interrupted, the socket takes the request, and what arrives is a reply
  -- header without an error and a well-formed ExistsResponse: it has sent exactly the framed request and read
  -- exactly the reply, and its calls on the mutex are a lock and an unlock.
  pub zk_exists-Result :
      (resp v : ExistsResponse) (out : Stat)
      → IsRequestHeader (header_of k 3 s)
      → length (numbered k 3 s (wire_exists_request (record { path = some path; watch = 0 })))
        ≤ capacity
      → length (numbered k 3 s (wire_exists_request (record { path = some path; watch = 0 }))) + 4
        ≤ room s.world.net.writes
      → IsExistsResponse v
      → stream s.world.net.reads ≡ framed (wire_reply_header h ++ wire_exists_response v) ++ rest
      → length (wire_reply_header h ++ wire_exists_response v) ≤ capacity
      → Result s
          (zk_exists k resp (some path) (out, s))
          1
          v.stat
          (numbered k 3 s (wire_exists_request (record { path = some path; watch = 0 })))
          rest
  unfolding zk_exists
  zk_exists-Result resp v out ok small enough is_v here fits =
      let a =
        request-Answered k 3 MutexCall.lock _ (λ err. err == znonode) (exists_end k.host resp) out s
          _ h (wire_exists_response v) rest g ok
          (serialize_exists_request-Writes k.host (record { path = some path; watch = 0 })
            (record { path = text; watch = omega arith }))
          small can_write steady enough can_read plain here fits good no_err in
      let r =
        (deserialize_exists_response-Loads k.host v resp is_v).run a.next []
          (rw (append-nil (wire_exists_response v)) a.remains) in
      finished 1 v.stat a (ended k resp v out a.next r.next a.left r.returned)
