-- ===== src/Request/Results/Children.antt =====
-- request.c: zk_get_children.
use zkclient.Prelude.{ℕ, ◌+◌, ◌≤◌, ◌≡◌, refl, some, List, [], ◌++◌, length, append-nil, arith}
use zkclient.Outcome.{returns}
use zkclient.Archive.{BuffStruct}
use zkclient.Archive.Invariant.{capacity}
use zkclient.Archive.Loads.{IsGenerous}
use zkclient.Archive.Wire.{IsText}
use zkclient.Conn.{cr_read, cr_write}
use zkclient.Jute.Header.{ReplyHeader}
use zkclient.Jute.Header.Codec.{IsRequestHeader, IsReplyHeader, wire_reply_header}
use zkclient.Jute.Watch.{StringVector}
use zkclient.Jute.Children.{GetChildrenResponse, deserialize_get_children_response}
use zkclient.Jute.Children.Codec.{
  wire_get_children_request, serialize_get_children_request-Writes, IsGetChildrenResponse,
  wire_get_children_response, deserialize_get_children_response-Loads,
}
use zkclient.Request.Stream.{IsPlain, stream}
use zkclient.Request.Writing.{IsSteady, room}
use zkclient.Request.Framing.{framed, IsReady}
use zkclient.Request.Call.{MutexCall, Session, Context, no_error}
use zkclient.Request.Operations.{zk_get_children, get_children_end}
use zkclient.Request.Answered.{request-Answered, header_of, polled_once}
use zkclient.Request.Results.{Result, finished, numbered}

ended :
    (k : Context) (resp v : GetChildrenResponse) (out : StringVector) (ia next : BuffStruct)
    (s : Session)
    → deserialize_get_children_response k.host (resp, ia) ≡ returns 0 (v, next)
    → get_children_end k.host resp 0 ia (out, s) ≡ returns 0 (v.children, s)
unfolding get_children_end
ended k resp v out ia next s e = rw (e, get_children_end) refl

module _ (k : Context) (s : Session) (h : ReplyHeader) (path rest : List ℕ) (g : IsGenerous k.host)
    (text : IsText (some path)) (can_write : IsReady cr_write s.world.net)
    (steady : IsSteady s.world.net.writes) (can_read : IsReady cr_read (polled_once s.world).net)
    (plain : IsPlain s.world.net.reads) (good : IsReplyHeader h) (no_err : h.err ≡ 0) where
  -- `zk_get_children` returns 0 with the children of the reply, in its order, where no call is interrupted, the socket takes the request, and what arrives is a reply
  -- header without an error and a well-formed GetChildrenResponse: it has sent exactly the framed request and read
  -- exactly the reply, and its calls on the mutex are a lock and an unlock.
  pub zk_get_children-Result :
      (resp v : GetChildrenResponse) (out : StringVector)
      → IsRequestHeader (header_of k 8 s)
      → length (numbered k 8 s (wire_get_children_request (record { path = some path; watch = 0 })))
        ≤ capacity
      → length (numbered k 8 s (wire_get_children_request (record { path = some path; watch = 0 })))
          + 4
        ≤ room s.world.net.writes
      → IsGetChildrenResponse v
      → stream s.world.net.reads
        ≡ framed (wire_reply_header h ++ wire_get_children_response v) ++ rest
      → length (wire_reply_header h ++ wire_get_children_response v) ≤ capacity
      → Result s
          (zk_get_children k resp (some path) (out, s))
          0
          v.children
          (numbered k 8 s (wire_get_children_request (record { path = some path; watch = 0 })))
          rest
  unfolding zk_get_children
  zk_get_children-Result resp v out ok small enough is_v here fits =
      let a =
        request-Answered k 8 MutexCall.lock _ no_error (get_children_end k.host resp) out s _ h
          (wire_get_children_response v) rest g ok
          (serialize_get_children_request-Writes k.host (record { path = some path; watch = 0 })
            (record { path = text; watch = omega arith }))
          small can_write steady enough can_read plain here fits good no_err in
      let r =
        (deserialize_get_children_response-Loads k.host v resp g is_v).run a.next []
          (rw (append-nil (wire_get_children_response v)) a.remains) in
      finished 0 v.children a (ended k resp v out a.next r.next a.left r.returned)
