-- ===== src/Request/Results/Set.antt =====
-- request.c: zk_set.
use zkclient.Prelude.{ℕ, ◌+◌, ◌≤◌, ◌≡◌, refl, some, List, [], ◌++◌, length, append-nil, arith}
use zkclient.Outcome.{returns}
use zkclient.Archive.{BuffStruct, Buffer}
use zkclient.Archive.Invariant.{capacity}
use zkclient.Archive.Loads.{IsGenerous}
use zkclient.Archive.Wire.{IsText, IsBuffer}
use zkclient.Conn.{cr_read, cr_write}
use zkclient.Jute.Header.{ReplyHeader}
use zkclient.Jute.Header.Codec.{IsRequestHeader, IsReplyHeader, wire_reply_header}
use zkclient.Jute.Data.{SetDataResponse, deserialize_set_data_response}
use zkclient.Jute.Data.Codec.{
  wire_set_data_request, serialize_set_data_request-Writes, IsSetDataResponse,
  wire_set_data_response, deserialize_set_data_response-Loads,
}
use zkclient.Request.Stream.{IsPlain, stream}
use zkclient.Request.Writing.{IsSteady, room}
use zkclient.Request.Framing.{framed, IsReady}
use zkclient.Request.Call.{MutexCall, Session, Context, no_error}
use zkclient.Request.Operations.{zk_set, set_end}
use zkclient.Request.Answered.{request-Answered, header_of, polled_once}
use zkclient.Request.Results.{Result, finished, numbered}

ended :
    (k : Context) (resp v : SetDataResponse) (ia next : BuffStruct) (s : Session)
    → deserialize_set_data_response k.host (resp, ia) ≡ returns 0 (v, next)
    → set_end k.host resp 0 ia (tt, s) ≡ returns 0 (tt, s)
unfolding set_end
ended k resp v ia next s e = rw (e, set_end) refl

module _ (k : Context) (s : Session) (h : ReplyHeader) (path rest : List ℕ) (g : IsGenerous k.host)
    (text : IsText (some path)) (can_write : IsReady cr_write s.world.net)
    (steady : IsSteady s.world.net.writes) (can_read : IsReady cr_read (polled_once s.world).net)
    (plain : IsPlain s.world.net.reads) (good : IsReplyHeader h) (no_err : h.err ≡ 0) where
  -- `zk_set` returns 0, where no call is interrupted, the socket takes the request, and what arrives is a reply
  -- header without an error and a well-formed SetDataResponse: it has sent exactly the framed request and read
  -- exactly the reply, and its calls on the mutex are a lock and an unlock.
  pub zk_set-Result :
      (resp v : SetDataResponse) (value : Buffer)
      → IsBuffer value
      → IsRequestHeader (header_of k 5 s)
      → length (
          numbered k 5 s (
            wire_set_data_request
              (record { path = some path; data_buffer = value; version = 4294967295 })))
        ≤ capacity
      → length (
            numbered k 5 s (
              wire_set_data_request
                (record { path = some path; data_buffer = value; version = 4294967295 })))
          + 4
        ≤ room s.world.net.writes
      → IsSetDataResponse v
      → stream s.world.net.reads ≡ framed (wire_reply_header h ++ wire_set_data_response v) ++ rest
      → length (wire_reply_header h ++ wire_set_data_response v) ≤ capacity
      → Result s
          (zk_set k resp (some path) value (tt, s))
          0
          tt
          (numbered k 5 s (
            wire_set_data_request
              (record { path = some path; data_buffer = value; version = 4294967295 })))
          rest
  unfolding zk_set
  zk_set-Result resp v value sendable ok small enough is_v here fits =
      let a =
        request-Answered k 5 MutexCall.lock _ no_error (set_end k.host resp) tt s _ h
          (wire_set_data_response v) rest g ok
          (serialize_set_data_request-Writes k.host
            (record { path = some path; data_buffer = value; version = 4294967295 })
            (record { path = text; data_buffer = sendable; version = omega arith }))
          small can_write steady enough can_read plain here fits good no_err in
      let r =
        (deserialize_set_data_response-Loads k.host v resp is_v).run a.next []
          (rw (append-nil (wire_set_data_response v)) a.remains) in
      finished 0 tt a (ended k resp v a.next r.next a.left r.returned)
