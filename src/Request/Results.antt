-- ===== src/Request/Results.antt =====
-- request.c: what the operations return when the server answers them without an error.
pub mod Get
pub mod Children
pub mod Exists
pub mod Set
use zkclient.Prelude.{
  ℕ, ◌+◌, ◌≤◌, ◌≡◌, refl, ap, ◌∙◌, some, List, [], ◌∷◌, ◌++◌, length, append-nil, arith,
}
use zkclient.Outcome.{Outcome, returns}
use zkclient.Host.{Host}
use zkclient.Archive.{BuffStruct, Buffer}
use zkclient.Archive.Invariant.{capacity}
use zkclient.Archive.Loads.{Loads, Remains, Reads, IsGenerous}
use zkclient.Archive.Wire.{IsText, IsBuffer}
use zkclient.Conn.{cr_read, cr_write}
use zkclient.Jute.Header.{ReplyHeader}
use zkclient.Jute.Header.Codec.{
  IsRequestHeader, IsReplyHeader, wire_request_header, wire_reply_header,
}
use zkclient.Jute.Stat.{Stat}
use zkclient.Jute.Watch.{StringVector}
use zkclient.Jute.Data.{
  GetDataResponse, SetDataResponse, deserialize_get_data_response, deserialize_set_data_response,
}
use zkclient.Jute.Data.Codec.{
  wire_get_data_request, serialize_get_data_request-Writes, IsGetDataResponse,
  wire_get_data_response, deserialize_get_data_response-Loads, wire_set_data_request,
  serialize_set_data_request-Writes, IsSetDataResponse, wire_set_data_response,
  deserialize_set_data_response-Loads,
}
use zkclient.Jute.Exists.{ExistsResponse, deserialize_exists_response}
use zkclient.Jute.Exists.Codec.{
  wire_exists_request, serialize_exists_request-Writes, IsExistsResponse, wire_exists_response,
  deserialize_exists_response-Loads,
}
use zkclient.Jute.Children.{GetChildrenResponse, deserialize_get_children_response}
use zkclient.Jute.Children.Codec.{
  wire_get_children_request, serialize_get_children_request-Writes, IsGetChildrenResponse,
  wire_get_children_response, deserialize_get_children_response-Loads,
}
use zkclient.Request.Stream.{IsPlain, stream}
use zkclient.Request.Writing.{IsSteady, room}
use zkclient.Request.Framing.{framed, IsReady}
use zkclient.Request.Call.{MutexCall, Session, Context, Finish, no_error}
use zkclient.Request.Operations.{
  zk_get, get_end, zk_set, set_end, zk_exists, exists_end, zk_get_children, get_children_end,
  znonode,
}
use zkclient.Request.Answered.{Answered, request-Answered, header_of, polled_once}

-- The operation returns `rc` and has written `value`; it sent one request with the record `bs`, and
-- took one reply off the stream; it locked the mutex and unlocked it again.
pub record Result {ℓ} {A : Type ℓ} (s : Session) (o : Outcome (A × Session)) (rc : ℕ) (value : A)
    (request rest : List ℕ) : Type ℓ where
  pub left : Session
  pub returned : o ≡ returns rc (value, left)
  pub sent : left.world.net.sent ≡ s.world.net.sent ++ framed request
  pub mutex : left.mutex ≡ s.mutex ++ MutexCall.lock ∷ [] ++ MutexCall.unlock ∷ []
  pub behind : stream left.world.net.reads ≡ rest
  pub last_err : left.world.client.last_err ≡ 0

pub finished {ℓ} :
    {A : Type ℓ} {k : Context} {opcode : ℕ} {finish : Finish A} {out : A} {s : Session}
    {o : Outcome (A × Session)} {bs body rest : List ℕ} (rc : ℕ) (value : A)
    → (a : Answered k opcode MutexCall.lock finish out s o bs body rest)
    → finish 0 a.next (out, a.left) ≡ returns rc (value, a.left)
    → Result s o rc value bs rest
finished rc value a e = record {
  left = a.left;
  returned = a.returned ∙ e;
  sent = a.sent;
  mutex = a.mutex;
  behind = a.behind;
  last_err = a.last_err;
}

-- The bytes of a request of the session: its header and the record `bs`.
abbrev pub numbered : Context → ℕ → Session → List ℕ → List ℕ
numbered k opcode s bs = wire_request_header (header_of k opcode s) ++ bs
