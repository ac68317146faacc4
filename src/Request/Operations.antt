-- ===== src/Request/Operations.antt =====
-- request.c: the operations of the client. The client is no null pointer, and neither are the places
-- for a result and the buffer of zk_set; a null path is an error. `close` on the socket is left out.
use zkclient.Prelude.{ℕ, Option, none, some, List, [], ◌∷◌, ◌==◌, if◌then◌else◌}
use zkclient.CInt.{is_negative, int_lt}
use zkclient.Outcome.{Outcome, returns, undefined, skip}
use zkclient.Host.{Host}
use zkclient.Archive.{BuffStruct, Buffer, CString}
use zkclient.Conn.{zk_ok, zk_error}
use zkclient.Jute.Acl.{AclVector}
use zkclient.Jute.Stat.{Stat}
use zkclient.Jute.Watch.{StringVector}
use zkclient.Jute.Node.{
  serialize_create_request, CreateResponse, deserialize_create_response, serialize_delete_request,
}
use zkclient.Jute.Data.{
  serialize_get_data_request, GetDataResponse, deserialize_get_data_response,
  serialize_set_data_request, SetDataResponse, deserialize_set_data_response,
}
use zkclient.Jute.Exists.{serialize_exists_request, ExistsResponse, deserialize_exists_response}
use zkclient.Jute.Children.{
  serialize_get_children_request, GetChildrenResponse, deserialize_get_children_response,
}
use zkclient.Client.{World}
use zkclient.Request.Frame.{Response}
use zkclient.Request.Call.{
  MutexCall, Session, log_mutex, Operation, Context, Finish, request, no_error, request_xid,
  recv_sent, send_built, build_request, decode_reply_header,
}

-- -101.
abbrev pub znonode : ℕ
znonode = 4294967195

-- The end of zk_get: where the reply cannot be read, the label ERROR returns the error of the header,
-- which is 0 here. `resp` is what the variable holds before it is read.
unfoldable pub get_end : Host → GetDataResponse → Finish Buffer
get_end host resp err ia (out, s) = elim (deserialize_get_data_response host (resp, ia)) [
  | undefined ↦ undefined
  | returns rc r ↦
      if is_negative rc
      then returns err (out, log_mutex MutexCall.unlock s)
      else returns zk_ok (r.0.data_buffer, s)
]

unfoldable pub zk_get : Context → GetDataResponse → CString → Operation Buffer
zk_get k resp none m = returns zk_error m
zk_get k resp (some path) m =
    request k 4 MutexCall.lock
      (serialize_get_data_request k.host (record { path = some path; watch = 0 })) no_error
      (get_end k.host resp) m

unfoldable pub get_children_end : Host → GetChildrenResponse → Finish StringVector
get_children_end host resp err ia (children, s) =
    elim (deserialize_get_children_response host (resp, ia)) [
      | undefined ↦ undefined
      | returns rc r ↦
          if is_negative rc
          then returns err (children, log_mutex MutexCall.unlock s)
          else returns zk_ok (r.0.children, s)
    ]

unfoldable pub zk_get_children : Context → GetChildrenResponse → CString → Operation StringVector
zk_get_children k resp none m = returns zk_error m
zk_get_children k resp (some path) m =
    request k 8 MutexCall.lock
      (serialize_get_children_request k.host (record { path = some path; watch = 0 })) no_error
      (get_children_end k.host resp) m

unfoldable pub set_end : Host → SetDataResponse → Finish {0} Unit
set_end host resp err ia (out, s) = elim (deserialize_set_data_response host (resp, ia)) [
  | undefined ↦ undefined
  | returns rc r ↦ returns (if is_negative rc then zk_error else zk_ok) (out, s)
]

-- The version -1 is that of any node.
unfoldable pub zk_set : Context → SetDataResponse → CString → Buffer → Operation {0} Unit
zk_set k resp none value m = returns zk_error m
zk_set k resp (some path) value m =
    request k 5 MutexCall.lock
      (serialize_set_data_request k.host
        (record { path = some path; data_buffer = value; version = 4294967295 }))
      no_error (set_end k.host resp) m

-- The deletion unlocks the mutex where the others lock it.
unfoldable pub zk_del : Context → CString → Operation {0} Unit
zk_del k none m = returns zk_error m
zk_del k (some path) m =
    request k 2 MutexCall.unlock
      (serialize_delete_request k.host (record { path = some path; version = 4294967295 })) no_error
      (λ err ia out. returns zk_ok out) m

-- The result of the read of the reply is dropped.
unfoldable pub exists_end : Host → ExistsResponse → Finish Stat
exists_end host resp err ia (stat, s) =
    if err == znonode
    then returns 0 (stat, s)
    else elim (deserialize_exists_response host (resp, ia)) [
      | undefined ↦ undefined
      | returns rc r ↦ returns 1 (r.0.stat, s)
    ]

unfoldable pub zk_exists : Context → ExistsResponse → CString → Operation Stat
zk_exists k resp none m = returns zk_error m
zk_exists k resp (some path) m =
    request k 3 MutexCall.lock
      (serialize_exists_request k.host (record { path = some path; watch = 0 }))
      (λ err. err == znonode) (exists_end k.host resp) m

unfoldable pub zk_stat : Context → ExistsResponse → CString → Operation Stat
zk_stat k resp path m = elim (zk_exists k resp path m) [
  | undefined ↦ undefined
  | returns rc m' ↦ returns (if rc == 1 then zk_ok else rc) m'
]

-- "world" and "anyone", with all permissions.
abbrev pub default_acl : AclVector
default_acl = record {
  count = 1;
  items =
      (record {
        perms = 31;
        id = record {
          scheme = some (b'w' ∷ b'o' ∷ b'r' ∷ b'l' ∷ b'd' ∷ []);
          id = some (b'a' ∷ b'n' ∷ b'y' ∷ b'o' ∷ b'n' ∷ b'e' ∷ []);
        };
      })
      ∷ [];
}

-- The pointer of an empty value is not set, and no byte is read through it.
unfoldable pub create_value : Option (List ℕ) → ℕ → Buffer
create_value none size = record { len = 0; buff = none }
create_value (some mem) size =
    if int_lt 0 size
    then record { len = size; buff = some mem }
    else record { len = 0; buff = none }

unfoldable pub create_end : Host → CreateResponse → Finish {0} Unit
create_end host resp err ia (out, s) = elim (deserialize_create_response host (resp, ia)) [
  | undefined ↦ undefined
  | returns rc r ↦ returns (if is_negative rc then zk_error else zk_ok) (out, s)
]

unfoldable pub zk_create :
    Context → CreateResponse → CString → Option (List ℕ) → ℕ → ℕ → Operation {0} Unit
zk_create k resp none value size flags m = returns zk_error m
zk_create k resp (some path) value size flags m =
    request k 1 MutexCall.lock
      (serialize_create_request k.host (record {
        path = some path;
        data_buffer = create_value value size;
        acl = default_acl;
        flags = flags;
      }))
      no_error (create_end k.host resp) m

-- The end of `do_header_request`: the error of the reply header, or 0.
unfoldable pub header_end : Session → Outcome (BuffStruct × World) → Outcome Session
header_end s undefined = undefined
header_end s (returns err (ia, w)) =
    let s' : Session = record s { world = w } in
    if err == 0 then returns zk_ok s' else returns err s'

unfoldable pub header_exchange : Context → Session → Response → Outcome Session
header_exchange k s undefined = undefined
header_exchange k s (returns err (none, w)) = returns err (record s { world = w })
header_exchange k s (returns err (some ia, w)) =
    header_end s (decode_reply_header k.host k.reply_header ia w)

-- A request that is a header alone.
unfoldable pub do_header_request : Context → ℕ → Session → Outcome Session
do_header_request k opcode s =
    let x = request_xid k.now opcode s.xid in
    header_exchange k (record s { xid = x.1 })
      (recv_sent k.host (send_built k.host s.world (build_request k.host x.0 opcode skip)))

-- The unlock and the return of `zk_ping`.
unfoldable pub ping_end : Outcome Session → Outcome Session
ping_end undefined = undefined
ping_end (returns rc s) = returns rc (log_mutex MutexCall.unlock s)

unfoldable pub zk_ping : Context → Session → Outcome Session
zk_ping k s = ping_end (do_header_request k 11 (log_mutex MutexCall.lock s))

-- The opcode is -11.
unfoldable pub zk_close : Context → Session → Outcome Session
zk_close k s = do_header_request k 4294967285 s
