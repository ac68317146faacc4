-- ===== src/Request/Authenticate.antt =====
-- request.c: `authenticate`, the handshake of a session on a new connection.
use zkclient.Prelude.{ℕ, ◌%◌, Option, none, some, List, ◌==◌, if◌then◌else◌}
use zkclient.CInt.{is_negative, int32_mod, to_size}
use zkclient.Outcome.{Outcome, returns, undefined, Step}
use zkclient.Host.{Host, malloc, store}
use zkclient.Archive.{BuffStruct, Buffer}
use zkclient.Archive.Output.{create_buffer_oarchive, read_bytes}
use zkclient.Client.{ZkClient, World}
use zkclient.Conn.{zk_ok}
use zkclient.Jute.Connect.{
  ConnectRequest, serialize_connect_request, ConnectResponse, deserialize_connect_response,
}
use zkclient.Request.Frame.{Response}
use zkclient.Request.Call.{send_built, recv_sent}
use zkclient.Util.Split.{same_bytes}

-- The two `int`s of the client become `int64_t`s.
unfoldable pub connect_request : ZkClient → ConnectRequest
connect_request c = record {
  protocol_version = 0;
  last_zxid_seen = to_size c.last_zxid;
  time_out = c.session_timeout;
  session_id = to_size c.session_id;
  passwd = c.passwd;
}

unfoldable pub build_connect_request : Host → ZkClient → Outcome BuffStruct
build_connect_request host c = elim (create_buffer_oarchive host) [
  | none ↦ undefined
  | some oa ↦ serialize_connect_request host (connect_request c) oa
]

-- The new password: as many bytes of it are copied as the old one has. `none` is an access outside of
-- an allocation.
unfoldable pub copy_passwd : ℕ → ℕ → Option (List ℕ) → Option (List ℕ) → Option Buffer
copy_passwd old_len len none bytes = none
copy_passwd old_len len (some bytes) none =
    if old_len == 0 then some (record { len = len; buff = none }) else none
copy_passwd old_len len (some bytes) (some mem) = elim (store mem 0 bytes) [
  | none ↦ none
  | some mem' ↦ some (record { len = len; buff = some mem' })
]

unfoldable pub replace_passwd : Host → Buffer → Buffer → Option Buffer
replace_passwd host old new =
    copy_passwd old.len new.len (read_bytes new.buff (to_size old.len))
      (malloc host (to_size new.len))

-- `memcmp` of the two passwords, where they have the same length.
unfoldable pub compare_passwd :
    Host → Buffer → Buffer → Option (List ℕ) → Option (List ℕ) → Option Buffer
compare_passwd host old new (some a) (some b) =
    if same_bytes a b then some old else replace_passwd host old new
compare_passwd host old new _ _ = none

unfoldable pub adopt_passwd : Host → Buffer → Buffer → Option Buffer
adopt_passwd host old new =
    if old.len == new.len
    then compare_passwd host old new (read_bytes old.buff (to_size old.len))
        (read_bytes new.buff (to_size old.len))
    else replace_passwd host old new

unfoldable pub auth_adopt : ℕ → ConnectResponse → World → Option Buffer → Outcome World
auth_adopt rc resp w none = undefined
auth_adopt rc resp w (some passwd) = returns (if is_negative rc then rc else zk_ok) (record w {
  client = record w.client {
    session_id = resp.session_id % int32_mod;
    session_timeout = resp.time_out;
    passwd = passwd;
  };
})

-- The reply is used whether it could be read or not.
unfoldable pub auth_read : Host → World → Outcome (ConnectResponse × BuffStruct) → Outcome World
auth_read host w undefined = undefined
auth_read host w (returns rc (resp, ia)) =
    auth_adopt rc resp w (adopt_passwd host w.client.passwd resp.passwd)

-- `resp` is what the variable holds before it is read.
unfoldable pub auth_end : Host → ConnectResponse → Response → Outcome World
auth_end host resp undefined = undefined
auth_end host resp (returns rc (none, w)) = returns (if is_negative rc then rc else zk_ok) w
auth_end host resp (returns rc (some ia, w)) =
    auth_read host w (deserialize_connect_response host (resp, ia))

unfoldable pub authenticate : Host → ConnectResponse → Step World
authenticate host resp w =
    auth_end host resp (recv_sent host (send_built host w (build_connect_request host w.client)))
