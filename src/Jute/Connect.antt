-- ===== src/Jute/Connect.antt =====
-- zookeeper.jute.c and zookeeper.jute.h. The handshake of a session.
pub mod Codec
use zkclient.Prelude.{some, ℕ}
use zkclient.Outcome.{Step, ◌>>◌}
use zkclient.Host.{Host}
use zkclient.Archive.{BuffStruct, Buffer}
use zkclient.Archive.Input.{
  Load, ia_deserialize_buffer, ia_deserialize_int, ia_deserialize_long, ia_end_record,
  ia_start_record, on_field,
}
use zkclient.Archive.Output.{
  oa_end_record, oa_serialize_buffer, oa_serialize_int, oa_serialize_long, oa_start_record,
}

pub record ConnectRequest : Type 0 where
  pub protocol_version : ℕ
  pub last_zxid_seen : ℕ
  pub time_out : ℕ
  pub session_id : ℕ
  pub passwd : Buffer

unfoldable pub serialize_connect_request : Host → ConnectRequest → Step BuffStruct
serialize_connect_request host v = do
  oa_start_record
  oa_serialize_int host v.protocol_version
  oa_serialize_long host v.last_zxid_seen
  oa_serialize_int host v.time_out
  oa_serialize_long host v.session_id
  oa_serialize_buffer host (some v.passwd)
  oa_end_record

unfoldable pub deserialize_connect_request : Host → Load ConnectRequest
deserialize_connect_request host = do
  ia_start_record
  on_field (λ v. v.protocol_version) (λ v x. record v { protocol_version = x })
      (ia_deserialize_int host)
  on_field (λ v. v.last_zxid_seen) (λ v x. record v { last_zxid_seen = x })
      (ia_deserialize_long host)
  on_field (λ v. v.time_out) (λ v x. record v { time_out = x }) (ia_deserialize_int host)
  on_field (λ v. v.session_id) (λ v x. record v { session_id = x }) (ia_deserialize_long host)
  on_field (λ v. v.passwd) (λ v x. record v { passwd = x }) (ia_deserialize_buffer host)
  ia_end_record

pub record ConnectResponse : Type 0 where
  pub protocol_version : ℕ
  pub time_out : ℕ
  pub session_id : ℕ
  pub passwd : Buffer

unfoldable pub serialize_connect_response : Host → ConnectResponse → Step BuffStruct
serialize_connect_response host v = do
  oa_start_record
  oa_serialize_int host v.protocol_version
  oa_serialize_int host v.time_out
  oa_serialize_long host v.session_id
  oa_serialize_buffer host (some v.passwd)
  oa_end_record

unfoldable pub deserialize_connect_response : Host → Load ConnectResponse
deserialize_connect_response host = do
  ia_start_record
  on_field (λ v. v.protocol_version) (λ v x. record v { protocol_version = x })
      (ia_deserialize_int host)
  on_field (λ v. v.time_out) (λ v x. record v { time_out = x }) (ia_deserialize_int host)
  on_field (λ v. v.session_id) (λ v x. record v { session_id = x }) (ia_deserialize_long host)
  on_field (λ v. v.passwd) (λ v x. record v { passwd = x }) (ia_deserialize_buffer host)
  ia_end_record
