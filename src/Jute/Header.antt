-- ===== src/Jute/Header.antt =====
-- zookeeper.jute.c and zookeeper.jute.h. The headers of requests and replies.
pub mod Codec
use zkclient.Prelude.{some, ℕ}
use zkclient.Outcome.{Step, ◌>>◌}
use zkclient.Host.{Host}
use zkclient.Archive.{BuffStruct, Buffer, CString}
use zkclient.Archive.Input.{
  Load, ia_deserialize_bool, ia_deserialize_buffer, ia_deserialize_int, ia_deserialize_long,
  ia_deserialize_string, ia_end_record, ia_start_record, on_field,
}
use zkclient.Archive.Output.{
  oa_end_record, oa_serialize_bool, oa_serialize_buffer, oa_serialize_int, oa_serialize_long,
  oa_serialize_string, oa_start_record,
}

pub record RequestHeader : Type 0 where
  pub xid : ℕ
  pub type : ℕ

unfoldable pub serialize_request_header : Host → RequestHeader → Step BuffStruct
serialize_request_header host v = do
  oa_start_record
  oa_serialize_int host v.xid
  oa_serialize_int host v.type
  oa_end_record

unfoldable pub deserialize_request_header : Host → Load RequestHeader
deserialize_request_header host = do
  ia_start_record
  on_field (λ v. v.xid) (λ v x. record v { xid = x }) (ia_deserialize_int host)
  on_field (λ v. v.type) (λ v x. record v { type = x }) (ia_deserialize_int host)
  ia_end_record

pub record ReplyHeader : Type 0 where
  pub xid : ℕ
  pub zxid : ℕ
  pub err : ℕ

unfoldable pub serialize_reply_header : Host → ReplyHeader → Step BuffStruct
serialize_reply_header host v = do
  oa_start_record
  oa_serialize_int host v.xid
  oa_serialize_long host v.zxid
  oa_serialize_int host v.err
  oa_end_record

unfoldable pub deserialize_reply_header : Host → Load ReplyHeader
deserialize_reply_header host = do
  ia_start_record
  on_field (λ v. v.xid) (λ v x. record v { xid = x }) (ia_deserialize_int host)
  on_field (λ v. v.zxid) (λ v x. record v { zxid = x }) (ia_deserialize_long host)
  on_field (λ v. v.err) (λ v x. record v { err = x }) (ia_deserialize_int host)
  ia_end_record

pub record MultiHeader : Type 0 where
  pub type : ℕ
  pub done : ℕ
  pub err : ℕ

unfoldable pub serialize_multi_header : Host → MultiHeader → Step BuffStruct
serialize_multi_header host v = do
  oa_start_record
  oa_serialize_int host v.type
  oa_serialize_bool host v.done
  oa_serialize_int host v.err
  oa_end_record

unfoldable pub deserialize_multi_header : Host → Load MultiHeader
deserialize_multi_header host = do
  ia_start_record
  on_field (λ v. v.type) (λ v x. record v { type = x }) (ia_deserialize_int host)
  on_field (λ v. v.done) (λ v x. record v { done = x }) (ia_deserialize_bool host)
  on_field (λ v. v.err) (λ v x. record v { err = x }) (ia_deserialize_int host)
  ia_end_record

pub record AuthPacket : Type 0 where
  pub type : ℕ
  pub scheme : CString
  pub auth : Buffer

unfoldable pub serialize_auth_packet : Host → AuthPacket → Step BuffStruct
serialize_auth_packet host v = do
  oa_start_record
  oa_serialize_int host v.type
  oa_serialize_string host v.scheme
  oa_serialize_buffer host (some v.auth)
  oa_end_record

unfoldable pub deserialize_auth_packet : Host → Load AuthPacket
deserialize_auth_packet host = do
  ia_start_record
  on_field (λ v. v.type) (λ v x. record v { type = x }) (ia_deserialize_int host)
  on_field (λ v. v.scheme) (λ v x. record v { scheme = x }) (ia_deserialize_string host)
  on_field (λ v. v.auth) (λ v x. record v { auth = x }) (ia_deserialize_buffer host)
  ia_end_record
