-- ===== src/Jute/Node.antt =====
-- zookeeper.jute.c and zookeeper.jute.h. Creating and deleting nodes.
pub mod Codec
use zkclient.Prelude.{some, ℕ}
use zkclient.Outcome.{Step, ◌>>◌}
use zkclient.Host.{Host}
use zkclient.Archive.{BuffStruct, Buffer, CString}
use zkclient.Archive.Input.{
  Load, ia_deserialize_buffer, ia_deserialize_int, ia_deserialize_string, ia_end_record,
  ia_start_record, on_field,
}
use zkclient.Archive.Output.{
  oa_end_record, oa_serialize_buffer, oa_serialize_int, oa_serialize_string, oa_start_record,
}
use zkclient.Jute.Acl.{AclVector, deserialize_acl_vector, serialize_acl_vector}

pub record CreateRequest : Type 0 where
  pub path : CString
  pub data_buffer : Buffer
  pub acl : AclVector
  pub flags : ℕ

unfoldable pub serialize_create_request : Host → CreateRequest → Step BuffStruct
serialize_create_request host v = do
  oa_start_record
  oa_serialize_string host v.path
  oa_serialize_buffer host (some v.data_buffer)
  serialize_acl_vector host v.acl
  oa_serialize_int host v.flags
  oa_end_record

unfoldable pub deserialize_create_request : Host → Load CreateRequest
deserialize_create_request host = do
  ia_start_record
  on_field (λ v. v.path) (λ v x. record v { path = x }) (ia_deserialize_string host)
  on_field (λ v. v.data_buffer) (λ v x. record v { data_buffer = x }) (ia_deserialize_buffer host)
  on_field (λ v. v.acl) (λ v x. record v { acl = x }) (deserialize_acl_vector host)
  on_field (λ v. v.flags) (λ v x. record v { flags = x }) (ia_deserialize_int host)
  ia_end_record

pub record CreateResponse : Type 0 where
  pub path : CString

unfoldable pub serialize_create_response : Host → CreateResponse → Step BuffStruct
serialize_create_response host v = do
  oa_start_record
  oa_serialize_string host v.path
  oa_end_record

unfoldable pub deserialize_create_response : Host → Load CreateResponse
deserialize_create_response host = do
  ia_start_record
  on_field (λ v. v.path) (λ v x. record v { path = x }) (ia_deserialize_string host)
  ia_end_record

pub record DeleteRequest : Type 0 where
  pub path : CString
  pub version : ℕ

unfoldable pub serialize_delete_request : Host → DeleteRequest → Step BuffStruct
serialize_delete_request host v = do
  oa_start_record
  oa_serialize_string host v.path
  oa_serialize_int host v.version
  oa_end_record

unfoldable pub deserialize_delete_request : Host → Load DeleteRequest
deserialize_delete_request host = do
  ia_start_record
  on_field (λ v. v.path) (λ v x. record v { path = x }) (ia_deserialize_string host)
  on_field (λ v. v.version) (λ v x. record v { version = x }) (ia_deserialize_int host)
  ia_end_record

pub record CheckVersionRequest : Type 0 where
  pub path : CString
  pub version : ℕ

unfoldable pub serialize_check_version_request : Host → CheckVersionRequest → Step BuffStruct
serialize_check_version_request host v = do
  oa_start_record
  oa_serialize_string host v.path
  oa_serialize_int host v.version
  oa_end_record

unfoldable pub deserialize_check_version_request : Host → Load CheckVersionRequest
deserialize_check_version_request host = do
  ia_start_record
  on_field (λ v. v.path) (λ v x. record v { path = x }) (ia_deserialize_string host)
  on_field (λ v. v.version) (λ v x. record v { version = x }) (ia_deserialize_int host)
  ia_end_record
