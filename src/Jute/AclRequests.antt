-- ===== src/Jute/AclRequests.antt =====
-- zookeeper.jute.c and zookeeper.jute.h. Reading and writing access-control lists.
pub mod Codec
use zkclient.Prelude.{ℕ}
use zkclient.Outcome.{Step, ◌>>◌}
use zkclient.Host.{Host}
use zkclient.Archive.{BuffStruct, CString}
use zkclient.Archive.Input.{
  Load, ia_deserialize_int, ia_deserialize_string, ia_end_record, ia_start_record, on_field,
}
use zkclient.Archive.Output.{oa_end_record, oa_serialize_int, oa_serialize_string, oa_start_record}
use zkclient.Jute.Acl.{AclVector, deserialize_acl_vector, serialize_acl_vector}
use zkclient.Jute.Stat.{Stat, deserialize_stat, serialize_stat}

pub record GetAclRequest : Type 0 where
  pub path : CString

unfoldable pub serialize_get_acl_request : Host → GetAclRequest → Step BuffStruct
serialize_get_acl_request host v = do
  oa_start_record
  oa_serialize_string host v.path
  oa_end_record

unfoldable pub deserialize_get_acl_request : Host → Load GetAclRequest
deserialize_get_acl_request host = do
  ia_start_record
  on_field (λ v. v.path) (λ v x. record v { path = x }) (ia_deserialize_string host)
  ia_end_record

pub record GetAclResponse : Type 0 where
  pub acl : AclVector
  pub stat : Stat

unfoldable pub serialize_get_acl_response : Host → GetAclResponse → Step BuffStruct
serialize_get_acl_response host v = do
  oa_start_record
  serialize_acl_vector host v.acl
  serialize_stat host v.stat
  oa_end_record

unfoldable pub deserialize_get_acl_response : Host → Load GetAclResponse
deserialize_get_acl_response host = do
  ia_start_record
  on_field (λ v. v.acl) (λ v x. record v { acl = x }) (deserialize_acl_vector host)
  on_field (λ v. v.stat) (λ v x. record v { stat = x }) (deserialize_stat host)
  ia_end_record

pub record SetAclRequest : Type 0 where
  pub path : CString
  pub acl : AclVector
  pub version : ℕ

unfoldable pub serialize_set_acl_request : Host → SetAclRequest → Step BuffStruct
serialize_set_acl_request host v = do
  oa_start_record
  oa_serialize_string host v.path
  serialize_acl_vector host v.acl
  oa_serialize_int host v.version
  oa_end_record

unfoldable pub deserialize_set_acl_request : Host → Load SetAclRequest
deserialize_set_acl_request host = do
  ia_start_record
  on_field (λ v. v.path) (λ v x. record v { path = x }) (ia_deserialize_string host)
  on_field (λ v. v.acl) (λ v x. record v { acl = x }) (deserialize_acl_vector host)
  on_field (λ v. v.version) (λ v x. record v { version = x }) (ia_deserialize_int host)
  ia_end_record

pub record SetAclResponse : Type 0 where
  pub stat : Stat

unfoldable pub serialize_set_acl_response : Host → SetAclResponse → Step BuffStruct
serialize_set_acl_response host v = do oa_start_record; serialize_stat host v.stat; oa_end_record

unfoldable pub deserialize_set_acl_response : Host → Load SetAclResponse
deserialize_set_acl_response host = do
  ia_start_record
  on_field (λ v. v.stat) (λ v x. record v { stat = x }) (deserialize_stat host)
  ia_end_record
