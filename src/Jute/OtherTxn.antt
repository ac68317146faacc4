-- ===== src/Jute/OtherTxn.antt =====
-- zookeeper.jute.c and zookeeper.jute.h. The other transactions.
pub mod Codec
use zkclient.Prelude.{ℕ}
use zkclient.Outcome.{Step, ◌>>◌}
use zkclient.Host.{Host}
use zkclient.Archive.{BuffStruct, CString}
use zkclient.Archive.Input.{
  Load, ia_deserialize_int, ia_deserialize_string, ia_end_record, ia_start_record, on_field,
}
use zkclient.Archive.Output.{oa_end_record, oa_serialize_int, oa_serialize_string, oa_start_record}
use zkclient.Jute.Acl.{AclVector, deserialize_acl_vector, serialize_acl_vector}

pub record CheckVersionTxn : Type 0 where
  pub path : CString
  pub version : ℕ

unfoldable pub serialize_check_version_txn : Host → CheckVersionTxn → Step BuffStruct
serialize_check_version_txn host v = do
  oa_start_record
  oa_serialize_string host v.path
  oa_serialize_int host v.version
  oa_end_record

unfoldable pub deserialize_check_version_txn : Host → Load CheckVersionTxn
deserialize_check_version_txn host = do
  ia_start_record
  on_field (λ v. v.path) (λ v x. record v { path = x }) (ia_deserialize_string host)
  on_field (λ v. v.version) (λ v x. record v { version = x }) (ia_deserialize_int host)
  ia_end_record

pub record SetAclTxn : Type 0 where
  pub path : CString
  pub acl : AclVector
  pub version : ℕ

unfoldable pub serialize_set_acl_txn : Host → SetAclTxn → Step BuffStruct
serialize_set_acl_txn host v = do
  oa_start_record
  oa_serialize_string host v.path
  serialize_acl_vector host v.acl
  oa_serialize_int host v.version
  oa_end_record

unfoldable pub deserialize_set_acl_txn : Host → Load SetAclTxn
deserialize_set_acl_txn host = do
  ia_start_record
  on_field (λ v. v.path) (λ v x. record v { path = x }) (ia_deserialize_string host)
  on_field (λ v. v.acl) (λ v x. record v { acl = x }) (deserialize_acl_vector host)
  on_field (λ v. v.version) (λ v x. record v { version = x }) (ia_deserialize_int host)
  ia_end_record

pub record SetMaxChildrenTxn : Type 0 where
  pub path : CString
  pub max : ℕ

unfoldable pub serialize_set_max_children_txn : Host → SetMaxChildrenTxn → Step BuffStruct
serialize_set_max_children_txn host v = do
  oa_start_record
  oa_serialize_string host v.path
  oa_serialize_int host v.max
  oa_end_record

unfoldable pub deserialize_set_max_children_txn : Host → Load SetMaxChildrenTxn
deserialize_set_max_children_txn host = do
  ia_start_record
  on_field (λ v. v.path) (λ v x. record v { path = x }) (ia_deserialize_string host)
  on_field (λ v. v.max) (λ v x. record v { max = x }) (ia_deserialize_int host)
  ia_end_record

pub record CreateSessionTxn : Type 0 where
  pub time_out : ℕ

unfoldable pub serialize_create_session_txn : Host → CreateSessionTxn → Step BuffStruct
serialize_create_session_txn host v = do
  oa_start_record
  oa_serialize_int host v.time_out
  oa_end_record

unfoldable pub deserialize_create_session_txn : Host → Load CreateSessionTxn
deserialize_create_session_txn host = do
  ia_start_record
  on_field (λ v. v.time_out) (λ v x. record v { time_out = x }) (ia_deserialize_int host)
  ia_end_record

pub record ErrorTxn : Type 0 where
  pub err : ℕ

unfoldable pub serialize_error_txn : Host → ErrorTxn → Step BuffStruct
serialize_error_txn host v = do oa_start_record; oa_serialize_int host v.err; oa_end_record

unfoldable pub deserialize_error_txn : Host → Load ErrorTxn
deserialize_error_txn host = do
  ia_start_record
  on_field (λ v. v.err) (λ v x. record v { err = x }) (ia_deserialize_int host)
  ia_end_record
