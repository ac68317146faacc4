-- ===== src/Jute/CreateTxn.antt =====
-- zookeeper.jute.c and zookeeper.jute.h. The transactions that change a node.
pub mod Codec
use zkclient.Prelude.{some, ℕ}
use zkclient.Outcome.{Step, ◌>>◌}
use zkclient.Host.{Host}
use zkclient.Archive.{BuffStruct, Buffer, CString}
use zkclient.Archive.Input.{
  Load, ia_deserialize_bool, ia_deserialize_buffer, ia_deserialize_int, ia_deserialize_string,
  ia_end_record, ia_start_record, on_field,
}
use zkclient.Archive.Output.{
  oa_end_record, oa_serialize_bool, oa_serialize_buffer, oa_serialize_int, oa_serialize_string,
  oa_start_record,
}
use zkclient.Jute.Acl.{AclVector, deserialize_acl_vector, serialize_acl_vector}

pub record CreateTxnV0 : Type 0 where
  pub path : CString
  pub data_buffer : Buffer
  pub acl : AclVector
  pub ephemeral : ℕ

unfoldable pub serialize_create_txn_v0 : Host → CreateTxnV0 → Step BuffStruct
serialize_create_txn_v0 host v = do
  oa_start_record
  oa_serialize_string host v.path
  oa_serialize_buffer host (some v.data_buffer)
  serialize_acl_vector host v.acl
  oa_serialize_bool host v.ephemeral
  oa_end_record

unfoldable pub deserialize_create_txn_v0 : Host → Load CreateTxnV0
deserialize_create_txn_v0 host = do
  ia_start_record
  on_field (λ v. v.path) (λ v x. record v { path = x }) (ia_deserialize_string host)
  on_field (λ v. v.data_buffer) (λ v x. record v { data_buffer = x }) (ia_deserialize_buffer host)
  on_field (λ v. v.acl) (λ v x. record v { acl = x }) (deserialize_acl_vector host)
  on_field (λ v. v.ephemeral) (λ v x. record v { ephemeral = x }) (ia_deserialize_bool host)
  ia_end_record

pub record CreateTxn : Type 0 where
  pub path : CString
  pub data_buffer : Buffer
  pub acl : AclVector
  pub ephemeral : ℕ
  pub parent_cversion : ℕ

unfoldable pub serialize_create_txn : Host → CreateTxn → Step BuffStruct
serialize_create_txn host v = do
  oa_start_record
  oa_serialize_string host v.path
  oa_serialize_buffer host (some v.data_buffer)
  serialize_acl_vector host v.acl
  oa_serialize_bool host v.ephemeral
  oa_serialize_int host v.parent_cversion
  oa_end_record

unfoldable pub deserialize_create_txn : Host → Load CreateTxn
deserialize_create_txn host = do
  ia_start_record
  on_field (λ v. v.path) (λ v x. record v { path = x }) (ia_deserialize_string host)
  on_field (λ v. v.data_buffer) (λ v x. record v { data_buffer = x }) (ia_deserialize_buffer host)
  on_field (λ v. v.acl) (λ v x. record v { acl = x }) (deserialize_acl_vector host)
  on_field (λ v. v.ephemeral) (λ v x. record v { ephemeral = x }) (ia_deserialize_bool host)
  on_field (λ v. v.parent_cversion) (λ v x. record v { parent_cversion = x })
      (ia_deserialize_int host)
  ia_end_record

pub record DeleteTxn : Type 0 where
  pub path : CString

unfoldable pub serialize_delete_txn : Host → DeleteTxn → Step BuffStruct
serialize_delete_txn host v = do oa_start_record; oa_serialize_string host v.path; oa_end_record

unfoldable pub deserialize_delete_txn : Host → Load DeleteTxn
deserialize_delete_txn host = do
  ia_start_record
  on_field (λ v. v.path) (λ v x. record v { path = x }) (ia_deserialize_string host)
  ia_end_record

pub record SetDataTxn : Type 0 where
  pub path : CString
  pub data_buffer : Buffer
  pub version : ℕ

unfoldable pub serialize_set_data_txn : Host → SetDataTxn → Step BuffStruct
serialize_set_data_txn host v = do
  oa_start_record
  oa_serialize_string host v.path
  oa_serialize_buffer host (some v.data_buffer)
  oa_serialize_int host v.version
  oa_end_record

unfoldable pub deserialize_set_data_txn : Host → Load SetDataTxn
deserialize_set_data_txn host = do
  ia_start_record
  on_field (λ v. v.path) (λ v x. record v { path = x }) (ia_deserialize_string host)
  on_field (λ v. v.data_buffer) (λ v x. record v { data_buffer = x }) (ia_deserialize_buffer host)
  on_field (λ v. v.version) (λ v x. record v { version = x }) (ia_deserialize_int host)
  ia_end_record
