-- ===== src/Jute/Txn.antt =====
-- zookeeper.jute.c and zookeeper.jute.h. Transactions, alone and in groups.
pub mod Codec
use zkclient.Prelude.{none, some, ℕ}
use zkclient.Outcome.{Step, ◌>>◌}
use zkclient.Host.{Host}
use zkclient.Archive.{BuffStruct, Buffer}
use zkclient.Archive.Input.{
  Load, ia_deserialize_buffer, ia_deserialize_int, ia_deserialize_long, ia_end_record,
  ia_start_record, on_field,
}
use zkclient.Archive.Output.{
  oa_end_record, oa_serialize_buffer, oa_serialize_int, oa_serialize_long, oa_start_record,
}
use zkclient.Jute.Vector.{Vector, deserialize_vector, serialize_vector}

pub record TxnHeader : Type 0 where
  pub client_id : ℕ
  pub cxid : ℕ
  pub zxid : ℕ
  pub time : ℕ
  pub type : ℕ

unfoldable pub serialize_txn_header : Host → TxnHeader → Step BuffStruct
serialize_txn_header host v = do
  oa_start_record
  oa_serialize_long host v.client_id
  oa_serialize_int host v.cxid
  oa_serialize_long host v.zxid
  oa_serialize_long host v.time
  oa_serialize_int host v.type
  oa_end_record

unfoldable pub deserialize_txn_header : Host → Load TxnHeader
deserialize_txn_header host = do
  ia_start_record
  on_field (λ v. v.client_id) (λ v x. record v { client_id = x }) (ia_deserialize_long host)
  on_field (λ v. v.cxid) (λ v x. record v { cxid = x }) (ia_deserialize_int host)
  on_field (λ v. v.zxid) (λ v x. record v { zxid = x }) (ia_deserialize_long host)
  on_field (λ v. v.time) (λ v x. record v { time = x }) (ia_deserialize_long host)
  on_field (λ v. v.type) (λ v x. record v { type = x }) (ia_deserialize_int host)
  ia_end_record

pub record Txn : Type 0 where
  pub type : ℕ
  pub data_buffer : Buffer

unfoldable pub serialize_txn : Host → Txn → Step BuffStruct
serialize_txn host v = do
  oa_start_record
  oa_serialize_int host v.type
  oa_serialize_buffer host (some v.data_buffer)
  oa_end_record

unfoldable pub deserialize_txn : Host → Load Txn
deserialize_txn host = do
  ia_start_record
  on_field (λ v. v.type) (λ v x. record v { type = x }) (ia_deserialize_int host)
  on_field (λ v. v.data_buffer) (λ v x. record v { data_buffer = x }) (ia_deserialize_buffer host)
  ia_end_record

abbrev pub TxnVector : Type 0
TxnVector = Vector Txn

unfoldable pub serialize_txn_vector : Host → TxnVector → Step BuffStruct
serialize_txn_vector host = serialize_vector (serialize_txn host) host

unfoldable pub deserialize_txn_vector : Host → Load TxnVector
deserialize_txn_vector host =
    deserialize_vector 24 (record { type = 0; data_buffer = record { len = 0; buff = none } })
      (deserialize_txn host) host

pub record MultiTxn : Type 0 where
  pub txns : TxnVector

unfoldable pub serialize_multi_txn : Host → MultiTxn → Step BuffStruct
serialize_multi_txn host v = do oa_start_record; serialize_txn_vector host v.txns; oa_end_record

unfoldable pub deserialize_multi_txn : Host → Load MultiTxn
deserialize_multi_txn host = do
  ia_start_record
  on_field (λ v. v.txns) (λ v x. record v { txns = x }) (deserialize_txn_vector host)
  ia_end_record
