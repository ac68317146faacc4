-- ===== src/Jute/Data.antt =====
-- zookeeper.jute.c and zookeeper.jute.h. Reading and writing a node's data.
pub mod Codec
use zkclient.Prelude.{some, ℕ}
use zkclient.Outcome.{Step, ◌>>◌}
use zkclient.Host.{Host}
use zkclient.Archive.{BuffStruct, Buffer, CString}
use zkclient.Archive.Input.{
  Load, ia_deserialize_bool, ia_deserialize_buffer, ia_deserialize_int, ia_deserialize_string,
  ia_end_record, ia_start_record, on_field,
}
use zkclient.Archive.Output.{
  oa_end_record, oa_serialize_bool, oa_serialize_buffer, oa_serialize_int, oa_serialize_string,
  oa_start_record,
}
use zkclient.Jute.Stat.{Stat, deserialize_stat, serialize_stat}

pub record GetDataRequest : Type 0 where
  pub path : CString
  pub watch : ℕ

unfoldable pub serialize_get_data_request : Host → GetDataRequest → Step BuffStruct
serialize_get_data_request host v = do
  oa_start_record
  oa_serialize_string host v.path
  oa_serialize_bool host v.watch
  oa_end_record

unfoldable pub deserialize_get_data_request : Host → Load GetDataRequest
deserialize_get_data_request host = do
  ia_start_record
  on_field (λ v. v.path) (λ v x. record v { path = x }) (ia_deserialize_string host)
  on_field (λ v. v.watch) (λ v x. record v { watch = x }) (ia_deserialize_bool host)
  ia_end_record

pub record GetDataResponse : Type 0 where
  pub data_buffer : Buffer
  pub stat : Stat

unfoldable pub serialize_get_data_response : Host → GetDataResponse → Step BuffStruct
serialize_get_data_response host v = do
  oa_start_record
  oa_serialize_buffer host (some v.data_buffer)
  serialize_stat host v.stat
  oa_end_record

unfoldable pub deserialize_get_data_response : Host → Load GetDataResponse
deserialize_get_data_response host = do
  ia_start_record
  on_field (λ v. v.data_buffer) (λ v x. record v { data_buffer = x }) (ia_deserialize_buffer host)
  on_field (λ v. v.stat) (λ v x. record v { stat = x }) (deserialize_stat host)
  ia_end_record

pub record SetDataRequest : Type 0 where
  pub path : CString
  pub data_buffer : Buffer
  pub version : ℕ

unfoldable pub serialize_set_data_request : Host → SetDataRequest → Step BuffStruct
serialize_set_data_request host v = do
  oa_start_record
  oa_serialize_string host v.path
  oa_serialize_buffer host (some v.data_buffer)
  oa_serialize_int host v.version
  oa_end_record

unfoldable pub deserialize_set_data_request : Host → Load SetDataRequest
deserialize_set_data_request host = do
  ia_start_record
  on_field (λ v. v.path) (λ v x. record v { path = x }) (ia_deserialize_string host)
  on_field (λ v. v.data_buffer) (λ v x. record v { data_buffer = x }) (ia_deserialize_buffer host)
  on_field (λ v. v.version) (λ v x. record v { version = x }) (ia_deserialize_int host)
  ia_end_record

pub record SetDataResponse : Type 0 where
  pub stat : Stat

unfoldable pub serialize_set_data_response : Host → SetDataResponse → Step BuffStruct
serialize_set_data_response host v = do oa_start_record; serialize_stat host v.stat; oa_end_record

unfoldable pub deserialize_set_data_response : Host → Load SetDataResponse
deserialize_set_data_response host = do
  ia_start_record
  on_field (λ v. v.stat) (λ v x. record v { stat = x }) (deserialize_stat host)
  ia_end_record
