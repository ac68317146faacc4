-- ===== src/Jute/Exists.antt =====
-- zookeeper.jute.c and zookeeper.jute.h. Whether a node exists, and the replies that carry one value.
pub mod Codec
use zkclient.Prelude.{ℕ}
use zkclient.Outcome.{Step, ◌>>◌}
use zkclient.Host.{Host}
use zkclient.Archive.{BuffStruct, CString}
use zkclient.Archive.Input.{
  Load, ia_deserialize_bool, ia_deserialize_int, ia_deserialize_string, ia_end_record,
  ia_start_record, on_field,
}
use zkclient.Archive.Output.{
  oa_end_record, oa_serialize_bool, oa_serialize_int, oa_serialize_string, oa_start_record,
}
use zkclient.Jute.Stat.{Stat, deserialize_stat, serialize_stat}

pub record ExistsRequest : Type 0 where
  pub path : CString
  pub watch : ℕ

unfoldable pub serialize_exists_request : Host → ExistsRequest → Step BuffStruct
serialize_exists_request host v = do
  oa_start_record
  oa_serialize_string host v.path
  oa_serialize_bool host v.watch
  oa_end_record

unfoldable pub deserialize_exists_request : Host → Load ExistsRequest
deserialize_exists_request host = do
  ia_start_record
  on_field (λ v. v.path) (λ v x. record v { path = x }) (ia_deserialize_string host)
  on_field (λ v. v.watch) (λ v x. record v { watch = x }) (ia_deserialize_bool host)
  ia_end_record

pub record ExistsResponse : Type 0 where
  pub stat : Stat

unfoldable pub serialize_exists_response : Host → ExistsResponse → Step BuffStruct
serialize_exists_response host v = do oa_start_record; serialize_stat host v.stat; oa_end_record

unfoldable pub deserialize_exists_response : Host → Load ExistsResponse
deserialize_exists_response host = do
  ia_start_record
  on_field (λ v. v.stat) (λ v x. record v { stat = x }) (deserialize_stat host)
  ia_end_record

pub record SyncRequest : Type 0 where
  pub path : CString

unfoldable pub serialize_sync_request : Host → SyncRequest → Step BuffStruct
serialize_sync_request host v = do oa_start_record; oa_serialize_string host v.path; oa_end_record

unfoldable pub deserialize_sync_request : Host → Load SyncRequest
deserialize_sync_request host = do
  ia_start_record
  on_field (λ v. v.path) (λ v x. record v { path = x }) (ia_deserialize_string host)
  ia_end_record

pub record SyncResponse : Type 0 where
  pub path : CString

unfoldable pub serialize_sync_response : Host → SyncResponse → Step BuffStruct
serialize_sync_response host v = do oa_start_record; oa_serialize_string host v.path; oa_end_record

unfoldable pub deserialize_sync_response : Host → Load SyncResponse
deserialize_sync_response host = do
  ia_start_record
  on_field (λ v. v.path) (λ v x. record v { path = x }) (ia_deserialize_string host)
  ia_end_record

pub record ErrorResponse : Type 0 where
  pub err : ℕ

unfoldable pub serialize_error_response : Host → ErrorResponse → Step BuffStruct
serialize_error_response host v = do oa_start_record; oa_serialize_int host v.err; oa_end_record

unfoldable pub deserialize_error_response : Host → Load ErrorResponse
deserialize_error_response host = do
  ia_start_record
  on_field (λ v. v.err) (λ v x. record v { err = x }) (ia_deserialize_int host)
  ia_end_record
