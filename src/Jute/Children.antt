-- ===== src/Jute/Children.antt =====
-- zookeeper.jute.c and zookeeper.jute.h. The children of a node.
pub mod Codec
use zkclient.Prelude.{ℕ}
use zkclient.Outcome.{Step, ◌>>◌}
use zkclient.Host.{Host}
use zkclient.Archive.{BuffStruct, CString}
use zkclient.Archive.Input.{
  Load, ia_deserialize_bool, ia_deserialize_string, ia_end_record, ia_start_record, on_field,
}
use zkclient.Archive.Output.{oa_end_record, oa_serialize_bool, oa_serialize_string, oa_start_record}
use zkclient.Jute.Stat.{Stat, deserialize_stat, serialize_stat}
use zkclient.Jute.Watch.{StringVector, deserialize_string_vector, serialize_string_vector}

pub record GetChildrenRequest : Type 0 where
  pub path : CString
  pub watch : ℕ

unfoldable pub serialize_get_children_request : Host → GetChildrenRequest → Step BuffStruct
serialize_get_children_request host v = do
  oa_start_record
  oa_serialize_string host v.path
  oa_serialize_bool host v.watch
  oa_end_record

unfoldable pub deserialize_get_children_request : Host → Load GetChildrenRequest
deserialize_get_children_request host = do
  ia_start_record
  on_field (λ v. v.path) (λ v x. record v { path = x }) (ia_deserialize_string host)
  on_field (λ v. v.watch) (λ v x. record v { watch = x }) (ia_deserialize_bool host)
  ia_end_record

pub record GetChildren2Request : Type 0 where
  pub path : CString
  pub watch : ℕ

unfoldable pub serialize_get_children2_request : Host → GetChildren2Request → Step BuffStruct
serialize_get_children2_request host v = do
  oa_start_record
  oa_serialize_string host v.path
  oa_serialize_bool host v.watch
  oa_end_record

unfoldable pub deserialize_get_children2_request : Host → Load GetChildren2Request
deserialize_get_children2_request host = do
  ia_start_record
  on_field (λ v. v.path) (λ v x. record v { path = x }) (ia_deserialize_string host)
  on_field (λ v. v.watch) (λ v x. record v { watch = x }) (ia_deserialize_bool host)
  ia_end_record

pub record GetChildrenResponse : Type 0 where
  pub children : StringVector

unfoldable pub serialize_get_children_response : Host → GetChildrenResponse → Step BuffStruct
serialize_get_children_response host v = do
  oa_start_record
  serialize_string_vector host v.children
  oa_end_record

unfoldable pub deserialize_get_children_response : Host → Load GetChildrenResponse
deserialize_get_children_response host = do
  ia_start_record
  on_field (λ v. v.children) (λ v x. record v { children = x }) (deserialize_string_vector host)
  ia_end_record

pub record GetChildren2Response : Type 0 where
  pub children : StringVector
  pub stat : Stat

unfoldable pub serialize_get_children2_response : Host → GetChildren2Response → Step BuffStruct
serialize_get_children2_response host v = do
  oa_start_record
  serialize_string_vector host v.children
  serialize_stat host v.stat
  oa_end_record

unfoldable pub deserialize_get_children2_response : Host → Load GetChildren2Response
deserialize_get_children2_response host = do
  ia_start_record
  on_field (λ v. v.children) (λ v x. record v { children = x }) (deserialize_string_vector host)
  on_field (λ v. v.stat) (λ v x. record v { stat = x }) (deserialize_stat host)
  ia_end_record
