-- ===== src/Jute/MaxChildren.antt =====
-- zookeeper.jute.c and zookeeper.jute.h. Limits on the number of children.
pub mod Codec
use zkclient.Prelude.{ℕ}
use zkclient.Outcome.{Step, ◌>>◌}
use zkclient.Host.{Host}
use zkclient.Archive.{BuffStruct, CString}
use zkclient.Archive.Input.{
  Load, ia_deserialize_int, ia_deserialize_string, ia_end_record, ia_start_record, on_field,
}
use zkclient.Archive.Output.{oa_end_record, oa_serialize_int, oa_serialize_string, oa_start_record}

pub record GetMaxChildrenRequest : Type 0 where
  pub path : CString

unfoldable pub serialize_get_max_children_request : Host → GetMaxChildrenRequest → Step BuffStruct
serialize_get_max_children_request host v = do
  oa_start_record
  oa_serialize_string host v.path
  oa_end_record

unfoldable pub deserialize_get_max_children_request : Host → Load GetMaxChildrenRequest
deserialize_get_max_children_request host = do
  ia_start_record
  on_field (λ v. v.path) (λ v x. record v { path = x }) (ia_deserialize_string host)
  ia_end_record

pub record GetMaxChildrenResponse : Type 0 where
  pub max : ℕ

unfoldable pub serialize_get_max_children_response : Host → GetMaxChildrenResponse → Step BuffStruct
serialize_get_max_children_response host v = do
  oa_start_record
  oa_serialize_int host v.max
  oa_end_record

unfoldable pub deserialize_get_max_children_response : Host → Load GetMaxChildrenResponse
deserialize_get_max_children_response host = do
  ia_start_record
  on_field (λ v. v.max) (λ v x. record v { max = x }) (ia_deserialize_int host)
  ia_end_record

pub record SetMaxChildrenRequest : Type 0 where
  pub path : CString
  pub max : ℕ

unfoldable pub serialize_set_max_children_request : Host → SetMaxChildrenRequest → Step BuffStruct
serialize_set_max_children_request host v = do
  oa_start_record
  oa_serialize_string host v.path
  oa_serialize_int host v.max
  oa_end_record

unfoldable pub deserialize_set_max_children_request : Host → Load SetMaxChildrenRequest
deserialize_set_max_children_request host = do
  ia_start_record
  on_field (λ v. v.path) (λ v x. record v { path = x }) (ia_deserialize_string host)
  on_field (λ v. v.max) (λ v x. record v { max = x }) (ia_deserialize_int host)
  ia_end_record
