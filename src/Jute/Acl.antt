-- ===== src/Jute/Acl.antt =====
-- zookeeper.jute.c and zookeeper.jute.h. The access-control records.
pub mod Codec
use zkclient.Prelude.{none, ℕ}
use zkclient.Outcome.{Step, ◌>>◌}
use zkclient.Host.{Host}
use zkclient.Archive.{BuffStruct, CString}
use zkclient.Archive.Input.{
  Load, ia_deserialize_int, ia_deserialize_string, ia_end_record, ia_start_record, on_field,
}
use zkclient.Archive.Output.{oa_end_record, oa_serialize_int, oa_serialize_string, oa_start_record}
use zkclient.Jute.Vector.{Vector, deserialize_vector, serialize_vector}

pub record AclId : Type 0 where
  pub scheme : CString
  pub id : CString

unfoldable pub serialize_id : Host → AclId → Step BuffStruct
serialize_id host v = do
  oa_start_record
  oa_serialize_string host v.scheme
  oa_serialize_string host v.id
  oa_end_record

unfoldable pub deserialize_id : Host → Load AclId
deserialize_id host = do
  ia_start_record
  on_field (λ v. v.scheme) (λ v x. record v { scheme = x }) (ia_deserialize_string host)
  on_field (λ v. v.id) (λ v x. record v { id = x }) (ia_deserialize_string host)
  ia_end_record

pub record Acl : Type 0 where
  pub perms : ℕ
  pub id : AclId

unfoldable pub serialize_acl : Host → Acl → Step BuffStruct
serialize_acl host v = do
  oa_start_record
  oa_serialize_int host v.perms
  serialize_id host v.id
  oa_end_record

unfoldable pub deserialize_acl : Host → Load Acl
deserialize_acl host = do
  ia_start_record
  on_field (λ v. v.perms) (λ v x. record v { perms = x }) (ia_deserialize_int host)
  on_field (λ v. v.id) (λ v x. record v { id = x }) (deserialize_id host)
  ia_end_record

abbrev pub AclVector : Type 0
AclVector = Vector Acl

unfoldable pub serialize_acl_vector : Host → AclVector → Step BuffStruct
serialize_acl_vector host = serialize_vector (serialize_acl host) host

unfoldable pub deserialize_acl_vector : Host → Load AclVector
deserialize_acl_vector host =
    deserialize_vector 24 (record { perms = 0; id = record { scheme = none; id = none } })
      (deserialize_acl host) host

abbrev pub IdVector : Type 0
IdVector = Vector AclId

unfoldable pub serialize_id_vector : Host → IdVector → Step BuffStruct
serialize_id_vector host = serialize_vector (serialize_id host) host

unfoldable pub deserialize_id_vector : Host → Load IdVector
deserialize_id_vector host =
    deserialize_vector 16 (record { scheme = none; id = none }) (deserialize_id host) host
