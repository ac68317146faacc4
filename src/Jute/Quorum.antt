-- ===== src/Jute/Quorum.antt =====
-- zookeeper.jute.c and zookeeper.jute.h. The records that servers exchange and store.
pub mod Codec
use zkclient.Prelude.{some, ℕ}
use zkclient.Outcome.{Step, ◌>>◌}
use zkclient.Host.{Host}
use zkclient.Archive.{BuffStruct, Buffer}
use zkclient.Archive.Input.{
  Load, ia_deserialize_buffer, ia_deserialize_int, ia_deserialize_long, ia_end_record,
  ia_start_record, on_field,
}
use zkclient.Archive.Output.{
  oa_end_record, oa_serialize_buffer, oa_serialize_int, oa_serialize_long, oa_start_record,
}
use zkclient.Jute.Acl.{IdVector, deserialize_id_vector, serialize_id_vector}

pub record LearnerInfo : Type 0 where
  pub serverid : ℕ
  pub protocol_version : ℕ

unfoldable pub serialize_learner_info : Host → LearnerInfo → Step BuffStruct
serialize_learner_info host v = do
  oa_start_record
  oa_serialize_long host v.serverid
  oa_serialize_int host v.protocol_version
  oa_end_record

unfoldable pub deserialize_learner_info : Host → Load LearnerInfo
deserialize_learner_info host = do
  ia_start_record
  on_field (λ v. v.serverid) (λ v x. record v { serverid = x }) (ia_deserialize_long host)
  on_field (λ v. v.protocol_version) (λ v x. record v { protocol_version = x })
      (ia_deserialize_int host)
  ia_end_record

pub record QuorumPacket : Type 0 where
  pub type : ℕ
  pub zxid : ℕ
  pub data_buffer : Buffer
  pub authinfo : IdVector

unfoldable pub serialize_quorum_packet : Host → QuorumPacket → Step BuffStruct
serialize_quorum_packet host v = do
  oa_start_record
  oa_serialize_int host v.type
  oa_serialize_long host v.zxid
  oa_serialize_buffer host (some v.data_buffer)
  serialize_id_vector host v.authinfo
  oa_end_record

unfoldable pub deserialize_quorum_packet : Host → Load QuorumPacket
deserialize_quorum_packet host = do
  ia_start_record
  on_field (λ v. v.type) (λ v x. record v { type = x }) (ia_deserialize_int host)
  on_field (λ v. v.zxid) (λ v x. record v { zxid = x }) (ia_deserialize_long host)
  on_field (λ v. v.data_buffer) (λ v x. record v { data_buffer = x }) (ia_deserialize_buffer host)
  on_field (λ v. v.authinfo) (λ v x. record v { authinfo = x }) (deserialize_id_vector host)
  ia_end_record

pub record FileHeader : Type 0 where
  pub magic : ℕ
  pub version : ℕ
  pub dbid : ℕ

unfoldable pub serialize_file_header : Host → FileHeader → Step BuffStruct
serialize_file_header host v = do
  oa_start_record
  oa_serialize_int host v.magic
  oa_serialize_int host v.version
  oa_serialize_long host v.dbid
  oa_end_record

unfoldable pub deserialize_file_header : Host → Load FileHeader
deserialize_file_header host = do
  ia_start_record
  on_field (λ v. v.magic) (λ v x. record v { magic = x }) (ia_deserialize_int host)
  on_field (λ v. v.version) (λ v x. record v { version = x }) (ia_deserialize_int host)
  on_field (λ v. v.dbid) (λ v x. record v { dbid = x }) (ia_deserialize_long host)
  ia_end_record
