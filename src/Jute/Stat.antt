-- ===== src/Jute/Stat.antt =====
-- zookeeper.jute.c and zookeeper.jute.h. The status of a node.
pub mod Codec
use zkclient.Prelude.{ℕ}
use zkclient.Outcome.{Step, ◌>>◌}
use zkclient.Host.{Host}
use zkclient.Archive.{BuffStruct}
use zkclient.Archive.Input.{
  Load, ia_deserialize_int, ia_deserialize_long, ia_end_record, ia_start_record, on_field,
}
use zkclient.Archive.Output.{oa_end_record, oa_serialize_int, oa_serialize_long, oa_start_record}

pub record Stat : Type 0 where
  pub czxid : ℕ
  pub mzxid : ℕ
  pub ctime : ℕ
  pub mtime : ℕ
  pub version : ℕ
  pub cversion : ℕ
  pub aversion : ℕ
  pub ephemeral_owner : ℕ
  pub data_length : ℕ
  pub num_children : ℕ
  pub pzxid : ℕ

unfoldable pub serialize_stat : Host → Stat → Step BuffStruct
serialize_stat host v = do
  oa_start_record
  oa_serialize_long host v.czxid
  oa_serialize_long host v.mzxid
  oa_serialize_long host v.ctime
  oa_serialize_long host v.mtime
  oa_serialize_int host v.version
  oa_serialize_int host v.cversion
  oa_serialize_int host v.aversion
  oa_serialize_long host v.ephemeral_owner
  oa_serialize_int host v.data_length
  oa_serialize_int host v.num_children
  oa_serialize_long host v.pzxid
  oa_end_record

unfoldable pub deserialize_stat : Host → Load Stat
deserialize_stat host = do
  ia_start_record
  on_field (λ v. v.czxid) (λ v x. record v { czxid = x }) (ia_deserialize_long host)
  on_field (λ v. v.mzxid) (λ v x. record v { mzxid = x }) (ia_deserialize_long host)
  on_field (λ v. v.ctime) (λ v x. record v { ctime = x }) (ia_deserialize_long host)
  on_field (λ v. v.mtime) (λ v x. record v { mtime = x }) (ia_deserialize_long host)
  on_field (λ v. v.version) (λ v x. record v { version = x }) (ia_deserialize_int host)
  on_field (λ v. v.cversion) (λ v x. record v { cversion = x }) (ia_deserialize_int host)
  on_field (λ v. v.aversion) (λ v x. record v { aversion = x }) (ia_deserialize_int host)
  on_field (λ v. v.ephemeral_owner) (λ v x. record v { ephemeral_owner = x })
      (ia_deserialize_long host)
  on_field (λ v. v.data_length) (λ v x. record v { data_length = x }) (ia_deserialize_int host)
  on_field (λ v. v.num_children) (λ v x. record v { num_children = x }) (ia_deserialize_int host)
  on_field (λ v. v.pzxid) (λ v x. record v { pzxid = x }) (ia_deserialize_long host)
  ia_end_record
