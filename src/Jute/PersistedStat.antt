-- ===== src/Jute/PersistedStat.antt =====
-- zookeeper.jute.c and zookeeper.jute.h. The status of a node as servers store it.
pub mod Codec
use zkclient.Prelude.{ℕ}
use zkclient.Outcome.{Step, ◌>>◌}
use zkclient.Host.{Host}
use zkclient.Archive.{BuffStruct}
use zkclient.Archive.Input.{
  Load, ia_deserialize_int, ia_deserialize_long, ia_end_record, ia_start_record, on_field,
}
use zkclient.Archive.Output.{oa_end_record, oa_serialize_int, oa_serialize_long, oa_start_record}

pub record StatPersisted : Type 0 where
  pub czxid : ℕ
  pub mzxid : ℕ
  pub ctime : ℕ
  pub mtime : ℕ
  pub version : ℕ
  pub cversion : ℕ
  pub aversion : ℕ
  pub ephemeral_owner : ℕ
  pub pzxid : ℕ

unfoldable pub serialize_stat_persisted : Host → StatPersisted → Step BuffStruct
serialize_stat_persisted host v = do
  oa_start_record
  oa_serialize_long host v.czxid
  oa_serialize_long host v.mzxid
  oa_serialize_long host v.ctime
  oa_serialize_long host v.mtime
  oa_serialize_int host v.version
  oa_serialize_int host v.cversion
  oa_serialize_int host v.aversion
  oa_serialize_long host v.ephemeral_owner
  oa_serialize_long host v.pzxid
  oa_end_record

unfoldable pub deserialize_stat_persisted : Host → Load StatPersisted
deserialize_stat_persisted host = do
  ia_start_record
  on_field (λ v. v.czxid) (λ v x. record v { czxid = x }) (ia_deserialize_long host)
  on_field (λ v. v.mzxid) (λ v x. record v { mzxid = x }) (ia_deserialize_long host)
  on_field (λ v. v.ctime) (λ v x. record v { ctime = x }) (ia_deserialize_long host)
  on_field (λ v. v.mtime) (λ v x. record v { mtime = x }) (ia_deserialize_long host)
  on_field (λ v. v.version) (λ v x. record v { version = x }) (ia_deserialize_int host)
  on_field (λ v. v.cversion) (λ v x. record v { cversion = x }) (ia_deserialize_int host)
  on_field (λ v. v.aversion) (λ v x. record v { aversion = x }) (ia_deserialize_int host)
  on_field (λ v. v.ephemeral_owner) (λ v x. record v { ephemeral_owner = x })
      (ia_deserialize_long host)
  on_field (λ v. v.pzxid) (λ v x. record v { pzxid = x }) (ia_deserialize_long host)
  ia_end_record

pub record StatPersistedV1 : Type 0 where
  pub czxid : ℕ
  pub mzxid : ℕ
  pub ctime : ℕ
  pub mtime : ℕ
  pub version : ℕ
  pub cversion : ℕ
  pub aversion : ℕ
  pub ephemeral_owner : ℕ

unfoldable pub serialize_stat_persisted_v1 : Host → StatPersistedV1 → Step BuffStruct
serialize_stat_persisted_v1 host v = do
  oa_start_record
  oa_serialize_long host v.czxid
  oa_serialize_long host v.mzxid
  oa_serialize_long host v.ctime
  oa_serialize_long host v.mtime
  oa_serialize_int host v.version
  oa_serialize_int host v.cversion
  oa_serialize_int host v.aversion
  oa_serialize_long host v.ephemeral_owner
  oa_end_record

unfoldable pub deserialize_stat_persisted_v1 : Host → Load StatPersistedV1
deserialize_stat_persisted_v1 host = do
  ia_start_record
  on_field (λ v. v.czxid) (λ v x. record v { czxid = x }) (ia_deserialize_long host)
  on_field (λ v. v.mzxid) (λ v x. record v { mzxid = x }) (ia_deserialize_long host)
  on_field (λ v. v.ctime) (λ v x. record v { ctime = x }) (ia_deserialize_long host)
  on_field (λ v. v.mtime) (λ v x. record v { mtime = x }) (ia_deserialize_long host)
  on_field (λ v. v.version) (λ v x. record v { version = x }) (ia_deserialize_int host)
  on_field (λ v. v.cversion) (λ v x. record v { cversion = x }) (ia_deserialize_int host)
  on_field (λ v. v.aversion) (λ v x. record v { aversion = x }) (ia_deserialize_int host)
  on_field (λ v. v.ephemeral_owner) (λ v x. record v { ephemeral_owner = x })
      (ia_deserialize_long host)
  ia_end_record
