-- ===== src/Jute/PersistedStat/Codec.antt =====
-- zookeeper.jute.c. The wire form of the records of Jute/PersistedStat.antt, which the serializers append and
-- the deserializers read back.
use zkclient.Prelude.{List, ℕ, ◌++◌}
use zkclient.Host.{Host}
use zkclient.Archive.Appends.{
  Writes, Writes-end, Writes-start, Writes-then, oa_serialize_int-Writes, oa_serialize_long-Writes,
}
use zkclient.Archive.Loads.{Loads, ia_deserialize_int-Loads, ia_deserialize_long-Loads}
use zkclient.Archive.Parts.{Loads-end, Loads-field, Loads-start, Loads-then}
use zkclient.Archive.SafeParts.{Safe-end, Safe-field, Safe-start, Safe-then}
use zkclient.Archive.Safety.{IsUsable, Safe, ia_deserialize_int-Safe, ia_deserialize_long-Safe}
use zkclient.Archive.Wire.{IsInt, IsLong, wire_int, wire_long}
use zkclient.Jute.PersistedStat.{
  StatPersisted, StatPersistedV1, deserialize_stat_persisted, deserialize_stat_persisted_v1,
  serialize_stat_persisted, serialize_stat_persisted_v1,
}

unfoldable pub wire_stat_persisted : StatPersisted → List ℕ
wire_stat_persisted v =
    wire_long v.czxid
    ++ (wire_long v.mzxid
        ++ (wire_long v.ctime
            ++ (wire_long v.mtime
                ++ (wire_int v.version
                    ++ (wire_int v.cversion
                        ++ (wire_int v.aversion
                            ++ (wire_long v.ephemeral_owner ++ wire_long v.pzxid)))))))

pub record IsStatPersisted (v : StatPersisted) : Type 0 where
  pub czxid : IsLong v.czxid
  pub mzxid : IsLong v.mzxid
  pub ctime : IsLong v.ctime
  pub mtime : IsLong v.mtime
  pub version : IsInt v.version
  pub cversion : IsInt v.cversion
  pub aversion : IsInt v.aversion
  pub ephemeral_owner : IsLong v.ephemeral_owner
  pub pzxid : IsLong v.pzxid

pub serialize_stat_persisted-Writes :
    (host : Host) (v : StatPersisted)
    → IsStatPersisted v
    → Writes host (serialize_stat_persisted host v) (wire_stat_persisted v)
unfolding serialize_stat_persisted wire_stat_persisted
serialize_stat_persisted-Writes host v h = Writes-start (
    Writes-then (oa_serialize_long-Writes host v.czxid) (
      Writes-then (oa_serialize_long-Writes host v.mzxid) (
        Writes-then (oa_serialize_long-Writes host v.ctime) (
          Writes-then (oa_serialize_long-Writes host v.mtime) (
            Writes-then (oa_serialize_int-Writes host v.version) (
              Writes-then (oa_serialize_int-Writes host v.cversion) (
                Writes-then (oa_serialize_int-Writes host v.aversion) (
                  Writes-then (oa_serialize_long-Writes host v.ephemeral_owner)
                    (Writes-end (oa_serialize_long-Writes host v.pzxid))))))))))

pub deserialize_stat_persisted-Loads :
    (host : Host) (v old : StatPersisted)
    → IsStatPersisted v
    → Loads (deserialize_stat_persisted host) (wire_stat_persisted v) old v
unfolding deserialize_stat_persisted wire_stat_persisted
deserialize_stat_persisted-Loads host v old h = Loads-start (
    Loads-then
      (Loads-field (λ v. v.czxid) (λ v x. record v { czxid = x }) _
        (ia_deserialize_long-Loads host v.czxid _ h.czxid))
      (Loads-then
        (Loads-field (λ v. v.mzxid) (λ v x. record v { mzxid = x }) _
          (ia_deserialize_long-Loads host v.mzxid _ h.mzxid))
        (Loads-then
          (Loads-field (λ v. v.ctime) (λ v x. record v { ctime = x }) _
            (ia_deserialize_long-Loads host v.ctime _ h.ctime))
          (Loads-then
            (Loads-field (λ v. v.mtime) (λ v x. record v { mtime = x }) _
              (ia_deserialize_long-Loads host v.mtime _ h.mtime))
            (Loads-then
              (Loads-field (λ v. v.version) (λ v x. record v { version = x }) _
                (ia_deserialize_int-Loads host v.version _ h.version))
              (Loads-then
                (Loads-field (λ v. v.cversion) (λ v x. record v { cversion = x }) _
                  (ia_deserialize_int-Loads host v.cversion _ h.cversion))
                (Loads-then
                  (Loads-field (λ v. v.aversion) (λ v x. record v { aversion = x }) _
                    (ia_deserialize_int-Loads host v.aversion _ h.aversion))
                  (Loads-then
                    (Loads-field (λ v. v.ephemeral_owner) (λ v x. record v { ephemeral_owner = x })
                      _ (ia_deserialize_long-Loads host v.ephemeral_owner _ h.ephemeral_owner))
                    (Loads-end (
                      Loads-field (λ v. v.pzxid) (λ v x. record v { pzxid = x }) _
                        (ia_deserialize_long-Loads host v.pzxid _ h.pzxid)))))))))))

pub deserialize_stat_persisted-Safe :
    (host : Host) → IsUsable host → Safe (deserialize_stat_persisted host)
unfolding deserialize_stat_persisted
deserialize_stat_persisted-Safe host k = Safe-start (
    Safe-then (Safe-field _ _ (ia_deserialize_long-Safe host k)) (
      Safe-then (Safe-field _ _ (ia_deserialize_long-Safe host k)) (
        Safe-then (Safe-field _ _ (ia_deserialize_long-Safe host k)) (
          Safe-then (Safe-field _ _ (ia_deserialize_long-Safe host k)) (
            Safe-then (Safe-field _ _ (ia_deserialize_int-Safe host k)) (
              Safe-then (Safe-field _ _ (ia_deserialize_int-Safe host k)) (
                Safe-then (Safe-field _ _ (ia_deserialize_int-Safe host k)) (
                  Safe-then (Safe-field _ _ (ia_deserialize_long-Safe host k))
                    (Safe-end (Safe-field _ _ (ia_deserialize_long-Safe host k)))))))))))

unfoldable pub wire_stat_persisted_v1 : StatPersistedV1 → List ℕ
wire_stat_persisted_v1 v =
    wire_long v.czxid
    ++ (wire_long v.mzxid
        ++ (wire_long v.ctime
            ++ (wire_long v.mtime
                ++ (wire_int v.version
                    ++ (wire_int v.cversion
                        ++ (wire_int v.aversion ++ wire_long v.ephemeral_owner))))))

pub record IsStatPersistedV1 (v : StatPersistedV1) : Type 0 where
  pub czxid : IsLong v.czxid
  pub mzxid : IsLong v.mzxid
  pub ctime : IsLong v.ctime
  pub mtime : IsLong v.mtime
  pub version : IsInt v.version
  pub cversion : IsInt v.cversion
  pub aversion : IsInt v.aversion
  pub ephemeral_owner : IsLong v.ephemeral_owner

pub serialize_stat_persisted_v1-Writes :
    (host : Host) (v : StatPersistedV1)
    → IsStatPersistedV1 v
    → Writes host (serialize_stat_persisted_v1 host v) (wire_stat_persisted_v1 v)
unfolding serialize_stat_persisted_v1 wire_stat_persisted_v1
serialize_stat_persisted_v1-Writes host v h = Writes-start (
    Writes-then (oa_serialize_long-Writes host v.czxid) (
      Writes-then (oa_serialize_long-Writes host v.mzxid) (
        Writes-then (oa_serialize_long-Writes host v.ctime) (
          Writes-then (oa_serialize_long-Writes host v.mtime) (
            Writes-then (oa_serialize_int-Writes host v.version) (
              Writes-then (oa_serialize_int-Writes host v.cversion) (
                Writes-then (oa_serialize_int-Writes host v.aversion)
                  (Writes-end (oa_serialize_long-Writes host v.ephemeral_owner)))))))))

pub deserialize_stat_persisted_v1-Loads :
    (host : Host) (v old : StatPersistedV1)
    → IsStatPersistedV1 v
    → Loads (deserialize_stat_persisted_v1 host) (wire_stat_persisted_v1 v) old v
unfolding deserialize_stat_persisted_v1 wire_stat_persisted_v1
deserialize_stat_persisted_v1-Loads host v old h = Loads-start (
    Loads-then
      (Loads-field (λ v. v.czxid) (λ v x. record v { czxid = x }) _
        (ia_deserialize_long-Loads host v.czxid _ h.czxid))
      (Loads-then
        (Loads-field (λ v. v.mzxid) (λ v x. record v { mzxid = x }) _
          (ia_deserialize_long-Loads host v.mzxid _ h.mzxid))
        (Loads-then
          (Loads-field (λ v. v.ctime) (λ v x. record v { ctime = x }) _
            (ia_deserialize_long-Loads host v.ctime _ h.ctime))
          (Loads-then
            (Loads-field (λ v. v.mtime) (λ v x. record v { mtime = x }) _
              (ia_deserialize_long-Loads host v.mtime _ h.mtime))
            (Loads-then
              (Loads-field (λ v. v.version) (λ v x. record v { version = x }) _
                (ia_deserialize_int-Loads host v.version _ h.version))
              (Loads-then
                (Loads-field (λ v. v.cversion) (λ v x. record v { cversion = x }) _
                  (ia_deserialize_int-Loads host v.cversion _ h.cversion))
                (Loads-then
                  (Loads-field (λ v. v.aversion) (λ v x. record v { aversion = x }) _
                    (ia_deserialize_int-Loads host v.aversion _ h.aversion))
                  (Loads-end (
                    Loads-field (λ v. v.ephemeral_owner) (λ v x. record v { ephemeral_owner = x }) _
                      (ia_deserialize_long-Loads host v.ephemeral_owner _
                        h.ephemeral_owner))))))))))

pub deserialize_stat_persisted_v1-Safe :
    (host : Host) → IsUsable host → Safe (deserialize_stat_persisted_v1 host)
unfolding deserialize_stat_persisted_v1
deserialize_stat_persisted_v1-Safe host k = Safe-start (
    Safe-then (Safe-field _ _ (ia_deserialize_long-Safe host k)) (
      Safe-then (Safe-field _ _ (ia_deserialize_long-Safe host k)) (
        Safe-then (Safe-field _ _ (ia_deserialize_long-Safe host k)) (
          Safe-then (Safe-field _ _ (ia_deserialize_long-Safe host k)) (
            Safe-then (Safe-field _ _ (ia_deserialize_int-Safe host k)) (
              Safe-then (Safe-field _ _ (ia_deserialize_int-Safe host k)) (
                Safe-then (Safe-field _ _ (ia_deserialize_int-Safe host k))
                  (Safe-end (Safe-field _ _ (ia_deserialize_long-Safe host k))))))))))
