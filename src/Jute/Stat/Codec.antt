-- ===== src/Jute/Stat/Codec.antt =====
-- zookeeper.jute.c. The wire form of the records of Jute/Stat.antt, which the serializers append and
-- the deserializers read back.
use zkclient.Prelude.{List, ℕ, ◌++◌}
use zkclient.Host.{Host}
use zkclient.Archive.Appends.{
  Writes, Writes-end, Writes-start, Writes-then, oa_serialize_int-Writes, oa_serialize_long-Writes,
}
use zkclient.Archive.Loads.{Loads, ia_deserialize_int-Loads, ia_deserialize_long-Loads}
use zkclient.Archive.Parts.{Loads-end, Loads-field, Loads-start, Loads-then}
use zkclient.Archive.SafeParts.{Safe-end, Safe-field, Safe-start, Safe-then}
use zkclient.Archive.Safety.{IsUsable, Safe, ia_deserialize_int-Safe, ia_deserialize_long-Safe}
use zkclient.Archive.Wire.{IsInt, IsLong, wire_int, wire_long}
use zkclient.Jute.Stat.{Stat, deserialize_stat, serialize_stat}

unfoldable pub wire_stat : Stat → List ℕ
wire_stat v =
    wire_long v.czxid
    ++ (wire_long v.mzxid
        ++ (wire_long v.ctime
            ++ (wire_long v.mtime
                ++ (wire_int v.version
                    ++ (wire_int v.cversion
                        ++ (wire_int v.aversion
                            ++ (wire_long v.ephemeral_owner
                                ++ (wire_int v.data_length
                                    ++ (wire_int v.num_children ++ wire_long v.pzxid)))))))))

pub record IsStat (v : Stat) : Type 0 where
  pub czxid : IsLong v.czxid
  pub mzxid : IsLong v.mzxid
  pub ctime : IsLong v.ctime
  pub mtime : IsLong v.mtime
  pub version : IsInt v.version
  pub cversion : IsInt v.cversion
  pub aversion : IsInt v.aversion
  pub ephemeral_owner : IsLong v.ephemeral_owner
  pub data_length : IsInt v.data_length
  pub num_children : IsInt v.num_children
  pub pzxid : IsLong v.pzxid

pub serialize_stat-Writes :
    (host : Host) (v : Stat) → IsStat v → Writes host (serialize_stat host v) (wire_stat v)
unfolding serialize_stat wire_stat
serialize_stat-Writes host v h = Writes-start (
    Writes-then (oa_serialize_long-Writes host v.czxid) (
      Writes-then (oa_serialize_long-Writes host v.mzxid) (
        Writes-then (oa_serialize_long-Writes host v.ctime) (
          Writes-then (oa_serialize_long-Writes host v.mtime) (
            Writes-then (oa_serialize_int-Writes host v.version) (
              Writes-then (oa_serialize_int-Writes host v.cversion) (
                Writes-then (oa_serialize_int-Writes host v.aversion) (
                  Writes-then (oa_serialize_long-Writes host v.ephemeral_owner) (
                    Writes-then (oa_serialize_int-Writes host v.data_length) (
                      Writes-then (oa_serialize_int-Writes host v.num_children)
                        (Writes-end (oa_serialize_long-Writes host v.pzxid))))))))))))

pub deserialize_stat-Loads :
    (host : Host) (v old : Stat) → IsStat v → Loads (deserialize_stat host) (wire_stat v) old v
unfolding deserialize_stat wire_stat
deserialize_stat-Loads host v old h = Loads-start (
    Loads-then
      (Loads-field (λ v. v.czxid) (λ v x. record v { czxid = x }) _
        (ia_deserialize_long-Loads host v.czxid _ h.czxid))
      (Loads-then
        (Loads-field (λ v. v.mzxid) (λ v x. record v { mzxid = x }) _
          (ia_deserialize_long-Loads host v.mzxid _ h.mzxid))
        (Loads-then
          (Loads-field (λ v. v.ctime) (λ v x. record v { ctime = x }) _
            (ia_deserialize_long-Loads host v.ctime _ h.ctime))
          (Loads-then
            (Loads-field (λ v. v.mtime) (λ v x. record v { mtime = x }) _
              (ia_deserialize_long-Loads host v.mtime _ h.mtime))
            (Loads-then
              (Loads-field (λ v. v.version) (λ v x. record v { version = x }) _
                (ia_deserialize_int-Loads host v.version _ h.version))
              (Loads-then
                (Loads-field (λ v. v.cversion) (λ v x. record v { cversion = x }) _
                  (ia_deserialize_int-Loads host v.cversion _ h.cversion))
                (Loads-then
                  (Loads-field (λ v. v.aversion) (λ v x. record v { aversion = x }) _
                    (ia_deserialize_int-Loads host v.aversion _ h.aversion))
                  (Loads-then
                    (Loads-field (λ v. v.ephemeral_owner) (λ v x. record v { ephemeral_owner = x })
                      _ (ia_deserialize_long-Loads host v.ephemeral_owner _ h.ephemeral_owner))
                    (Loads-then
                      (Loads-field (λ v. v.data_length) (λ v x. record v { data_length = x }) _
                        (ia_deserialize_int-Loads host v.data_length _ h.data_length))
                      (Loads-then
                        (Loads-field (λ v. v.num_children) (λ v x. record v { num_children = x }) _
                          (ia_deserialize_int-Loads host v.num_children _ h.num_children))
                        (Loads-end (
                          Loads-field (λ v. v.pzxid) (λ v x. record v { pzxid = x }) _
                            (ia_deserialize_long-Loads host v.pzxid _ h.pzxid)))))))))))))

pub deserialize_stat-Safe : (host : Host) → IsUsable host → Safe (deserialize_stat host)
unfolding deserialize_stat
deserialize_stat-Safe host k = Safe-start (
    Safe-then (Safe-field _ _ (ia_deserialize_long-Safe host k)) (
      Safe-then (Safe-field _ _ (ia_deserialize_long-Safe host k)) (
        Safe-then (Safe-field _ _ (ia_deserialize_long-Safe host k)) (
          Safe-then (Safe-field _ _ (ia_deserialize_long-Safe host k)) (
            Safe-then (Safe-field _ _ (ia_deserialize_int-Safe host k)) (
              Safe-then (Safe-field _ _ (ia_deserialize_int-Safe host k)) (
                Safe-then (Safe-field _ _ (ia_deserialize_int-Safe host k)) (
                  Safe-then (Safe-field _ _ (ia_deserialize_long-Safe host k)) (
                    Safe-then (Safe-field _ _ (ia_deserialize_int-Safe host k)) (
                      Safe-then (Safe-field _ _ (ia_deserialize_int-Safe host k))
                        (Safe-end (Safe-field _ _ (ia_deserialize_long-Safe host k)))))))))))))
