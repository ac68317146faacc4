-- ===== src/Jute/Quorum/Codec.antt =====
-- zookeeper.jute.c. The wire form of the records of Jute/Quorum.antt, which the serializers append and
-- the deserializers read back.
use zkclient.Prelude.{List, ℕ, ◌++◌}
use zkclient.Host.{Host}
use zkclient.Archive.Appends.{
  Writes, Writes-end, Writes-start, Writes-then, oa_serialize_int-Writes, oa_serialize_long-Writes,
}
use zkclient.Archive.Loads.{IsGenerous, Loads, ia_deserialize_int-Loads, ia_deserialize_long-Loads}
use zkclient.Archive.Parts.{
  Loads-end, Loads-field, Loads-start, Loads-then, ia_deserialize_buffer-Loads,
}
use zkclient.Archive.SafeParts.{
  Safe-end, Safe-field, Safe-start, Safe-then, ia_deserialize_buffer-Safe,
}
use zkclient.Archive.Safety.{
  GrantsVectors, IsUsable, Safe, ia_deserialize_int-Safe, ia_deserialize_long-Safe,
}
use zkclient.Archive.Texts.{oa_serialize_buffer-Writes}
use zkclient.Archive.Wire.{
  IsBuffer, IsBuffer-IsSendable, IsInt, IsLong, wire_buffer, wire_int, wire_long,
}
use zkclient.Jute.Acl.Codec.{
  IsIdVector, deserialize_id_vector-Loads, deserialize_id_vector-Safe, serialize_id_vector-Writes,
  wire_id_vector,
}
use zkclient.Jute.Quorum.{
  FileHeader, LearnerInfo, QuorumPacket, deserialize_file_header, deserialize_learner_info,
  deserialize_quorum_packet, serialize_file_header, serialize_learner_info, serialize_quorum_packet,
}

unfoldable pub wire_learner_info : LearnerInfo → List ℕ
wire_learner_info v = wire_long v.serverid ++ wire_int v.protocol_version

pub record IsLearnerInfo (v : LearnerInfo) : Type 0 where
  pub serverid : IsLong v.serverid
  pub protocol_version : IsInt v.protocol_version

pub serialize_learner_info-Writes :
    (host : Host) (v : LearnerInfo)
    → IsLearnerInfo v
    → Writes host (serialize_learner_info host v) (wire_learner_info v)
unfolding serialize_learner_info wire_learner_info
serialize_learner_info-Writes host v h = Writes-start (
    Writes-then (oa_serialize_long-Writes host v.serverid)
      (Writes-end (oa_serialize_int-Writes host v.protocol_version)))

pub deserialize_learner_info-Loads :
    (host : Host) (v old : LearnerInfo)
    → IsLearnerInfo v
    → Loads (deserialize_learner_info host) (wire_learner_info v) old v
unfolding deserialize_learner_info wire_learner_info
deserialize_learner_info-Loads host v old h = Loads-start (
    Loads-then
      (Loads-field (λ v. v.serverid) (λ v x. record v { serverid = x }) _
        (ia_deserialize_long-Loads host v.serverid _ h.serverid))
      (Loads-end (
        Loads-field (λ v. v.protocol_version) (λ v x. record v { protocol_version = x }) _
          (ia_deserialize_int-Loads host v.protocol_version _ h.protocol_version))))

pub deserialize_learner_info-Safe :
    (host : Host) → IsUsable host → Safe (deserialize_learner_info host)
unfolding deserialize_learner_info
deserialize_learner_info-Safe host k = Safe-start (
    Safe-then (Safe-field _ _ (ia_deserialize_long-Safe host k))
      (Safe-end (Safe-field _ _ (ia_deserialize_int-Safe host k))))

unfoldable pub wire_quorum_packet : QuorumPacket → List ℕ
wire_quorum_packet v =
    wire_int v.type
    ++ (wire_long v.zxid ++ (wire_buffer v.data_buffer ++ wire_id_vector v.authinfo))

pub record IsQuorumPacket (v : QuorumPacket) : Type 0 where
  pub type : IsInt v.type
  pub zxid : IsLong v.zxid
  pub data_buffer : IsBuffer v.data_buffer
  pub authinfo : IsIdVector v.authinfo

pub serialize_quorum_packet-Writes :
    (host : Host) (v : QuorumPacket)
    → IsQuorumPacket v
    → Writes host (serialize_quorum_packet host v) (wire_quorum_packet v)
unfolding serialize_quorum_packet wire_quorum_packet
serialize_quorum_packet-Writes host v h = Writes-start (
    Writes-then (oa_serialize_int-Writes host v.type) (
      Writes-then (oa_serialize_long-Writes host v.zxid) (
        Writes-then
          (oa_serialize_buffer-Writes host v.data_buffer
            (IsBuffer-IsSendable v.data_buffer h.data_buffer))
          (Writes-end (serialize_id_vector-Writes host v.authinfo h.authinfo)))))

pub deserialize_quorum_packet-Loads :
    (host : Host) (v old : QuorumPacket)
    → IsGenerous host
    → IsQuorumPacket v
    → Loads (deserialize_quorum_packet host) (wire_quorum_packet v) old v
unfolding deserialize_quorum_packet wire_quorum_packet
deserialize_quorum_packet-Loads host v old g h = Loads-start (
    Loads-then
      (Loads-field (λ v. v.type) (λ v x. record v { type = x }) _
        (ia_deserialize_int-Loads host v.type _ h.type))
      (Loads-then
        (Loads-field (λ v. v.zxid) (λ v x. record v { zxid = x }) _
          (ia_deserialize_long-Loads host v.zxid _ h.zxid))
        (Loads-then
          (Loads-field (λ v. v.data_buffer) (λ v x. record v { data_buffer = x }) _
            (ia_deserialize_buffer-Loads host v.data_buffer _ g h.data_buffer))
          (Loads-end (
            Loads-field (λ v. v.authinfo) (λ v x. record v { authinfo = x }) _
              (deserialize_id_vector-Loads host v.authinfo _ g h.authinfo))))))

pub deserialize_quorum_packet-Safe :
    (host : Host) → IsUsable host → GrantsVectors host → Safe (deserialize_quorum_packet host)
unfolding deserialize_quorum_packet
deserialize_quorum_packet-Safe host k room = Safe-start (
    Safe-then (Safe-field _ _ (ia_deserialize_int-Safe host k)) (
      Safe-then (Safe-field _ _ (ia_deserialize_long-Safe host k)) (
        Safe-then (Safe-field _ _ (ia_deserialize_buffer-Safe host k))
          (Safe-end (Safe-field _ _ (deserialize_id_vector-Safe host k room))))))

unfoldable pub wire_file_header : FileHeader → List ℕ
wire_file_header v = wire_int v.magic ++ (wire_int v.version ++ wire_long v.dbid)

pub record IsFileHeader (v : FileHeader) : Type 0 where
  pub magic : IsInt v.magic
  pub version : IsInt v.version
  pub dbid : IsLong v.dbid

pub serialize_file_header-Writes :
    (host : Host) (v : FileHeader)
    → IsFileHeader v
    → Writes host (serialize_file_header host v) (wire_file_header v)
unfolding serialize_file_header wire_file_header
serialize_file_header-Writes host v h = Writes-start (
    Writes-then (oa_serialize_int-Writes host v.magic) (
      Writes-then (oa_serialize_int-Writes host v.version)
        (Writes-end (oa_serialize_long-Writes host v.dbid))))

pub deserialize_file_header-Loads :
    (host : Host) (v old : FileHeader)
    → IsFileHeader v
    → Loads (deserialize_file_header host) (wire_file_header v) old v
unfolding deserialize_file_header wire_file_header
deserialize_file_header-Loads host v old h = Loads-start (
    Loads-then
      (Loads-field (λ v. v.magic) (λ v x. record v { magic = x }) _
        (ia_deserialize_int-Loads host v.magic _ h.magic))
      (Loads-then
        (Loads-field (λ v. v.version) (λ v x. record v { version = x }) _
          (ia_deserialize_int-Loads host v.version _ h.version))
        (Loads-end (
          Loads-field (λ v. v.dbid) (λ v x. record v { dbid = x }) _
            (ia_deserialize_long-Loads host v.dbid _ h.dbid)))))

pub deserialize_file_header-Safe :
    (host : Host) → IsUsable host → Safe (deserialize_file_header host)
unfolding deserialize_file_header
deserialize_file_header-Safe host k = Safe-start (
    Safe-then (Safe-field _ _ (ia_deserialize_int-Safe host k)) (
      Safe-then (Safe-field _ _ (ia_deserialize_int-Safe host k))
        (Safe-end (Safe-field _ _ (ia_deserialize_long-Safe host k)))))
