-- ===== src/Jute/Header/Codec.antt =====
-- zookeeper.jute.c. The wire form of the records of Jute/Header.antt, which the serializers append and
-- the deserializers read back.
use zkclient.Prelude.{List, ℕ, ◌++◌}
use zkclient.Host.{Host}
use zkclient.Archive.Appends.{
  Writes, Writes-end, Writes-start, Writes-then, oa_serialize_bool-Writes, oa_serialize_int-Writes,
  oa_serialize_long-Writes,
}
use zkclient.Archive.Loads.{
  IsGenerous, Loads, ia_deserialize_bool-Loads, ia_deserialize_int-Loads, ia_deserialize_long-Loads,
}
use zkclient.Archive.Parts.{
  Loads-end, Loads-field, Loads-start, Loads-then, ia_deserialize_buffer-Loads,
  ia_deserialize_string-Loads,
}
use zkclient.Archive.SafeParts.{
  Safe-end, Safe-field, Safe-start, Safe-then, ia_deserialize_buffer-Safe,
  ia_deserialize_string-Safe,
}
use zkclient.Archive.Safety.{
  IsUsable, Safe, ia_deserialize_bool-Safe, ia_deserialize_int-Safe, ia_deserialize_long-Safe,
}
use zkclient.Archive.Texts.{oa_serialize_buffer-Writes, oa_serialize_string-Writes}
use zkclient.Archive.Wire.{
  IsBool, IsBuffer, IsBuffer-IsSendable, IsInt, IsLong, IsText, wire_bool, wire_buffer, wire_int,
  wire_long, wire_string,
}
use zkclient.Jute.Header.{
  AuthPacket, MultiHeader, ReplyHeader, RequestHeader, deserialize_auth_packet,
  deserialize_multi_header, deserialize_reply_header, deserialize_request_header,
  serialize_auth_packet, serialize_multi_header, serialize_reply_header, serialize_request_header,
}

unfoldable pub wire_request_header : RequestHeader → List ℕ
wire_request_header v = wire_int v.xid ++ wire_int v.type

pub record IsRequestHeader (v : RequestHeader) : Type 0 where
  pub xid : IsInt v.xid
  pub type : IsInt v.type

pub serialize_request_header-Writes :
    (host : Host) (v : RequestHeader)
    → IsRequestHeader v
    → Writes host (serialize_request_header host v) (wire_request_header v)
unfolding serialize_request_header wire_request_header
serialize_request_header-Writes host v h = Writes-start (
    Writes-then (oa_serialize_int-Writes host v.xid)
      (Writes-end (oa_serialize_int-Writes host v.type)))

pub deserialize_request_header-Loads :
    (host : Host) (v old : RequestHeader)
    → IsRequestHeader v
    → Loads (deserialize_request_header host) (wire_request_header v) old v
unfolding deserialize_request_header wire_request_header
deserialize_request_header-Loads host v old h = Loads-start (
    Loads-then
      (Loads-field (λ v. v.xid) (λ v x. record v { xid = x }) _
        (ia_deserialize_int-Loads host v.xid _ h.xid))
      (Loads-end (
        Loads-field (λ v. v.type) (λ v x. record v { type = x }) _
          (ia_deserialize_int-Loads host v.type _ h.type))))

pub deserialize_request_header-Safe :
    (host : Host) → IsUsable host → Safe (deserialize_request_header host)
unfolding deserialize_request_header
deserialize_request_header-Safe host k = Safe-start (
    Safe-then (Safe-field _ _ (ia_deserialize_int-Safe host k))
      (Safe-end (Safe-field _ _ (ia_deserialize_int-Safe host k))))

unfoldable pub wire_reply_header : ReplyHeader → List ℕ
wire_reply_header v = wire_int v.xid ++ (wire_long v.zxid ++ wire_int v.err)

pub record IsReplyHeader (v : ReplyHeader) : Type 0 where
  pub xid : IsInt v.xid
  pub zxid : IsLong v.zxid
  pub err : IsInt v.err

pub serialize_reply_header-Writes :
    (host : Host) (v : ReplyHeader)
    → IsReplyHeader v
    → Writes host (serialize_reply_header host v) (wire_reply_header v)
unfolding serialize_reply_header wire_reply_header
serialize_reply_header-Writes host v h = Writes-start (
    Writes-then (oa_serialize_int-Writes host v.xid) (
      Writes-then (oa_serialize_long-Writes host v.zxid)
        (Writes-end (oa_serialize_int-Writes host v.err))))

pub deserialize_reply_header-Loads :
    (host : Host) (v old : ReplyHeader)
    → IsReplyHeader v
    → Loads (deserialize_reply_header host) (wire_reply_header v) old v
unfolding deserialize_reply_header wire_reply_header
deserialize_reply_header-Loads host v old h = Loads-start (
    Loads-then
      (Loads-field (λ v. v.xid) (λ v x. record v { xid = x }) _
        (ia_deserialize_int-Loads host v.xid _ h.xid))
      (Loads-then
        (Loads-field (λ v. v.zxid) (λ v x. record v { zxid = x }) _
          (ia_deserialize_long-Loads host v.zxid _ h.zxid))
        (Loads-end (
          Loads-field (λ v. v.err) (λ v x. record v { err = x }) _
            (ia_deserialize_int-Loads host v.err _ h.err)))))

pub deserialize_reply_header-Safe :
    (host : Host) → IsUsable host → Safe (deserialize_reply_header host)
unfolding deserialize_reply_header
deserialize_reply_header-Safe host k = Safe-start (
    Safe-then (Safe-field _ _ (ia_deserialize_int-Safe host k)) (
      Safe-then (Safe-field _ _ (ia_deserialize_long-Safe host k))
        (Safe-end (Safe-field _ _ (ia_deserialize_int-Safe host k)))))

unfoldable pub wire_multi_header : MultiHeader → List ℕ
wire_multi_header v = wire_int v.type ++ (wire_bool v.done ++ wire_int v.err)

pub record IsMultiHeader (v : MultiHeader) : Type 0 where
  pub type : IsInt v.type
  pub done : IsBool v.done
  pub err : IsInt v.err

pub serialize_multi_header-Writes :
    (host : Host) (v : MultiHeader)
    → IsMultiHeader v
    → Writes host (serialize_multi_header host v) (wire_multi_header v)
unfolding serialize_multi_header wire_multi_header
serialize_multi_header-Writes host v h = Writes-start (
    Writes-then (oa_serialize_int-Writes host v.type) (
      Writes-then (oa_serialize_bool-Writes host v.done)
        (Writes-end (oa_serialize_int-Writes host v.err))))

pub deserialize_multi_header-Loads :
    (host : Host) (v old : MultiHeader)
    → IsMultiHeader v
    → Loads (deserialize_multi_header host) (wire_multi_header v) old v
unfolding deserialize_multi_header wire_multi_header
deserialize_multi_header-Loads host v old h = Loads-start (
    Loads-then
      (Loads-field (λ v. v.type) (λ v x. record v { type = x }) _
        (ia_deserialize_int-Loads host v.type _ h.type))
      (Loads-then
        (Loads-field (λ v. v.done) (λ v x. record v { done = x }) _
          (ia_deserialize_bool-Loads host v.done _ h.done))
        (Loads-end (
          Loads-field (λ v. v.err) (λ v x. record v { err = x }) _
            (ia_deserialize_int-Loads host v.err _ h.err)))))

pub deserialize_multi_header-Safe :
    (host : Host) → IsUsable host → Safe (deserialize_multi_header host)
unfolding deserialize_multi_header
deserialize_multi_header-Safe host k = Safe-start (
    Safe-then (Safe-field _ _ (ia_deserialize_int-Safe host k)) (
      Safe-then (Safe-field _ _ (ia_deserialize_bool-Safe host k))
        (Safe-end (Safe-field _ _ (ia_deserialize_int-Safe host k)))))

unfoldable pub wire_auth_packet : AuthPacket → List ℕ
wire_auth_packet v = wire_int v.type ++ (wire_string v.scheme ++ wire_buffer v.auth)

pub record IsAuthPacket (v : AuthPacket) : Type 0 where
  pub type : IsInt v.type
  pub scheme : IsText v.scheme
  pub auth : IsBuffer v.auth

pub serialize_auth_packet-Writes :
    (host : Host) (v : AuthPacket)
    → IsAuthPacket v
    → Writes host (serialize_auth_packet host v) (wire_auth_packet v)
unfolding serialize_auth_packet wire_auth_packet
serialize_auth_packet-Writes host v h = Writes-start (
    Writes-then (oa_serialize_int-Writes host v.type) (
      Writes-then (oa_serialize_string-Writes host v.scheme h.scheme)
        (Writes-end (oa_serialize_buffer-Writes host v.auth (IsBuffer-IsSendable v.auth h.auth)))))

pub deserialize_auth_packet-Loads :
    (host : Host) (v old : AuthPacket)
    → IsGenerous host
    → IsAuthPacket v
    → Loads (deserialize_auth_packet host) (wire_auth_packet v) old v
unfolding deserialize_auth_packet wire_auth_packet
deserialize_auth_packet-Loads host v old g h = Loads-start (
    Loads-then
      (Loads-field (λ v. v.type) (λ v x. record v { type = x }) _
        (ia_deserialize_int-Loads host v.type _ h.type))
      (Loads-then
        (Loads-field (λ v. v.scheme) (λ v x. record v { scheme = x }) _
          (ia_deserialize_string-Loads host v.scheme _ g h.scheme))
        (Loads-end (
          Loads-field (λ v. v.auth) (λ v x. record v { auth = x }) _
            (ia_deserialize_buffer-Loads host v.auth _ g h.auth)))))

pub deserialize_auth_packet-Safe :
    (host : Host) → IsUsable host → Safe (deserialize_auth_packet host)
unfolding deserialize_auth_packet
deserialize_auth_packet-Safe host k = Safe-start (
    Safe-then (Safe-field _ _ (ia_deserialize_int-Safe host k)) (
      Safe-then (Safe-field _ _ (ia_deserialize_string-Safe host k))
        (Safe-end (Safe-field _ _ (ia_deserialize_buffer-Safe host k)))))
