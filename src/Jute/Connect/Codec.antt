-- ===== src/Jute/Connect/Codec.antt =====
-- zookeeper.jute.c. The wire form of the records of Jute/Connect.antt, which the serializers append and
-- the deserializers read back.
use zkclient.Prelude.{List, ℕ, ◌++◌}
use zkclient.Host.{Host}
use zkclient.Archive.Appends.{
  Writes, Writes-end, Writes-start, Writes-then, oa_serialize_int-Writes, oa_serialize_long-Writes,
}
use zkclient.Archive.Loads.{IsGenerous, Loads, ia_deserialize_int-Loads, ia_deserialize_long-Loads}
use zkclient.Archive.Parts.{
  Loads-end, Loads-field, Loads-start, Loads-then, ia_deserialize_buffer-Loads,
}
use zkclient.Archive.SafeParts.{
  Safe-end, Safe-field, Safe-start, Safe-then, ia_deserialize_buffer-Safe,
}
use zkclient.Archive.Safety.{IsUsable, Safe, ia_deserialize_int-Safe, ia_deserialize_long-Safe}
use zkclient.Archive.Texts.{oa_serialize_buffer-Writes}
use zkclient.Archive.Wire.{
  IsBuffer, IsBuffer-IsSendable, IsInt, IsLong, wire_buffer, wire_int, wire_long,
}
use zkclient.Jute.Connect.{
  ConnectRequest, ConnectResponse, deserialize_connect_request, deserialize_connect_response,
  serialize_connect_request, serialize_connect_response,
}

unfoldable pub wire_connect_request : ConnectRequest → List ℕ
wire_connect_request v =
    wire_int v.protocol_version
    ++ (wire_long v.last_zxid_seen
        ++ (wire_int v.time_out ++ (wire_long v.session_id ++ wire_buffer v.passwd)))

pub record IsConnectRequest (v : ConnectRequest) : Type 0 where
  pub protocol_version : IsInt v.protocol_version
  pub last_zxid_seen : IsLong v.last_zxid_seen
  pub time_out : IsInt v.time_out
  pub session_id : IsLong v.session_id
  pub passwd : IsBuffer v.passwd

pub serialize_connect_request-Writes :
    (host : Host) (v : ConnectRequest)
    → IsConnectRequest v
    → Writes host (serialize_connect_request host v) (wire_connect_request v)
unfolding serialize_connect_request wire_connect_request
serialize_connect_request-Writes host v h = Writes-start (
    Writes-then (oa_serialize_int-Writes host v.protocol_version) (
      Writes-then (oa_serialize_long-Writes host v.last_zxid_seen) (
        Writes-then (oa_serialize_int-Writes host v.time_out) (
          Writes-then (oa_serialize_long-Writes host v.session_id) (
            Writes-end (
              oa_serialize_buffer-Writes host v.passwd (IsBuffer-IsSendable v.passwd h.passwd)))))))

pub deserialize_connect_request-Loads :
    (host : Host) (v old : ConnectRequest)
    → IsGenerous host
    → IsConnectRequest v
    → Loads (deserialize_connect_request host) (wire_connect_request v) old v
unfolding deserialize_connect_request wire_connect_request
deserialize_connect_request-Loads host v old g h = Loads-start (
    Loads-then
      (Loads-field (λ v. v.protocol_version) (λ v x. record v { protocol_version = x }) _
        (ia_deserialize_int-Loads host v.protocol_version _ h.protocol_version))
      (Loads-then
        (Loads-field (λ v. v.last_zxid_seen) (λ v x. record v { last_zxid_seen = x }) _
          (ia_deserialize_long-Loads host v.last_zxid_seen _ h.last_zxid_seen))
        (Loads-then
          (Loads-field (λ v. v.time_out) (λ v x. record v { time_out = x }) _
            (ia_deserialize_int-Loads host v.time_out _ h.time_out))
          (Loads-then
            (Loads-field (λ v. v.session_id) (λ v x. record v { session_id = x }) _
              (ia_deserialize_long-Loads host v.session_id _ h.session_id))
            (Loads-end (
              Loads-field (λ v. v.passwd) (λ v x. record v { passwd = x }) _
                (ia_deserialize_buffer-Loads host v.passwd _ g h.passwd)))))))

pub deserialize_connect_request-Safe :
    (host : Host) → IsUsable host → Safe (deserialize_connect_request host)
unfolding deserialize_connect_request
deserialize_connect_request-Safe host k = Safe-start (
    Safe-then (Safe-field _ _ (ia_deserialize_int-Safe host k)) (
      Safe-then (Safe-field _ _ (ia_deserialize_long-Safe host k)) (
        Safe-then (Safe-field _ _ (ia_deserialize_int-Safe host k)) (
          Safe-then (Safe-field _ _ (ia_deserialize_long-Safe host k))
            (Safe-end (Safe-field _ _ (ia_deserialize_buffer-Safe host k)))))))

unfoldable pub wire_connect_response : ConnectResponse → List ℕ
wire_connect_response v =
    wire_int v.protocol_version
    ++ (wire_int v.time_out ++ (wire_long v.session_id ++ wire_buffer v.passwd))

pub record IsConnectResponse (v : ConnectResponse) : Type 0 where
  pub protocol_version : IsInt v.protocol_version
  pub time_out : IsInt v.time_out
  pub session_id : IsLong v.session_id
  pub passwd : IsBuffer v.passwd

pub serialize_connect_response-Writes :
    (host : Host) (v : ConnectResponse)
    → IsConnectResponse v
    → Writes host (serialize_connect_response host v) (wire_connect_response v)
unfolding serialize_connect_response wire_connect_response
serialize_connect_response-Writes host v h = Writes-start (
    Writes-then (oa_serialize_int-Writes host v.protocol_version) (
      Writes-then (oa_serialize_int-Writes host v.time_out) (
        Writes-then (oa_serialize_long-Writes host v.session_id) (
          Writes-end
            (oa_serialize_buffer-Writes host v.passwd (IsBuffer-IsSendable v.passwd h.passwd))))))

pub deserialize_connect_response-Loads :
    (host : Host) (v old : ConnectResponse)
    → IsGenerous host
    → IsConnectResponse v
    → Loads (deserialize_connect_response host) (wire_connect_response v) old v
unfolding deserialize_connect_response wire_connect_response
deserialize_connect_response-Loads host v old g h = Loads-start (
    Loads-then
      (Loads-field (λ v. v.protocol_version) (λ v x. record v { protocol_version = x }) _
        (ia_deserialize_int-Loads host v.protocol_version _ h.protocol_version))
      (Loads-then
        (Loads-field (λ v. v.time_out) (λ v x. record v { time_out = x }) _
          (ia_deserialize_int-Loads host v.time_out _ h.time_out))
        (Loads-then
          (Loads-field (λ v. v.session_id) (λ v x. record v { session_id = x }) _
            (ia_deserialize_long-Loads host v.session_id _ h.session_id))
          (Loads-end (
            Loads-field (λ v. v.passwd) (λ v x. record v { passwd = x }) _
              (ia_deserialize_buffer-Loads host v.passwd _ g h.passwd))))))

pub deserialize_connect_response-Safe :
    (host : Host) → IsUsable host → Safe (deserialize_connect_response host)
unfolding deserialize_connect_response
deserialize_connect_response-Safe host k = Safe-start (
    Safe-then (Safe-field _ _ (ia_deserialize_int-Safe host k)) (
      Safe-then (Safe-field _ _ (ia_deserialize_int-Safe host k)) (
        Safe-then (Safe-field _ _ (ia_deserialize_long-Safe host k))
          (Safe-end (Safe-field _ _ (ia_deserialize_buffer-Safe host k))))))
