-- ===== src/Jute/Sasl/Codec.antt =====
-- zookeeper.jute.c. The wire form of the records of Jute/Sasl.antt, which the serializers append and
-- the deserializers read back.
use zkclient.Prelude.{List, ℕ}
use zkclient.Host.{Host}
use zkclient.Archive.Appends.{Writes, Writes-end, Writes-start}
use zkclient.Archive.Loads.{IsGenerous, Loads}
use zkclient.Archive.Parts.{Loads-end, Loads-field, Loads-start, ia_deserialize_buffer-Loads}
use zkclient.Archive.SafeParts.{Safe-end, Safe-field, Safe-start, ia_deserialize_buffer-Safe}
use zkclient.Archive.Safety.{IsUsable, Safe}
use zkclient.Archive.Texts.{oa_serialize_buffer-Writes}
use zkclient.Archive.Wire.{IsBuffer, IsBuffer-IsSendable, wire_buffer}
use zkclient.Jute.Sasl.{
  GetSaslRequest, SetSaslRequest, SetSaslResponse, deserialize_get_sasl_request,
  deserialize_set_sasl_request, deserialize_set_sasl_response, serialize_get_sasl_request,
  serialize_set_sasl_request, serialize_set_sasl_response,
}

unfoldable pub wire_get_sasl_request : GetSaslRequest → List ℕ
wire_get_sasl_request v = wire_buffer v.token

pub record IsGetSaslRequest (v : GetSaslRequest) : Type 0 where
  pub token : IsBuffer v.token

pub serialize_get_sasl_request-Writes :
    (host : Host) (v : GetSaslRequest)
    → IsGetSaslRequest v
    → Writes host (serialize_get_sasl_request host v) (wire_get_sasl_request v)
unfolding serialize_get_sasl_request wire_get_sasl_request
serialize_get_sasl_request-Writes host v h =
    Writes-start
      (Writes-end (oa_serialize_buffer-Writes host v.token (IsBuffer-IsSendable v.token h.token)))

pub deserialize_get_sasl_request-Loads :
    (host : Host) (v old : GetSaslRequest)
    → IsGenerous host
    → IsGetSaslRequest v
    → Loads (deserialize_get_sasl_request host) (wire_get_sasl_request v) old v
unfolding deserialize_get_sasl_request wire_get_sasl_request
deserialize_get_sasl_request-Loads host v old g h = Loads-start (
    Loads-end (
      Loads-field (λ v. v.token) (λ v x. record v { token = x }) _
        (ia_deserialize_buffer-Loads host v.token _ g h.token)))

pub deserialize_get_sasl_request-Safe :
    (host : Host) → IsUsable host → Safe (deserialize_get_sasl_request host)
unfolding deserialize_get_sasl_request
deserialize_get_sasl_request-Safe host k =
    Safe-start (Safe-end (Safe-field _ _ (ia_deserialize_buffer-Safe host k)))

unfoldable pub wire_set_sasl_request : SetSaslRequest → List ℕ
wire_set_sasl_request v = wire_buffer v.token

pub record IsSetSaslRequest (v : SetSaslRequest) : Type 0 where
  pub token : IsBuffer v.token

pub serialize_set_sasl_request-Writes :
    (host : Host) (v : SetSaslRequest)
    → IsSetSaslRequest v
    → Writes host (serialize_set_sasl_request host v) (wire_set_sasl_request v)
unfolding serialize_set_sasl_request wire_set_sasl_request
serialize_set_sasl_request-Writes host v h =
    Writes-start
      (Writes-end (oa_serialize_buffer-Writes host v.token (IsBuffer-IsSendable v.token h.token)))

pub deserialize_set_sasl_request-Loads :
    (host : Host) (v old : SetSaslRequest)
    → IsGenerous host
    → IsSetSaslRequest v
    → Loads (deserialize_set_sasl_request host) (wire_set_sasl_request v) old v
unfolding deserialize_set_sasl_request wire_set_sasl_request
deserialize_set_sasl_request-Loads host v old g h = Loads-start (
    Loads-end (
      Loads-field (λ v. v.token) (λ v x. record v { token = x }) _
        (ia_deserialize_buffer-Loads host v.token _ g h.token)))

pub deserialize_set_sasl_request-Safe :
    (host : Host) → IsUsable host → Safe (deserialize_set_sasl_request host)
unfolding deserialize_set_sasl_request
deserialize_set_sasl_request-Safe host k =
    Safe-start (Safe-end (Safe-field _ _ (ia_deserialize_buffer-Safe host k)))

unfoldable pub wire_set_sasl_response : SetSaslResponse → List ℕ
wire_set_sasl_response v = wire_buffer v.token

pub record IsSetSaslResponse (v : SetSaslResponse) : Type 0 where
  pub token : IsBuffer v.token

pub serialize_set_sasl_response-Writes :
    (host : Host) (v : SetSaslResponse)
    → IsSetSaslResponse v
    → Writes host (serialize_set_sasl_response host v) (wire_set_sasl_response v)
unfolding serialize_set_sasl_response wire_set_sasl_response
serialize_set_sasl_response-Writes host v h =
    Writes-start
      (Writes-end (oa_serialize_buffer-Writes host v.token (IsBuffer-IsSendable v.token h.token)))

pub deserialize_set_sasl_response-Loads :
    (host : Host) (v old : SetSaslResponse)
    → IsGenerous host
    → IsSetSaslResponse v
    → Loads (deserialize_set_sasl_response host) (wire_set_sasl_response v) old v
unfolding deserialize_set_sasl_response wire_set_sasl_response
deserialize_set_sasl_response-Loads host v old g h = Loads-start (
    Loads-end (
      Loads-field (λ v. v.token) (λ v x. record v { token = x }) _
        (ia_deserialize_buffer-Loads host v.token _ g h.token)))

pub deserialize_set_sasl_response-Safe :
    (host : Host) → IsUsable host → Safe (deserialize_set_sasl_response host)
unfolding deserialize_set_sasl_response
deserialize_set_sasl_response-Safe host k =
    Safe-start (Safe-end (Safe-field _ _ (ia_deserialize_buffer-Safe host k)))
