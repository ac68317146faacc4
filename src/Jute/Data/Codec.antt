-- ===== src/Jute/Data/Codec.antt =====
-- zookeeper.jute.c. The wire form of the records of Jute/Data.antt, which the serializers append and
-- the deserializers read back.
use zkclient.Prelude.{List, ℕ, ◌++◌}
use zkclient.Host.{Host}
use zkclient.Archive.Appends.{
  Writes, Writes-end, Writes-start, Writes-then, oa_serialize_bool-Writes, oa_serialize_int-Writes,
}
use zkclient.Archive.Loads.{IsGenerous, Loads, ia_deserialize_bool-Loads, ia_deserialize_int-Loads}
use zkclient.Archive.Parts.{
  Loads-end, Loads-field, Loads-start, Loads-then, ia_deserialize_buffer-Loads,
  ia_deserialize_string-Loads,
}
use zkclient.Archive.SafeParts.{
  Safe-end, Safe-field, Safe-start, Safe-then, ia_deserialize_buffer-Safe,
  ia_deserialize_string-Safe,
}
use zkclient.Archive.Safety.{IsUsable, Safe, ia_deserialize_bool-Safe, ia_deserialize_int-Safe}
use zkclient.Archive.Texts.{oa_serialize_buffer-Writes, oa_serialize_string-Writes}
use zkclient.Archive.Wire.{
  IsBool, IsBuffer, IsBuffer-IsSendable, IsInt, IsText, wire_bool, wire_buffer, wire_int,
  wire_string,
}
use zkclient.Jute.Data.{
  GetDataRequest, GetDataResponse, SetDataRequest, SetDataResponse, deserialize_get_data_request,
  deserialize_get_data_response, deserialize_set_data_request, deserialize_set_data_response,
  serialize_get_data_request, serialize_get_data_response, serialize_set_data_request,
  serialize_set_data_response,
}
use zkclient.Jute.Stat.Codec.{
  IsStat, deserialize_stat-Loads, deserialize_stat-Safe, serialize_stat-Writes, wire_stat,
}

unfoldable pub wire_get_data_request : GetDataRequest → List ℕ
wire_get_data_request v = wire_string v.path ++ wire_bool v.watch

pub record IsGetDataRequest (v : GetDataRequest) : Type 0 where
  pub path : IsText v.path
  pub watch : IsBool v.watch

pub serialize_get_data_request-Writes :
    (host : Host) (v : GetDataRequest)
    → IsGetDataRequest v
    → Writes host (serialize_get_data_request host v) (wire_get_data_request v)
unfolding serialize_get_data_request wire_get_data_request
serialize_get_data_request-Writes host v h = Writes-start (
    Writes-then (oa_serialize_string-Writes host v.path h.path)
      (Writes-end (oa_serialize_bool-Writes host v.watch)))

pub deserialize_get_data_request-Loads :
    (host : Host) (v old : GetDataRequest)
    → IsGenerous host
    → IsGetDataRequest v
    → Loads (deserialize_get_data_request host) (wire_get_data_request v) old v
unfolding deserialize_get_data_request wire_get_data_request
deserialize_get_data_request-Loads host v old g h = Loads-start (
    Loads-then
      (Loads-field (λ v. v.path) (λ v x. record v { path = x }) _
        (ia_deserialize_string-Loads host v.path _ g h.path))
      (Loads-end (
        Loads-field (λ v. v.watch) (λ v x. record v { watch = x }) _
          (ia_deserialize_bool-Loads host v.watch _ h.watch))))

pub deserialize_get_data_request-Safe :
    (host : Host) → IsUsable host → Safe (deserialize_get_data_request host)
unfolding deserialize_get_data_request
deserialize_get_data_request-Safe host k = Safe-start (
    Safe-then (Safe-field _ _ (ia_deserialize_string-Safe host k))
      (Safe-end (Safe-field _ _ (ia_deserialize_bool-Safe host k))))

unfoldable pub wire_get_data_response : GetDataResponse → List ℕ
wire_get_data_response v = wire_buffer v.data_buffer ++ wire_stat v.stat

pub record IsGetDataResponse (v : GetDataResponse) : Type 0 where
  pub data_buffer : IsBuffer v.data_buffer
  pub stat : IsStat v.stat

pub serialize_get_data_response-Writes :
    (host : Host) (v : GetDataResponse)
    → IsGetDataResponse v
    → Writes host (serialize_get_data_response host v) (wire_get_data_response v)
unfolding serialize_get_data_response wire_get_data_response
serialize_get_data_response-Writes host v h = Writes-start (
    Writes-then
      (oa_serialize_buffer-Writes host v.data_buffer
        (IsBuffer-IsSendable v.data_buffer h.data_buffer))
      (Writes-end (serialize_stat-Writes host v.stat h.stat)))

pub deserialize_get_data_response-Loads :
    (host : Host) (v old : GetDataResponse)
    → IsGenerous host
    → IsGetDataResponse v
    → Loads (deserialize_get_data_response host) (wire_get_data_response v) old v
unfolding deserialize_get_data_response wire_get_data_response
deserialize_get_data_response-Loads host v old g h = Loads-start (
    Loads-then
      (Loads-field (λ v. v.data_buffer) (λ v x. record v { data_buffer = x }) _
        (ia_deserialize_buffer-Loads host v.data_buffer _ g h.data_buffer))
      (Loads-end (
        Loads-field (λ v. v.stat) (λ v x. record v { stat = x }) _
          (deserialize_stat-Loads host v.stat _ h.stat))))

pub deserialize_get_data_response-Safe :
    (host : Host) → IsUsable host → Safe (deserialize_get_data_response host)
unfolding deserialize_get_data_response
deserialize_get_data_response-Safe host k = Safe-start (
    Safe-then (Safe-field _ _ (ia_deserialize_buffer-Safe host k))
      (Safe-end (Safe-field _ _ (deserialize_stat-Safe host k))))

unfoldable pub wire_set_data_request : SetDataRequest → List ℕ
wire_set_data_request v = wire_string v.path ++ (wire_buffer v.data_buffer ++ wire_int v.version)

pub record IsSetDataRequest (v : SetDataRequest) : Type 0 where
  pub path : IsText v.path
  pub data_buffer : IsBuffer v.data_buffer
  pub version : IsInt v.version

pub serialize_set_data_request-Writes :
    (host : Host) (v : SetDataRequest)
    → IsSetDataRequest v
    → Writes host (serialize_set_data_request host v) (wire_set_data_request v)
unfolding serialize_set_data_request wire_set_data_request
serialize_set_data_request-Writes host v h = Writes-start (
    Writes-then (oa_serialize_string-Writes host v.path h.path) (
      Writes-then
        (oa_serialize_buffer-Writes host v.data_buffer
          (IsBuffer-IsSendable v.data_buffer h.data_buffer))
        (Writes-end (oa_serialize_int-Writes host v.version))))

pub deserialize_set_data_request-Loads :
    (host : Host) (v old : SetDataRequest)
    → IsGenerous host
    → IsSetDataRequest v
    → Loads (deserialize_set_data_request host) (wire_set_data_request v) old v
unfolding deserialize_set_data_request wire_set_data_request
deserialize_set_data_request-Loads host v old g h = Loads-start (
    Loads-then
      (Loads-field (λ v. v.path) (λ v x. record v { path = x }) _
        (ia_deserialize_string-Loads host v.path _ g h.path))
      (Loads-then
        (Loads-field (λ v. v.data_buffer) (λ v x. record v { data_buffer = x }) _
          (ia_deserialize_buffer-Loads host v.data_buffer _ g h.data_buffer))
        (Loads-end (
          Loads-field (λ v. v.version) (λ v x. record v { version = x }) _
            (ia_deserialize_int-Loads host v.version _ h.version)))))

pub deserialize_set_data_request-Safe :
    (host : Host) → IsUsable host → Safe (deserialize_set_data_request host)
unfolding deserialize_set_data_request
deserialize_set_data_request-Safe host k = Safe-start (
    Safe-then (Safe-field _ _ (ia_deserialize_string-Safe host k)) (
      Safe-then (Safe-field _ _ (ia_deserialize_buffer-Safe host k))
        (Safe-end (Safe-field _ _ (ia_deserialize_int-Safe host k)))))

unfoldable pub wire_set_data_response : SetDataResponse → List ℕ
wire_set_data_response v = wire_stat v.stat

pub record IsSetDataResponse (v : SetDataResponse) : Type 0 where
  pub stat : IsStat v.stat

pub serialize_set_data_response-Writes :
    (host : Host) (v : SetDataResponse)
    → IsSetDataResponse v
    → Writes host (serialize_set_data_response host v) (wire_set_data_response v)
unfolding serialize_set_data_response wire_set_data_response
serialize_set_data_response-Writes host v h =
    Writes-start (Writes-end (serialize_stat-Writes host v.stat h.stat))

pub deserialize_set_data_response-Loads :
    (host : Host) (v old : SetDataResponse)
    → IsSetDataResponse v
    → Loads (deserialize_set_data_response host) (wire_set_data_response v) old v
unfolding deserialize_set_data_response wire_set_data_response
deserialize_set_data_response-Loads host v old h = Loads-start (
    Loads-end (
      Loads-field (λ v. v.stat) (λ v x. record v { stat = x }) _
        (deserialize_stat-Loads host v.stat _ h.stat)))

pub deserialize_set_data_response-Safe :
    (host : Host) → IsUsable host → Safe (deserialize_set_data_response host)
unfolding deserialize_set_data_response
deserialize_set_data_response-Safe host k =
    Safe-start (Safe-end (Safe-field _ _ (deserialize_stat-Safe host k)))
