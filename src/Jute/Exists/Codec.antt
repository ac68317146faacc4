-- ===== src/Jute/Exists/Codec.antt =====
-- zookeeper.jute.c. The wire form of the records of Jute/Exists.antt, which the serializers append and
-- the deserializers read back.
use zkclient.Prelude.{List, ℕ, ◌++◌}
use zkclient.Host.{Host}
use zkclient.Archive.Appends.{
  Writes, Writes-end, Writes-start, Writes-then, oa_serialize_bool-Writes, oa_serialize_int-Writes,
}
use zkclient.Archive.Loads.{IsGenerous, Loads, ia_deserialize_bool-Loads, ia_deserialize_int-Loads}
use zkclient.Archive.Parts.{
  Loads-end, Loads-field, Loads-start, Loads-then, ia_deserialize_string-Loads,
}
use zkclient.Archive.SafeParts.{
  Safe-end, Safe-field, Safe-start, Safe-then, ia_deserialize_string-Safe,
}
use zkclient.Archive.Safety.{IsUsable, Safe, ia_deserialize_bool-Safe, ia_deserialize_int-Safe}
use zkclient.Archive.Texts.{oa_serialize_string-Writes}
use zkclient.Archive.Wire.{IsBool, IsInt, IsText, wire_bool, wire_int, wire_string}
use zkclient.Jute.Exists.{
  ErrorResponse, ExistsRequest, ExistsResponse, SyncRequest, SyncResponse,
  deserialize_error_response, deserialize_exists_request, deserialize_exists_response,
  deserialize_sync_request, deserialize_sync_response, serialize_error_response,
  serialize_exists_request, serialize_exists_response, serialize_sync_request,
  serialize_sync_response,
}
use zkclient.Jute.Stat.Codec.{
  IsStat, deserialize_stat-Loads, deserialize_stat-Safe, serialize_stat-Writes, wire_stat,
}

unfoldable pub wire_exists_request : ExistsRequest → List ℕ
wire_exists_request v = wire_string v.path ++ wire_bool v.watch

pub record IsExistsRequest (v : ExistsRequest) : Type 0 where
  pub path : IsText v.path
  pub watch : IsBool v.watch

pub serialize_exists_request-Writes :
    (host : Host) (v : ExistsRequest)
    → IsExistsRequest v
    → Writes host (serialize_exists_request host v) (wire_exists_request v)
unfolding serialize_exists_request wire_exists_request
serialize_exists_request-Writes host v h = Writes-start (
    Writes-then (oa_serialize_string-Writes host v.path h.path)
      (Writes-end (oa_serialize_bool-Writes host v.watch)))

pub deserialize_exists_request-Loads :
    (host : Host) (v old : ExistsRequest)
    → IsGenerous host
    → IsExistsRequest v
    → Loads (deserialize_exists_request host) (wire_exists_request v) old v
unfolding deserialize_exists_request wire_exists_request
deserialize_exists_request-Loads host v old g h = Loads-start (
    Loads-then
      (Loads-field (λ v. v.path) (λ v x. record v { path = x }) _
        (ia_deserialize_string-Loads host v.path _ g h.path))
      (Loads-end (
        Loads-field (λ v. v.watch) (λ v x. record v { watch = x }) _
          (ia_deserialize_bool-Loads host v.watch _ h.watch))))

pub deserialize_exists_request-Safe :
    (host : Host) → IsUsable host → Safe (deserialize_exists_request host)
unfolding deserialize_exists_request
deserialize_exists_request-Safe host k = Safe-start (
    Safe-then (Safe-field _ _ (ia_deserialize_string-Safe host k))
      (Safe-end (Safe-field _ _ (ia_deserialize_bool-Safe host k))))

unfoldable pub wire_exists_response : ExistsResponse → List ℕ
wire_exists_response v = wire_stat v.stat

pub record IsExistsResponse (v : ExistsResponse) : Type 0 where
  pub stat : IsStat v.stat

pub serialize_exists_response-Writes :
    (host : Host) (v : ExistsResponse)
    → IsExistsResponse v
    → Writes host (serialize_exists_response host v) (wire_exists_response v)
unfolding serialize_exists_response wire_exists_response
serialize_exists_response-Writes host v h =
    Writes-start (Writes-end (serialize_stat-Writes host v.stat h.stat))

pub deserialize_exists_response-Loads :
    (host : Host) (v old : ExistsResponse)
    → IsExistsResponse v
    → Loads (deserialize_exists_response host) (wire_exists_response v) old v
unfolding deserialize_exists_response wire_exists_response
deserialize_exists_response-Loads host v old h = Loads-start (
    Loads-end (
      Loads-field (λ v. v.stat) (λ v x. record v { stat = x }) _
        (deserialize_stat-Loads host v.stat _ h.stat)))

pub deserialize_exists_response-Safe :
    (host : Host) → IsUsable host → Safe (deserialize_exists_response host)
unfolding deserialize_exists_response
deserialize_exists_response-Safe host k =
    Safe-start (Safe-end (Safe-field _ _ (deserialize_stat-Safe host k)))

unfoldable pub wire_sync_request : SyncRequest → List ℕ
wire_sync_request v = wire_string v.path

pub record IsSyncRequest (v : SyncRequest) : Type 0 where
  pub path : IsText v.path

pub serialize_sync_request-Writes :
    (host : Host) (v : SyncRequest)
    → IsSyncRequest v
    → Writes host (serialize_sync_request host v) (wire_sync_request v)
unfolding serialize_sync_request wire_sync_request
serialize_sync_request-Writes host v h =
    Writes-start (Writes-end (oa_serialize_string-Writes host v.path h.path))

pub deserialize_sync_request-Loads :
    (host : Host) (v old : SyncRequest)
    → IsGenerous host
    → IsSyncRequest v
    → Loads (deserialize_sync_request host) (wire_sync_request v) old v
unfolding deserialize_sync_request wire_sync_request
deserialize_sync_request-Loads host v old g h = Loads-start (
    Loads-end (
      Loads-field (λ v. v.path) (λ v x. record v { path = x }) _
        (ia_deserialize_string-Loads host v.path _ g h.path)))

pub deserialize_sync_request-Safe :
    (host : Host) → IsUsable host → Safe (deserialize_sync_request host)
unfolding deserialize_sync_request
deserialize_sync_request-Safe host k =
    Safe-start (Safe-end (Safe-field _ _ (ia_deserialize_string-Safe host k)))

unfoldable pub wire_sync_response : SyncResponse → List ℕ
wire_sync_response v = wire_string v.path

pub record IsSyncResponse (v : SyncResponse) : Type 0 where
  pub path : IsText v.path

pub serialize_sync_response-Writes :
    (host : Host) (v : SyncResponse)
    → IsSyncResponse v
    → Writes host (serialize_sync_response host v) (wire_sync_response v)
unfolding serialize_sync_response wire_sync_response
serialize_sync_response-Writes host v h =
    Writes-start (Writes-end (oa_serialize_string-Writes host v.path h.path))

pub deserialize_sync_response-Loads :
    (host : Host) (v old : SyncResponse)
    → IsGenerous host
    → IsSyncResponse v
    → Loads (deserialize_sync_response host) (wire_sync_response v) old v
unfolding deserialize_sync_response wire_sync_response
deserialize_sync_response-Loads host v old g h = Loads-start (
    Loads-end (
      Loads-field (λ v. v.path) (λ v x. record v { path = x }) _
        (ia_deserialize_string-Loads host v.path _ g h.path)))

pub deserialize_sync_response-Safe :
    (host : Host) → IsUsable host → Safe (deserialize_sync_response host)
unfolding deserialize_sync_response
deserialize_sync_response-Safe host k =
    Safe-start (Safe-end (Safe-field _ _ (ia_deserialize_string-Safe host k)))

unfoldable pub wire_error_response : ErrorResponse → List ℕ
wire_error_response v = wire_int v.err

pub record IsErrorResponse (v : ErrorResponse) : Type 0 where
  pub err : IsInt v.err

pub serialize_error_response-Writes :
    (host : Host) (v : ErrorResponse)
    → IsErrorResponse v
    → Writes host (serialize_error_response host v) (wire_error_response v)
unfolding serialize_error_response wire_error_response
serialize_error_response-Writes host v h =
    Writes-start (Writes-end (oa_serialize_int-Writes host v.err))

pub deserialize_error_response-Loads :
    (host : Host) (v old : ErrorResponse)
    → IsErrorResponse v
    → Loads (deserialize_error_response host) (wire_error_response v) old v
unfolding deserialize_error_response wire_error_response
deserialize_error_response-Loads host v old h = Loads-start (
    Loads-end (
      Loads-field (λ v. v.err) (λ v x. record v { err = x }) _
        (ia_deserialize_int-Loads host v.err _ h.err)))

pub deserialize_error_response-Safe :
    (host : Host) → IsUsable host → Safe (deserialize_error_response host)
unfolding deserialize_error_response
deserialize_error_response-Safe host k =
    Safe-start (Safe-end (Safe-field _ _ (ia_deserialize_int-Safe host k)))
