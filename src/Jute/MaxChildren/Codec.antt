-- ===== src/Jute/MaxChildren/Codec.antt =====
-- zookeeper.jute.c. The wire form of the records of Jute/MaxChildren.antt, which the serializers append and
-- the deserializers read back.
use zkclient.Prelude.{List, ℕ, ◌++◌}
use zkclient.Host.{Host}
use zkclient.Archive.Appends.{
  Writes, Writes-end, Writes-start, Writes-then, oa_serialize_int-Writes,
}
use zkclient.Archive.Loads.{IsGenerous, Loads, ia_deserialize_int-Loads}
use zkclient.Archive.Parts.{
  Loads-end, Loads-field, Loads-start, Loads-then, ia_deserialize_string-Loads,
}
use zkclient.Archive.SafeParts.{
  Safe-end, Safe-field, Safe-start, Safe-then, ia_deserialize_string-Safe,
}
use zkclient.Archive.Safety.{IsUsable, Safe, ia_deserialize_int-Safe}
use zkclient.Archive.Texts.{oa_serialize_string-Writes}
use zkclient.Archive.Wire.{IsInt, IsText, wire_int, wire_string}
use zkclient.Jute.MaxChildren.{
  GetMaxChildrenRequest, GetMaxChildrenResponse, SetMaxChildrenRequest,
  deserialize_get_max_children_request, deserialize_get_max_children_response,
  deserialize_set_max_children_request, serialize_get_max_children_request,
  serialize_get_max_children_response, serialize_set_max_children_request,
}

unfoldable pub wire_get_max_children_request : GetMaxChildrenRequest → List ℕ
wire_get_max_children_request v = wire_string v.path

pub record IsGetMaxChildrenRequest (v : GetMaxChildrenRequest) : Type 0 where
  pub path : IsText v.path

pub serialize_get_max_children_request-Writes :
    (host : Host) (v : GetMaxChildrenRequest)
    → IsGetMaxChildrenRequest v
    → Writes host (serialize_get_max_children_request host v) (wire_get_max_children_request v)
unfolding serialize_get_max_children_request wire_get_max_children_request
serialize_get_max_children_request-Writes host v h =
    Writes-start (Writes-end (oa_serialize_string-Writes host v.path h.path))

pub deserialize_get_max_children_request-Loads :
    (host : Host) (v old : GetMaxChildrenRequest)
    → IsGenerous host
    → IsGetMaxChildrenRequest v
    → Loads (deserialize_get_max_children_request host) (wire_get_max_children_request v) old v
unfolding deserialize_get_max_children_request wire_get_max_children_request
deserialize_get_max_children_request-Loads host v old g h = Loads-start (
    Loads-end (
      Loads-field (λ v. v.path) (λ v x. record v { path = x }) _
        (ia_deserialize_string-Loads host v.path _ g h.path)))

pub deserialize_get_max_children_request-Safe :
    (host : Host) → IsUsable host → Safe (deserialize_get_max_children_request host)
unfolding deserialize_get_max_children_request
deserialize_get_max_children_request-Safe host k =
    Safe-start (Safe-end (Safe-field _ _ (ia_deserialize_string-Safe host k)))

unfoldable pub wire_get_max_children_response : GetMaxChildrenResponse → List ℕ
wire_get_max_children_response v = wire_int v.max

pub record IsGetMaxChildrenResponse (v : GetMaxChildrenResponse) : Type 0 where
  pub max : IsInt v.max

pub serialize_get_max_children_response-Writes :
    (host : Host) (v : GetMaxChildrenResponse)
    → IsGetMaxChildrenResponse v
    → Writes host (serialize_get_max_children_response host v) (wire_get_max_children_response v)
unfolding serialize_get_max_children_response wire_get_max_children_response
serialize_get_max_children_response-Writes host v h =
    Writes-start (Writes-end (oa_serialize_int-Writes host v.max))

pub deserialize_get_max_children_response-Loads :
    (host : Host) (v old : GetMaxChildrenResponse)
    → IsGetMaxChildrenResponse v
    → Loads (deserialize_get_max_children_response host) (wire_get_max_children_response v) old v
unfolding deserialize_get_max_children_response wire_get_max_children_response
deserialize_get_max_children_response-Loads host v old h = Loads-start (
    Loads-end (
      Loads-field (λ v. v.max) (λ v x. record v { max = x }) _
        (ia_deserialize_int-Loads host v.max _ h.max)))

pub deserialize_get_max_children_response-Safe :
    (host : Host) → IsUsable host → Safe (deserialize_get_max_children_response host)
unfolding deserialize_get_max_children_response
deserialize_get_max_children_response-Safe host k =
    Safe-start (Safe-end (Safe-field _ _ (ia_deserialize_int-Safe host k)))

unfoldable pub wire_set_max_children_request : SetMaxChildrenRequest → List ℕ
wire_set_max_children_request v = wire_string v.path ++ wire_int v.max

pub record IsSetMaxChildrenRequest (v : SetMaxChildrenRequest) : Type 0 where
  pub path : IsText v.path
  pub max : IsInt v.max

pub serialize_set_max_children_request-Writes :
    (host : Host) (v : SetMaxChildrenRequest)
    → IsSetMaxChildrenRequest v
    → Writes host (serialize_set_max_children_request host v) (wire_set_max_children_request v)
unfolding serialize_set_max_children_request wire_set_max_children_request
serialize_set_max_children_request-Writes host v h = Writes-start (
    Writes-then (oa_serialize_string-Writes host v.path h.path)
      (Writes-end (oa_serialize_int-Writes host v.max)))

pub deserialize_set_max_children_request-Loads :
    (host : Host) (v old : SetMaxChildrenRequest)
    → IsGenerous host
    → IsSetMaxChildrenRequest v
    → Loads (deserialize_set_max_children_request host) (wire_set_max_children_request v) old v
unfolding deserialize_set_max_children_request wire_set_max_children_request
deserialize_set_max_children_request-Loads host v old g h = Loads-start (
    Loads-then
      (Loads-field (λ v. v.path) (λ v x. record v { path = x }) _
        (ia_deserialize_string-Loads host v.path _ g h.path))
      (Loads-end (
        Loads-field (λ v. v.max) (λ v x. record v { max = x }) _
          (ia_deserialize_int-Loads host v.max _ h.max))))

pub deserialize_set_max_children_request-Safe :
    (host : Host) → IsUsable host → Safe (deserialize_set_max_children_request host)
unfolding deserialize_set_max_children_request
deserialize_set_max_children_request-Safe host k = Safe-start (
    Safe-then (Safe-field _ _ (ia_deserialize_string-Safe host k))
      (Safe-end (Safe-field _ _ (ia_deserialize_int-Safe host k))))
