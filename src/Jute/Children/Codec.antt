-- ===== src/Jute/Children/Codec.antt =====
-- zookeeper.jute.c. The wire form of the records of Jute/Children.antt, which the serializers append and
-- the deserializers read back.
use zkclient.Prelude.{List, ℕ, ◌++◌}
use zkclient.Host.{Host}
use zkclient.Archive.Appends.{
  Writes, Writes-end, Writes-start, Writes-then, oa_serialize_bool-Writes,
}
use zkclient.Archive.Loads.{IsGenerous, Loads, ia_deserialize_bool-Loads}
use zkclient.Archive.Parts.{
  Loads-end, Loads-field, Loads-start, Loads-then, ia_deserialize_string-Loads,
}
use zkclient.Archive.SafeParts.{
  Safe-end, Safe-field, Safe-start, Safe-then, ia_deserialize_string-Safe,
}
use zkclient.Archive.Safety.{GrantsVectors, IsUsable, Safe, ia_deserialize_bool-Safe}
use zkclient.Archive.Texts.{oa_serialize_string-Writes}
use zkclient.Archive.Wire.{IsBool, IsText, wire_bool, wire_string}
use zkclient.Jute.Children.{
  GetChildren2Request, GetChildren2Response, GetChildrenRequest, GetChildrenResponse,
  deserialize_get_children2_request, deserialize_get_children2_response,
  deserialize_get_children_request, deserialize_get_children_response,
  serialize_get_children2_request, serialize_get_children2_response, serialize_get_children_request,
  serialize_get_children_response,
}
use zkclient.Jute.Stat.Codec.{
  IsStat, deserialize_stat-Loads, deserialize_stat-Safe, serialize_stat-Writes, wire_stat,
}
use zkclient.Jute.Watch.Codec.{
  IsStringVector, deserialize_string_vector-Loads, deserialize_string_vector-Safe,
  serialize_string_vector-Writes, wire_string_vector,
}

unfoldable pub wire_get_children_request : GetChildrenRequest → List ℕ
wire_get_children_request v = wire_string v.path ++ wire_bool v.watch

pub record IsGetChildrenRequest (v : GetChildrenRequest) : Type 0 where
  pub path : IsText v.path
  pub watch : IsBool v.watch

pub serialize_get_children_request-Writes :
    (host : Host) (v : GetChildrenRequest)
    → IsGetChildrenRequest v
    → Writes host (serialize_get_children_request host v) (wire_get_children_request v)
unfolding serialize_get_children_request wire_get_children_request
serialize_get_children_request-Writes host v h = Writes-start (
    Writes-then (oa_serialize_string-Writes host v.path h.path)
      (Writes-end (oa_serialize_bool-Writes host v.watch)))

pub deserialize_get_children_request-Loads :
    (host : Host) (v old : GetChildrenRequest)
    → IsGenerous host
    → IsGetChildrenRequest v
    → Loads (deserialize_get_children_request host) (wire_get_children_request v) old v
unfolding deserialize_get_children_request wire_get_children_request
deserialize_get_children_request-Loads host v old g h = Loads-start (
    Loads-then
      (Loads-field (λ v. v.path) (λ v x. record v { path = x }) _
        (ia_deserialize_string-Loads host v.path _ g h.path))
      (Loads-end (
        Loads-field (λ v. v.watch) (λ v x. record v { watch = x }) _
          (ia_deserialize_bool-Loads host v.watch _ h.watch))))

pub deserialize_get_children_request-Safe :
    (host : Host) → IsUsable host → Safe (deserialize_get_children_request host)
unfolding deserialize_get_children_request
deserialize_get_children_request-Safe host k = Safe-start (
    Safe-then (Safe-field _ _ (ia_deserialize_string-Safe host k))
      (Safe-end (Safe-field _ _ (ia_deserialize_bool-Safe host k))))

unfoldable pub wire_get_children2_request : GetChildren2Request → List ℕ
wire_get_children2_request v = wire_string v.path ++ wire_bool v.watch

pub record IsGetChildren2Request (v : GetChildren2Request) : Type 0 where
  pub path : IsText v.path
  pub watch : IsBool v.watch

pub serialize_get_children2_request-Writes :
    (host : Host) (v : GetChildren2Request)
    → IsGetChildren2Request v
    → Writes host (serialize_get_children2_request host v) (wire_get_children2_request v)
unfolding serialize_get_children2_request wire_get_children2_request
serialize_get_children2_request-Writes host v h = Writes-start (
    Writes-then (oa_serialize_string-Writes host v.path h.path)
      (Writes-end (oa_serialize_bool-Writes host v.watch)))

pub deserialize_get_children2_request-Loads :
    (host : Host) (v old : GetChildren2Request)
    → IsGenerous host
    → IsGetChildren2Request v
    → Loads (deserialize_get_children2_request host) (wire_get_children2_request v) old v
unfolding deserialize_get_children2_request wire_get_children2_request
deserialize_get_children2_request-Loads host v old g h = Loads-start (
    Loads-then
      (Loads-field (λ v. v.path) (λ v x. record v { path = x }) _
        (ia_deserialize_string-Loads host v.path _ g h.path))
      (Loads-end (
        Loads-field (λ v. v.watch) (λ v x. record v { watch = x }) _
          (ia_deserialize_bool-Loads host v.watch _ h.watch))))

pub deserialize_get_children2_request-Safe :
    (host : Host) → IsUsable host → Safe (deserialize_get_children2_request host)
unfolding deserialize_get_children2_request
deserialize_get_children2_request-Safe host k = Safe-start (
    Safe-then (Safe-field _ _ (ia_deserialize_string-Safe host k))
      (Safe-end (Safe-field _ _ (ia_deserialize_bool-Safe host k))))

unfoldable pub wire_get_children_response : GetChildrenResponse → List ℕ
wire_get_children_response v = wire_string_vector v.children

pub record IsGetChildrenResponse (v : GetChildrenResponse) : Type 0 where
  pub children : IsStringVector v.children

pub serialize_get_children_response-Writes :
    (host : Host) (v : GetChildrenResponse)
    → IsGetChildrenResponse v
    → Writes host (serialize_get_children_response host v) (wire_get_children_response v)
unfolding serialize_get_children_response wire_get_children_response
serialize_get_children_response-Writes host v h =
    Writes-start (Writes-end (serialize_string_vector-Writes host v.children h.children))

pub deserialize_get_children_response-Loads :
    (host : Host) (v old : GetChildrenResponse)
    → IsGenerous host
    → IsGetChildrenResponse v
    → Loads (deserialize_get_children_response host) (wire_get_children_response v) old v
unfolding deserialize_get_children_response wire_get_children_response
deserialize_get_children_response-Loads host v old g h = Loads-start (
    Loads-end (
      Loads-field (λ v. v.children) (λ v x. record v { children = x }) _
        (deserialize_string_vector-Loads host v.children _ g h.children)))

pub deserialize_get_children_response-Safe :
    (host : Host)
    → IsUsable host
    → GrantsVectors host
    → Safe (deserialize_get_children_response host)
unfolding deserialize_get_children_response
deserialize_get_children_response-Safe host k room =
    Safe-start (Safe-end (Safe-field _ _ (deserialize_string_vector-Safe host k room)))

unfoldable pub wire_get_children2_response : GetChildren2Response → List ℕ
wire_get_children2_response v = wire_string_vector v.children ++ wire_stat v.stat

pub record IsGetChildren2Response (v : GetChildren2Response) : Type 0 where
  pub children : IsStringVector v.children
  pub stat : IsStat v.stat

pub serialize_get_children2_response-Writes :
    (host : Host) (v : GetChildren2Response)
    → IsGetChildren2Response v
    → Writes host (serialize_get_children2_response host v) (wire_get_children2_response v)
unfolding serialize_get_children2_response wire_get_children2_response
serialize_get_children2_response-Writes host v h = Writes-start (
    Writes-then (serialize_string_vector-Writes host v.children h.children)
      (Writes-end (serialize_stat-Writes host v.stat h.stat)))

pub deserialize_get_children2_response-Loads :
    (host : Host) (v old : GetChildren2Response)
    → IsGenerous host
    → IsGetChildren2Response v
    → Loads (deserialize_get_children2_response host) (wire_get_children2_response v) old v
unfolding deserialize_get_children2_response wire_get_children2_response
deserialize_get_children2_response-Loads host v old g h = Loads-start (
    Loads-then
      (Loads-field (λ v. v.children) (λ v x. record v { children = x }) _
        (deserialize_string_vector-Loads host v.children _ g h.children))
      (Loads-end (
        Loads-field (λ v. v.stat) (λ v x. record v { stat = x }) _
          (deserialize_stat-Loads host v.stat _ h.stat))))

pub deserialize_get_children2_response-Safe :
    (host : Host)
    → IsUsable host
    → GrantsVectors host
    → Safe (deserialize_get_children2_response host)
unfolding deserialize_get_children2_response
deserialize_get_children2_response-Safe host k room = Safe-start (
    Safe-then (Safe-field _ _ (deserialize_string_vector-Safe host k room))
      (Safe-end (Safe-field _ _ (deserialize_stat-Safe host k))))
