-- ===== src/Jute/AclRequests/Codec.antt =====
-- zookeeper.jute.c. The wire form of the records of Jute/AclRequests.antt, which the serializers append and
-- the deserializers read back.
use zkclient.Prelude.{List, ℕ, ◌++◌}
use zkclient.Host.{Host}
use zkclient.Archive.Appends.{
  Writes, Writes-end, Writes-start, Writes-then, oa_serialize_int-Writes,
}
use zkclient.Archive.Loads.{IsGenerous, Loads, ia_deserialize_int-Loads}
use zkclient.Archive.Parts.{
  Loads-end, Loads-field, Loads-start, Loads-then, ia_deserialize_string-Loads,
}
use zkclient.Archive.SafeParts.{
  Safe-end, Safe-field, Safe-start, Safe-then, ia_deserialize_string-Safe,
}
use zkclient.Archive.Safety.{GrantsVectors, IsUsable, Safe, ia_deserialize_int-Safe}
use zkclient.Archive.Texts.{oa_serialize_string-Writes}
use zkclient.Archive.Wire.{IsInt, IsText, wire_int, wire_string}
use zkclient.Jute.Acl.Codec.{
  IsAclVector, deserialize_acl_vector-Loads, deserialize_acl_vector-Safe,
  serialize_acl_vector-Writes, wire_acl_vector,
}
use zkclient.Jute.AclRequests.{
  GetAclRequest, GetAclResponse, SetAclRequest, SetAclResponse, deserialize_get_acl_request,
  deserialize_get_acl_response, deserialize_set_acl_request, deserialize_set_acl_response,
  serialize_get_acl_request, serialize_get_acl_response, serialize_set_acl_request,
  serialize_set_acl_response,
}
use zkclient.Jute.Stat.Codec.{
  IsStat, deserialize_stat-Loads, deserialize_stat-Safe, serialize_stat-Writes, wire_stat,
}

unfoldable pub wire_get_acl_request : GetAclRequest → List ℕ
wire_get_acl_request v = wire_string v.path

pub record IsGetAclRequest (v : GetAclRequest) : Type 0 where
  pub path : IsText v.path

pub serialize_get_acl_request-Writes :
    (host : Host) (v : GetAclRequest)
    → IsGetAclRequest v
    → Writes host (serialize_get_acl_request host v) (wire_get_acl_request v)
unfolding serialize_get_acl_request wire_get_acl_request
serialize_get_acl_request-Writes host v h =
    Writes-start (Writes-end (oa_serialize_string-Writes host v.path h.path))

pub deserialize_get_acl_request-Loads :
    (host : Host) (v old : GetAclRequest)
    → IsGenerous host
    → IsGetAclRequest v
    → Loads (deserialize_get_acl_request host) (wire_get_acl_request v) old v
unfolding deserialize_get_acl_request wire_get_acl_request
deserialize_get_acl_request-Loads host v old g h = Loads-start (
    Loads-end (
      Loads-field (λ v. v.path) (λ v x. record v { path = x }) _
        (ia_deserialize_string-Loads host v.path _ g h.path)))

pub deserialize_get_acl_request-Safe :
    (host : Host) → IsUsable host → Safe (deserialize_get_acl_request host)
unfolding deserialize_get_acl_request
deserialize_get_acl_request-Safe host k =
    Safe-start (Safe-end (Safe-field _ _ (ia_deserialize_string-Safe host k)))

unfoldable pub wire_get_acl_response : GetAclResponse → List ℕ
wire_get_acl_response v = wire_acl_vector v.acl ++ wire_stat v.stat

pub record IsGetAclResponse (v : GetAclResponse) : Type 0 where
  pub acl : IsAclVector v.acl
  pub stat : IsStat v.stat

pub serialize_get_acl_response-Writes :
    (host : Host) (v : GetAclResponse)
    → IsGetAclResponse v
    → Writes host (serialize_get_acl_response host v) (wire_get_acl_response v)
unfolding serialize_get_acl_response wire_get_acl_response
serialize_get_acl_response-Writes host v h = Writes-start (
    Writes-then (serialize_acl_vector-Writes host v.acl h.acl)
      (Writes-end (serialize_stat-Writes host v.stat h.stat)))

pub deserialize_get_acl_response-Loads :
    (host : Host) (v old : GetAclResponse)
    → IsGenerous host
    → IsGetAclResponse v
    → Loads (deserialize_get_acl_response host) (wire_get_acl_response v) old v
unfolding deserialize_get_acl_response wire_get_acl_response
deserialize_get_acl_response-Loads host v old g h = Loads-start (
    Loads-then
      (Loads-field (λ v. v.acl) (λ v x. record v { acl = x }) _
        (deserialize_acl_vector-Loads host v.acl _ g h.acl))
      (Loads-end (
        Loads-field (λ v. v.stat) (λ v x. record v { stat = x }) _
          (deserialize_stat-Loads host v.stat _ h.stat))))

pub deserialize_get_acl_response-Safe :
    (host : Host) → IsUsable host → GrantsVectors host → Safe (deserialize_get_acl_response host)
unfolding deserialize_get_acl_response
deserialize_get_acl_response-Safe host k room = Safe-start (
    Safe-then (Safe-field _ _ (deserialize_acl_vector-Safe host k room))
      (Safe-end (Safe-field _ _ (deserialize_stat-Safe host k))))

unfoldable pub wire_set_acl_request : SetAclRequest → List ℕ
wire_set_acl_request v = wire_string v.path ++ (wire_acl_vector v.acl ++ wire_int v.version)

pub record IsSetAclRequest (v : SetAclRequest) : Type 0 where
  pub path : IsText v.path
  pub acl : IsAclVector v.acl
  pub version : IsInt v.version

pub serialize_set_acl_request-Writes :
    (host : Host) (v : SetAclRequest)
    → IsSetAclRequest v
    → Writes host (serialize_set_acl_request host v) (wire_set_acl_request v)
unfolding serialize_set_acl_request wire_set_acl_request
serialize_set_acl_request-Writes host v h = Writes-start (
    Writes-then (oa_serialize_string-Writes host v.path h.path) (
      Writes-then (serialize_acl_vector-Writes host v.acl h.acl)
        (Writes-end (oa_serialize_int-Writes host v.version))))

pub deserialize_set_acl_request-Loads :
    (host : Host) (v old : SetAclRequest)
    → IsGenerous host
    → IsSetAclRequest v
    → Loads (deserialize_set_acl_request host) (wire_set_acl_request v) old v
unfolding deserialize_set_acl_request wire_set_acl_request
deserialize_set_acl_request-Loads host v old g h = Loads-start (
    Loads-then
      (Loads-field (λ v. v.path) (λ v x. record v { path = x }) _
        (ia_deserialize_string-Loads host v.path _ g h.path))
      (Loads-then
        (Loads-field (λ v. v.acl) (λ v x. record v { acl = x }) _
          (deserialize_acl_vector-Loads host v.acl _ g h.acl))
        (Loads-end (
          Loads-field (λ v. v.version) (λ v x. record v { version = x }) _
            (ia_deserialize_int-Loads host v.version _ h.version)))))

pub deserialize_set_acl_request-Safe :
    (host : Host) → IsUsable host → GrantsVectors host → Safe (deserialize_set_acl_request host)
unfolding deserialize_set_acl_request
deserialize_set_acl_request-Safe host k room = Safe-start (
    Safe-then (Safe-field _ _ (ia_deserialize_string-Safe host k)) (
      Safe-then (Safe-field _ _ (deserialize_acl_vector-Safe host k room))
        (Safe-end (Safe-field _ _ (ia_deserialize_int-Safe host k)))))

unfoldable pub wire_set_acl_response : SetAclResponse → List ℕ
wire_set_acl_response v = wire_stat v.stat

pub record IsSetAclResponse (v : SetAclResponse) : Type 0 where
  pub stat : IsStat v.stat

pub serialize_set_acl_response-Writes :
    (host : Host) (v : SetAclResponse)
    → IsSetAclResponse v
    → Writes host (serialize_set_acl_response host v) (wire_set_acl_response v)
unfolding serialize_set_acl_response wire_set_acl_response
serialize_set_acl_response-Writes host v h =
    Writes-start (Writes-end (serialize_stat-Writes host v.stat h.stat))

pub deserialize_set_acl_response-Loads :
    (host : Host) (v old : SetAclResponse)
    → IsSetAclResponse v
    → Loads (deserialize_set_acl_response host) (wire_set_acl_response v) old v
unfolding deserialize_set_acl_response wire_set_acl_response
deserialize_set_acl_response-Loads host v old h = Loads-start (
    Loads-end (
      Loads-field (λ v. v.stat) (λ v x. record v { stat = x }) _
        (deserialize_stat-Loads host v.stat _ h.stat)))

pub deserialize_set_acl_response-Safe :
    (host : Host) → IsUsable host → Safe (deserialize_set_acl_response host)
unfolding deserialize_set_acl_response
deserialize_set_acl_response-Safe host k =
    Safe-start (Safe-end (Safe-field _ _ (deserialize_stat-Safe host k)))
