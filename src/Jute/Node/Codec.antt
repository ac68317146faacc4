-- ===== src/Jute/Node/Codec.antt =====
-- zookeeper.jute.c. The wire form of the records of Jute/Node.antt, which the serializers append and
-- the deserializers read back.
use zkclient.Prelude.{List, ℕ, ◌++◌}
use zkclient.Host.{Host}
use zkclient.Archive.Appends.{
  Writes, Writes-end, Writes-start, Writes-then, oa_serialize_int-Writes,
}
use zkclient.Archive.Loads.{IsGenerous, Loads, ia_deserialize_int-Loads}
use zkclient.Archive.Parts.{
  Loads-end, Loads-field, Loads-start, Loads-then, ia_deserialize_buffer-Loads,
  ia_deserialize_string-Loads,
}
use zkclient.Archive.SafeParts.{
  Safe-end, Safe-field, Safe-start, Safe-then, ia_deserialize_buffer-Safe,
  ia_deserialize_string-Safe,
}
use zkclient.Archive.Safety.{GrantsVectors, IsUsable, Safe, ia_deserialize_int-Safe}
use zkclient.Archive.Texts.{oa_serialize_buffer-Writes, oa_serialize_string-Writes}
use zkclient.Archive.Wire.{
  IsBuffer, IsBuffer-IsSendable, IsInt, IsText, wire_buffer, wire_int, wire_string,
}
use zkclient.Jute.Acl.Codec.{
  IsAclVector, deserialize_acl_vector-Loads, deserialize_acl_vector-Safe,
  serialize_acl_vector-Writes, wire_acl_vector,
}
use zkclient.Jute.Node.{
  CheckVersionRequest, CreateRequest, CreateResponse, DeleteRequest,
  deserialize_check_version_request, deserialize_create_request, deserialize_create_response,
  deserialize_delete_request, serialize_check_version_request, serialize_create_request,
  serialize_create_response, serialize_delete_request,
}

unfoldable pub wire_create_request : CreateRequest → List ℕ
wire_create_request v =
    wire_string v.path ++ (wire_buffer v.data_buffer ++ (wire_acl_vector v.acl ++ wire_int v.flags))

pub record IsCreateRequest (v : CreateRequest) : Type 0 where
  pub path : IsText v.path
  pub data_buffer : IsBuffer v.data_buffer
  pub acl : IsAclVector v.acl
  pub flags : IsInt v.flags

pub serialize_create_request-Writes :
    (host : Host) (v : CreateRequest)
    → IsCreateRequest v
    → Writes host (serialize_create_request host v) (wire_create_request v)
unfolding serialize_create_request wire_create_request
serialize_create_request-Writes host v h = Writes-start (
    Writes-then (oa_serialize_string-Writes host v.path h.path) (
      Writes-then
        (oa_serialize_buffer-Writes host v.data_buffer
          (IsBuffer-IsSendable v.data_buffer h.data_buffer))
        (Writes-then (serialize_acl_vector-Writes host v.acl h.acl)
          (Writes-end (oa_serialize_int-Writes host v.flags)))))

pub deserialize_create_request-Loads :
    (host : Host) (v old : CreateRequest)
    → IsGenerous host
    → IsCreateRequest v
    → Loads (deserialize_create_request host) (wire_create_request v) old v
unfolding deserialize_create_request wire_create_request
deserialize_create_request-Loads host v old g h = Loads-start (
    Loads-then
      (Loads-field (λ v. v.path) (λ v x. record v { path = x }) _
        (ia_deserialize_string-Loads host v.path _ g h.path))
      (Loads-then
        (Loads-field (λ v. v.data_buffer) (λ v x. record v { data_buffer = x }) _
          (ia_deserialize_buffer-Loads host v.data_buffer _ g h.data_buffer))
        (Loads-then
          (Loads-field (λ v. v.acl) (λ v x. record v { acl = x }) _
            (deserialize_acl_vector-Loads host v.acl _ g h.acl))
          (Loads-end (
            Loads-field (λ v. v.flags) (λ v x. record v { flags = x }) _
              (ia_deserialize_int-Loads host v.flags _ h.flags))))))

pub deserialize_create_request-Safe :
    (host : Host) → IsUsable host → GrantsVectors host → Safe (deserialize_create_request host)
unfolding deserialize_create_request
deserialize_create_request-Safe host k room = Safe-start (
    Safe-then (Safe-field _ _ (ia_deserialize_string-Safe host k)) (
      Safe-then (Safe-field _ _ (ia_deserialize_buffer-Safe host k)) (
        Safe-then (Safe-field _ _ (deserialize_acl_vector-Safe host k room))
          (Safe-end (Safe-field _ _ (ia_deserialize_int-Safe host k))))))

unfoldable pub wire_create_response : CreateResponse → List ℕ
wire_create_response v = wire_string v.path

pub record IsCreateResponse (v : CreateResponse) : Type 0 where
  pub path : IsText v.path

pub serialize_create_response-Writes :
    (host : Host) (v : CreateResponse)
    → IsCreateResponse v
    → Writes host (serialize_create_response host v) (wire_create_response v)
unfolding serialize_create_response wire_create_response
serialize_create_response-Writes host v h =
    Writes-start (Writes-end (oa_serialize_string-Writes host v.path h.path))

pub deserialize_create_response-Loads :
    (host : Host) (v old : CreateResponse)
    → IsGenerous host
    → IsCreateResponse v
    → Loads (deserialize_create_response host) (wire_create_response v) old v
unfolding deserialize_create_response wire_create_response
deserialize_create_response-Loads host v old g h = Loads-start (
    Loads-end (
      Loads-field (λ v. v.path) (λ v x. record v { path = x }) _
        (ia_deserialize_string-Loads host v.path _ g h.path)))

pub deserialize_create_response-Safe :
    (host : Host) → IsUsable host → Safe (deserialize_create_response host)
unfolding deserialize_create_response
deserialize_create_response-Safe host k =
    Safe-start (Safe-end (Safe-field _ _ (ia_deserialize_string-Safe host k)))

unfoldable pub wire_delete_request : DeleteRequest → List ℕ
wire_delete_request v = wire_string v.path ++ wire_int v.version

pub record IsDeleteRequest (v : DeleteRequest) : Type 0 where
  pub path : IsText v.path
  pub version : IsInt v.version

pub serialize_delete_request-Writes :
    (host : Host) (v : DeleteRequest)
    → IsDeleteRequest v
    → Writes host (serialize_delete_request host v) (wire_delete_request v)
unfolding serialize_delete_request wire_delete_request
serialize_delete_request-Writes host v h = Writes-start (
    Writes-then (oa_serialize_string-Writes host v.path h.path)
      (Writes-end (oa_serialize_int-Writes host v.version)))

pub deserialize_delete_request-Loads :
    (host : Host) (v old : DeleteRequest)
    → IsGenerous host
    → IsDeleteRequest v
    → Loads (deserialize_delete_request host) (wire_delete_request v) old v
unfolding deserialize_delete_request wire_delete_request
deserialize_delete_request-Loads host v old g h = Loads-start (
    Loads-then
      (Loads-field (λ v. v.path) (λ v x. record v { path = x }) _
        (ia_deserialize_string-Loads host v.path _ g h.path))
      (Loads-end (
        Loads-field (λ v. v.version) (λ v x. record v { version = x }) _
          (ia_deserialize_int-Loads host v.version _ h.version))))

pub deserialize_delete_request-Safe :
    (host : Host) → IsUsable host → Safe (deserialize_delete_request host)
unfolding deserialize_delete_request
deserialize_delete_request-Safe host k = Safe-start (
    Safe-then (Safe-field _ _ (ia_deserialize_string-Safe host k))
      (Safe-end (Safe-field _ _ (ia_deserialize_int-Safe host k))))

unfoldable pub wire_check_version_request : CheckVersionRequest → List ℕ
wire_check_version_request v = wire_string v.path ++ wire_int v.version

pub record IsCheckVersionRequest (v : CheckVersionRequest) : Type 0 where
  pub path : IsText v.path
  pub version : IsInt v.version

pub serialize_check_version_request-Writes :
    (host : Host) (v : CheckVersionRequest)
    → IsCheckVersionRequest v
    → Writes host (serialize_check_version_request host v) (wire_check_version_request v)
unfolding serialize_check_version_request wire_check_version_request
serialize_check_version_request-Writes host v h = Writes-start (
    Writes-then (oa_serialize_string-Writes host v.path h.path)
      (Writes-end (oa_serialize_int-Writes host v.version)))

pub deserialize_check_version_request-Loads :
    (host : Host) (v old : CheckVersionRequest)
    → IsGenerous host
    → IsCheckVersionRequest v
    → Loads (deserialize_check_version_request host) (wire_check_version_request v) old v
unfolding deserialize_check_version_request wire_check_version_request
deserialize_check_version_request-Loads host v old g h = Loads-start (
    Loads-then
      (Loads-field (λ v. v.path) (λ v x. record v { path = x }) _
        (ia_deserialize_string-Loads host v.path _ g h.path))
      (Loads-end (
        Loads-field (λ v. v.version) (λ v x. record v { version = x }) _
          (ia_deserialize_int-Loads host v.version _ h.version))))

pub deserialize_check_version_request-Safe :
    (host : Host) → IsUsable host → Safe (deserialize_check_version_request host)
unfolding deserialize_check_version_request
deserialize_check_version_request-Safe host k = Safe-start (
    Safe-then (Safe-field _ _ (ia_deserialize_string-Safe host k))
      (Safe-end (Safe-field _ _ (ia_deserialize_int-Safe host k))))
