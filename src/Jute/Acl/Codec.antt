-- ===== src/Jute/Acl/Codec.antt =====
-- zookeeper.jute.c. The wire form of the records of Jute/Acl.antt, which the serializers append and
-- the deserializers read back.
use zkclient.Prelude.{List, arith, ℕ, ◌++◌}
use zkclient.Host.{Host}
use zkclient.Archive.Appends.{
  Writes, Writes-end, Writes-start, Writes-then, oa_serialize_int-Writes,
}
use zkclient.Archive.Loads.{IsGenerous, Loads, ia_deserialize_int-Loads}
use zkclient.Archive.Parts.{
  Loads-end, Loads-field, Loads-start, Loads-then, ia_deserialize_string-Loads,
}
use zkclient.Archive.SafeParts.{
  Safe-end, Safe-field, Safe-start, Safe-then, ia_deserialize_string-Safe,
}
use zkclient.Archive.Safety.{GrantsVectors, IsUsable, Safe, ia_deserialize_int-Safe}
use zkclient.Archive.Texts.{oa_serialize_string-Writes}
use zkclient.Archive.Wire.{IsInt, IsText, wire_int, wire_string}
use zkclient.Jute.Acl.{
  Acl, AclId, AclVector, IdVector, deserialize_acl, deserialize_acl_vector, deserialize_id,
  deserialize_id_vector, serialize_acl, serialize_acl_vector, serialize_id, serialize_id_vector,
}
use zkclient.Jute.Vector.{wire_vector}
use zkclient.Jute.Vector.Elements.{IsVector, deserialize_vector-Loads, serialize_vector-Writes}
use zkclient.Jute.Vector.Safety.{deserialize_vector-Safe}

unfoldable pub wire_id : AclId → List ℕ
wire_id v = wire_string v.scheme ++ wire_string v.id

pub record IsAclId (v : AclId) : Type 0 where
  pub scheme : IsText v.scheme
  pub id : IsText v.id

pub serialize_id-Writes :
    (host : Host) (v : AclId) → IsAclId v → Writes host (serialize_id host v) (wire_id v)
unfolding serialize_id wire_id
serialize_id-Writes host v h = Writes-start (
    Writes-then (oa_serialize_string-Writes host v.scheme h.scheme)
      (Writes-end (oa_serialize_string-Writes host v.id h.id)))

pub deserialize_id-Loads :
    (host : Host) (v old : AclId)
    → IsGenerous host
    → IsAclId v
    → Loads (deserialize_id host) (wire_id v) old v
unfolding deserialize_id wire_id
deserialize_id-Loads host v old g h = Loads-start (
    Loads-then
      (Loads-field (λ v. v.scheme) (λ v x. record v { scheme = x }) _
        (ia_deserialize_string-Loads host v.scheme _ g h.scheme))
      (Loads-end (
        Loads-field (λ v. v.id) (λ v x. record v { id = x }) _
          (ia_deserialize_string-Loads host v.id _ g h.id))))

pub deserialize_id-Safe : (host : Host) → IsUsable host → Safe (deserialize_id host)
unfolding deserialize_id
deserialize_id-Safe host k = Safe-start (
    Safe-then (Safe-field _ _ (ia_deserialize_string-Safe host k))
      (Safe-end (Safe-field _ _ (ia_deserialize_string-Safe host k))))

unfoldable pub wire_acl : Acl → List ℕ
wire_acl v = wire_int v.perms ++ wire_id v.id

pub record IsAcl (v : Acl) : Type 0 where
  pub perms : IsInt v.perms
  pub id : IsAclId v.id

pub serialize_acl-Writes :
    (host : Host) (v : Acl) → IsAcl v → Writes host (serialize_acl host v) (wire_acl v)
unfolding serialize_acl wire_acl
serialize_acl-Writes host v h = Writes-start (
    Writes-then (oa_serialize_int-Writes host v.perms)
      (Writes-end (serialize_id-Writes host v.id h.id)))

pub deserialize_acl-Loads :
    (host : Host) (v old : Acl)
    → IsGenerous host
    → IsAcl v
    → Loads (deserialize_acl host) (wire_acl v) old v
unfolding deserialize_acl wire_acl
deserialize_acl-Loads host v old g h = Loads-start (
    Loads-then
      (Loads-field (λ v. v.perms) (λ v x. record v { perms = x }) _
        (ia_deserialize_int-Loads host v.perms _ h.perms))
      (Loads-end (
        Loads-field (λ v. v.id) (λ v x. record v { id = x }) _
          (deserialize_id-Loads host v.id _ g h.id))))

pub deserialize_acl-Safe : (host : Host) → IsUsable host → Safe (deserialize_acl host)
unfolding deserialize_acl
deserialize_acl-Safe host k = Safe-start (
    Safe-then (Safe-field _ _ (ia_deserialize_int-Safe host k))
      (Safe-end (Safe-field _ _ (deserialize_id-Safe host k))))

unfoldable pub wire_acl_vector : AclVector → List ℕ
wire_acl_vector = wire_vector wire_acl

abbrev pub IsAclVector : AclVector → Type 0
IsAclVector = IsVector IsAcl

pub serialize_acl_vector-Writes :
    (host : Host) (v : AclVector)
    → IsAclVector v
    → Writes host (serialize_acl_vector host v) (wire_acl_vector v)
unfolding serialize_acl_vector wire_acl_vector
serialize_acl_vector-Writes host v h =
    serialize_vector-Writes host IsAcl wire_acl (serialize_acl host) (serialize_acl-Writes host) v h

pub deserialize_acl_vector-Loads :
    (host : Host) (v old : AclVector)
    → IsGenerous host
    → IsAclVector v
    → Loads (deserialize_acl_vector host) (wire_acl_vector v) old v
unfolding deserialize_acl_vector wire_acl_vector
deserialize_acl_vector-Loads host v old g h =
    deserialize_vector-Loads host IsAcl wire_acl (deserialize_acl host)
      (λ x before p. deserialize_acl-Loads host x before g p) 24 _ v old (omega arith) g h

pub deserialize_acl_vector-Safe :
    (host : Host) → IsUsable host → GrantsVectors host → Safe (deserialize_acl_vector host)
unfolding deserialize_acl_vector
deserialize_acl_vector-Safe host k room =
    deserialize_vector-Safe host k room 24 (omega arith) _ (deserialize_acl host)
      (deserialize_acl-Safe host k)

unfoldable pub wire_id_vector : IdVector → List ℕ
wire_id_vector = wire_vector wire_id

abbrev pub IsIdVector : IdVector → Type 0
IsIdVector = IsVector IsAclId

pub serialize_id_vector-Writes :
    (host : Host) (v : IdVector)
    → IsIdVector v
    → Writes host (serialize_id_vector host v) (wire_id_vector v)
unfolding serialize_id_vector wire_id_vector
serialize_id_vector-Writes host v h =
    serialize_vector-Writes host IsAclId wire_id (serialize_id host) (serialize_id-Writes host) v h

pub deserialize_id_vector-Loads :
    (host : Host) (v old : IdVector)
    → IsGenerous host
    → IsIdVector v
    → Loads (deserialize_id_vector host) (wire_id_vector v) old v
unfolding deserialize_id_vector wire_id_vector
deserialize_id_vector-Loads host v old g h =
    deserialize_vector-Loads host IsAclId wire_id (deserialize_id host)
      (λ x before p. deserialize_id-Loads host x before g p) 16 _ v old (omega arith) g h

pub deserialize_id_vector-Safe :
    (host : Host) → IsUsable host → GrantsVectors host → Safe (deserialize_id_vector host)
unfolding deserialize_id_vector
deserialize_id_vector-Safe host k room =
    deserialize_vector-Safe host k room 16 (omega arith) _ (deserialize_id host)
      (deserialize_id-Safe host k)
