-- ===== src/Jute/OtherTxn/Codec.antt =====
-- zookeeper.jute.c. The wire form of the records of Jute/OtherTxn.antt, which the serializers append and
-- the deserializers read back.
use zkclient.Prelude.{List, ℕ, ◌++◌}
use zkclient.Host.{Host}
use zkclient.Archive.Appends.{
  Writes, Writes-end, Writes-start, Writes-then, oa_serialize_int-Writes,
}
use zkclient.Archive.Loads.{IsGenerous, Loads, ia_deserialize_int-Loads}
use zkclient.Archive.Parts.{
  Loads-end, Loads-field, Loads-start, Loads-then, ia_deserialize_string-Loads,
}
use zkclient.Archive.SafeParts.{
  Safe-end, Safe-field, Safe-start, Safe-then, ia_deserialize_string-Safe,
}
use zkclient.Archive.Safety.{GrantsVectors, IsUsable, Safe, ia_deserialize_int-Safe}
use zkclient.Archive.Texts.{oa_serialize_string-Writes}
use zkclient.Archive.Wire.{IsInt, IsText, wire_int, wire_string}
use zkclient.Jute.Acl.Codec.{
  IsAclVector, deserialize_acl_vector-Loads, deserialize_acl_vector-Safe,
  serialize_acl_vector-Writes, wire_acl_vector,
}
use zkclient.Jute.OtherTxn.{
  CheckVersionTxn, CreateSessionTxn, ErrorTxn, SetAclTxn, SetMaxChildrenTxn,
  deserialize_check_version_txn, deserialize_create_session_txn, deserialize_error_txn,
  deserialize_set_acl_txn, deserialize_set_max_children_txn, serialize_check_version_txn,
  serialize_create_session_txn, serialize_error_txn, serialize_set_acl_txn,
  serialize_set_max_children_txn,
}

unfoldable pub wire_check_version_txn : CheckVersionTxn → List ℕ
wire_check_version_txn v = wire_string v.path ++ wire_int v.version

pub record IsCheckVersionTxn (v : CheckVersionTxn) : Type 0 where
  pub path : IsText v.path
  pub version : IsInt v.version

pub serialize_check_version_txn-Writes :
    (host : Host) (v : CheckVersionTxn)
    → IsCheckVersionTxn v
    → Writes host (serialize_check_version_txn host v) (wire_check_version_txn v)
unfolding serialize_check_version_txn wire_check_version_txn
serialize_check_version_txn-Writes host v h = Writes-start (
    Writes-then (oa_serialize_string-Writes host v.path h.path)
      (Writes-end (oa_serialize_int-Writes host v.version)))

pub deserialize_check_version_txn-Loads :
    (host : Host) (v old : CheckVersionTxn)
    → IsGenerous host
    → IsCheckVersionTxn v
    → Loads (deserialize_check_version_txn host) (wire_check_version_txn v) old v
unfolding deserialize_check_version_txn wire_check_version_txn
deserialize_check_version_txn-Loads host v old g h = Loads-start (
    Loads-then
      (Loads-field (λ v. v.path) (λ v x. record v { path = x }) _
        (ia_deserialize_string-Loads host v.path _ g h.path))
      (Loads-end (
        Loads-field (λ v. v.version) (λ v x. record v { version = x }) _
          (ia_deserialize_int-Loads host v.version _ h.version))))

pub deserialize_check_version_txn-Safe :
    (host : Host) → IsUsable host → Safe (deserialize_check_version_txn host)
unfolding deserialize_check_version_txn
deserialize_check_version_txn-Safe host k = Safe-start (
    Safe-then (Safe-field _ _ (ia_deserialize_string-Safe host k))
      (Safe-end (Safe-field _ _ (ia_deserialize_int-Safe host k))))

unfoldable pub wire_set_acl_txn : SetAclTxn → List ℕ
wire_set_acl_txn v = wire_string v.path ++ (wire_acl_vector v.acl ++ wire_int v.version)

pub record IsSetAclTxn (v : SetAclTxn) : Type 0 where
  pub path : IsText v.path
  pub acl : IsAclVector v.acl
  pub version : IsInt v.version

pub serialize_set_acl_txn-Writes :
    (host : Host) (v : SetAclTxn)
    → IsSetAclTxn v
    → Writes host (serialize_set_acl_txn host v) (wire_set_acl_txn v)
unfolding serialize_set_acl_txn wire_set_acl_txn
serialize_set_acl_txn-Writes host v h = Writes-start (
    Writes-then (oa_serialize_string-Writes host v.path h.path) (
      Writes-then (serialize_acl_vector-Writes host v.acl h.acl)
        (Writes-end (oa_serialize_int-Writes host v.version))))

pub deserialize_set_acl_txn-Loads :
    (host : Host) (v old : SetAclTxn)
    → IsGenerous host
    → IsSetAclTxn v
    → Loads (deserialize_set_acl_txn host) (wire_set_acl_txn v) old v
unfolding deserialize_set_acl_txn wire_set_acl_txn
deserialize_set_acl_txn-Loads host v old g h = Loads-start (
    Loads-then
      (Loads-field (λ v. v.path) (λ v x. record v { path = x }) _
        (ia_deserialize_string-Loads host v.path _ g h.path))
      (Loads-then
        (Loads-field (λ v. v.acl) (λ v x. record v { acl = x }) _
          (deserialize_acl_vector-Loads host v.acl _ g h.acl))
        (Loads-end (
          Loads-field (λ v. v.version) (λ v x. record v { version = x }) _
            (ia_deserialize_int-Loads host v.version _ h.version)))))

pub deserialize_set_acl_txn-Safe :
    (host : Host) → IsUsable host → GrantsVectors host → Safe (deserialize_set_acl_txn host)
unfolding deserialize_set_acl_txn
deserialize_set_acl_txn-Safe host k room = Safe-start (
    Safe-then (Safe-field _ _ (ia_deserialize_string-Safe host k)) (
      Safe-then (Safe-field _ _ (deserialize_acl_vector-Safe host k room))
        (Safe-end (Safe-field _ _ (ia_deserialize_int-Safe host k)))))

unfoldable pub wire_set_max_children_txn : SetMaxChildrenTxn → List ℕ
wire_set_max_children_txn v = wire_string v.path ++ wire_int v.max

pub record IsSetMaxChildrenTxn (v : SetMaxChildrenTxn) : Type 0 where
  pub path : IsText v.path
  pub max : IsInt v.max

pub serialize_set_max_children_txn-Writes :
    (host : Host) (v : SetMaxChildrenTxn)
    → IsSetMaxChildrenTxn v
    → Writes host (serialize_set_max_children_txn host v) (wire_set_max_children_txn v)
unfolding serialize_set_max_children_txn wire_set_max_children_txn
serialize_set_max_children_txn-Writes host v h = Writes-start (
    Writes-then (oa_serialize_string-Writes host v.path h.path)
      (Writes-end (oa_serialize_int-Writes host v.max)))

pub deserialize_set_max_children_txn-Loads :
    (host : Host) (v old : SetMaxChildrenTxn)
    → IsGenerous host
    → IsSetMaxChildrenTxn v
    → Loads (deserialize_set_max_children_txn host) (wire_set_max_children_txn v) old v
unfolding deserialize_set_max_children_txn wire_set_max_children_txn
deserialize_set_max_children_txn-Loads host v old g h = Loads-start (
    Loads-then
      (Loads-field (λ v. v.path) (λ v x. record v { path = x }) _
        (ia_deserialize_string-Loads host v.path _ g h.path))
      (Loads-end (
        Loads-field (λ v. v.max) (λ v x. record v { max = x }) _
          (ia_deserialize_int-Loads host v.max _ h.max))))

pub deserialize_set_max_children_txn-Safe :
    (host : Host) → IsUsable host → Safe (deserialize_set_max_children_txn host)
unfolding deserialize_set_max_children_txn
deserialize_set_max_children_txn-Safe host k = Safe-start (
    Safe-then (Safe-field _ _ (ia_deserialize_string-Safe host k))
      (Safe-end (Safe-field _ _ (ia_deserialize_int-Safe host k))))

unfoldable pub wire_create_session_txn : CreateSessionTxn → List ℕ
wire_create_session_txn v = wire_int v.time_out

pub record IsCreateSessionTxn (v : CreateSessionTxn) : Type 0 where
  pub time_out : IsInt v.time_out

pub serialize_create_session_txn-Writes :
    (host : Host) (v : CreateSessionTxn)
    → IsCreateSessionTxn v
    → Writes host (serialize_create_session_txn host v) (wire_create_session_txn v)
unfolding serialize_create_session_txn wire_create_session_txn
serialize_create_session_txn-Writes host v h =
    Writes-start (Writes-end (oa_serialize_int-Writes host v.time_out))

pub deserialize_create_session_txn-Loads :
    (host : Host) (v old : CreateSessionTxn)
    → IsCreateSessionTxn v
    → Loads (deserialize_create_session_txn host) (wire_create_session_txn v) old v
unfolding deserialize_create_session_txn wire_create_session_txn
deserialize_create_session_txn-Loads host v old h = Loads-start (
    Loads-end (
      Loads-field (λ v. v.time_out) (λ v x. record v { time_out = x }) _
        (ia_deserialize_int-Loads host v.time_out _ h.time_out)))

pub deserialize_create_session_txn-Safe :
    (host : Host) → IsUsable host → Safe (deserialize_create_session_txn host)
unfolding deserialize_create_session_txn
deserialize_create_session_txn-Safe host k =
    Safe-start (Safe-end (Safe-field _ _ (ia_deserialize_int-Safe host k)))

unfoldable pub wire_error_txn : ErrorTxn → List ℕ
wire_error_txn v = wire_int v.err

pub record IsErrorTxn (v : ErrorTxn) : Type 0 where
  pub err : IsInt v.err

pub serialize_error_txn-Writes :
    (host : Host) (v : ErrorTxn)
    → IsErrorTxn v
    → Writes host (serialize_error_txn host v) (wire_error_txn v)
unfolding serialize_error_txn wire_error_txn
serialize_error_txn-Writes host v h = Writes-start (Writes-end (oa_serialize_int-Writes host v.err))

pub deserialize_error_txn-Loads :
    (host : Host) (v old : ErrorTxn)
    → IsErrorTxn v
    → Loads (deserialize_error_txn host) (wire_error_txn v) old v
unfolding deserialize_error_txn wire_error_txn
deserialize_error_txn-Loads host v old h = Loads-start (
    Loads-end (
      Loads-field (λ v. v.err) (λ v x. record v { err = x }) _
        (ia_deserialize_int-Loads host v.err _ h.err)))

pub deserialize_error_txn-Safe : (host : Host) → IsUsable host → Safe (deserialize_error_txn host)
unfolding deserialize_error_txn
deserialize_error_txn-Safe host k =
    Safe-start (Safe-end (Safe-field _ _ (ia_deserialize_int-Safe host k)))
