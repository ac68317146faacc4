-- ===== src/Jute/CreateTxn/Codec.antt =====
-- zookeeper.jute.c. The wire form of the records of Jute/CreateTxn.antt, which the serializers append and
-- the deserializers read back.
use zkclient.Prelude.{List, ℕ, ◌++◌}
use zkclient.Host.{Host}
use zkclient.Archive.Appends.{
  Writes, Writes-end, Writes-start, Writes-then, oa_serialize_bool-Writes, oa_serialize_int-Writes,
}
use zkclient.Archive.Loads.{IsGenerous, Loads, ia_deserialize_bool-Loads, ia_deserialize_int-Loads}
use zkclient.Archive.Parts.{
  Loads-end, Loads-field, Loads-start, Loads-then, ia_deserialize_buffer-Loads,
  ia_deserialize_string-Loads,
}
use zkclient.Archive.SafeParts.{
  Safe-end, Safe-field, Safe-start, Safe-then, ia_deserialize_buffer-Safe,
  ia_deserialize_string-Safe,
}
use zkclient.Archive.Safety.{
  GrantsVectors, IsUsable, Safe, ia_deserialize_bool-Safe, ia_deserialize_int-Safe,
}
use zkclient.Archive.Texts.{oa_serialize_buffer-Writes, oa_serialize_string-Writes}
use zkclient.Archive.Wire.{
  IsBool, IsBuffer, IsBuffer-IsSendable, IsInt, IsText, wire_bool, wire_buffer, wire_int,
  wire_string,
}
use zkclient.Jute.Acl.Codec.{
  IsAclVector, deserialize_acl_vector-Loads, deserialize_acl_vector-Safe,
  serialize_acl_vector-Writes, wire_acl_vector,
}
use zkclient.Jute.CreateTxn.{
  CreateTxn, CreateTxnV0, DeleteTxn, SetDataTxn, deserialize_create_txn, deserialize_create_txn_v0,
  deserialize_delete_txn, deserialize_set_data_txn, serialize_create_txn, serialize_create_txn_v0,
  serialize_delete_txn, serialize_set_data_txn,
}

unfoldable pub wire_create_txn_v0 : CreateTxnV0 → List ℕ
wire_create_txn_v0 v =
    wire_string v.path
    ++ (wire_buffer v.data_buffer ++ (wire_acl_vector v.acl ++ wire_bool v.ephemeral))

pub record IsCreateTxnV0 (v : CreateTxnV0) : Type 0 where
  pub path : IsText v.path
  pub data_buffer : IsBuffer v.data_buffer
  pub acl : IsAclVector v.acl
  pub ephemeral : IsBool v.ephemeral

pub serialize_create_txn_v0-Writes :
    (host : Host) (v : CreateTxnV0)
    → IsCreateTxnV0 v
    → Writes host (serialize_create_txn_v0 host v) (wire_create_txn_v0 v)
unfolding serialize_create_txn_v0 wire_create_txn_v0
serialize_create_txn_v0-Writes host v h = Writes-start (
    Writes-then (oa_serialize_string-Writes host v.path h.path) (
      Writes-then
        (oa_serialize_buffer-Writes host v.data_buffer
          (IsBuffer-IsSendable v.data_buffer h.data_buffer))
        (Writes-then (serialize_acl_vector-Writes host v.acl h.acl)
          (Writes-end (oa_serialize_bool-Writes host v.ephemeral)))))

pub deserialize_create_txn_v0-Loads :
    (host : Host) (v old : CreateTxnV0)
    → IsGenerous host
    → IsCreateTxnV0 v
    → Loads (deserialize_create_txn_v0 host) (wire_create_txn_v0 v) old v
unfolding deserialize_create_txn_v0 wire_create_txn_v0
deserialize_create_txn_v0-Loads host v old g h = Loads-start (
    Loads-then
      (Loads-field (λ v. v.path) (λ v x. record v { path = x }) _
        (ia_deserialize_string-Loads host v.path _ g h.path))
      (Loads-then
        (Loads-field (λ v. v.data_buffer) (λ v x. record v { data_buffer = x }) _
          (ia_deserialize_buffer-Loads host v.data_buffer _ g h.data_buffer))
        (Loads-then
          (Loads-field (λ v. v.acl) (λ v x. record v { acl = x }) _
            (deserialize_acl_vector-Loads host v.acl _ g h.acl))
          (Loads-end (
            Loads-field (λ v. v.ephemeral) (λ v x. record v { ephemeral = x }) _
              (ia_deserialize_bool-Loads host v.ephemeral _ h.ephemeral))))))

pub deserialize_create_txn_v0-Safe :
    (host : Host) → IsUsable host → GrantsVectors host → Safe (deserialize_create_txn_v0 host)
unfolding deserialize_create_txn_v0
deserialize_create_txn_v0-Safe host k room = Safe-start (
    Safe-then (Safe-field _ _ (ia_deserialize_string-Safe host k)) (
      Safe-then (Safe-field _ _ (ia_deserialize_buffer-Safe host k)) (
        Safe-then (Safe-field _ _ (deserialize_acl_vector-Safe host k room))
          (Safe-end (Safe-field _ _ (ia_deserialize_bool-Safe host k))))))

unfoldable pub wire_create_txn : CreateTxn → List ℕ
wire_create_txn v =
    wire_string v.path
    ++ (wire_buffer v.data_buffer
        ++ (wire_acl_vector v.acl ++ (wire_bool v.ephemeral ++ wire_int v.parent_cversion)))

pub record IsCreateTxn (v : CreateTxn) : Type 0 where
  pub path : IsText v.path
  pub data_buffer : IsBuffer v.data_buffer
  pub acl : IsAclVector v.acl
  pub ephemeral : IsBool v.ephemeral
  pub parent_cversion : IsInt v.parent_cversion

pub serialize_create_txn-Writes :
    (host : Host) (v : CreateTxn)
    → IsCreateTxn v
    → Writes host (serialize_create_txn host v) (wire_create_txn v)
unfolding serialize_create_txn wire_create_txn
serialize_create_txn-Writes host v h = Writes-start (
    Writes-then (oa_serialize_string-Writes host v.path h.path) (
      Writes-then
        (oa_serialize_buffer-Writes host v.data_buffer
          (IsBuffer-IsSendable v.data_buffer h.data_buffer))
        (Writes-then (serialize_acl_vector-Writes host v.acl h.acl) (
          Writes-then (oa_serialize_bool-Writes host v.ephemeral)
            (Writes-end (oa_serialize_int-Writes host v.parent_cversion))))))

pub deserialize_create_txn-Loads :
    (host : Host) (v old : CreateTxn)
    → IsGenerous host
    → IsCreateTxn v
    → Loads (deserialize_create_txn host) (wire_create_txn v) old v
unfolding deserialize_create_txn wire_create_txn
deserialize_create_txn-Loads host v old g h = Loads-start (
    Loads-then
      (Loads-field (λ v. v.path) (λ v x. record v { path = x }) _
        (ia_deserialize_string-Loads host v.path _ g h.path))
      (Loads-then
        (Loads-field (λ v. v.data_buffer) (λ v x. record v { data_buffer = x }) _
          (ia_deserialize_buffer-Loads host v.data_buffer _ g h.data_buffer))
        (Loads-then
          (Loads-field (λ v. v.acl) (λ v x. record v { acl = x }) _
            (deserialize_acl_vector-Loads host v.acl _ g h.acl))
          (Loads-then
            (Loads-field (λ v. v.ephemeral) (λ v x. record v { ephemeral = x }) _
              (ia_deserialize_bool-Loads host v.ephemeral _ h.ephemeral))
            (Loads-end (
              Loads-field (λ v. v.parent_cversion) (λ v x. record v { parent_cversion = x }) _
                (ia_deserialize_int-Loads host v.parent_cversion _ h.parent_cversion)))))))

pub deserialize_create_txn-Safe :
    (host : Host) → IsUsable host → GrantsVectors host → Safe (deserialize_create_txn host)
unfolding deserialize_create_txn
deserialize_create_txn-Safe host k room = Safe-start (
    Safe-then (Safe-field _ _ (ia_deserialize_string-Safe host k)) (
      Safe-then (Safe-field _ _ (ia_deserialize_buffer-Safe host k)) (
        Safe-then (Safe-field _ _ (deserialize_acl_vector-Safe host k room)) (
          Safe-then (Safe-field _ _ (ia_deserialize_bool-Safe host k))
            (Safe-end (Safe-field _ _ (ia_deserialize_int-Safe host k)))))))

unfoldable pub wire_delete_txn : DeleteTxn → List ℕ
wire_delete_txn v = wire_string v.path

pub record IsDeleteTxn (v : DeleteTxn) : Type 0 where
  pub path : IsText v.path

pub serialize_delete_txn-Writes :
    (host : Host) (v : DeleteTxn)
    → IsDeleteTxn v
    → Writes host (serialize_delete_txn host v) (wire_delete_txn v)
unfolding serialize_delete_txn wire_delete_txn
serialize_delete_txn-Writes host v h =
    Writes-start (Writes-end (oa_serialize_string-Writes host v.path h.path))

pub deserialize_delete_txn-Loads :
    (host : Host) (v old : DeleteTxn)
    → IsGenerous host
    → IsDeleteTxn v
    → Loads (deserialize_delete_txn host) (wire_delete_txn v) old v
unfolding deserialize_delete_txn wire_delete_txn
deserialize_delete_txn-Loads host v old g h = Loads-start (
    Loads-end (
      Loads-field (λ v. v.path) (λ v x. record v { path = x }) _
        (ia_deserialize_string-Loads host v.path _ g h.path)))

pub deserialize_delete_txn-Safe : (host : Host) → IsUsable host → Safe (deserialize_delete_txn host)
unfolding deserialize_delete_txn
deserialize_delete_txn-Safe host k =
    Safe-start (Safe-end (Safe-field _ _ (ia_deserialize_string-Safe host k)))

unfoldable pub wire_set_data_txn : SetDataTxn → List ℕ
wire_set_data_txn v = wire_string v.path ++ (wire_buffer v.data_buffer ++ wire_int v.version)

pub record IsSetDataTxn (v : SetDataTxn) : Type 0 where
  pub path : IsText v.path
  pub data_buffer : IsBuffer v.data_buffer
  pub version : IsInt v.version

pub serialize_set_data_txn-Writes :
    (host : Host) (v : SetDataTxn)
    → IsSetDataTxn v
    → Writes host (serialize_set_data_txn host v) (wire_set_data_txn v)
unfolding serialize_set_data_txn wire_set_data_txn
serialize_set_data_txn-Writes host v h = Writes-start (
    Writes-then (oa_serialize_string-Writes host v.path h.path) (
      Writes-then
        (oa_serialize_buffer-Writes host v.data_buffer
          (IsBuffer-IsSendable v.data_buffer h.data_buffer))
        (Writes-end (oa_serialize_int-Writes host v.version))))

pub deserialize_set_data_txn-Loads :
    (host : Host) (v old : SetDataTxn)
    → IsGenerous host
    → IsSetDataTxn v
    → Loads (deserialize_set_data_txn host) (wire_set_data_txn v) old v
unfolding deserialize_set_data_txn wire_set_data_txn
deserialize_set_data_txn-Loads host v old g h = Loads-start (
    Loads-then
      (Loads-field (λ v. v.path) (λ v x. record v { path = x }) _
        (ia_deserialize_string-Loads host v.path _ g h.path))
      (Loads-then
        (Loads-field (λ v. v.data_buffer) (λ v x. record v { data_buffer = x }) _
          (ia_deserialize_buffer-Loads host v.data_buffer _ g h.data_buffer))
        (Loads-end (
          Loads-field (λ v. v.version) (λ v x. record v { version = x }) _
            (ia_deserialize_int-Loads host v.version _ h.version)))))

pub deserialize_set_data_txn-Safe :
    (host : Host) → IsUsable host → Safe (deserialize_set_data_txn host)
unfolding deserialize_set_data_txn
deserialize_set_data_txn-Safe host k = Safe-start (
    Safe-then (Safe-field _ _ (ia_deserialize_string-Safe host k)) (
      Safe-then (Safe-field _ _ (ia_deserialize_buffer-Safe host k))
        (Safe-end (Safe-field _ _ (ia_deserialize_int-Safe host k)))))
