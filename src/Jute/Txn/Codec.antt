-- ===== src/Jute/Txn/Codec.antt =====
-- zookeeper.jute.c. The wire form of the records of Jute/Txn.antt, which the serializers append and
-- the deserializers read back.
use zkclient.Prelude.{List, arith, ℕ, ◌++◌}
use zkclient.Host.{Host}
use zkclient.Archive.Appends.{
  Writes, Writes-end, Writes-start, Writes-then, oa_serialize_int-Writes, oa_serialize_long-Writes,
}
use zkclient.Archive.Loads.{IsGenerous, Loads, ia_deserialize_int-Loads, ia_deserialize_long-Loads}
use zkclient.Archive.Parts.{
  Loads-end, Loads-field, Loads-start, Loads-then, ia_deserialize_buffer-Loads,
}
use zkclient.Archive.SafeParts.{
  Safe-end, Safe-field, Safe-start, Safe-then, ia_deserialize_buffer-Safe,
}
use zkclient.Archive.Safety.{
  GrantsVectors, IsUsable, Safe, ia_deserialize_int-Safe, ia_deserialize_long-Safe,
}
use zkclient.Archive.Texts.{oa_serialize_buffer-Writes}
use zkclient.Archive.Wire.{
  IsBuffer, IsBuffer-IsSendable, IsInt, IsLong, wire_buffer, wire_int, wire_long,
}
use zkclient.Jute.Txn.{
  MultiTxn, Txn, TxnHeader, TxnVector, deserialize_multi_txn, deserialize_txn,
  deserialize_txn_header, deserialize_txn_vector, serialize_multi_txn, serialize_txn,
  serialize_txn_header, serialize_txn_vector,
}
use zkclient.Jute.Vector.{wire_vector}
use zkclient.Jute.Vector.Elements.{IsVector, deserialize_vector-Loads, serialize_vector-Writes}
use zkclient.Jute.Vector.Safety.{deserialize_vector-Safe}

unfoldable pub wire_txn_header : TxnHeader → List ℕ
wire_txn_header v =
    wire_long v.client_id
    ++ (wire_int v.cxid ++ (wire_long v.zxid ++ (wire_long v.time ++ wire_int v.type)))

pub record IsTxnHeader (v : TxnHeader) : Type 0 where
  pub client_id : IsLong v.client_id
  pub cxid : IsInt v.cxid
  pub zxid : IsLong v.zxid
  pub time : IsLong v.time
  pub type : IsInt v.type

pub serialize_txn_header-Writes :
    (host : Host) (v : TxnHeader)
    → IsTxnHeader v
    → Writes host (serialize_txn_header host v) (wire_txn_header v)
unfolding serialize_txn_header wire_txn_header
serialize_txn_header-Writes host v h = Writes-start (
    Writes-then (oa_serialize_long-Writes host v.client_id) (
      Writes-then (oa_serialize_int-Writes host v.cxid) (
        Writes-then (oa_serialize_long-Writes host v.zxid) (
          Writes-then (oa_serialize_long-Writes host v.time)
            (Writes-end (oa_serialize_int-Writes host v.type))))))

pub deserialize_txn_header-Loads :
    (host : Host) (v old : TxnHeader)
    → IsTxnHeader v
    → Loads (deserialize_txn_header host) (wire_txn_header v) old v
unfolding deserialize_txn_header wire_txn_header
deserialize_txn_header-Loads host v old h = Loads-start (
    Loads-then
      (Loads-field (λ v. v.client_id) (λ v x. record v { client_id = x }) _
        (ia_deserialize_long-Loads host v.client_id _ h.client_id))
      (Loads-then
        (Loads-field (λ v. v.cxid) (λ v x. record v { cxid = x }) _
          (ia_deserialize_int-Loads host v.cxid _ h.cxid))
        (Loads-then
          (Loads-field (λ v. v.zxid) (λ v x. record v { zxid = x }) _
            (ia_deserialize_long-Loads host v.zxid _ h.zxid))
          (Loads-then
            (Loads-field (λ v. v.time) (λ v x. record v { time = x }) _
              (ia_deserialize_long-Loads host v.time _ h.time))
            (Loads-end (
              Loads-field (λ v. v.type) (λ v x. record v { type = x }) _
                (ia_deserialize_int-Loads host v.type _ h.type)))))))

pub deserialize_txn_header-Safe : (host : Host) → IsUsable host → Safe (deserialize_txn_header host)
unfolding deserialize_txn_header
deserialize_txn_header-Safe host k = Safe-start (
    Safe-then (Safe-field _ _ (ia_deserialize_long-Safe host k)) (
      Safe-then (Safe-field _ _ (ia_deserialize_int-Safe host k)) (
        Safe-then (Safe-field _ _ (ia_deserialize_long-Safe host k)) (
          Safe-then (Safe-field _ _ (ia_deserialize_long-Safe host k))
            (Safe-end (Safe-field _ _ (ia_deserialize_int-Safe host k)))))))

unfoldable pub wire_txn : Txn → List ℕ
wire_txn v = wire_int v.type ++ wire_buffer v.data_buffer

pub record IsTxn (v : Txn) : Type 0 where
  pub type : IsInt v.type
  pub data_buffer : IsBuffer v.data_buffer

pub serialize_txn-Writes :
    (host : Host) (v : Txn) → IsTxn v → Writes host (serialize_txn host v) (wire_txn v)
unfolding serialize_txn wire_txn
serialize_txn-Writes host v h = Writes-start (
    Writes-then (oa_serialize_int-Writes host v.type) (
      Writes-end (
        oa_serialize_buffer-Writes host v.data_buffer
          (IsBuffer-IsSendable v.data_buffer h.data_buffer))))

pub deserialize_txn-Loads :
    (host : Host) (v old : Txn)
    → IsGenerous host
    → IsTxn v
    → Loads (deserialize_txn host) (wire_txn v) old v
unfolding deserialize_txn wire_txn
deserialize_txn-Loads host v old g h = Loads-start (
    Loads-then
      (Loads-field (λ v. v.type) (λ v x. record v { type = x }) _
        (ia_deserialize_int-Loads host v.type _ h.type))
      (Loads-end (
        Loads-field (λ v. v.data_buffer) (λ v x. record v { data_buffer = x }) _
          (ia_deserialize_buffer-Loads host v.data_buffer _ g h.data_buffer))))

pub deserialize_txn-Safe : (host : Host) → IsUsable host → Safe (deserialize_txn host)
unfolding deserialize_txn
deserialize_txn-Safe host k = Safe-start (
    Safe-then (Safe-field _ _ (ia_deserialize_int-Safe host k))
      (Safe-end (Safe-field _ _ (ia_deserialize_buffer-Safe host k))))

unfoldable pub wire_txn_vector : TxnVector → List ℕ
wire_txn_vector = wire_vector wire_txn

abbrev pub IsTxnVector : TxnVector → Type 0
IsTxnVector = IsVector IsTxn

pub serialize_txn_vector-Writes :
    (host : Host) (v : TxnVector)
    → IsTxnVector v
    → Writes host (serialize_txn_vector host v) (wire_txn_vector v)
unfolding serialize_txn_vector wire_txn_vector
serialize_txn_vector-Writes host v h =
    serialize_vector-Writes host IsTxn wire_txn (serialize_txn host) (serialize_txn-Writes host) v h

pub deserialize_txn_vector-Loads :
    (host : Host) (v old : TxnVector)
    → IsGenerous host
    → IsTxnVector v
    → Loads (deserialize_txn_vector host) (wire_txn_vector v) old v
unfolding deserialize_txn_vector wire_txn_vector
deserialize_txn_vector-Loads host v old g h =
    deserialize_vector-Loads host IsTxn wire_txn (deserialize_txn host)
      (λ x before p. deserialize_txn-Loads host x before g p) 24 _ v old (omega arith) g h

pub deserialize_txn_vector-Safe :
    (host : Host) → IsUsable host → GrantsVectors host → Safe (deserialize_txn_vector host)
unfolding deserialize_txn_vector
deserialize_txn_vector-Safe host k room =
    deserialize_vector-Safe host k room 24 (omega arith) _ (deserialize_txn host)
      (deserialize_txn-Safe host k)

unfoldable pub wire_multi_txn : MultiTxn → List ℕ
wire_multi_txn v = wire_txn_vector v.txns

pub record IsMultiTxn (v : MultiTxn) : Type 0 where
  pub txns : IsTxnVector v.txns

pub serialize_multi_txn-Writes :
    (host : Host) (v : MultiTxn)
    → IsMultiTxn v
    → Writes host (serialize_multi_txn host v) (wire_multi_txn v)
unfolding serialize_multi_txn wire_multi_txn
serialize_multi_txn-Writes host v h =
    Writes-start (Writes-end (serialize_txn_vector-Writes host v.txns h.txns))

pub deserialize_multi_txn-Loads :
    (host : Host) (v old : MultiTxn)
    → IsGenerous host
    → IsMultiTxn v
    → Loads (deserialize_multi_txn host) (wire_multi_txn v) old v
unfolding deserialize_multi_txn wire_multi_txn
deserialize_multi_txn-Loads host v old g h = Loads-start (
    Loads-end (
      Loads-field (λ v. v.txns) (λ v x. record v { txns = x }) _
        (deserialize_txn_vector-Loads host v.txns _ g h.txns)))

pub deserialize_multi_txn-Safe :
    (host : Host) → IsUsable host → GrantsVectors host → Safe (deserialize_multi_txn host)
unfolding deserialize_multi_txn
deserialize_multi_txn-Safe host k room =
    Safe-start (Safe-end (Safe-field _ _ (deserialize_txn_vector-Safe host k room)))
