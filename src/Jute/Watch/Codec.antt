-- ===== src/Jute/Watch/Codec.antt =====
-- zookeeper.jute.c. The wire form of the records of Jute/Watch.antt, which the serializers append and
-- the deserializers read back.
use zkclient.Prelude.{List, arith, ℕ, ◌++◌}
use zkclient.Host.{Host}
use zkclient.Archive.Appends.{
  Writes, Writes-end, Writes-start, Writes-then, oa_serialize_int-Writes, oa_serialize_long-Writes,
}
use zkclient.Archive.Input.{ia_deserialize_string}
use zkclient.Archive.Loads.{IsGenerous, Loads, ia_deserialize_int-Loads, ia_deserialize_long-Loads}
use zkclient.Archive.Output.{oa_serialize_string}
use zkclient.Archive.Parts.{
  Loads-end, Loads-field, Loads-start, Loads-then, ia_deserialize_string-Loads,
}
use zkclient.Archive.SafeParts.{
  Safe-end, Safe-field, Safe-start, Safe-then, ia_deserialize_string-Safe,
}
use zkclient.Archive.Safety.{
  GrantsVectors, IsUsable, Safe, ia_deserialize_int-Safe, ia_deserialize_long-Safe,
}
use zkclient.Archive.Texts.{oa_serialize_string-Writes}
use zkclient.Archive.Wire.{IsInt, IsLong, IsText, wire_int, wire_long, wire_string}
use zkclient.Jute.Vector.{wire_vector}
use zkclient.Jute.Vector.Elements.{IsVector, deserialize_vector-Loads, serialize_vector-Writes}
use zkclient.Jute.Vector.Safety.{deserialize_vector-Safe}
use zkclient.Jute.Watch.{
  SetWatches, StringVector, WatcherEvent, deserialize_set_watches, deserialize_string_vector,
  deserialize_watcher_event, serialize_set_watches, serialize_string_vector,
  serialize_watcher_event,
}

unfoldable pub wire_string_vector : StringVector → List ℕ
wire_string_vector = wire_vector wire_string

abbrev pub IsStringVector : StringVector → Type 0
IsStringVector = IsVector IsText

pub serialize_string_vector-Writes :
    (host : Host) (v : StringVector)
    → IsStringVector v
    → Writes host (serialize_string_vector host v) (wire_string_vector v)
unfolding serialize_string_vector wire_string_vector
serialize_string_vector-Writes host v h =
    serialize_vector-Writes host IsText wire_string (oa_serialize_string host)
      (oa_serialize_string-Writes host) v h

pub deserialize_string_vector-Loads :
    (host : Host) (v old : StringVector)
    → IsGenerous host
    → IsStringVector v
    → Loads (deserialize_string_vector host) (wire_string_vector v) old v
unfolding deserialize_string_vector wire_string_vector
deserialize_string_vector-Loads host v old g h =
    deserialize_vector-Loads host IsText wire_string (ia_deserialize_string host)
      (λ x before p. ia_deserialize_string-Loads host x before g p) 8 _ v old (omega arith) g h

pub deserialize_string_vector-Safe :
    (host : Host) → IsUsable host → GrantsVectors host → Safe (deserialize_string_vector host)
unfolding deserialize_string_vector
deserialize_string_vector-Safe host k room =
    deserialize_vector-Safe host k room 8 (omega arith) _ (ia_deserialize_string host)
      (ia_deserialize_string-Safe host k)

unfoldable pub wire_set_watches : SetWatches → List ℕ
wire_set_watches v =
    wire_long v.relative_zxid
    ++ (wire_string_vector v.data_watches
        ++ (wire_string_vector v.exist_watches ++ wire_string_vector v.child_watches))

pub record IsSetWatches (v : SetWatches) : Type 0 where
  pub relative_zxid : IsLong v.relative_zxid
  pub data_watches : IsStringVector v.data_watches
  pub exist_watches : IsStringVector v.exist_watches
  pub child_watches : IsStringVector v.child_watches

pub serialize_set_watches-Writes :
    (host : Host) (v : SetWatches)
    → IsSetWatches v
    → Writes host (serialize_set_watches host v) (wire_set_watches v)
unfolding serialize_set_watches wire_set_watches
serialize_set_watches-Writes host v h = Writes-start (
    Writes-then (oa_serialize_long-Writes host v.relative_zxid) (
      Writes-then (serialize_string_vector-Writes host v.data_watches h.data_watches) (
        Writes-then (serialize_string_vector-Writes host v.exist_watches h.exist_watches)
          (Writes-end (serialize_string_vector-Writes host v.child_watches h.child_watches)))))

pub deserialize_set_watches-Loads :
    (host : Host) (v old : SetWatches)
    → IsGenerous host
    → IsSetWatches v
    → Loads (deserialize_set_watches host) (wire_set_watches v) old v
unfolding deserialize_set_watches wire_set_watches
deserialize_set_watches-Loads host v old g h = Loads-start (
    Loads-then
      (Loads-field (λ v. v.relative_zxid) (λ v x. record v { relative_zxid = x }) _
        (ia_deserialize_long-Loads host v.relative_zxid _ h.relative_zxid))
      (Loads-then
        (Loads-field (λ v. v.data_watches) (λ v x. record v { data_watches = x }) _
          (deserialize_string_vector-Loads host v.data_watches _ g h.data_watches))
        (Loads-then
          (Loads-field (λ v. v.exist_watches) (λ v x. record v { exist_watches = x }) _
            (deserialize_string_vector-Loads host v.exist_watches _ g h.exist_watches))
          (Loads-end (
            Loads-field (λ v. v.child_watches) (λ v x. record v { child_watches = x }) _
              (deserialize_string_vector-Loads host v.child_watches _ g h.child_watches))))))

pub deserialize_set_watches-Safe :
    (host : Host) → IsUsable host → GrantsVectors host → Safe (deserialize_set_watches host)
unfolding deserialize_set_watches
deserialize_set_watches-Safe host k room = Safe-start (
    Safe-then (Safe-field _ _ (ia_deserialize_long-Safe host k)) (
      Safe-then (Safe-field _ _ (deserialize_string_vector-Safe host k room)) (
        Safe-then (Safe-field _ _ (deserialize_string_vector-Safe host k room))
          (Safe-end (Safe-field _ _ (deserialize_string_vector-Safe host k room))))))

unfoldable pub wire_watcher_event : WatcherEvent → List ℕ
wire_watcher_event v = wire_int v.type ++ (wire_int v.state ++ wire_string v.path)

pub record IsWatcherEvent (v : WatcherEvent) : Type 0 where
  pub type : IsInt v.type
  pub state : IsInt v.state
  pub path : IsText v.path

pub serialize_watcher_event-Writes :
    (host : Host) (v : WatcherEvent)
    → IsWatcherEvent v
    → Writes host (serialize_watcher_event host v) (wire_watcher_event v)
unfolding serialize_watcher_event wire_watcher_event
serialize_watcher_event-Writes host v h = Writes-start (
    Writes-then (oa_serialize_int-Writes host v.type) (
      Writes-then (oa_serialize_int-Writes host v.state)
        (Writes-end (oa_serialize_string-Writes host v.path h.path))))

pub deserialize_watcher_event-Loads :
    (host : Host) (v old : WatcherEvent)
    → IsGenerous host
    → IsWatcherEvent v
    → Loads (deserialize_watcher_event host) (wire_watcher_event v) old v
unfolding deserialize_watcher_event wire_watcher_event
deserialize_watcher_event-Loads host v old g h = Loads-start (
    Loads-then
      (Loads-field (λ v. v.type) (λ v x. record v { type = x }) _
        (ia_deserialize_int-Loads host v.type _ h.type))
      (Loads-then
        (Loads-field (λ v. v.state) (λ v x. record v { state = x }) _
          (ia_deserialize_int-Loads host v.state _ h.state))
        (Loads-end (
          Loads-field (λ v. v.path) (λ v x. record v { path = x }) _
            (ia_deserialize_string-Loads host v.path _ g h.path)))))

pub deserialize_watcher_event-Safe :
    (host : Host) → IsUsable host → Safe (deserialize_watcher_event host)
unfolding deserialize_watcher_event
deserialize_watcher_event-Safe host k = Safe-start (
    Safe-then (Safe-field _ _ (ia_deserialize_int-Safe host k)) (
      Safe-then (Safe-field _ _ (ia_deserialize_int-Safe host k))
        (Safe-end (Safe-field _ _ (ia_deserialize_string-Safe host k)))))
