-- ===== src/Jute/Watch.antt =====
-- zookeeper.jute.c and zookeeper.jute.h. Lists of paths, and watches.
pub mod Codec
use zkclient.Prelude.{none, ℕ}
use zkclient.Outcome.{Step, ◌>>◌}
use zkclient.Host.{Host}
use zkclient.Archive.{BuffStruct, CString}
use zkclient.Archive.Input.{
  Load, ia_deserialize_int, ia_deserialize_long, ia_deserialize_string, ia_end_record,
  ia_start_record, on_field,
}
use zkclient.Archive.Output.{
  oa_end_record, oa_serialize_int, oa_serialize_long, oa_serialize_string, oa_start_record,
}
use zkclient.Jute.Vector.{Vector, deserialize_vector, serialize_vector}

abbrev pub StringVector : Type 0
StringVector = Vector CString

unfoldable pub serialize_string_vector : Host → StringVector → Step BuffStruct
serialize_string_vector host = serialize_vector (oa_serialize_string host) host

unfoldable pub deserialize_string_vector : Host → Load StringVector
deserialize_string_vector host = deserialize_vector 8 none (ia_deserialize_string host) host

pub record SetWatches : Type 0 where
  pub relative_zxid : ℕ
  pub data_watches : StringVector
  pub exist_watches : StringVector
  pub child_watches : StringVector

unfoldable pub serialize_set_watches : Host → SetWatches → Step BuffStruct
serialize_set_watches host v = do
  oa_start_record
  oa_serialize_long host v.relative_zxid
  serialize_string_vector host v.data_watches
  serialize_string_vector host v.exist_watches
  serialize_string_vector host v.child_watches
  oa_end_record

unfoldable pub deserialize_set_watches : Host → Load SetWatches
deserialize_set_watches host = do
  ia_start_record
  on_field (λ v. v.relative_zxid) (λ v x. record v { relative_zxid = x }) (ia_deserialize_long host)
  on_field (λ v. v.data_watches) (λ v x. record v { data_watches = x })
      (deserialize_string_vector host)
  on_field (λ v. v.exist_watches) (λ v x. record v { exist_watches = x })
      (deserialize_string_vector host)
  on_field (λ v. v.child_watches) (λ v x. record v { child_watches = x })
      (deserialize_string_vector host)
  ia_end_record

pub record WatcherEvent : Type 0 where
  pub type : ℕ
  pub state : ℕ
  pub path : CString

unfoldable pub serialize_watcher_event : Host → WatcherEvent → Step BuffStruct
serialize_watcher_event host v = do
  oa_start_record
  oa_serialize_int host v.type
  oa_serialize_int host v.state
  oa_serialize_string host v.path
  oa_end_record

unfoldable pub deserialize_watcher_event : Host → Load WatcherEvent
deserialize_watcher_event host = do
  ia_start_record
  on_field (λ v. v.type) (λ v x. record v { type = x }) (ia_deserialize_int host)
  on_field (λ v. v.state) (λ v x. record v { state = x }) (ia_deserialize_int host)
  on_field (λ v. v.path) (λ v x. record v { path = x }) (ia_deserialize_string host)
  ia_end_record
