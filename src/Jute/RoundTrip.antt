-- ===== src/Jute/RoundTrip.antt =====
-- zookeeper.jute.c over recordio.c: a message crosses from one archive to another unchanged.
use zkclient.Prelude.{length, ◌≤◌, ◌≡◌, some}
use zkclient.Host.{Host}
use zkclient.Archive.Invariant.{capacity}
use zkclient.Archive.Loads.{IsGenerous}
use zkclient.Jute.Transfer.{transferred, transferred-wire}
use zkclient.Jute.Header.{RequestHeader, serialize_request_header, deserialize_request_header}
use zkclient.Jute.Header.Codec.{
  IsRequestHeader, wire_request_header, serialize_request_header-Writes,
  deserialize_request_header-Loads,
}
use zkclient.Jute.Header.{ReplyHeader, serialize_reply_header, deserialize_reply_header}
use zkclient.Jute.Header.Codec.{
  IsReplyHeader, wire_reply_header, serialize_reply_header-Writes, deserialize_reply_header-Loads,
}
use zkclient.Jute.Connect.{ConnectRequest, serialize_connect_request, deserialize_connect_request}
use zkclient.Jute.Connect.Codec.{
  IsConnectRequest, wire_connect_request, serialize_connect_request-Writes,
  deserialize_connect_request-Loads,
}
use zkclient.Jute.Connect.{
  ConnectResponse, serialize_connect_response, deserialize_connect_response,
}
use zkclient.Jute.Connect.Codec.{
  IsConnectResponse, wire_connect_response, serialize_connect_response-Writes,
  deserialize_connect_response-Loads,
}
use zkclient.Jute.Node.{CreateRequest, serialize_create_request, deserialize_create_request}
use zkclient.Jute.Node.Codec.{
  IsCreateRequest, wire_create_request, serialize_create_request-Writes,
  deserialize_create_request-Loads,
}
use zkclient.Jute.Data.{SetDataRequest, serialize_set_data_request, deserialize_set_data_request}
use zkclient.Jute.Data.Codec.{
  IsSetDataRequest, wire_set_data_request, serialize_set_data_request-Writes,
  deserialize_set_data_request-Loads,
}
use zkclient.Jute.Data.{GetDataResponse, serialize_get_data_response, deserialize_get_data_response}
use zkclient.Jute.Data.Codec.{
  IsGetDataResponse, wire_get_data_response, serialize_get_data_response-Writes,
  deserialize_get_data_response-Loads,
}
use zkclient.Jute.Children.{
  GetChildrenResponse, serialize_get_children_response, deserialize_get_children_response,
}
use zkclient.Jute.Children.Codec.{
  IsGetChildrenResponse, wire_get_children_response, serialize_get_children_response-Writes,
  deserialize_get_children_response-Loads,
}
use zkclient.Jute.Watch.{SetWatches, serialize_set_watches, deserialize_set_watches}
use zkclient.Jute.Watch.Codec.{
  IsSetWatches, wire_set_watches, serialize_set_watches-Writes, deserialize_set_watches-Loads,
}
use zkclient.Jute.AclRequests.{
  SetAclRequest, serialize_set_acl_request, deserialize_set_acl_request,
}
use zkclient.Jute.AclRequests.Codec.{
  IsSetAclRequest, wire_set_acl_request, serialize_set_acl_request-Writes,
  deserialize_set_acl_request-Loads,
}
use zkclient.Jute.Quorum.{QuorumPacket, serialize_quorum_packet, deserialize_quorum_packet}
use zkclient.Jute.Quorum.Codec.{
  IsQuorumPacket, wire_quorum_packet, serialize_quorum_packet-Writes,
  deserialize_quorum_packet-Loads,
}
use zkclient.Jute.Txn.{MultiTxn, serialize_multi_txn, deserialize_multi_txn}
use zkclient.Jute.Txn.Codec.{
  IsMultiTxn, wire_multi_txn, serialize_multi_txn-Writes, deserialize_multi_txn-Loads,
}

-- On a host that grants its requests, the bytes that `serialize_RequestHeader` writes to a new archive for a
-- well-formed value of at most `capacity` bytes are read back by `deserialize_RequestHeader` as that value,
-- whatever the receiver's variable held before.
pub request_header_transferred :
    (host : Host) (v old : RequestHeader)
    → IsGenerous host
    → IsRequestHeader v
    → length (wire_request_header v) ≤ capacity
    → transferred host (serialize_request_header host v) (deserialize_request_header host) old
      ≡ some v
request_header_transferred host v old g h fits =
    transferred-wire host _ _ _ old v g (serialize_request_header-Writes host v h)
      (deserialize_request_header-Loads host v old h) fits

-- On a host that grants its requests, the bytes that `serialize_ReplyHeader` writes to a new archive for a
-- well-formed value of at most `capacity` bytes are read back by `deserialize_ReplyHeader` as that value,
-- whatever the receiver's variable held before.
pub reply_header_transferred :
    (host : Host) (v old : ReplyHeader)
    → IsGenerous host
    → IsReplyHeader v
    → length (wire_reply_header v) ≤ capacity
    → transferred host (serialize_reply_header host v) (deserialize_reply_header host) old ≡ some v
reply_header_transferred host v old g h fits =
    transferred-wire host _ _ _ old v g (serialize_reply_header-Writes host v h)
      (deserialize_reply_header-Loads host v old h) fits

-- On a host that grants its requests, the bytes that `serialize_ConnectRequest` writes to a new archive for a
-- well-formed value of at most `capacity` bytes are read back by `deserialize_ConnectRequest` as that value,
-- whatever the receiver's variable held before.
pub connect_request_transferred :
    (host : Host) (v old : ConnectRequest)
    → IsGenerous host
    → IsConnectRequest v
    → length (wire_connect_request v) ≤ capacity
    → transferred host (serialize_connect_request host v) (deserialize_connect_request host) old
      ≡ some v
connect_request_transferred host v old g h fits =
    transferred-wire host _ _ _ old v g (serialize_connect_request-Writes host v h)
      (deserialize_connect_request-Loads host v old g h) fits

-- On a host that grants its requests, the bytes that `serialize_ConnectResponse` writes to a new archive for a
-- well-formed value of at most `capacity` bytes are read back by `deserialize_ConnectResponse` as that value,
-- whatever the receiver's variable held before.
pub connect_response_transferred :
    (host : Host) (v old : ConnectResponse)
    → IsGenerous host
    → IsConnectResponse v
    → length (wire_connect_response v) ≤ capacity
    → transferred host (serialize_connect_response host v) (deserialize_connect_response host) old
      ≡ some v
connect_response_transferred host v old g h fits =
    transferred-wire host _ _ _ old v g (serialize_connect_response-Writes host v h)
      (deserialize_connect_response-Loads host v old g h) fits

-- On a host that grants its requests, the bytes that `serialize_CreateRequest` writes to a new archive for a
-- well-formed value of at most `capacity` bytes are read back by `deserialize_CreateRequest` as that value,
-- whatever the receiver's variable held before.
pub create_request_transferred :
    (host : Host) (v old : CreateRequest)
    → IsGenerous host
    → IsCreateRequest v
    → length (wire_create_request v) ≤ capacity
    → transferred host (serialize_create_request host v) (deserialize_create_request host) old
      ≡ some v
create_request_transferred host v old g h fits =
    transferred-wire host _ _ _ old v g (serialize_create_request-Writes host v h)
      (deserialize_create_request-Loads host v old g h) fits

-- On a host that grants its requests, the bytes that `serialize_SetDataRequest` writes to a new archive for a
-- well-formed value of at most `capacity` bytes are read back by `deserialize_SetDataRequest` as that value,
-- whatever the receiver's variable held before.
pub set_data_request_transferred :
    (host : Host) (v old : SetDataRequest)
    → IsGenerous host
    → IsSetDataRequest v
    → length (wire_set_data_request v) ≤ capacity
    → transferred host (serialize_set_data_request host v) (deserialize_set_data_request host) old
      ≡ some v
set_data_request_transferred host v old g h fits =
    transferred-wire host _ _ _ old v g (serialize_set_data_request-Writes host v h)
      (deserialize_set_data_request-Loads host v old g h) fits

-- On a host that grants its requests, the bytes that `serialize_GetDataResponse` writes to a new archive for a
-- well-formed value of at most `capacity` bytes are read back by `deserialize_GetDataResponse` as that value,
-- whatever the receiver's variable held before.
pub get_data_response_transferred :
    (host : Host) (v old : GetDataResponse)
    → IsGenerous host
    → IsGetDataResponse v
    → length (wire_get_data_response v) ≤ capacity
    → transferred host (serialize_get_data_response host v) (deserialize_get_data_response host) old
      ≡ some v
get_data_response_transferred host v old g h fits =
    transferred-wire host _ _ _ old v g (serialize_get_data_response-Writes host v h)
      (deserialize_get_data_response-Loads host v old g h) fits

-- On a host that grants its requests, the bytes that `serialize_GetChildrenResponse` writes to a new archive for a
-- well-formed value of at most `capacity` bytes are read back by `deserialize_GetChildrenResponse` as that value,
-- whatever the receiver's variable held before.
pub get_children_response_transferred :
    (host : Host) (v old : GetChildrenResponse)
    → IsGenerous host
    → IsGetChildrenResponse v
    → length (wire_get_children_response v) ≤ capacity
    → transferred host
        (serialize_get_children_response host v)
        (deserialize_get_children_response host)
        old
      ≡ some v
get_children_response_transferred host v old g h fits =
    transferred-wire host _ _ _ old v g (serialize_get_children_response-Writes host v h)
      (deserialize_get_children_response-Loads host v old g h) fits

-- On a host that grants its requests, the bytes that `serialize_SetWatches` writes to a new archive for a
-- well-formed value of at most `capacity` bytes are read back by `deserialize_SetWatches` as that value,
-- whatever the receiver's variable held before.
pub set_watches_transferred :
    (host : Host) (v old : SetWatches)
    → IsGenerous host
    → IsSetWatches v
    → length (wire_set_watches v) ≤ capacity
    → transferred host (serialize_set_watches host v) (deserialize_set_watches host) old ≡ some v
set_watches_transferred host v old g h fits =
    transferred-wire host _ _ _ old v g (serialize_set_watches-Writes host v h)
      (deserialize_set_watches-Loads host v old g h) fits

-- On a host that grants its requests, the bytes that `serialize_SetACLRequest` writes to a new archive for a
-- well-formed value of at most `capacity` bytes are read back by `deserialize_SetACLRequest` as that value,
-- whatever the receiver's variable held before.
pub set_acl_request_transferred :
    (host : Host) (v old : SetAclRequest)
    → IsGenerous host
    → IsSetAclRequest v
    → length (wire_set_acl_request v) ≤ capacity
    → transferred host (serialize_set_acl_request host v) (deserialize_set_acl_request host) old
      ≡ some v
set_acl_request_transferred host v old g h fits =
    transferred-wire host _ _ _ old v g (serialize_set_acl_request-Writes host v h)
      (deserialize_set_acl_request-Loads host v old g h) fits

-- On a host that grants its requests, the bytes that `serialize_QuorumPacket` writes to a new archive for a
-- well-formed value of at most `capacity` bytes are read back by `deserialize_QuorumPacket` as that value,
-- whatever the receiver's variable held before.
pub quorum_packet_transferred :
    (host : Host) (v old : QuorumPacket)
    → IsGenerous host
    → IsQuorumPacket v
    → length (wire_quorum_packet v) ≤ capacity
    → transferred host (serialize_quorum_packet host v) (deserialize_quorum_packet host) old
      ≡ some v
quorum_packet_transferred host v old g h fits =
    transferred-wire host _ _ _ old v g (serialize_quorum_packet-Writes host v h)
      (deserialize_quorum_packet-Loads host v old g h) fits

-- On a host that grants its requests, the bytes that `serialize_MultiTxn` writes to a new archive for a
-- well-formed value of at most `capacity` bytes are read back by `deserialize_MultiTxn` as that value,
-- whatever the receiver's variable held before.
pub multi_txn_transferred :
    (host : Host) (v old : MultiTxn)
    → IsGenerous host
    → IsMultiTxn v
    → length (wire_multi_txn v) ≤ capacity
    → transferred host (serialize_multi_txn host v) (deserialize_multi_txn host) old ≡ some v
multi_txn_transferred host v old g h fits =
    transferred-wire host _ _ _ old v g (serialize_multi_txn-Writes host v h)
      (deserialize_multi_txn-Loads host v old g h) fits
