-- ===== src/Jute/Sending.antt =====
-- zookeeper.jute.c over recordio.c: what serializing a request does to any output archive.
use zkclient.Prelude.{◌+◌, length, ◌≤◌}
use zkclient.Host.{Host}
use zkclient.Archive.{BuffStruct}
use zkclient.Archive.Invariant.{IsArchive, Appends, capacity}
use zkclient.Jute.Connect.{ConnectRequest, serialize_connect_request}
use zkclient.Jute.Connect.Codec.{
  IsConnectRequest, wire_connect_request, serialize_connect_request-Writes,
}
use zkclient.Jute.Node.{CreateRequest, serialize_create_request}
use zkclient.Jute.Node.Codec.{IsCreateRequest, wire_create_request, serialize_create_request-Writes}
use zkclient.Jute.Data.{SetDataRequest, serialize_set_data_request}
use zkclient.Jute.Data.Codec.{
  IsSetDataRequest, wire_set_data_request, serialize_set_data_request-Writes,
}

-- On any well-formed archive with the capacity for it, `serialize_ConnectRequest` of a well-formed value either
-- appends exactly the wire form to what was written, keeps the archive well formed and returns 0, or
-- returns -ENOMEM after the allocator refused a request; its behaviour is never undefined.
pub serialize_connect_request-Appends :
    (host : Host) (v : ConnectRequest) (a : BuffStruct)
    → IsConnectRequest v
    → IsArchive a
    → a.off + length (wire_connect_request v) ≤ capacity
    → Appends host a (wire_connect_request v) (serialize_connect_request host v a)
serialize_connect_request-Appends host v a h w fits =
    (serialize_connect_request-Writes host v h).run a w fits

-- On any well-formed archive with the capacity for it, `serialize_CreateRequest` of a well-formed value either
-- appends exactly the wire form to what was written, keeps the archive well formed and returns 0, or
-- returns -ENOMEM after the allocator refused a request; its behaviour is never undefined.
pub serialize_create_request-Appends :
    (host : Host) (v : CreateRequest) (a : BuffStruct)
    → IsCreateRequest v
    → IsArchive a
    → a.off + length (wire_create_request v) ≤ capacity
    → Appends host a (wire_create_request v) (serialize_create_request host v a)
serialize_create_request-Appends host v a h w fits =
    (serialize_create_request-Writes host v h).run a w fits

-- On any well-formed archive with the capacity for it, `serialize_SetDataRequest` of a well-formed value either
-- appends exactly the wire form to what was written, keeps the archive well formed and returns 0, or
-- returns -ENOMEM after the allocator refused a request; its behaviour is never undefined.
pub serialize_set_data_request-Appends :
    (host : Host) (v : SetDataRequest) (a : BuffStruct)
    → IsSetDataRequest v
    → IsArchive a
    → a.off + length (wire_set_data_request v) ≤ capacity
    → Appends host a (wire_set_data_request v) (serialize_set_data_request host v a)
serialize_set_data_request-Appends host v a h w fits =
    (serialize_set_data_request-Writes host v h).run a w fits
