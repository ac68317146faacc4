-- ===== src/Tests/Sending.antt =====
-- Requests serialized to a new archive.
use zkclient.Archive.Invariant.{Appends}
use zkclient.Archive.Wire.{wire_buffer, wire_int, wire_long, wire_string}
use zkclient.Host.{big_endian, little_endian}
use zkclient.Jute.Acl.Codec.{wire_acl, wire_acl_vector, wire_id}
use zkclient.Jute.Connect.{ConnectRequest, serialize_connect_request}
use zkclient.Jute.Connect.Codec.{wire_connect_request}
use zkclient.Jute.Data.{SetDataRequest, serialize_set_data_request}
use zkclient.Jute.Data.Codec.{wire_set_data_request}
use zkclient.Jute.Node.{CreateRequest, serialize_create_request}
use zkclient.Jute.Node.Codec.{wire_create_request}
use zkclient.Jute.Sending.{
  serialize_connect_request-Appends, serialize_create_request-Appends,
  serialize_set_data_request-Appends,
}
use zkclient.Jute.Transfer.{fresh, fresh-IsArchive}
use zkclient.Jute.Vector.{wire_items, wire_vector}
use zkclient.Prelude.{[], arith, some, ◌∷◌}
use zkclient.Tests.Samples.{hi, linux, zk_path}

abbrev sent_connect_request : ConnectRequest
sent_connect_request = record {
  protocol_version = 1;
  last_zxid_seen = 18446744073709551615;
  time_out = 1;
  session_id = 18446744073709551615;
  passwd = hi;
}

serialize_connect_request-Appends_example :
    Appends linux
      (fresh linux)
      (wire_connect_request sent_connect_request)
      (serialize_connect_request linux sent_connect_request (fresh linux))
unfolding wire_buffer wire_connect_request wire_int wire_long big_endian little_endian
serialize_connect_request-Appends_example =
    serialize_connect_request-Appends linux sent_connect_request (fresh linux) (omega arith)
      (fresh-IsArchive linux) (omega arith)

abbrev sent_create_request : CreateRequest
sent_create_request = record {
  path = some zk_path;
  data_buffer = hi;
  acl = record {
    count = 1;
    items = (record { perms = 1; id = record { scheme = some zk_path; id = some zk_path } }) ∷ [];
  };
  flags = 1;
}

serialize_create_request-Appends_example :
    Appends linux
      (fresh linux)
      (wire_create_request sent_create_request)
      (serialize_create_request linux sent_create_request (fresh linux))
unfolding wire_acl wire_acl_vector wire_buffer wire_create_request wire_id wire_int wire_items
    wire_string wire_vector big_endian little_endian
serialize_create_request-Appends_example =
    serialize_create_request-Appends linux sent_create_request (fresh linux) (omega arith)
      (fresh-IsArchive linux) (omega arith)

abbrev sent_set_data_request : SetDataRequest
sent_set_data_request = record { path = some zk_path; data_buffer = hi; version = 1 }

serialize_set_data_request-Appends_example :
    Appends linux
      (fresh linux)
      (wire_set_data_request sent_set_data_request)
      (serialize_set_data_request linux sent_set_data_request (fresh linux))
unfolding wire_buffer wire_int wire_set_data_request wire_string big_endian little_endian
serialize_set_data_request-Appends_example =
    serialize_set_data_request-Appends linux sent_set_data_request (fresh linux) (omega arith)
      (fresh-IsArchive linux) (omega arith)
