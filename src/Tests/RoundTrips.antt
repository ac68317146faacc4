-- ===== src/Tests/RoundTrips.antt =====
-- Messages that cross from one archive to another.
use zkclient.Archive.Wire.{wire_buffer, wire_int, wire_long}
use zkclient.Host.{big_endian, little_endian}
use zkclient.Jute.Data.{GetDataResponse, deserialize_get_data_response, serialize_get_data_response}
use zkclient.Jute.Data.Codec.{wire_get_data_response}
use zkclient.Jute.Header.{ReplyHeader, deserialize_reply_header, serialize_reply_header}
use zkclient.Jute.Header.Codec.{wire_reply_header}
use zkclient.Jute.RoundTrip.{
  get_data_response_transferred, multi_txn_transferred, reply_header_transferred,
}
use zkclient.Jute.Stat.Codec.{wire_stat}
use zkclient.Jute.Transfer.{transferred}
use zkclient.Jute.Txn.{MultiTxn, deserialize_multi_txn, serialize_multi_txn}
use zkclient.Jute.Txn.Codec.{wire_multi_txn, wire_txn, wire_txn_vector}
use zkclient.Jute.Vector.{wire_items, wire_vector}
use zkclient.Prelude.{[], arith, some, ◌∷◌, ◌≡◌}
use zkclient.Tests.Samples.{hi, linux, linux-IsGenerous, no_bytes}

abbrev full_reply_header : ReplyHeader
full_reply_header = record { xid = 1; zxid = 18446744073709551615; err = 1 }

abbrev empty_reply_header : ReplyHeader
empty_reply_header = record { xid = 0; zxid = 0; err = 0 }

reply_header_transferred_example :
    transferred linux
      (serialize_reply_header linux full_reply_header)
      (deserialize_reply_header linux)
      empty_reply_header
    ≡ some full_reply_header
unfolding wire_int wire_long wire_reply_header big_endian little_endian
reply_header_transferred_example =
    reply_header_transferred linux full_reply_header empty_reply_header linux-IsGenerous
      (omega arith) (omega arith)

abbrev full_get_data_response : GetDataResponse
full_get_data_response = record {
  data_buffer = hi;
  stat = record {
    czxid = 18446744073709551615;
    mzxid = 18446744073709551615;
    ctime = 18446744073709551615;
    mtime = 18446744073709551615;
    version = 1;
    cversion = 1;
    aversion = 1;
    ephemeral_owner = 18446744073709551615;
    data_length = 1;
    num_children = 1;
    pzxid = 18446744073709551615;
  };
}

abbrev empty_get_data_response : GetDataResponse
empty_get_data_response = record {
  data_buffer = no_bytes;
  stat = record {
    czxid = 0;
    mzxid = 0;
    ctime = 0;
    mtime = 0;
    version = 0;
    cversion = 0;
    aversion = 0;
    ephemeral_owner = 0;
    data_length = 0;
    num_children = 0;
    pzxid = 0;
  };
}

get_data_response_transferred_example :
    transferred linux
      (serialize_get_data_response linux full_get_data_response)
      (deserialize_get_data_response linux)
      empty_get_data_response
    ≡ some full_get_data_response
unfolding wire_buffer wire_get_data_response wire_int wire_long wire_stat big_endian little_endian
get_data_response_transferred_example =
    get_data_response_transferred linux full_get_data_response empty_get_data_response
      linux-IsGenerous (omega arith) (omega arith)

abbrev full_multi_txn : MultiTxn
full_multi_txn = record {
  txns = record { count = 1; items = (record { type = 1; data_buffer = hi }) ∷ [] };
}

abbrev empty_multi_txn : MultiTxn
empty_multi_txn = record { txns = record { count = 0; items = [] } }

multi_txn_transferred_example :
    transferred linux
      (serialize_multi_txn linux full_multi_txn)
      (deserialize_multi_txn linux)
      empty_multi_txn
    ≡ some full_multi_txn
unfolding wire_buffer wire_int wire_items wire_multi_txn wire_txn wire_txn_vector wire_vector
    big_endian little_endian
multi_txn_transferred_example =
    multi_txn_transferred linux full_multi_txn empty_multi_txn linux-IsGenerous (omega arith)
      (omega arith)
