-- ===== src/Tests/Receiving.antt =====
-- Replies read from an archive of three bytes, which are too few.
use zkclient.Archive.{BuffStruct}
use zkclient.Archive.Safety.{IsInput, IsUsable, Returned}
use zkclient.Jute.Data.{GetDataResponse, deserialize_get_data_response}
use zkclient.Jute.Header.{ReplyHeader, deserialize_reply_header}
use zkclient.Jute.Receiving.{
  deserialize_get_data_response-Returned, deserialize_multi_txn-Settled,
  deserialize_reply_header-Returned,
}
use zkclient.Jute.Txn.{MultiTxn, deserialize_multi_txn}
use zkclient.Host.{Host}
use zkclient.Jute.Vector.Safety.{Unbacked}
use zkclient.Prelude.{◌⊎◌, leb, lt→leb, [], arith, refl, some, ◌∷◌}
use zkclient.Tests.Samples.{linux, linux-IsUsable, no_bytes}

abbrev three_bytes : BuffStruct
three_bytes = record { len = 3; off = 0; buffer = some (1 ∷ 2 ∷ 3 ∷ []) }

three_bytes-IsInput : IsInput three_bytes
three_bytes-IsInput = record {
  mem = 1 ∷ 2 ∷ 3 ∷ [];
  allocated = refl;
  size = refl;
  is_int = omega arith;
  fits = omega arith;
}

abbrev old_reply_header : ReplyHeader
old_reply_header = record { xid = 0; zxid = 0; err = 0 }

deserialize_reply_header-Returned_example :
    Returned three_bytes (deserialize_reply_header linux (old_reply_header, three_bytes))
deserialize_reply_header-Returned_example =
    deserialize_reply_header-Returned linux old_reply_header three_bytes linux-IsUsable
      three_bytes-IsInput

abbrev old_get_data_response : GetDataResponse
old_get_data_response = record {
  data_buffer = no_bytes;
  stat = record {
    czxid = 0;
    mzxid = 0;
    ctime = 0;
    mtime = 0;
    version = 0;
    cversion = 0;
    aversion = 0;
    ephemeral_owner = 0;
    data_length = 0;
    num_children = 0;
    pzxid = 0;
  };
}

deserialize_get_data_response-Returned_example :
    Returned three_bytes (deserialize_get_data_response linux (old_get_data_response, three_bytes))
deserialize_get_data_response-Returned_example =
    deserialize_get_data_response-Returned linux old_get_data_response three_bytes linux-IsUsable
      three_bytes-IsInput

abbrev old_multi_txn : MultiTxn
old_multi_txn = record { txns = record { count = 0; items = [] } }

-- A length of 2 ^ 31 - 1, and an allocator that gives up to 4 gigabytes.
abbrev hostile : BuffStruct
hostile = record { len = 4; off = 0; buffer = some (127 ∷ 255 ∷ 255 ∷ 255 ∷ []) }

hostile-IsInput : IsInput hostile
hostile-IsInput = record {
  mem = 127 ∷ 255 ∷ 255 ∷ 255 ∷ [];
  allocated = refl;
  size = refl;
  is_int = omega arith;
  fits = omega arith;
}

abbrev small_linux : Host
small_linux = record linux { grants = λ n. leb n 4294967296 }

small_linux-IsUsable : IsUsable small_linux
small_linux-IsUsable = record { refuses_huge = λ n h. lt→leb n 4294967296 (omega arith) }

deserialize_multi_txn-Settled_example :
    Returned hostile (deserialize_multi_txn small_linux (old_multi_txn, hostile))
    ⊎ Unbacked small_linux 24 0 hostile (deserialize_multi_txn small_linux (old_multi_txn, hostile))
deserialize_multi_txn-Settled_example =
    deserialize_multi_txn-Settled small_linux old_multi_txn hostile small_linux-IsUsable
      hostile-IsInput
