-- ===== src/Tests/Operations.antt =====
-- The operations of the client at a concrete session.
use zkclient.Prelude.{ℕ, refl, true, some, List, [], ◌∷◌, ◌++◌, arith}
use zkclient.Host.{big_endian, little_endian}
use zkclient.Archive.Wire.{wire_buffer, wire_int, wire_long, wire_bool, wire_string}
use zkclient.Conn.{wait_socket, do_poll, cr_read, cr_write}
use zkclient.Jute.Header.{ReplyHeader}
use zkclient.Jute.Header.Codec.{wire_request_header, wire_reply_header}
use zkclient.Jute.Stat.Codec.{wire_stat}
use zkclient.Jute.Vector.{wire_items, wire_vector}
use zkclient.Jute.Watch.Codec.{wire_string_vector}
use zkclient.Jute.Data.{GetDataResponse, SetDataResponse}
use zkclient.Jute.Data.Codec.{
  wire_get_data_request, wire_get_data_response, wire_set_data_request, wire_set_data_response,
}
use zkclient.Jute.Exists.{ExistsResponse}
use zkclient.Jute.Exists.Codec.{wire_exists_request, wire_exists_response}
use zkclient.Jute.Children.{GetChildrenResponse}
use zkclient.Jute.Children.Codec.{wire_get_children_request, wire_get_children_response}
use zkclient.Request.Socket.{arrives, accepts}
use zkclient.Request.Framing.{framed, IsReady}
use zkclient.Request.Call.{MutexCall, Session, Context, get_xid, request_xid}
use zkclient.Request.Operations.{zk_ping, zk_get, zk_get_children, zk_exists, zk_set}
use zkclient.Request.Answered.{polled_once}
use zkclient.Client.PingLoop.{ping_round}
use zkclient.Client.Pings.{KeptAlive, ping_round-KeptAlive}
use zkclient.Request.Ping.{Pinged, zk_ping-Pinged}
use zkclient.Request.Refused.{Refused, zk_get-Refused}
use zkclient.Request.Results.{Result, numbered}
use zkclient.Request.Results.Get.{zk_get-Result}
use zkclient.Request.Results.Children.{zk_get_children-Result}
use zkclient.Request.Results.Exists.{zk_exists-Result}
use zkclient.Request.Results.Set.{zk_set-Result}
use zkclient.Tests.Messages.{client}
use zkclient.Tests.Samples.{linux, linux-IsGenerous, zk_path, hi, no_bytes, a_stat, no_stat}

abbrev context : Context
context = record {
  host = linux;
  now = 1000;
  reply_header = record { xid = 205; zxid = 205; err = 205 };
}

abbrev header : ReplyHeader
header = record { xid = 1000; zxid = 7; err = 0 }

-- The socket takes five bytes of the request and then the others, and `bs` is what the server sends.
abbrev session : List ℕ → Session
session bs = record {
  world = record {
    client = client;
    net = record {
      polls = (record { n = 1; revents = 4 }) ∷ (record { n = 1; revents = 1 }) ∷ [];
      reads = arrives bs ∷ [];
      writes = accepts 5 ∷ accepts 1000 ∷ [];
      sent = [];
    };
  };
  xid = 4294967295;
  mutex = [];
}

session-IsReady : (bs : List ℕ) → IsReady cr_write (session bs).world.net
unfolding wait_socket do_poll
session-IsReady bs = record {
  first = record { n = 1; revents = 4 };
  later = (record { n = 1; revents = 1 }) ∷ [];
  polls = refl;
  ready = refl;
}

polled_session-IsReady : (bs : List ℕ) → IsReady cr_read (polled_once (session bs).world).net
unfolding wait_socket do_poll
polled_session-IsReady bs = record {
  first = record { n = 1; revents = 1 };
  later = [];
  polls = refl;
  ready = refl;
}

abbrev found_data : GetDataResponse
found_data = record { data_buffer = hi; stat = a_stat }

abbrev found_data_bytes : List ℕ
found_data_bytes = framed (wire_reply_header header ++ wire_get_data_response found_data)

zk_get-Result_example :
    Result
      (session found_data_bytes)
      (zk_get context
        (record { data_buffer = no_bytes; stat = no_stat })
        (some zk_path)
        (no_bytes, session found_data_bytes))
      0
      hi
      (numbered context 4
        (session found_data_bytes)
        (wire_get_data_request (record { path = some zk_path; watch = 0 })))
      []
unfolding wire_reply_header wire_request_header wire_get_data_request wire_get_data_response
    wire_int wire_long wire_string wire_bool wire_buffer wire_stat big_endian little_endian
    request_xid get_xid
zk_get-Result_example =
    zk_get-Result context (session found_data_bytes) header zk_path [] linux-IsGenerous
      (omega arith) (session-IsReady found_data_bytes) tt (polled_session-IsReady found_data_bytes)
      tt (omega arith) refl (record { data_buffer = no_bytes; stat = no_stat }) found_data no_bytes
      (omega arith) (omega arith) (omega arith) (omega arith) refl (omega arith)

abbrev found_children : GetChildrenResponse
found_children = record { children = record { count = 1; items = (some zk_path) ∷ [] } }

abbrev found_children_bytes : List ℕ
found_children_bytes =
    framed (wire_reply_header header ++ wire_get_children_response found_children)

zk_get_children-Result_example :
    Result
      (session found_children_bytes)
      (zk_get_children context
        (record { children = record { count = 0; items = [] } })
        (some zk_path)
        ((record { count = 0; items = [] }), session found_children_bytes))
      0
      (record { count = 1; items = (some zk_path) ∷ [] })
      (numbered context 8
        (session found_children_bytes)
        (wire_get_children_request (record { path = some zk_path; watch = 0 })))
      []
unfolding wire_reply_header wire_request_header wire_get_children_request wire_get_children_response
    wire_int wire_long wire_string wire_bool wire_items wire_vector wire_string_vector big_endian
    little_endian request_xid get_xid
zk_get_children-Result_example =
    zk_get_children-Result context (session found_children_bytes) header zk_path [] linux-IsGenerous
      (omega arith) (session-IsReady found_children_bytes) tt
      (polled_session-IsReady found_children_bytes) tt (omega arith) refl
      (record { children = record { count = 0; items = [] } }) found_children
      (record { count = 0; items = [] }) (omega arith) (omega arith) (omega arith) (omega arith)
      refl (omega arith)

abbrev found_stat : ExistsResponse
found_stat = record { stat = a_stat }

abbrev found_stat_bytes : List ℕ
found_stat_bytes = framed (wire_reply_header header ++ wire_exists_response found_stat)

zk_exists-Result_example :
    Result
      (session found_stat_bytes)
      (zk_exists context
        (record { stat = no_stat })
        (some zk_path)
        (no_stat, session found_stat_bytes))
      1
      a_stat
      (numbered context 3
        (session found_stat_bytes)
        (wire_exists_request (record { path = some zk_path; watch = 0 })))
      []
unfolding wire_reply_header wire_request_header wire_exists_request wire_exists_response wire_int
    wire_long wire_string wire_bool wire_stat big_endian little_endian request_xid get_xid
zk_exists-Result_example =
    zk_exists-Result context (session found_stat_bytes) header zk_path [] linux-IsGenerous
      (omega arith) (session-IsReady found_stat_bytes) tt (polled_session-IsReady found_stat_bytes)
      tt (omega arith) refl (record { stat = no_stat }) found_stat no_stat (omega arith)
      (omega arith) (omega arith) (omega arith) refl (omega arith)

abbrev set_stat : SetDataResponse
set_stat = record { stat = a_stat }

abbrev set_stat_bytes : List ℕ
set_stat_bytes = framed (wire_reply_header header ++ wire_set_data_response set_stat)

zk_set-Result_example :
    Result
      (session set_stat_bytes)
      (zk_set context (record { stat = no_stat }) (some zk_path) hi (tt, session set_stat_bytes))
      0
      tt
      (numbered context 5 (session set_stat_bytes) (
        wire_set_data_request
          (record { path = some zk_path; data_buffer = hi; version = 4294967295 })))
      []
unfolding wire_reply_header wire_request_header wire_set_data_request wire_set_data_response
    wire_int wire_long wire_string wire_buffer wire_stat big_endian little_endian request_xid
    get_xid
zk_set-Result_example =
    zk_set-Result context (session set_stat_bytes) header zk_path [] linux-IsGenerous (omega arith)
      (session-IsReady set_stat_bytes) tt (polled_session-IsReady set_stat_bytes) tt (omega arith)
      refl (record { stat = no_stat }) set_stat hi (omega arith) (omega arith) (omega arith)
      (omega arith) (omega arith) refl (omega arith)

-- -101, the node does not exist.
abbrev missing_header : ReplyHeader
missing_header = record { xid = 1000; zxid = 7; err = 4294967195 }

abbrev missing_bytes : List ℕ
missing_bytes = framed (wire_reply_header missing_header ++ [])

zk_get-Refused_example :
    Refused
      (session missing_bytes)
      MutexCall.lock
      4294967195
      no_bytes
      (zk_get context
        (record { data_buffer = no_bytes; stat = no_stat })
        (some zk_path)
        (no_bytes, session missing_bytes))
      []
unfolding wire_reply_header wire_request_header wire_get_data_request wire_int wire_long wire_string
    wire_bool big_endian little_endian request_xid get_xid
zk_get-Refused_example =
    zk_get-Refused context (session missing_bytes) missing_header zk_path [] []
      (record { data_buffer = no_bytes; stat = no_stat }) no_bytes linux-IsGenerous (omega arith)
      (omega arith) (omega arith) (session-IsReady missing_bytes) tt (omega arith)
      (polled_session-IsReady missing_bytes) tt refl (omega arith) (omega arith) (omega arith)

zk_ping-Pinged_example :
    Pinged (session missing_bytes) (zk_ping context (session missing_bytes)) 4294967195 []
unfolding wire_reply_header wire_request_header wire_int wire_long big_endian little_endian
zk_ping-Pinged_example =
    zk_ping-Pinged context (session missing_bytes) missing_header [] [] linux-IsGenerous
      (omega arith) (session-IsReady missing_bytes) tt (omega arith)
      (polled_session-IsReady missing_bytes) tt refl (omega arith) (omega arith)

-- The last ping was at 0, and the interval of a session of five seconds is 0.
ping_round-KeptAlive_example :
    KeptAlive (session missing_bytes) 1000 true (ping_round context 1000 (session missing_bytes)) []
unfolding wire_reply_header wire_request_header wire_int wire_long big_endian little_endian
ping_round-KeptAlive_example =
    ping_round-KeptAlive context 1000 (session missing_bytes) missing_header [] [] (omega arith)
      (omega arith) (omega arith) linux-IsGenerous (omega arith) (session-IsReady missing_bytes) tt
      (omega arith) (polled_session-IsReady missing_bytes) tt refl (omega arith) (omega arith)
