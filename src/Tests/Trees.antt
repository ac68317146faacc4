-- ===== src/Tests/Trees.antt =====
-- `zk_mkdir` on a server that has the root alone.
use zkclient.Prelude.{ℕ, ◌≡◌, refl, none, some, List, [], ◌∷◌, ◌++◌, arith}
use zkclient.Jute.Header.{ReplyHeader}
use zkclient.Jute.Header.Codec.{wire_reply_header}
use zkclient.Jute.Node.Codec.{wire_create_response}
use zkclient.Request.Socket.{arrives, accepts}
use zkclient.Request.Framing.{framed}
use zkclient.Request.Call.{Session}
use zkclient.Request.Operations.{znonode}
use zkclient.Request.Mkdir.{CreateCall, create_node, zk_mkdir}
use zkclient.Request.Directories.{directories, climb, zk_mkdir-climb}
use zkclient.Tests.Messages.{client}
use zkclient.Tests.Samples.{linux, linux-IsGenerous}

abbrev a : List ℕ
a = b'/' ∷ b'a' ∷ []

abbrev a_b : List ℕ
a_b = b'/' ∷ b'a' ∷ b'/' ∷ b'b' ∷ []

abbrev header : ℕ → ReplyHeader
header err = record { xid = 1000; zxid = 7; err = err }

-- "/a/b" has no parent; "/a" is made, and then "/a/b".
abbrev replies : List ℕ
replies =
    framed (wire_reply_header (header znonode))
    ++ framed (wire_reply_header (header 0) ++ wire_create_response (record { path = some a }))
    ++ framed (wire_reply_header (header 0) ++ wire_create_response (record { path = some a_b }))

abbrev session : Session
session = record {
  world = record {
    client = client;
    net = record {
      polls =
          (record { n = 1; revents = 4 })
          ∷ (record { n = 1; revents = 1 })
          ∷ (record { n = 1; revents = 4 })
          ∷ (record { n = 1; revents = 1 })
          ∷ (record { n = 1; revents = 4 })
          ∷ (record { n = 1; revents = 1 })
          ∷ [];
      reads = arrives replies ∷ [];
      writes = accepts 1000 ∷ accepts 1000 ∷ accepts 1000 ∷ [];
      sent = [];
    };
  };
  xid = 7;
  mutex = [];
}

abbrev calls : ℕ → CreateCall
calls n = record {
  context = record {
    host = linux;
    now = 1000;
    reply_header = record { xid = 205; zxid = 205; err = 205 };
  };
  resp = record { path = none };
}

zk_mkdir-climb_example :
    zk_mkdir linux calls a_b (0, session)
    ≡ climb (create_node calls) (directories a_b) a_b [] (0, session)
zk_mkdir-climb_example = zk_mkdir-climb linux calls a_b (0, session) linux-IsGenerous (omega arith)

-- The root is the empty path, which is created last on the way up.
two_directories : directories a_b ≡ a ∷ [] ∷ []
two_directories = refl
