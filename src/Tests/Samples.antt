-- ===== src/Tests/Samples.antt =====
-- The values that the tests share.
use zkclient.Prelude.{ℕ, true, some, none, List, [], ◌∷◌, leb, le→leb, lt→leb, arith}
use zkclient.Host.{Host}
use zkclient.Archive.{Buffer}
use zkclient.Archive.Loads.{IsGenerous}
use zkclient.Archive.Safety.{IsUsable}
use zkclient.Jute.Acl.{Acl}
use zkclient.Jute.Stat.{Stat}

-- A little-endian machine whose allocator gives up to 64 gigabytes.
abbrev pub linux : Host
linux = record { is_little_endian = true; grants = λ n. leb n 68719476736; junk = 205 }

pub linux-IsGenerous : IsGenerous linux
linux-IsGenerous n h = le→leb n 68719476736 (omega arith)

pub linux-IsUsable : IsUsable linux
linux-IsUsable = record { refuses_huge = λ n h. lt→leb n 68719476736 (omega arith) }

-- "/zk", "world", "anyone" and "hi".
abbrev pub zk_path : List ℕ
zk_path = b'/' ∷ b'z' ∷ b'k' ∷ []

abbrev pub world : List ℕ
world = b'w' ∷ b'o' ∷ b'r' ∷ b'l' ∷ b'd' ∷ []

abbrev pub anyone : List ℕ
anyone = b'a' ∷ b'n' ∷ b'y' ∷ b'o' ∷ b'n' ∷ b'e' ∷ []

abbrev pub hi : Buffer
hi = record { len = 2; buff = some (b'h' ∷ b'i' ∷ []) }

abbrev pub no_bytes : Buffer
no_bytes = record { len = 0; buff = none }

abbrev pub open_acl : Acl
open_acl = record { perms = 31; id = record { scheme = some world; id = some anyone } }

abbrev pub no_stat : Stat
no_stat = record {
  czxid = 0;
  mzxid = 0;
  ctime = 0;
  mtime = 0;
  version = 0;
  cversion = 0;
  aversion = 0;
  ephemeral_owner = 0;
  data_length = 0;
  num_children = 0;
  pzxid = 0;
}

abbrev pub a_stat : Stat
a_stat = record no_stat {
  czxid = 5;
  version = 4294967295;
  data_length = 2;
  pzxid = 18446744073709551615;
}
