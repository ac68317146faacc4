-- ===== src/Archive/Invariant.antt =====
-- recordio.c: what holds of an output archive between two calls, and what a call may do to it.
use zkclient.Prelude.{
  ℕ, ◌+◌, ◌*◌, ◌≤◌, ◌≡◌, false, Option, none, some, List, [], ◌++◌, length, take,
}
use zkclient.CInt.{int_max}
use zkclient.Outcome.{Outcome, returns}
use zkclient.Host.{Host}
use zkclient.Archive.{BuffStruct, enomem}

abbrev pub held : Option (List ℕ) → List ℕ
held none = []
held (some mem) = mem

-- The bytes that were serialised so far.
abbrev pub written : BuffStruct → List ℕ
written a = take a.off (held a.buffer)

-- The allocation has the length that the archive notes, the offset lies in it, and it is at most
-- four times as long as what was written, plus the first 128 bytes.
pub record IsArchive (a : BuffStruct) : Type 0 where
  pub mem : List ℕ
  pub allocated : a.buffer ≡ some mem
  pub size : length mem ≡ a.len
  pub fits : a.off ≤ a.len
  pub at_least : 128 ≤ a.len
  pub is_int : a.len ≤ int_max
  pub at_most : a.len ≤ 128 + 4 * a.off

-- The most that the theorems let an archive hold: no length computed on the way overflows an `int`.
abbrev pub capacity : ℕ
capacity = 536870912

-- After a call on `a` the archive holds the bytes `bs` more and is well formed, or the allocator had
-- refused a request and the call returns -ENOMEM. In no case is the behaviour undefined.
pub data Appends (host : Host) (a : BuffStruct) (bs : List ℕ) (o : Outcome BuffStruct)
    : Type 0 where
  appended :
      (a' : BuffStruct)
      → o ≡ returns 0 a'
      → IsArchive a'
      → a'.off ≡ a.off + length bs
      → written a' ≡ written a ++ bs
      → Appends host a bs o
  no_memory :
      (a' : BuffStruct) (n : ℕ)
      → o ≡ returns enomem a'
      → n ≤ int_max
      → host.grants n ≡ false
      → Appends host a bs o
