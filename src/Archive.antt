-- ===== src/Archive.antt =====
-- recordio.c and recordio.h: an archive is a `struct buff_struct`, a growing buffer for output
-- (`struct oarchive`) and a byte array with a read offset for input (`struct iarchive`). The tables
-- of function pointers always hold the functions below, so a call through them is a direct call, and
-- the tags, which none of them reads, are left out.
pub mod Growth
pub mod Invariant
pub mod Reserve
pub mod Wire
pub mod Appends
pub mod Texts
pub mod Loads
pub mod Parts
pub mod Safety
pub mod SafeParts
pub mod Output
pub mod Input
use zkclient.Prelude.{ℕ, Option, List}

-- `buffer` is the allocation that the pointer names, and `none` is the null pointer.
pub record BuffStruct : Type 0 where
  pub len : ℕ
  pub off : ℕ
  pub buffer : Option (List ℕ)

-- `struct buffer`.
pub record Buffer : Type 0 where
  pub len : ℕ
  pub buff : Option (List ℕ)

-- A `char *`: the bytes before the terminator that ends the allocation.
abbrev pub CString : Type 0
CString = Option (List ℕ)

-- -ENOMEM, -E2BIG and -EINVAL.
abbrev pub enomem : ℕ
enomem = 4294967284

abbrev pub e2big : ℕ
e2big = 4294967289

abbrev pub einval : ℕ
einval = 4294967274
