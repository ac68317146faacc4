-- ===== src/Host.antt =====
-- The machine and the C library under the sources: byte order, the allocator and memory copies.
-- recordio.c: `htonll`. `htonl`, `realloc`, `malloc`, `calloc` and `memcpy` are those of libc.
pub mod Bytes
use zkclient.Prelude.{
  ℕ, zero, suc, ◌+◌, ◌-◌, ◌*◌, ◌/◌, ◌%◌, ◌^◌, ◌≡◌, refl, Bool, true, false, Option, none, some,
  List, [], ◌∷◌, ◌++◌, length, get_or, set, take, drop, replicate, leb, if◌then◌else◌,
}
use mathlib.Core.List.{reverse}

-- `grants n` says whether the allocator finds `n` bytes, and `junk` is what a byte of fresh memory
-- holds before it is written.
pub record Host : Type 0 where
  pub is_little_endian : Bool
  pub grants : ℕ → Bool
  pub junk : ℕ

-- The `k` bytes of a number, lowest first, and back.
unfoldable pub little_endian : ℕ → ℕ → List ℕ
little_endian zero v = []
little_endian (suc k) v = v % 256 ∷ little_endian k (v / 256)

unfoldable pub from_little_endian : List ℕ → ℕ
from_little_endian [] = 0
from_little_endian (b ∷ bs) = b + 256 * from_little_endian bs

-- The bytes of a number on the wire: network order, highest first.
unfoldable pub big_endian : ℕ → ℕ → List ℕ
big_endian k v = reverse (little_endian k v)

-- How a variable of `k` bytes lies in memory, and the value of a variable that lies so.
unfoldable pub image : Host → ℕ → ℕ → List ℕ
image host k v = if host.is_little_endian then little_endian k v else big_endian k v

unfoldable pub value : Host → List ℕ → ℕ
value host bytes =
    if host.is_little_endian then from_little_endian bytes else from_little_endian (reverse bytes)

-- `htonl`, and `ntohl`: the value whose bytes in memory are the argument's in network order.
unfoldable pub htonl : Host → ℕ → ℕ
htonl host v = value host (big_endian 4 v)

unfoldable pub ntohl : Host → ℕ → ℕ
ntohl host v = from_little_endian (reverse (image host 4 v))

-- One round of the loop of `htonll`: `s[i]` and `s[8 - i - 1]` change places.
unfoldable pub swap_bytes : ℕ → List ℕ → List ℕ
swap_bytes i s =
    let tmp = get_or s i 0 in let s' = set s i (get_or s (8 - i - 1) 0) in set s' (8 - i - 1) tmp

unfoldable pub swap_loop : ℕ → ℕ → List ℕ → List ℕ
swap_loop zero i s = s
swap_loop (suc rounds) i s = swap_loop rounds (suc i) (swap_bytes i s)

-- `htonl(1) == 1` holds on a big-endian host only.
unfoldable pub htonll : Host → ℕ → ℕ
htonll host v = if host.is_little_endian then value host (swap_loop 4 0 (image host 8 v)) else v

-- `realloc` keeps what the old allocation held; fresh bytes hold junk.
unfoldable pub realloc : Host → List ℕ → ℕ → Option (List ℕ)
realloc host mem n =
    if host.grants n then some (take n (mem ++ replicate (n - length mem) host.junk)) else none

-- `malloc(n)`.
unfoldable pub malloc : Host → ℕ → Option (List ℕ)
malloc host n = if host.grants n then some (replicate n host.junk) else none

-- `memcpy(mem + off, bytes, length bytes)`; `none` is a write past the end of the allocation.
unfoldable pub store : List ℕ → ℕ → List ℕ → Option (List ℕ)
store mem off bytes =
    if leb (off + length bytes) (length mem)
    then some (take off mem ++ bytes ++ drop (off + length bytes) mem)
    else none

-- The `n` bytes at `mem + off`, as `memcpy` reads them; `none` is a read past the end.
unfoldable pub load : List ℕ → ℕ → ℕ → Option (List ℕ)
load mem off n = if leb (off + n) (length mem) then some (take n (drop off mem)) else none
