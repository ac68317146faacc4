-- ===== src/Archive/Output.antt =====
-- recordio.c: the output archive.
use zkclient.Prelude.{
  ℕ, zero, suc, ◌+◌, ◌*◌, ◌%◌, Option, none, some, List, [], ◌∷◌, length, replicate, ltb, ◌==◌,
  if◌then◌else◌,
}
use zkclient.CInt.{int32_mod, int_max, int_lt, int_sub, int_add, to_size}
use zkclient.Outcome.{returns, undefined, Step, checked, ignored, skip}
use zkclient.Host.{Host, image, htonl, htonll, realloc, store, load}
use zkclient.Archive.{BuffStruct, Buffer, CString, enomem}

-- `while (s->len < newlen) s->len *= 2;`. The length doubles, so 32 rounds are enough from any
-- positive length; `none` is a signed overflow, or the fuel that runs out when the length is 0.
unfoldable pub resize_loop : ℕ → ℕ → ℕ → Option ℕ
resize_loop zero len newlen = none
resize_loop (suc fuel) len newlen =
    let next = if ltb int_max (2 * len) then none else resize_loop fuel (2 * len) newlen in
    if int_lt len newlen then next else some len

unfoldable pub resize_buffer : Host → ℕ → Step BuffStruct
resize_buffer host newlen s = elim (resize_loop 32 s.len newlen) [
  | none ↦ undefined
  | some len ↦ elim s.buffer [
    | none ↦ elim (realloc host [] len) [
      | none ↦ returns enomem (record s { len = len; buffer = none })
      | some mem ↦ returns 0 (record s { len = len; buffer = some mem })
    ]
    | some old ↦ elim (realloc host old len) [
      | none ↦ returns enomem (record s { len = len; buffer = none })
      | some mem ↦ returns 0 (record s { len = len; buffer = some mem })
    ]
  ]
]

-- The test `(priv->len - priv->off) < sizeof(i)` compares as `size_t`.
unfoldable pub reserve_size : Host → ℕ → Step BuffStruct
reserve_size host n priv =
    if ltb (to_size (int_sub priv.len priv.off)) n
    then resize_buffer host ((priv.len + n) % int32_mod) priv
    else returns 0 priv

-- The test `(priv->len - priv->off) < n` with an `int` on the right compares as `int`.
unfoldable pub reserve_int : Host → ℕ → Step BuffStruct
reserve_int host n priv =
    if int_lt (int_sub priv.len priv.off) n
    then elim (int_add priv.len n) [
      | none ↦ undefined
      | some newlen ↦ resize_buffer host newlen priv
    ]
    else returns 0 priv

-- `memcpy(priv->buffer + priv->off, bytes, n); priv->off += n; return 0;`.
unfoldable pub append_bytes : List ℕ → Step BuffStruct
append_bytes bytes priv = elim priv.buffer [
  | none ↦ undefined
  | some mem ↦ elim (store mem priv.off bytes) [
    | none ↦ undefined
    | some mem' ↦ returns 0 (record priv { off = priv.off + length bytes; buffer = some mem' })
  ]
]

-- The `n` bytes at a pointer of the caller. No byte is read through it when `n` is 0.
unfoldable pub read_bytes : Option (List ℕ) → ℕ → Option (List ℕ)
read_bytes none n = if n == 0 then some [] else none
read_bytes (some mem) n = load mem 0 n

unfoldable pub append_from : Option (List ℕ) → ℕ → Step BuffStruct
append_from source n priv = elim (read_bytes source n) [
  | none ↦ undefined
  | some bytes ↦ append_bytes bytes priv
]

unfoldable pub oa_start_record : Step BuffStruct
oa_start_record = skip

unfoldable pub oa_end_record : Step BuffStruct
oa_end_record = skip

unfoldable pub oa_serialize_int : Host → ℕ → Step BuffStruct
oa_serialize_int host d = checked (reserve_size host 4) (append_bytes (image host 4 (htonl host d)))

unfoldable pub oa_serialize_long : Host → ℕ → Step BuffStruct
oa_serialize_long host d =
    checked (reserve_size host 8) (append_bytes (image host 8 (htonll host d)))

unfoldable pub oa_start_vector : Host → ℕ → Step BuffStruct
oa_start_vector host count = oa_serialize_int host count

unfoldable pub oa_end_vector : Step BuffStruct
oa_end_vector = skip

unfoldable pub oa_serialize_bool : Host → ℕ → Step BuffStruct
oa_serialize_bool host i =
    checked (reserve_int host 1) (append_bytes ((if i == 0 then 0 else 1) ∷ []))

abbrev pub negone : ℕ
negone = 4294967295

unfoldable pub oa_serialize_buffer : Host → Option Buffer → Step BuffStruct
oa_serialize_buffer host none = oa_serialize_int host negone
oa_serialize_buffer host (some b) = checked (oa_serialize_int host b.len) (
    if b.len == negone
    then skip
    else checked (reserve_int host b.len) (append_from b.buff (to_size b.len)))

-- The bytes before the first NUL.
unfoldable pub strlen : List ℕ → ℕ
strlen [] = 0
strlen (c ∷ s) = if c == 0 then 0 else suc (strlen s)

-- A null string writes the length -1, and reports success whatever that write returned.
unfoldable pub oa_serialize_string : Host → CString → Step BuffStruct
oa_serialize_string host none = ignored (oa_serialize_int host negone)
oa_serialize_string host (some s) =
    let len = strlen s % int32_mod in
    checked (oa_serialize_int host len)
      (checked (reserve_int host len) (append_from (some s) (to_size len)))

-- `sizeof(struct oarchive)`, ten pointers, and `sizeof(struct buff_struct)`, where a pointer has
-- eight bytes. The allocation of the buffer itself is not checked.
unfoldable pub create_buffer_oarchive : Host → Option BuffStruct
create_buffer_oarchive host =
    if host.grants 80
    then if host.grants 16
      then some (record {
        len = 128;
        off = 0;
        buffer = if host.grants 128 then some (replicate 128 host.junk) else none;
      })
      else none
    else none

unfoldable pub get_buffer : BuffStruct → Option (List ℕ)
get_buffer oa = oa.buffer

unfoldable pub get_buffer_len : BuffStruct → ℕ
get_buffer_len oa = oa.off
