-- ===== src/Archive/Input.antt =====
-- recordio.c: the input archive. Each function writes through the pointer that it is given, so the
-- memory of a step is the pointed-to value with the archive.
use zkclient.Prelude.{ℕ, ◌+◌, Option, none, some, List, ltb, ◌==◌, if◌then◌else◌, get_or}
use zkclient.CInt.{int_lt, int_sub, to_size, is_negative}
use zkclient.Outcome.{Outcome, returns, undefined, Step, skip}
use zkclient.Host.{Host, value, ntohl, htonll, load}
use zkclient.Archive.{BuffStruct, Buffer, CString, enomem, e2big, einval}

-- A call that writes to an `A` and reads from the archive.
abbrev pub Load {ℓ} : Type ℓ → Type ℓ
Load A = Step (A × BuffStruct)

-- A call on `&v->field`.
unfoldable pub on_field {ℓ} : {A F : Type ℓ} (get : A → F) (put : A → F → A) → Load F → Load A
on_field get put m (v, priv) = elim (m (get v, priv)) [
  | undefined ↦ undefined
  | returns rc r ↦ returns rc (put v r.0, r.1)
]

-- The `n` bytes at `priv->buffer + priv->off`, as `memcpy` reads them.
unfoldable pub fetch : BuffStruct → ℕ → Option (List ℕ)
fetch priv n = elim priv.buffer [ none ↦ none | some mem ↦ load mem priv.off n ]

-- `priv->off += n`.
abbrev pub advance : BuffStruct → ℕ → BuffStruct
advance priv n = record priv { off = priv.off + n }

unfoldable pub ia_start_record {ℓ} : {A : Type ℓ} → Load A
ia_start_record = skip

unfoldable pub ia_end_record {ℓ} : {A : Type ℓ} → Load A
ia_end_record = skip

unfoldable pub ia_deserialize_int : Host → Load ℕ
ia_deserialize_int host (count, priv) =
    if ltb (to_size (int_sub priv.len priv.off)) 4
    then returns e2big (count, priv)
    else elim (fetch priv 4) [
      | none ↦ undefined
      | some bytes ↦ returns 0 (ntohl host (value host bytes), advance priv 4)
    ]

unfoldable pub ia_deserialize_long : Host → Load ℕ
ia_deserialize_long host (count, priv) =
    if ltb (to_size (int_sub priv.len priv.off)) 8
    then returns e2big (count, priv)
    else elim (fetch priv 8) [
      | none ↦ undefined
      | some bytes ↦ returns 0 (htonll host (value host bytes), advance priv 8)
    ]

unfoldable pub ia_start_vector : Host → Load ℕ
ia_start_vector host = ia_deserialize_int host

unfoldable pub ia_end_vector {ℓ} : {A : Type ℓ} → Load A
ia_end_vector = skip

-- A `char` that becomes an `int`: `char` is signed on the machines that util.c is written for.
abbrev pub char_to_int : ℕ → ℕ
char_to_int b = if ltb b 128 then b else b + 4294967040

unfoldable pub ia_deserialize_bool : Host → Load ℕ
ia_deserialize_bool host (v, priv) =
    if int_lt (int_sub priv.len priv.off) 1 then returns e2big (v, priv) else elim (fetch priv 1) [
      | none ↦ undefined
      | some bytes ↦ returns 0 (char_to_int (get_or bytes 0 0), advance priv 1)
    ]

-- What follows the read of the length in `ia_deserialize_buffer`.
unfoldable pub ia_buffer_body : Host → Buffer → BuffStruct → Outcome (Buffer × BuffStruct)
ia_buffer_body host b priv =
    if int_lt (int_sub priv.len priv.off) b.len
    then returns e2big (b, priv)
    else if b.len == 4294967295
    then returns 0 (record b { buff = none }, priv)
    else if host.grants (to_size b.len)
    then elim (fetch priv (to_size b.len)) [
      | none ↦ undefined
      | some bytes ↦ returns 0 (record b { buff = some bytes }, advance priv b.len)
    ]
    else returns enomem (record b { buff = none }, priv)

unfoldable pub ia_deserialize_buffer : Host → Load Buffer
ia_deserialize_buffer host (b, priv) = elim (ia_deserialize_int host (b.len, priv)) [
  | undefined ↦ undefined
  | returns rc r ↦
      if is_negative rc
      then returns rc (record b { len = r.0 }, r.1)
      else ia_buffer_body host (record b { len = r.0 }) r.1
]

-- What follows the read of `len` in `ia_deserialize_string`.
unfoldable pub ia_string_body : Host → CString → ℕ → BuffStruct → Outcome (CString × BuffStruct)
ia_string_body host s len priv =
    if int_lt (int_sub priv.len priv.off) len
    then returns e2big (s, priv)
    else if is_negative len
    then returns einval (s, priv)
    else if host.grants (len + 1)
    then elim (fetch priv len) [
      | none ↦ undefined
      | some bytes ↦ returns 0 (some bytes, advance priv len)
    ]
    else returns enomem (none, priv)

-- `len` is a local variable, which the code does not read if its own read fails.
unfoldable pub ia_deserialize_string : Host → Load CString
ia_deserialize_string host (s, priv) = elim (ia_deserialize_int host (0, priv)) [
  | undefined ↦ undefined
  | returns rc r ↦ if is_negative rc then returns rc (s, r.1) else ia_string_body host s r.0 r.1
]

-- `sizeof(struct iarchive)` and `sizeof(struct buff_struct)`, where a pointer has eight bytes.
unfoldable pub create_buffer_iarchive : Host → Option (List ℕ) → ℕ → Option BuffStruct
create_buffer_iarchive host buffer len =
    if host.grants 80
    then if host.grants 16 then some (record { len = len; off = 0; buffer = buffer }) else none
    else none
