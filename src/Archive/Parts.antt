-- ===== src/Archive/Parts.antt =====
-- recordio.c: reading strings and buffers, and the rules by which reads are put together.
use zkclient.Prelude.{
  ℕ, ◌+◌, ◌≤◌, ◌≡◌, refl, false, Option, none, some, List, [], ◌++◌, length, length-append,
  append-nil, append_assoc, le→ltb, ne→==, arith,
}
use zkclient.CInt.{int_max, int_lt, int_sub, to_size-natural}
use zkclient.Outcome.{returns, skip, ◌>>◌}
use zkclient.Host.{Host}
use zkclient.Archive.{BuffStruct, Buffer, CString}
use zkclient.Archive.Output.{negone}
use zkclient.Archive.Wire.{wire_int, wire_buffer, wire_string, IsText, IsBuffer, Receivable}
use zkclient.Archive.Loads.{
  Remains, Reads, Loads, IsGenerous, Remains-length, Remains-room, Remains-int_lt, enough,
  fetch_lem, advance-Remains, ia_deserialize_int-Loads,
}
use zkclient.Archive.Input.{
  Load, on_field, advance, ia_start_record, ia_end_record, ia_deserialize_buffer, ia_buffer_body,
  ia_deserialize_string, ia_string_body,
}

on_field_returns {ℓ} :
    {A F : Type ℓ} (get : A → F) (put : A → F → A) (m : Load F) (v : A) (priv : BuffStruct) {rc : ℕ}
    {x : F} {priv' : BuffStruct}
    → m (get v, priv) ≡ returns rc (x, priv')
    → on_field get put m (v, priv) ≡ returns rc (put v x, priv')
unfolding on_field
on_field_returns get put m v priv e = rw (e, on_field) refl

module _ {ℓ} {A : Type ℓ} where
  pub Loads-field :
      {F : Type ℓ} (get : A → F) (put : A → F → A) {m : Load F} {bs : List ℕ} (v : A) {x : F}
      → Loads m bs (get v) x
      → Loads (on_field get put m) bs v (put v x)
  Loads-field get put {m} v l = record {
    run = λ priv rest r.
        let s = l.run priv rest r in
        record {
          next = s.next;
          returned = on_field_returns get put m v priv s.returned;
          remains = s.remains;
        };
  }

  pub Loads-then :
      {m next : Load A} {bs cs : List ℕ} {a b c : A}
      → Loads m bs a b
      → Loads next cs b c
      → Loads (m >> next) (bs ++ cs) a c
  unfolding ◌>>◌
  Loads-then {m} {next} {bs} {cs} l k = record {
    run = λ priv rest r.
        let s = l.run priv (cs ++ rest) (rw (append_assoc bs cs rest) at r) in
        let t = k.run s.next rest s.remains in
        record { next = t.next; returned = rw s.returned t.returned; remains = t.remains };
  }

  pub Loads-skip : {a : A} → Loads skip [] a a
  unfolding skip
  Loads-skip = record { run = λ priv rest r. record { next = priv; returned = refl; remains = r } }

  pub Loads-start :
      {next : Load A} {bs : List ℕ} {a c : A}
      → Loads next bs a c
      → Loads (ia_start_record >> next) bs a c
  unfolding ia_start_record
  Loads-start l = Loads-then Loads-skip l

  pub Loads-end :
      {m : Load A} {bs : List ℕ} {a c : A} → Loads m bs a c → Loads (m >> ia_end_record) bs a c
  unfolding ia_end_record
  Loads-end {bs = bs} l = rw (append-nil bs) at (Loads-then l Loads-skip)

module _ (host : Host) where
  -- The bytes of a string behind their length.
  string_body-Reads :
      (s : List ℕ) (old : CString) (priv : BuffStruct) (rest : List ℕ)
      → IsGenerous host
      → Remains priv (s ++ rest)
      → Reads (ia_string_body host old (length s) priv) (some s) rest
  unfolding ia_string_body
  string_body-Reads s old priv rest g r = record {
    next = advance priv (length s);
    returned =
        rw (Remains-int_lt r (length s) small, le→ltb _ _ (enough priv s rest (length s) refl r))
          (rw (le→ltb int_max (length s) small) (
            rw (g (length s + 1) (omega (arith, small)))
              (rw (fetch_lem priv s rest (length s) refl r) refl)));
    remains = advance-Remains priv s rest (length s) refl r;
  }
    where
      small : length s ≤ int_max
      small = omega (arith, Remains-length r, r.is_int, length-append s rest)

  -- Any bytes behind their length are no more than an `int` counts.
  length_is_int :
      (priv : BuffStruct) (front s rest : List ℕ)
      → Remains priv (front ++ s ++ rest)
      → length s ≤ int_max
  length_is_int priv front s rest r =
      omega
        (arith, Remains-length r, r.is_int, length-append (front ++ s) rest, length-append front s)

  pub ia_deserialize_string-Loads :
      (s old : CString)
      → IsGenerous host
      → IsText s
      → Loads (ia_deserialize_string host) (wire_string s) old s
  unfolding wire_string ia_deserialize_string
  ia_deserialize_string-Loads none old g h = absurd h
  ia_deserialize_string-Loads (some s) old g h = record {
    run = λ priv rest r.
        let small : length s ≤ int_max = length_is_int priv (wire_int (length s)) s rest r in
        let n =
          (ia_deserialize_int-Loads host (length s) 0 (omega arith)).run priv (s ++ rest)
            (rw (append_assoc (wire_int (length s)) s rest) at r) in
        rw (n.returned, ia_deserialize_string) (string_body-Reads s old n.next rest g n.remains);
  }

  -- The bytes of a buffer behind their length.
  buffer_body-Reads :
      (s : List ℕ) (old : Option (List ℕ)) (priv : BuffStruct) (rest : List ℕ)
      → IsGenerous host
      → Remains priv (s ++ rest)
      → Reads
          (ia_buffer_body host (record { len = length s; buff = old }) priv)
          (record { len = length s; buff = some s })
          rest
  unfolding ia_buffer_body
  buffer_body-Reads s old priv rest g r = record {
    next = advance priv (length s);
    returned =
        rw (Remains-int_lt r (length s) small, le→ltb _ _ (enough priv s rest (length s) refl r))
          (rw (ne→== (length s) negone (omega (arith, small))) (
            rw (to_size-natural (length s) small) (
              rw (g (length s) (omega (arith, small)))
                (rw (fetch_lem priv s rest (length s) refl r) refl))));
    remains = advance-Remains priv s rest (length s) refl r;
  }
    where
      small : length s ≤ int_max
      small = omega (arith, Remains-length r, r.is_int, length-append s rest)

  null_body-Reads :
      (old : Option (List ℕ)) (priv : BuffStruct) (rest : List ℕ)
      → Remains priv rest
      → Reads
          (ia_buffer_body host (record { len = negone; buff = old }) priv)
          (record { len = negone; buff = none })
          rest
  unfolding ia_buffer_body
  null_body-Reads old priv rest r = record { next = priv; returned = rw (below) refl; remains = r }
    where
      below : int_lt (int_sub priv.len priv.off) negone ≡ false
      below = rw (Remains-room r) (le→ltb _ _ (omega (arith, Remains-length r, r.is_int)))

  loaded :
      (len : ℕ) (buff : Option (List ℕ)) (old : Buffer)
      → IsGenerous host
      → Receivable len buff
      → Loads
          (ia_deserialize_buffer host)
          (wire_buffer (record { len = len; buff = buff }))
          old
          (record { len = len; buff = buff })
  unfolding wire_buffer ia_deserialize_buffer
  loaded len none old g e = rw e (record {
    run = λ priv rest r.
        let n =
          (ia_deserialize_int-Loads host negone old.len (omega arith)).run priv rest
            (rw (append-nil (wire_int negone)) at r) in
        rw (n.returned, ia_deserialize_buffer) (null_body-Reads old.buff n.next rest n.remains);
  })
  loaded len (some s) old g e = rw e (record {
    run = λ priv rest r.
        let small : length s ≤ int_max = length_is_int priv (wire_int (length s)) s rest r in
        let n =
          (ia_deserialize_int-Loads host (length s) old.len (omega arith)).run priv (s ++ rest)
            (rw (append_assoc (wire_int (length s)) s rest) at r) in
        rw (n.returned, ia_deserialize_buffer)
          (buffer_body-Reads s old.buff n.next rest g n.remains);
  })

  pub ia_deserialize_buffer-Loads :
      (b old : Buffer)
      → IsGenerous host
      → IsBuffer b
      → Loads (ia_deserialize_buffer host) (wire_buffer b) old b
  ia_deserialize_buffer-Loads b old g h = loaded b.len b.buff old g h
