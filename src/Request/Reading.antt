-- ===== src/Request/Reading.antt =====
-- request.c: the loop of `read_socket` over a socket whose calls are not interrupted. How the bytes
-- are cut into system calls does not matter.
use zkclient.Prelude.{
  ℕ, ◌+◌, ◌-◌, ◌≤◌, ◌<◌, ◌≡◌, refl, sym, ap, ◌∙◌, inl, inr, some, List, [], ◌∷◌, ◌++◌, length, take,
  drop, leb, ltb, Bool-cases, le→leb, lt→leb, leb→le, le→ltb, lt→ltb, ltb→lt, ltb→le, leb→lt,
  append_assoc, append-nil, length-append, length-take, length-drop, take_all, take-append_length,
  take-append, arith,
}
use zkclient.CInt.{int_max, int_sub, int_lt-natural, int_sub-natural, to_size, to_size-natural}
use zkclient.Outcome.{returns}
use zkclient.Host.{store}
use zkclient.Request.Socket.{ReadEvent, arrives, read_loop}
use zkclient.Request.Stream.{
  stream, IsPlain, Filled, arrives-IsPlain, take-append_past, drop-append_past, drop-append,
  drop_all,
}

read_done :
    (es : List ReadEvent) (len : ℕ) (buf : List ℕ)
    → IsPlain es
    → len ≤ int_max
    → read_loop es len len buf ≡ returns 0 (buf, es)
unfolding read_loop
read_done [] len buf p h = rw (int_lt-natural len len h h, le→ltb len len (omega arith)) refl
read_done (ReadEvent.arrives [] ∷ es) len buf p h = absurd p
read_done (ReadEvent.arrives (b ∷ bs) ∷ es) len buf p h =
    rw (int_lt-natural len len h h, le→ltb len len (omega arith)) refl
read_done (ReadEvent.interrupted ∷ es) len buf p h = absurd p
read_done (ReadEvent.broken ∷ es) len buf p h = absurd p
read_done (ReadEvent.closed ∷ es) len buf p h = absurd p

module _ (b : ℕ) (bs : List ℕ) (es : List ReadEvent) (len r : ℕ) (buf : List ℕ)
    (size : length buf ≡ len) (is_int : len ≤ int_max) (more : r < len) where
  wanted : to_size (int_sub len r) ≡ len - r
  wanted =
      ap to_size (int_sub-natural len r (omega arith) is_int)
      ∙ to_size-natural (len - r) (omega arith)

  stored :
      (bytes : List ℕ)
      → r + length bytes ≤ len
      → store buf r bytes ≡ some (take r buf ++ bytes ++ drop (r + length bytes) buf)
  unfolding store
  stored bytes h = rw (le→leb (r + length bytes) (length buf) (omega arith)) refl

  read_whole_piece :
      length (b ∷ bs) ≤ len - r
      → read_loop (arrives (b ∷ bs) ∷ es) len r buf
        ≡ read_loop es len
            (r + length (b ∷ bs))
            (take r buf ++ (b ∷ bs) ++ drop (r + length (b ∷ bs)) buf)
  unfolding read_loop
  read_whole_piece h =
      rw (int_lt-natural r len (omega arith) is_int, lt→ltb r len more)
        (rw (le→ltb int_max r (omega arith)) (
          rw wanted (
            rw (take_all (len - r) (b ∷ bs) h) (
              rw (stored (b ∷ bs) (omega arith), read_loop)
                (rw wanted (
                  rw (le→leb (length (b ∷ bs)) (len - r) h)
                    (rw (take_all (len - r) (b ∷ bs) h) refl)))))))

  read_part_of_piece :
      len - r < length (b ∷ bs)
      → read_loop (arrives (b ∷ bs) ∷ es) len r buf
        ≡ returns 0 (take r buf ++ take (len - r) (b ∷ bs), arrives (drop (len - r) (b ∷ bs)) ∷ es)
  unfolding read_loop
  read_part_of_piece h =
      rw (int_lt-natural r len (omega arith) is_int, lt→ltb r len more)
        (rw (le→ltb int_max r (omega arith)) (
          rw wanted (
            rw (stored (take (len - r) (b ∷ bs)) (omega (arith, part)), read_loop)
              (rw wanted (
                rw (lt→leb (length (b ∷ bs)) (len - r) h)
                  (ap (λ t. returns 0 (t, arrives (drop (len - r) (b ∷ bs)) ∷ es)) whole))))))
    where
      part : length (take (len - r) (b ∷ bs)) ≡ len - r
      part = omega (arith, length-take (len - r) (b ∷ bs))

      whole :
          take r buf ++ take (len - r) (b ∷ bs) ++ drop (r + length (take (len - r) (b ∷ bs))) buf
          ≡ take r buf ++ take (len - r) (b ∷ bs)
      whole =
          ap (λ t. take r buf ++ take (len - r) (b ∷ bs) ++ t)
            (drop_all (r + length (take (len - r) (b ∷ bs))) buf (omega (arith, part)))
          ∙ append-nil _

  taken : length (take r buf) ≡ r
  taken = omega (arith, length-take r buf)

  after_whole_piece :
      length (b ∷ bs) ≤ len - r
      → Filled
          (read_loop es len
            (r + length (b ∷ bs))
            (take r buf ++ (b ∷ bs) ++ drop (r + length (b ∷ bs)) buf))
          (take (r + length (b ∷ bs)) (take r buf ++ (b ∷ bs) ++ drop (r + length (b ∷ bs)) buf))
          (stream es)
          (len - (r + length (b ∷ bs)))
      → Filled
          (read_loop (arrives (b ∷ bs) ∷ es) len r buf)
          (take r buf)
          ((b ∷ bs) ++ stream es)
          (len - r)
  after_whole_piece h f = record {
    left = f.left;
    returned = read_whole_piece h ∙ f.returned ∙ ap (λ t. returns 0 (t, f.left)) bytes;
    plain = f.plain;
    rest =
        f.rest
        ∙ ap (λ k. drop k (stream es)) fewer
        ∙ sym (drop-append_past (b ∷ bs) (stream es) (len - r) h);
  }
    where
      fewer : len - (r + length (b ∷ bs)) ≡ len - r - length (b ∷ bs)
      fewer = omega arith

      front :
          take (r + length (b ∷ bs)) (take r buf ++ (b ∷ bs) ++ drop (r + length (b ∷ bs)) buf)
          ≡ take r buf ++ (b ∷ bs)
      front =
          take-append_length (r + length (b ∷ bs)) (take r buf ++ (b ∷ bs)) _
            (omega (arith, taken, length-append (take r buf) (b ∷ bs)))

      bytes :
          take (r + length (b ∷ bs)) (take r buf ++ (b ∷ bs) ++ drop (r + length (b ∷ bs)) buf)
            ++ take (len - (r + length (b ∷ bs))) (stream es)
          ≡ take r buf ++ take (len - r) ((b ∷ bs) ++ stream es)
      bytes =
          ap (λ t. t ++ take (len - (r + length (b ∷ bs))) (stream es)) front
          ∙ append_assoc (take r buf) (b ∷ bs) _
          ∙ ap (λ k. take r buf ++ ((b ∷ bs) ++ take k (stream es))) fewer
          ∙ ap (λ t. take r buf ++ t) (sym (take-append_past (b ∷ bs) (stream es) (len - r) h))

  after_part_of_piece :
      IsPlain es
      → len - r < length (b ∷ bs)
      → Filled
          (read_loop (arrives (b ∷ bs) ∷ es) len r buf)
          (take r buf)
          ((b ∷ bs) ++ stream es)
          (len - r)
  after_part_of_piece p h = record {
    left = arrives (drop (len - r) (b ∷ bs)) ∷ es;
    returned =
        read_part_of_piece h
        ∙ ap (λ t. returns 0 (take r buf ++ t, arrives (drop (len - r) (b ∷ bs)) ∷ es))
            (sym (take-append (len - r) (b ∷ bs) (stream es) (omega arith)));
    plain =
        arrives-IsPlain (drop (len - r) (b ∷ bs)) es (omega (arith, length-drop (len - r) (b ∷ bs)))
          p;
    rest = sym (drop-append (b ∷ bs) (stream es) (len - r) (omega arith));
  }

read_done-Filled :
    (es : List ReadEvent) (len r : ℕ) (buf : List ℕ)
    → IsPlain es
    → length buf ≡ len
    → len ≤ int_max
    → r ≡ len
    → Filled (read_loop es len r buf) (take r buf) (stream es) (len - r)
read_done-Filled es len r buf p size is_int same = record {
  left = es;
  returned =
      ap (λ k. read_loop es len k buf) same
      ∙ read_done es len buf p is_int
      ∙ ap (λ t. returns 0 (t, es))
          (sym (
            ap (λ k. take r buf ++ take k (stream es)) none_left
            ∙ append-nil _
            ∙ take_all r buf (omega (arith, same, size))));
  plain = p;
  rest = ap (λ k. drop k (stream es)) (sym none_left);
}
  where
    none_left : len - r ≡ 0
    none_left = omega (arith, same)

stored_length :
    (bytes : List ℕ) (len r : ℕ) (buf : List ℕ)
    → length buf ≡ len
    → r + length bytes ≤ len
    → length (take r buf ++ bytes ++ drop (r + length bytes) buf) ≡ len
stored_length bytes len r buf size h = omega (
  arith,
  length-append (take r buf ++ bytes) (drop (r + length bytes) buf),
  length-append (take r buf) bytes,
  length-take r buf,
  length-drop (r + length bytes) buf,
)

still_enough :
    (bytes later : List ℕ) (len r : ℕ)
    → len - r ≤ length (bytes ++ later)
    → len - (r + length bytes) ≤ length later
still_enough bytes later len r h = omega (arith, length-append bytes later)

-- Where no call is interrupted and the bytes asked for do arrive, `read_socket` returns 0, its buffer
-- holds the next bytes of the stream behind those that it already had, and what is left on the
-- socket is the rest of the stream, however the stream is cut into calls.
pub read_loop-fills :
    (es : List ReadEvent) (len r : ℕ) (buf : List ℕ)
    → IsPlain es
    → length buf ≡ len
    → len ≤ int_max
    → r ≤ len
    → len - r ≤ length (stream es)
    → Filled (read_loop es len r buf) (take r buf) (stream es) (len - r)
read_loop-fills [] len r buf p size is_int le enough =
    read_done-Filled [] len r buf p size is_int (omega arith)
read_loop-fills (ReadEvent.arrives [] ∷ es) len r buf p size is_int le enough = absurd p
read_loop-fills (ReadEvent.arrives (b ∷ bs) ∷ es) len r buf p size is_int le enough =
    elim (Bool-cases (ltb r len)) [
      | inr full ↦
          read_done-Filled (arrives (b ∷ bs) ∷ es) len r buf p size is_int
            (omega (arith, ltb→le r len full))
      | inl more ↦ elim (Bool-cases (leb (length (b ∷ bs)) (len - r))) [
        | inl whole ↦
            after_whole_piece b bs es len r buf size is_int (ltb→lt r len more) (leb→le _ _ whole) (
              read_loop-fills es len (r + length (b ∷ bs))
                (take r buf ++ (b ∷ bs) ++ drop (r + length (b ∷ bs)) buf) p
                (stored_length (b ∷ bs) len r buf size
                  (omega (arith, leb→le _ _ whole, ltb→lt r len more)))
                is_int (omega (arith, leb→le _ _ whole, ltb→lt r len more))
                (still_enough (b ∷ bs) (stream es) len r enough))
        | inr part ↦
            after_part_of_piece b bs es len r buf size is_int (ltb→lt r len more) p
              (leb→lt _ _ part)
      ]
    ]
read_loop-fills (ReadEvent.interrupted ∷ es) len r buf p size is_int le enough = absurd p
read_loop-fills (ReadEvent.broken ∷ es) len r buf p size is_int le enough = absurd p
read_loop-fills (ReadEvent.closed ∷ es) len r buf p size is_int le enough = absurd p
