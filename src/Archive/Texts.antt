-- ===== src/Archive/Texts.antt =====
-- recordio.c: strings and buffers on the output archive, a length and the bytes behind it.
use zkclient.Prelude.{
  ℕ, ◌+◌, ◌%◌, ◌≤◌, ◌≡◌, refl, sym, ap, ◌∙◌, inl, inr, Option, none, some, List, [], ◌++◌, length,
  ◌==◌, length-append, le→leb, take_all, ne→==, if◌then◌else◌, arith,
}
use zkclient.CInt.{int32_mod, to_size, to_size-natural}
use zkclient.Outcome.{Step, checked, skip}
use zkclient.Host.{Host, load}
use zkclient.Host.Bytes.{length-big_endian}
use zkclient.Archive.{BuffStruct, Buffer}
use zkclient.Archive.Invariant.{capacity}
use zkclient.Archive.Reserve.{reserve_int-Reserves}
use zkclient.Archive.Wire.{
  wire_int, wire_buffer, wire_string, IsText, IsSendable, Sendable, strlen-IsText,
}
use zkclient.Archive.Appends.{
  Writes, reserve_and_append, Writes-checked, Writes-skip, oa_serialize_int-Writes,
}
use zkclient.Archive.Output.{
  reserve_int, append_bytes, append_from, read_bytes, oa_serialize_int, oa_serialize_buffer,
  oa_serialize_string, strlen, negone,
}

append_from_reads :
    (source : Option (List ℕ)) (n : ℕ) (bs : List ℕ) (a : BuffStruct)
    → read_bytes source n ≡ some bs
    → append_from source n a ≡ append_bytes bs a
unfolding append_from
append_from_reads source n bs a e = rw (e, append_from) refl

read_whole : (mem : List ℕ) (n : ℕ) → n ≡ length mem → read_bytes (some mem) n ≡ some mem
unfolding read_bytes load
read_whole mem n e = rw e (
    rw (le→leb (0 + length mem) (length mem) (omega arith))
      (ap some (take_all (length mem) mem (omega arith))))

length-wire_int : (d : ℕ) → length (wire_int d) ≡ 4
unfolding wire_int
length-wire_int d = length-big_endian 4 d

module _ (host : Host) where
  -- The bytes of a string or of a buffer, behind their length.
  body-Writes :
      (source : Option (List ℕ)) (n : ℕ) (bs : List ℕ)
      → length bs ≡ n
      → n ≤ capacity
      → read_bytes source n ≡ some bs
      → Writes host (checked (reserve_int host n) (append_from source (to_size n))) bs
  body-Writes source n bs e small reads = record {
    run = λ a v fits.
        reserve_and_append host a bs _ _
          (λ a'.
            ap (λ k. append_from source k a') (to_size-natural n (omega arith))
            ∙ append_from_reads source n bs a' reads)
          (rw e (reserve_int-Reserves host a v n (rw e at fits) small));
  }

  -- What needs a bound on the length has it from the capacity.
  Writes-if_fits :
      (m : Step BuffStruct) (bs : List ℕ)
      → (length bs ≤ capacity → Writes host m bs)
      → Writes host m bs
  Writes-if_fits m bs w = record { run = λ a v fits. (w (omega arith)).run a v fits }

  buffer_body-Writes :
      (len : ℕ) (buff : Option (List ℕ)) (bs : List ℕ)
      → length bs ≡ len
      → len ≤ capacity
      → read_bytes buff len ≡ some bs
      → Writes host
          (checked (oa_serialize_int host len) (
            if len == negone
            then skip
            else checked (reserve_int host len) (append_from buff (to_size len))))
          (wire_int len ++ bs)
  buffer_body-Writes len buff bs e small reads =
      Writes-checked (oa_serialize_int-Writes host len)
        (rw (ne→== len negone (omega arith)) (body-Writes buff len bs e small reads))

  sent :
      (len : ℕ) (buff : Option (List ℕ))
      → Sendable len buff
      → Writes host
          (oa_serialize_buffer host (some (record { len = len; buff = buff })))
          (wire_buffer (record { len = len; buff = buff }))
  unfolding oa_serialize_buffer wire_buffer
  sent len none (inl e) = rw e (Writes-checked (oa_serialize_int-Writes host negone) Writes-skip)
  sent len none (inr e) =
      rw e (buffer_body-Writes 0 none [] refl (omega arith) (unfold read_bytes in refl))
  sent len (some mem) e = Writes-if_fits _ _ λ fits.
      buffer_body-Writes len (some mem) mem (sym e)
        (omega (arith, length-append (wire_int len) mem, e)) (read_whole mem len e)

  pub oa_serialize_buffer-Writes :
      (b : Buffer) → IsSendable b → Writes host (oa_serialize_buffer host (some b)) (wire_buffer b)
  oa_serialize_buffer-Writes b h = sent b.len b.buff h

  pub oa_serialize_string-Writes :
      (s : Option (List ℕ)) → IsText s → Writes host (oa_serialize_string host s) (wire_string s)
  unfolding oa_serialize_string wire_string
  oa_serialize_string-Writes none h = absurd h
  oa_serialize_string-Writes (some s) h = Writes-if_fits _ _ λ fits.
      let len : strlen s % int32_mod ≡ length s =
        omega (arith, strlen-IsText s h, length-append (wire_int (length s)) s) in
      rw len (
        Writes-checked (oa_serialize_int-Writes host (length s)) (
          body-Writes (some s) (length s) s refl
            (omega (arith, length-append (wire_int (length s)) s)) (read_whole s (length s) refl)))
