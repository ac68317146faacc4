-- ===== src/Request/Interrupted.antt =====
-- request.c: what the socket loops do where a call returns -1 and the loop goes on (EAGAIN, EINTR).
use zkclient.Prelude.{
  ℕ, ◌-◌, ◌≤◌, ◌<◌, ◌≡◌, refl, ap, ◌∙◌, true, List, ◌∷◌, ◌++◌, length, drop, lt→ltb, arith,
}
use zkclient.CInt.{int_max, int_lt, int_lt-natural, int_sub-natural}
use zkclient.Outcome.{undefined}
use zkclient.Request.Socket.{ReadEvent, WriteEvent, read_loop, write_loop}
use zkclient.Request.Writing.{IsSteady, room, Sent, write_loop-sends}

minus_one : (len : ℕ) → len ≤ int_max → int_lt 4294967295 len ≡ true
minus_one len h = ground arith

-- `read_socket` on a call that is interrupted before a byte arrived reads the next bytes to the
-- address before its buffer, since it added the -1 to `r_bytes`: the behaviour is undefined.
pub read_loop-interrupted :
    (b : ℕ) (bs : List ℕ) (es : List ReadEvent) (len : ℕ) (buf : List ℕ)
    → 0 < len
    → len ≤ int_max
    → read_loop (ReadEvent.interrupted ∷ ReadEvent.arrives (b ∷ bs) ∷ es) len 0 buf ≡ undefined
unfolding read_loop
read_loop-interrupted b bs es len buf h is_int =
    rw (int_lt-natural 0 len (omega arith) is_int, lt→ltb 0 len h) (rw (minus_one len is_int) refl)

-- `send_request` on a call that is interrupted after some bytes were sent goes back by one byte: the
-- socket carries that byte twice, and the peer loses the bounds of the messages.
pub write_loop-interrupted :
    (es : List WriteEvent) (total w : ℕ) (buf sent : List ℕ)
    → length buf ≡ total
    → total ≤ int_max
    → IsSteady es
    → 0 < w
    → w < total
    → total ≤ room es
    → Sent (write_loop (WriteEvent.interrupted ∷ es) total w buf sent) (sent ++ drop (w - 1) buf)
write_loop-interrupted es total w buf sent size is_int steady some more enough =
    let s =
      write_loop-sends total buf size is_int es (w - 1) sent steady (omega arith) (omega arith) in
    record { left = s.left; returned = goes_on ∙ s.returned }
  where
    goes_on :
        write_loop (WriteEvent.interrupted ∷ es) total w buf sent
        ≡ write_loop es total (w - 1) buf sent
    goes_on =
        unfold write_loop in
        rw (int_lt-natural w total (omega arith) is_int, lt→ltb w total more)
          (ap (λ k. write_loop es total k buf sent)
            (int_sub-natural w 1 (omega arith) (omega arith)))
