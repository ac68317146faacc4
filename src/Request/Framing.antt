-- ===== src/Request/Framing.antt =====
-- request.c: `send_request` puts one message on the socket, however its bytes are accepted.
use zkclient.Prelude.{
  ℕ, ◌+◌, ◌/◌, ◌%◌, ◌≤◌, ◌<◌, ◌≡◌, refl, sym, ap, ap₂, ◌∙◌, some, List, [], ◌∷◌, ◌++◌, length, take,
  drop, replicate, le→leb, append-nil, length-append, length-take, length-drop, length-replicate,
  take-append_length, arith,
}
use zkclient.CInt.{int_max, int_add-natural, to_size, to_size-natural}
use zkclient.Outcome.{Outcome, returns}
use zkclient.Host.{Host, malloc, store, load, big_endian, little_endian}
use zkclient.Host.Bytes.{length-big_endian}
use zkclient.Archive.{BuffStruct}
use zkclient.Archive.Invariant.{IsArchive, held, written, capacity}
use zkclient.Archive.Loads.{IsGenerous}
use zkclient.Archive.Output.{read_bytes, get_buffer, get_buffer_len}
use zkclient.Archive.Wire.{wire_int}
use zkclient.Conn.{PollResult, wait_socket, cr_write}
use zkclient.Client.{World}
use zkclient.Request.Socket.{Net}
use zkclient.Request.Stream.{drop_all}
use zkclient.Request.Writing.{IsSteady, room, write_loop-sends}
use zkclient.Request.Frame.{
  poll_socket, header_bytes, fill_frame, send_end, send_polled, send_frame, send_request,
  decode_int32,
}

-- A message behind its length.
abbrev pub framed : List ℕ → List ℕ
framed bs = wire_int (length bs) ++ bs

pub length-framed : (bs : List ℕ) → length (framed bs) ≡ 4 + length bs
unfolding wire_int
length-framed bs =
    omega (arith, length-append (big_endian 4 (length bs)) bs, length-big_endian 4 (length bs))

-- The next call of `poll` reports the event.
pub record IsReady (mode : ℕ) (net : Net) : Type 0 where
  pub first : PollResult
  pub later : List PollResult
  pub polls : net.polls ≡ first ∷ later
  pub ready : wait_socket first mode ≡ 0

pub poll_socket-ready :
    (mode : ℕ) (net : Net) (r : IsReady mode net)
    → poll_socket mode net ≡ (0, record net { polls = r.later })
unfolding poll_socket
poll_socket-ready mode net r =
    rw (r.polls, poll_socket) (ap (λ rc. (rc, record net { polls = r.later })) r.ready)

header_bytes-big_endian : (n : ℕ) → header_bytes n ≡ big_endian 4 n
unfolding header_bytes big_endian little_endian
header_bytes-big_endian n =
    ap₂ (λ a b. a ∷ b) (omega arith) (ap (λ b. b ∷ n / 256 % 256 ∷ n % 256 ∷ []) (omega arith))

pub decode_int32-big_endian : (n : ℕ) → n < 4294967296 → decode_int32 (big_endian 4 n) 0 ≡ n
unfolding decode_int32 big_endian little_endian
decode_int32-big_endian n h = omega arith

pub store_fits :
    (mem : List ℕ) (off : ℕ) (bytes : List ℕ)
    → off + length bytes ≤ length mem
    → store mem off bytes ≡ some (take off mem ++ bytes ++ drop (off + length bytes) mem)
unfolding store
store_fits mem off bytes h = rw (le→leb (off + length bytes) (length mem) h) refl

pub loaded : (n : ℕ) (mem : List ℕ) → n ≤ length mem → load mem 0 n ≡ some (take n mem)
unfolding load
loaded n mem h = rw (le→leb (0 + n) (length mem) (omega arith)) refl

length-header_bytes : (n : ℕ) → length (header_bytes n) ≡ 4
unfolding header_bytes
length-header_bytes n = refl

module _ (host : Host) (a : BuffStruct) (ok : IsArchive a) (small : a.off ≤ capacity) where
  pub length-written : length (written a) ≡ a.off
  length-written =
      ap (λ m. length (take a.off (held m))) ok.allocated
      ∙ length-take a.off ok.mem
      ∙ omega (arith, ok.fits, ok.size)

  read_archive : read_bytes (get_buffer a) (to_size a.off) ≡ some (written a)
  unfolding read_bytes get_buffer
  read_archive =
      rw (to_size-natural a.off (omega arith))
        (rw ok.allocated (loaded a.off ok.mem (omega (arith, ok.fits, ok.size))))

  fill_frame-framed :
      (buf : List ℕ) → length buf ≡ a.off + 4 → fill_frame a a.off buf ≡ some (framed (written a))
  unfolding fill_frame wire_int
  fill_frame-framed buf size =
      rw
        (
          store_fits buf 0 (header_bytes a.off) (omega (arith, length-header_bytes a.off)),
          fill_frame,
        )
        (rw (read_archive, fill_frame)
          (store_fits (header ++ rest) 4 (written a) (omega (arith, long, length-written))
            ∙ ap some filled))
    where
      header : List ℕ
      header = header_bytes a.off

      rest : List ℕ
      rest = drop (0 + length header) buf

      four : length header ≡ 4
      four = length-header_bytes a.off

      long : length (header ++ rest) ≡ a.off + 4
      long =
          omega (arith, length-append header rest, length-drop (0 + length header) buf, four, size)

      filled :
          take 4 (header ++ rest) ++ written a ++ drop (4 + length (written a)) (header ++ rest)
          ≡ framed (written a)
      filled =
          ap (λ t. take 4 (header ++ rest) ++ written a ++ t)
            (drop_all (4 + length (written a)) (header ++ rest)
              (omega (arith, long, length-written)))
          ∙ append-nil _
          ∙ ap (λ t. t ++ written a)
              (take-append_length 4 header rest four
                ∙ header_bytes-big_endian a.off
                ∙ ap (big_endian 4) (sym length-written))

-- What `send_request` leaves: the client as it was, and the message on the wire.
pub record Delivered (w : World) (o : Outcome World) (bytes : List ℕ) : Type 0 where
  pub left : World
  pub returned : o ≡ returns 0 left
  pub client : left.client ≡ w.client
  pub reads : left.net.reads ≡ w.net.reads
  pub polls : left.net.polls ≡ drop 1 w.net.polls
  pub sent : left.net.sent ≡ w.net.sent ++ bytes

send_frame-Delivered :
    (frame : List ℕ) (w : World) (r : IsReady cr_write w.net)
    → length frame ≤ int_max
    → IsSteady w.net.writes
    → length frame ≤ room w.net.writes
    → Delivered w (send_frame frame (length frame) w) frame
unfolding send_frame send_polled send_end
send_frame-Delivered frame w r is_int steady enough =
    let s =
      write_loop-sends (length frame) frame refl is_int w.net.writes 0 w.net.sent steady
        (omega arith) (omega arith) in
    record {
      left = record w {
        net = record w.net { polls = r.later; writes = s.left; sent = w.net.sent ++ frame };
      };
      returned =
          ap (send_polled frame (length frame) w) (poll_socket-ready cr_write w.net r)
          ∙ ap (send_end (record w { net = record w.net { polls = r.later } })) s.returned;
      client = refl;
      reads = refl;
      polls = sym (ap (drop 1) r.polls);
      sent = refl;
    }

-- What `send_request` puts on the wire where no call is interrupted: the length of the archive and
-- its bytes, in however many pieces the socket accepts them.
pub send_request-Delivered :
    (host : Host) (a : BuffStruct) (w : World)
    → IsGenerous host
    → IsArchive a
    → a.off ≤ capacity
    → IsReady cr_write w.net
    → IsSteady w.net.writes
    → a.off + 4 ≤ room w.net.writes
    → Delivered w (send_request host a w) (framed (written a))
unfolding send_request malloc get_buffer_len
send_request-Delivered host a w g ok small r steady enough =
    rw (int_add-natural a.off 4 (omega arith), send_request)
      (rw (to_size-natural (a.off + 4) (omega arith), g (a.off + 4) (omega arith), send_request)
        (rw
          (
            fill_frame-framed host a ok small (replicate (a.off + 4) host.junk)
                (length-replicate _ _),
            send_request,
          )
          (rw (sym long) (
            send_frame-Delivered (framed (written a)) w r (omega (arith, long)) steady
              (omega (arith, long))))))
  where
    long : length (framed (written a)) ≡ a.off + 4
    long = omega (arith, length-framed (written a), length-written host a ok small)
