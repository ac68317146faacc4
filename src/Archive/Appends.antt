-- ===== src/Archive/Appends.antt =====
-- recordio.c: each function of the output archive appends the wire form of its argument.
use zkclient.Prelude.{
  ℕ, ◌+◌, ◌≤◌, ◌≡◌, refl, sym, ap, ◌∙◌, some, List, [], ◌++◌, length, take, drop, length-take,
  length-drop, length-append, le→leb, take-append_length, append_assoc, append-nil, arith,
}
use zkclient.Outcome.{Outcome, returns, Step, checked, skip, ◌>>◌}
use zkclient.Host.{Host, store, big_endian}
use zkclient.Host.Bytes.{image-htonl, image-htonll, length-big_endian}
use zkclient.Archive.{BuffStruct, enomem}
use zkclient.Archive.Invariant.{written, IsArchive, capacity, Appends, appended, no_memory}
use zkclient.Archive.Reserve.{
  Reserved, Reserves, reserved, refused, reserve_size-Reserves, reserve_int-Reserves,
}
use zkclient.Archive.Wire.{wire_int, wire_long, wire_bool}
use zkclient.Archive.Output.{
  append_bytes, oa_start_record, oa_end_record, oa_serialize_int, oa_serialize_long,
  oa_serialize_bool,
}

-- `m` appends `bs` to every well-formed archive that has the capacity for it.
pub record Writes (host : Host) (m : Step BuffStruct) (bs : List ℕ) : Type 0 where
  pub run : (a : BuffStruct) → IsArchive a → a.off + length bs ≤ capacity → Appends host a bs (m a)

append_bytes_lem :
    (a : BuffStruct) (mem bs : List ℕ)
    → a.buffer ≡ some mem
    → a.off + length bs ≤ length mem
    → append_bytes bs a
      ≡ returns 0 (record a {
        off = a.off + length bs;
        buffer = some (take a.off mem ++ bs ++ drop (a.off + length bs) mem);
      })
unfolding append_bytes store
append_bytes_lem a mem bs e h = ground (arith, e, le→leb _ _ h)

append_bytes-Appends :
    (host : Host) (a a' : BuffStruct) (bs : List ℕ)
    → Reserved a (length bs) a'
    → Appends host a bs (append_bytes bs a')
append_bytes-Appends host a a' bs r =
    appended _ (append_bytes_lem a' r.mem bs r.allocated inside)
      (record {
        mem = take a'.off r.mem ++ bs ++ drop (a'.off + length bs) r.mem;
        allocated = refl;
        size = omega (
          arith,
          length-append (take a'.off r.mem ++ bs) (drop (a'.off + length bs) r.mem),
          length-drop (a'.off + length bs) r.mem,
          front,
          r.size,
          inside,
        );
        fits = omega (arith, r.room, r.keeps_off);
        at_least = r.at_least;
        is_int = r.is_int;
        at_most = omega (arith, r.at_most, r.keeps_off);
      })
      (omega (arith, r.keeps_off))
      (take-append_length _ _ _ front
        ∙ ap (λ t. t ++ bs) (ap (λ k. take k r.mem) r.keeps_off ∙ r.keeps_bytes))
  where
    inside : a'.off + length bs ≤ length r.mem
    inside = omega (arith, r.room, r.size, r.keeps_off)

    front : length (take a'.off r.mem ++ bs) ≡ a'.off + length bs
    front = omega (arith, length-append (take a'.off r.mem) bs, length-take a'.off r.mem, inside)

checked_returns {ℓ} :
    {S : Type ℓ} (m next : Step S) (s : S) {s' : S}
    → m s ≡ returns 0 s'
    → checked m next s ≡ next s'
unfolding checked
checked_returns m next s e = rw (e, checked) refl

checked_fails {ℓ} :
    {S : Type ℓ} (m next : Step S) (s : S) {s' : S}
    → m s ≡ returns enomem s'
    → checked m next s ≡ returns enomem s'
unfolding checked
checked_fails m next s e = rw (e, checked) refl

-- A test for room and the copy behind it.
pub reserve_and_append :
    (host : Host) (a : BuffStruct) (bs : List ℕ) (reserve next : Step BuffStruct)
    → ((a' : BuffStruct) → next a' ≡ append_bytes bs a')
    → Reserves host a (length bs) (reserve a)
    → Appends host a bs (checked reserve next a)
reserve_and_append host a bs reserve next same (reserved a' e r) =
    rw (checked_returns reserve next a e) (rw (same a') (append_bytes-Appends host a a' bs r))
reserve_and_append host a bs reserve next same (refused a' n e l g) =
    no_memory a' n (checked_fails reserve next a e) l g

-- The rules by which calls are put together.
Appends-then :
    (host : Host) (bs cs : List ℕ) (a : BuffStruct) (next : Step BuffStruct)
    (o : Outcome BuffStruct)
    → a.off + length (bs ++ cs) ≤ capacity
    → Appends host a bs o
    → Writes host next cs
    → (r : Outcome BuffStruct) → ((a' : BuffStruct) → o ≡ returns 0 a' → r ≡ next a')
    → ((a' : BuffStruct) → o ≡ returns enomem a' → r ≡ returns enomem a')
    → Appends host a (bs ++ cs) r
Appends-then host bs cs a next o fits (appended a' e w off all) k r go stop =
    rw (go a' e) (extend (k.run a' w (omega (arith, off, length-append bs cs))))
  where
    extend : Appends host a' cs (next a') → Appends host a (bs ++ cs) (next a')
    extend (appended a'' e' w' off' all') =
        appended a'' e' w' (omega (arith, off, off', length-append bs cs))
          (all' ∙ ap (λ t. t ++ cs) all ∙ append_assoc (written a) bs cs)
    extend (no_memory a'' n e' l g) = no_memory a'' n e' l g
Appends-then host bs cs a next o fits (no_memory a' n e l g) k r go stop =
    no_memory a' n (stop a' e) l g

room_for_front :
    (off : ℕ) (bs cs : List ℕ) → off + length (bs ++ cs) ≤ capacity → off + length bs ≤ capacity
room_for_front off bs cs h = omega (arith, length-append bs cs)

module _ {host : Host} where
  pub Writes-then :
      {m next : Step BuffStruct} {bs cs : List ℕ}
      → Writes host m bs
      → Writes host next cs
      → Writes host (m >> next) (bs ++ cs)
  unfolding ◌>>◌
  Writes-then {m} {next} {bs} {cs} w k = record {
    run = λ a v fits.
        Appends-then host bs cs a next (m a) fits (w.run a v (room_for_front a.off bs cs fits)) k _
          (λ a' e. rw e refl) (λ a' e. rw e refl);
  }

  pub Writes-checked :
      {m next : Step BuffStruct} {bs cs : List ℕ}
      → Writes host m bs
      → Writes host next cs
      → Writes host (checked m next) (bs ++ cs)
  Writes-checked {m} {next} {bs} {cs} w k = record {
    run = λ a v fits.
        Appends-then host bs cs a next (m a) fits (w.run a v (room_for_front a.off bs cs fits)) k _
          (λ a' e. checked_returns m next a e) (λ a' e. checked_fails m next a e);
  }

  pub Writes-skip : Writes host skip []
  unfolding skip
  Writes-skip = record {
    run = λ a v fits. appended a refl v (omega arith) (sym (append-nil (written a)));
  }

  pub Writes-start :
      {next : Step BuffStruct} {bs : List ℕ}
      → Writes host next bs
      → Writes host (oa_start_record >> next) bs
  unfolding oa_start_record
  Writes-start w = Writes-then Writes-skip w

  pub Writes-end :
      {m : Step BuffStruct} {bs : List ℕ} → Writes host m bs → Writes host (m >> oa_end_record) bs
  unfolding oa_end_record
  Writes-end {m} {bs} w = rw (append-nil bs) at (Writes-then w Writes-skip)

module _ (host : Host) where
  pub oa_serialize_int-Writes : (d : ℕ) → Writes host (oa_serialize_int host d) (wire_int d)
  unfolding oa_serialize_int wire_int
  oa_serialize_int-Writes d = record {
    run = λ a v fits.
        reserve_and_append host a (big_endian 4 d) _ _
          (λ a'. ap (λ bs. append_bytes bs a') (image-htonl host d))
          (rw (length-big_endian 4 d)
            (reserve_size-Reserves host a v 4 (rw (length-big_endian 4 d) at fits) (omega arith)));
  }

  pub oa_serialize_long-Writes : (d : ℕ) → Writes host (oa_serialize_long host d) (wire_long d)
  unfolding oa_serialize_long wire_long
  oa_serialize_long-Writes d = record {
    run = λ a v fits.
        reserve_and_append host a (big_endian 8 d) _ _
          (λ a'. ap (λ bs. append_bytes bs a') (image-htonll host d))
          (rw (length-big_endian 8 d)
            (reserve_size-Reserves host a v 8 (rw (length-big_endian 8 d) at fits) (omega arith)));
  }

  pub oa_serialize_bool-Writes : (i : ℕ) → Writes host (oa_serialize_bool host i) (wire_bool i)
  unfolding oa_serialize_bool wire_bool
  oa_serialize_bool-Writes i = record {
    run = λ a v fits.
        reserve_and_append host a _ _ _ (λ a'. refl)
          (reserve_int-Reserves host a v 1 fits (omega arith));
  }
