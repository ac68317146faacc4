-- ===== src/Jute/Transfer.antt =====
-- A record from one archive to another: what a serializer wrote, read by a deserializer.
use zkclient.Prelude.{
  ℕ, ◌≤◌, ◌≡◌, refl, sym, ap, Option, none, some, List, [], length, replicate, length-replicate,
  append-nil, take, ◌==◌, if◌then◌else◌, arith,
}
use zkclient.Outcome.{Outcome, returns, undefined, Step}
use zkclient.Host.{Host}
use zkclient.Archive.{BuffStruct}
use zkclient.Archive.Invariant.{IsArchive, Appends, appended, no_memory, written, capacity}
use zkclient.Archive.Output.{create_buffer_oarchive, get_buffer, get_buffer_len}
use zkclient.Archive.Input.{Load, create_buffer_iarchive}
use zkclient.Archive.Appends.{Writes}
use zkclient.Archive.Loads.{Loads, IsGenerous}

-- What a call left in memory, if it returned 0.
abbrev pub succeeded {ℓ} : {S : Type ℓ} → Outcome S → Option S
succeeded undefined = none
succeeded (returns rc s) = if rc == 0 then some s else none

-- The bytes of the archive that `serialize` fills.
unfoldable pub serialized : Host → Step BuffStruct → Option (List ℕ)
serialized host serialize = elim (create_buffer_oarchive host) [
  | none ↦ none
  | some oa ↦ elim (succeeded (serialize oa)) [
    | none ↦ none
    | some oa' ↦ elim (get_buffer oa') [
      | none ↦ none
      | some mem ↦ some (take (get_buffer_len oa') mem)
    ]
  ]
]

-- What `deserialize` makes of `old` over an archive of these bytes.
unfoldable pub deserialized {ℓ} : {A : Type ℓ} → Host → Load A → List ℕ → A → Option A
deserialized host deserialize bytes old =
    elim (create_buffer_iarchive host (some bytes) (length bytes)) [
      | none ↦ none
      | some ia ↦ elim (succeeded (deserialize (old, ia))) [ none ↦ none | some r ↦ some r.0 ]
    ]

-- The archive that `create_buffer_oarchive` returns where the allocator answers.
abbrev pub fresh : Host → BuffStruct
fresh host = record { len = 128; off = 0; buffer = some (replicate 128 host.junk) }

pub fresh-IsArchive : (host : Host) → IsArchive (fresh host)
fresh-IsArchive host = record {
  mem = replicate 128 host.junk;
  allocated = refl;
  size = length-replicate 128 host.junk;
  fits = omega arith;
  at_least = omega arith;
  is_int = omega arith;
  at_most = omega arith;
}

module _ (host : Host) (g : IsGenerous host) where
  pub create_buffer_oarchive-fresh : create_buffer_oarchive host ≡ some (fresh host)
  unfolding create_buffer_oarchive
  create_buffer_oarchive-fresh =
      rw (g 80 (omega arith)) (rw (g 16 (omega arith)) (rw (g 128 (omega arith)) refl))

  created_input :
      (bs : List ℕ)
      → create_buffer_iarchive host (some bs) (length bs)
        ≡ some (record { len = length bs; off = 0; buffer = some bs })
  unfolding create_buffer_iarchive
  created_input bs = rw (g 80 (omega arith)) (rw (g 16 (omega arith)) refl)

  serialized-Appends :
      (m : Step BuffStruct) (bs : List ℕ)
      → Appends host (fresh host) bs (m (fresh host))
      → serialized host m ≡ some bs
  unfolding serialized get_buffer get_buffer_len
  serialized-Appends m bs (appended a' e w off all) =
      rw (create_buffer_oarchive-fresh, serialized)
        (rw (e, serialized) (rw (w.allocated, serialized) (ap some (held_bytes w all))))
    where
      held_bytes : (w : IsArchive a') → written a' ≡ bs → take a'.off w.mem ≡ bs
      held_bytes w all = rw w.allocated at all
  serialized-Appends m bs (no_memory a' n e l refusal) = cc (refusal, g n (omega arith))

  pub serialized-Writes :
      (m : Step BuffStruct) (bs : List ℕ)
      → Writes host m bs
      → length bs ≤ capacity
      → serialized host m ≡ some bs
  serialized-Writes m bs w h =
      serialized-Appends m bs (w.run (fresh host) (fresh-IsArchive host) (omega arith))

  pub deserialized-Loads {ℓ} :
      {A : Type ℓ} (m : Load A) (bs : List ℕ) (old v : A)
      → Loads m bs old v
      → length bs ≤ capacity
      → deserialized host m bs old ≡ some v
  unfolding deserialized
  deserialized-Loads m bs old v l h =
      let r =
        l.run (record { len = length bs; off = 0; buffer = some bs }) []
          (record {
            mem = bs;
            allocated = refl;
            size = refl;
            is_int = omega arith;
            fits = omega arith;
            ahead = sym (append-nil bs);
          }) in
      rw (created_input bs, deserialized) (rw (r.returned, deserialized) refl)

-- What a receiver reads into `old` of what a sender wrote.
unfoldable pub transferred {ℓ} : {A : Type ℓ} → Host → Step BuffStruct → Load A → A → Option A
transferred host serialize deserialize old = elim (serialized host serialize) [
  | none ↦ none
  | some bytes ↦ deserialized host deserialize bytes old
]

-- A serializer and a deserializer of one wire form undo one another.
pub transferred-wire {ℓ} :
    {A : Type ℓ} (host : Host) (m : Step BuffStruct) (l : Load A) (bs : List ℕ) (old v : A)
    → IsGenerous host
    → Writes host m bs
    → Loads l bs old v
    → length bs ≤ capacity
    → transferred host m l old ≡ some v
unfolding transferred
transferred-wire host m l bs old v g w r h =
    rw (serialized-Writes host g m bs w h, transferred) (deserialized-Loads host g l bs old v r h)
