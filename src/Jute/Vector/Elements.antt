-- ===== src/Jute/Vector/Elements.antt =====
-- zookeeper.jute.c: a vector is written element by element behind its count, and read back.
use zkclient.Prelude.{
  ℕ, ◌*◌, ◌≤◌, ◌≡◌, refl, true, List, [], ◌∷◌, ◌++◌, All, length, replicate, append_assoc,
  append-nil, le→ltb, arith,
}
use zkclient.CInt.{int_max, to_size, to_size-natural}
use zkclient.Outcome.{returns, Step, skip}
use zkclient.Host.{Host}
use zkclient.Archive.{BuffStruct}
use zkclient.Archive.Wire.{wire_int}
use zkclient.Archive.Output.{oa_start_vector, oa_end_vector}
use zkclient.Archive.Input.{Load, ia_start_vector, ia_end_vector}
use zkclient.Archive.Appends.{Writes, Writes-then, Writes-skip, oa_serialize_int-Writes}
use zkclient.Archive.Loads.{Loads, IsGenerous, ia_deserialize_int-Loads}
use zkclient.Jute.Vector.{
  Vector, rounds, serialize_items, serialize_vector, deserialize_items, deserialize_vector,
  wire_items, wire_vector,
}

-- One round of the loop, and the whole call, where every call in it returns 0.
module _ {ℓ} {A : Type ℓ} (deserialize : Load A) where
  deserialize_items_step :
      (x x' : A) (xs xs' : List A) (priv next end : BuffStruct)
      → deserialize (x, priv) ≡ returns 0 (x', next)
      → deserialize_items deserialize (xs, next) ≡ returns 0 (xs', end)
      → deserialize_items deserialize (x ∷ xs, priv) ≡ returns 0 (x' ∷ xs', end)
  unfolding deserialize_items
  deserialize_items_step x x' xs xs' priv next end e f =
      rw (e, deserialize_items) (rw (f, deserialize_items) refl)

  deserialize_vector_step :
      (host : Host) (size : ℕ) (zeroed : A) (v : Vector A) (n : ℕ) (xs : List A)
      (priv next end : BuffStruct)
      → ia_start_vector host (v.count, priv) ≡ returns 0 (n, next)
      → host.grants (to_size n * size) ≡ true
      → deserialize_items deserialize (replicate (rounds n) zeroed, next) ≡ returns 0 (xs, end)
      → deserialize_vector size zeroed deserialize host (v, priv)
        ≡ returns 0 (record { count = n; items = xs }, end)
  unfolding deserialize_vector ia_end_vector skip
  deserialize_vector_step host size zeroed v n xs priv next end e g f =
      rw (e, deserialize_vector) (rw (g, deserialize_vector) (rw (f, deserialize_vector) refl))

module _ {ℓ} {A : Type ℓ} where
  -- The count is that of the elements, and their size in memory is an `int`.
  pub record IsVector {κ} (P : A → Type κ) (v : Vector A) : Type κ where
    pub counted : v.count ≡ length v.items
    pub small : v.count ≤ 67108864
    pub each : All P v.items

  module _ {κ} (host : Host) (P : A → Type κ) (wire : A → List ℕ) where
    module _ (serialize : A → Step BuffStruct)
        (writes : (x : A) → P x → Writes host (serialize x) (wire x)) where
      serialize_items-Writes :
          (xs : List A)
          → All P xs
          → Writes host (serialize_items serialize (length xs) xs) (wire_items wire xs)
      unfolding serialize_items wire_items
      serialize_items-Writes [] h = Writes-skip
      serialize_items-Writes (x ∷ xs) h = Writes-then (writes x h.0) (serialize_items-Writes xs h.1)

      pub serialize_vector-Writes :
          (v : Vector A)
          → IsVector P v
          → Writes host (serialize_vector serialize host v) (wire_vector wire v)
      unfolding serialize_vector wire_vector oa_start_vector oa_end_vector
      serialize_vector-Writes v w =
          let n : rounds v.count ≡ length v.items =
            rw (le→ltb int_max v.count (omega (arith, w.small))) w.counted in
          Writes-then (oa_serialize_int-Writes host v.count) (
            rw n (
              rw (append-nil (wire_items wire v.items)) at
                (Writes-then (serialize_items-Writes v.items w.each) Writes-skip)))

    module _ (deserialize : Load A)
        (loads : (x old : A) → P x → Loads deserialize (wire x) old x) where
      deserialize_items-Loads :
          (xs : List A) (zeroed : A)
          → All P xs
          → Loads
              (deserialize_items deserialize)
              (wire_items wire xs)
              (replicate (length xs) zeroed)
              xs
      unfolding wire_items
      deserialize_items-Loads [] zeroed h = record {
        run = λ priv rest r. record {
          next = priv;
          returned = unfold deserialize_items in refl;
          remains = r;
        };
      }
      deserialize_items-Loads (x ∷ xs) zeroed h = record {
        run = λ priv rest r.
            let s =
              (loads x zeroed h.0).run priv (wire_items wire xs ++ rest)
                (rw (append_assoc (wire x) (wire_items wire xs) rest) at r) in
            let t = (deserialize_items-Loads xs zeroed h.1).run s.next rest s.remains in
            record {
              next = t.next;
              returned =
                  deserialize_items_step deserialize zeroed x _ xs priv _ _ s.returned t.returned;
              remains = t.remains;
            };
      }

      pub deserialize_vector-Loads :
          (size : ℕ) (zeroed : A) (v old : Vector A)
          → size ≤ 32
          → IsGenerous host
          → IsVector P v
          → Loads (deserialize_vector size zeroed deserialize host) (wire_vector wire v) old v
      unfolding wire_vector ia_start_vector ia_end_vector
      deserialize_vector-Loads size zeroed v old hs g w = record {
        run = λ priv rest r.
            let s =
              (ia_deserialize_int-Loads host v.count old.count (omega (arith, w.small))).run priv
                (wire_items wire v.items ++ rest)
                (rw (append_assoc (wire_int v.count) (wire_items wire v.items) rest) at r) in
            let t = (deserialize_items-Loads v.items zeroed w.each).run s.next rest s.remains in
            record {
              next = t.next;
              returned =
                  deserialize_vector_step deserialize host size zeroed old v.count v.items priv _ _
                    s.returned granted (rw n t.returned);
              remains = t.remains;
            };
      }
        where
          n : rounds v.count ≡ length v.items
          n = rw (le→ltb int_max v.count (omega (arith, w.small))) w.counted

          granted : host.grants (to_size v.count * size) ≡ true
          granted =
              rw (to_size-natural v.count (omega (arith, w.small)))
                (g (v.count * size) (grind (arith, w.small)))
