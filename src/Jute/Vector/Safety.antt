-- ===== src/Jute/Vector/Safety.antt =====
-- zookeeper.jute.c: reading a vector from any input stays inside the input.
use zkclient.Prelude.{
  ℕ, ◌*◌, ◌≤◌, ◌≡◌, refl, ◌∙◌, inl, inr, ◌⊎◌, Bool, true, false, ◌||◌, List, [], ◌∷◌, replicate,
  ◌==◌, ==→eq, ap, if◌then◌else◌, Bool-cases, ltb→le, arith,
}
use zkclient.CInt.{int_max, is_negative, to_size, to_size-natural}
use zkclient.Outcome.{Outcome, returns, undefined, skip}
use zkclient.Host.{Host}
use zkclient.Archive.{BuffStruct}
use zkclient.Archive.Input.{Load, ia_start_vector, ia_end_vector}
use zkclient.Archive.Safety.{IsInput, IsUsable, GrantsVectors, Returned, Safe, int-Returned}
use zkclient.Jute.Vector.{Vector, rounds, deserialize_items, deserialize_vector}

module _ {ℓ} {A : Type ℓ} (deserialize : Load A) (safe : Safe deserialize) where
  items-Returned :
      (xs : List A) (priv : BuffStruct)
      → IsInput priv
      → Returned priv (deserialize_items deserialize (xs, priv))
  unfolding deserialize_items
  items-Returned [] priv w = record {
    rc = 0;
    result = [];
    next = priv;
    returned = refl;
    input = w;
    same_buffer = refl;
    forward = omega arith;
  }
  items-Returned (x ∷ xs) priv w =
      let r = safe.run x priv w in
      let t = items-Returned xs r.next r.input in
      elim (Bool-cases (r.rc == 0)) [
        | inr failed ↦ record {
          rc = r.rc;
          result = r.result ∷ xs;
          next = r.next;
          returned = rw (r.returned, deserialize_items) (rw (failed, deserialize_items) refl);
          input = r.input;
          same_buffer = r.same_buffer;
          forward = r.forward;
        }
        | inl fine ↦ record {
          rc = t.rc;
          result = r.result ∷ t.result;
          next = t.next;
          returned =
              rw (r.returned, deserialize_items)
                (rw (fine, deserialize_items) (rw (t.returned, deserialize_items) refl));
          input = t.input;
          same_buffer = t.same_buffer ∙ r.same_buffer;
          forward = omega (arith, r.forward, t.forward);
        }
      ]

or_true : (b : Bool) → (b || true) ≡ true
or_true true = refl
or_true false = refl

-- What `calloc` is asked for is granted, or nothing is read.
abbrev has_room : Host → ℕ → ℕ → Bool
has_room host size count = host.grants (to_size count * size) || rounds count == 0

-- The memory for the elements was refused: `count` is the length of the vector in the archive.
pub record Unbacked {ℓ} {A : Type ℓ} (host : Host) (size old : ℕ) (priv : BuffStruct)
    (o : Outcome A) : Type ℓ where
  pub count : ℕ
  pub next : BuffStruct
  pub read : ia_start_vector host (old, priv) ≡ returns 0 (count, next)
  pub some_items : (rounds count == 0) ≡ false
  pub refused : host.grants (to_size count * size) ≡ false
  pub outcome : o ≡ undefined

or_false : (a b : Bool) → (a || b) ≡ false → (a ≡ false) × (b ≡ false)
or_false false false e = (refl, refl)
or_false false true e = absurd (cc e)
or_false true b e = absurd (cc e)

module _ {ℓ} {A : Type ℓ} (host : Host) (size : ℕ) (zeroed : A) (deserialize : Load A)
    (safe : Safe deserialize) where
  vector-Returned :
      (v : Vector A) (priv : BuffStruct) (w : IsInput priv)
      → has_room host size (int-Returned host v.count priv w).result ≡ true
      → ((int-Returned host v.count priv w).rc == 0) ≡ true
      → Returned priv (deserialize_vector size zeroed deserialize host (v, priv))
  unfolding deserialize_vector ia_start_vector ia_end_vector skip
  vector-Returned v priv w room fine =
      let r = int-Returned host v.count priv w in
      let fresh = replicate (rounds r.result) zeroed in
      let t = items-Returned deserialize safe fresh r.next r.input in
      record {
        rc = 0;
        result = record { count = r.result; items = t.result };
        next = t.next;
        returned =
            rw (r.returned, deserialize_vector)
              (rw (fine, deserialize_vector)
                (rw (room, deserialize_vector) (rw (t.returned, deserialize_vector) refl)));
        input = t.input;
        same_buffer = t.same_buffer ∙ r.same_buffer;
        forward = omega (arith, r.forward, t.forward);
      }

  -- Without a length nothing is read.
  vector-Returned_short :
      (v : Vector A) (priv : BuffStruct) (w : IsInput priv)
      → ((int-Returned host v.count priv w).rc == 0) ≡ false
      → Returned priv (deserialize_vector size zeroed deserialize host (v, priv))
  unfolding deserialize_vector ia_start_vector ia_end_vector skip
  vector-Returned_short v priv w failed =
      let r = int-Returned host v.count priv w in
      record {
        rc = 0;
        result = record {
          count = r.result;
          items = if has_room host size r.result then replicate (rounds r.result) zeroed else [];
        };
        next = r.next;
        returned = rw (r.returned, deserialize_vector) (rw (failed, deserialize_vector) refl);
        input = r.input;
        same_buffer = r.same_buffer;
        forward = r.forward;
      }

  -- On any input and with any answer of the allocator, the only way out of the defined is a refused
  -- `calloc`.
  pub deserialize_vector-Settled :
      (v : Vector A) (priv : BuffStruct)
      → IsInput priv
      → Returned priv (deserialize_vector size zeroed deserialize host (v, priv))
        ⊎ Unbacked host size v.count priv
            (deserialize_vector size zeroed deserialize host (v, priv))
  unfolding deserialize_vector ia_start_vector
  deserialize_vector-Settled v priv w =
      let r = int-Returned host v.count priv w in
      elim (Bool-cases (r.rc == 0)) [
        | inr failed ↦ inl (vector-Returned_short v priv w failed)
        | inl fine ↦ elim (Bool-cases (has_room host size r.result)) [
          | inl room ↦ inl (vector-Returned v priv w room fine)
          | inr none_left ↦
              let (refused, some_items) = or_false _ _ none_left in
              inr (record {
                count = r.result;
                next = r.next;
                read = r.returned ∙ ap (λ rc. returns rc (r.result, r.next)) (==→eq r.rc 0 fine);
                some_items = some_items;
                refused = refused;
                outcome =
                    rw (r.returned, deserialize_vector)
                      (rw (fine, deserialize_vector) (rw (none_left, deserialize_vector) refl));
              })
        ]
      ]

-- With an allocator that grants every vector.
module _ (host : Host) (k : IsUsable host) (vectors : GrantsVectors host) (size : ℕ)
    (small : size ≤ 32) where
  room_for_items : (n : ℕ) → has_room host size n ≡ true
  room_for_items n = elim (Bool-cases (is_negative n)) [
    | inl negative ↦ rw negative (or_true _)
    | inr natural ↦
        let fits : n ≤ int_max = ltb→le int_max n natural in
        rw (to_size-natural n fits) (rw (vectors (n * size) (grind arith)) refl)
  ]

  pub deserialize_vector-Safe {ℓ} :
      {A : Type ℓ} (zeroed : A) (deserialize : Load A)
      → Safe deserialize
      → Safe (deserialize_vector size zeroed deserialize host)
  deserialize_vector-Safe zeroed deserialize safe = record {
    run = λ v priv w. elim (Bool-cases ((int-Returned host v.count priv w).rc == 0)) [
      | inr failed ↦ vector-Returned_short host size zeroed deserialize safe v priv w failed
      | inl fine ↦
          vector-Returned host size zeroed deserialize safe v priv w
            (room_for_items (int-Returned host v.count priv w).result) fine
    ];
  }
