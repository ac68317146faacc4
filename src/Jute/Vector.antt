-- ===== src/Jute/Vector.antt =====
-- zookeeper.jute.c: what the four vector types share. `serialize_X_vector` and
-- `deserialize_X_vector` have one text for each element type X.
pub mod Elements
pub mod Safety
use zkclient.Prelude.{
  ℕ, zero, suc, ◌+◌, ◌*◌, ◌≤◌, ◌≡◌, refl, sym, ap, ◌∙◌, true, false, ◌||◌, Option, none, some, List,
  [], ◌∷◌, ◌++◌, All, length, replicate, ◌==◌, append_assoc, append-nil, le→ltb, if◌then◌else◌,
  arith,
}
use zkclient.CInt.{int_max, is_negative, to_size, to_size-natural}
use zkclient.Outcome.{Outcome, returns, undefined, Step, skip, ◌>>◌}
use zkclient.Host.{Host}
use zkclient.Archive.{BuffStruct}
use zkclient.Archive.Wire.{wire_int}
use zkclient.Archive.Output.{oa_start_vector, oa_end_vector, oa_serialize_int}
use zkclient.Archive.Input.{Load, ia_start_vector, ia_end_vector, ia_deserialize_int}
use zkclient.Archive.Appends.{Writes, Writes-then, Writes-skip, oa_serialize_int-Writes}
use zkclient.Archive.Loads.{Loads, Reads, Remains, IsGenerous, ia_deserialize_int-Loads}

-- `struct X_vector`: `items` are the elements of the allocation that `data` names, none for the null
-- pointer.
pub record Vector {ℓ} (A : Type ℓ) : Type ℓ where
  pub count : ℕ
  pub items : List A

-- How often `for (i = 0; i < v->count; i++)` runs.
abbrev pub rounds : ℕ → ℕ
rounds count = if is_negative count then 0 else count

module _ {ℓ} {A : Type ℓ} where
  -- The loop of the serializer; an element behind the allocation is undefined.
  unfoldable pub serialize_items : (A → Step BuffStruct) → ℕ → List A → Step BuffStruct
  serialize_items serialize zero items = skip
  serialize_items serialize (suc n) [] = λ priv. undefined
  serialize_items serialize (suc n) (x ∷ xs) = serialize x >> serialize_items serialize n xs

  unfoldable pub serialize_vector : (A → Step BuffStruct) → Host → Vector A → Step BuffStruct
  serialize_vector serialize host v = do
    oa_start_vector host v.count
    serialize_items serialize (rounds v.count) v.items
    oa_end_vector

  -- The loop of the deserializer over the elements that `calloc` zeroed: the first call that fails
  -- ends the reading, and leaves the elements behind it as they were.
  unfoldable pub deserialize_items : Load A → Load (List A)
  deserialize_items deserialize ([], priv) = returns 0 ([], priv)
  deserialize_items deserialize (x ∷ xs, priv) = elim (deserialize (x, priv)) [
    | undefined ↦ undefined
    | returns rc r ↦ elim (rc == 0) [
      | false ↦ returns rc (r.0 ∷ xs, r.1)
      | true ↦ elim (deserialize_items deserialize (xs, r.1)) [
        | undefined ↦ undefined
        | returns rc' r' ↦ returns rc' (r.0 ∷ r'.0, r'.1)
      ]
    ]
  ]

  -- The whole deserializer, where an element has `size` bytes and is `zeroed` when they are 0. What
  -- it returns is what `end_vector` returns, whatever the loop met. Where `calloc` fails and there
  -- are elements to read, the loop hands on addresses in the null page; this counts as undefined.
  unfoldable pub deserialize_vector : ℕ → A → Load A → Host → Load (Vector A)
  deserialize_vector size zeroed deserialize host (v, priv) =
      elim (ia_start_vector host (v.count, priv)) [
        | undefined ↦ undefined
        | returns rc r ↦
            let fresh = replicate (rounds r.0) zeroed in
            let room = host.grants (to_size r.0 * size) || rounds r.0 == 0 in
            elim (rc == 0) [
              | false ↦
                  ia_end_vector (record { count = r.0; items = if room then fresh else [] }, r.1)
              | true ↦
                  if room
                  then elim (deserialize_items deserialize (fresh, r.1)) [
                    | undefined ↦ undefined
                    | returns rc' r' ↦ ia_end_vector (record { count = r.0; items = r'.0 }, r'.1)
                  ]
                  else undefined
            ]
      ]

  unfoldable pub wire_items : (A → List ℕ) → List A → List ℕ
  wire_items wire [] = []
  wire_items wire (x ∷ xs) = wire x ++ wire_items wire xs

  unfoldable pub wire_vector : (A → List ℕ) → Vector A → List ℕ
  wire_vector wire v = wire_int v.count ++ wire_items wire v.items
