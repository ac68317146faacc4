-- ===== src/Archive/Safety.antt =====
-- recordio.c: no input makes the functions of the input archive touch memory outside of it.
use zkclient.Prelude.{
  ℕ, ◌+◌, ◌-◌, ◌≤◌, ◌<◌, ◌≡◌, refl, ap, ◌∙◌, inl, inr, true, false, some, List, length, take, drop,
  get_or, ltb, Bool-cases, ltb→le, le→leb, arith,
}
use zkclient.CInt.{
  int_max, int_lt, int_sub, int_lt-natural, int_sub-natural, to_size, to_size-natural,
}
use zkclient.Outcome.{Outcome, returns}
use zkclient.Host.{Host, load, ntohl, htonll, value}
use zkclient.Archive.{BuffStruct, e2big}
use zkclient.Archive.Input.{
  Load, char_to_int, fetch, advance, ia_deserialize_int, ia_deserialize_long, ia_deserialize_bool,
}

-- An input archive over an allocation of the length that it notes.
pub record IsInput (priv : BuffStruct) : Type 0 where
  pub mem : List ℕ
  pub allocated : priv.buffer ≡ some mem
  pub size : length mem ≡ priv.len
  pub is_int : priv.len ≤ int_max
  pub fits : priv.off ≤ priv.len

-- An allocator that refuses what exceeds the largest object size, as that of libc does.
pub record IsUsable (host : Host) : Type 0 where
  pub refuses_huge : (n : ℕ) → 9223372036854775807 < n → host.grants n ≡ false

-- An allocator that grants what a vector of an `int` many elements takes. That of libc need not.
abbrev pub GrantsVectors : Host → Type 0
GrantsVectors host = (n : ℕ) → n ≤ 68719476736 → host.grants n ≡ true

-- The call returns, and leaves an archive over the same bytes.
pub record Returned {ℓ} {A : Type ℓ} (priv : BuffStruct) (o : Outcome (A × BuffStruct))
    : Type ℓ where
  pub rc : ℕ
  pub result : A
  pub next : BuffStruct
  pub returned : o ≡ returns rc (result, next)
  pub input : IsInput next
  pub same_buffer : next.buffer ≡ priv.buffer
  pub forward : priv.off ≤ next.off

pub record Safe {ℓ} {A : Type ℓ} (m : Load A) : Type ℓ where
  pub run : (v : A) (priv : BuffStruct) → IsInput priv → Returned priv (m (v, priv))

module _ (priv : BuffStruct) (w : IsInput priv) where
  room : int_sub priv.len priv.off ≡ priv.len - priv.off
  room = int_sub-natural priv.len priv.off w.fits w.is_int

  room_size : to_size (int_sub priv.len priv.off) ≡ priv.len - priv.off
  room_size = ap to_size room ∙ to_size-natural (priv.len - priv.off) (omega (arith, w.is_int))

  pub room_int :
      (n : ℕ) → n ≤ int_max → int_lt (int_sub priv.len priv.off) n ≡ ltb (priv.len - priv.off) n
  room_int n h =
      ap (λ k. int_lt k n) room ∙ int_lt-natural (priv.len - priv.off) n (omega (arith, w.is_int)) h

  pub unchanged :
      {A : Type 0} (rc : ℕ) (v : A) {o : Outcome (A × BuffStruct)}
      → o ≡ returns rc (v, priv)
      → Returned priv o
  unchanged rc v e = record {
    rc = rc;
    result = v;
    next = priv;
    returned = e;
    input = w;
    same_buffer = refl;
    forward = omega arith;
  }

  pub fetched :
      (n : ℕ) → n ≤ priv.len - priv.off → fetch priv n ≡ some (take n (drop priv.off w.mem))
  unfolding fetch load
  fetched n h =
      ground
        (arith, w.allocated, le→leb (priv.off + n) (length w.mem) (omega (arith, w.size, w.fits)))

  pub advanced :
      {A : Type 0} (n : ℕ) (v : A) {o : Outcome (A × BuffStruct)}
      → n ≤ priv.len - priv.off
      → o ≡ returns 0 (v, advance priv n)
      → Returned priv o
  advanced n v h e = record {
    rc = 0;
    result = v;
    next = advance priv n;
    returned = e;
    input = record {
      mem = w.mem;
      allocated = w.allocated;
      size = w.size;
      is_int = w.is_int;
      fits = omega (arith, w.fits);
    };
    same_buffer = refl;
    forward = omega arith;
  }

module _ (host : Host) where
  pub int-Returned :
      (v : ℕ) (priv : BuffStruct) → IsInput priv → Returned priv (ia_deserialize_int host (v, priv))
  unfolding ia_deserialize_int
  int-Returned v priv w = elim (Bool-cases (ltb (priv.len - priv.off) 4)) [
    | inl short ↦ unchanged priv w e2big v (rw (room_size priv w, short) refl)
    | inr enough ↦
        let fits : 4 ≤ priv.len - priv.off = ltb→le _ _ enough in
        advanced priv w 4 (ntohl host (value host (take 4 (drop priv.off w.mem)))) fits
          (rw (room_size priv w, enough) (rw (fetched priv w 4 fits) refl))
  ]

  pub ia_deserialize_int-Safe : IsUsable host → Safe (ia_deserialize_int host)
  ia_deserialize_int-Safe k = record { run = int-Returned }

  pub ia_deserialize_long-Safe : IsUsable host → Safe (ia_deserialize_long host)
  unfolding ia_deserialize_long
  ia_deserialize_long-Safe k = record {
    run = λ v priv w. elim (Bool-cases (ltb (priv.len - priv.off) 8)) [
      | inl short ↦ unchanged priv w e2big v (rw (room_size priv w, short) refl)
      | inr enough ↦
          let fits : 8 ≤ priv.len - priv.off = ltb→le _ _ enough in
          advanced priv w 8 (htonll host (value host (take 8 (drop priv.off w.mem)))) fits
            (rw (room_size priv w, enough) (rw (fetched priv w 8 fits) refl))
    ];
  }

  pub ia_deserialize_bool-Safe : IsUsable host → Safe (ia_deserialize_bool host)
  unfolding ia_deserialize_bool
  ia_deserialize_bool-Safe k = record {
    run = λ v priv w. elim (Bool-cases (ltb (priv.len - priv.off) 1)) [
      | inl short ↦ unchanged priv w e2big v (rw (room_int priv w 1 (omega arith), short) refl)
      | inr enough ↦
          let fits : 1 ≤ priv.len - priv.off = ltb→le _ _ enough in
          advanced priv w 1 (char_to_int (get_or (take 1 (drop priv.off w.mem)) 0 0)) fits
            (rw (room_int priv w 1 (omega arith), enough) (rw (fetched priv w 1 fits) refl))
    ];
  }
