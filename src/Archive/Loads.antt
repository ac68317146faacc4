-- ===== src/Archive/Loads.antt =====
-- recordio.c: each function of the input archive reads back the wire form of a value, and leaves
-- what follows it in the archive.
use zkclient.Prelude.{
  ℕ, zero, suc, ◌+◌, ◌-◌, ◌≤◌, ◌<◌, ◌≡◌, refl, sym, ap, ◌∙◌, true, some, List, [], ◌∷◌, ◌++◌,
  length, take, drop, ltb, length-append, length-drop, le→leb, le→ltb, lt→ltb, take-append_length,
  drop-append_length, drop-drop, arith,
}
use zkclient.CInt.{
  int_max, int_lt, int_sub, to_size, to_size-natural, int_sub-natural, int_lt-natural,
}
use zkclient.Outcome.{Outcome, returns}
use zkclient.Host.{Host, load, big_endian}
use zkclient.Host.Bytes.{length-big_endian, ntohl-value-big_endian, htonll-value-big_endian}
use zkclient.Archive.{BuffStruct}
use zkclient.Archive.Wire.{wire_int, wire_long, wire_bool, IsInt, IsLong, IsBool}
use zkclient.Archive.Input.{
  Load, fetch, advance, ia_deserialize_int, ia_deserialize_long, ia_deserialize_bool,
}

-- The bytes `bs` are what the archive still has to read.
pub record Remains (priv : BuffStruct) (bs : List ℕ) : Type 0 where
  pub mem : List ℕ
  pub allocated : priv.buffer ≡ some mem
  pub size : length mem ≡ priv.len
  pub is_int : priv.len ≤ int_max
  pub fits : priv.off ≤ priv.len
  pub ahead : drop priv.off mem ≡ bs

-- The call returns 0, has written `x`, and leaves `rest` to read.
pub record Reads {ℓ} {A : Type ℓ} (o : Outcome (A × BuffStruct)) (x : A) (rest : List ℕ)
    : Type ℓ where
  pub next : BuffStruct
  pub returned : o ≡ returns 0 (x, next)
  pub remains : Remains next rest

-- Wherever the bytes `bs` stand next in an archive, `m` takes them and turns `a` into `x`.
pub record Loads {ℓ} {A : Type ℓ} (m : Load A) (bs : List ℕ) (a x : A) : Type ℓ where
  pub run :
      (priv : BuffStruct) (rest : List ℕ) → Remains priv (bs ++ rest) → Reads (m (a, priv)) x rest

-- The allocator finds every length that an `int` and a terminator ask for.
abbrev pub IsGenerous : Host → Type 0
IsGenerous host = (n : ℕ) → n ≤ 2147483648 → host.grants n ≡ true

module _ {priv : BuffStruct} {bs : List ℕ} (r : Remains priv bs) where
  pub Remains-length : priv.len - priv.off ≡ length bs
  Remains-length = omega (arith, length-drop priv.off r.mem, r.size, ap length r.ahead)

  pub Remains-room : int_sub priv.len priv.off ≡ length bs
  Remains-room = int_sub-natural priv.len priv.off r.fits r.is_int ∙ Remains-length

  pub Remains-size : to_size (int_sub priv.len priv.off) ≡ length bs
  Remains-size =
      ap to_size Remains-room
      ∙ to_size-natural (length bs) (omega (arith, Remains-length, r.is_int))

  pub Remains-int_lt :
      (n : ℕ) → n ≤ int_max → int_lt (int_sub priv.len priv.off) n ≡ ltb (length bs) n
  Remains-int_lt n h =
      ap (λ k. int_lt k n) Remains-room
      ∙ int_lt-natural (length bs) n (omega (arith, Remains-length, r.is_int)) h

module _ (priv : BuffStruct) (bs rest : List ℕ) (n : ℕ) (e : length bs ≡ n)
    (r : Remains priv (bs ++ rest)) where
  pub enough : n ≤ length (bs ++ rest)
  enough = omega (arith, length-append bs rest, e)

  pub fetch_lem : fetch priv n ≡ some bs
  unfolding fetch load
  fetch_lem = ground (arith, r.allocated, le→leb (priv.off + n) (length r.mem) inside, front)
    where
      inside : priv.off + n ≤ length r.mem
      inside = omega (arith, enough, Remains-length r, r.size, r.fits)

      front : take n (drop priv.off r.mem) ≡ bs
      front = ap (take n) r.ahead ∙ take-append_length n bs rest e

  pub advance-Remains : Remains (advance priv n) rest
  advance-Remains = record {
    mem = r.mem;
    allocated = r.allocated;
    size = r.size;
    is_int = r.is_int;
    fits = omega (arith, enough, Remains-length r, r.fits);
    ahead = sym (drop-drop priv.off n r.mem) ∙ ap (drop n) r.ahead ∙ drop-append_length n bs rest e;
  }

module _ (host : Host) where
  pub ia_deserialize_int-Loads :
      (d a : ℕ) → IsInt d → Loads (ia_deserialize_int host) (wire_int d) a d
  unfolding wire_int ia_deserialize_int
  ia_deserialize_int-Loads d a h = record {
    run = λ priv rest r.
        let four : length (big_endian 4 d) ≡ 4 = length-big_endian 4 d in
        record {
          next = advance priv 4;
          returned =
              rw (Remains-size r, le→ltb _ _ (enough priv _ rest 4 four r))
                (rw (fetch_lem priv _ rest 4 four r) (rw (ntohl-value-big_endian host d h) refl));
          remains = advance-Remains priv _ rest 4 four r;
        };
  }

  pub ia_deserialize_long-Loads :
      (d a : ℕ) → IsLong d → Loads (ia_deserialize_long host) (wire_long d) a d
  unfolding wire_long ia_deserialize_long
  ia_deserialize_long-Loads d a h = record {
    run = λ priv rest r.
        let all : length (big_endian 8 d) ≡ 8 = length-big_endian 8 d in
        record {
          next = advance priv 8;
          returned =
              rw (Remains-size r, le→ltb _ _ (enough priv _ rest 8 all r))
                (rw (fetch_lem priv _ rest 8 all r) (rw (htonll-value-big_endian host d h) refl));
          remains = advance-Remains priv _ rest 8 all r;
        };
  }

  byte-Loads : (b a : ℕ) → b < 128 → Loads (ia_deserialize_bool host) (b ∷ []) a b
  unfolding ia_deserialize_bool
  byte-Loads b a h = record {
    run = λ priv rest r. record {
      next = advance priv 1;
      returned =
          rw (Remains-int_lt r 1 (omega arith), le→ltb _ _ (enough priv (b ∷ []) rest 1 refl r))
            (rw (fetch_lem priv (b ∷ []) rest 1 refl r) (rw (lt→ltb b 128 h) refl));
      remains = advance-Remains priv (b ∷ []) rest 1 refl r;
    };
  }

  pub ia_deserialize_bool-Loads :
      (i a : ℕ) → IsBool i → Loads (ia_deserialize_bool host) (wire_bool i) a i
  unfolding wire_bool
  ia_deserialize_bool-Loads zero a h = byte-Loads 0 a (omega arith)
  ia_deserialize_bool-Loads (suc zero) a h = byte-Loads 1 a (omega arith)
  ia_deserialize_bool-Loads (suc (suc i)) a h = absurd (omega arith)
