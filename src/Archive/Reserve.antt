-- ===== src/Archive/Reserve.antt =====
-- recordio.c: the two tests for room, and the copy behind them.
use zkclient.Prelude.{
  ℕ, zero, suc, ◌+◌, ◌-◌, ◌*◌, ◌%◌, ◌≤◌, ◌<◌, ◌≡◌, refl, sym, ap, ◌∙◌, inl, inr, true, false, none,
  some, List, [], ◌∷◌, ◌++◌, length, take, replicate, ltb, ltb→lt, ltb→le, Bool-cases, length-take,
  length-append, length-replicate, take-append, arith,
}
use zkclient.CInt.{
  int_max, int_lt, int_sub, to_size, int_lt-natural, int_sub-natural, int_add-natural,
  to_size-natural,
}
use zkclient.Outcome.{Outcome, returns}
use zkclient.Host.{Host, realloc}
use zkclient.Archive.{BuffStruct, enomem}
use zkclient.Archive.Growth.{resize_loop-ends}
use zkclient.Archive.Invariant.{held, written, IsArchive, capacity}
use zkclient.Archive.Output.{resize_loop, resize_buffer, reserve_size, reserve_int}

-- There is room for `n` bytes more, and nothing that was written is lost.
pub record Reserved (a : BuffStruct) (n : ℕ) (a' : BuffStruct) : Type 0 where
  pub mem : List ℕ
  pub allocated : a'.buffer ≡ some mem
  pub size : length mem ≡ a'.len
  pub room : a.off + n ≤ a'.len
  pub at_least : 128 ≤ a'.len
  pub is_int : a'.len ≤ int_max
  pub at_most : a'.len ≤ 128 + 4 * (a.off + n)
  pub keeps_off : a'.off ≡ a.off
  pub keeps_bytes : take a.off mem ≡ written a

pub data Reserves (host : Host) (a : BuffStruct) (n : ℕ) (o : Outcome BuffStruct) : Type 0 where
  reserved : (a' : BuffStruct) → o ≡ returns 0 a' → Reserved a n a' → Reserves host a n o
  refused :
      (a' : BuffStruct) (m : ℕ)
      → o ≡ returns enomem a'
      → m ≤ int_max
      → host.grants m ≡ false
      → Reserves host a n o

-- What `realloc` to a larger size returns.
length-grown :
    (mem : List ℕ) (n j : ℕ)
    → length mem ≤ n
    → length (take n (mem ++ replicate (n - length mem) j)) ≡ n
length-grown mem n j h = omega (
  arith,
  length-take n (mem ++ replicate (n - length mem) j),
  length-append mem (replicate (n - length mem) j),
  length-replicate (n - length mem) j,
)

take-take {ℓ} : {A : Type ℓ} (m n : ℕ) (xs : List A) → m ≤ n → take m (take n xs) ≡ take m xs
take-take zero n xs h = refl
take-take (suc m) zero xs h = absurd (omega arith)
take-take (suc m) (suc n) [] h = refl
take-take (suc m) (suc n) (x ∷ xs) h = ap (λ t. x ∷ t) (take-take m n xs (omega arith))

-- `resize_buffer` where the loop ends and the allocator answers.
resize_buffer_grants :
    (host : Host) (a : BuffStruct) (newlen : ℕ) {len : ℕ} {old : List ℕ}
    → resize_loop 32 a.len newlen ≡ some len
    → a.buffer ≡ some old
    → host.grants len ≡ true
    → resize_buffer host newlen a
      ≡ returns 0 (record a {
        len = len;
        buffer = some (take len (old ++ replicate (len - length old) host.junk));
      })
unfolding resize_buffer realloc
resize_buffer_grants host a newlen e b g = ground (arith, e, b, g)

resize_buffer_refuses :
    (host : Host) (a : BuffStruct) (newlen : ℕ) {len : ℕ} {old : List ℕ}
    → resize_loop 32 a.len newlen ≡ some len
    → a.buffer ≡ some old
    → host.grants len ≡ false
    → resize_buffer host newlen a ≡ returns enomem (record a { len = len; buffer = none })
unfolding resize_buffer realloc
resize_buffer_refuses host a newlen e b g = ground (arith, e, b, g)

module _ (host : Host) (a : BuffStruct) (w : IsArchive a) (n : ℕ)
    (fits : a.off + n ≤ capacity) where
  resize_buffer-Reserves : a.len < a.off + n → Reserves host a n (resize_buffer host (a.len + n) a)
  resize_buffer-Reserves tight =
      let (g, e) =
        resize_loop-ends 31 a.len (a.len + n) (omega (arith, w.at_least)) (omega (arith, w.fits))
          (omega (arith, w.fits)) (omega (arith, w.at_least)) in
      elim (Bool-cases (host.grants g.size)) [
        | inl granted ↦
            reserved _ (resize_buffer_grants host a (a.len + n) e w.allocated granted) (record {
              mem = take g.size (w.mem ++ replicate (g.size - length w.mem) host.junk);
              allocated = refl;
              size = length-grown w.mem g.size host.junk (omega (arith, w.size, g.keeps));
              room = omega (arith, g.enough, w.fits);
              at_least = omega (arith, w.at_least, g.keeps);
              is_int = g.is_int;
              at_most = omega (arith, g.tight, g.enough, w.fits);
              keeps_off = refl;
              keeps_bytes =
                  take-take a.off g.size _ (omega (arith, w.fits, g.keeps))
                  ∙ take-append a.off w.mem _ (omega (arith, w.fits, w.size))
                  ∙ sym (ap (λ b. take a.off (held b)) w.allocated);
            })
        | inr refusal ↦
            refused _ g.size (resize_buffer_refuses host a (a.len + n) e w.allocated refusal)
              g.is_int refusal
      ]

  reserve_nothing : a.off + n ≤ a.len → Reserved a n a
  reserve_nothing room = record {
    mem = w.mem;
    allocated = w.allocated;
    size = w.size;
    room = room;
    at_least = w.at_least;
    is_int = w.is_int;
    at_most = omega (arith, w.at_most);
    keeps_off = refl;
    keeps_bytes = sym (ap (λ b. take a.off (held b)) w.allocated);
  }

  pub reserve_size-Reserves : n ≤ int_max → Reserves host a n (reserve_size host n a)
  unfolding reserve_size
  reserve_size-Reserves hn = elim (Bool-cases (ltb (a.len - a.off) n)) [
    | inl lacks ↦
        rw (test, lacks) (rw sum (resize_buffer-Reserves (omega (arith, w.fits, ltb→lt _ _ lacks))))
    | inr enough ↦
        rw (test, enough)
          (reserved a refl (reserve_nothing (omega (arith, w.fits, ltb→le _ _ enough))))
  ]
    where
      test : ltb (to_size (int_sub a.len a.off)) n ≡ ltb (a.len - a.off) n
      test =
          ap (λ k. ltb k n)
            (ap to_size (int_sub-natural a.len a.off w.fits w.is_int)
              ∙ to_size-natural (a.len - a.off) (omega (arith, w.is_int)))

      sum : (a.len + n) % 4294967296 ≡ a.len + n
      sum = omega (arith, w.is_int)

  pub reserve_int-Reserves : n ≤ capacity → Reserves host a n (reserve_int host n a)
  unfolding reserve_int
  reserve_int-Reserves hn = elim (Bool-cases (ltb (a.len - a.off) n)) [
    | inl lacks ↦
        let tight : a.len < a.off + n = omega (arith, w.fits, ltb→lt _ _ lacks) in
        rw (test, lacks) (rw (int_add-natural a.len n (omega arith)) (resize_buffer-Reserves tight))
    | inr enough ↦
        rw (test, enough)
          (reserved a refl (reserve_nothing (omega (arith, w.fits, ltb→le _ _ enough))))
  ]
    where
      test : int_lt (int_sub a.len a.off) n ≡ ltb (a.len - a.off) n
      test =
          ap (λ k. int_lt k n) (int_sub-natural a.len a.off w.fits w.is_int)
          ∙ int_lt-natural (a.len - a.off) n (omega (arith, w.is_int)) (omega arith)
