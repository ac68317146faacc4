-- ===== src/Archive/Growth.antt =====
-- recordio.c: how the output buffer grows, and what holds of it between two calls.
use zkclient.Prelude.{
  ℕ, zero, suc, ◌*◌, ◌^◌, ◌≤◌, ◌<◌, ◌≡◌, refl, ◌⊎◌, inl, inr, some, ltb, ltb→lt, ltb→le, lt→ltb,
  le→ltb, ap, ◌∙◌, Bool-cases, arith,
}
use zkclient.CInt.{int_max, int_lt-natural}
use zkclient.Archive.Output.{resize_loop}
use native.Mathlib.Nat.{pow-suc, pow-zero}

-- What the doubling loop finds: a length that is enough, and less than twice what was asked for
-- unless it is the old length.
pub record Grown (len newlen : ℕ) : Type 0 where
  pub size : ℕ
  pub enough : newlen ≤ size
  pub keeps : len ≤ size
  pub is_int : size ≤ int_max
  pub tight : (size ≡ len) ⊎ (size < 2 * newlen)

resize_loop_stop :
    (k len newlen : ℕ) → len ≤ int_max → newlen ≤ len → resize_loop (suc k) len newlen ≡ some len
unfolding resize_loop
resize_loop_stop k len newlen hi h =
    rw (int_lt-natural len newlen hi (omega arith), le→ltb len newlen h) refl

resize_loop_next :
    (k len newlen : ℕ)
    → len < newlen
    → newlen ≤ 1073741824
    → resize_loop (suc k) len newlen ≡ resize_loop k (2 * len) newlen
unfolding resize_loop
resize_loop_next k len newlen h hn =
    rw (int_lt-natural len newlen (omega arith) (omega arith), lt→ltb len newlen h)
      (rw (le→ltb int_max (2 * len) (omega arith)) refl)

-- From a positive length the doubling loop ends within its fuel, without overflow, whenever at most
-- 2 ^ 30 bytes are asked for.
pub resize_loop-ends :
    (k len newlen : ℕ)
    → 1 ≤ len
    → len ≤ int_max
    → newlen ≤ 1073741824
    → newlen ≤ len * 2 ^ k
    → (g : Grown len newlen) × (resize_loop (suc k) len newlen ≡ some g.size)
resize_loop-ends zero len newlen h hi hn hk =
    let fits : newlen ≤ len = omega (arith, pow-zero 2) in
    (
      record { size = len; enough = fits; keeps = omega arith; is_int = hi; tight = inl refl },
      resize_loop_stop zero len newlen hi fits,
    )
resize_loop-ends (suc k) len newlen h hi hn hk = elim (Bool-cases (ltb len newlen)) [
  | inr stop ↦
      let fits : newlen ≤ len = ltb→le len newlen stop in
      (
        record { size = len; enough = fits; keeps = omega arith; is_int = hi; tight = inl refl },
        resize_loop_stop (suc k) len newlen hi fits,
      )
  | inl more ↦
      let small : len < newlen = ltb→lt len newlen more in
      let twice : newlen ≤ 2 * len * 2 ^ k =
        omega (arith, hk, ap (λ (p : ℕ). len * p) (pow-suc 2 k)) in
      let (g, e) = resize_loop-ends k (2 * len) newlen (omega arith) (omega arith) hn twice in
      (
        record {
          size = g.size;
          enough = g.enough;
          keeps = omega (arith, g.keeps);
          is_int = g.is_int;
          tight = inr (doubled g.tight small);
        },
        resize_loop_next (suc k) len newlen small hn ∙ e,
      )
]
  where
    doubled : {size : ℕ} → (size ≡ 2 * len) ⊎ (size < 2 * newlen) → len < newlen → size < 2 * newlen
    doubled (inl e) s = omega arith
    doubled (inr l) s = l
