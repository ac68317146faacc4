-- ===== src/Util/Decimal.antt =====
-- util.c: `ll2string` prints the decimal digits of a number.
use zkclient.Prelude.{
  ℕ, zero, suc, ◌+◌, ◌-◌, ◌*◌, ◌/◌, ◌%◌, ◌≤◌, ◌<◌, ◌^◌, ◌≡◌, refl, sym, ap, ap₂, ◌∙◌, some, inl,
  inr, Bool-cases, List, [], ◌∷◌, ◌++◌, length, replicate, drop, All, ltb, le→leb, le→ltb, lt→ltb,
  ltb→le, ltb→lt, length-append, length-replicate, append_assoc, take-append_length,
  drop-append_length, if◌then◌else◌, arith,
}
use zkclient.CInt.{int_sub}
use zkclient.Outcome.{returns}
use zkclient.Host.{Host, malloc, store}
use zkclient.Archive.Loads.{IsGenerous}
use zkclient.Util.Digits.{
  long_max, is_positive, count_loop, digit_loop, add_nul, write_digits, print_digits, ll2string,
}
use native.Mathlib.Nat.{pow-suc, pow-zero}

-- `ds` are the `n + 1` decimal digits of the positive number `v`, as characters.
abbrev pub IsDecimal : ℕ → ℕ → List ℕ → Type 0
IsDecimal zero v ds = (0 < v) × (v < 10) × (ds ≡ (v + b'0') ∷ [])
IsDecimal (suc n) v ds =
    (10 ≤ v) × (front : List ℕ) × IsDecimal n (v / 10) front × (ds ≡ front ++ (v % 10 + b'0') ∷ [])

-- The number that a text of digits denotes, behind `acc`.
abbrev pub number_from : ℕ → List ℕ → ℕ
number_from acc [] = acc
number_from acc (d ∷ ds) = number_from (acc * 10 + (d - b'0')) ds

number_from-append :
    (acc : ℕ) (ds es : List ℕ) → number_from acc (ds ++ es) ≡ number_from (number_from acc ds) es
number_from-append acc [] es = refl
number_from-append acc (d ∷ ds) es = number_from-append (acc * 10 + (d - b'0')) ds es

pub number-IsDecimal : (n v : ℕ) (ds : List ℕ) → IsDecimal n v ds → number_from 0 ds ≡ v
number-IsDecimal zero v ds (h, l, e) = ap (number_from 0) e ∙ omega arith
number-IsDecimal (suc n) v ds (h, front, k, e) =
    ap (number_from 0) e
    ∙ number_from-append 0 front _
    ∙ omega (arith, number-IsDecimal n (v / 10) front k)

pub length-IsDecimal : (n v : ℕ) (ds : List ℕ) → IsDecimal n v ds → length ds ≡ suc n
length-IsDecimal zero v ds (h, l, e) = ap length e
length-IsDecimal (suc n) v ds (h, front, k, e) =
    ap length e
    ∙ omega (arith, length-append front ((v % 10 + b'0') ∷ []), length-IsDecimal n (v / 10) front k)

abbrev pub IsDigit : ℕ → Type 0
IsDigit d = (b'0' ≤ d) × (d ≤ b'9')

All-IsDigit : (xs : List ℕ) (d : ℕ) → All IsDigit xs → IsDigit d → All IsDigit (xs ++ d ∷ [])
All-IsDigit [] d h k = (k, tt)
All-IsDigit (x ∷ xs) d h k = (h.0, All-IsDigit xs d h.1 k)

pub IsDecimal-IsDigit : (n v : ℕ) (ds : List ℕ) → IsDecimal n v ds → All IsDigit ds
IsDecimal-IsDigit zero v ds (h, l, e) = rw e ((omega arith, omega arith), tt)
IsDecimal-IsDigit (suc n) v ds (h, front, k, e) =
    rw e (All-IsDigit front _ (IsDecimal-IsDigit n (v / 10) front k) (omega arith, omega arith))

decimal : (n v : ℕ) → 0 < v → v < 10 * 10 ^ n → (k : ℕ) × (ds : List ℕ) × IsDecimal k v ds × (k ≤ n)
decimal zero v h l = (0, (v + b'0') ∷ [], (h, omega (arith, pow-zero 10), refl), omega arith)
decimal (suc n) v h l = elim (Bool-cases (ltb v 10)) [
  | inl small ↦ (0, (v + b'0') ∷ [], (h, ltb→lt v 10 small, refl), omega arith)
  | inr big ↦
      let ten : 10 ≤ v = ltb→le v 10 big in
      let (k, ds, d, le) = decimal n (v / 10) (omega arith) (omega (arith, pow-suc 10 n)) in
      (suc k, ds ++ (v % 10 + b'0') ∷ [], (ten, ds, d, refl), omega arith)
]

count_loop_lem :
    (n v : ℕ) (ds : List ℕ) (fuel len : ℕ)
    → IsDecimal n v ds
    → n < fuel
    → count_loop fuel v len ≡ some (len + n)
unfolding count_loop
count_loop_lem n v ds zero len h l = absurd (omega arith)
count_loop_lem zero v ds (suc fuel) len (h, small, e) l =
    rw (le→ltb 0 (v / 10) (omega arith)) (ap some (omega arith))
count_loop_lem (suc n) v ds (suc fuel) len (h, front, k, e) l =
    rw (lt→ltb 0 (v / 10) (omega arith))
      (count_loop_lem n (v / 10) front fuel (len + 1) k (omega arith) ∙ ap some (omega arith))

replicate-snoc : (n x : ℕ) → replicate (suc n) x ≡ replicate n x ++ x ∷ []
replicate-snoc zero x = refl
replicate-snoc (suc n) x = ap (λ t. x ∷ t) (replicate-snoc n x)

store_middle :
    (pre : List ℕ) (x y : ℕ) (rest : List ℕ) (n : ℕ)
    → length pre ≡ n
    → store (pre ++ x ∷ rest) n (y ∷ []) ≡ some (pre ++ y ∷ rest)
unfolding store
store_middle pre x y rest n e =
    rw (le→leb (n + 1) (length (pre ++ x ∷ rest)) (omega (arith, length-append pre (x ∷ rest)))) (
      ap some (
        ap₂ (λ f t. f ++ y ∷ [] ++ t) (take-append_length n pre (x ∷ rest) e)
          (ap (drop (n + 1)) (sym (append_assoc pre (x ∷ []) rest))
            ∙ drop-append_length (n + 1) (pre ++ x ∷ []) rest
                (omega (arith, length-append pre (x ∷ []))))
        ∙ append_assoc pre (y ∷ []) rest))

-- The loop writes the digits from the last to the first, in front of `back`.
digit_loop_lem :
    (n v : ℕ) (ds : List ℕ) (fuel junk : ℕ) (back : List ℕ)
    → IsDecimal n v ds
    → suc n < fuel
    → n < 2147483648
    → digit_loop fuel n v (replicate (suc n) junk ++ back) ≡ some (ds ++ back)
unfolding digit_loop
digit_loop_lem n v ds zero junk back d l i = absurd (omega arith)
digit_loop_lem zero v ds (suc zero) junk back (h, small, e) l i = absurd (omega arith)
digit_loop_lem zero v ds (suc (suc fuel)) junk back (h, small, e) l i = rw (lt→ltb 0 v h) (
    rw (store_middle [] junk (v % 10 + b'0') back 0 refl, digit_loop)
      (rw (le→ltb 0 (v / 10) (omega arith))
        (ap some (ap₂ (λ x t. x ∷ t) (omega arith) refl ∙ ap (λ t. t ++ back) (sym e)))))
digit_loop_lem (suc n) v ds (suc fuel) junk back (h, front, k, e) l i =
    rw (lt→ltb 0 v (omega arith)) (
      rw
        (
          ap (λ t. store (t ++ back) (suc n) ((v % 10 + b'0') ∷ [])) (replicate-snoc (suc n) junk)
              ∙ ap (λ t. store t (suc n) ((v % 10 + b'0') ∷ []))
                  (append_assoc (replicate (suc n) junk) (junk ∷ []) back)
              ∙ store_middle (replicate (suc n) junk) junk (v % 10 + b'0') back (suc n)
                  (length-replicate (suc n) junk),
          digit_loop,
        )
        (ap (λ j. digit_loop fuel j (v / 10) (replicate (suc n) junk ++ (v % 10 + b'0') ∷ back))
            previous
          ∙ digit_loop_lem n (v / 10) front fuel junk ((v % 10 + b'0') ∷ back) k (omega arith)
              (omega arith)
          ∙ ap some
              (sym (append_assoc front ((v % 10 + b'0') ∷ []) back) ∙ ap (λ t. t ++ back) (sym e))))
  where
    previous : int_sub (suc n) 1 ≡ n
    previous = omega arith

-- The text that `ll2string` returns for `v`: digits that denote it, as many as needed, and a NUL.
pub record Printed (host : Host) (v : ℕ) : Type 0 where
  pub digits : List ℕ
  pub returned : ll2string host v ≡ returns 0 (some (digits ++ 0 ∷ []))
  pub decimal_digits : All IsDigit digits
  pub denotes : number_from 0 digits ≡ v
  pub at_most : length digits ≤ 19

-- For a positive `long long` and an allocator that answers, `ll2string` returns a text of at most 19
-- decimal digits that denote the number, and a NUL behind them.
pub ll2string-Printed :
    (host : Host) (v : ℕ) → IsGenerous host → 0 < v → v ≤ long_max → Printed host v
unfolding ll2string print_digits write_digits add_nul
ll2string-Printed host v g h l =
    let (n, ds, d, le) = decimal 18 v h (omega arith) in
    record {
      digits = ds;
      returned =
          ap (print_digits host v) (counted n ds d (omega arith))
          ∙ ap (write_digits v (2 + n)) (granted n (omega arith))
          ∙ ap (add_nul (2 + n)) (written n ds d (omega arith))
          ∙ ended n ds d;
      decimal_digits = IsDecimal-IsDigit n v ds d;
      denotes = number-IsDecimal n v ds d;
      at_most = omega (arith, length-IsDecimal n v ds d);
    }
  where
    counted :
        (n : ℕ) (ds : List ℕ)
        → IsDecimal n v ds
        → n ≤ 18
        → (if ltb long_max v then some 2 else count_loop 20 v 2) ≡ some (2 + n)
    counted n ds d small = rw (le→ltb long_max v l) (count_loop_lem n v ds 20 2 d (omega arith))

    granted : (n : ℕ) → n ≤ 18 → malloc host (2 + n) ≡ some (replicate (2 + n) host.junk)
    granted n small = unfold malloc in rw (g (2 + n) (omega arith)) refl

    at_index :
        (n : ℕ) (ds : List ℕ)
        → IsDecimal n v ds
        → n ≤ 18
        → digit_loop 21 (2 + n - 2) v (replicate (2 + n) host.junk) ≡ some (ds ++ host.junk ∷ [])
    at_index n ds d small =
        let at : 2 + n - 2 ≡ n = omega arith in
        let size : 2 + n ≡ suc (suc n) = omega arith in
        ap₂ (λ j t. digit_loop 21 j v t) at
          (ap (λ k. replicate k host.junk) size ∙ replicate-snoc (suc n) host.junk)
        ∙ digit_loop_lem n v ds 21 host.junk (host.junk ∷ []) d (omega arith) (omega arith)

    written :
        (n : ℕ) (ds : List ℕ)
        → IsDecimal n v ds
        → n ≤ 18
        → (if is_positive v
            then digit_loop 21 (2 + n - 2) v (replicate (2 + n) host.junk)
            else some (replicate (2 + n) host.junk))
          ≡ some (ds ++ host.junk ∷ [])
    written n ds d small = rw (le→ltb long_max v l, lt→ltb 0 v h) (at_index n ds d small)

    placed :
        (n : ℕ) (ds : List ℕ)
        → IsDecimal n v ds
        → store (ds ++ host.junk ∷ []) (2 + n - 1) (0 ∷ []) ≡ some (ds ++ 0 ∷ [])
    placed n ds d =
        store_middle ds host.junk 0 [] (2 + n - 1) (omega (arith, length-IsDecimal n v ds d))

    ended :
        (n : ℕ) (ds : List ℕ)
        → IsDecimal n v ds
        → add_nul (2 + n) (some (ds ++ host.junk ∷ [])) ≡ returns 0 (some (ds ++ 0 ∷ []))
    ended n ds d = rw (placed n ds d, add_nul) refl
