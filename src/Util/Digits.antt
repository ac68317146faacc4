-- ===== src/Util/Digits.antt =====
-- util.c: `ll2string`, which prints a positive number. A `long long` is a number below 2 ^ 64; a
-- negative one, and 0, leaves the loops at once, and the first byte of the two is not written.
use zkclient.Prelude.{
  false, ℕ, zero, suc, ◌+◌, ◌-◌, ◌/◌, ◌%◌, Option, none, some, Bool, List, [], ◌∷◌, ltb,
  if◌then◌else◌,
}
use zkclient.CInt.{int_sub}
use zkclient.Outcome.{Outcome, returns, undefined}
use zkclient.Host.{Host, malloc, store}

abbrev pub long_max : ℕ
long_max = 9223372036854775807

-- `v > 0` on a `long long`.
abbrev pub is_positive : ℕ → Bool
is_positive v = if ltb long_max v then false else ltb 0 v

-- `while ((tmp /= 10) > 0) len++;`, for a `tmp` that is not negative. A negative one gives no positive
-- quotient. The number of rounds is that of the digits, 19 at most.
unfoldable pub count_loop : ℕ → ℕ → ℕ → Option ℕ
count_loop zero tmp len = none
count_loop (suc fuel) tmp len =
    let next = count_loop fuel (tmp / 10) (len + 1) in if ltb 0 (tmp / 10) then next else some len

-- The index `i` is an `int`, which is -1 after the last digit. `while (v > 0) { buf[i--] = v % 10 + '0'; v /= 10; }`.
unfoldable pub digit_loop : ℕ → ℕ → ℕ → List ℕ → Option (List ℕ)
digit_loop zero i v buf = none
digit_loop (suc fuel) i v buf =
    let next : Option (List ℕ) = elim (store buf i ((v % 10 + b'0') ∷ [])) [
      | none ↦ none
      | some buf' ↦ digit_loop fuel (int_sub i 1) (v / 10) buf'
    ] in
    if ltb 0 v then next else some buf

-- `buf[len - 1] = '\0'` and the return.
unfoldable pub add_nul : ℕ → Option (List ℕ) → Outcome (Option (List ℕ))
add_nul len none = undefined
add_nul len (some buf) = elim (store buf (len - 1) (0 ∷ [])) [
  | none ↦ undefined
  | some text ↦ returns 0 (some text)
]

-- What follows `malloc`. `none` is `exit(1)` after a refused request.
unfoldable pub write_digits : ℕ → ℕ → Option (List ℕ) → Outcome (Option (List ℕ))
write_digits v len none = returns 0 none
write_digits v len (some buf) =
    add_nul len (if is_positive v then digit_loop 21 (len - 2) v buf else some buf)

unfoldable pub print_digits : Host → ℕ → Option ℕ → Outcome (Option (List ℕ))
print_digits host v none = undefined
print_digits host v (some len) = write_digits v len (malloc host len)

unfoldable pub ll2string : Host → ℕ → Outcome (Option (List ℕ))
ll2string host v = print_digits host v (if ltb long_max v then some 2 else count_loop 20 v 2)
