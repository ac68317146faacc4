-- ===== src/CInt.antt =====
-- The C types `int`, `int32_t`, `int64_t` and `size_t` of the sources, as bit patterns: a value of
-- a 32-bit type is a number below 2 ^ 32, in two's complement, so -1 is 2 ^ 32 - 1.
use zkclient.Prelude.{
  ℕ, ◌+◌, ◌-◌, ◌%◌, ◌≤◌, ◌≡◌, Bool, ◌&&◌, ◌||◌, not, Option, none, some, ltb, if◌then◌else◌, arith,
}

-- Numbers, not powers, so that they are compared at once.
abbrev pub int32_mod : ℕ
int32_mod = 4294967296

abbrev pub int_max : ℕ
int_max = 2147483647

abbrev pub size_mod : ℕ
size_mod = 18446744073709551616

-- The pattern of -n.
abbrev pub minus : ℕ → ℕ
minus n = int32_mod - n

abbrev pub is_negative : ℕ → Bool
is_negative w = ltb int_max w

-- `a < b` between two `int`s: the order of the patterns with the sign bit flipped.
abbrev pub int_lt : ℕ → ℕ → Bool
int_lt a b = ltb ((a + 2147483648) % 4294967296) ((b + 2147483648) % 4294967296)

-- `a - b` on `int`s whose difference is an `int`.
abbrev pub int_sub : ℕ → ℕ → ℕ
int_sub a b = (a + 4294967296 - b) % 4294967296

-- `a + b` on `int`s; signed overflow is undefined.
abbrev pub int_add : ℕ → ℕ → Option ℕ
int_add a b =
    let sum = (a + b) % 4294967296 in
    if is_negative a && is_negative b && not (is_negative sum)
    then none
    else if not (is_negative a || is_negative b) && is_negative sum
    then none
    else some sum

-- An `int` converted to `size_t`: the sign is extended to 64 bits.
abbrev pub to_size : ℕ → ℕ
to_size w = if is_negative w then w + (size_mod - int32_mod) else w

-- The lines below read these tests at numbers that are no negative `int`s.
pub int_lt-natural : (a b : ℕ) → a ≤ int_max → b ≤ int_max → int_lt a b ≡ ltb a b
int_lt-natural a b ha hb = ground arith

pub int_sub-natural : (a b : ℕ) → b ≤ a → a ≤ int_max → int_sub a b ≡ a - b
int_sub-natural a b h ha = omega arith

pub int_add-natural : (a b : ℕ) → a + b ≤ int_max → int_add a b ≡ some (a + b)
int_add-natural a b h = ground arith

pub to_size-natural : (a : ℕ) → a ≤ int_max → to_size a ≡ a
to_size-natural a h = ground arith
