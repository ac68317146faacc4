-- ===== src/Util/Split.antt =====
-- util.c: `sdssplitlen`, which splits a text at a separator and leaves out the empty pieces. It keeps
-- an array of pointers that doubles; what is modelled of it is its length, `slots`.
use zkclient.Prelude.{
  ℕ, zero, suc, ◌+◌, ◌-◌, ◌*◌, Bool, true, false, ◌&&◌, Option, none, some, List, [], ◌∷◌, ◌++◌,
  length, take, ltb, ◌==◌, if◌then◌else◌,
}
use zkclient.CInt.{is_negative, int_lt}
use zkclient.Outcome.{Outcome, returns, undefined}
use zkclient.Host.{Host, load}

-- `memcmp(a, b, n) == 0` on two ranges of `n` bytes.
unfoldable pub same_bytes : List ℕ → List ℕ → Bool
same_bytes [] [] = true
same_bytes (x ∷ xs) (y ∷ ys) = x == y && same_bytes xs ys
same_bytes _ _ = false

pub record Splitting : Type 0 where
  pub start : ℕ
  pub slots : ℕ
  pub tokens : List (List ℕ)

-- The tokens, or `none` for the null pointer after `cleanup`.
abbrev pub Tokens : Type 0
Tokens = Outcome (Option (List (List ℕ)))

-- The four lines from `tmp = malloc(n + 1)`: the copy goes through the pointer before it is tested.
unfoldable pub add_token : Host → List ℕ → ℕ → ℕ → List (List ℕ) → Option (List (List ℕ))
add_token host s start n tokens =
    if host.grants (n + 1)
    then elim (load s start n) [ none ↦ none | some tmp ↦ some (tokens ++ tmp ∷ []) ]
    else none

-- The search for the separator at `j`: the next `j`, before its increment, with the state.
unfoldable pub split_at : Host → List ℕ → List ℕ → ℕ → ℕ → Splitting → Option (ℕ × Splitting)
split_at host s sep seplen j st = elim (load s j seplen) [
  | none ↦ none
  | some here ↦
      let skipped = record st { start = j + seplen } in
      if same_bytes here (take seplen sep)
      then (if ltb st.start j
          then elim (add_token host s st.start (j - st.start) st.tokens) [
            | none ↦ none
            | some tokens ↦ some (j + seplen - 1, record skipped { tokens = tokens })
          ]
          else some (j + seplen - 1, skipped))
      else some (j, st)
]

-- Room for the next element and the final one; `none` is a refused `realloc`. There are at most `len`
-- elements, so the doubling does not overflow.
unfoldable pub make_room : Host → Splitting → Option Splitting
make_room host st =
    if ltb st.slots (length st.tokens + 2)
    then (if host.grants (8 * (2 * st.slots))
        then some (record st { slots = 2 * st.slots })
        else none)
    else some st

-- After the loop: the final element.
unfoldable pub split_end : Host → List ℕ → ℕ → Splitting → Tokens
split_end host s len st =
    if ltb st.start len
    then elim (add_token host s st.start (len - st.start) st.tokens) [
      | none ↦ undefined
      | some tokens ↦ returns 0 (some tokens)
    ]
    else returns 0 (some st.tokens)

-- One round of the loop, and what follows it.
unfoldable pub split_round : (ℕ → Splitting → Tokens) → Option (ℕ × Splitting) → Tokens
split_round rest none = undefined
split_round rest (some (j, st)) = rest (suc j) st

-- The loop from `j` on. It runs `len` rounds at most, which is its fuel. The test is
-- `j < len - (seplen - 1)`.
unfoldable pub split_loop : Host → List ℕ → ℕ → List ℕ → ℕ → ℕ → ℕ → Splitting → Tokens
split_loop host s len sep seplen zero j st =
    if ltb (j + (seplen - 1)) len then undefined else split_end host s len st
split_loop host s len sep seplen (suc fuel) j st =
    let next : Tokens = elim (make_room host st) [
      | none ↦ returns 0 none
      | some st' ↦
          split_round (split_loop host s len sep seplen fuel) (split_at host s sep seplen j st')
    ] in
    if ltb (j + (seplen - 1)) len then next else split_end host s len st

-- The tokens with what `count` points to. The array starts with five pointers.
unfoldable pub counted : ℕ → Tokens → Outcome (Option (List (List ℕ)) × ℕ)
counted count undefined = undefined
counted count (returns rc none) = returns rc (none, 0)
counted count (returns rc (some tokens)) = returns rc (some tokens, length tokens)

unfoldable pub sdssplitlen :
    Host → List ℕ → ℕ → List ℕ → ℕ → ℕ → Outcome (Option (List (List ℕ)) × ℕ)
sdssplitlen host s len sep seplen count =
    if int_lt seplen 1
    then returns 0 (none, count)
    else if is_negative len
    then returns 0 (none, count)
    else if host.grants 40
    then (if len == 0
        then returns 0 (some [], 0)
        else counted count
            (split_loop host s len sep seplen len 0 (record { start = 0; slots = 5; tokens = [] })))
    else returns 0 (none, count)
