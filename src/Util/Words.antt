-- ===== src/Util/Words.antt =====
-- util.c: `sdssplitlen` with a separator of one byte, as the client calls it.
use zkclient.Prelude.{
  ℕ, zero, suc, ◌+◌, ◌-◌, ◌*◌, ◌≤◌, ◌<◌, ◌≡◌, ◌≢◌, refl, sym, ap, ap₂, ◌∙◌, inl, inr, Bool-cases,
  some, List, [], ◌∷◌, ◌++◌, length, take, drop, ltb, lt→ltb, le→ltb, le→leb, ne→==, ==-refl, ◌==◌,
  length-append, append_assoc, append-nil, take-append_length, drop-append_length, if◌then◌else◌,
  arith,
}
use zkclient.Outcome.{returns}
use zkclient.Host.{Host, load}
use zkclient.Archive.Loads.{IsGenerous}
use zkclient.Util.Split.{
  same_bytes, Splitting, add_token, split_at, make_room, split_end, split_round, split_loop,
}

-- A word that was read, if it has a character.
abbrev pub flush : List ℕ → List (List ℕ)
flush [] = []
flush (x ∷ xs) = (x ∷ xs) ∷ []

-- The words of a text between separators `c`, behind the part `word` of one.
abbrev pub words_from : ℕ → List ℕ → List ℕ → List (List ℕ)
words_from c word [] = flush word
words_from c word (x ∷ xs) =
    let inside = words_from c (word ++ x ∷ []) xs in
    let outside = words_from c [] xs in if x == c then flush word ++ outside else inside

-- The words of a text: its longest pieces without a `c` that are not empty.
abbrev pub words : ℕ → List ℕ → List (List ℕ)
words c s = words_from c [] s

load_middle :
    (pre mid rest : List ℕ) → load (pre ++ mid ++ rest) (length pre) (length mid) ≡ some mid
unfolding load
load_middle pre mid rest =
    rw
      (le→leb (length pre + length mid) (length (pre ++ mid ++ rest))
        (omega (arith, length-append (pre ++ mid) rest, length-append pre mid)))
      (ap some (
        ap (take (length mid)) (
          ap (drop (length pre)) (append_assoc pre mid rest)
          ∙ drop-append_length (length pre) pre (mid ++ rest) refl)
        ∙ take-append_length (length mid) mid rest refl))

-- The text is `pre`, the part `cur` of a word and `rest`; what is added is the word `cur`.
module _ (host : Host) (g : IsGenerous host) (s pre cur rest : List ℕ) (e : s ≡ pre ++ cur ++ rest)
    (small : length s ≤ 67108864) where
  pub sizes : length s ≡ length pre + length cur + length rest
  sizes = ap length e ∙ omega (arith, length-append (pre ++ cur) rest, length-append pre cur)

  add_token_lem :
      (n : ℕ) (tokens : List (List ℕ))
      → n ≡ length cur
      → add_token host s (length pre) n tokens ≡ some (tokens ++ cur ∷ [])
  unfolding add_token
  add_token_lem n tokens same =
      rw (g (n + 1) (omega (arith, sizes, same)))
        (rw (ap₂ (λ t k. load t (length pre) k) e same ∙ load_middle pre cur rest, add_token) refl)

pub make_room_lem :
    (host : Host) (start slots : ℕ) (tokens : List (List ℕ))
    → IsGenerous host
    → length tokens ≤ 67108864
    → (slots' : ℕ) × (make_room host (record { start = start; slots = slots; tokens = tokens })
        ≡ some (record { start = start; slots = slots'; tokens = tokens }))
unfolding make_room
make_room_lem host start slots tokens g h = elim (Bool-cases (ltb slots (length tokens + 2))) [
  | inl more ↦ (2 * slots, rw more (rw (g (8 * (2 * slots)) (ground arith)) refl))
  | inr enough ↦ (slots, rw enough refl)
]

pub split_end-flush :
    (host : Host) (g : IsGenerous host) (s pre cur : List ℕ) (slots : ℕ) (tokens : List (List ℕ))
    → s ≡ pre ++ cur ++ []
    → length s ≤ 67108864
    → split_end host s (length s) (record { start = length pre; slots = slots; tokens = tokens })
      ≡ returns 0 (some (tokens ++ flush cur))
unfolding split_end
split_end-flush host g s pre [] slots tokens e h =
    rw (le→ltb (length pre) (length s) (omega (arith, sizes host g s pre [] [] e h)))
      (ap (λ t. returns 0 (some t)) (sym (append-nil tokens)))
split_end-flush host g s pre (x ∷ xs) slots tokens e h =
    rw (lt→ltb (length pre) (length s) (omega (arith, sizes host g s pre (x ∷ xs) [] e h))) (
      rw
        (
          add_token_lem host g s pre (x ∷ xs) [] e h (length s - length pre) tokens
              (omega (arith, sizes host g s pre (x ∷ xs) [] e h)),
          split_end,
        )
        refl)

-- What `split_at` finds at the first byte of `rest`.
module _ (host : Host) (g : IsGenerous host) (c x : ℕ) (s pre cur rest : List ℕ)
    (e : s ≡ pre ++ cur ++ x ∷ rest) (small : length s ≤ 67108864) (slots : ℕ)
    (tokens : List (List ℕ)) where
  here : load s (length pre + length cur) 1 ≡ some (x ∷ [])
  here =
      ap₂ (λ t k. load t k 1) (e ∙ sym (append_assoc (pre ++ cur) (x ∷ []) rest))
        (sym (length-append pre cur))
      ∙ load_middle (pre ++ cur) (x ∷ []) rest

  pub split_at_other :
      x ≢ c
      → split_at host s
          (c ∷ [])
          1
          (length pre + length cur)
          (record { start = length pre; slots = slots; tokens = tokens })
        ≡ some
            (length pre + length cur, record { start = length pre; slots = slots; tokens = tokens })
  unfolding split_at same_bytes
  split_at_other other = rw (here, split_at) (rw (ne→== x c other) refl)

pub split_at_separator :
    (host : Host) (g : IsGenerous host) (c : ℕ) (s pre cur rest : List ℕ)
    (e : s ≡ pre ++ cur ++ c ∷ rest) (small : length s ≤ 67108864) (slots : ℕ)
    (tokens : List (List ℕ))
    → split_at host s
        (c ∷ [])
        1
        (length pre + length cur)
        (record { start = length pre; slots = slots; tokens = tokens })
      ≡ some (
        length pre + length cur + 1 - 1,
        record { start = length pre + length cur + 1; slots = slots; tokens = tokens ++ flush cur },
      )
unfolding split_at same_bytes
split_at_separator host g c s pre [] rest e small slots tokens =
    rw (here host g c c s pre [] rest e small slots tokens, split_at)
      (rw (==-refl c, le→ltb (length pre) (length pre + 0) (omega arith))
        (ap
          (λ t. some (
            length pre + 0 + 1 - 1,
            record { start = length pre + 0 + 1; slots = slots; tokens = t },
          ))
          (sym (append-nil tokens))))
split_at_separator host g c s pre (y ∷ ys) rest e small slots tokens =
    rw (here host g c c s pre (y ∷ ys) rest e small slots tokens, split_at)
      (rw (==-refl c, lt→ltb (length pre) (length pre + length (y ∷ ys)) (omega arith))
        (rw
          (
            add_token_lem host g s pre (y ∷ ys) (c ∷ rest) e small
                (length pre + length (y ∷ ys) - length pre) tokens (omega arith),
            split_at,
          )
          refl))

pub split_loop_stops :
    (host : Host) (s sep : List ℕ) (fuel j : ℕ) (st : Splitting)
    → length s ≤ j
    → split_loop host s (length s) sep 1 fuel j st ≡ split_end host s (length s) st
unfolding split_loop
split_loop_stops host s sep zero j st h = rw (le→ltb (j + (1 - 1)) (length s) (omega arith)) refl
split_loop_stops host s sep (suc fuel) j st h =
    rw (le→ltb (j + (1 - 1)) (length s) (omega arith)) refl

pub split_loop_goes_on :
    (host : Host) (s sep : List ℕ) (fuel j : ℕ) (st st' : Splitting) (j' : ℕ) (st'' : Splitting)
    → j < length s
    → make_room host st ≡ some st'
    → split_at host s sep 1 j st' ≡ some (j', st'')
    → split_loop host s (length s) sep 1 (suc fuel) j st
      ≡ split_loop host s (length s) sep 1 fuel (suc j') st''
unfolding split_loop split_round
split_loop_goes_on host s sep fuel j st st' j' st'' h e found =
    rw (lt→ltb (j + (1 - 1)) (length s) (omega arith))
      (rw (e, split_loop) (rw (found, split_round) refl))
