-- ===== src/Util/Scan.antt =====
-- util.c: what `sdssplitlen` finds in a whole text.
use zkclient.Prelude.{
  ℕ, zero, suc, ◌+◌, ◌-◌, ◌≤◌, ◌≡◌, refl, sym, ap, ap₂, ◌∙◌, inl, inr, Bool-cases, some, List, [],
  ◌∷◌, ◌++◌, length, le→ltb, ne→==, ==→eq, ==-refl, ◌==◌, length-append, append_assoc, append-nil,
  arith,
}
use zkclient.Outcome.{returns}
use zkclient.Host.{Host}
use zkclient.Archive.Loads.{IsGenerous}
use zkclient.Util.Split.{split_loop, counted, sdssplitlen}
use zkclient.Util.Words.{
  flush, words_from, words, sizes, make_room_lem, split_end-flush, split_at_other,
  split_at_separator, split_loop_stops, split_loop_goes_on,
}

length-flush :
    (pre cur : List ℕ) (tokens : List (List ℕ))
    → length tokens ≤ length pre
    → length (tokens ++ flush cur) ≤ length (pre ++ cur)
length-flush pre [] tokens h = omega (arith, length-append tokens (flush []), length-append pre [])
length-flush pre (x ∷ xs) tokens h =
    omega (arith, length-append tokens (flush (x ∷ xs)), length-append pre (x ∷ xs))

-- The text is `pre`, the part `cur` of a word and `rest`, which the loop has still to read.
split_loop-words_from :
    (host : Host) (g : IsGenerous host) (c : ℕ) (s pre cur rest : List ℕ) (fuel slots : ℕ)
    (tokens : List (List ℕ))
    → s ≡ pre ++ cur ++ rest
    → length s ≤ 67108864
    → length rest ≤ fuel
    → length tokens ≤ length pre
    → split_loop host s
        (length s)
        (c ∷ [])
        1
        fuel
        (length pre + length cur)
        (record { start = length pre; slots = slots; tokens = tokens })
      ≡ returns 0 (some (tokens ++ words_from c cur rest))
split_loop-words_from host g c s pre cur [] fuel slots tokens e small enough few =
    split_loop_stops host s (c ∷ []) fuel (length pre + length cur) _
      (omega (arith, sizes host g s pre cur [] e small))
    ∙ split_end-flush host g s pre cur slots tokens e small
split_loop-words_from host g c s pre cur (x ∷ rest) zero slots tokens e small enough few =
    absurd (omega arith)
split_loop-words_from host g c s pre cur (x ∷ rest) (suc fuel) slots tokens e small enough few =
    let size = sizes host g s pre cur (x ∷ rest) e small in
    let (slots', roomy) = make_room_lem host (length pre) slots tokens g (omega (arith, size)) in
    elim (Bool-cases (x == c)) [
      | inl same ↦
          let eq : x ≡ c = ==→eq x c same in
          let pre' = pre ++ cur ++ x ∷ [] in
          let long : length pre' ≡ length pre + length cur + 1 =
            omega (arith, length-append (pre ++ cur) (x ∷ []), length-append pre cur) in
          let at : suc (length pre + length cur + 1 - 1) ≡ length pre' + 0 = omega (arith, long) in
          split_loop_goes_on host s (c ∷ []) fuel (length pre + length cur) _ _ _ _
            (omega (arith, size)) roomy
            (split_at_separator host g c s pre cur rest (e ∙ ap (λ t. pre ++ cur ++ t ∷ rest) eq)
              small slots' tokens)
          ∙ ap₂
              (λ j start.
                split_loop host s (length s) (c ∷ []) 1 fuel j
                  (record { start = start; slots = slots'; tokens = tokens ++ flush cur }))
              at (sym long)
          ∙ split_loop-words_from host g c s pre' [] rest fuel slots' (tokens ++ flush cur)
              (e
                ∙ sym (append_assoc (pre ++ cur) (x ∷ []) rest)
                ∙ ap (λ t. t ++ rest) (sym (append-nil pre')))
              small (omega arith)
              (omega (arith, length-flush pre cur tokens few, long, length-append pre cur))
          ∙ ap (λ t. returns 0 (some t)) (rw same (append_assoc tokens (flush cur) _))
      | inr other ↦
          let at : suc (length pre + length cur) ≡ length pre + length (cur ++ x ∷ []) =
            omega (arith, length-append cur (x ∷ [])) in
          split_loop_goes_on host s (c ∷ []) fuel (length pre + length cur) _ _ _ _
            (omega (arith, size)) roomy
            (split_at_other host g c x s pre cur rest e small slots' tokens
              (λ eq. cc (other, ==-refl c, eq)))
          ∙ ap
              (λ j.
                split_loop host s (length s) (c ∷ []) 1 fuel j
                  (record { start = length pre; slots = slots'; tokens = tokens }))
              at
          ∙ split_loop-words_from host g c s pre (cur ++ x ∷ []) rest fuel slots' tokens
              (e ∙ regroup) small (omega arith) few
          ∙ ap (λ t. returns 0 (some t)) (rw other refl)
    ]
  where
    regroup : pre ++ cur ++ x ∷ rest ≡ pre ++ (cur ++ x ∷ []) ++ rest
    regroup =
        sym (append_assoc (pre ++ cur) (x ∷ []) rest)
        ∙ ap (λ t. t ++ rest) (append_assoc pre cur (x ∷ []))

-- With a separator of one byte, an allocator that answers and a text of at most 2 ^ 26 bytes,
-- `sdssplitlen` returns the words of the text in order, its longest pieces without a separator
-- that are not empty, and their number.
pub sdssplitlen-words :
    (host : Host) (c : ℕ) (s : List ℕ) (count : ℕ)
    → IsGenerous host
    → length s ≤ 67108864
    → sdssplitlen host s (length s) (c ∷ []) 1 count
      ≡ returns 0 (some (words c s), length (words c s))
unfolding sdssplitlen counted
sdssplitlen-words host c [] count g small = rw (g 40 (omega arith)) refl
sdssplitlen-words host c (x ∷ xs) count g small =
    rw (le→ltb 2147483647 (length (x ∷ xs)) (omega arith)) (
      rw (g 40 (omega arith)) (
        rw (ne→== (length (x ∷ xs)) 0 (omega arith)) (
          ap (counted count) (
            split_loop-words_from host g c (x ∷ xs) [] [] (x ∷ xs) (length (x ∷ xs)) 5 [] refl small
              (omega arith) (omega arith)))))
