-- ===== src/Util/Last.antt =====
-- A text at the last place of a character, as `strrchr` of libc finds it.
use zkclient.Prelude.{
  ℕ, ◌<◌, ◌≡◌, ap, ◌∙◌, refl, Option, none, some, List, [], ◌∷◌, ◌++◌, length, length-append, ◌==◌,
  ==→eq, Bool-cases, inl, inr, if◌then◌else◌, arith,
}

-- What stands before and behind the last `c`.
unfoldable pub split_last : ℕ → List ℕ → Option (List ℕ × List ℕ)
split_last c [] = none
split_last c (x ∷ s) = elim (split_last c s) [
  | some p ↦ some (x ∷ p.0, p.1)
  | none ↦ if x == c then some ([], s) else none
]

split_last_found :
    (c x : ℕ) (s : List ℕ) (o : Option (List ℕ × List ℕ)) (a b : List ℕ)
    → ((a' b' : List ℕ) → o ≡ some (a', b') → s ≡ a' ++ c ∷ b')
    → (elim o as (λ _. Option (List ℕ × List ℕ)) [
      | some p ↦ some (x ∷ p.0, p.1)
      | none ↦ if x == c then some ([], s) else none
    ])
      ≡ some (a, b)
    → x ∷ s ≡ a ++ c ∷ b
split_last_found c x s (some (a', b')) a b h e =
    let same : (x ∷ a', b') ≡ (a, b) = cc e in
    ap (λ t. x ∷ t) (h a' b' refl) ∙ ap (λ (p : List ℕ × List ℕ). p.0 ++ c ∷ p.1) same
split_last_found c x s none a b h e = elim (Bool-cases (x == c)) [
  | inl same ↦
      let eq : ([], s) ≡ (a, b) = cc (rw same at e) in
      ap (λ t. t ∷ s) (==→eq x c same) ∙ ap (λ (p : List ℕ × List ℕ). p.0 ++ c ∷ p.1) eq
  | inr other ↦ absurd (cc (rw other at e))
]

-- The two parts with the character between them are the text.
pub split_last-append : (c : ℕ) (s a b : List ℕ) → split_last c s ≡ some (a, b) → s ≡ a ++ c ∷ b
unfolding split_last
split_last-append c [] a b e = absurd (cc e)
split_last-append c (x ∷ s) a b e =
    split_last_found c x s (split_last c s) a b (split_last-append c s) e

pub split_last-shorter :
    (c : ℕ) (s a b : List ℕ) → split_last c s ≡ some (a, b) → length a < length s
split_last-shorter c s a b e =
    omega (arith, ap length (split_last-append c s a b e), length-append a (c ∷ b))
