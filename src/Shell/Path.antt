-- ===== src/Shell/Path.antt =====
-- main.c: the path of a command without the '/' at its end.
use zkclient.Prelude.{
  ℕ, zero, suc, ◌-◌, ◌≤◌, ◌<◌, ◌≡◌, refl, sym, ap, ◌∙◌, Bool, true, false, ◌&&◌, inl, inr,
  Bool-cases, Option, none, some, List, [], ◌∷◌, ◌++◌, append_assoc, append-nil, length,
  length-take, get_elem?, take, take_all, replicate, ltb, lt→ltb, ltb→lt, ◌==◌, ==→eq,
  if◌then◌else◌, arith,
}

unfoldable pub is_slash : Option ℕ → Bool
is_slash none = false
is_slash (some c) = c == b'/'

-- The `while` loop, with `path_len` characters of the path left.
unfoldable pub strip_loop : List ℕ → ℕ → List ℕ
strip_loop path zero = []
strip_loop path (suc n) =
    let rest = strip_loop path n in
    if ltb 1 (suc n) && is_slash (get_elem? path n) then rest else take (suc n) path

unfoldable pub strip_slashes : List ℕ → List ℕ
strip_slashes path = strip_loop path (length path)

-- `p` is the text without some '/' at its end, and has none there itself, unless it is one character.
-- It is not empty, unless the text is.
pub record IsStripped (text p : List ℕ) : Type 0 where
  pub slashes : ℕ
  pub whole : text ≡ p ++ replicate slashes b'/'
  pub not_emptied : 0 < length text → 0 < length p
  pub ends : 1 < length p → is_slash (get_elem? p (length p - 1)) ≡ false

module _ {A : Type 0} where
  take_next :
      (n : ℕ) (xs : List A) (x : A)
      → get_elem? xs n ≡ some x
      → take (suc n) xs ≡ take n xs ++ x ∷ []
  take_next n [] x e = absurd (cc e)
  take_next zero (y ∷ xs) x e = ap (λ z. z ∷ []) (cc e)
  take_next (suc n) (y ∷ xs) x e = ap (λ t. y ∷ t) (take_next n xs x e)

  get_elem?-take : (n : ℕ) (xs : List A) → get_elem? (take (suc n) xs) n ≡ get_elem? xs n
  get_elem?-take n [] = refl
  get_elem?-take zero (x ∷ xs) = refl
  get_elem?-take (suc n) (x ∷ xs) = get_elem?-take n xs

replicate_last : (n x : ℕ) → replicate n x ++ x ∷ [] ≡ replicate (suc n) x
replicate_last zero x = refl
replicate_last (suc n) x = ap (λ t. x ∷ t) (replicate_last n x)

slash_found : (o : Option ℕ) → is_slash o ≡ true → o ≡ some b'/'
unfolding is_slash
slash_found none e = absurd (cc e)
slash_found (some c) e = ap some (==→eq c b'/' e)

stop_here :
    (path : List ℕ) (n : ℕ)
    → suc n ≤ length path
    → (1 < suc n → is_slash (get_elem? path n) ≡ false)
    → IsStripped (take (suc n) path) (take (suc n) path)
stop_here path n l h =
    let size : length (take (suc n) path) ≡ suc n = omega (arith, length-take (suc n) path) in
    let at : length (take (suc n) path) - 1 ≡ n = omega (arith, size) in
    record {
      slashes = 0;
      whole = sym (append-nil (take (suc n) path));
      not_emptied = λ k. k;
      ends = λ k.
          ap (λ i. is_slash (get_elem? (take (suc n) path) i)) at
          ∙ ap is_slash (get_elem?-take n path)
          ∙ h (omega (arith, k, size));
    }

one_more :
    (path p : List ℕ) (n : ℕ)
    → 1 ≤ n
    → suc n ≤ length path
    → get_elem? path n ≡ some b'/'
    → IsStripped (take n path) p
    → IsStripped (take (suc n) path) p
one_more path p n more l e s = record {
  slashes = suc s.slashes;
  whole =
      take_next n path b'/' e
      ∙ ap (λ t. t ++ b'/' ∷ []) s.whole
      ∙ append_assoc p (replicate s.slashes b'/') (b'/' ∷ [])
      ∙ ap (λ t. p ++ t) (replicate_last s.slashes b'/');
  not_emptied = λ k. s.not_emptied (omega (arith, more, l, length-take n path));
  ends = s.ends;
}

strip_loop-IsStripped :
    (path : List ℕ) (n : ℕ) → n ≤ length path → IsStripped (take n path) (strip_loop path n)
unfolding strip_loop
strip_loop-IsStripped path zero l = record {
  slashes = 0;
  whole = refl;
  not_emptied = λ k. k;
  ends = λ k. absurd (omega (arith, k));
}
strip_loop-IsStripped path (suc n) l = elim (Bool-cases (is_slash (get_elem? path n))) [
  | inr other ↦ elim (Bool-cases (ltb 1 (suc n))) [
    | inl long ↦ rw (long, other) (stop_here path n l (λ k. other))
    | inr short ↦ rw short (stop_here path n l (λ k. other))
  ]
  | inl slash ↦ elim (Bool-cases (ltb 1 (suc n))) [
    | inl long ↦
        rw (long, slash)
          (one_more path (strip_loop path n) n (omega (arith, ltb→lt 1 (suc n) long)) l
            (slash_found _ slash) (strip_loop-IsStripped path n (omega arith)))
    | inr short ↦ rw short (stop_here path n l (λ k. absurd (cc (lt→ltb 1 (suc n) k, short))))
  ]
]

-- The path that `processCommand` works with is the path without the '/' at its end: the argument is
-- this path and some number of '/', possibly none. A path longer than one character does not end in
-- '/', and only an empty argument gives an empty path: the root stays "/".
pub strip_slashes-IsStripped : (path : List ℕ) → IsStripped path (strip_slashes path)
unfolding strip_slashes
strip_slashes-IsStripped path =
    rw (take_all (length path) path (omega arith)) at
      (strip_loop-IsStripped path (length path) (omega arith))
