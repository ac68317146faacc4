-- ===== src/Request/Stream.antt =====
-- request.c: the bytes that a script of `read` calls delivers, and what `read_socket` makes of them.
use zkclient.Prelude.{
  ℕ, zero, suc, ◌-◌, ◌≤◌, ◌<◌, ◌≡◌, refl, ap, ◌∙◌, List, [], ◌∷◌, ◌++◌, length, take, drop, arith,
}
use zkclient.Outcome.{Outcome, returns}
use zkclient.Request.Socket.{ReadEvent, arrives}

-- The bytes that are still to arrive.
abbrev pub stream : List ReadEvent → List ℕ
stream [] = []
stream (ReadEvent.arrives bs ∷ es) = bs ++ stream es
stream (_ ∷ es) = stream es

-- No call is interrupted, and none ends the stream.
abbrev pub IsPlain : List ReadEvent → Type 0
IsPlain [] = Unit
IsPlain (ReadEvent.arrives [] ∷ es) = ⊥
IsPlain (ReadEvent.arrives (b ∷ bs) ∷ es) = IsPlain es
IsPlain (_ ∷ es) = ⊥

-- The call has put the next `n` bytes of the stream behind the first `r_bytes` of the buffer, and
-- left the others.
pub record Filled (o : Outcome (List ℕ × List ReadEvent)) (front bytes : List ℕ) (n : ℕ)
    : Type 0 where
  pub left : List ReadEvent
  pub returned : o ≡ returns 0 (front ++ take n bytes, left)
  pub plain : IsPlain left
  pub rest : stream left ≡ drop n bytes

pub arrives-IsPlain :
    (xs : List ℕ) (es : List ReadEvent) → 0 < length xs → IsPlain es → IsPlain (arrives xs ∷ es)
arrives-IsPlain [] es h p = absurd (omega arith)
arrives-IsPlain (x ∷ xs) es h p = p

pub take-append_past {ℓ} :
    {A : Type ℓ} (xs ys : List A) (n : ℕ)
    → length xs ≤ n
    → take n (xs ++ ys) ≡ xs ++ take (n - length xs) ys
take-append_past [] ys n h = ap (λ k. take k ys) (omega arith)
take-append_past (x ∷ xs) ys zero h = absurd (omega arith)
take-append_past (x ∷ xs) ys (suc n) h =
    ap (λ t. x ∷ t)
      (take-append_past xs ys n (omega arith) ∙ ap (λ k. xs ++ take k ys) (omega arith))

pub drop-append_past {ℓ} :
    {A : Type ℓ} (xs ys : List A) (n : ℕ)
    → length xs ≤ n
    → drop n (xs ++ ys) ≡ drop (n - length xs) ys
drop-append_past [] ys n h = ap (λ k. drop k ys) (omega arith)
drop-append_past (x ∷ xs) ys zero h = absurd (omega arith)
drop-append_past (x ∷ xs) ys (suc n) h =
    drop-append_past xs ys n (omega arith) ∙ ap (λ k. drop k ys) (omega arith)

pub drop-append {ℓ} :
    {A : Type ℓ} (xs ys : List A) (n : ℕ) → n ≤ length xs → drop n (xs ++ ys) ≡ drop n xs ++ ys
drop-append xs ys zero h = refl
drop-append [] ys (suc n) h = absurd (omega arith)
drop-append (x ∷ xs) ys (suc n) h = drop-append xs ys n (omega arith)

pub drop_all {ℓ} : {A : Type ℓ} (n : ℕ) (xs : List A) → length xs ≤ n → drop n xs ≡ []
drop_all zero [] h = refl
drop_all zero (x ∷ xs) h = absurd (omega arith)
drop_all (suc n) [] h = refl
drop_all (suc n) (x ∷ xs) h = drop_all n xs (omega arith)
