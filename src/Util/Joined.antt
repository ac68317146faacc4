-- ===== src/Util/Joined.antt =====
-- util.c: `sdssplitlen` on a line of words with a separator between any two.
use zkclient.Prelude.{
  ℕ, ◌≤◌, ◌≡◌, ◌≢◌, refl, sym, ap, ◌∙◌, some, List, [], ◌∷◌, ◌++◌, length, All, ne→==, ==-refl,
  append_assoc, append-nil,
}
use zkclient.Outcome.{returns}
use zkclient.Host.{Host}
use zkclient.Archive.Loads.{IsGenerous}
use zkclient.Util.Split.{sdssplitlen}
use zkclient.Util.Words.{flush, words_from, words}
use zkclient.Util.Scan.{sdssplitlen-words}

-- A word has a character, and none of its characters is the separator.
abbrev pub IsWord : ℕ → List ℕ → Type 0
IsWord c [] = ⊥
IsWord c (x ∷ w) = All (λ y. y ≢ c) (x ∷ w)

abbrev pub joined : ℕ → List (List ℕ) → List ℕ
joined c [] = []
joined c (w ∷ []) = w
joined c (w ∷ v ∷ ws) = w ++ c ∷ joined c (v ∷ ws)

words_from-append :
    (c : ℕ) (cur w rest : List ℕ)
    → All (λ y. y ≢ c) w
    → words_from c cur (w ++ rest) ≡ words_from c (cur ++ w) rest
words_from-append c cur [] rest h = ap (λ t. words_from c t rest) (sym (append-nil cur))
words_from-append c cur (x ∷ w) rest h = rw (ne→== x c h.0) (
    words_from-append c (cur ++ x ∷ []) w rest h.1
    ∙ ap (λ t. words_from c t rest) (append_assoc cur (x ∷ []) w))

words_from_separator :
    (c : ℕ) (cur rest : List ℕ) → words_from c cur (c ∷ rest) ≡ flush cur ++ words_from c [] rest
words_from_separator c cur rest = rw (==-refl c) refl

words-joined : (c : ℕ) (ws : List (List ℕ)) → All (IsWord c) ws → words c (joined c ws) ≡ ws
words-joined c [] h = refl
words-joined c ([] ∷ ws) h = absurd h.0
words-joined c ((x ∷ w) ∷ []) h =
    ap (words_from c []) (sym (append-nil (x ∷ w))) ∙ words_from-append c [] (x ∷ w) [] h.0
words-joined c ((x ∷ w) ∷ v ∷ ws) h =
    words_from-append c [] (x ∷ w) (c ∷ joined c (v ∷ ws)) h.0
    ∙ words_from_separator c (x ∷ w) (joined c (v ∷ ws))
    ∙ ap (λ t. (x ∷ w) ∷ t) (words-joined c (v ∷ ws) h.1)

-- `sdssplitlen` takes a line of words with one separator between any two, of at most 2 ^ 26
-- bytes, apart into these words, where the words have a character each and none that is the
-- separator, and the allocator answers.
pub sdssplitlen-joined :
    (host : Host) (c : ℕ) (ws : List (List ℕ)) (count : ℕ)
    → IsGenerous host
    → All (IsWord c) ws
    → length (joined c ws) ≤ 67108864
    → sdssplitlen host (joined c ws) (length (joined c ws)) (c ∷ []) 1 count
      ≡ returns 0 (some ws, length ws)
sdssplitlen-joined host c ws count g h small =
    sdssplitlen-words host c (joined c ws) count g small
    ∙ ap (λ t. returns 0 (some t, length t)) (words-joined c ws h)
