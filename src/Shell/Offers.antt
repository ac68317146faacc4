-- ===== src/Shell/Offers.antt =====
-- main.c: the commands that a line is completed to.
use zkclient.Prelude.{
  ℕ, ◌≡◌, ◌⊎◌, refl, sym, ap, ◌∙◌, true, inl, inr, Bool-cases, List, [], ◌∷◌, ◌++◌, append-nil,
  append_assoc, length, ==→eq, ==-refl, ◌==◌, All,
}
use zkclient.Shell.Completion.{commands, same_start, add_matches, command_completion}

-- The text goes on from the line.
pub record Extends (line text : List ℕ) : Type 0 where
  pub rest : List ℕ
  pub whole : text ≡ line ++ rest

abbrev pub IsAmong : List ℕ → List (List ℕ) → Type 0
IsAmong text [] = ⊥
IsAmong text (c ∷ cs) = (text ≡ c) ⊎ IsAmong text cs

-- Behind the completions that were there, exactly the texts that go on from the line.
pub record Offers (line : List ℕ) (texts before after : List (List ℕ)) : Type 0 where
  pub offered : List (List ℕ)
  pub added : after ≡ before ++ offered
  pub all_extend : All (Extends line) offered
  pub all_known : All (λ c. IsAmong c texts) offered
  pub complete : (rest : List ℕ) → IsAmong (line ++ rest) texts → IsAmong (line ++ rest) offered

same_start-Extends : (line c : List ℕ) → same_start (length line) line c ≡ true → Extends line c
unfolding same_start
same_start-Extends [] c e = record { rest = c; whole = refl }
same_start-Extends (x ∷ line) [] e = absurd (cc e)
same_start-Extends (x ∷ line) (y ∷ c) e = elim (Bool-cases (x == y)) [
  | inr other ↦ absurd (cc (rw other at e))
  | inl same ↦
      let r = same_start-Extends line c (rw same at e) in
      record {
        rest = r.rest;
        whole = ap (λ z. z ∷ c) (sym (==→eq x y same)) ∙ ap (λ t. x ∷ t) r.whole;
      }
]

same_start_append : (line rest : List ℕ) → same_start (length line) line (line ++ rest) ≡ true
unfolding same_start
same_start_append [] rest = refl
same_start_append (x ∷ line) rest = rw (==-refl x) (same_start_append line rest)

IsAmong-more :
    (c : List ℕ) (texts offered : List (List ℕ))
    → All (λ t. IsAmong t texts) offered
    → All (λ t. IsAmong t (c ∷ texts)) offered
IsAmong-more c texts [] h = tt
IsAmong-more c texts (t ∷ offered) h = (inr h.0, IsAmong-more c texts offered h.1)

add_matches-Offers :
    (line : List ℕ) (texts before : List (List ℕ))
    → Offers line texts before (add_matches line (length line) texts before)
unfolding add_matches
add_matches-Offers line [] before = record {
  offered = [];
  added = sym (append-nil before);
  all_extend = tt;
  all_known = tt;
  complete = λ rest h. h;
}
add_matches-Offers line (c ∷ texts) before = elim (Bool-cases (same_start (length line) line c)) [
  | inl fits ↦
      let ih = add_matches-Offers line texts (before ++ c ∷ []) in
      rw fits (record {
        offered = c ∷ ih.offered;
        added = ih.added ∙ append_assoc before (c ∷ []) ih.offered;
        all_extend = (same_start-Extends line c fits, ih.all_extend);
        all_known = (inl refl, IsAmong-more c texts ih.offered ih.all_known);
        complete =
            λ rest h. elim h [ inl here ↦ inl here | inr later ↦ inr (ih.complete rest later) ];
      })
  | inr other ↦
      let ih = add_matches-Offers line texts before in
      rw other (record {
        offered = ih.offered;
        added = ih.added;
        all_extend = ih.all_extend;
        all_known = IsAmong-more c texts ih.offered ih.all_known;
        complete = λ rest h. elim h [
          | inl here ↦
              let fits : same_start (length line) line c ≡ true =
                ap (same_start (length line) line) (sym here) ∙ same_start_append line rest in
              absurd (cc (fits, other))
          | inr later ↦ ih.complete rest later
        ];
      })
]

-- A line without a space is completed to exactly the commands that begin with it: behind the
-- completions that were there come only commands that go on from the line, and every such command is
-- among them.
pub command_completion-Offers :
    (line : List ℕ) (before : List (List ℕ))
    → Offers line commands before (command_completion line (length line) before)
unfolding command_completion
command_completion-Offers line before = add_matches-Offers line commands before
