-- ===== src/Request/Writing.antt =====
-- request.c: the write loop of `send_request` where no call is interrupted.
use zkclient.Prelude.{
  ℕ, zero, suc, ◌+◌, ◌-◌, ◌≤◌, ◌<◌, ◌≡◌, refl, sym, ap, ◌∙◌, inl, inr, some, List, [], ◌∷◌, ◌++◌,
  length, take, drop, leb, ltb, Bool-cases, le→leb, le→ltb, lt→ltb, ltb→lt, ltb→le, append_assoc,
  append-nil, drop-drop, if◌then◌else◌, arith,
}
use zkclient.CInt.{int_max, int_lt-natural, int_sub, int_sub-natural, to_size, to_size-natural}
use zkclient.Outcome.{Outcome, returns}
use zkclient.Host.{load}
use zkclient.Request.Socket.{WriteEvent, write_loop}
use zkclient.Request.Stream.{drop_all}

-- Every call accepts something.
abbrev pub IsSteady : List WriteEvent → Type 0
IsSteady [] = Unit
IsSteady (WriteEvent.accepts n ∷ es) = IsSteady es
IsSteady (_ ∷ es) = ⊥

-- How many bytes the calls accept together.
abbrev pub room : List WriteEvent → ℕ
room [] = 0
room (WriteEvent.accepts n ∷ es) = n + room es
room (_ ∷ es) = room es

pub record Sent (o : Outcome (List ℕ × List WriteEvent)) (bytes : List ℕ) : Type 0 where
  pub left : List WriteEvent
  pub returned : o ≡ returns 0 (bytes, left)

take-append-drop {ℓ} : {A : Type ℓ} (n : ℕ) (xs : List A) → take n xs ++ drop n xs ≡ xs
take-append-drop zero xs = refl
take-append-drop (suc n) [] = refl
take-append-drop (suc n) (x ∷ xs) = ap (λ t. x ∷ t) (take-append-drop n xs)

drop_split {ℓ} :
    {A : Type ℓ} (k n : ℕ) (xs : List A) → take k (drop n xs) ++ drop (n + k) xs ≡ drop n xs
drop_split k n xs =
    ap (λ t. take k (drop n xs) ++ t) (sym (drop-drop n k xs)) ∙ take-append-drop k (drop n xs)

-- How many of `rest` bytes a call takes that accepts `n`.
abbrev accepted : ℕ → ℕ → ℕ
accepted n rest = if leb n rest then n else rest

accepted_le : (n rest : ℕ) → accepted n rest ≤ rest
accepted_le n rest = ground arith

accepted_left : (n rest more : ℕ) → rest ≤ n + more → rest - accepted n rest ≤ more
accepted_left n rest more h = ground arith

module _ (total : ℕ) (buf : List ℕ) (size : length buf ≡ total) (is_int : total ≤ int_max) where
  write_done :
      (es : List WriteEvent) (sent : List ℕ)
      → IsSteady es
      → write_loop es total total buf sent ≡ returns 0 (sent, es)
  unfolding write_loop
  write_done [] sent p =
      rw (int_lt-natural total total is_int is_int, le→ltb total total (omega arith)) refl
  write_done (WriteEvent.accepts n ∷ es) sent p =
      rw (int_lt-natural total total is_int is_int, le→ltb total total (omega arith)) refl
  write_done (WriteEvent.interrupted ∷ es) sent p = absurd p
  write_done (WriteEvent.broken ∷ es) sent p = absurd p

  loaded : (w n : ℕ) → w + n ≤ total → load buf w n ≡ some (take n (drop w buf))
  unfolding load
  loaded w n h = rw (le→leb (w + n) (length buf) (omega arith)) refl

  write_some :
      (n w : ℕ) (es : List WriteEvent) (sent : List ℕ)
      → w < total
      → write_loop (WriteEvent.accepts n ∷ es) total w buf sent
        ≡ write_loop es total
            (w + accepted n (total - w))
            buf
            (sent ++ take (accepted n (total - w)) (drop w buf))
  unfolding write_loop
  write_some n w es sent h =
      rw (int_lt-natural w total (omega arith) is_int, lt→ltb w total h)
        (rw (le→ltb int_max w (omega arith)) (
          rw rest (
            rw (loaded w k (omega (arith, accepted_le n (total - w))), write_loop) (rw rest refl))))
    where
      k : ℕ
      k = accepted n (total - w)

      rest : to_size (int_sub total w) ≡ total - w
      rest =
          ap to_size (int_sub-natural total w (omega arith) is_int)
          ∙ to_size-natural (total - w) (omega arith)

  write_done-Sent :
      (es : List WriteEvent) (w : ℕ) (sent : List ℕ)
      → IsSteady es
      → w ≡ total
      → Sent (write_loop es total w buf sent) (sent ++ drop w buf)
  write_done-Sent es w sent p done = record {
    left = es;
    returned =
        ap (λ k. write_loop es total k buf sent) done
        ∙ write_done es sent p
        ∙ ap (λ t. returns 0 (t, es))
            (sym
              (ap (λ t. sent ++ t) (drop_all w buf (omega (arith, done, size))) ∙ append-nil sent));
  }

  pub write_loop-sends :
      (es : List WriteEvent) (w : ℕ) (sent : List ℕ)
      → IsSteady es
      → w ≤ total
      → total - w ≤ room es
      → Sent (write_loop es total w buf sent) (sent ++ drop w buf)
  write_loop-sends [] w sent p le enough = write_done-Sent [] w sent p (omega arith)
  write_loop-sends (WriteEvent.accepts n ∷ es) w sent p le enough =
      elim (Bool-cases (ltb w total)) [
        | inr full ↦
            write_done-Sent (WriteEvent.accepts n ∷ es) w sent p
              (omega (arith, ltb→le w total full))
        | inl more ↦
            let k = accepted n (total - w) in
            let fits : k ≤ total - w = accepted_le n (total - w) in
            let later : total - (w + k) ≤ room es =
              omega (arith, accepted_left n (total - w) (room es) enough) in
            let s =
              write_loop-sends es (w + k) (sent ++ take k (drop w buf)) p (omega (arith, fits))
                later in
            record {
              left = s.left;
              returned =
                  write_some n w es sent (ltb→lt w total more)
                  ∙ s.returned
                  ∙ ap (λ t. returns 0 (t, s.left))
                      (append_assoc sent (take k (drop w buf)) _
                        ∙ ap (λ t. sent ++ t) (drop_split k w buf));
            }
      ]
  write_loop-sends (WriteEvent.interrupted ∷ es) w sent p le enough = absurd p
  write_loop-sends (WriteEvent.broken ∷ es) w sent p le enough = absurd p
