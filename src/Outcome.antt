-- ===== src/Outcome.antt =====
-- What a call of C code does to the memory that it may write: it returns an `int` and leaves the
-- memory, or its behaviour is undefined (an access outside an allocation or through a null pointer,
-- a signed overflow, a read of an uninitialised variable).
use zkclient.Prelude.{ℕ, ◌==◌, if◌then◌else◌}
use zkclient.CInt.{is_negative}

pub data Outcome {ℓ} (S : Type ℓ) : Type ℓ where
  returns : ℕ → S → Outcome S
  undefined : Outcome S

-- A call on the memory `S`.
abbrev pub Step {ℓ} : Type ℓ → Type ℓ
Step S = S → Outcome S

module _ {ℓ} {S : Type ℓ} where
  -- The line `rc = rc ? rc : next(...)`, after a call that returned `rc`.
  abbrev pub proceed : Step S → Outcome S → Outcome S
  proceed next (returns rc s) = if rc == 0 then next s else returns rc s
  proceed next undefined = undefined

  infixr 5 ◌>>◌
  unfoldable pub ◌>>◌ : Step S → Step S → Step S
  ◌>>◌ m next s = proceed next (m s)

  -- The lines `rc = call(...); if (rc < 0) return rc;` and what follows them.
  unfoldable pub checked : Step S → Step S → Step S
  checked m next s = elim (m s) [
    | returns rc s' ↦ if is_negative rc then returns rc s' else next s'
    | undefined ↦ undefined
  ]

  -- A call whose result is dropped, and `return 0`.
  unfoldable pub ignored : Step S → Step S
  ignored m s = elim (m s) [ returns rc s' ↦ returns 0 s' | undefined ↦ undefined ]

  -- A call that does nothing.
  unfoldable pub skip : Step S
  skip s = returns 0 s
