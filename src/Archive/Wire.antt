-- ===== src/Archive/Wire.antt =====
-- The wire form of the values that recordio.c serialises, independent of the code: numbers in
-- network order, and texts and buffers behind their length.
use zkclient.Prelude.{
  ℕ, suc, ◌<◌, ◌≡◌, ◌≢◌, refl, ap, ◌⊎◌, inl, Option, none, some, List, [], ◌∷◌, ◌++◌, All, length,
  ◌==◌, ne→==, if◌then◌else◌,
}
use zkclient.Host.{big_endian}
use zkclient.Archive.{Buffer, CString}
use zkclient.Archive.Invariant.{held}
use zkclient.Archive.Output.{strlen, negone}

unfoldable pub wire_int : ℕ → List ℕ
wire_int d = big_endian 4 d

unfoldable pub wire_long : ℕ → List ℕ
wire_long d = big_endian 8 d

unfoldable pub wire_bool : ℕ → List ℕ
wire_bool i = (if i == 0 then 0 else 1) ∷ []

unfoldable pub wire_buffer : Buffer → List ℕ
wire_buffer b = wire_int b.len ++ held b.buff

unfoldable pub wire_string : CString → List ℕ
wire_string none = wire_int negone
wire_string (some s) = wire_int (length s) ++ s

-- A string that is there, with no NUL before its end.
abbrev pub IsText : CString → Type 0
IsText none = ⊥
IsText (some s) = All (λ c. c ≢ 0) s

abbrev pub Sendable : ℕ → Option (List ℕ) → Type 0
Sendable len none = (len ≡ negone) ⊎ (len ≡ 0)
Sendable len (some mem) = len ≡ length mem

-- The length is that of the bytes; a null pointer has the length -1 or 0.
abbrev pub IsSendable : Buffer → Type 0
IsSendable b = Sendable b.len b.buff

abbrev pub Receivable : ℕ → Option (List ℕ) → Type 0
Receivable len none = len ≡ negone
Receivable len (some mem) = len ≡ length mem

-- The length is that of the bytes; a null pointer has the length -1.
abbrev pub IsBuffer : Buffer → Type 0
IsBuffer b = Receivable b.len b.buff

Receivable→Sendable : (len : ℕ) (buff : Option (List ℕ)) → Receivable len buff → Sendable len buff
Receivable→Sendable len none h = inl h
Receivable→Sendable len (some mem) h = h

pub IsBuffer-IsSendable : (b : Buffer) → IsBuffer b → IsSendable b
IsBuffer-IsSendable b = Receivable→Sendable b.len b.buff

abbrev pub IsInt : ℕ → Type 0
IsInt d = d < 4294967296

abbrev pub IsLong : ℕ → Type 0
IsLong d = d < 18446744073709551616

abbrev pub IsBool : ℕ → Type 0
IsBool i = i < 2

pub strlen-IsText : (s : List ℕ) → All (λ c. c ≢ 0) s → strlen s ≡ length s
unfolding strlen
strlen-IsText [] h = refl
strlen-IsText (c ∷ s) h = rw (ne→== c 0 h.0) (ap suc (strlen-IsText s h.1))
