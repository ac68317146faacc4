-- ===== src/Host/Bytes.antt =====
-- Byte order: what `htonl` and `htonll` put in memory, and that the reads invert them.
use zkclient.Prelude.{
  ℕ, zero, suc, ◌/◌, ◌^◌, ◌<◌, ◌≡◌, refl, ap, ap₂, ◌∙◌, inl, inr, Bool-cases, true, false, List, [],
  ◌∷◌, ◌++◌, length, All, arith, length-reverse,
}
use zkclient.Host.{
  Host, little_endian, from_little_endian, big_endian, image, value, htonl, ntohl, htonll,
  swap_loop, swap_bytes,
}
use mathlib.Core.List.{reverse, reverse-reverse, reverse-append}
use native.Mathlib.Nat.{pow-suc, pow-zero}

pub length-little_endian : (k v : ℕ) → length (little_endian k v) ≡ k
unfolding little_endian
length-little_endian zero v = refl
length-little_endian (suc k) v = ap suc (length-little_endian k (v / 256))

pub length-big_endian : (k v : ℕ) → length (big_endian k v) ≡ k
unfolding big_endian
length-big_endian k v = length-reverse (little_endian k v) ∙ length-little_endian k v

pub from_little_endian-little_endian :
    (k v : ℕ) → v < 256 ^ k → from_little_endian (little_endian k v) ≡ v
unfolding little_endian from_little_endian
from_little_endian-little_endian zero v h = omega (arith, pow-zero 256)
from_little_endian-little_endian (suc k) v h =
    omega (arith, from_little_endian-little_endian k (v / 256) (omega (arith, pow-suc 256 k)))

abbrev pub IsByte : ℕ → Type 0
IsByte b = b < 256

All-append {ℓ κ} :
    {A : Type ℓ} (P : A → Type κ) (xs ys : List A) → All P xs → All P ys → All P (xs ++ ys)
All-append P [] ys hx hy = hy
All-append P (x ∷ xs) ys hx hy = (hx.0, All-append P xs ys hx.1 hy)

All-reverse {ℓ κ} : {A : Type ℓ} (P : A → Type κ) (xs : List A) → All P xs → All P (reverse xs)
All-reverse P [] h = h
All-reverse P (x ∷ xs) h =
    rw (reverse-append (x ∷ []) xs)
      (All-append P (reverse xs) (x ∷ []) (All-reverse P xs h.1) (h.0, tt))

pub little_endian-IsByte : (k v : ℕ) → All IsByte (little_endian k v)
unfolding little_endian
little_endian-IsByte zero v = tt
little_endian-IsByte (suc k) v = (omega arith, little_endian-IsByte k (v / 256))

big_endian-IsByte : (k v : ℕ) → All IsByte (big_endian k v)
unfolding big_endian
big_endian-IsByte k v = All-reverse IsByte (little_endian k v) (little_endian-IsByte k v)

little_endian-from_little_endian :
    (k : ℕ) (bs : List ℕ)
    → length bs ≡ k
    → All IsByte bs
    → little_endian k (from_little_endian bs) ≡ bs
unfolding little_endian from_little_endian
little_endian-from_little_endian zero [] e h = refl
little_endian-from_little_endian zero (b ∷ bs) e h = absurd (omega arith)
little_endian-from_little_endian (suc k) [] e h = absurd (omega arith)
little_endian-from_little_endian (suc k) (b ∷ bs) e h =
    ap₂ (λ x xs. x ∷ xs) (omega arith)
      (ap (little_endian k) (omega arith) ∙ little_endian-from_little_endian k bs (omega arith) h.1)

-- What a variable that holds `value host bytes` looks like in memory.
image-value :
    (host : Host) (k : ℕ) (bs : List ℕ)
    → length bs ≡ k
    → All IsByte bs
    → image host k (value host bs) ≡ bs
unfolding image value big_endian
image-value host k bs e h = elim (Bool-cases host.is_little_endian) [
  | inl little ↦ rw little (little_endian-from_little_endian k bs e h)
  | inr big ↦ rw big (
      ap reverse (
        little_endian-from_little_endian k (reverse bs) (length-reverse bs ∙ e)
          (All-reverse IsByte bs h))
      ∙ reverse-reverse bs)
]

value-image : (host : Host) (k v : ℕ) → v < 256 ^ k → value host (image host k v) ≡ v
unfolding image value big_endian
value-image host k v h = elim (Bool-cases host.is_little_endian) [
  | inl little ↦ rw little (from_little_endian-little_endian k v h)
  | inr big ↦ rw big (
      ap from_little_endian (reverse-reverse (little_endian k v))
      ∙ from_little_endian-little_endian k v h)
]

pub image-htonl : (host : Host) (v : ℕ) → image host 4 (htonl host v) ≡ big_endian 4 v
unfolding htonl
image-htonl host v =
    image-value host 4 (big_endian 4 v) (length-big_endian 4 v) (big_endian-IsByte 4 v)

pub ntohl-value-big_endian :
    (host : Host) (v : ℕ) → v < 4294967296 → ntohl host (value host (big_endian 4 v)) ≡ v
unfolding ntohl
ntohl-value-big_endian host v h =
    rw (image-value host 4 (big_endian 4 v) (length-big_endian 4 v) (big_endian-IsByte 4 v)) (
      unfold big_endian in
      (ap from_little_endian (reverse-reverse (little_endian 4 v))
        ∙ from_little_endian-little_endian 4 v h))

swap_loop-little_endian : (v : ℕ) → swap_loop 4 0 (little_endian 8 v) ≡ big_endian 8 v
unfolding little_endian big_endian swap_loop swap_bytes
swap_loop-little_endian v = refl

swap_loop-big_endian : (v : ℕ) → swap_loop 4 0 (big_endian 8 v) ≡ little_endian 8 v
unfolding little_endian big_endian swap_loop swap_bytes
swap_loop-big_endian v = refl

-- On either kind of host the variable that `htonll` returns lies in memory in network order.
pub image-htonll : (host : Host) (v : ℕ) → image host 8 (htonll host v) ≡ big_endian 8 v
unfolding htonll
image-htonll host v = elim (Bool-cases host.is_little_endian) [
  | inl little ↦ simp little (
      ap (λ bs. image host 8 (value host bs)) (onto little)
      ∙ image-value host 8 (big_endian 8 v) (length-big_endian 8 v) (big_endian-IsByte 8 v))
  | inr big ↦ unfold image in simp big refl
]
  where
    onto : host.is_little_endian ≡ true → swap_loop 4 0 (image host 8 v) ≡ big_endian 8 v
    onto little = unfold image in simp little (swap_loop-little_endian v)

-- `htonll` is its own inverse: it reads back an `int64_t` from the bytes in network order.
pub htonll-value-big_endian :
    (host : Host) (v : ℕ) → v < 18446744073709551616 → htonll host (value host (big_endian 8 v)) ≡ v
unfolding htonll
htonll-value-big_endian host v h =
    rw (image-value host 8 (big_endian 8 v) (length-big_endian 8 v) (big_endian-IsByte 8 v))
      (elim (Bool-cases host.is_little_endian) [
        | inl little ↦ simp (little, swap_loop-big_endian v) (from little)
        | inr big ↦ simp big (back big)
      ])
  where
    from : host.is_little_endian ≡ true → value host (little_endian 8 v) ≡ v
    from little = unfold value in simp little (from_little_endian-little_endian 8 v h)

    back : host.is_little_endian ≡ false → value host (big_endian 8 v) ≡ v
    back big =
        unfold value big_endian in
        simp big (
          ap from_little_endian (reverse-reverse (little_endian 8 v))
          ∙ from_little_endian-little_endian 8 v h)
