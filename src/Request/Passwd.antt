-- ===== src/Request/Passwd.antt =====
-- request.c: what `authenticate` makes of the password in the reply.
use zkclient.Prelude.{
  ℕ, ◌+◌, ◌≤◌, ◌<◌, ◌≡◌, refl, sym, ap, ap₂, ◌∙◌, inl, inr, true, false, Bool-cases, Option, none,
  some, List, [], ◌∷◌, ◌++◌, length, take, drop, replicate, length-replicate, length-append,
  length-take, length-drop, append-nil, take_all, leb→le, ltb→le, leb, ne→==, ==→eq, ==-refl, ◌==◌,
  arith,
}
use zkclient.CInt.{int_max, is_negative, to_size, to_size-natural}
use zkclient.Host.{Host, malloc, store, load}
use zkclient.Archive.{Buffer}
use zkclient.Archive.Output.{read_bytes}
use zkclient.Archive.Loads.{IsGenerous}
use zkclient.Archive.Safety.{IsUsable}
use zkclient.Util.Split.{same_bytes}
use zkclient.Request.Stream.{drop_all}
use zkclient.Request.Framing.{loaded, store_fits}
use zkclient.Request.Authenticate.{copy_passwd, replace_passwd, compare_passwd, adopt_passwd}

-- A password of the client: as many bytes as its length says, at least one.
pub record IsPasswd (p : Buffer) : Type 0 where
  pub mem : List ℕ
  pub allocated : p.buff ≡ some mem
  pub size : length mem ≡ p.len
  pub some_bytes : 0 < p.len
  pub is_int : p.len ≤ int_max

same_bytes-eq : (a b : List ℕ) → same_bytes a b ≡ true → a ≡ b
unfolding same_bytes
same_bytes-eq [] [] h = refl
same_bytes-eq [] (y ∷ ys) h = absurd (cc h)
same_bytes-eq (x ∷ xs) [] h = absurd (cc h)
same_bytes-eq (x ∷ xs) (y ∷ ys) h = elim (Bool-cases (x == y)) [
  | inl same ↦ ap₂ (λ a b. a ∷ b) (==→eq x y same) (same_bytes-eq xs ys (rw same at h))
  | inr other ↦ absurd (cc (rw other at h))
]

read_passwd :
    (buff : Option (List ℕ)) (mem : List ℕ) (n : ℕ)
    → buff ≡ some mem
    → n ≤ length mem
    → n ≤ int_max
    → read_bytes buff (to_size n) ≡ some (take n mem)
unfolding read_bytes
read_passwd buff mem n e h i = rw (to_size-natural n i) (rw e (loaded n mem h))

store_all : (mem bytes : List ℕ) → length mem ≡ length bytes → store mem 0 bytes ≡ some bytes
store_all mem bytes e =
    store_fits mem 0 bytes (omega arith)
    ∙ ap some (
        ap (λ t. [] ++ bytes ++ t) (drop_all (0 + length bytes) mem (omega arith))
        ∙ append-nil bytes)

Buffer-eq : (a b : Buffer) → a.len ≡ b.len → a.buff ≡ b.buff → a ≡ b
Buffer-eq a b p q = λ i. record { len = p i; buff = q i }

-- A reply whose password has the length of the client's is taken over as it is.
module _ (host : Host) (old new : Buffer) (g : IsGenerous host) (k : IsPasswd old)
    (k' : IsPasswd new) (same : new.len ≡ old.len) where
  reads :
      (p : Buffer) (q : IsPasswd p)
      → p.len ≡ old.len
      → read_bytes p.buff (to_size old.len) ≡ some q.mem
  reads p q e =
      read_passwd p.buff q.mem old.len q.allocated (omega (arith, q.size, e)) k.is_int
      ∙ ap some (take_all old.len q.mem (omega (arith, q.size, e)))

  granted : malloc host (to_size new.len) ≡ some (replicate new.len host.junk)
  unfolding malloc
  granted = rw (to_size-natural new.len k'.is_int, g new.len (omega (arith, k'.is_int))) refl

  replaced : replace_passwd host old new ≡ some new
  unfolding replace_passwd copy_passwd
  replaced =
      ap₂ (copy_passwd old.len new.len) (reads new k' same) granted
      ∙ rw
          (
            store_all (replicate new.len host.junk) k'.mem
                (length-replicate new.len host.junk ∙ sym k'.size),
            copy_passwd,
          )
          (ap some
            (Buffer-eq (record { len = new.len; buff = some k'.mem }) new refl (sym k'.allocated)))

  compared : compare_passwd host old new (some k.mem) (some k'.mem) ≡ some new
  unfolding compare_passwd
  compared = elim (Bool-cases (same_bytes k.mem k'.mem)) [
    | inl equal ↦ rw equal (
        ap some (
          Buffer-eq old new (sym same)
            (k.allocated ∙ ap some (same_bytes-eq k.mem k'.mem equal) ∙ sym k'.allocated)))
    | inr differ ↦ rw differ replaced
  ]

  pub adopt_passwd-same_length : adopt_passwd host old new ≡ some new
  unfolding adopt_passwd
  adopt_passwd-same_length =
      rw (ap (λ n. old.len == n) same ∙ ==-refl old.len)
        (ap₂ (compare_passwd host old new) (reads old k refl) (reads new k' same) ∙ compared)

stored-IsPasswd :
    (len : ℕ) (mem bytes : List ℕ) (p : Buffer)
    → 0 < length bytes
    → length bytes ≤ length mem
    → length mem ≡ len
    → len ≤ int_max
    → ◌≡◌ {A = Option Buffer}
        (some
          (record { len = len; buff = some (take 0 mem ++ bytes ++ drop (0 + length bytes) mem) }))
        (some p)
    → IsPasswd p
stored-IsPasswd len mem bytes p h l size is_int e =
    let same : ◌≡◌ {A = Buffer}
        (record { len = len; buff = some (take 0 mem ++ bytes ++ drop (0 + length bytes) mem) }) p =
      cc e in
    record {
      mem = take 0 mem ++ bytes ++ drop (0 + length bytes) mem;
      allocated = ap (λ (b : Buffer). b.buff) (sym same);
      size =
          omega (
            arith,
            length-append bytes (drop (0 + length bytes) mem),
            length-drop (0 + length bytes) mem,
            size,
          )
          ∙ ap (λ (b : Buffer). b.len) same;
      some_bytes = omega (arith, ap (λ (b : Buffer). b.len) same);
      is_int = omega (arith, ap (λ (b : Buffer). b.len) same);
    }

copy_passwd-IsPasswd :
    (old_len len : ℕ) (bytes mem : Option (List ℕ)) (p : Buffer)
    → 0 < old_len
    → ((bs : List ℕ) → bytes ≡ some bs → length bs ≡ old_len)
    → ((m : List ℕ) → mem ≡ some m → (length m ≡ len) × (len ≤ int_max))
    → copy_passwd old_len len bytes mem ≡ some p
    → IsPasswd p
unfolding copy_passwd store
copy_passwd-IsPasswd old_len len none mem p h b m e = absurd (cc e)
copy_passwd-IsPasswd old_len len (some bs) none p h b m e =
    absurd (cc (rw (ne→== old_len 0 (omega arith)) at e))
copy_passwd-IsPasswd old_len len (some bs) (some mem) p h b m e =
    elim (Bool-cases (leb (0 + length bs) (length mem))) [
      | inl fits ↦
          stored-IsPasswd len mem bs p (omega (arith, b bs refl)) (omega (arith, leb→le _ _ fits))
            (m mem refl).0 (m mem refl).1 (rw (fits, copy_passwd, store) at e)
      | inr over ↦ absurd (cc (rw (over, copy_passwd, store) at e))
    ]

load-length : (mem bs : List ℕ) (n : ℕ) → load mem 0 n ≡ some bs → length bs ≡ n
unfolding load
load-length mem bs n e = elim (Bool-cases (leb (0 + n) (length mem))) [
  | inl fits ↦
      let same : take n (drop 0 mem) ≡ bs = cc (rw fits at e) in
      sym (ap length same) ∙ length-take n mem ∙ omega (arith, leb→le _ _ fits)
  | inr over ↦ absurd (cc (rw over at e))
]

malloc_lem :
    (host : Host) (m : List ℕ) (n : ℕ)
    → malloc host n ≡ some m
    → (host.grants n ≡ true) × (length m ≡ n)
unfolding malloc
malloc_lem host m n e = elim (Bool-cases (host.grants n)) [
  | inl granted ↦
      let same : replicate n host.junk ≡ m = cc (rw granted at e) in
      (granted, sym (ap length same) ∙ length-replicate n host.junk)
  | inr refused ↦ absurd (cc (rw refused at e))
]

-- Whatever the reply, the password of the client stays well formed, where the new one is adopted at
-- all.
module _ (host : Host) (u : IsUsable host) (old new : Buffer) (k : IsPasswd old) where
  read-length :
      (buff : Option (List ℕ)) (bs : List ℕ)
      → read_bytes buff (to_size old.len) ≡ some bs
      → length bs ≡ old.len
  unfolding read_bytes
  read-length none bs e = absurd (
      cc
        (rw (to_size-natural old.len k.is_int, ne→== old.len 0 (omega (arith, k.some_bytes))) at e))
  read-length (some mem) bs e =
      load-length mem bs old.len (rw (to_size-natural old.len k.is_int) at e)

  malloc-length :
      (m : List ℕ)
      → malloc host (to_size new.len) ≡ some m
      → (length m ≡ new.len) × (new.len ≤ int_max)
  malloc-length m e = elim (Bool-cases (is_negative new.len)) [
    | inl neg ↦
        let huge : host.grants (to_size new.len) ≡ false =
          u.refuses_huge (to_size new.len) (rw neg (omega arith)) in
        absurd (cc ((malloc_lem host m (to_size new.len) e).0, huge))
    | inr nat ↦
        let small : new.len ≤ int_max = ltb→le int_max new.len nat in
        ((malloc_lem host m (to_size new.len) e).1 ∙ to_size-natural new.len small, small)
  ]

  replace_passwd-IsPasswd : (p : Buffer) → replace_passwd host old new ≡ some p → IsPasswd p
  unfolding replace_passwd
  replace_passwd-IsPasswd p e =
      copy_passwd-IsPasswd old.len new.len _ _ p k.some_bytes (read-length new.buff) malloc-length e

  compare_passwd-IsPasswd :
      (a b : Option (List ℕ)) (p : Buffer) → compare_passwd host old new a b ≡ some p → IsPasswd p
  unfolding compare_passwd
  compare_passwd-IsPasswd none b p e = absurd (cc e)
  compare_passwd-IsPasswd (some a) none p e = absurd (cc e)
  compare_passwd-IsPasswd (some a) (some b) p e = elim (Bool-cases (same_bytes a b)) [
    | inl equal ↦ let same : old ≡ p = cc (rw equal at e) in rw (← same) k
    | inr differ ↦ replace_passwd-IsPasswd p (rw differ at e)
  ]

  pub adopt_passwd-IsPasswd : (p : Buffer) → adopt_passwd host old new ≡ some p → IsPasswd p
  unfolding adopt_passwd
  adopt_passwd-IsPasswd p e = elim (Bool-cases (old.len == new.len)) [
    | inl same ↦ compare_passwd-IsPasswd _ _ p (rw same at e)
    | inr differ ↦ replace_passwd-IsPasswd p (rw differ at e)
  ]
