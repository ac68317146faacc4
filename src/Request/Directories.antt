-- ===== src/Request/Directories.antt =====
-- request.c: `zk_mkdir` as two loops, up to a directory that can be made and down again.
use zkclient.Prelude.{
  ℕ, zero, suc, ◌+◌, ◌≤◌, ◌<◌, ◌≡◌, refl, ap, ◌∙◌, inl, inr, Bool-cases, none, some, Option, List,
  [], ◌∷◌, ◌++◌, map, length, ◌==◌, if◌then◌else◌, arith,
}
use zkclient.Outcome.{Outcome, returns, undefined, Step}
use zkclient.Host.{Host, malloc}
use zkclient.Archive.Loads.{IsGenerous}
use zkclient.Conn.{zk_ok}
use zkclient.Request.Call.{Session}
use zkclient.Request.Operations.{znonode}
use zkclient.Request.Mkdir.{
  with_parent, make_missing, created, mkdir_with, CreateCall, create_node, zk_mkdir,
}
use zkclient.Util.Last.{split_last, split_last-shorter}

-- The directories above a path, the nearest first: what stands before each of its '/'.
abbrev pub directories : List ℕ → List (List ℕ)
directories [] = []
directories (c ∷ path) = map (λ d. c ∷ d) (directories path) ++ (if c == b'/' then [] ∷ [] else [])

module _ {S : Type 0} (create : List ℕ → Step S) where
  abbrev pub then_create : List ℕ → Outcome S → Outcome S
  then_create path undefined = undefined
  then_create path (returns status s) = if status == zk_ok then create path s else returns status s

  -- The way down: one path after the other is created, as long as that succeeds.
  abbrev pub descend : List (List ℕ) → Outcome S → Outcome S
  descend [] o = o
  descend (path ∷ pending) o = descend pending (then_create path o)

  abbrev pub climb_on : List (List ℕ) → Step S → Outcome S → Outcome S
  climb_on pending up undefined = undefined
  climb_on pending up (returns status s) =
      if status == znonode then up s else descend pending (returns status s)

  -- The way up: a path whose creation reports a missing parent waits, and its parent is next. Above the
  -- last one there is a null pointer.
  abbrev pub climb : List (List ℕ) → List ℕ → List (List ℕ) → Step S
  climb [] path pending s = climb_on pending (λ s'. undefined) (create path s)
  climb (parent ∷ above) path pending s =
      climb_on pending (climb above parent (path ∷ pending)) (create path s)

-- The directories, as `strrchr` finds them one after the other.
data IsChain : List ℕ → List (List ℕ) → Type 0 where
  chain_end : (path : List ℕ) → split_last b'/' path ≡ none → IsChain path []
  chain_up :
      (path parent name : List ℕ) (above : List (List ℕ))
      → split_last b'/' path ≡ some (parent, name)
      → IsChain parent above
      → IsChain path (parent ∷ above)

IsChain-more :
    (c : ℕ) (path : List ℕ) (above : List (List ℕ))
    → IsChain path above
    → IsChain (c ∷ path) (map (λ d. c ∷ d) above ++ (if c == b'/' then [] ∷ [] else []))
unfolding split_last
IsChain-more c path above (chain_end _ e) = elim (Bool-cases (c == b'/')) [
  | inl slash ↦
      rw slash
        (chain_up (c ∷ path) [] path [] (rw (e, split_last) (rw slash refl)) (chain_end [] refl))
  | inr other ↦ rw other (chain_end (c ∷ path) (rw (e, split_last) (rw other refl)))
]
IsChain-more c path above (chain_up _ parent name rest e ch) =
    chain_up (c ∷ path) (c ∷ parent) name _ (rw (e, split_last) refl)
      (IsChain-more c parent rest ch)

directories-IsChain : (path : List ℕ) → IsChain path (directories path)
unfolding split_last
directories-IsChain [] = chain_end [] refl
directories-IsChain (c ∷ path) = IsChain-more c path (directories path) (directories-IsChain path)

module _ {S : Type 0} (host : Host) (create : List ℕ → Step S) (g : IsGenerous host) where
  descend-undefined : (pending : List (List ℕ)) → descend create pending undefined ≡ undefined
  descend-undefined [] = refl
  descend-undefined (path ∷ pending) = descend-undefined pending

  with_parent-then_create :
      (path : List ℕ) (o : Outcome S) → with_parent (create path) o ≡ then_create create path o
  unfolding with_parent
  with_parent-then_create path undefined = refl
  with_parent-then_create path (returns status s) = refl

  created-climb_on :
      (make_parent : List ℕ → Step S) (up : Step S) (path : List ℕ) (pending : List (List ℕ))
      (place : Option (List ℕ × List ℕ)) (o : Outcome S)
      → ((s : S)
          → descend create pending (make_missing host make_parent (create path) place s) ≡ up s)
      → descend create pending (created host make_parent (create path) place o)
        ≡ climb_on create pending up o
  unfolding created
  created-climb_on make_parent up path pending place undefined h = descend-undefined pending
  created-climb_on make_parent up path pending place (returns status s) h =
      elim (Bool-cases (status == znonode)) [
        | inl missing ↦ rw missing (h s)
        | inr other ↦ rw other refl
      ]

  mkdir_with-climb :
      (fuel : ℕ) (path : List ℕ) (above pending : List (List ℕ)) (s : S)
      → length path < fuel
      → length path ≤ 67108864
      → IsChain path above
      → descend create pending (mkdir_with host create fuel path s)
        ≡ climb create above path pending s
  unfolding mkdir_with make_missing malloc
  mkdir_with-climb zero path above pending s l small ch = absurd (omega arith)
  mkdir_with-climb (suc fuel) path above pending s l small (chain_end _ e) =
      created-climb_on (mkdir_with host create fuel) (λ s'. undefined) path pending _
        (create path s) (λ s'. rw (e, make_missing) (descend-undefined pending))
  mkdir_with-climb (suc fuel) path above pending s l small (chain_up _ parent name rest e ch) =
      let smaller : length parent < length path = split_last-shorter b'/' path parent name e in
      created-climb_on (mkdir_with host create fuel) (climb create rest parent (path ∷ pending))
        path pending _ (create path s)
        (λ s'.
          rw (e, make_missing)
            (rw (g (length parent + 1) (omega (arith, smaller, small)), make_missing)
              (ap (descend create pending) (with_parent-then_create path _)
                ∙ mkdir_with-climb fuel parent rest (path ∷ pending) s' (omega (arith, smaller, l))
                    (omega (arith, smaller, small)) ch)))

-- `zk_mkdir` is two loops, whatever the server answers. On the way up it calls `zk_create` for the path
-- and then for the directories above it, the nearest first, as long as it reports a missing node; at the
-- first other result it turns, and calls it for those that were missing once more, from the top down, as
-- long as it succeeds. The result is that of the last call. The path has at most 2 ^ 26 bytes, and the
-- allocator answers; fuel for one more call than the path has bytes is enough.
pub zk_mkdir-climb :
    (host : Host) (calls : ℕ → CreateCall) (path : List ℕ) (s : ℕ × Session)
    → IsGenerous host
    → length path ≤ 67108864
    → zk_mkdir host calls path s ≡ climb (create_node calls) (directories path) path [] s
unfolding zk_mkdir
zk_mkdir-climb host calls path s g small =
    mkdir_with-climb host (create_node calls) g (length path + 1) path (directories path) [] s
      (omega arith) small (directories-IsChain path)
