-- ===== src/Request/KeptNodes.antt =====
-- request.c: `zk_mkdir` does not change the password of the client.
use zkclient.Prelude.{
  ℕ, ◌+◌, ◌≡◌, inl, inr, Bool-cases, Option, none, some, List, ◌==◌, zero, suc, Option-cases,
  length,
}
use zkclient.Outcome.{Outcome, returns, undefined, Step}
use zkclient.Host.{Host, malloc}
use zkclient.Archive.{Buffer}
use zkclient.Conn.{zk_ok}
use zkclient.Request.Call.{Session}
use zkclient.Request.Operations.{znonode}
use zkclient.Request.Mkdir.{
  with_parent, make_missing, created, mkdir_with, CreateCall, next_call, create_node, zk_mkdir,
}
use zkclient.Request.Kept.{passwd_of, LeavesPasswd, zk_create-LeavesPasswd}

-- The password that `zk_mkdir` leaves; its session has the number of the call beside it.
abbrev pub LeavesNode : Buffer → Outcome (ℕ × Session) → Type 0
LeavesNode p undefined = Unit
LeavesNode p (returns rc (n, s)) = passwd_of s ≡ p

next_call-LeavesNode :
    (p : Buffer) (n : ℕ) (o : Outcome {0} (Unit × Session))
    → LeavesPasswd p o
    → LeavesNode p (next_call n o)
unfolding next_call
next_call-LeavesNode p n undefined h = tt
next_call-LeavesNode p n (returns rc (out, s)) h = h

module _ (p : Buffer) (host : Host) (calls : ℕ → CreateCall) where
  create_node-LeavesNode :
      (path : List ℕ) (n : ℕ) (s : Session)
      → passwd_of s ≡ p
      → LeavesNode p (create_node calls path (n, s))
  unfolding create_node
  create_node-LeavesNode path n s e =
      next_call-LeavesNode p n _
        (zk_create-LeavesPasswd p (calls n).context (calls n).resp (some path) none 0 0 tt s e)

  created-LeavesNode :
      (make_parent : List ℕ → Step (ℕ × Session)) (path : List ℕ)
      → ((q : List ℕ) (n : ℕ) (s : Session) → passwd_of s ≡ p → LeavesNode p (make_parent q (n, s)))
      → (place : Option (List ℕ × List ℕ)) (o : Outcome (ℕ × Session)) → LeavesNode p o
      → LeavesNode p (created host make_parent (create_node calls path) place o)
  unfolding created make_missing with_parent
  created-LeavesNode make_parent path ih place undefined h = tt
  created-LeavesNode make_parent path ih place (returns status (n, s)) h =
      elim (Bool-cases (status == znonode)) [
        | inr other ↦ rw other h
        | inl missing ↦ rw missing (parent place)
      ]
    where
      again :
          (o : Outcome (ℕ × Session))
          → LeavesNode p o
          → LeavesNode p (with_parent (create_node calls path) o)
      again undefined h = tt
      again (returns rc (m, s')) h = elim (Bool-cases (rc == zk_ok)) [
        | inl ok ↦ rw ok (create_node-LeavesNode path m s' h)
        | inr bad ↦ rw bad h
      ]

      parent :
          (place : Option (List ℕ × List ℕ))
          → LeavesNode p (make_missing host make_parent (create_node calls path) place (n, s))
      parent none = tt
      parent (some (q, name)) = elim (Option-cases (malloc host (length q + 1))) [
        | inl refused ↦ rw (refused, make_missing) tt
        | inr (mem, granted) ↦ rw (granted, make_missing) (again _ (ih q n s h))
      ]

  mkdir_with-LeavesNode :
      (fuel : ℕ) (path : List ℕ) (n : ℕ) (s : Session)
      → passwd_of s ≡ p
      → LeavesNode p (mkdir_with host (create_node calls) fuel path (n, s))
  unfolding mkdir_with
  mkdir_with-LeavesNode zero path n s e = tt
  mkdir_with-LeavesNode (suc fuel) path n s e =
      created-LeavesNode _ path (mkdir_with-LeavesNode fuel) _ _ (create_node-LeavesNode path n s e)

  pub zk_mkdir-LeavesNode :
      (path : List ℕ) (n : ℕ) (s : Session)
      → passwd_of s ≡ p
      → LeavesNode p (zk_mkdir host calls path (n, s))
  unfolding zk_mkdir
  zk_mkdir-LeavesNode path n s e = mkdir_with-LeavesNode (length path + 1) path n s e
