-- ===== src/Request/Mkdir.antt =====
-- request.c: `zk_mkdir`, with `zk_create` as a function from a path to a step.
use zkclient.Prelude.{ℕ, zero, suc, ◌+◌, Option, none, some, List, length, ◌==◌, if◌then◌else◌}
use zkclient.Outcome.{Outcome, returns, undefined, Step}
use zkclient.Host.{Host, malloc}
use zkclient.Conn.{zk_ok}
use zkclient.Jute.Node.{CreateResponse}
use zkclient.Request.Call.{Session, Context}
use zkclient.Request.Operations.{znonode, zk_create}
use zkclient.Util.Last.{split_last}

-- After the call for the parent: the node is created once more, or the status is returned.
unfoldable pub with_parent {ℓ} : {S : Type ℓ} → Step S → Outcome S → Outcome S
with_parent again undefined = undefined
with_parent again (returns status s) = if status == zk_ok then again s else returns status s

-- A missing parent: `make_parent` is the recursive call. Without a '/' the path has no parent, and the
-- null pointer of `strrchr` is used as a place in it. The memory for the parent is written unchecked.
unfoldable pub make_missing {ℓ} :
    {S : Type ℓ} → Host → (List ℕ → Step S) → Step S → Option (List ℕ × List ℕ) → Step S
make_missing host make_parent again none s = undefined
make_missing host make_parent again (some (parent, name)) s =
    elim (malloc host (length parent + 1)) [
      | none ↦ undefined
      | some mem ↦ with_parent again (make_parent parent s)
    ]

unfoldable pub created {ℓ} :
    {S : Type ℓ}
    → Host
    → (List ℕ → Step S)
    → Step S
    → Option (List ℕ × List ℕ)
    → Outcome S
    → Outcome S
created host make_parent again place undefined = undefined
created host make_parent again place (returns status s) =
    if status == znonode then make_missing host make_parent again place s else returns status s

-- The recursion goes to a shorter path each time; without fuel it does not return.
unfoldable pub mkdir_with {ℓ} : {S : Type ℓ} → Host → (List ℕ → Step S) → ℕ → List ℕ → Step S
mkdir_with host create zero path s = undefined
mkdir_with host create (suc fuel) path s =
    created host (mkdir_with host create fuel) (create path) (split_last b'/' path) (create path s)

-- What one call of `zk_create` finds: the time and the uninitialised variables.
pub record CreateCall : Type 0 where
  pub context : Context
  pub resp : CreateResponse

unfoldable pub next_call : ℕ → Outcome {0} (Unit × Session) → Outcome (ℕ × Session)
next_call n undefined = undefined
next_call n (returns rc (out, s)) = returns rc (n + 1, s)

-- A persistent node without data. The session has the number of the call beside it.
unfoldable pub create_node : (ℕ → CreateCall) → List ℕ → Step (ℕ × Session)
create_node calls path (n, s) =
    next_call n (zk_create (calls n).context (calls n).resp (some path) none 0 0 (tt, s))

unfoldable pub zk_mkdir : Host → (ℕ → CreateCall) → List ℕ → Step (ℕ × Session)
zk_mkdir host calls path s = mkdir_with host (create_node calls) (length path + 1) path s
