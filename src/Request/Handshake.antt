-- ===== src/Request/Handshake.antt =====
-- request.c: what a handshake makes of the client.
use zkclient.Prelude.{
  ℕ, ◌+◌, ◌<◌, ◌≡◌, refl, ap, some, none, Option, List, length, lt→leb, ne→==, arith,
}
use zkclient.CInt.{to_size-natural}
use zkclient.Outcome.{Outcome, returns, undefined}
use zkclient.Host.{Host, load}
use zkclient.Archive.{BuffStruct, Buffer}
use zkclient.Archive.Output.{read_bytes}
use zkclient.Archive.Safety.{IsUsable}
use zkclient.Client.{ZkClient, World}
use zkclient.Jute.Connect.{ConnectResponse, deserialize_connect_response}
use zkclient.Request.Frame.{Response}
use zkclient.Request.Authenticate.{
  build_connect_request, copy_passwd, replace_passwd, adopt_passwd, auth_adopt, auth_read, auth_end,
  authenticate,
}
use zkclient.Request.Keeps.{KeepsResponse, exchange-Keeps}
use zkclient.Request.Passwd.{IsPasswd, adopt_passwd-IsPasswd}

abbrev pub HasPasswd : Outcome World → Type 0
HasPasswd undefined = Unit
HasPasswd (returns rc w) = IsPasswd w.client.passwd

auth_adopt-HasPasswd :
    (rc : ℕ) (resp : ConnectResponse) (w : World) (p : Option Buffer)
    → ((q : Buffer) → p ≡ some q → IsPasswd q)
    → HasPasswd (auth_adopt rc resp w p)
unfolding auth_adopt
auth_adopt-HasPasswd rc resp w none h = tt
auth_adopt-HasPasswd rc resp w (some q) h = h q refl

auth_end-HasPasswd :
    (host : Host) (u : IsUsable host) (resp : ConnectResponse) (w : World) (o : Response)
    → IsPasswd w.client.passwd
    → KeepsResponse w o
    → HasPasswd (auth_end host resp o)
unfolding auth_end auth_read
auth_end-HasPasswd host u resp w undefined k h = tt
auth_end-HasPasswd host u resp w (returns rc (none, w')) k h =
    rw (ap (λ (c : ZkClient). c.passwd) h) k
auth_end-HasPasswd host u resp w (returns rc (some ia, w')) k h =
    read (deserialize_connect_response host (resp, ia))
  where
    read : (o : Outcome (ConnectResponse × BuffStruct)) → HasPasswd (auth_read host w' o)
    read undefined = tt
    read (returns rc' (r, ia')) = auth_adopt-HasPasswd rc' r w' _ (
        adopt_passwd-IsPasswd host u w'.client.passwd r.passwd
          (rw (ap (λ (c : ZkClient). c.passwd) h) k))

-- Whatever the server answers and however the socket behaves, a call of `authenticate` that
-- returns leaves a client whose password is well formed, if it was before: as many bytes as its
-- length says, and not empty. The allocator refuses what exceeds the
-- largest object.
pub authenticate-HasPasswd :
    (host : Host) (resp : ConnectResponse) (w : World)
    → IsUsable host
    → IsPasswd w.client.passwd
    → HasPasswd (authenticate host resp w)
unfolding authenticate
authenticate-HasPasswd host resp w u k =
    auth_end-HasPasswd host u resp w _ k
      (exchange-Keeps host w (build_connect_request host w.client))

-- A reply whose password is shorter than the well-formed one of the client makes `authenticate`
-- copy bytes from behind the new one: the access is outside of its memory.
pub adopt_passwd-shorter :
    (host : Host) (old new : Buffer) (mem : List ℕ)
    → IsPasswd old
    → new.buff ≡ some mem
    → length mem ≡ new.len
    → new.len < old.len
    → adopt_passwd host old new ≡ none
unfolding adopt_passwd replace_passwd copy_passwd read_bytes load
adopt_passwd-shorter host old new mem k e size shorter = rw (ne→== old.len new.len (omega arith)) (
    rw (to_size-natural old.len k.is_int)
      (rw e (rw (lt→leb (0 + old.len) (length mem) (omega (arith, size)), adopt_passwd) refl)))
