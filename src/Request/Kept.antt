-- ===== src/Request/Kept.antt =====
-- request.c: no operation changes the password of the client, whatever the server answers.
use zkclient.Prelude.{
  ℕ, ◌≡◌, ◌∙◌, refl, ap, Bool, not, ◌&&◌, inl, inr, Bool-cases, ◌⊎◌, Option, none, some, List, ◌==◌,
}
use zkclient.CInt.{is_negative}
use zkclient.Outcome.{Outcome, returns, undefined, Step}
use zkclient.Archive.{BuffStruct, Buffer, CString}
use zkclient.Jute.Data.{
  GetDataResponse, deserialize_get_data_response, SetDataResponse, deserialize_set_data_response,
}
use zkclient.Jute.Exists.{ExistsResponse, deserialize_exists_response}
use zkclient.Jute.Children.{GetChildrenResponse, deserialize_get_children_response}
use zkclient.Jute.Node.{CreateResponse, deserialize_create_response}
use zkclient.Jute.Stat.{Stat}
use zkclient.Jute.Watch.{StringVector}
use zkclient.Jute.Header.{deserialize_reply_header}
use zkclient.Client.{ZkClient, World}
use zkclient.Request.Frame.{Response}
use zkclient.Request.Call.{
  MutexCall, Session, Context, Finish, request, decode_reply_header, after_exchange, read_header,
  no_error,
}
use zkclient.Request.Operations.{
  zk_get, get_end, zk_get_children, get_children_end, zk_set, set_end, zk_del, zk_exists,
  exists_end, zk_create, create_end, znonode,
}
use zkclient.Request.Keeps.{KeepsResponse, exchange-Keeps}

abbrev pub passwd_of : Session → Buffer
passwd_of s = s.world.client.passwd

-- The password after a call that returns.
abbrev pub LeavesPasswd {ℓ} : {A : Type ℓ} → Buffer → Outcome (A × Session) → Type 0
LeavesPasswd p undefined = Unit
LeavesPasswd p (returns rc r) = passwd_of r.1 ≡ p

abbrev FinishKeeps {ℓ} : {A : Type ℓ} → Buffer → Finish A → Type ℓ
FinishKeeps {A = A} p finish =
    (err : ℕ) (ia : BuffStruct) (out : A) (s : Session)
    → passwd_of s ≡ p
    → LeavesPasswd p (finish err ia (out, s))

pub Outcome-cases {ℓ} :
    {S : Type ℓ} (o : Outcome S) → (o ≡ undefined) ⊎ ((rc : ℕ) × (s : S) × (o ≡ returns rc s))
Outcome-cases undefined = inl refl
Outcome-cases (returns rc s) = inr (rc, s, refl)

abbrev WorldHas : Buffer → Outcome (BuffStruct × World) → Type 0
WorldHas p undefined = Unit
WorldHas p (returns rc (ia, w)) = w.client.passwd ≡ p

decode_reply_header-WorldHas :
    (p : Buffer) (k : Context) (ia : BuffStruct) (w : World)
    → w.client.passwd ≡ p
    → WorldHas p (decode_reply_header k.host k.reply_header ia w)
unfolding decode_reply_header
decode_reply_header-WorldHas p k ia w e =
    elim (Outcome-cases (deserialize_reply_header k.host (k.reply_header, ia))) [
      | inl wrong ↦ rw (wrong, decode_reply_header) tt
      | inr (rc, r, read) ↦ rw (read, decode_reply_header) e
    ]

module _ {A : Type 0} (p : Buffer) (tolerates : ℕ → Bool) (finish : Finish A)
    (h : FinishKeeps p finish) where
  read_header-LeavesPasswd :
      (out : A) (s : Session) (o : Outcome (BuffStruct × World))
      → WorldHas p o
      → LeavesPasswd p (read_header tolerates finish (out, s) o)
  unfolding read_header
  read_header-LeavesPasswd out s undefined k = tt
  read_header-LeavesPasswd out s (returns err (ia, w)) k =
      elim (Bool-cases (not (err == 0) && not (tolerates err))) [
        | inl bad ↦ rw bad k
        | inr ok ↦ rw ok (h err ia out (record s { world = w }) k)
      ]

  after_exchange-LeavesPasswd :
      (k : Context) (out : A) (s : Session) (w : World) (o : Response)
      → w.client.passwd ≡ p
      → KeepsResponse w o
      → LeavesPasswd p (after_exchange k tolerates finish (out, s) o)
  unfolding after_exchange
  after_exchange-LeavesPasswd k out s w undefined e keeps = tt
  after_exchange-LeavesPasswd k out s w (returns err (none, w')) e keeps =
      ap (λ (c : ZkClient). c.passwd) keeps ∙ e
  after_exchange-LeavesPasswd k out s w (returns err (some ia, w')) e keeps =
      read_header-LeavesPasswd out _ _
        (decode_reply_header-WorldHas p k ia w' (ap (λ (c : ZkClient). c.passwd) keeps ∙ e))

  pub request-LeavesPasswd :
      (k : Context) (opcode : ℕ) (first : MutexCall) (body : Step BuffStruct) (out : A)
      (s : Session)
      → passwd_of s ≡ p
      → LeavesPasswd p (request k opcode first body tolerates finish (out, s))
  unfolding request
  request-LeavesPasswd k opcode first body out s e =
      after_exchange-LeavesPasswd k out _ s.world _ e (exchange-Keeps k.host s.world _)

pub zk_get-LeavesPasswd :
    (p : Buffer) (k : Context) (resp : GetDataResponse) (path : CString) (out : Buffer)
    (s : Session)
    → passwd_of s ≡ p
    → LeavesPasswd p (zk_get k resp path (out, s))
unfolding zk_get get_end
zk_get-LeavesPasswd p k resp none out s e = e
zk_get-LeavesPasswd p k resp (some path) out s e =
    request-LeavesPasswd p no_error (get_end k.host resp) finish k 4 MutexCall.lock _ out s e
  where
    finish : FinishKeeps p (get_end k.host resp)
    finish err ia out s e = elim (Outcome-cases (deserialize_get_data_response k.host (resp, ia))) [
      | inl wrong ↦ rw (wrong, get_end) tt
      | inr (rc, r, read) ↦
          rw (read, get_end)
            (elim (Bool-cases (is_negative rc)) [ inl bad ↦ rw bad e | inr ok ↦ rw ok e ])
    ]

pub zk_get_children-LeavesPasswd :
    (p : Buffer) (k : Context) (resp : GetChildrenResponse) (path : CString) (out : StringVector)
    (s : Session)
    → passwd_of s ≡ p
    → LeavesPasswd p (zk_get_children k resp path (out, s))
unfolding zk_get_children get_children_end
zk_get_children-LeavesPasswd p k resp none out s e = e
zk_get_children-LeavesPasswd p k resp (some path) out s e =
    request-LeavesPasswd p no_error (get_children_end k.host resp) finish k 8 MutexCall.lock _ out s
      e
  where
    finish : FinishKeeps p (get_children_end k.host resp)
    finish err ia out s e =
        elim (Outcome-cases (deserialize_get_children_response k.host (resp, ia))) [
          | inl wrong ↦ rw (wrong, get_children_end) tt
          | inr (rc, r, read) ↦
              rw (read, get_children_end)
                (elim (Bool-cases (is_negative rc)) [ inl bad ↦ rw bad e | inr ok ↦ rw ok e ])
        ]

pub zk_set-LeavesPasswd :
    (p : Buffer) (k : Context) (resp : SetDataResponse) (path : CString) (value : Buffer)
    (out : Unit {0}) (s : Session)
    → passwd_of s ≡ p
    → LeavesPasswd p (zk_set k resp path value (out, s))
unfolding zk_set set_end
zk_set-LeavesPasswd p k resp none value out s e = e
zk_set-LeavesPasswd p k resp (some path) value out s e =
    request-LeavesPasswd p no_error (set_end k.host resp) finish k 5 MutexCall.lock _ out s e
  where
    finish : FinishKeeps p (set_end k.host resp)
    finish err ia out s e = elim (Outcome-cases (deserialize_set_data_response k.host (resp, ia))) [
      | inl wrong ↦ rw (wrong, set_end) tt
      | inr (rc, r, read) ↦ rw (read, set_end) e
    ]

pub zk_create-LeavesPasswd :
    (p : Buffer) (k : Context) (resp : CreateResponse) (path : CString) (value : Option (List ℕ))
    (size flags : ℕ) (out : Unit {0}) (s : Session)
    → passwd_of s ≡ p
    → LeavesPasswd p (zk_create k resp path value size flags (out, s))
unfolding zk_create create_end
zk_create-LeavesPasswd p k resp none value size flags out s e = e
zk_create-LeavesPasswd p k resp (some path) value size flags out s e =
    request-LeavesPasswd p no_error (create_end k.host resp) finish k 1 MutexCall.lock _ out s e
  where
    finish : FinishKeeps p (create_end k.host resp)
    finish err ia out s e = elim (Outcome-cases (deserialize_create_response k.host (resp, ia))) [
      | inl wrong ↦ rw (wrong, create_end) tt
      | inr (rc, r, read) ↦ rw (read, create_end) e
    ]

pub zk_del-LeavesPasswd :
    (p : Buffer) (k : Context) (path : CString) (out : Unit {0}) (s : Session)
    → passwd_of s ≡ p
    → LeavesPasswd p (zk_del k path (out, s))
unfolding zk_del
zk_del-LeavesPasswd p k none out s e = e
zk_del-LeavesPasswd p k (some path) out s e =
    request-LeavesPasswd p no_error _ (λ err ia out s e. e) k 2 MutexCall.unlock _ out s e

pub zk_exists-LeavesPasswd :
    (p : Buffer) (k : Context) (resp : ExistsResponse) (path : CString) (out : Stat) (s : Session)
    → passwd_of s ≡ p
    → LeavesPasswd p (zk_exists k resp path (out, s))
unfolding zk_exists exists_end
zk_exists-LeavesPasswd p k resp none out s e = e
zk_exists-LeavesPasswd p k resp (some path) out s e =
    request-LeavesPasswd p (λ err. err == znonode) (exists_end k.host resp) finish k 3
      MutexCall.lock _ out s e
  where
    finish : FinishKeeps p (exists_end k.host resp)
    finish err ia out s e = elim (Bool-cases (err == znonode)) [
      | inl missing ↦ rw missing e
      | inr other ↦ rw other (elim (Outcome-cases (deserialize_exists_response k.host (resp, ia))) [
        | inl wrong ↦ rw (wrong, exists_end) tt
        | inr (rc, r, read) ↦ rw (read, exists_end) e
      ])
    ]
