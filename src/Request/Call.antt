-- ===== src/Request/Call.antt =====
-- request.c: what the operations of the client share, from the request header to the reply header.
use zkclient.Prelude.{
  ℕ, ◌+◌, ◌%◌, Bool, false, not, ◌&&◌, none, some, List, [], ◌∷◌, ◌++◌, ◌==◌, if◌then◌else◌,
}
use zkclient.CInt.{is_negative}
use zkclient.Outcome.{Outcome, returns, undefined, Step, checked}
use zkclient.Host.{Host}
use zkclient.Archive.{BuffStruct}
use zkclient.Archive.Output.{create_buffer_oarchive}
use zkclient.Conn.{zk_ok, zk_error}
use zkclient.Client.{World, set_last_err}
use zkclient.Jute.Header.{serialize_request_header, ReplyHeader, deserialize_reply_header}
use zkclient.Request.Frame.{send_request, recv_response, Response}

-- A call on the mutex of the client.
pub data MutexCall : Type 0 where
  lock : MutexCall
  unlock : MutexCall

-- A client, the static variable of `get_xid` (util.c), and the calls on its mutex so far.
pub record Session : Type 0 where
  pub world : World
  pub xid : ℕ
  pub mutex : List MutexCall

abbrev pub log_mutex : MutexCall → Session → Session
log_mutex c s = record s { mutex = s.mutex ++ c ∷ [] }

-- An operation that writes its result through a pointer to an `A`.
abbrev pub Operation {ℓ} : Type ℓ → Type ℓ
Operation A = Step (A × Session)

-- `get_xid`, where `now` is what `time` returns: the value before the increment, and the variable
-- after it.
unfoldable pub get_xid : ℕ → ℕ → ℕ × ℕ
get_xid now xid =
    let xid' = if xid == 4294967295 then now else xid in (xid', (xid' + 1) % 4294967296)

-- -2 for a ping, which takes no new number.
unfoldable pub request_xid : ℕ → ℕ → ℕ → ℕ × ℕ
request_xid now opcode xid = if opcode == 11 then (4294967294, xid) else get_xid now xid

-- The memory of these calls has the archive beside the variable of `get_xid`.
unfoldable pub add_request_header : Host → ℕ → ℕ → Step BuffStruct
add_request_header host xid opcode =
    serialize_request_header host (record { xid = xid; type = opcode })

-- `header` is what the variable holds before it is read. The error is noted in the client.
unfoldable pub decode_reply_header :
    Host → ReplyHeader → BuffStruct → World → Outcome (BuffStruct × World)
decode_reply_header host header ia w = elim (deserialize_reply_header host (header, ia)) [
  | undefined ↦ undefined
  | returns rc r ↦
      let err = if is_negative rc then zk_error else r.0.err in
      returns err (r.1, set_last_err err w)
]

-- The archive of a request: its header, and then its record. A null archive is written through.
unfoldable pub build_request : Host → ℕ → ℕ → Step BuffStruct → Outcome BuffStruct
build_request host xid opcode body = elim (create_buffer_oarchive host) [
  | none ↦ undefined
  | some oa ↦ checked (add_request_header host xid opcode) body oa
]

-- `rc = rc < 0 ? rc : send_request(c, oa);`.
unfoldable pub send_built : Host → World → Outcome BuffStruct → Outcome World
send_built host w undefined = undefined
send_built host w (returns rc oa) = if is_negative rc then returns rc w else send_request host oa w

-- A null pointer from `recv_response` makes the error of the client that of the call.
unfoldable pub take_response : Response → Response
take_response undefined = undefined
take_response (returns rc (some ia, w)) = returns 0 (some ia, w)
take_response (returns rc (none, w)) = returns w.client.last_err (none, w)

-- `if (rc != ZK_OK || !(ia = recv_response(c)))`: the error, or 0 with the archive of the reply.
unfoldable pub recv_sent : Host → Outcome World → Response
recv_sent host undefined = undefined
recv_sent host (returns rc w) =
    if rc == zk_ok then take_response (recv_response host w) else returns rc (none, w)

-- What a request needs beside the client: the machine, the time, and what the uninitialised
-- `reply_header` holds.
pub record Context : Type 0 where
  pub host : Host
  pub now : ℕ
  pub reply_header : ReplyHeader

-- What comes after the reply header: its error, its archive, and the memory.
abbrev pub Finish {ℓ} : Type ℓ → Type ℓ
Finish A = ℕ → BuffStruct → Operation A

-- From `decode_reply_header` on. An error that the operation does not tolerate goes to the label
-- ERROR, which unlocks the mutex a second time.
unfoldable pub read_header {ℓ} :
    {A : Type ℓ}
    → (ℕ → Bool)
    → Finish A
    → A × Session
    → Outcome (BuffStruct × World)
    → Outcome (A × Session)
read_header tolerates finish s undefined = undefined
read_header tolerates finish (out, s) (returns err (ia, w)) =
    let s' : Session = record s { world = w } in
    if not (err == 0) && not (tolerates err)
    then returns err (out, log_mutex MutexCall.unlock s')
    else finish err ia (out, s')

-- After the exchange the mutex is unlocked, at the label ERROR or in front of the reply header.
unfoldable pub after_exchange {ℓ} :
    {A : Type ℓ} → Context → (ℕ → Bool) → Finish A → A × Session → Response → Outcome (A × Session)
after_exchange k tolerates finish s undefined = undefined
after_exchange k tolerates finish (out, s) (returns err (none, w)) =
    returns err (out, log_mutex MutexCall.unlock (record s { world = w }))
after_exchange k tolerates finish (out, s) (returns err (some ia, w)) =
    read_header tolerates finish (out, log_mutex MutexCall.unlock (record s { world = w }))
      (decode_reply_header k.host k.reply_header ia w)

-- The lines that zk_create, zk_exists, zk_get, zk_del, zk_set and zk_get_children share. `first` is
-- the call on the mutex before the exchange.
unfoldable pub request {ℓ} :
    {A : Type ℓ} → Context → ℕ → MutexCall → Step BuffStruct → (ℕ → Bool) → Finish A → Operation A
request k opcode first body tolerates finish (out, s) =
    let x = request_xid k.now opcode s.xid in
    let s' : Session = log_mutex first (record s { xid = x.1 }) in
    after_exchange k tolerates finish (out, s')
      (recv_sent k.host (send_built k.host s.world (build_request k.host x.0 opcode body)))

abbrev pub no_error : ℕ → Bool
no_error err = false
