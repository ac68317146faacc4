-- ===== src/Client/Pings.antt =====
-- zkclient.c: what a turn of the ping thread does to the session.
use zkclient.Prelude.{
  ℕ, ◌+◌, ◌-◌, ◌/◌, ◌≤◌, ◌<◌, ◌≡◌, refl, sym, ap, ap₂, ◌∙◌, Bool, true, false, le→ltb, le→leb,
  lt→leb, ltb, leb, ltb→lt, ltb→le, inl, inr, Bool-cases, List, [], ◌∷◌, ◌++◌, append-nil,
  append_assoc, length, if◌then◌else◌, arith,
}
use zkclient.CInt.{int_max, int_lt, int_sub, int_lt-natural, int_sub-natural}
use zkclient.Outcome.{Outcome, returns}
use zkclient.Archive.Invariant.{capacity}
use zkclient.Archive.Loads.{IsGenerous}
use zkclient.Conn.{cr_read, cr_write}
use zkclient.Client.{ZkClient}
use zkclient.Client.PingLoop.{int_quot, ping_interval, client_of, set_last_ping, pinged, ping_round}
use zkclient.Jute.Header.{ReplyHeader}
use zkclient.Jute.Header.Codec.{IsReplyHeader, wire_request_header, wire_reply_header}
use zkclient.Request.Stream.{IsPlain, stream}
use zkclient.Request.Writing.{IsSteady, room}
use zkclient.Request.Framing.{framed, IsReady}
use zkclient.Request.Call.{MutexCall, Session, Context}
use zkclient.Request.Operations.{zk_ping}
use zkclient.Request.Answered.{polled_once}
use zkclient.Request.Ping.{ping_header, Pinged, zk_ping-Pinged}

int_quot_natural : (v d : ℕ) → v ≤ int_max → int_quot v d ≡ v / d
unfolding int_quot
int_quot_natural v d h = rw (le→ltb int_max v h) refl

interval_natural :
    (c : ZkClient) → c.session_timeout ≤ int_max → ping_interval c ≡ c.session_timeout / 1000 / 6
unfolding ping_interval
interval_natural c h =
    ap (λ v. int_quot v 6) (int_quot_natural c.session_timeout 1000 h)
    ∙ int_quot_natural (c.session_timeout / 1000) 6 (omega arith)

-- The last ping is a sixth of the session's time-out old, in seconds rounded down, or older.
abbrev pub is_due : ℕ → ZkClient → Bool
is_due now c = leb (c.session_timeout / 1000 / 6) (now - c.last_ping)

-- A ping and its answer when it is due, and nothing when it is not.
pub record KeptAlive (s : Session) (now : ℕ) (due : Bool) (o : Outcome Session) (rest : List ℕ)
    : Type 0 where
  pub left : Session
  pub returned : o ≡ returns 0 left
  pub idle : due ≡ false → left ≡ s
  pub sent :
      left.world.net.sent
      ≡ s.world.net.sent ++ (if due then framed (wire_request_header ping_header ++ []) else [])
  pub mutex : left.mutex ≡ s.mutex ++ (if due then MutexCall.lock ∷ MutexCall.unlock ∷ [] else [])
  pub behind : stream left.world.net.reads ≡ (if due then rest else stream s.world.net.reads)
  pub noted : (client_of left).last_ping ≡ (if due then now else (client_of s).last_ping)
  pub recent : now - (client_of left).last_ping < (client_of s).session_timeout / 1000 / 6 + 1

test_of_interval :
    (c : ZkClient) (now : ℕ)
    → c.last_ping ≤ now
    → now ≤ int_max
    → c.session_timeout ≤ int_max
    → int_lt (int_sub now c.last_ping) (ping_interval c)
      ≡ ltb (now - c.last_ping) (c.session_timeout / 1000 / 6)
test_of_interval c now past small timeout =
    ap₂ int_lt (int_sub-natural now c.last_ping past small) (interval_natural c timeout)
    ∙ int_lt-natural (now - c.last_ping) (c.session_timeout / 1000 / 6) (omega arith) (omega arith)

pinged-KeptAlive :
    (now err : ℕ) (s : Session) (o : Outcome Session) (rest : List ℕ)
    → Pinged s o err rest
    → KeptAlive s now true (pinged now o) rest
unfolding pinged
pinged-KeptAlive now err s o rest p = record {
  left = set_last_ping now p.left;
  returned = ap (pinged now) p.returned;
  idle = λ e. absurd (cc e);
  sent = p.sent;
  mutex = p.mutex ∙ append_assoc s.mutex (MutexCall.lock ∷ []) (MutexCall.unlock ∷ []);
  behind = p.behind;
  noted = refl;
  recent = omega arith;
}

-- One turn of the ping thread, with a clock that is not set back and no negative times, on a connection
-- without interruptions whose server answers a ping. When the last ping is a sixth of the session's
-- time-out old, in seconds rounded down, the framed header of a ping goes out, the answer is consumed
-- whatever error it holds, the mutex is locked and unlocked, and the time is noted; otherwise nothing
-- is sent and the session stays as it is. In both cases the last ping is not older than that afterwards.
pub ping_round-KeptAlive :
    (k : Context) (now : ℕ) (s : Session) (h : ReplyHeader) (reply rest : List ℕ)
    → (client_of s).last_ping ≤ now
    → now ≤ int_max
    → (client_of s).session_timeout ≤ int_max
    → IsGenerous k.host
    → length (wire_request_header ping_header ++ []) ≤ capacity
    → IsReady cr_write s.world.net
    → IsSteady s.world.net.writes
    → length (wire_request_header ping_header ++ []) + 4 ≤ room s.world.net.writes
    → IsReady cr_read (polled_once s.world).net
    → IsPlain s.world.net.reads
    → stream s.world.net.reads ≡ framed (wire_reply_header h ++ reply) ++ rest
    → length (wire_reply_header h ++ reply) ≤ capacity
    → IsReplyHeader h
    → KeptAlive s now (is_due now (client_of s)) (ping_round k now s) rest
unfolding ping_round
ping_round-KeptAlive k now s h reply rest past small timeout g fits_out can_write steady enough
      can_read plain here fits good =
    let c = client_of s in
    let test = test_of_interval c now past small timeout in
    elim (Bool-cases (ltb (now - c.last_ping) (c.session_timeout / 1000 / 6))) [
      | inl early ↦
          let young : now - c.last_ping < c.session_timeout / 1000 / 6 = ltb→lt _ _ early in
          rw (test, early)
            (rw (lt→leb (c.session_timeout / 1000 / 6) (now - c.last_ping) young) (record {
              left = s;
              returned = refl;
              idle = λ e. refl;
              sent = sym (append-nil s.world.net.sent);
              mutex = sym (append-nil s.mutex);
              behind = refl;
              noted = refl;
              recent = omega (arith, young);
            }))
      | inr due ↦
          rw (test, due)
            (rw (le→leb (c.session_timeout / 1000 / 6) (now - c.last_ping) (ltb→le _ _ due)) (
              pinged-KeptAlive now h.err s (zk_ping k s) rest (
                zk_ping-Pinged k s h reply rest g fits_out can_write steady enough can_read plain
                  here fits good)))
    ]
