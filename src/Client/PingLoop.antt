-- ===== src/Client/PingLoop.antt =====
-- zkclient.c: the loop of the ping thread, and the end of a client.
use zkclient.Prelude.{ℕ, ◌-◌, ◌/◌, ◌%◌, List, [], ◌∷◌, ◌==◌, if◌then◌else◌}
use zkclient.CInt.{is_negative, minus, int32_mod, int_lt, int_sub}
use zkclient.Outcome.{Outcome, returns, undefined, Step}
use zkclient.Client.{ZkClient}
use zkclient.Client.Connect.{state_stop}
use zkclient.Request.Call.{Session, Context}
use zkclient.Request.Operations.{zk_ping, zk_close}

-- `v / d` on an `int`; the quotient is rounded towards 0.
unfoldable pub int_quot : ℕ → ℕ → ℕ
int_quot v d = if is_negative v then (int32_mod - minus v / d) % int32_mod else v / d

-- A sixth of the session's time-out, in seconds.
unfoldable pub ping_interval : ZkClient → ℕ
ping_interval c = int_quot (int_quot c.session_timeout 1000) 6

abbrev pub client_of : Session → ZkClient
client_of s = s.world.client

abbrev pub set_last_ping : ℕ → Session → Session
set_last_ping now s = record s {
  world = record s.world { client = record s.world.client { last_ping = now } };
}

-- The result of the ping is dropped.
unfoldable pub pinged : ℕ → Outcome Session → Outcome Session
pinged now undefined = undefined
pinged now (returns rc s) = returns 0 (set_last_ping now s)

unfoldable pub ping_round : Context → ℕ → Step Session
ping_round k now s =
    if int_lt (int_sub now (client_of s).last_ping) (ping_interval (client_of s))
    then returns 0 s
    else pinged now (zk_ping k s)

-- One turn of the loop: the time, and what the other thread does to the client while this one sleeps.
pub record Turn : Type 0 where
  pub context : Context
  pub now : ℕ
  pub meanwhile : Session → Session

unfoldable pub after_round : (Session → Session) → Step Session → Outcome Session → Outcome Session
after_round meanwhile rest undefined = undefined
after_round meanwhile rest (returns rc s) = rest (meanwhile s)

-- The loop for as many turns as the list has, or until the client stops.
unfoldable pub ping_loop : List Turn → Step Session
ping_loop [] s = returns 0 s
ping_loop (t ∷ turns) s =
    let next = after_round t.meanwhile (ping_loop turns) (ping_round t.context t.now s) in
    if (client_of s).state == state_stop then returns 0 s else next

-- The memory and the socket are given up after the thread has ended.
unfoldable pub destroy_client : Context → Step Session
destroy_client k s =
    zk_close k (record s {
      world = record s.world { client = record s.world.client { state = state_stop } };
    })
