-- ===== src/Client/Made.antt =====
-- zkclient.c: the password of a client that is made, connected or reset.
use zkclient.Prelude.{
  ℕ, zero, suc, ◌+◌, refl, inl, inr, Bool-cases, Option, Option-cases, none, some, List, length,
  replicate, length-replicate, leb, ◌==◌, arith,
}
use zkclient.Outcome.{Outcome, returns, undefined}
use zkclient.Host.{Host, malloc}
use zkclient.Archive.{Buffer}
use zkclient.Archive.Safety.{IsUsable}
use zkclient.Conn.{zk_ok, zk_error, connect_server}
use zkclient.Client.{World}
use zkclient.Client.Connect.{
  Attempt, Cluster, after_auth, connected, connect_address, connect_round, or_else, connect_loop,
  do_connect, no_passwd, reset_fields, reset_zkclient, int_thousand, new_timeout, new_fields, idle,
  start_client, started, new_from, new_client,
}
use zkclient.Request.Passwd.{IsPasswd}
use zkclient.Request.Handshake.{HasPasswd, authenticate-HasPasswd}

after_auth-HasPasswd : (o : Outcome World) → HasPasswd o → HasPasswd (after_auth o)
unfolding after_auth
after_auth-HasPasswd undefined h = tt
after_auth-HasPasswd (returns rc w) h = elim (Bool-cases (rc == zk_ok)) [
  | inl ok ↦ rw ok h
  | inr bad ↦ rw bad h
]

connect_address-HasPasswd :
    (cl : Cluster) (a : Attempt) (w : World) (p : Option (List ℕ × List ℕ))
    → IsUsable cl.host
    → IsPasswd w.client.passwd
    → HasPasswd (connect_address cl a w p)
unfolding connect_address connected
connect_address-HasPasswd cl a w none u k = k
connect_address-HasPasswd cl a w (some (name, port)) u k =
    elim (Bool-cases (leb 512 (length name))) [
      | inl long ↦ rw long tt
      | inr short ↦
          rw short
            (elim (Bool-cases (connect_server a.calls (some name) (cl.atoi port) == zk_error)) [
              | inl failed ↦ rw failed k
              | inr connects ↦ rw connects (
                  after_auth-HasPasswd _ (
                    authenticate-HasPasswd cl.host a.resp
                      (connected (connect_server a.calls (some name) (cl.atoi port)) a w) u k))
            ])
    ]

connect_round-HasPasswd :
    (cl : Cluster) (a : Attempt) (server : Option (List ℕ)) (w : World)
    → IsUsable cl.host
    → IsPasswd w.client.passwd
    → HasPasswd (connect_round cl a server w)
unfolding connect_round
connect_round-HasPasswd cl a none w u k = tt
connect_round-HasPasswd cl a (some server) w u k = connect_address-HasPasswd cl a w _ u k

or_else-HasPasswd :
    (rest : World → Outcome World) (o : Outcome World)
    → ((w : World) → IsPasswd w.client.passwd → HasPasswd (rest w))
    → HasPasswd o
    → HasPasswd (or_else rest o)
unfolding or_else
or_else-HasPasswd rest undefined h k = tt
or_else-HasPasswd rest (returns rc w) h k = elim (Bool-cases (rc == zk_ok)) [
  | inl ok ↦ rw ok k
  | inr bad ↦ rw bad (h w k)
]

connect_loop-HasPasswd :
    (cl : Cluster) (n start j : ℕ) (w : World)
    → IsUsable cl.host
    → IsPasswd w.client.passwd
    → HasPasswd (connect_loop cl n start j w)
unfolding connect_loop
connect_loop-HasPasswd cl zero start j w u k = k
connect_loop-HasPasswd cl (suc n) start j w u k =
    or_else-HasPasswd _ _ (λ w' k'. connect_loop-HasPasswd cl n (start + 1) (j + 1) w' u k')
      (connect_round-HasPasswd cl (cl.attempt j) _ w u k)

-- Whatever servers answer or refuse, a call of `do_connect` that returns leaves a client whose
-- password is well formed, if it was before. The allocator refuses what exceeds the
-- largest object.
pub do_connect-HasPasswd :
    (cl : Cluster) (rand : ℕ) (w : World)
    → IsUsable cl.host
    → IsPasswd w.client.passwd
    → HasPasswd (do_connect cl rand w)
unfolding do_connect
do_connect-HasPasswd cl rand w u k = elim (Bool-cases (length cl.servers == 0)) [
  | inl empty ↦ rw empty tt
  | inr some_server ↦ rw some_server (connect_loop-HasPasswd cl _ _ 0 w u k)
]

abbrev zeros : Buffer
zeros = record { len = 16; buff = some (replicate 16 0) }

zeros-IsPasswd : IsPasswd zeros
zeros-IsPasswd = record {
  mem = replicate 16 0;
  allocated = refl;
  size = omega (arith, length-replicate {A = ℕ} 16 0);
  some_bytes = omega arith;
  is_int = omega arith;
}

-- `reset_zkclient` gives every client a well-formed password.
pub reset_zkclient-HasPasswd : (host : Host) (w : World) → HasPasswd (reset_zkclient host w)
unfolding reset_zkclient reset_fields no_passwd
reset_zkclient-HasPasswd host w = elim (Option-cases (malloc host 16)) [
  | inl refused ↦ rw (refused, no_passwd) tt
  | inr (mem, granted) ↦ rw (granted, no_passwd) zeros-IsPasswd
]

-- Like `HasPasswd`, where there may be no client.
abbrev pub MadeWithPasswd : Outcome (Option World) → Type 0
MadeWithPasswd undefined = Unit
MadeWithPasswd (returns rc none) = Unit
MadeWithPasswd (returns rc (some w)) = IsPasswd w.client.passwd

start_client-HasPasswd :
    (cl : Cluster) (rand now junk session_timeout timeout : ℕ)
    → IsUsable cl.host
    → HasPasswd (start_client cl rand now junk session_timeout timeout)
unfolding start_client no_passwd new_fields
start_client-HasPasswd cl rand now junk session_timeout timeout u =
    elim (Option-cases (int_thousand session_timeout)) [
      | inl over ↦ rw (over, start_client) tt
      | inr (session, fits) ↦ elim (Option-cases (new_timeout session timeout)) [
        | inl over ↦ rw (fits, start_client) (rw (over, start_client) tt)
        | inr (connect, fits') ↦ elim (Option-cases (malloc cl.host 16)) [
          | inl refused ↦
              rw (fits, start_client) (rw (fits', start_client) (rw (refused, no_passwd) tt))
          | inr (mem, granted) ↦
              rw (fits, start_client)
                (rw (fits', start_client)
                  (rw (granted, no_passwd)
                    (do_connect-HasPasswd cl rand
                      (record { client = new_fields session connect now junk zeros; net = idle }) u
                      zeros-IsPasswd)))
        ]
      ]
    ]

started-MadeWithPasswd : (o : Outcome World) → HasPasswd o → MadeWithPasswd (started o)
unfolding started
started-MadeWithPasswd undefined h = tt
started-MadeWithPasswd (returns rc w) h = h

new_from-MadeWithPasswd :
    (cl : Cluster) (rand now junk session_timeout timeout : ℕ)
    (o : Outcome (Option (List (List ℕ)) × ℕ))
    → IsUsable cl.host
    → MadeWithPasswd (new_from cl rand now junk session_timeout timeout o)
unfolding new_from
new_from-MadeWithPasswd cl rand now junk session_timeout timeout undefined u = tt
new_from-MadeWithPasswd cl rand now junk session_timeout timeout (returns rc (none, n)) u = tt
new_from-MadeWithPasswd cl rand now junk session_timeout timeout (returns rc (some servers, n)) u =
    elim (Bool-cases (n == 0)) [
      | inl empty ↦ rw empty tt
      | inr some_server ↦ rw some_server (
          started-MadeWithPasswd _ (
            start_client-HasPasswd (record cl { servers = servers }) rand now junk session_timeout
              timeout u))
    ]

-- Whatever the list of servers and the time-outs are and whatever the servers answer, a client
-- that `new_client` makes has a well-formed password, where no behaviour on the way is undefined.
-- The allocator refuses what exceeds the
-- largest object.
pub new_client-MadeWithPasswd :
    (cl : Cluster) (rand now junk : ℕ) (zk_list : List ℕ) (session_timeout timeout : ℕ)
    → IsUsable cl.host
    → MadeWithPasswd (new_client cl rand now junk zk_list session_timeout timeout)
unfolding new_client
new_client-MadeWithPasswd cl rand now junk zk_list session_timeout timeout u =
    new_from-MadeWithPasswd cl rand now junk session_timeout timeout _ u
