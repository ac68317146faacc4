-- ===== src/Client/Authed.antt =====
-- zkclient.c: a connection that `do_connect` reports has shaken hands.
use zkclient.Prelude.{
  ℕ, zero, suc, ◌+◌, ◌%◌, ◌≡◌, ◌≢◌, refl, ap, ◌∙◌, get_elem?, ==-refl, false, inl, inr, Bool-cases,
  Option, none, some, List, length, leb, ◌==◌, ==→eq,
}
use zkclient.Outcome.{Outcome, returns, undefined}
use zkclient.Conn.{zk_ok, zk_error}
use zkclient.Client.{World}
use zkclient.Client.Failover.{sock_of, handshake, authed}
use zkclient.Util.Last.{split_last}
use zkclient.Client.Connect.{
  Cluster, after_auth, connect_address, connect_round, or_else, connect_loop, do_connect,
}

-- The client has just shaken hands: with a server of the list, in one of the rounds, on what
-- `connect_server` returned, `authenticate` returned 0, and left this world but for the state.
pub record HasHandshake (cl : Cluster) (w : World) : Type 0 where
  pub at : ℕ
  pub k : ℕ
  pub name : List ℕ
  pub port : List ℕ
  pub before : World
  pub after : World
  pub server : List ℕ
  pub listed : get_elem? cl.servers (at % length cl.servers) ≡ some server
  pub parts : split_last b':' server ≡ some (name, port)
  pub connects : sock_of cl k name port ≢ zk_error
  pub accepts : handshake cl k name port before ≡ returns zk_ok after
  pub same : w ≡ authed after

-- The result 0 comes with a handshake.
abbrev pub IsAuthed : Cluster → Outcome World → Type 0
IsAuthed cl undefined = Unit
IsAuthed cl (returns rc w) = rc ≡ zk_ok → HasHandshake cl w

module _ (cl : Cluster) (at k : ℕ) (w : World) where
  after_auth-IsAuthed :
      (name port server : List ℕ) (o : Outcome World)
      → get_elem? cl.servers (at % length cl.servers) ≡ some server
      → split_last b':' server ≡ some (name, port)
      → (sock_of cl k name port == zk_error) ≡ false
      → handshake cl k name port w ≡ o
      → IsAuthed cl (after_auth o)
  unfolding after_auth
  after_auth-IsAuthed name port server undefined listed parts connects answer = tt
  after_auth-IsAuthed name port server (returns rc w') listed parts connects answer =
      elim (Bool-cases (rc == zk_ok)) [
        | inr bad ↦ rw bad (λ e. absurd (cc e))
        | inl ok ↦ rw ok (λ e. record {
          at = at;
          k = k;
          name = name;
          port = port;
          before = w;
          after = w';
          server = server;
          listed = listed;
          parts = parts;
          connects = λ same. absurd (cc (==-refl zk_error, rw same at connects));
          accepts = answer ∙ ap (λ r. returns r w') (==→eq rc zk_ok ok);
          same = refl;
        })
      ]

  connect_address-IsAuthed :
      (server : List ℕ) (p : Option (List ℕ × List ℕ))
      → get_elem? cl.servers (at % length cl.servers) ≡ some server
      → split_last b':' server ≡ p
      → IsAuthed cl (connect_address cl (cl.attempt k) w p)
  unfolding connect_address
  connect_address-IsAuthed server none listed parts = λ e. absurd (cc e)
  connect_address-IsAuthed server (some (name, port)) listed parts =
      elim (Bool-cases (leb 512 (length name))) [
        | inl long ↦ rw long tt
        | inr short ↦ rw short (elim (Bool-cases (sock_of cl k name port == zk_error)) [
          | inl failed ↦ rw failed (λ e. absurd (cc e))
          | inr connects ↦
              rw connects (after_auth-IsAuthed name port server _ listed parts connects refl)
        ])
      ]

  connect_round-IsAuthed :
      (server : Option (List ℕ))
      → get_elem? cl.servers (at % length cl.servers) ≡ server
      → IsAuthed cl (connect_round cl (cl.attempt k) server w)
  unfolding connect_round
  connect_round-IsAuthed none listed = tt
  connect_round-IsAuthed (some server) listed = connect_address-IsAuthed server _ listed refl

or_else-IsAuthed :
    (cl : Cluster) (rest : World → Outcome World) (o : Outcome World)
    → ((w : World) → IsAuthed cl (rest w))
    → IsAuthed cl o
    → IsAuthed cl (or_else rest o)
unfolding or_else
or_else-IsAuthed cl rest undefined h k = tt
or_else-IsAuthed cl rest (returns rc w) h k = elim (Bool-cases (rc == zk_ok)) [
  | inl ok ↦ rw ok (λ e. k (==→eq rc zk_ok ok))
  | inr bad ↦ rw bad (h w)
]

connect_loop-IsAuthed :
    (cl : Cluster) (n start j : ℕ) (w : World) → IsAuthed cl (connect_loop cl n start j w)
unfolding connect_loop
connect_loop-IsAuthed cl zero start j w = λ e. absurd (cc e)
connect_loop-IsAuthed cl (suc n) start j w =
    or_else-IsAuthed cl _ _ (connect_loop-IsAuthed cl n (start + 1) (j + 1))
      (connect_round-IsAuthed cl start j w _ refl)

pub do_connect-IsAuthed : (cl : Cluster) (rand : ℕ) (w : World) → IsAuthed cl (do_connect cl rand w)
unfolding do_connect
do_connect-IsAuthed cl rand w = elim (Bool-cases (length cl.servers == 0)) [
  | inl empty ↦ rw empty tt
  | inr some_server ↦ rw some_server (connect_loop-IsAuthed cl _ _ 0 w)
]
