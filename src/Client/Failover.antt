-- ===== src/Client/Failover.antt =====
-- zkclient.c: `do_connect` goes round the servers, and what holds of a client in every state.
use zkclient.Prelude.{
  ℕ, zero, suc, ◌+◌, ◌-◌, ◌%◌, ◌<◌, ◌≡◌, ◌≢◌, refl, ap, ◌∙◌, Option, none, some, List, length,
  get_elem?, lt→leb, ne→==, arith,
}
use zkclient.Outcome.{Outcome, returns}
use zkclient.Conn.{zk_ok, zk_error, connect_server}
use zkclient.Client.{World}
use zkclient.Client.Connect.{
  state_authed, Cluster, after_auth, connected, connect_address, connect_round, or_else,
  connect_loop, do_connect,
}
use zkclient.Request.Authenticate.{authenticate}
use zkclient.Util.Last.{split_last}

-- The server at a position of the list, whose name fits.
pub record HasAddress (cl : Cluster) (at : ℕ) (name port : List ℕ) : Type 0 where
  pub server : List ℕ
  pub listed : get_elem? cl.servers (at % length cl.servers) ≡ some server
  pub parts : split_last b':' server ≡ some (name, port)
  pub fits : length name < 512

-- The result of `connect_server` in round `k`.
abbrev pub sock_of : Cluster → ℕ → List ℕ → List ℕ → ℕ
sock_of cl k name port = connect_server (cl.attempt k).calls (some name) (cl.atoi port)

-- The handshake of round `k` on its new socket.
abbrev pub handshake : Cluster → ℕ → List ℕ → List ℕ → World → Outcome World
handshake cl k name port w =
    authenticate cl.host (cl.attempt k).resp (connected (sock_of cl k name port) (cl.attempt k) w)

-- Round `k`, with the server at the position, fails, and leaves the second world.
pub data Fails (cl : Cluster) (at k : ℕ) : World → World → Type 0 where
  -- The server has no ':' in its name.
  nameless :
      (w : World) (server : List ℕ)
      → get_elem? cl.servers (at % length cl.servers) ≡ some server
      → split_last b':' server ≡ none
      → Fails cl at k w w
  -- `connect_server` reports ZK_ERROR.
  down :
      (w : World) (name port : List ℕ)
      → HasAddress cl at name port
      → sock_of cl k name port ≡ zk_error
      → Fails cl at k w w
  -- The handshake fails, on a socket or on what `connect_server` returned instead of one.
  rejected :
      (w w' : World) (name port : List ℕ) (rc : ℕ)
      → HasAddress cl at name port
      → sock_of cl k name port ≢ zk_error
      → handshake cl k name port w ≡ returns rc w'
      → rc ≢ zk_ok
      → Fails cl at k w w'

-- `n` rounds that fail one after the other, from round `k` and the position on.
pub data AllFail (cl : Cluster) : ℕ → ℕ → ℕ → World → World → Type 0 where
  none_left : (at k : ℕ) (w : World) → AllFail cl at k zero w w
  one_fails :
      (at k n : ℕ) (w w' w'' : World)
      → Fails cl at k w w'
      → AllFail cl (at + 1) (k + 1) n w' w''
      → AllFail cl at k (suc n) w w''

-- Round `k`, with the server at the position, connects, and its handshake leaves `w'`.
pub record IsUp (cl : Cluster) (at k : ℕ) (w w' : World) : Type 0 where
  pub name : List ℕ
  pub port : List ℕ
  pub address : HasAddress cl at name port
  pub connects : sock_of cl k name port ≢ zk_error
  pub accepts : handshake cl k name port w ≡ returns zk_ok w'

abbrev server_of : Cluster → ℕ → Option (List ℕ)
server_of cl at = get_elem? cl.servers (at % length cl.servers)

abbrev pub authed : World → World
authed w = record w { client = record w.client { state = state_authed } }

round_address :
    (cl : Cluster) (at k : ℕ) (name port : List ℕ) (w : World)
    → HasAddress cl at name port
    → connect_round cl (cl.attempt k) (server_of cl at) w
      ≡ connect_address cl (cl.attempt k) w (some (name, port))
unfolding connect_round
round_address cl at k name port w a =
    ap (λ s. connect_round cl (cl.attempt k) s w) a.listed
    ∙ ap (connect_address cl (cl.attempt k) w) a.parts

round_handshake :
    (cl : Cluster) (at k : ℕ) (name port : List ℕ) (w : World)
    → HasAddress cl at name port
    → sock_of cl k name port ≢ zk_error
    → connect_round cl (cl.attempt k) (server_of cl at) w ≡ after_auth (handshake cl k name port w)
unfolding connect_address
round_handshake cl at k name port w a connects =
    round_address cl at k name port w a
    ∙ rw (lt→leb 512 (length name) a.fits) (rw (ne→== _ zk_error connects) refl)

round-Fails :
    (cl : Cluster) (at k : ℕ) (w w' : World)
    → Fails cl at k w w'
    → connect_round cl (cl.attempt k) (server_of cl at) w ≡ returns zk_error w'
unfolding connect_round connect_address after_auth
round-Fails cl at k w w' (nameless _ server listed no_colon) =
    ap (λ s. connect_round cl (cl.attempt k) s w) listed
    ∙ ap (connect_address cl (cl.attempt k) w) no_colon
round-Fails cl at k w w' (down _ name port a fails) =
    round_address cl at k name port w a ∙ rw (lt→leb 512 (length name) a.fits) (rw fails refl)
round-Fails cl at k w w' (rejected _ _ name port rc a connects answer bad) =
    round_handshake cl at k name port w a connects
    ∙ ap after_auth answer
    ∙ rw (ne→== rc zk_ok bad) refl

round-IsUp :
    (cl : Cluster) (at k : ℕ) (w w' : World)
    → IsUp cl at k w w'
    → connect_round cl (cl.attempt k) (server_of cl at) w ≡ returns 0 (authed w')
unfolding after_auth
round-IsUp cl at k w w' u =
    round_handshake cl at k u.name u.port w u.address u.connects ∙ ap after_auth u.accepts

loop_same :
    (cl : Cluster) (n n' at at' j j' : ℕ) (w : World)
    → n ≡ n'
    → at ≡ at'
    → j ≡ j'
    → connect_loop cl n at j w ≡ connect_loop cl n' at' j' w
loop_same cl n n' at at' j j' w e f g =
    ap (λ x. connect_loop cl x at j w) e
    ∙ ap (λ x. connect_loop cl n' x j w) f
    ∙ ap (λ x. connect_loop cl n' at' x w) g

-- After the rounds that fail, the loop goes on with the others.
loop-AllFail :
    (cl : Cluster) (at j k n : ℕ) (w w' : World)
    → AllFail cl at j k w w'
    → connect_loop cl (k + n) at j w ≡ connect_loop cl n (at + k) (j + k) w'
unfolding connect_loop or_else
loop-AllFail cl at j k n w w' (none_left _ _ _) =
    loop_same cl _ _ _ _ _ _ w (omega arith) (omega arith) (omega arith)
loop-AllFail cl at j k n w w' (one_fails _ _ m _ w1 _ f fs) =
    loop_same cl (suc m + n) (suc (m + n)) at at j j w (omega arith) refl refl
    ∙ ap (or_else (connect_loop cl (m + n) (at + 1) (j + 1))) (round-Fails cl at j w w1 f)
    ∙ loop-AllFail cl (at + 1) (j + 1) m n w1 w' fs
    ∙ loop_same cl _ _ _ _ _ _ w' refl (omega arith) (omega arith)

loop-IsUp :
    (cl : Cluster) (n at j : ℕ) (w w' : World)
    → IsUp cl at j w w'
    → connect_loop cl (suc n) at j w ≡ returns 0 (authed w')
unfolding connect_loop or_else
loop-IsUp cl n at j w w' u =
    ap (or_else (connect_loop cl n (at + 1) (j + 1))) (round-IsUp cl at j w w' u)

-- `do_connect` finds the first server that accepts the client. From a random place of the list it takes
-- the servers one after the other, around the end. The first `k` rounds fail, fewer than there are
-- servers, each because the server has no port, `connect_server` reports ZK_ERROR or the handshake
-- fails; in the next one the handshake succeeds. The call returns 0 with the world that this handshake
-- left, and the state of an authenticated client. The names fit into 512 bytes.
pub do_connect-IsUp :
    (cl : Cluster) (rand k : ℕ) (w w' w'' : World)
    → k < length cl.servers
    → AllFail cl (rand % length cl.servers) 0 k w w'
    → IsUp cl (rand % length cl.servers + k) k w' w''
    → do_connect cl rand w ≡ returns 0 (authed w'')
unfolding do_connect
do_connect-IsUp cl rand k w w' w'' l fails up =
    let at = rand % length cl.servers in
    let n = length cl.servers - k - 1 in
    rw (ne→== (length cl.servers) 0 (omega arith)) (
      loop_same cl (length cl.servers) (k + suc n) at at 0 0 w (omega arith) refl refl
      ∙ loop-AllFail cl at 0 k (suc n) w w' fails
      ∙ loop_same cl (suc n) (suc n) (at + k) (at + k) (0 + k) k w' refl refl (omega arith)
      ∙ loop-IsUp cl n (at + k) k w' w'' up)

-- When every round fails, `do_connect` has tried each server of the list once, from a random one on
-- around the end, and returns the error with the world that the last round left: only rounds with a
-- failed handshake change it. The names fit into 512 bytes.
pub do_connect-AllFail :
    (cl : Cluster) (rand : ℕ) (w w' : World)
    → 0 < length cl.servers
    → AllFail cl (rand % length cl.servers) 0 (length cl.servers) w w'
    → do_connect cl rand w ≡ returns zk_error w'
unfolding do_connect connect_loop
do_connect-AllFail cl rand w w' l fails =
    let at = rand % length cl.servers in
    rw (ne→== (length cl.servers) 0 (omega arith)) (
      loop_same cl (length cl.servers) (length cl.servers + 0) at at 0 0 w (omega arith) refl refl
      ∙ loop-AllFail cl at 0 (length cl.servers) 0 w w' fails)
