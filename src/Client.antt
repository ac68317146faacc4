-- ===== src/Client.antt =====
-- zkclient.h: the state of a client, and what one system call sees of the world.
pub mod Connect
pub mod Failover
pub mod Made
pub mod Authed
pub mod PingLoop
pub mod Pings
use zkclient.Prelude.{ℕ}
use zkclient.Archive.{Buffer}
use zkclient.Request.Socket.{Net}

-- `struct _zk_client`, without the list of servers, the thread and the mutex.
pub record ZkClient : Type 0 where
  pub sock : ℕ
  pub last_zxid : ℕ
  pub session_id : ℕ
  pub session_timeout : ℕ
  pub connect_timeout : ℕ
  pub read_timeout : ℕ
  pub write_timeout : ℕ
  pub state : ℕ
  pub last_err : ℕ
  pub passwd : Buffer
  pub last_ping : ℕ

-- A client and its socket.
pub record World : Type 0 where
  pub client : ZkClient
  pub net : Net

abbrev pub set_last_err : ℕ → World → World
set_last_err rc w = record w { client = record w.client { last_err = rc } }
