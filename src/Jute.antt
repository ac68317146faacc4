-- ===== src/Jute.antt =====
-- zookeeper.jute.c and zookeeper.jute.h: the records of the ZooKeeper protocol. Each module has the
-- structs and their functions; its child Codec has their wire forms and well-formedness.
pub mod Vector
pub mod Transfer
pub mod RoundTrip
pub mod Sending
pub mod Receiving
pub mod Acl
pub mod Stat
pub mod PersistedStat
pub mod Connect
pub mod Header
pub mod Watch
pub mod Data
pub mod Node
pub mod Exists
pub mod Children
pub mod MaxChildren
pub mod AclRequests
pub mod Sasl
pub mod Quorum
pub mod Txn
pub mod CreateTxn
pub mod OtherTxn
