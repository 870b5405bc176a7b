-- ===== src/Raft.antt =====
-- The Raft consensus library (src/raft1).
pub mod Log
pub mod Rpc
pub mod Conflict
pub mod Server
pub mod Handlers
pub mod Election
pub mod Replication
pub mod Run
pub mod Cluster
pub mod Catchup
pub mod Matching
