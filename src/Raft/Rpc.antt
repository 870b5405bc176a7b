-- ===== src/Raft/Rpc.antt =====
-- The messages of src/raft1/rpc.go. Snapshots and persisted states are byte lists.
use distributed_systems_mit.Base.{ℕ, Bool, List}
use distributed_systems_mit.Persister.{Bytes}
use distributed_systems_mit.Raft.Log.{LogEntry}

pub record RequestVoteArgs : Type 0 where
  pub term : ℕ
  pub candidate_id : ℕ
  pub last_log_index : ℕ
  pub last_log_term : ℕ

pub record RequestVoteReply : Type 0 where
  pub term : ℕ
  pub vote_granted : Bool

pub record AppendEntriesArgs (C : Type 0) : Type 0 where
  pub term : ℕ
  pub leader_id : ℕ
  pub prev_log_index : ℕ
  pub prev_log_term : ℕ
  pub entries : List (LogEntry C)
  pub leader_commit : ℕ

pub record AppendEntriesReply : Type 0 where
  pub term : ℕ
  pub success : Bool
  pub x_term : ℕ
  pub x_index : ℕ
  pub x_len : ℕ

pub record InstallSnapshotArgs : Type 0 where
  pub term : ℕ
  pub leader_id : ℕ
  pub last_included_index : ℕ
  pub last_included_term : ℕ
  pub snapshot : Bytes

pub record InstallSnapshotReply : Type 0 where
  pub term : ℕ
