-- ===== src/Raft/Run.antt =====
-- A peer over its whole life: whatever the network, the service, the clock and crashes make it do,
-- one locked section after another. The sections that only build a request change no state and are
-- no events: Replication.Requests is about them. A crash loses all but the persister, and `make` starts again.
pub mod Effects
pub mod Durable
pub mod Votes
pub mod Roles
pub mod Replies
pub mod Tables
pub mod Answers
pub mod Total
use distributed_systems_mit.Base.{ℕ, Option, none, some, List, [], ◌∷◌, ◌>>=◌}
use distributed_systems_mit.Persister.{Bytes}
use distributed_systems_mit.Raft.Rpc.{
  RequestVoteArgs, RequestVoteReply, AppendEntriesArgs, AppendEntriesReply, InstallSnapshotArgs,
  InstallSnapshotReply,
}
use distributed_systems_mit.Raft.Server.{Gob, Raft, snapshot, start, make}
use distributed_systems_mit.Raft.Handlers.{request_vote, append_entries, handle_install_snapshot}
use distributed_systems_mit.Raft.Election.{start_election, vote_reply}
use distributed_systems_mit.Raft.Replication.{append_reply, snapshot_reply, apply_command}

-- The numbers are clock readings, random timeouts, the votes of the election that a reply belongs
-- to, the peer that replied, and the term that its request was sent in.
pub data Event (C : Type 0) : Type 0 where
  on_request_vote : RequestVoteArgs → ℕ → Event C
  on_append_entries : AppendEntriesArgs C → ℕ → Event C
  on_install_snapshot : InstallSnapshotArgs → ℕ → Event C
  on_election_timeout : ℕ → ℕ → Event C
  on_vote_reply : ℕ → ℕ → RequestVoteReply → Event C
  on_append_reply : ℕ → ℕ → AppendEntriesArgs C → AppendEntriesReply → Event C
  on_snapshot_reply : ℕ → ℕ → InstallSnapshotArgs → InstallSnapshotReply → Event C
  on_start : C → Event C
  on_snapshot : ℕ → Bytes → Event C
  on_commit : Event C
  on_crash : ℕ → ℕ → Event C

module _ {C : Type 0} (gob : Gob C) where
  unfoldable pub step : Raft C → Event C → Option (Raft C)
  step rf (on_request_vote args now) = do (rf', reply) ← request_vote gob rf args now; some rf'
  step rf (on_append_entries args now) = do (rf', reply) ← append_entries gob rf args now; some rf'
  step rf (on_install_snapshot args now) = do
    (rf', reply, msgs) ← handle_install_snapshot gob rf args now
    some rf'
  step rf (on_election_timeout now random) = some (start_election gob rf now random).0
  step rf (on_vote_reply votes sent_term reply) = some (vote_reply gob rf votes sent_term reply).0
  step rf (on_append_reply p sent_term args reply) = append_reply gob rf p sent_term args reply
  step rf (on_snapshot_reply p sent_term args reply) = snapshot_reply gob rf p sent_term args reply
  step rf (on_start command) = some (start gob rf command).0
  step rf (on_snapshot index bytes) = snapshot gob rf index bytes
  step rf on_commit = do (rf', msgs) ← apply_command rf; some rf'
  step rf (on_crash now random) = make gob rf.peers rf.me rf.persister now random

  unfoldable pub run : Raft C → List (Event C) → Option (Raft C)
  run rf [] = some rf
  run rf (e ∷ es) = do rf' ← step rf e; run rf' es
