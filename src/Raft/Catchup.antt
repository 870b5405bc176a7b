-- ===== src/Raft/Catchup.antt =====
-- A leader and one follower over a quiet network: what a tick of `sendToFollowers`
-- (src/raft1/replication.go) does for the follower when its request and the reply arrive before the
-- next tick and nothing else happens.
pub mod Rounds
pub mod Ticks
pub mod Accepts
pub mod Refusals
pub mod Converges
pub mod Stuck
use distributed_systems_mit.Base.{ℕ, zero, suc, ◌+◌, Option, none, some, ◌>>=◌, if◌then◌else◌}
use distributed_systems_mit.Raft.Rpc.{AppendEntriesArgs, InstallSnapshotArgs}
use distributed_systems_mit.Raft.Server.{leader, is_leader, Gob, Raft}
use distributed_systems_mit.Raft.Handlers.{append_entries, handle_install_snapshot}
use distributed_systems_mit.Raft.Election.{call_begin}
use distributed_systems_mit.Raft.Replication.{
  behind_snapshot, append_request, append_reply, snapshot_request, snapshot_reply,
}

module _ {C : Type 0} (gob : Gob C) where
  -- The request reaches the follower, and its reply the leader.
  unfoldable pub exchange_append :
      Raft C → Raft C → ℕ → ℕ → Option (AppendEntriesArgs C × ℕ) → Option (Raft C × Raft C)
  exchange_append ld fl p now none = some (ld, fl)
  exchange_append ld fl p now (some (args, sent_term)) = do
    (fl', reply) ← append_entries gob fl args now
    ld' ← append_reply gob ld p sent_term args reply
    some (ld', fl')

  unfoldable pub exchange_snapshot :
      Raft C → Raft C → ℕ → ℕ → Option (InstallSnapshotArgs × ℕ) → Option (Raft C × Raft C)
  exchange_snapshot ld fl p now none = some (ld, fl)
  exchange_snapshot ld fl p now (some (args, sent_term)) = do
    (fl', reply, msgs) ← handle_install_snapshot gob fl args now
    ld' ← snapshot_reply gob ld p sent_term args reply
    some (ld', fl')

  -- The goroutine for peer `p`.
  unfoldable pub replicate_once : Raft C → Raft C → ℕ → ℕ → Option (Raft C × Raft C)
  replicate_once ld fl p now = do
    behind ← behind_snapshot ld p
    if behind
        then (do
          begun ← call_begin ld leader (λ rf. some (snapshot_request rf))
          exchange_snapshot ld fl p now begun)
        else (do
          begun ← call_begin ld leader (λ rf. append_request rf p)
          exchange_append ld fl p now begun)

  -- The next `k` ticks of `sendToFollowers`, 100 ms apart.
  unfoldable pub replicate_for : ℕ → Raft C → Raft C → ℕ → ℕ → Option (Raft C × Raft C)
  replicate_for zero ld fl p now = some (ld, fl)
  replicate_for (suc k) ld fl p now =
      if is_leader ld.role
      then (do (ld', fl') ← replicate_once ld fl p now; replicate_for k ld' fl' p (now + 100))
      else some (ld, fl)
