-- ===== src/Raft/Handlers/Commit.antt =====
-- The commit index after an accepted `AppendEntries`: it stays within the log.
use distributed_systems_mit.Base.{
  ℕ, ◌+◌, ◌≤◌, ◌<◌, ◌≡◌, refl, some, length, max, min, arith, lt→ltb,
}
use distributed_systems_mit.Raft.Log.{len, entry}
use distributed_systems_mit.Raft.Log.Bounds.{IsValid, term_of}
use distributed_systems_mit.Raft.Rpc.{AppendEntriesArgs, AppendEntriesReply}
use distributed_systems_mit.Raft.Server.{Gob, Raft}
use distributed_systems_mit.Raft.Handlers.{append_entries}
use distributed_systems_mit.Raft.Handlers.Accept.{new_commit, append_entries-Accepted}

-- A request of a current term whose entry at `prev` the log holds.
pub record Fits {C : Type 0} (rf : Raft C) (args : AppendEntriesArgs C) : Type 0 where
  pub valid : IsValid rf.log
  pub current : rf.current_term ≤ args.term
  pub kept : rf.log.snap_index ≤ args.prev_log_index
  pub within : args.prev_log_index < len rf.log
  pub same_term : term_of (entry rf.log args.prev_log_index) ≡ some args.prev_log_term

module _ {C : Type 0} where
  moved_commit :
      (rf : Raft C) (args : AppendEntriesArgs C)
      → rf.commit_index < args.leader_commit
      → new_commit rf args
        ≡ max rf.log.snap_index (min args.leader_commit (args.prev_log_index + length args.entries))
  moved_commit rf args more = rw (lt→ltb rf.commit_index args.leader_commit more) refl

module _ {C : Type 0} (gob : Gob C) where
  -- For a request that fits the log, of a leader that has committed more, the new commit index lies within the follower's new log,
  -- and is neither past the request's entries nor, above the snapshot, past the leader's.
  pub append_entries_commit_bounded :
      (rf : Raft C) (args : AppendEntriesArgs C) (now : ℕ)
      → Fits rf args
      → rf.commit_index < args.leader_commit
      → (rf' : Raft C) × (reply : AppendEntriesReply) × (append_entries gob rf args now
          ≡ some (rf', reply))
        × (rf'.commit_index < len rf'.log)
        × (rf'.commit_index ≤ args.prev_log_index + length args.entries)
        × (rf'.commit_index ≤ max rf.log.snap_index args.leader_commit)
  append_entries_commit_bounded rf args now f more =
      let (rf', reply, done, a) =
        append_entries-Accepted gob rf args now f.valid f.current f.kept f.within f.same_term in
      let is = a.commit_is in
      let moved = moved_commit rf args more in
      let kept = f.kept in
      (
        rf',
        reply,
        done,
        omega (arith, is, a.stored.reaches, moved),
        omega (arith, is, moved),
        omega (arith, is, moved),
      )
