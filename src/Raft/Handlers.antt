-- ===== src/Raft/Handlers.antt =====
-- The RPC handlers of src/raft1/handlers.go.
pub mod Append
pub mod Accept
pub mod Commit
pub mod Verdict
use distributed_systems_mit.Base.{
  ℕ, zero, suc, ◌+◌, Bool, false, true, ◌&&◌, ◌||◌, Option, none, some, List, [], ◌∷◌, max, min,
  length, drop, ltb, leb, ◌==◌, not, if◌then◌else◌, ◌>>=◌,
}
use distributed_systems_mit.Persister.{Bytes, save}
use distributed_systems_mit.Raft.Log.{
  LogEntry, RaftLog, last_index, last_term, truncate_to, append, install_snapshot,
}
use distributed_systems_mit.Raft.Rpc.{
  RequestVoteArgs, RequestVoteReply, AppendEntriesArgs, AppendEntriesReply, InstallSnapshotArgs,
  InstallSnapshotReply,
}
use distributed_systems_mit.Raft.Conflict.{AppendConflict, is_conflict, check_append}
use distributed_systems_mit.Raft.Server.{
  Role, follower, candidate, leader, Gob, Raft, persist, encode_raft_state,
}

-- What goes to the service on `applyCh`.
pub data ApplyMsg (C : Type 0) : Type 0 where
  command_msg : Option C → ℕ → ApplyMsg C
  snapshot_msg : Bytes → ℕ → ℕ → ApplyMsg C

abbrev pub may_vote : Option ℕ → ℕ → Bool
may_vote none candidate_id = true
may_vote (some v) candidate_id = v == candidate_id

-- Is a candidate's log, by its last term and index, at least as up to date as ours?
unfoldable pub up_to_date : RequestVoteArgs → ℕ → ℕ → Bool
up_to_date args term index =
    ltb term args.last_log_term || (args.last_log_term == term && leb index args.last_log_index)

module _ {C : Type 0} where
  -- The new log, and whether it changed, when `i` of the entries are there already.
  unfoldable pub store_entries : RaftLog C → ℕ → List (LogEntry C) → ℕ → Option (RaftLog C × Bool)
  store_entries l prev_log_index entries i =
      if ltb i (length entries)
      then (do
        cut ← truncate_to l (prev_log_index + 1 + i)
        some (append cut (drop i entries), true))
      else some (l, false)

  unfoldable pub advance_commit : Raft C → AppendEntriesArgs C → Raft C
  advance_commit rf args =
      if ltb rf.commit_index args.leader_commit
      then record rf {
        commit_index =
            max rf.log.snap_index
              (min args.leader_commit (args.prev_log_index + length args.entries));
        commit = rf.commit + 1;
      }
      else rf

module _ {C : Type 0} (gob : Gob C) where
  unfoldable pub become_follower : Raft C → ℕ → Raft C
  unfolding persist
  become_follower rf term =
      persist gob (record rf { current_term = term; role = follower; voted_for = none })

  -- The common head of the handlers, once the request's term is not behind.
  unfoldable pub catch_up : Raft C → ℕ → Raft C
  unfolding become_follower
  catch_up rf term = if ltb rf.current_term term then become_follower rf term else rf

  -- `RequestVote` from the decision on.
  unfoldable pub decide_vote : Raft C → RequestVoteArgs → ℕ → Option (Raft C × RequestVoteReply)
  unfolding persist up_to_date
  decide_vote rf args now =
      let refused : RequestVoteReply = record { term = rf.current_term; vote_granted = false } in
      if may_vote rf.voted_for args.candidate_id
      then (do
        t ← last_term rf.log
        some (
            if up_to_date args t (last_index rf.log)
            then (
              persist gob (record rf { voted_for = some args.candidate_id; last_reset = now }),
              record refused { vote_granted = true },
            )
            else (persist gob rf, refused)))
      else some (persist gob rf, refused)

  unfoldable pub request_vote : Raft C → RequestVoteArgs → ℕ → Option (Raft C × RequestVoteReply)
  unfolding catch_up decide_vote
  request_vote rf args now =
      if ltb args.term rf.current_term
      then some (rf, record { term = rf.current_term; vote_granted = false })
      else decide_vote (catch_up rf args.term) args now

  unfoldable pub accept_entries :
      Raft C → AppendEntriesArgs C → ℕ → Option (Raft C × AppendEntriesReply)
  unfolding advance_commit persist
  accept_entries rf args i = do
    (l, log_changed) ← store_entries rf.log args.prev_log_index args.entries i
    let rf' = advance_commit (record rf { log = l }) args
    some (
      if log_changed then persist gob rf' else rf',
      record { term = rf.current_term; success = true; x_term = 0; x_index = 0; x_len = 0 },
    )

  -- `AppendEntries` from `checkAppend` on.
  unfoldable pub answer_append :
      Raft C → AppendEntriesArgs C → ℕ × AppendConflict → Option (Raft C × AppendEntriesReply)
  unfolding accept_entries is_conflict
  answer_append rf args (i, conflict) =
      if is_conflict conflict
      then some (
        rf,
        record {
          term = rf.current_term;
          success = false;
          x_term = conflict.x_term;
          x_index = conflict.x_index;
          x_len = conflict.x_len;
        },
      )
      else accept_entries rf args i

  unfoldable pub append_entries :
      Raft C → AppendEntriesArgs C → ℕ → Option (Raft C × AppendEntriesReply)
  unfolding catch_up answer_append
  append_entries rf args now =
      if ltb args.term rf.current_term
      then some (
        rf,
        record { term = rf.current_term; success = false; x_term = 0; x_index = 0; x_len = 0 },
      )
      else (do
        let rf' = record (catch_up rf args.term) { role = follower; last_reset = now }
        checked ← check_append rf'.log args.prev_log_index args.prev_log_term args.entries
        answer_append rf' args checked)

  -- `InstallSnapshot` from the test for a newer snapshot on; the message goes to the service.
  unfoldable pub take_snapshot :
      Raft C → InstallSnapshotArgs → Option (Raft C × InstallSnapshotReply × List (ApplyMsg C))
  unfolding encode_raft_state save
  take_snapshot rf args =
      let reply : InstallSnapshotReply = record { term = rf.current_term } in
      let index = args.last_included_index in
      if leb index rf.log.snap_index then some (rf, reply, []) else (do
        l ← install_snapshot rf.log index args.last_included_term
        let rf' = record rf {
          log = l;
          commit_index = max rf.commit_index index;
          last_applied = max rf.last_applied index;
        }
        some (
          record rf' {
            persister = save rf'.persister (encode_raft_state gob rf') args.snapshot;
            commit = rf'.commit + 1;
          },
          reply,
          snapshot_msg args.snapshot args.last_included_term index ∷ [],
        ))

  unfoldable pub handle_install_snapshot :
      Raft C → InstallSnapshotArgs → ℕ → Option (Raft C × InstallSnapshotReply × List (ApplyMsg C))
  unfolding catch_up take_snapshot
  handle_install_snapshot rf args now =
      if ltb args.term rf.current_term
      then some (rf, record { term = rf.current_term }, [])
      else take_snapshot (record (catch_up rf args.term) { role = follower; last_reset = now }) args
