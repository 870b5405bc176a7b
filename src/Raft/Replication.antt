-- ===== src/Raft/Replication.antt =====
-- Replication (src/raft1/replication.go) and delivery to the service (src/raft1/apply.go).
pub mod Counting
pub mod Majority
pub mod Requests
pub mod Delivery
use distributed_systems_mit.Base.{
  ℕ, zero, suc, ◌+◌, ◌-◌, ◌/◌, Bool, false, true, ◌&&◌, ◌||◌, Option, none, some, List, [], ◌∷◌,
  length, max, get_elem?, set, ltb, leb, ◌==◌, not, if◌then◌else◌, ◌>>=◌,
}
use distributed_systems_mit.Persister.{read_snapshot}
use distributed_systems_mit.Raft.Log.{LogEntry, RaftLog, len, last_index, entry, since}
use distributed_systems_mit.Raft.Rpc.{
  AppendEntriesArgs, AppendEntriesReply, InstallSnapshotArgs, InstallSnapshotReply,
}
use distributed_systems_mit.Raft.Conflict.{backoff_next_index}
use distributed_systems_mit.Raft.Server.{Role, leader, Gob, Raft}
use distributed_systems_mit.Raft.Handlers.{ApplyMsg, command_msg, become_follower}
use distributed_systems_mit.Raft.Election.{may_apply}

-- The other peers whose logs match ours up to `n`, in a table that starts at peer `i`.
unfoldable pub matching : ℕ → ℕ → ℕ → List ℕ → ℕ
matching me n i [] = 0
matching me n i (m ∷ rest) =
    let others = matching me n (suc i) rest in
    if not (i == me) && leb n m then suc others else others

module _ {C : Type 0} where
  unfoldable pub has_majority : Raft C → ℕ → Bool
  unfolding matching
  has_majority rf n = ltb (rf.peers / 2) (1 + matching rf.me n 0 rf.match_index)

  -- The loop of `updateCommitIndex` from index `n` down: the index to commit, if there is one.
  unfoldable pub find_commit : Raft C → ℕ → Option (Option ℕ)
  find_commit rf zero = some none
  find_commit rf (suc n) =
      let further = find_commit rf n in
      if ltb rf.commit_index (suc n) && ltb rf.log.snap_index (suc n)
      then (do
        e ← entry rf.log (suc n)
        if e.term == rf.current_term && has_majority rf (suc n)
            then some (some (suc n))
            else further)
      else some none

  abbrev pub committed : Raft C → Option ℕ → Raft C
  committed rf none = rf
  committed rf (some n) = record rf { commit_index = n; commit = rf.commit + 1 }

  unfoldable pub update_commit_index : Raft C → Option (Raft C)
  update_commit_index rf = do found ← find_commit rf (last_index rf.log); some (committed rf found)

  -- The test under the first lock: is the peer behind the snapshot?
  unfoldable pub behind_snapshot : Raft C → ℕ → Option Bool
  behind_snapshot rf p = do next ← get_elem? rf.next_index p; some (leb next rf.log.snap_index)

  -- The arguments, under the second lock. An index of -1 panics.
  unfoldable pub append_request : Raft C → ℕ → Option (AppendEntriesArgs C)
  append_request rf p = do
    next ← get_elem? rf.next_index p
    prev ← if next == 0 then none else entry rf.log (next - 1)
    some (record {
      term = rf.current_term;
      leader_id = rf.me;
      prev_log_index = next - 1;
      prev_log_term = prev.term;
      entries = if ltb next (len rf.log) then since rf.log next else [];
      leader_commit = rf.commit_index;
    })

  -- A success up to `new_match`.
  unfoldable pub record_match : Raft C → ℕ → ℕ → Option (Raft C)
  record_match rf p new_match = do
    m ← get_elem? rf.match_index p
    if ltb m new_match
        then update_commit_index (record rf {
          match_index = set rf.match_index p new_match;
          next_index = set rf.next_index p (new_match + 1);
        })
        else some rf

  unfoldable pub snapshot_request : Raft C → InstallSnapshotArgs
  snapshot_request rf = record {
    term = rf.current_term;
    leader_id = rf.me;
    last_included_index = rf.log.snap_index;
    last_included_term = rf.log.snap_term;
    snapshot = read_snapshot rf.persister;
  }

  -- The loop of `applyCommand` for the next `k` indices from `i`.
  unfoldable pub commands_from : RaftLog C → ℕ → ℕ → Option (List (ApplyMsg C))
  commands_from l i zero = some []
  commands_from l i (suc k) = do
    e ← entry l i
    rest ← commands_from l (suc i) k
    some (command_msg e.command i ∷ rest)

  -- One wake-up of `applyCommand`.
  unfoldable pub apply_command : Raft C → Option (Raft C × List (ApplyMsg C))
  apply_command rf = do
    let k = rf.commit_index - rf.last_applied
    msgs ← commands_from rf.log (rf.last_applied + 1) k
    some (record rf { last_applied = rf.last_applied + k; commit = rf.commit - 1 }, msgs)

module _ {C : Type 0} (gob : Gob C) where
  unfoldable pub append_reply :
      Raft C → ℕ → ℕ → AppendEntriesArgs C → AppendEntriesReply → Option (Raft C)
  unfolding may_apply become_follower record_match
  append_reply rf p sent_term args reply =
      if not (may_apply rf leader sent_term)
      then some rf
      else if ltb rf.current_term reply.term
      then some (become_follower gob rf reply.term)
      else if reply.success
      then record_match rf p (args.prev_log_index + length args.entries)
      else (do
        _ ← get_elem? rf.next_index p
        next ← backoff_next_index args.prev_log_index rf.log reply
        some (record rf { next_index = set rf.next_index p next }))

  unfoldable pub snapshot_reply :
      Raft C → ℕ → ℕ → InstallSnapshotArgs → InstallSnapshotReply → Option (Raft C)
  unfolding may_apply become_follower
  snapshot_reply rf p sent_term args reply =
      if not (may_apply rf leader sent_term)
      then some rf
      else if ltb rf.current_term reply.term
      then some (become_follower gob rf reply.term)
      else (do
        next ← get_elem? rf.next_index p
        m ← get_elem? rf.match_index p
        some (record rf {
          next_index = set rf.next_index p (max next (args.last_included_index + 1));
          match_index = set rf.match_index p (max m args.last_included_index);
        }))
