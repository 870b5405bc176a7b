-- ===== src/Raft/Run/Effects.antt =====
-- What each locked section does to the values that must survive a crash, and to the storage.
use distributed_systems_mit.Base.{
  ℕ, ◌<◌, ◌≡◌, ◌⊎◌, inl, inr, none, some, List, arith, Bool-cases, >>=-eq-some, ltb,
}
use distributed_systems_mit.Raft.Rpc.{
  RequestVoteArgs, RequestVoteReply, AppendEntriesArgs, AppendEntriesReply, InstallSnapshotArgs,
  InstallSnapshotReply,
}
use distributed_systems_mit.Raft.Conflict.{AppendConflict, check_append}
use distributed_systems_mit.Raft.Server.{follower, Gob, Raft, encode_raft_state, snapshot, start}
use distributed_systems_mit.Raft.Handlers.{
  ApplyMsg, catch_up, decide_vote, request_vote, append_entries, take_snapshot,
  handle_install_snapshot, accept_entries, answer_append, store_entries,
}
use distributed_systems_mit.Raft.Election.{start_election, vote_reply}
use distributed_systems_mit.Raft.Replication.{
  append_reply, snapshot_reply, apply_command, update_commit_index,
}

module _ {C : Type 0} (gob : Gob C) where
  -- A step that leaves the durable values and the storage alone, or one that ends with all saved.
  abbrev pub Saves : Raft C → Raft C → Type 0
  Saves rf rf' =
      ((rf'.current_term ≡ rf.current_term)
        × (rf'.voted_for ≡ rf.voted_for)
        × (rf'.log ≡ rf.log)
        × (rf'.persister.raftstate ≡ rf.persister.raftstate))
      ⊎ (rf'.persister.raftstate ≡ encode_raft_state gob rf')

  -- The term does not fall, and while it stays a vote that was cast stays.
  abbrev pub KeepsVote : Raft C → Raft C → Type 0
  KeepsVote rf rf' =
      (rf.current_term < rf'.current_term)
      ⊎ ((rf'.current_term ≡ rf.current_term)
          × ((rf.voted_for ≡ none) ⊎ (rf'.voted_for ≡ rf.voted_for)))

  abbrev pub Effect : Raft C → Raft C → Type 0
  Effect rf rf' = Saves rf rf' × KeepsVote rf rf'

  pub KeepsVote-trans :
      (rf rf' rf'' : Raft C) → KeepsVote rf rf' → KeepsVote rf' rf'' → KeepsVote rf rf''
  KeepsVote-trans rf rf' rf'' e f = ground arith

  pub catch_up-Effect : (rf : Raft C) (term : ℕ) → Effect rf (catch_up gob rf term)
  unfolding catch_up
  catch_up-Effect rf term = ground arith

  pub Effect-trans : (rf rf' rf'' : Raft C) → Effect rf rf' → Effect rf' rf'' → Effect rf rf''
  unfolding encode_raft_state
  Effect-trans rf rf' rf'' e f = (ground arith, KeepsVote-trans rf rf' rf'' e.1 f.1)

  -- What comes after does not touch the durable values.
  pub Effect-kept :
      (rf rf' rf'' : Raft C)
      → Effect rf rf'
      → rf''.current_term ≡ rf'.current_term
      → rf''.voted_for ≡ rf'.voted_for
      → rf''.log ≡ rf'.log
      → rf''.persister ≡ rf'.persister
      → Effect rf rf''
  unfolding encode_raft_state
  Effect-kept rf rf' rf'' e t v l p = ground arith

  pub decide_vote-Effect :
      (rf rf' : Raft C) (args : RequestVoteArgs) (now : ℕ) (reply : RequestVoteReply)
      → decide_vote gob rf args now ≡ some (rf', reply)
      → Effect rf rf'
  unfolding decide_vote
  decide_vote-Effect rf rf' args now reply h = ground arith

  pub request_vote-Effect :
      (rf rf' : Raft C) (args : RequestVoteArgs) (now : ℕ) (reply : RequestVoteReply)
      → request_vote gob rf args now ≡ some (rf', reply)
      → Effect rf rf'
  unfolding request_vote
  request_vote-Effect rf rf' args now reply h = ground (
    arith,
    catch_up-Effect rf args.term,
    Effect-trans rf (catch_up gob rf args.term) rf',
    decide_vote-Effect (catch_up gob rf args.term) rf' args now reply,
  )

  pub accept_entries-Effect :
      (rf rf' : Raft C) (args : AppendEntriesArgs C) (i : ℕ) (reply : AppendEntriesReply)
      → accept_entries gob rf args i ≡ some (rf', reply)
      → Effect rf rf'
  unfolding accept_entries store_entries
  accept_entries-Effect rf rf' args i reply h = ground arith

  pub answer_append-Effect :
      (rf rf' : Raft C) (args : AppendEntriesArgs C) (checked : ℕ × AppendConflict)
      (reply : AppendEntriesReply)
      → answer_append gob rf args checked ≡ some (rf', reply)
      → Effect rf rf'
  unfolding answer_append
  answer_append-Effect rf rf' args (i, conflict) reply h =
      ground (arith, accept_entries-Effect rf rf' args i reply)

  -- The state in which a current request of a leader is looked at.
  pub following-Effect :
      (rf : Raft C) (term now : ℕ)
      → Effect rf (record (catch_up gob rf term) { role = follower; last_reset = now })
  following-Effect rf term now = ground (
    arith,
    Effect-kept rf (catch_up gob rf term)
        (record (catch_up gob rf term) { role = follower; last_reset = now }),
    catch_up-Effect rf term,
  )

  pub append_entries-Effect :
      (rf rf' : Raft C) (args : AppendEntriesArgs C) (now : ℕ) (reply : AppendEntriesReply)
      → append_entries gob rf args now ≡ some (rf', reply)
      → Effect rf rf'
  unfolding append_entries
  append_entries-Effect rf rf' args now reply h =
      elim (Bool-cases (ltb args.term rf.current_term)) [
        | inl stale ↦ ground arith
        | inr current ↦
            let s : Raft C = record (catch_up gob rf args.term) {
              role = follower;
              last_reset = now;
            } in
            let (checked, _, answered) =
              >>=-eq-some (check_append s.log args.prev_log_index args.prev_log_term args.entries)
                (answer_append gob s args) (rw current at h) in
            Effect-trans rf s rf' (following-Effect rf args.term now)
              (answer_append-Effect s rf' args checked reply answered)
      ]

  pub take_snapshot-Effect :
      (rf rf' : Raft C) (args : InstallSnapshotArgs) (reply : InstallSnapshotReply)
      (msgs : List (ApplyMsg C))
      → take_snapshot gob rf args ≡ some (rf', reply, msgs)
      → Effect rf rf'
  unfolding take_snapshot
  take_snapshot-Effect rf rf' args reply msgs h = ground arith

  pub handle_install_snapshot-Effect :
      (rf rf' : Raft C) (args : InstallSnapshotArgs) (now : ℕ) (reply : InstallSnapshotReply)
      (msgs : List (ApplyMsg C))
      → handle_install_snapshot gob rf args now ≡ some (rf', reply, msgs)
      → Effect rf rf'
  unfolding handle_install_snapshot
  handle_install_snapshot-Effect rf rf' args now reply msgs h =
      let s : Raft C = record (catch_up gob rf args.term) { role = follower; last_reset = now } in
      ground (
        arith,
        Effect-trans rf s rf',
        following-Effect rf args.term now,
        take_snapshot-Effect s rf' args reply msgs,
      )

  pub snapshot-Effect :
      (rf rf' : Raft C) (index : ℕ) (bytes : List ℕ)
      → snapshot gob rf index bytes ≡ some rf'
      → Effect rf rf'
  unfolding snapshot
  snapshot-Effect rf rf' index bytes h = ground arith

  pub start-Effect : (rf : Raft C) (command : C) → Effect rf (start gob rf command).0
  unfolding start
  start-Effect rf command = ground arith

  pub start_election-Effect :
      (rf : Raft C) (now random : ℕ) → Effect rf (start_election gob rf now random).0
  unfolding start_election
  start_election-Effect rf now random = ground arith

  pub vote_reply-Effect :
      (rf : Raft C) (votes sent_term : ℕ) (reply : RequestVoteReply)
      → Effect rf (vote_reply gob rf votes sent_term reply).0
  unfolding vote_reply
  vote_reply-Effect rf votes sent_term reply = ground arith

  pub append_reply-Effect :
      (rf rf' : Raft C) (p sent_term : ℕ) (args : AppendEntriesArgs C) (reply : AppendEntriesReply)
      → append_reply gob rf p sent_term args reply ≡ some rf'
      → Effect rf rf'
  unfolding append_reply update_commit_index
  append_reply-Effect rf rf' p sent_term args reply h = ground arith

  pub snapshot_reply-Effect :
      (rf rf' : Raft C) (p sent_term : ℕ) (args : InstallSnapshotArgs)
      (reply : InstallSnapshotReply)
      → snapshot_reply gob rf p sent_term args reply ≡ some rf'
      → Effect rf rf'
  unfolding snapshot_reply
  snapshot_reply-Effect rf rf' p sent_term args reply h = ground arith

  pub apply_command-Effect :
      (rf rf' : Raft C) (msgs : List (ApplyMsg C))
      → apply_command rf ≡ some (rf', msgs)
      → Effect rf rf'
  unfolding apply_command
  apply_command-Effect rf rf' msgs h = ground arith
