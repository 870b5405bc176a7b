-- ===== src/Raft/Run/Roles.antt =====
-- Who may lead, and what a peer never changes: its own number and the number of peers.
use distributed_systems_mit.Base.{
  ℕ, ltb, Bool-cases, ◌≡◌, subst, some, List, arith, eq_of_some, >>=-eq-some, inl, inr,
}
use distributed_systems_mit.Persister.{Persister, read_raft_state}
use distributed_systems_mit.Raft.Rpc.{
  RequestVoteArgs, RequestVoteReply, AppendEntriesArgs, AppendEntriesReply, InstallSnapshotArgs,
  InstallSnapshotReply,
}
use distributed_systems_mit.Raft.Conflict.{AppendConflict, check_append}
use distributed_systems_mit.Raft.Server.{
  leader, follower, Gob, Raft, snapshot, start, make, read_persist,
}
use distributed_systems_mit.Raft.Handlers.{
  ApplyMsg, catch_up, request_vote, accept_entries, answer_append, append_entries,
  handle_install_snapshot, store_entries,
}
use distributed_systems_mit.Raft.Replication.{
  append_reply, snapshot_reply, apply_command, record_match, update_commit_index,
}
use distributed_systems_mit.Raft.Run.{
  Event, on_request_vote, on_append_entries, on_install_snapshot, on_election_timeout,
  on_vote_reply, on_append_reply, on_snapshot_reply, on_start, on_snapshot, on_commit, on_crash,
  step,
}

-- An event other than the three of an election.
abbrev pub IsOther : {C : Type 0} → Event C → Type 0
IsOther (on_request_vote args now) = ⊥
IsOther (on_election_timeout now random) = ⊥
IsOther (on_vote_reply votes sent_term reply) = ⊥
IsOther _ = Unit {0}

module _ {C : Type 0} (gob : Gob C) where
  -- The peer is the same one, and leads afterwards only if it led before in the same term.
  abbrev pub Stays : Raft C → Raft C → Type 0
  Stays rf rf' =
      (rf'.me ≡ rf.me)
      × (rf'.peers ≡ rf.peers)
      × (rf'.role ≡ leader → (rf.role ≡ leader) × (rf'.current_term ≡ rf.current_term))

  pub request_vote-Stays :
      (rf rf' : Raft C) (args : RequestVoteArgs) (now : ℕ) (reply : RequestVoteReply)
      → request_vote gob rf args now ≡ some (rf', reply)
      → Stays rf rf'
  unfolding request_vote
  request_vote-Stays rf rf' args now reply h =
      (ground arith, ground arith, λ l. (ground arith, ground arith))

  pub answer_append_same :
      (rf rf' : Raft C) (args : AppendEntriesArgs C) (checked : ℕ × AppendConflict)
      (reply : AppendEntriesReply)
      → answer_append gob rf args checked ≡ some (rf', reply)
      → (rf'.me ≡ rf.me) × (rf'.peers ≡ rf.peers) × (rf'.role ≡ rf.role)
  unfolding answer_append accept_entries store_entries
  answer_append_same rf rf' args (i, conflict) reply h = (ground arith, ground arith, ground arith)

  append_entries-Stays :
      (rf rf' : Raft C) (args : AppendEntriesArgs C) (now : ℕ) (reply : AppendEntriesReply)
      → append_entries gob rf args now ≡ some (rf', reply)
      → Stays rf rf'
  unfolding append_entries catch_up
  append_entries-Stays rf rf' args now reply h = elim (Bool-cases (ltb args.term rf.current_term)) [
    | inl stale ↦ (ground arith, ground arith, λ l. (ground arith, ground arith))
    | inr current ↦
        let s : Raft C = record (catch_up gob rf args.term) { role = follower; last_reset = now } in
        let (checked, _, answered) =
          >>=-eq-some (check_append s.log args.prev_log_index args.prev_log_term args.entries)
            (answer_append gob s args) (rw current at h) in
        let (m, ps, r) = answer_append_same s rf' args checked reply answered in
        (ground arith, ground arith, λ l. absurd (ground arith))
  ]

  install_snapshot-Stays :
      (rf rf' : Raft C) (args : InstallSnapshotArgs) (now : ℕ) (reply : InstallSnapshotReply)
      (msgs : List (ApplyMsg C))
      → handle_install_snapshot gob rf args now ≡ some (rf', reply, msgs)
      → Stays rf rf'
  unfolding handle_install_snapshot
  install_snapshot-Stays rf rf' args now reply msgs h =
      (ground arith, ground arith, λ l. (ground arith, ground arith))

  append_reply-Stays :
      (rf rf' : Raft C) (p sent_term : ℕ) (args : AppendEntriesArgs C) (reply : AppendEntriesReply)
      → append_reply gob rf p sent_term args reply ≡ some rf'
      → Stays rf rf'
  unfolding append_reply record_match update_commit_index
  append_reply-Stays rf rf' p sent_term args reply h =
      (ground arith, ground arith, λ l. (ground arith, ground arith))

  snapshot_reply-Stays :
      (rf rf' : Raft C) (p sent_term : ℕ) (args : InstallSnapshotArgs)
      (reply : InstallSnapshotReply)
      → snapshot_reply gob rf p sent_term args reply ≡ some rf'
      → Stays rf rf'
  unfolding snapshot_reply
  snapshot_reply-Stays rf rf' p sent_term args reply h =
      (ground arith, ground arith, λ l. (ground arith, ground arith))

  start-Stays : (rf : Raft C) (command : C) → Stays rf (start gob rf command).0
  unfolding start
  start-Stays rf command = (ground arith, ground arith, λ l. (ground arith, ground arith))

  snapshot-Stays :
      (rf rf' : Raft C) (index : ℕ) (bytes : List ℕ)
      → snapshot gob rf index bytes ≡ some rf'
      → Stays rf rf'
  unfolding snapshot
  snapshot-Stays rf rf' index bytes h =
      (ground arith, ground arith, λ l. (ground arith, ground arith))

  apply_command-Stays :
      (rf rf' : Raft C) (msgs : List (ApplyMsg C))
      → apply_command rf ≡ some (rf', msgs)
      → Stays rf rf'
  unfolding apply_command
  apply_command-Stays rf rf' msgs h =
      (ground arith, ground arith, λ l. (ground arith, ground arith))

  read_persist_same :
      (rf rf' : Raft C) (bytes : List ℕ)
      → read_persist gob rf bytes ≡ some rf'
      → (rf'.me ≡ rf.me) × (rf'.peers ≡ rf.peers) × (rf'.role ≡ rf.role)
  unfolding read_persist
  read_persist_same rf rf' bytes h = (ground arith, ground arith, ground arith)

  -- A peer starts as a follower, under the number that it is given.
  pub make_follower :
      (rf : Raft C) (storage : Persister) (peers me now random : ℕ)
      → make gob peers me storage now random ≡ some rf
      → (rf.me ≡ me) × (rf.peers ≡ peers) × (rf.role ≡ follower)
  unfolding make
  make_follower rf storage peers me now random h =
      read_persist_same _ rf (read_raft_state storage) h

  make-Stays :
      (rf rf' : Raft C) (now random : ℕ)
      → make gob rf.peers rf.me rf.persister now random ≡ some rf'
      → Stays rf rf'
  make-Stays rf rf' now random h =
      let (m, ps, r) = make_follower rf' rf.persister rf.peers rf.me now random h in
      (m, ps, λ l. absurd (ground arith))

  -- Outside the events of an election no peer becomes a leader.
  pub step-Stays :
      (rf rf' : Raft C) (e : Event C) → IsOther e → step gob rf e ≡ some rf' → Stays rf rf'
  unfolding step
  step-Stays rf rf' (on_request_vote args now) other h = absurd other
  step-Stays rf rf' (on_append_entries args now) other h =
      let (r, done, e) = >>=-eq-some (append_entries gob rf args now) (λ r. some r.0) h in
      subst (Stays rf) (eq_of_some e) (append_entries-Stays rf r.0 args now r.1 done)
  step-Stays rf rf' (on_install_snapshot args now) other h =
      let (r, done, e) = >>=-eq-some (handle_install_snapshot gob rf args now) (λ r. some r.0) h in
      subst (Stays rf) (eq_of_some e) (install_snapshot-Stays rf r.0 args now r.1 r.2 done)
  step-Stays rf rf' (on_election_timeout now random) other h = absurd other
  step-Stays rf rf' (on_vote_reply votes sent_term reply) other h = absurd other
  step-Stays rf rf' (on_append_reply p sent_term args reply) other h =
      append_reply-Stays rf rf' p sent_term args reply h
  step-Stays rf rf' (on_snapshot_reply p sent_term args reply) other h =
      snapshot_reply-Stays rf rf' p sent_term args reply h
  step-Stays rf rf' (on_start command) other h =
      subst (Stays rf) (eq_of_some h) (start-Stays rf command)
  step-Stays rf rf' (on_snapshot index bytes) other h = snapshot-Stays rf rf' index bytes h
  step-Stays rf rf' on_commit other h =
      let (r, done, e) = >>=-eq-some (apply_command rf) (λ r. some r.0) h in
      subst (Stays rf) (eq_of_some e) (apply_command-Stays rf r.0 r.1 done)
  step-Stays rf rf' (on_crash now random) other h = make-Stays rf rf' now random h
