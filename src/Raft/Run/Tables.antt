-- ===== src/Raft/Run/Tables.antt =====
-- A leader has an entry for each peer in its tables, whatever events led there.
use distributed_systems_mit.Base.{
  ℕ, ◌+◌, ◌/◌, ◌<◌, ◌≡◌, refl, sym, ◌∙◌, subst, Bool-cases, inl, inr, some, List, length, ltb,
  arith, length-set, length-replicate, >>=-eq-some, eq_of_some,
}
use distributed_systems_mit.Raft.Log.{len}
use distributed_systems_mit.Raft.Rpc.{
  RequestVoteArgs, RequestVoteReply, AppendEntriesArgs, AppendEntriesReply, InstallSnapshotArgs,
  InstallSnapshotReply,
}
use distributed_systems_mit.Raft.Conflict.{AppendConflict, check_append}
use distributed_systems_mit.Raft.Server.{follower, candidate, leader, Gob, Raft, start}
use distributed_systems_mit.Raft.Handlers.{
  ApplyMsg, accept_entries, store_entries, become_follower, catch_up, request_vote, answer_append,
  append_entries, handle_install_snapshot,
}
use distributed_systems_mit.Raft.Election.{may_apply, become_leader, start_election, vote_reply}
use distributed_systems_mit.Raft.Replication.{
  record_match, update_commit_index, append_reply, snapshot_reply,
}
use distributed_systems_mit.Raft.Run.Roles.{Stays, request_vote-Stays, step-Stays, make_follower}
use distributed_systems_mit.Raft.Run.{
  Event, on_request_vote, on_append_entries, on_install_snapshot, on_election_timeout,
  on_vote_reply, on_append_reply, on_snapshot_reply, on_start, on_snapshot, on_commit, on_crash,
  step,
}
use distributed_systems_mit.Raft.Run.Replies.{HasTables}

-- The events that come from other peers, the clock and the service of one of `n` peers, but for
-- deliveries and the service's snapshots.
abbrev pub IsOutside : {C : Type 0} → ℕ → Event C → Type 0
IsOutside n (on_append_reply p sent_term args reply) = p < n
IsOutside n (on_snapshot_reply p sent_term args reply) = p < n
IsOutside n (on_snapshot index bytes) = ⊥
IsOutside n on_commit = ⊥
IsOutside n _ = Unit {0}

module _ {C : Type 0} (gob : Gob C) where
  -- The lengths of the tables, where a section leaves them.
  abbrev pub SameLengths : Raft C → Raft C → Type 0
  SameLengths rf rf' =
      (length rf'.next_index ≡ length rf.next_index)
      × (length rf'.match_index ≡ length rf.match_index)

  pub request_vote-lengths :
      (rf rf' : Raft C) (args : RequestVoteArgs) (now : ℕ) (reply : RequestVoteReply)
      → request_vote gob rf args now ≡ some (rf', reply)
      → SameLengths rf rf'
  unfolding request_vote
  request_vote-lengths rf rf' args now reply h = (ground arith, ground arith)

  answer_append-lengths :
      (rf rf' : Raft C) (args : AppendEntriesArgs C) (checked : ℕ × AppendConflict)
      (reply : AppendEntriesReply)
      → answer_append gob rf args checked ≡ some (rf', reply)
      → SameLengths rf rf'
  unfolding answer_append accept_entries store_entries
  answer_append-lengths rf rf' args (i, conflict) reply h = (ground arith, ground arith)

  pub append_entries-lengths :
      (rf rf' : Raft C) (args : AppendEntriesArgs C) (now : ℕ) (reply : AppendEntriesReply)
      → append_entries gob rf args now ≡ some (rf', reply)
      → SameLengths rf rf'
  unfolding append_entries catch_up
  append_entries-lengths rf rf' args now reply h =
      elim (Bool-cases (ltb args.term rf.current_term)) [
        | inl stale ↦ (ground arith, ground arith)
        | inr current ↦
            let s : Raft C = record (catch_up gob rf args.term) {
              role = follower;
              last_reset = now;
            } in
            let (checked, _, answered) =
              >>=-eq-some (check_append s.log args.prev_log_index args.prev_log_term args.entries)
                (answer_append gob s args) (rw current at h) in
            let (ns, ms) = answer_append-lengths s rf' args checked reply answered in
            (ground arith, ground arith)
      ]

  pub install_snapshot-lengths :
      (rf rf' : Raft C) (args : InstallSnapshotArgs) (now : ℕ) (reply : InstallSnapshotReply)
      (msgs : List (ApplyMsg C))
      → handle_install_snapshot gob rf args now ≡ some (rf', reply, msgs)
      → SameLengths rf rf'
  unfolding handle_install_snapshot
  install_snapshot-lengths rf rf' args now reply msgs h = (ground arith, ground arith)

  pub append_reply-lengths :
      (rf rf' : Raft C) (p sent_term : ℕ) (args : AppendEntriesArgs C) (reply : AppendEntriesReply)
      → append_reply gob rf p sent_term args reply ≡ some rf'
      → SameLengths rf rf'
  unfolding append_reply record_match update_commit_index
  append_reply-lengths rf rf' p sent_term args reply h =
      (grind (arith, length-set), grind (arith, length-set))

  pub snapshot_reply-lengths :
      (rf rf' : Raft C) (p sent_term : ℕ) (args : InstallSnapshotArgs)
      (reply : InstallSnapshotReply)
      → snapshot_reply gob rf p sent_term args reply ≡ some rf'
      → SameLengths rf rf'
  unfolding snapshot_reply
  snapshot_reply-lengths rf rf' p sent_term args reply h =
      (grind (arith, length-set), grind (arith, length-set))

  pub start-lengths : (rf : Raft C) (command : C) → SameLengths rf (start gob rf command).0
  unfolding start
  start-lengths rf command = (ground arith, ground arith)

  -- The peers are as many, and the tables are there if they were needed and there before.
  abbrev pub KeepsTables : Raft C → Raft C → Type 0
  KeepsTables rf rf' =
      (rf'.peers ≡ rf.peers)
      × ((rf.role ≡ leader → HasTables rf) → rf'.role ≡ leader → HasTables rf')

  pub lengths-KeepsTables :
      (rf rf' : Raft C) → Stays gob rf rf' → SameLengths rf rf' → KeepsTables rf rf'
  lengths-KeepsTables rf rf' (me, peers, stays) (ns, ms) = (
    peers,
    λ tables l.
        let t = tables (stays l).0 in
        record {
          next_length = ns ∙ t.next_length ∙ sym peers;
          match_length = ms ∙ t.match_length ∙ sym peers;
        },
  )

  start_election-KeepsTables :
      (rf : Raft C) (now random : ℕ) → KeepsTables rf (start_election gob rf now random).0
  unfolding start_election
  start_election-KeepsTables rf now random = (refl, λ tables l. absurd (ground arith))

  become_follower-KeepsTables :
      (rf : Raft C) (term : ℕ) → KeepsTables rf (become_follower gob rf term)
  unfolding become_follower
  become_follower-KeepsTables rf term = (refl, λ tables l. absurd (ground arith))

  become_leader-KeepsTables : (rf : Raft C) → KeepsTables rf (become_leader rf)
  unfolding become_leader
  become_leader-KeepsTables rf = (
    refl,
    λ tables l. record {
      next_length = length-replicate rf.peers (len rf.log);
      match_length = length-replicate rf.peers rf.log.snap_index;
    },
  )

  vote_reply-KeepsTables :
      (rf : Raft C) (votes term : ℕ) (reply : RequestVoteReply)
      → KeepsTables rf (vote_reply gob rf votes term reply).0
  unfolding vote_reply may_apply become_follower become_leader
  vote_reply-KeepsTables rf votes term reply = elim (Bool-cases (may_apply rf candidate term)) [
    | inr late ↦ rw late kept
    | inl mine ↦ elim (Bool-cases (ltb rf.current_term reply.term)) [
      | inl higher ↦ rw (mine, higher) (become_follower-KeepsTables rf reply.term)
      | inr same ↦ elim (Bool-cases reply.vote_granted) [
        | inr refused ↦ rw (mine, same, refused) kept
        | inl granted ↦ elim (Bool-cases (ltb (rf.peers / 2) (votes + 1))) [
          | inr few ↦ rw (mine, same, granted, few) kept
          | inl won ↦ rw (mine, same, granted, won) (become_leader-KeepsTables rf)
        ]
      ]
    ]
  ]
    where
      kept : KeepsTables rf rf
      kept = (refl, λ tables l. tables l)

  -- The events that need the tables, or change them.
  pub step-KeepsTables :
      (rf rf' : Raft C) (e : Event C)
      → IsOutside rf.peers e
      → step gob rf e ≡ some rf'
      → KeepsTables rf rf'
  unfolding step
  step-KeepsTables rf rf' (on_request_vote args now) o h =
      let (r, done, e) = >>=-eq-some (request_vote gob rf args now) (λ r. some r.0) h in
      subst (KeepsTables rf) (eq_of_some e) (
        lengths-KeepsTables rf r.0 (request_vote-Stays gob rf r.0 args now r.1 done)
          (request_vote-lengths rf r.0 args now r.1 done))
  step-KeepsTables rf rf' (on_append_entries args now) o h =
      let (r, done, e) = >>=-eq-some (append_entries gob rf args now) (λ r. some r.0) h in
      lengths-KeepsTables rf rf' (step-Stays gob rf rf' (on_append_entries args now) tt h)
        (subst (SameLengths rf) (eq_of_some e) (append_entries-lengths rf r.0 args now r.1 done))
  step-KeepsTables rf rf' (on_install_snapshot args now) o h =
      let (r, done, e) = >>=-eq-some (handle_install_snapshot gob rf args now) (λ r. some r.0) h in
      lengths-KeepsTables rf rf' (step-Stays gob rf rf' (on_install_snapshot args now) tt h) (
        subst (SameLengths rf) (eq_of_some e)
          (install_snapshot-lengths rf r.0 args now r.1 r.2 done))
  step-KeepsTables rf rf' (on_election_timeout now random) o h =
      subst (KeepsTables rf) (eq_of_some h) (start_election-KeepsTables rf now random)
  step-KeepsTables rf rf' (on_vote_reply votes term reply) o h =
      subst (KeepsTables rf) (eq_of_some h) (vote_reply-KeepsTables rf votes term reply)
  step-KeepsTables rf rf' (on_append_reply p term args reply) o h =
      lengths-KeepsTables rf rf' (step-Stays gob rf rf' (on_append_reply p term args reply) tt h)
        (append_reply-lengths rf rf' p term args reply h)
  step-KeepsTables rf rf' (on_snapshot_reply p term args reply) o h =
      lengths-KeepsTables rf rf' (step-Stays gob rf rf' (on_snapshot_reply p term args reply) tt h)
        (snapshot_reply-lengths rf rf' p term args reply h)
  step-KeepsTables rf rf' (on_start command) o h =
      lengths-KeepsTables rf rf' (step-Stays gob rf rf' (on_start command) tt h)
        (subst (SameLengths rf) (eq_of_some h) (start-lengths rf command))
  step-KeepsTables rf rf' (on_snapshot index bytes) o h = absurd o
  step-KeepsTables rf rf' on_commit o h = absurd o
  step-KeepsTables rf rf' (on_crash now random) o h =
      let (m, ps, r) = make_follower gob rf' rf.persister rf.peers rf.me now random h in
      (ps, λ tables l. absurd (ground arith))
