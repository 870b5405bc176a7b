-- ===== src/Raft/Matching/Sections.antt =====
-- What the handlers and the goroutines of src/raft1 do to the log, and to the role within a term.
use distributed_systems_mit.Base.{
  ℕ, ◌≤◌, ◌≡◌, refl, sym, ap, subst, ◌∙◌, inl, inr, some, List, arith, ltb, Bool-cases, eq_of_some,
  >>=-eq-some, ltb→lt, ltb→le,
}
use distributed_systems_mit.Raft.Log.Bounds.{IsValid}
use distributed_systems_mit.Raft.Rpc.{
  RequestVoteArgs, RequestVoteReply, AppendEntriesArgs, AppendEntriesReply, InstallSnapshotArgs,
  InstallSnapshotReply,
}
use distributed_systems_mit.Raft.Conflict.{check_append}
use distributed_systems_mit.Raft.Server.{follower, Gob, Raft}
use distributed_systems_mit.Raft.Handlers.{
  ApplyMsg, catch_up, request_vote, answer_append, append_entries, handle_install_snapshot,
}
use distributed_systems_mit.Raft.Election.{start_election, vote_reply}
use distributed_systems_mit.Raft.Replication.{
  append_reply, snapshot_reply, apply_command, record_match, update_commit_index,
}
use distributed_systems_mit.Raft.Run.Effects.{append_entries-Effect}
use distributed_systems_mit.Raft.Run.Roles.{answer_append_same}
use distributed_systems_mit.Raft.Catchup.Rounds.{install_snapshot_stale, install_snapshot_newer}
use distributed_systems_mit.Raft.Matching.Chain.{Within, Within-same, Installs-Within}
use distributed_systems_mit.Raft.Matching.Stands.{
  Stands, Holds, Stands-same, Stands-follower, Stands-refl,
}

module _ {C : Type 0} (gob : Gob C) where
  pub request_vote-Holds :
      (rf rf' : Raft C) (args : RequestVoteArgs) (now : ℕ) (reply : RequestVoteReply)
      → IsValid rf.log
      → request_vote gob rf args now ≡ some (rf', reply)
      → Holds rf rf'
  unfolding request_vote
  request_vote-Holds rf rf' args now reply v h =
      let same : rf'.log ≡ rf.log = ground arith in
      (
        Within-same rf.log rf'.log v same,
        Stands-same rf rf' same (ground arith) (λ t c. ground arith) (λ t l. inl (ground arith)),
      )

  pub start_election-Holds :
      (rf rf' : Raft C) (now random votes : ℕ)
      → IsValid rf.log
      → start_election gob rf now random ≡ (rf', votes)
      → Holds rf rf'
  unfolding start_election
  start_election-Holds rf rf' now random votes v h =
      let same : rf'.log ≡ rf.log = ground arith in
      (
        Within-same rf.log rf'.log v same,
        Stands-same rf rf' same (ground arith) (λ t c. absurd (ground arith))
            (λ t l. absurd (ground arith)),
      )

  pub vote_reply-Holds :
      (rf rf' : Raft C) (votes votes' term : ℕ) (reply : RequestVoteReply)
      → IsValid rf.log
      → vote_reply gob rf votes term reply ≡ (rf', votes')
      → Holds rf rf'
  unfolding vote_reply
  vote_reply-Holds rf rf' votes votes' term reply v h =
      let same : rf'.log ≡ rf.log = ground arith in
      (
        Within-same rf.log rf'.log v same,
        Stands-same rf rf' same (ground arith) (λ t c. ground arith) (λ t l. ground arith),
      )

  pub append_entries-Stands :
      (rf rf' : Raft C) (args : AppendEntriesArgs C) (now : ℕ) (reply : AppendEntriesReply)
      → append_entries gob rf args now ≡ some (rf', reply)
      → Stands rf rf'
  unfolding append_entries catch_up
  append_entries-Stands rf rf' args now reply h =
      elim (Bool-cases (ltb args.term rf.current_term)) [
        | inl stale ↦ subst (Stands rf) (ground arith) (Stands-refl rf)
        | inr current ↦
            let s : Raft C = record (catch_up gob rf args.term) {
              role = follower;
              last_reset = now;
            } in
            let (checked, _, answered) =
              >>=-eq-some (check_append s.log args.prev_log_index args.prev_log_term args.entries)
                (answer_append gob s args) (rw current at h) in
            let (_, _, r) = answer_append_same gob s rf' args checked reply answered in
            let (_, votes) = append_entries-Effect gob rf rf' args now reply h in
            Stands-follower rf rf' (ground (arith, votes)) r
      ]

  install_snapshot-Stands :
      (rf rf' : Raft C) (args : InstallSnapshotArgs) (now : ℕ) (reply : InstallSnapshotReply)
      (msgs : List (ApplyMsg C))
      → rf.current_term ≤ args.term
      → handle_install_snapshot gob rf args now ≡ some (rf', reply, msgs)
      → Stands rf rf'
  unfolding handle_install_snapshot
  install_snapshot-Stands rf rf' args now reply msgs current h =
      Stands-follower rf rf' (ground arith) (ground arith)

  pub install_snapshot-Holds :
      (rf rf' : Raft C) (args : InstallSnapshotArgs) (now : ℕ) (reply : InstallSnapshotReply)
      (msgs : List (ApplyMsg C))
      → IsValid rf.log
      → handle_install_snapshot gob rf args now ≡ some (rf', reply, msgs)
      → Holds rf rf'
  install_snapshot-Holds rf rf' args now reply msgs v h =
      elim (Bool-cases (ltb args.term rf.current_term)) [
        | inl old ↦
            let same : rf ≡ rf' = unfold handle_install_snapshot in ground arith in
            subst (Holds rf) same (Within-same rf.log rf.log v refl, Stands-refl rf)
        | inr new ↦
            let current = ltb→le args.term rf.current_term new in
            let stands = install_snapshot-Stands rf rf' args now reply msgs current h in
            elim (Bool-cases (ltb rf.log.snap_index args.last_included_index)) [
              | inl newer ↦
                  let low = ltb→lt rf.log.snap_index args.last_included_index newer in
                  let (s, _, _, done, installs, _, _) =
                    install_snapshot_newer gob rf args now current low in
                  (
                    subst (λ (s : Raft C). Within rf.log s.log)
                        (ap (λ (r : Raft C × InstallSnapshotReply × List (ApplyMsg C)). r.0)
                          (eq_of_some (sym done ∙ h)))
                        (Installs-Within rf.log s.log args.last_included_index
                          args.last_included_term low installs),
                    stands,
                  )
              | inr stale ↦
                  let (s, _, done, same, _, _) =
                    install_snapshot_stale gob rf args now current
                      (ltb→le rf.log.snap_index args.last_included_index stale) in
                  (
                    subst (λ (s : Raft C). Within rf.log s.log)
                        (ap (λ (r : Raft C × InstallSnapshotReply × List (ApplyMsg C)). r.0)
                          (eq_of_some (sym done ∙ h)))
                        (Within-same rf.log s.log v same),
                    stands,
                  )
            ]
      ]

  pub append_reply-Holds :
      (rf rf' : Raft C) (p sent_term : ℕ) (args : AppendEntriesArgs C) (reply : AppendEntriesReply)
      → IsValid rf.log
      → append_reply gob rf p sent_term args reply ≡ some rf'
      → Holds rf rf'
  unfolding append_reply record_match update_commit_index
  append_reply-Holds rf rf' p sent_term args reply v h =
      let same : rf'.log ≡ rf.log = ground arith in
      (
        Within-same rf.log rf'.log v same,
        Stands-same rf rf' same (ground arith) (λ t c. ground arith) (λ t l. inl (ground arith)),
      )

  pub snapshot_reply-Holds :
      (rf rf' : Raft C) (p sent_term : ℕ) (args : InstallSnapshotArgs)
      (reply : InstallSnapshotReply)
      → IsValid rf.log
      → snapshot_reply gob rf p sent_term args reply ≡ some rf'
      → Holds rf rf'
  unfolding snapshot_reply
  snapshot_reply-Holds rf rf' p sent_term args reply v h =
      let same : rf'.log ≡ rf.log = ground arith in
      (
        Within-same rf.log rf'.log v same,
        Stands-same rf rf' same (ground arith) (λ t c. ground arith) (λ t l. inl (ground arith)),
      )

  pub apply_command-Holds :
      (rf rf' : Raft C) (msgs : List (ApplyMsg C))
      → IsValid rf.log
      → apply_command rf ≡ some (rf', msgs)
      → Holds rf rf'
  unfolding apply_command
  apply_command-Holds rf rf' msgs v h =
      let same : rf'.log ≡ rf.log = ground arith in
      (
        Within-same rf.log rf'.log v same,
        Stands-same rf rf' same (ground arith) (λ t c. ground arith) (λ t l. inl (ground arith)),
      )
