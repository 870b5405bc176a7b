-- ===== src/Raft/Run/Answers.antt =====
-- The three handlers answer every request, whatever it holds.
use distributed_systems_mit.Base.{
  ℕ, ◌+◌, ◌≤◌, ◌<◌, ◌≡◌, refl, sym, ap, ◌∙◌, subst, ◌⊎◌, Bool, Bool-cases, true, false, inl, inr,
  some, List, [], length, ltb, leb, ◌==◌, arith, ltb→lt, ltb→le, leb→le, leb→lt, ==→eq, ==→ne,
}
use distributed_systems_mit.Raft.Log.{LogEntry, RaftLog, len, last_index, append}
use distributed_systems_mit.Raft.Log.Bounds.{
  IsValid, term_of, entry_total, last_term_total, append-IsValid, truncate_to_lem, snap-lt-len,
}
use distributed_systems_mit.Raft.Rpc.{
  RequestVoteArgs, RequestVoteReply, AppendEntriesArgs, AppendEntriesReply, InstallSnapshotArgs,
  InstallSnapshotReply,
}
use distributed_systems_mit.Raft.Conflict.{AppendConflict, is_conflict, check_append}
use distributed_systems_mit.Raft.Conflict.Check.{check_append_absent, check_append_mismatch}
use distributed_systems_mit.Raft.Server.{Gob, Raft, persist}
use distributed_systems_mit.Raft.Handlers.{
  ApplyMsg, may_vote, up_to_date, catch_up, decide_vote, request_vote, store_entries, answer_append,
  append_entries, handle_install_snapshot,
}
use distributed_systems_mit.Raft.Handlers.Append.{
  append_entries_stale, following, following_lem, append_entries_answer,
}
use distributed_systems_mit.Raft.Handlers.Accept.{
  append_entries-Accepted, append_entries_refused, stored_state, accept_entries_state,
  stored_state_fields, success_reply,
}
use distributed_systems_mit.Raft.Conflict.Backoff.{conflict_reply}
use distributed_systems_mit.Raft.Catchup.Rounds.{install_snapshot_stale, install_snapshot_newer}

module _ {C : Type 0} (gob : Gob C) where
  abbrev refused : Raft C → RequestVoteReply
  refused rf = record { term = rf.current_term; vote_granted = false }

  catch_up-log : (rf : Raft C) (term : ℕ) → (catch_up gob rf term).log ≡ rf.log
  unfolding catch_up
  catch_up-log rf term = ground arith

  decide_vote_total :
      (rf : Raft C) (args : RequestVoteArgs) (now : ℕ)
      → IsValid rf.log
      → (rf' : Raft C) × (reply : RequestVoteReply) × (decide_vote gob rf args now
          ≡ some (rf', reply))
        × (rf'.log ≡ rf.log)
  unfolding decide_vote persist
  decide_vote_total rf args now v =
      let (t, last) = last_term_total rf.log v in
      elim (Bool-cases (may_vote rf.voted_for args.candidate_id)) [
        | inr taken ↦ (persist gob rf, refused rf, rw taken refl, refl)
        | inl free ↦ elim (Bool-cases (up_to_date args t (last_index rf.log))) [
          | inr behind ↦ (persist gob rf, refused rf, rw (free, last, behind) refl, refl)
          | inl current ↦ (
            persist gob (record rf { voted_for = some args.candidate_id; last_reset = now }),
            record { term = rf.current_term; vote_granted = true },
            rw (free, last, current) refl,
            refl,
          )
        ]
      ]

  pub request_vote_total :
      (rf : Raft C) (args : RequestVoteArgs) (now : ℕ)
      → IsValid rf.log
      → (rf' : Raft C) × (reply : RequestVoteReply) × (request_vote gob rf args now
          ≡ some (rf', reply))
        × IsValid rf'.log
  unfolding request_vote
  request_vote_total rf args now v = elim (Bool-cases (ltb args.term rf.current_term)) [
    | inl old ↦ (rf, refused rf, rw old refl, v)
    | inr current ↦
        let log_is = catch_up-log rf args.term in
        let (rf', reply, done, same) =
          decide_vote_total (catch_up gob rf args.term) args now (subst IsValid (sym log_is) v) in
        (rf', reply, rw current done, subst IsValid (sym (same ∙ log_is)) v)
  ]

  -- A mismatch that is not reported, at index 0, is stored from there.
  store_first :
      (l : RaftLog C) (prev : ℕ) (theirs : List (LogEntry C))
      → IsValid l
      → l.snap_index ≤ prev
      → prev < len l
      → (r : RaftLog C × Bool) × (store_entries l prev theirs 0 ≡ some r)
        × IsValid r.0
        × (r.0.snap_index ≡ l.snap_index)
  unfolding store_entries append
  store_first l prev theirs v low high = elim (Bool-cases (ltb 0 (length theirs))) [
    | inr none_left ↦ ((l, false), rw none_left refl, v, refl)
    | inl some_left ↦
        let (cut, done, size, keeps) =
          truncate_to_lem l (prev + 1 + 0) v (omega arith) (omega arith) in
        (
          (append cut theirs, true),
          rw (some_left, done) refl,
          append-IsValid cut theirs keeps.valid,
          keeps.same_index,
        )
  ]

  -- A current request at an index that the log holds with another term.
  append_mismatch_total :
      (rf : Raft C) (args : AppendEntriesArgs C) (now : ℕ) (c : AppendConflict)
      → IsValid rf.log
      → rf.current_term ≤ args.term
      → rf.log.snap_index ≤ args.prev_log_index
      → args.prev_log_index < len rf.log
      → check_append rf.log args.prev_log_index args.prev_log_term args.entries ≡ some (0, c)
      → (rf' : Raft C) × (reply : AppendEntriesReply) × (append_entries gob rf args now
          ≡ some (rf', reply))
        × IsValid rf'.log
  unfolding answer_append
  append_mismatch_total rf args now c v current low high verdict =
      elim (Bool-cases (is_conflict c)) [
        | inl found ↦
            let (rf', done, log_is, _, _) =
              append_entries_refused gob rf args now 0 c current verdict found in
            (rf', conflict_reply args.term c, done, subst IsValid (sym log_is) v)
        | inr missed ↦
            let s = following gob rf args.term now in
            let (log_is, _, _) = following_lem gob rf args.term now current in
            let (r, done, valid, index_is) =
              store_first rf.log args.prev_log_index args.entries v low high in
            let done' =
              subst (λ (l : RaftLog C). store_entries l args.prev_log_index args.entries 0 ≡ some r)
                (sym log_is) done in
            let (new_log, _) =
              stored_state_fields gob s args r
                (index_is ∙ ap (λ (l : RaftLog C). l.snap_index) (sym log_is)) in
            (
              stored_state gob s args r,
              success_reply s.current_term,
              append_entries_answer gob rf args now current verdict
                  ∙ rw missed (accept_entries_state gob s args 0 r done'),
              subst IsValid (sym new_log) valid,
            )
      ]

  abbrev pub Answered : Raft C → AppendEntriesArgs C → ℕ → Type 0
  Answered rf args now =
      (rf' : Raft C) × (reply : AppendEntriesReply) × (append_entries gob rf args now
        ≡ some (rf', reply))
      × IsValid rf'.log

  append_absent_total :
      (rf : Raft C) (args : AppendEntriesArgs C) (now : ℕ)
      → IsValid rf.log
      → rf.current_term ≤ args.term
      → (args.prev_log_index < rf.log.snap_index) ⊎ (len rf.log ≤ args.prev_log_index)
      → Answered rf args now
  unfolding is_conflict
  append_absent_total rf args now v current out =
      let c : AppendConflict = record { x_len = len rf.log; x_term = 0; x_index = 0 } in
      let (rf', done, log_is, _, _) =
        append_entries_refused gob rf args now 0 c current
          (check_append_absent rf.log args.prev_log_index args.prev_log_term args.entries out)
          (ground (arith, snap-lt-len rf.log v)) in
      (rf', conflict_reply args.term c, done, subst IsValid (sym log_is) v)

  append_present_total :
      (rf : Raft C) (args : AppendEntriesArgs C) (now : ℕ)
      → IsValid rf.log
      → rf.current_term ≤ args.term
      → rf.log.snap_index ≤ args.prev_log_index
      → args.prev_log_index < len rf.log
      → Answered rf args now
  append_present_total rf args now v current low high =
      let (e, found) = entry_total rf.log args.prev_log_index low high in
      elim (Bool-cases (e.term == args.prev_log_term)) [
        | inl same ↦
            let here = ap term_of found ∙ ap some (==→eq e.term args.prev_log_term same) in
            let (rf', reply, done, acc) =
              append_entries-Accepted gob rf args now v current low high here in
            (rf', reply, done, acc.stored.valid)
        | inr other ↦
            let (x, verdict, _) =
              check_append_mismatch rf.log args.prev_log_index args.prev_log_term e.term
                args.entries low high (ap term_of found) (==→ne e.term args.prev_log_term other) in
            append_mismatch_total rf args now (record { x_len = 0; x_term = e.term; x_index = x }) v
              current low high verdict
      ]

  pub append_entries_total :
      (rf : Raft C) (args : AppendEntriesArgs C) (now : ℕ) → IsValid rf.log → Answered rf args now
  append_entries_total rf args now v = elim (Bool-cases (ltb args.term rf.current_term)) [
    | inl old ↦
        let t = rf.current_term in
        let reply : AppendEntriesReply = record {
          term = t;
          success = false;
          x_term = 0;
          x_index = 0;
          x_len = 0;
        } in
        (rf, reply, append_entries_stale gob rf args now (ltb→lt args.term t old), v)
    | inr new ↦
        let current = ltb→le args.term rf.current_term new in
        elim (Bool-cases (ltb args.prev_log_index rf.log.snap_index)) [
          | inl below ↦
              append_absent_total rf args now v current
                (inl (ltb→lt args.prev_log_index rf.log.snap_index below))
          | inr low ↦ elim (Bool-cases (leb (len rf.log) args.prev_log_index)) [
            | inl past ↦
                append_absent_total rf args now v current
                  (inr (leb→le (len rf.log) args.prev_log_index past))
            | inr high ↦
                append_present_total rf args now v current
                  (ltb→le args.prev_log_index rf.log.snap_index low)
                  (leb→lt (len rf.log) args.prev_log_index high)
          ]
        ]
  ]

  pub install_snapshot_total :
      (rf : Raft C) (args : InstallSnapshotArgs) (now : ℕ)
      → IsValid rf.log
      → (rf' : Raft C) × (reply : InstallSnapshotReply) × (msgs : List (ApplyMsg C))
        × (handle_install_snapshot gob rf args now ≡ some (rf', reply, msgs))
        × IsValid rf'.log
  install_snapshot_total rf args now v = elim (Bool-cases (ltb args.term rf.current_term)) [
    | inl old ↦ (
      rf,
      record { term = rf.current_term },
      [],
      unfold handle_install_snapshot in rw old refl,
      v,
    )
    | inr new ↦
        let current = ltb→le args.term rf.current_term new in
        elim (Bool-cases (ltb rf.log.snap_index args.last_included_index)) [
          | inl newer ↦
              let (rf', reply, msgs, done, installs, _, _) =
                install_snapshot_newer gob rf args now current
                  (ltb→lt rf.log.snap_index args.last_included_index newer) in
              (rf', reply, msgs, done, installs.valid)
          | inr stale ↦
              let (rf', reply, done, log_is, _, _) =
                install_snapshot_stale gob rf args now current
                  (ltb→le rf.log.snap_index args.last_included_index stale) in
              (rf', reply, [], done, subst IsValid (sym log_is) v)
        ]
  ]
