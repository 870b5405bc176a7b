-- ===== src/Raft/Handlers/Accept.antt =====
-- The two verdicts of `AppendEntries`, and the commit index after it (src/raft1/handlers.go).
use distributed_systems_mit.Base.{
  ℕ, ◌+◌, ◌≤◌, ◌<◌, ◌≡◌, refl, sym, ap, ◌∙◌, Bool, true, Option, some, length, max, min, ltb, arith,
  subst, if◌then◌else◌,
}
use distributed_systems_mit.Raft.Log.{RaftLog, len, entry}
use distributed_systems_mit.Raft.Log.Bounds.{IsValid, term_of}
use distributed_systems_mit.Raft.Rpc.{AppendEntriesArgs, AppendEntriesReply}
use distributed_systems_mit.Raft.Conflict.{AppendConflict, is_conflict, check_append}
use distributed_systems_mit.Raft.Conflict.Check.{check_append_match}
use distributed_systems_mit.Raft.Conflict.Backoff.{conflict_reply}
use distributed_systems_mit.Raft.Server.{Gob, Raft, persist}
use distributed_systems_mit.Raft.Handlers.{
  store_entries, advance_commit, accept_entries, answer_append, append_entries,
}
use distributed_systems_mit.Raft.Handlers.Append.{
  Stored, store_entries_lem, following, following_lem, append_entries_answer,
}

abbrev pub success_reply : ℕ → AppendEntriesReply
success_reply term = record { term = term; success = true; x_term = 0; x_index = 0; x_len = 0 }

module _ {C : Type 0} where
  -- The commit index that a request leaves.
  abbrev pub new_commit : Raft C → AppendEntriesArgs C → ℕ
  new_commit rf args =
      if ltb rf.commit_index args.leader_commit
      then max rf.log.snap_index
          (min args.leader_commit (args.prev_log_index + length args.entries))
      else rf.commit_index

  -- An accepted request: its entries are in the log from `prev` on.
  pub record Accepted (rf rf' : Raft C) (args : AppendEntriesArgs C) (reply : AppendEntriesReply)
      : Type 0 where
    pub success : reply.success ≡ true
    pub reply_term : reply.term ≡ args.term
    pub same_count : ℕ
    pub stored : Stored rf.log rf'.log args.prev_log_index args.entries same_count
    pub commit_is : rf'.commit_index ≡ new_commit rf args

  new_commit_cong :
      (s rf : Raft C) (args : AppendEntriesArgs C)
      → s.commit_index ≡ rf.commit_index
      → s.log ≡ rf.log
      → new_commit s args ≡ new_commit rf args
  new_commit_cong s rf args c l = ground arith

module _ {C : Type 0} (gob : Gob C) where
  -- The state after the entries are stored.
  pub stored_state : Raft C → AppendEntriesArgs C → RaftLog C × Bool → Raft C
  stored_state s args (l, changed) =
      let s' = advance_commit (record s { log = l }) args in if changed then persist gob s' else s'

  pub accept_entries_state :
      (s : Raft C) (args : AppendEntriesArgs C) (i : ℕ) (r : RaftLog C × Bool)
      → store_entries s.log args.prev_log_index args.entries i ≡ some r
      → accept_entries gob s args i ≡ some (stored_state s args r, success_reply s.current_term)
  unfolding accept_entries stored_state
  accept_entries_state s args i r h = rw h refl

  pub stored_state_fields :
      (s : Raft C) (args : AppendEntriesArgs C) (r : RaftLog C × Bool)
      → r.0.snap_index ≡ s.log.snap_index
      → ((stored_state s args r).log ≡ r.0)
        × ((stored_state s args r).commit_index ≡ new_commit s args)
  unfolding stored_state advance_commit persist
  stored_state_fields s args (l, changed) same = (ground arith, ground arith)

  -- A request of a term that is not behind, to a peer with a valid log, whose entry at `prev` the
  -- log holds at or above its snapshot, is accepted without a panic. The new log keeps all that
  -- lies up to the last entry that matched and holds the request's entries; it is unchanged if
  -- all of them were there. The reply has the request's term, and the commit index is the one
  -- that the code computes.
  pub append_entries-Accepted :
      (rf : Raft C) (args : AppendEntriesArgs C) (now : ℕ)
      → IsValid rf.log
      → rf.current_term ≤ args.term
      → rf.log.snap_index ≤ args.prev_log_index
      → args.prev_log_index < len rf.log
      → term_of (entry rf.log args.prev_log_index) ≡ some args.prev_log_term
      → (rf' : Raft C) × (reply : AppendEntriesReply) × (append_entries gob rf args now
          ≡ some (rf', reply))
        × Accepted rf rf' args reply
  unfolding answer_append is_conflict
  append_entries-Accepted rf args now v current low high here =
      let s : Raft C = following gob rf args.term now in
      let (log_is, term_is, commit_is) = following_lem gob rf args.term now current in
      let (n, verdict, matched) =
        check_append_match rf.log args.prev_log_index args.prev_log_term args.entries low high
          here in
      let (r, done, stored) =
        store_entries_lem rf.log args.prev_log_index n args.entries v low high matched in
      let done' =
        subst (λ (l : RaftLog C). store_entries l args.prev_log_index args.entries n ≡ some r)
          (sym log_is) done in
      let (log_is', commit_is') =
        stored_state_fields s args r
          (stored.same_index ∙ ap (λ (l : RaftLog C). l.snap_index) (sym log_is)) in
      (
        stored_state s args r,
        success_reply s.current_term,
        append_entries_answer gob rf args now current verdict
            ∙ accept_entries_state s args n r done',
        record {
          success = refl;
          reply_term = term_is;
          same_count = n;
          stored =
              subst (λ l. Stored rf.log l args.prev_log_index args.entries n) (sym log_is') stored;
          commit_is = commit_is' ∙ new_commit_cong s rf args commit_is log_is;
        },
      )

  -- A request of a term that is not behind, in which `checkAppend` finds a conflict, changes
  -- neither the log nor the commit index, its reply has the request's term and carries the conflict,
  -- and the peer is then in the request's term.
  pub append_entries_refused :
      (rf : Raft C) (args : AppendEntriesArgs C) (now x : ℕ) (c : AppendConflict)
      → rf.current_term ≤ args.term
      → check_append rf.log args.prev_log_index args.prev_log_term args.entries ≡ some (x, c)
      → is_conflict c ≡ true
      → (rf' : Raft C) × (append_entries gob rf args now ≡ some (rf', conflict_reply args.term c))
        × (rf'.log ≡ rf.log)
        × (rf'.commit_index ≡ rf.commit_index)
        × (rf'.current_term ≡ args.term)
  unfolding answer_append
  append_entries_refused rf args now x c current verdict found =
      let (log_is, term_is, commit_is) = following_lem gob rf args.term now current in
      (
        following gob rf args.term now,
        append_entries_answer gob rf args now current verdict
            ∙ rw found (
                ap
                  (λ (t : ℕ).
                    let r : Option (Raft C × AppendEntriesReply) =
                      some (following gob rf args.term now, conflict_reply t c) in
                    r)
                  term_is),
        log_is,
        commit_is,
        term_is,
      )
