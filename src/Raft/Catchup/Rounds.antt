-- ===== src/Raft/Catchup/Rounds.antt =====
-- One exchange between a leader and a follower: a refusal, an acceptance, a snapshot.
use distributed_systems_mit.Base.{
  ℕ, ◌+◌, ◌≤◌, ◌<◌, ◌≡◌, ◌≢◌, refl, sym, ap, ◌∙◌, Bool-cases, inl, inr, true, Option, none, some,
  List, [], ◌∷◌, max, length, get_elem?, set, ltb, leb, arith, get_elem?-set_self, get_elem?_bound,
  lt→leb, le→leb, ltb→lt, ltb→le, leb→le, leb→lt, eq_of_some, le→ltb, eq→==,
}
use distributed_systems_mit.Raft.Log.{LogEntry, RaftLog, len, last_index, entry}
use distributed_systems_mit.Raft.Log.Bounds.{
  IsValid, term_of, entry_total, snap-lt-len, last_index_lem,
}
use distributed_systems_mit.Raft.Log.Snapshot.{Installs, install_snapshot_lem}
use distributed_systems_mit.Raft.Rpc.{
  AppendEntriesArgs, AppendEntriesReply, InstallSnapshotArgs, InstallSnapshotReply,
}
use distributed_systems_mit.Raft.Conflict.{
  AppendConflict, is_conflict, check_append, backoff_next_index,
}
use distributed_systems_mit.Raft.Conflict.Check.{check_append_absent, check_append_mismatch}
use distributed_systems_mit.Raft.Conflict.Backoff.{conflict_reply}
use distributed_systems_mit.Raft.Server.{leader, Gob, Raft, encode_raft_state}
use distributed_systems_mit.Persister.{save}
use distributed_systems_mit.Raft.Handlers.{ApplyMsg, snapshot_msg, handle_install_snapshot}
use distributed_systems_mit.Raft.Handlers.Append.{following, following_lem}
use distributed_systems_mit.Raft.Election.{same_role}
use distributed_systems_mit.Raft.Replication.{committed, append_reply, snapshot_reply}
use distributed_systems_mit.Raft.Replication.Majority.{update_commit_index-Greatest}
use distributed_systems_mit.Raft.Replication.Requests.{Follows}

module _ {C : Type 0} where
  -- A refusal at an index above 0 reports a conflict.
  pub refusal-is_conflict :
      (f : RaftLog C) (prev prev_term : ℕ) (entries : List (LogEntry C)) (c : AppendConflict)
      → IsValid f
      → f.snap_index ≤ prev
      → 0 < prev
      → term_of (entry f prev) ≢ some prev_term
      → check_append f prev prev_term entries ≡ some (0, c)
      → is_conflict c ≡ true
  unfolding is_conflict
  refusal-is_conflict f prev prev_term entries c v low pos ne h =
      elim (Bool-cases (leb (len f) prev)) [
        | inl past ↦
            let e : record { x_len = len f; x_term = 0; x_index = 0 } ≡ c =
              ap (λ r. r.1)
                (eq_of_some (
                  sym
                    (check_append_absent f prev prev_term entries (inr (leb→le (len f) prev past)))
                  ∙ h)) in
            ground (arith, snap-lt-len f v, ap (λ (c : AppendConflict). c.x_len) e)
        | inr within ↦
            let high = leb→lt (len f) prev within in
            let (e, found) = entry_total f prev low high in
            let (x, done, run) =
              check_append_mismatch f prev prev_term e.term entries low high (ap term_of found)
                (λ q. ne (ap term_of found ∙ ap some q)) in
            let q : record { x_len = 0; x_term = e.term; x_index = x } ≡ c =
              ap (λ r. r.1) (eq_of_some (sym done ∙ h)) in
            ground (arith, run.above, ap (λ (c : AppendConflict). c.x_index) q)
      ]

  -- A request that follows the log reaches its end.
  pub Follows-reaches :
      (rf : Raft C) (next : ℕ) (args : AppendEntriesArgs C)
      → IsValid rf.log
      → rf.log.snap_index < next
      → Follows rf next args
      → last_index rf.log ≤ args.prev_log_index + length args.entries
  Follows-reaches rf next args v low f =
      elim (Bool-cases (ltb (next + length args.entries) (len rf.log))) [
        | inr reached ↦ omega (
          arith,
          last_index_lem rf.log v,
          f.prev_is,
          ltb→le (next + length args.entries) (len rf.log) reached,
        )
        | inl short ↦
            let (e, found) =
              entry_total rf.log (next + length args.entries) (omega arith)
                (ltb→lt (next + length args.entries) (len rf.log) short) in
            absurd (
              omega (
                arith,
                get_elem?_bound args.entries (length args.entries)
                    (f.entries_are (length args.entries) ∙ found),
              ))
      ]

module _ {C : Type 0} (gob : Gob C) where
  -- The leader moves its next index on a refusal.
  pub append_reply_refused :
      (ld : Raft C) (p old next : ℕ) (args : AppendEntriesArgs C) (c : AppendConflict)
      → ld.role ≡ leader
      → get_elem? ld.next_index p ≡ some old
      → backoff_next_index args.prev_log_index ld.log (conflict_reply ld.current_term c) ≡ some next
      → append_reply gob ld p ld.current_term args (conflict_reply ld.current_term c)
        ≡ some (record ld { next_index = set ld.next_index p next })
  unfolding append_reply
  append_reply_refused ld p old next args c leads here done =
      rw
        (
          ap (λ r. same_role r leader) leads,
          eq→== ld.current_term ld.current_term refl,
          le→ltb ld.current_term ld.current_term (omega arith),
          here,
          done,
        )
        refl

  -- A success up to the end of the leader's log brings the match there.
  pub append_reply_accepted :
      (ld : Raft C) (p m : ℕ) (args : AppendEntriesArgs C) (reply : AppendEntriesReply)
      → IsValid ld.log
      → ld.role ≡ leader
      → get_elem? ld.match_index p ≡ some m
      → reply.success ≡ true
      → reply.term ≡ ld.current_term
      → last_index ld.log ≤ args.prev_log_index + length args.entries
      → (ld' : Raft C) × (m' : ℕ) × (append_reply gob ld p ld.current_term args reply ≡ some ld')
        × (ld'.log ≡ ld.log)
        × (get_elem? ld'.match_index p ≡ some m')
        × (last_index ld.log ≤ m')
  unfolding append_reply
  append_reply_accepted ld p m args reply v leads here ok same reaches =
      elim (Bool-cases (ltb m (args.prev_log_index + length args.entries))) [
        | inr known ↦ (
          ld,
          m,
          rw
              (
                ap (λ r. same_role r leader) leads,
                eq→== ld.current_term ld.current_term refl,
                same,
                le→ltb ld.current_term ld.current_term (omega arith),
                ok,
                here,
                known,
              )
              refl,
          refl,
          here,
          omega (arith, ltb→le m (args.prev_log_index + length args.entries) known),
        )
        | inl newer ↦
            let n = args.prev_log_index + length args.entries in
            let s = record ld {
              match_index = set ld.match_index p n;
              next_index = set ld.next_index p (n + 1);
            } in
            let (found, done, greatest) = update_commit_index-Greatest s v in
            let (log_is, match_is) = committed_same s found in
            (
              committed s found,
              n,
              rw
                  (
                    ap (λ r. same_role r leader) leads,
                    eq→== ld.current_term ld.current_term refl,
                    same,
                    le→ltb ld.current_term ld.current_term (omega arith),
                    ok,
                    here,
                    newer,
                  )
                  done,
              log_is,
              ap (λ (ms : List ℕ). get_elem? ms p) match_is
                  ∙ get_elem?-set_self ld.match_index p n (get_elem?_bound ld.match_index p here),
              reaches,
            )
      ]
    where
      committed_same :
          (s : Raft C) (found : Option ℕ)
          → ((committed s found).log ≡ s.log) × ((committed s found).match_index ≡ s.match_index)
      committed_same s none = (refl, refl)
      committed_same s (some n) = (refl, refl)

  pub snapshot_reply_lem :
      (ld : Raft C) (p next m : ℕ) (args : InstallSnapshotArgs) (reply : InstallSnapshotReply)
      → ld.role ≡ leader
      → get_elem? ld.next_index p ≡ some next
      → get_elem? ld.match_index p ≡ some m
      → reply.term ≡ ld.current_term
      → snapshot_reply gob ld p ld.current_term args reply
        ≡ some (record ld {
          next_index = set ld.next_index p (max next (args.last_included_index + 1));
          match_index = set ld.match_index p (max m args.last_included_index);
        })
  unfolding snapshot_reply
  snapshot_reply_lem ld p next m args reply leads at_next at_match same =
      rw
        (
          ap (λ r. same_role r leader) leads,
          eq→== ld.current_term ld.current_term refl,
          same,
          le→ltb ld.current_term ld.current_term (omega arith),
          at_next,
          at_match,
        )
        refl

  -- A snapshot that is not newer than the follower's own changes no log.
  pub install_snapshot_stale :
      (fl : Raft C) (args : InstallSnapshotArgs) (now : ℕ)
      → fl.current_term ≤ args.term
      → args.last_included_index ≤ fl.log.snap_index
      → (fl' : Raft C) × (reply : InstallSnapshotReply) × (handle_install_snapshot gob fl args now
          ≡ some (fl', reply, []))
        × (fl'.log ≡ fl.log)
        × (fl'.current_term ≡ args.term)
        × (reply.term ≡ args.term)
  unfolding handle_install_snapshot
  install_snapshot_stale fl args now current stale =
      let s = following gob fl args.term now in
      let (log_is, term_is, _) = following_lem gob fl args.term now current in
      (
        s,
        record { term = s.current_term },
        rw
            (
              le→ltb args.term fl.current_term current,
              log_is,
              le→leb args.last_included_index fl.log.snap_index stale,
            )
            refl,
        log_is,
        term_is,
        term_is,
      )

  -- A newer one is installed.
  pub install_snapshot_newer :
      (fl : Raft C) (args : InstallSnapshotArgs) (now : ℕ)
      → fl.current_term ≤ args.term
      → fl.log.snap_index < args.last_included_index
      → (fl' : Raft C) × (reply : InstallSnapshotReply) × (msgs : List (ApplyMsg C))
        × (handle_install_snapshot gob fl args now ≡ some (fl', reply, msgs))
        × Installs fl.log args.last_included_index args.last_included_term fl'.log
        × (fl'.current_term ≡ args.term)
        × (reply.term ≡ args.term)
  unfolding handle_install_snapshot
  install_snapshot_newer fl args now current newer =
      let s = following gob fl args.term now in
      let (log_is, term_is, _) = following_lem gob fl args.term now current in
      let (l, done, installs) =
        install_snapshot_lem fl.log args.last_included_index args.last_included_term
          (omega arith) in
      let s' = record s {
        log = l;
        commit_index = max s.commit_index args.last_included_index;
        last_applied = max s.last_applied args.last_included_index;
      } in
      (
        record s' {
          persister = save s'.persister (encode_raft_state gob s') args.snapshot;
          commit = s'.commit + 1;
        },
        record { term = s.current_term },
        snapshot_msg args.snapshot args.last_included_term args.last_included_index ∷ [],
        rw
            (
              le→ltb args.term fl.current_term current,
              log_is,
              lt→leb args.last_included_index fl.log.snap_index newer,
              done,
            )
            refl,
        installs,
        term_is,
        term_is,
      )
