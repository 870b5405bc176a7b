-- ===== src/Raft/Run/Replies.antt =====
-- A leader with an entry for each peer in its tables is not panicked by the replies of followers.
use distributed_systems_mit.Base.{
  ℕ, ◌+◌, ◌<◌, ◌≡◌, refl, Bool, Bool-cases, true, ◌&&◌, inl, inr, Option, none, some, length, max,
  set, ltb, ◌==◌, arith, get_elem?_total,
}
use distributed_systems_mit.Raft.Log.Bounds.{IsValid}
use distributed_systems_mit.Raft.Rpc.{
  AppendEntriesArgs, AppendEntriesReply, InstallSnapshotArgs, InstallSnapshotReply,
}
use distributed_systems_mit.Raft.Conflict.Backoff.{backoff_next_index_total}
use distributed_systems_mit.Raft.Server.{Role, follower, candidate, leader, Gob, Raft}
use distributed_systems_mit.Raft.Handlers.{become_follower}
use distributed_systems_mit.Raft.Election.{same_role, may_apply}
use distributed_systems_mit.Raft.Replication.{record_match, committed, append_reply, snapshot_reply}
use distributed_systems_mit.Raft.Replication.Majority.{update_commit_index-Greatest}

same_leader : (r : Role) (b : Bool) → (same_role r leader && b) ≡ true → r ≡ leader
same_leader leader b h = refl
same_leader follower b h = cc
same_leader candidate b h = cc

module _ {C : Type 0} where
  pub record HasTables (rf : Raft C) : Type 0 where
    pub next_length : length rf.next_index ≡ rf.peers
    pub match_length : length rf.match_index ≡ rf.peers

  applies : (rf : Raft C) (t : ℕ) → may_apply rf leader t ≡ true → rf.role ≡ leader
  unfolding may_apply
  applies rf t h = same_leader rf.role (rf.current_term == t) h

module _ {C : Type 0} (gob : Gob C) where
  record_match_total :
      (rf : Raft C) (p n : ℕ)
      → IsValid rf.log
      → p < length rf.match_index
      → (rf' : Raft C) × (record_match rf p n ≡ some rf') × (rf'.log ≡ rf.log)
  unfolding record_match
  record_match_total rf p n v here =
      let (m, found) = get_elem?_total rf.match_index p here in
      elim (Bool-cases (ltb m n)) [
        | inr known ↦ (rf, rw (found, known) refl, refl)
        | inl newer ↦
            let s = record rf {
              match_index = set rf.match_index p n;
              next_index = set rf.next_index p (n + 1);
            } in
            let (at, done, greatest) = update_commit_index-Greatest s v in
            (committed s at, rw (found, newer) done, same_log s at)
      ]
    where
      same_log : (s : Raft C) (at : Option ℕ) → (committed s at).log ≡ s.log
      same_log s none = refl
      same_log s (some n) = refl

  pub append_reply_total :
      (rf : Raft C) (p sent_term : ℕ) (args : AppendEntriesArgs C) (reply : AppendEntriesReply)
      → IsValid rf.log
      → (rf.role ≡ leader → HasTables rf)
      → p < rf.peers
      → (rf' : Raft C) × (append_reply gob rf p sent_term args reply ≡ some rf')
        × (rf'.log ≡ rf.log)
  unfolding append_reply may_apply become_follower
  append_reply_total rf p sent_term args reply v tables here =
      elim (Bool-cases (may_apply rf leader sent_term)) [
        | inr late ↦ (rf, rw late refl, refl)
        | inl mine ↦
            let t = tables (applies rf sent_term mine) in
            elim (Bool-cases (ltb rf.current_term reply.term)) [
              | inl higher ↦ (become_follower gob rf reply.term, rw (mine, higher) refl, refl)
              | inr same ↦ elim (Bool-cases reply.success) [
                | inl stored ↦
                    let n = args.prev_log_index + length args.entries in
                    let (rf', done, log_is) =
                      record_match_total rf p n v (omega (arith, t.match_length)) in
                    (rf', rw (mine, same, stored) done, log_is)
                | inr refused ↦
                    let (old, found) =
                      get_elem?_total rf.next_index p (omega (arith, t.next_length)) in
                    let (next, done, _) =
                      backoff_next_index_total args.prev_log_index rf.log reply v in
                    (
                      record rf { next_index = set rf.next_index p next },
                      rw (found, done, mine, same, refused) refl,
                      refl,
                    )
              ]
            ]
      ]

  pub snapshot_reply_total :
      (rf : Raft C) (p sent_term : ℕ) (args : InstallSnapshotArgs) (reply : InstallSnapshotReply)
      → (rf.role ≡ leader → HasTables rf)
      → p < rf.peers
      → (rf' : Raft C) × (snapshot_reply gob rf p sent_term args reply ≡ some rf')
        × (rf'.log ≡ rf.log)
  unfolding snapshot_reply may_apply become_follower
  snapshot_reply_total rf p sent_term args reply tables here =
      elim (Bool-cases (may_apply rf leader sent_term)) [
        | inr late ↦ (rf, rw late refl, refl)
        | inl mine ↦
            let t = tables (applies rf sent_term mine) in
            elim (Bool-cases (ltb rf.current_term reply.term)) [
              | inl higher ↦ (become_follower gob rf reply.term, rw (mine, higher) refl, refl)
              | inr same ↦
                  let (next, at_next) =
                    get_elem?_total rf.next_index p (omega (arith, t.next_length)) in
                  let (m, at_match) =
                    get_elem?_total rf.match_index p (omega (arith, t.match_length)) in
                  (
                    record rf {
                      next_index = set rf.next_index p (max next (args.last_included_index + 1));
                      match_index = set rf.match_index p (max m args.last_included_index);
                    },
                    rw (mine, same, at_next, at_match) refl,
                    refl,
                  )
            ]
      ]
