-- ===== src/Raft/Catchup/Converges.antt =====
-- Over a quiet network a follower whose snapshot is not past the leader's next index for it catches
-- up, after at most two ticks more than that index.
use distributed_systems_mit.Base.{
  ℕ, zero, suc, ◌+◌, ◌≤◌, ◌<◌, ◌≡◌, refl, sym, ap, ◌∙◌, ◌⊎◌, Bool-cases, inl, inr, some, List, [],
  max, ltb, leb, arith, ltb→lt, ltb→le, leb→le, leb→lt, eq_of_some, subst,
}
use distributed_systems_mit.Raft.Log.{RaftLog, entry}
use distributed_systems_mit.Raft.Log.Bounds.{IsValid, term_of, entry_snap}
use distributed_systems_mit.Raft.Rpc.{InstallSnapshotReply}
use distributed_systems_mit.Raft.Server.{Gob, Raft}
use distributed_systems_mit.Raft.Handlers.{ApplyMsg, handle_install_snapshot}
use distributed_systems_mit.Raft.Replication.{snapshot_request}
use distributed_systems_mit.Raft.Catchup.{replicate_once, replicate_for}
use distributed_systems_mit.Raft.Catchup.Rounds.{
  snapshot_reply_lem, install_snapshot_stale, install_snapshot_newer,
}
use distributed_systems_mit.Raft.Catchup.Ticks.{replicate_snapshot, replicate_more}
use distributed_systems_mit.Raft.Catchup.Accepts.{
  Apart, CaughtUp, Progress, accepts, moved, CaughtUp-moved, resumes_at_snapshot,
}
use distributed_systems_mit.Raft.Catchup.Refusals.{Sound, Refusal, refused, agree_or_not}

module _ {C : Type 0} (gob : Gob C) where
  -- A follower at the leader's snapshot after a snapshot request accepts on the next tick.
  after_install :
      (ld fl fl' : Raft C) (p next now : ℕ) (reply : InstallSnapshotReply)
      (msgs : List (ApplyMsg C))
      → Apart ld fl p next
      → next ≤ ld.log.snap_index
      → handle_install_snapshot gob fl (snapshot_request ld) now ≡ some (fl', reply, msgs)
      → IsValid fl'.log
      → fl'.log.snap_index ≡ ld.log.snap_index
      → fl'.log.snap_term ≡ ld.log.snap_term
      → fl'.current_term ≡ ld.current_term
      → reply.term ≡ ld.current_term
      → Progress gob ld fl p now 2 (ld.log.snap_index + 1)
  unfolding snapshot_request
  after_install ld fl fl' p next now reply msgs a below sent v index_is term_is current reply_term =
      let snap = ld.log.snap_index in
      let m = a.match_is.0 in
      let ld' = moved ld p (max next (snap + 1)) (max m snap) in
      let once =
        replicate_snapshot gob ld fl ld' fl' p now next reply msgs a.leads a.next_is below sent (
          snapshot_reply_lem gob ld p next m (snapshot_request ld) reply a.leads a.next_is
            a.match_is.1 reply_term) in
      let a' : Apart ld fl' p next = record {
        leads = a.leads;
        current = omega (arith, current);
        valid = a.valid;
        fl_valid = v;
        next_is = a.next_is;
        match_is = a.match_is;
        within = a.within;
        shared = λ h.
            ap (λ j. term_of (entry ld.log j)) index_is
            ∙ ap term_of (entry_snap ld.log a.valid)
            ∙ ap some (sym term_is);
      } in
      let (ld_end, fl_end, more, done) =
        resumes_at_snapshot gob ld fl' p next (now + 100) (max m snap) a' below index_is in
      (
        ld_end,
        fl_end,
        replicate_more gob ld fl ld' fl' p now 1 a.leads once ∙ more,
        CaughtUp-moved ld ld' ld_end fl_end p (snap + 1) (snap + 1) refl (omega arith) done,
      )

  -- A peer behind the snapshot is sent it.
  after_snapshot :
      (ld fl : Raft C) (p next now : ℕ)
      → Sound ld fl p next
      → next ≤ ld.log.snap_index
      → Progress gob ld fl p now 2 (ld.log.snap_index + 1)
  unfolding snapshot_request
  after_snapshot ld fl p next now s below =
      let a = s.apart in
      let shared = a.shared in
      elim (Bool-cases (ltb fl.log.snap_index ld.log.snap_index)) [
        | inl newer ↦
            let (fl', reply, msgs, sent, ins, term, reply_term) =
              install_snapshot_newer gob fl (snapshot_request ld) now a.current
                (ltb→lt fl.log.snap_index ld.log.snap_index newer) in
            after_install ld fl fl' p next now reply msgs a below sent ins.valid ins.index_is
              ins.term_is term reply_term
        | inr held ↦
            let low = ltb→le fl.log.snap_index ld.log.snap_index held in
            let (fl', reply, sent, log_is, term, reply_term) =
              install_snapshot_stale gob fl (snapshot_request ld) now a.current low in
            let same : fl.log.snap_index ≡ ld.log.snap_index = ground (arith, low, s.ahead) in
            let same_term : ld.log.snap_term ≡ fl.log.snap_term = eq_of_some (
              sym (ap term_of (entry_snap ld.log a.valid))
              ∙ ap (λ j. term_of (entry ld.log j)) (sym same)
              ∙ shared low) in
            after_install ld fl fl' p next now reply [] a below sent
              (subst IsValid (sym log_is) a.fl_valid)
              (ap (λ (l : RaftLog C). l.snap_index) log_is ∙ same)
              (ap (λ (l : RaftLog C). l.snap_term) log_is ∙ sym same_term) term reply_term
      ]

  widen :
      (ld fl : Raft C) (p now k low high : ℕ)
      → low ≤ high
      → Progress gob ld fl p now k low
      → Progress gob ld fl p now k high
  widen ld fl p now k low high le (ld', fl', run, c) =
      (ld', fl', run, CaughtUp-moved ld ld ld' fl' p low high refl le c)

  abbrev Within : Raft C → Raft C → ℕ → ℕ → ℕ → ℕ → Type 0
  Within ld fl p next now most =
      (k : ℕ) × (k ≤ most) × Progress gob ld fl p now k (max next (ld.log.snap_index + 1))

  -- The follower accepts now or on the next tick, or it refuses.
  first_tick :
      (ld fl : Raft C) (p next now : ℕ)
      → Sound ld fl p next
      → Within ld fl p next now 2 ⊎ Refusal gob ld fl p next now
  first_tick ld fl p next now s = elim (Bool-cases (leb next ld.log.snap_index)) [
    | inl below ↦ inl (
      2,
      omega arith,
      widen ld fl p now 2 (ld.log.snap_index + 1) (max next (ld.log.snap_index + 1)) (omega arith)
          (after_snapshot ld fl p next now s (leb→le next ld.log.snap_index below)),
    )
    | inr past ↦
        let above = leb→lt next ld.log.snap_index past in
        let low : fl.log.snap_index < next = ground (arith, s.ahead) in
        elim (agree_or_not gob ld fl p next s above low) [
          | inl (high, same) ↦ inl (
            1,
            omega arith,
            widen ld fl p now 1 next (max next (ld.log.snap_index + 1)) (omega arith)
                (accepts gob ld fl p next now s.apart above low high same),
          )
          | inr ne ↦ inr (refused gob ld fl p next now s above low ne)
        ]
  ]

  after_refusal :
      (ld fl ld' fl' : Raft C) (p next next' now most all : ℕ)
      → Sound ld fl p next
      → replicate_once gob ld fl p now ≡ some (ld', fl')
      → ld'.log ≡ ld.log
      → next' < next
      → Within ld' fl' p next' (now + 100) most
      → most < all
      → Within ld fl p next now all
  after_refusal ld fl ld' fl' p next next' now most all s once log_is less
        (k, few, (ld_end, fl_end, more, done)) lt =
      let index_is = ap (λ (l : RaftLog C). l.snap_index) log_is in
      (
        suc k,
        omega arith,
        (
          ld_end,
          fl_end,
          replicate_more gob ld fl ld' fl' p now k s.apart.leads once ∙ more,
          CaughtUp-moved ld ld' ld_end fl_end p (max next' (ld'.log.snap_index + 1))
              (max next (ld.log.snap_index + 1)) log_is (omega (arith, index_is)) done,
        ),
      )

  -- Induction on the next index, which each refusal lowers.
  catches_up_from :
      (d : ℕ) (ld fl : Raft C) (p next now : ℕ)
      → next ≤ d
      → Sound ld fl p next
      → Within ld fl p next now (d + 2)
  catches_up_from zero ld fl p next now le s = elim (first_tick ld fl p next now s) [
    | inl (k, few, done) ↦ (k, few, done)
    | inr (ld', fl', next', once, log_is, less, s') ↦ absurd (omega arith)
  ]
  catches_up_from (suc d) ld fl p next now le s = elim (first_tick ld fl p next now s) [
    | inl (k, few, done) ↦ (k, omega arith, done)
    | inr (ld', fl', next', once, log_is, less, s') ↦
        after_refusal ld fl ld' fl' p next next' now (d + 2) (suc d + 2) s once log_is less
          (catches_up_from d ld' fl' p next' (now + 100) (omega arith) s') (omega arith)
  ]

  -- A leader and a follower over a quiet network: both logs are valid and terms do not fall along
  -- them, the follower is not in a later term, the leader has a next index for it, not past its log,
  -- and a match index, and if the follower's snapshot is not older than the leader's, the leader's
  -- entry there has its term, and if it is newer, it lies below that next index. Then after at most two ticks more
  -- than the next index, computed without a panic, the leader's log is the same, its match index for
  -- the follower has reached the log's end, and from some index on, at most the larger of that next
  -- index less one and the leader's snapshot, the follower's entries have the leader's terms.
  pub catches_up :
      (ld fl : Raft C) (p next now : ℕ)
      → Sound ld fl p next
      → (k : ℕ) × (k ≤ next + 2)
        × (ld' : Raft C) × (fl' : Raft C) × (replicate_for gob k ld fl p now ≡ some (ld', fl'))
        × CaughtUp ld ld' fl' p (max next (ld.log.snap_index + 1))
  catches_up ld fl p next now s =
      let (k, few, (ld', fl', run, c)) = catches_up_from next ld fl p next now (omega arith) s in
      (k, few, ld', fl', run, c)
