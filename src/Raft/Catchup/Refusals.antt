-- ===== src/Raft/Catchup/Refusals.antt =====
-- The tick in which the follower refuses.
use distributed_systems_mit.Base.{
  ℕ, ◌-◌, ◌≤◌, ◌<◌, ◌≡◌, ◌≢◌, refl, sym, ap, ◌∙◌, ◌⊎◌, Bool-cases, inl, inr, some, set, ltb, ◌==◌,
  ==→eq, ==→ne, arith, get_elem?-set_self, get_elem?_bound, ltb→lt, ltb→le, eq_of_some, subst,
}
use distributed_systems_mit.Raft.Log.{RaftLog, len, entry}
use distributed_systems_mit.Raft.Log.Bounds.{IsValid, term_of, entry_total, entry_past, entry_snap}
use distributed_systems_mit.Raft.Rpc.{AppendEntriesArgs}
use distributed_systems_mit.Raft.Conflict.Resume.{IsSorted, Resumes, backoff-Resumes}
use distributed_systems_mit.Raft.Conflict.Backoff.{conflict_reply}
use distributed_systems_mit.Raft.Server.{Gob, Raft}
use distributed_systems_mit.Raft.Handlers.Accept.{append_entries_refused}
use distributed_systems_mit.Raft.Replication.Requests.{Follows, append_request-Follows}
use distributed_systems_mit.Raft.Catchup.{replicate_once}
use distributed_systems_mit.Raft.Catchup.Rounds.{refusal-is_conflict, append_reply_refused}
use distributed_systems_mit.Raft.Catchup.Ticks.{replicate_append}
use distributed_systems_mit.Raft.Catchup.Accepts.{Apart}

module _ {C : Type 0} where
  -- What the follower needs besides: logs along which terms do not fall, and a snapshot that is not
  -- past the leader's next index, unless the leader's own covers it.
  pub record Sound (ld fl : Raft C) (p next : ℕ) : Type 0 where
    pub apart : Apart ld fl p next
    pub sorted : IsSorted ld.log
    pub fl_sorted : IsSorted fl.log
    pub ahead : ld.log.snap_index < fl.log.snap_index → fl.log.snap_index < next

module _ {C : Type 0} (gob : Gob C) where
  -- The two logs agree at the follower's snapshot, so they are not refused there.
  snap_not_prev :
      (ld fl : Raft C) (p next : ℕ) (args : AppendEntriesArgs C)
      → Sound ld fl p next
      → Follows ld next args
      → ld.log.snap_index < next
      → term_of (entry fl.log args.prev_log_index) ≢ some args.prev_log_term
      → fl.log.snap_index ≢ args.prev_log_index
  snap_not_prev ld fl p next args s w above theirs q =
      let shared = s.apart.shared (omega (arith, w.prev_is)) in
      theirs (
        ap (λ j. term_of (entry fl.log j)) (sym q)
        ∙ ap term_of (entry_snap fl.log s.apart.fl_valid)
        ∙ sym shared
        ∙ ap (λ j. term_of (entry ld.log j)) q
        ∙ sym w.prev_term_is)

  abbrev pub Refusal : Raft C → Raft C → ℕ → ℕ → ℕ → Type 0
  Refusal ld fl p next now =
      (ld' : Raft C) × (fl' : Raft C) × (next' : ℕ) × (replicate_once gob ld fl p now
        ≡ some (ld', fl'))
      × (ld'.log ≡ ld.log)
      × (next' < next)
      × Sound ld' fl' p next'

  Sound-refused :
      (ld fl fl' : Raft C) (p next next' prev : ℕ)
      → Sound ld fl p next
      → Resumes fl.log ld.log prev next'
      → fl'.log ≡ fl.log
      → fl'.current_term ≤ ld.current_term
      → fl.log.snap_index ≤ prev
      → next' ≤ len ld.log
      → Sound (record ld { next_index = set ld.next_index p next' }) fl' p next'
  Sound-refused ld fl fl' p next next' prev s res log_is current low within =
      let a = s.apart in
      let shared = a.shared in
      let ahead : ld.log.snap_index < fl.log.snap_index → fl.log.snap_index < next' = λ h.
        elim (Bool-cases (ltb fl.log.snap_index next')) [
          | inl below ↦ ltb→lt fl.log.snap_index next' below
          | inr at ↦ absurd (
              res.skips fl.log.snap_index (ltb→le fl.log.snap_index next' at) low h
                (ap term_of (entry_snap fl.log a.fl_valid) ∙ sym (shared (omega arith))))
        ] in
      record {
        apart = record {
          leads = a.leads;
          current = current;
          valid = a.valid;
          fl_valid = subst IsValid (sym log_is) a.fl_valid;
          next_is =
              get_elem?-set_self ld.next_index p next' (get_elem?_bound ld.next_index p a.next_is);
          match_is = a.match_is;
          within = within;
          shared =
              subst
                (λ (l : RaftLog C).
                  ld.log.snap_index ≤ l.snap_index
                  → term_of (entry ld.log l.snap_index) ≡ some l.snap_term)
                (sym log_is) shared;
        };
        sorted = s.sorted;
        fl_sorted = subst IsSorted (sym log_is) s.fl_sorted;
        ahead =
            subst (λ (l : RaftLog C). ld.log.snap_index < l.snap_index → l.snap_index < next')
              (sym log_is) ahead;
      }

  -- A refusal leaves the logs, and moves the next index down but not to the follower's snapshot.
  pub refused :
      (ld fl : Raft C) (p next now : ℕ)
      → Sound ld fl p next
      → ld.log.snap_index < next
      → fl.log.snap_index < next
      → term_of (entry fl.log (next - 1)) ≢ term_of (entry ld.log (next - 1))
      → Refusal ld fl p next now
  refused ld fl p next now s above low ne =
      let a = s.apart in
      let (args, built, w) = append_request-Follows ld p next a.next_is above a.within in
      let prev : next - 1 ≡ args.prev_log_index = omega (arith, w.prev_is) in
      let ours : term_of (entry ld.log args.prev_log_index) ≡ some args.prev_log_term =
        sym w.prev_term_is in
      let theirs : term_of (entry fl.log args.prev_log_index) ≢ some args.prev_log_term = λ q. ne (
        ap (λ j. term_of (entry fl.log j)) prev
        ∙ q
        ∙ w.prev_term_is
        ∙ ap (λ j. term_of (entry ld.log j)) (sym prev)) in
      let (c, next', verdict, back, res) =
        backoff-Resumes fl.log ld.log args.prev_log_index args.prev_log_term ld.current_term
          args.entries a.fl_valid s.fl_sorted s.sorted (omega (arith, w.prev_is))
          (omega (arith, w.prev_is, a.within)) ours theirs in
      let apart_from_snap = snap_not_prev ld fl p next args s w above theirs in
      let (fl', sent, log_is, _, term) =
        append_entries_refused gob fl args now 0 c (omega (arith, a.current, w.term_is)) verdict (
          refusal-is_conflict fl.log args.prev_log_index args.prev_log_term args.entries c
            a.fl_valid (omega (arith, w.prev_is)) (omega (arith, w.prev_is, apart_from_snap)) theirs
            verdict) in
      let sent' = sent ∙ ap (λ t. some (fl', conflict_reply t c)) w.term_is in
      let ld' = record ld { next_index = set ld.next_index p next' } in
      let heard = append_reply_refused gob ld p next next' args c a.leads a.next_is back in
      (
        ld',
        fl',
        next',
        replicate_append gob ld fl ld' fl' p now next args (conflict_reply ld.current_term c)
            a.leads a.next_is above built sent' heard,
        refl,
        omega (arith, res.progress, w.prev_is, apart_from_snap),
        Sound-refused ld fl fl' p next next' args.prev_log_index s res log_is
            (omega (arith, term, w.term_is)) (omega (arith, w.prev_is))
            (omega (arith, w.prev_is, a.within, res.progress, apart_from_snap)),
      )

  pub agree_or_not :
      (ld fl : Raft C) (p next : ℕ)
      → Sound ld fl p next
      → ld.log.snap_index < next
      → fl.log.snap_index < next
      → ((next ≤ len fl.log)
          × (term_of (entry fl.log (next - 1)) ≡ term_of (entry ld.log (next - 1))))
        ⊎ (term_of (entry fl.log (next - 1)) ≢ term_of (entry ld.log (next - 1)))
  agree_or_not ld fl p next s above low =
      let (e, ours) = entry_total ld.log (next - 1) (omega arith) (omega (arith, s.apart.within)) in
      elim (Bool-cases (ltb (len fl.log) next)) [
        | inl past ↦ inr (
            rw (ours, entry_past fl.log (next - 1) (omega (arith, ltb→lt (len fl.log) next past)))
              (λ h. cc))
        | inr within ↦
            let high = ltb→le (len fl.log) next within in
            let (f, theirs) = entry_total fl.log (next - 1) (omega arith) (omega arith) in
            elim (Bool-cases (f.term == e.term)) [
              | inl same ↦ inl (high, rw (ours, theirs) (ap some (==→eq f.term e.term same)))
              | inr other ↦ inr (rw (ours, theirs) (λ h. ==→ne f.term e.term other (eq_of_some h)))
            ]
      ]
