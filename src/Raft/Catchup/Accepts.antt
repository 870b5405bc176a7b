-- ===== src/Raft/Catchup/Accepts.antt =====
-- The tick in which the follower accepts, and what holds once it has.
use distributed_systems_mit.Base.{
  ℕ, ◌+◌, ◌-◌, ◌≤◌, ◌<◌, ◌≡◌, sym, ap, ◌∙◌, Bool-cases, inl, inr, some, max, length, get_elem?, set,
  ltb, leb, arith, get_elem?-set_self, get_elem?_bound, ltb→lt, ltb→le, leb→le, leb→lt,
}
use distributed_systems_mit.Raft.Log.{RaftLog, len, last_index, entry}
use distributed_systems_mit.Raft.Log.Bounds.{
  IsValid, term_of, entry_snap, snap-lt-len, last_index_lem,
}
use distributed_systems_mit.Raft.Rpc.{AppendEntriesArgs}
use distributed_systems_mit.Raft.Server.{leader, Gob, Raft}
use distributed_systems_mit.Raft.Handlers.Append.{Stored}
use distributed_systems_mit.Raft.Handlers.Accept.{append_entries-Accepted}
use distributed_systems_mit.Raft.Replication.Requests.{Follows, append_request-Follows}
use distributed_systems_mit.Raft.Catchup.{replicate_for}
use distributed_systems_mit.Raft.Catchup.Rounds.{Follows-reaches, append_reply_accepted}
use distributed_systems_mit.Raft.Catchup.Ticks.{replicate_append, replicate_more}

module _ {C : Type 0} where
  -- The leader's log and the follower's as the leader sees the follower.
  pub record Apart (ld fl : Raft C) (p next : ℕ) : Type 0 where
    pub leads : ld.role ≡ leader
    pub current : fl.current_term ≤ ld.current_term
    pub valid : IsValid ld.log
    pub fl_valid : IsValid fl.log
    pub next_is : get_elem? ld.next_index p ≡ some next
    pub match_is : (m : ℕ) × (get_elem? ld.match_index p ≡ some m)
    pub within : next ≤ len ld.log
    pub shared :
        ld.log.snap_index ≤ fl.log.snap_index
        → term_of (entry ld.log fl.log.snap_index) ≡ some fl.log.snap_term

  -- The follower has matched the leader's log to its end.
  pub record CaughtUp (ld ld' fl' : Raft C) (p bound : ℕ) : Type 0 where
    pub same_log : ld'.log ≡ ld.log
    pub matched : ℕ
    pub match_is : get_elem? ld'.match_index p ≡ some matched
    pub reaches : last_index ld.log ≤ matched
    pub base : ℕ
    pub base_low : base < bound
    pub base_in : base ≤ last_index ld.log
    pub agree :
        (i : ℕ)
        → base ≤ i
        → i ≤ last_index ld.log
        → term_of (entry fl'.log i) ≡ term_of (entry ld.log i)

  -- Storing a request that follows the leader's log leaves its terms.
  Stored-agree :
      (ld : Raft C) (f f' : RaftLog C) (next n : ℕ) (args : AppendEntriesArgs C)
      → Follows ld next args
      → term_of (entry f args.prev_log_index) ≡ some args.prev_log_term
      → last_index ld.log ≤ args.prev_log_index + length args.entries
      → Stored f f' args.prev_log_index args.entries n
      → (i : ℕ) → args.prev_log_index ≤ i
      → i ≤ last_index ld.log
      → term_of (entry f' i) ≡ term_of (entry ld.log i)
  Stored-agree ld f f' next n args w here reaches s i low high =
      elim (Bool-cases (leb i args.prev_log_index)) [
        | inl at_prev ↦
            let same : i ≡ args.prev_log_index =
              omega (arith, leb→le i args.prev_log_index at_prev) in
            ap term_of (s.prefix i (omega arith))
            ∙ ap (λ j. term_of (entry f j)) same
            ∙ here
            ∙ w.prev_term_is
            ∙ ap (λ j. term_of (entry ld.log j)) (sym same)
        | inr past ↦
            let above = leb→lt i args.prev_log_index past in
            let k = i - (args.prev_log_index + 1) in
            let split : i ≡ args.prev_log_index + 1 + k = omega arith in
            let at_next : next + k ≡ i = omega (arith, w.prev_is) in
            let ours : term_of (get_elem? args.entries k) ≡ term_of (entry ld.log i) =
              ap term_of (w.entries_are k ∙ ap (entry ld.log) at_next) in
            elim (Bool-cases (ltb k n)) [
              | inl known ↦
                  ap term_of (s.prefix i (omega (arith, ltb→lt k n known)))
                  ∙ ap (λ j. term_of (entry f j)) split
                  ∙ s.matched.agree k (ltb→lt k n known)
                  ∙ ours
              | inr new ↦
                  ap (λ j. term_of (entry f' j)) split
                  ∙ ap term_of (s.copied k (ltb→le k n new) (omega arith))
                  ∙ ours
            ]
      ]

  -- The leader after a reply that only moved its indices for the peer.
  abbrev pub moved : Raft C → ℕ → ℕ → ℕ → Raft C
  moved ld p next m = record ld {
    next_index = set ld.next_index p next;
    match_index = set ld.match_index p m;
  }

  pub CaughtUp-moved :
      (ld mid ld' fl' : Raft C) (p low high : ℕ)
      → mid.log ≡ ld.log
      → low ≤ high
      → CaughtUp mid ld' fl' p low
      → CaughtUp ld ld' fl' p high
  CaughtUp-moved ld mid ld' fl' p low high same le c =
      let last : last_index mid.log ≡ last_index ld.log = ap last_index same in
      record {
        same_log = c.same_log ∙ same;
        matched = c.matched;
        match_is = c.match_is;
        reaches = omega (arith, c.reaches, last);
        base = c.base;
        base_low = omega (arith, c.base_low);
        base_in = omega (arith, c.base_in, last);
        agree = λ i lo hi.
            c.agree i lo (omega (arith, last)) ∙ ap (λ (l : RaftLog C). term_of (entry l i)) same;
      }

module _ {C : Type 0} (gob : Gob C) where
  abbrev pub Progress : Raft C → Raft C → ℕ → ℕ → ℕ → ℕ → Type 0
  Progress ld fl p now k bound =
      (ld' : Raft C) × (fl' : Raft C) × (replicate_for gob k ld fl p now ≡ some (ld', fl'))
      × CaughtUp ld ld' fl' p bound

  -- A request at an index where the two logs agree is accepted.
  pub accepts :
      (ld fl : Raft C) (p next now : ℕ)
      → Apart ld fl p next
      → ld.log.snap_index < next
      → fl.log.snap_index < next
      → next ≤ len fl.log
      → term_of (entry fl.log (next - 1)) ≡ term_of (entry ld.log (next - 1))
      → Progress ld fl p now 1 next
  unfolding replicate_for
  accepts ld fl p next now a above low high same =
      let (args, built, w) = append_request-Follows ld p next a.next_is above a.within in
      let prev : next - 1 ≡ args.prev_log_index = omega (arith, w.prev_is) in
      let here : term_of (entry fl.log args.prev_log_index) ≡ some args.prev_log_term =
        ap (λ j. term_of (entry fl.log j)) (sym prev)
        ∙ same
        ∙ ap (λ j. term_of (entry ld.log j)) prev
        ∙ sym w.prev_term_is in
      let (fl', reply, sent, acc) =
        append_entries-Accepted gob fl args now a.fl_valid (omega (arith, a.current, w.term_is))
          (omega (arith, w.prev_is)) (omega (arith, w.prev_is)) here in
      let reaches = Follows-reaches ld next args a.valid above w in
      let (ld', m', heard, log_is, match_is, up) =
        append_reply_accepted gob ld p a.match_is.0 args reply a.valid a.leads a.match_is.1
          acc.success (acc.reply_term ∙ w.term_is) reaches in
      (
        ld',
        fl',
        replicate_more gob ld fl ld' fl' p now 0 a.leads (
            replicate_append gob ld fl ld' fl' p now next args reply a.leads a.next_is above built
              sent heard),
        record {
          same_log = log_is;
          matched = m';
          match_is = match_is;
          reaches = up;
          base = args.prev_log_index;
          base_low = omega (arith, w.prev_is);
          base_in = omega (arith, w.prev_is, a.within, last_index_lem ld.log a.valid);
          agree = Stored-agree ld fl.log fl'.log next acc.same_count args w here reaches acc.stored;
        },
      )

  -- The log of the snapshot's index is where a leader resumes after the snapshot.
  pub resumes_at_snapshot :
      (ld fl' : Raft C) (p next now m : ℕ)
      → Apart ld fl' p next
      → next ≤ ld.log.snap_index
      → fl'.log.snap_index ≡ ld.log.snap_index
      → Progress
          (moved ld p (max next (ld.log.snap_index + 1)) m)
          fl'
          p
          now
          1
          (ld.log.snap_index + 1)
  resumes_at_snapshot ld fl' p next now m a below same =
      let snap = ld.log.snap_index in
      let next' : max next (snap + 1) ≡ snap + 1 = omega arith in
      let ld' = moved ld p (max next (snap + 1)) m in
      let shared = a.shared (omega (arith, same)) in
      let at_snap : snap + 1 - 1 ≡ fl'.log.snap_index = omega (arith, same) in
      accepts ld' fl' p (snap + 1) now
        (record {
          leads = a.leads;
          current = a.current;
          valid = a.valid;
          fl_valid = a.fl_valid;
          next_is =
              get_elem?-set_self ld.next_index p (max next (snap + 1))
                (get_elem?_bound ld.next_index p a.next_is)
              ∙ ap some next';
          match_is = (
            m,
            get_elem?-set_self ld.match_index p m (get_elem?_bound ld.match_index p a.match_is.1),
          );
          within = omega (arith, snap-lt-len ld.log a.valid);
          shared = a.shared;
        })
        (omega arith) (omega (arith, same)) (omega (arith, same, snap-lt-len fl'.log a.fl_valid))
        (ap (λ j. term_of (entry fl'.log j)) at_snap
          ∙ ap term_of (entry_snap fl'.log a.fl_valid)
          ∙ sym shared
          ∙ ap (λ j. term_of (entry ld.log j)) (sym at_snap))
