-- ===== src/Raft/Catchup/Stuck.antt =====
-- A follower whose snapshot is past the leader's next index, and past the leader's snapshot: what
-- the leader's ticks do for it (sendToFollowers and backoffNextIndex, src/raft1/replication.go and
-- src/raft1/conflict.go).
use distributed_systems_mit.Base.{
  ℕ, zero, suc, ◌+◌, ◌≤◌, ◌<◌, ◌≡◌, refl, sym, ap, ◌∙◌, Bool-cases, inl, inr, some, List, [], max,
  get_elem?, set, leb, arith, get_elem?-set_self, get_elem?_bound, leb→le, leb→lt, subst, lt→ltb,
  lt→leb,
}
use distributed_systems_mit.Raft.Log.{RaftLog, len}
use distributed_systems_mit.Raft.Log.Bounds.{IsValid, snap-lt-len}
use distributed_systems_mit.Raft.Conflict.{AppendConflict, is_conflict, backoff_next_index}
use distributed_systems_mit.Raft.Conflict.Check.{check_append_absent}
use distributed_systems_mit.Raft.Conflict.Backoff.{conflict_reply}
use distributed_systems_mit.Raft.Server.{leader, Gob, Raft}
use distributed_systems_mit.Raft.Handlers.Accept.{append_entries_refused}
use distributed_systems_mit.Raft.Replication.{snapshot_request}
use distributed_systems_mit.Raft.Replication.Requests.{append_request-Follows}
use distributed_systems_mit.Raft.Catchup.{replicate_once, replicate_for}
use distributed_systems_mit.Raft.Catchup.Rounds.{
  append_reply_refused, snapshot_reply_lem, install_snapshot_stale,
}
use distributed_systems_mit.Raft.Catchup.Ticks.{
  replicate_append, replicate_snapshot, replicate_more,
}

module _ {C : Type 0} where
  -- The leader has matched the follower below its snapshot only, and sends from there.
  pub record Stuck (ld fl : Raft C) (p : ℕ) : Type 0 where
    pub leads : ld.role ≡ leader
    pub current : fl.current_term ≤ ld.current_term
    pub valid : IsValid ld.log
    pub fl_valid : IsValid fl.log
    pub next : ℕ
    pub next_is : get_elem? ld.next_index p ≡ some next
    pub within : next ≤ len ld.log
    pub behind : next ≤ fl.log.snap_index
    pub matched : ℕ
    pub match_is : get_elem? ld.match_index p ≡ some matched
    pub unmatched : matched < fl.log.snap_index
    pub older : ld.log.snap_index < fl.log.snap_index

  -- The answer to a refusal of an index below the follower's snapshot steps back by one.
  backoff_below :
      (l : RaftLog C) (prev term n : ℕ)
      → prev < n
      → backoff_next_index prev l
          (conflict_reply term (record { x_len = n; x_term = 0; x_index = 0 }))
        ≡ some (max 1 prev)
  unfolding backoff_next_index
  backoff_below l prev term n h = rw (lt→ltb 0 n (omega arith), lt→leb n prev h) refl

module _ {C : Type 0} (gob : Gob C) where
  abbrev Remains : Raft C → Raft C → ℕ → ℕ → Type 0
  Remains ld fl p now =
      (ld' : Raft C) × (fl' : Raft C) × (replicate_once gob ld fl p now ≡ some (ld', fl'))
      × (ld'.log ≡ ld.log)
      × (fl'.log ≡ fl.log)
      × Stuck ld' fl' p

  Stuck-moved :
      (ld fl fl' : Raft C) (p next m : ℕ) (ns ms : List ℕ)
      → Stuck ld fl p
      → get_elem? ns p ≡ some next
      → get_elem? ms p ≡ some m
      → fl'.log ≡ fl.log
      → fl'.current_term ≤ ld.current_term
      → next ≤ len ld.log
      → next ≤ fl.log.snap_index
      → m < fl.log.snap_index
      → Stuck (record ld { next_index = ns; match_index = ms }) fl' p
  Stuck-moved ld fl fl' p next m ns ms s next_is match_is log_is current within behind unmatched =
      let index_is = ap (λ (l : RaftLog C). l.snap_index) log_is in
      record {
        leads = s.leads;
        current = current;
        valid = s.valid;
        fl_valid = subst IsValid (sym log_is) s.fl_valid;
        next = next;
        next_is = next_is;
        within = within;
        behind = omega (arith, index_is);
        matched = m;
        match_is = match_is;
        unmatched = omega (arith, index_is);
        older = omega (arith, index_is, s.older);
      }

  stays_on_append :
      (ld fl : Raft C) (p now : ℕ)
      → (s : Stuck ld fl p) → ld.log.snap_index < s.next
      → Remains ld fl p now
  unfolding is_conflict
  stays_on_append ld fl p now s above =
      let (args, built, w) = append_request-Follows ld p s.next s.next_is above s.within in
      let prev = args.prev_log_index in
      let c : AppendConflict = record { x_len = len fl.log; x_term = 0; x_index = 0 } in
      let low : prev < fl.log.snap_index = omega (arith, w.prev_is, s.behind) in
      let past : prev < len fl.log = omega (arith, snap-lt-len fl.log s.fl_valid) in
      let (fl', sent, log_is, _, term) =
        append_entries_refused gob fl args now 0 c (omega (arith, s.current, w.term_is))
          (check_append_absent fl.log prev args.prev_log_term args.entries (inl low))
          (ground arith) in
      let sent' = sent ∙ ap (λ t. some (fl', conflict_reply t c)) w.term_is in
      let next' = max 1 prev in
      let ns = set ld.next_index p next' in
      let heard =
        append_reply_refused gob ld p s.next next' args c s.leads s.next_is
          (backoff_below ld.log prev ld.current_term (len fl.log) past) in
      (
        record ld { next_index = ns },
        fl',
        replicate_append gob ld fl (record ld { next_index = ns }) fl' p now s.next args
            (conflict_reply ld.current_term c) s.leads s.next_is above built sent' heard,
        refl,
        log_is,
        Stuck-moved ld fl fl' p next' s.matched ns ld.match_index s
            (get_elem?-set_self ld.next_index p next' (get_elem?_bound ld.next_index p s.next_is))
            s.match_is log_is (omega (arith, term, w.term_is))
            (omega (arith, w.prev_is, s.within, s.behind, snap-lt-len ld.log s.valid)) (omega arith)
            s.unmatched,
      )

  stays_on_snapshot :
      (ld fl : Raft C) (p now : ℕ)
      → (s : Stuck ld fl p) → s.next ≤ ld.log.snap_index
      → Remains ld fl p now
  unfolding snapshot_request
  stays_on_snapshot ld fl p now s below =
      let snap = ld.log.snap_index in
      let (fl', reply, sent, log_is, term, reply_term) =
        install_snapshot_stale gob fl (snapshot_request ld) now s.current
          (omega (arith, s.older)) in
      let ns = set ld.next_index p (max s.next (snap + 1)) in
      let ms = set ld.match_index p (max s.matched snap) in
      let ld' = record ld { next_index = ns; match_index = ms } in
      (
        ld',
        fl',
        replicate_snapshot gob ld fl ld' fl' p now s.next reply [] s.leads s.next_is below sent (
            snapshot_reply_lem gob ld p s.next s.matched (snapshot_request ld) reply s.leads
              s.next_is s.match_is reply_term),
        refl,
        log_is,
        Stuck-moved ld fl fl' p (max s.next (snap + 1)) (max s.matched snap) ns ms s
            (get_elem?-set_self ld.next_index p (max s.next (snap + 1))
              (get_elem?_bound ld.next_index p s.next_is))
            (get_elem?-set_self ld.match_index p (max s.matched snap)
              (get_elem?_bound ld.match_index p s.match_is))
            log_is (omega (arith, term)) (omega (arith, snap-lt-len ld.log s.valid))
            (omega (arith, s.older)) (omega (arith, s.older, s.unmatched)),
      )

  stays_once : (ld fl : Raft C) (p now : ℕ) → Stuck ld fl p → Remains ld fl p now
  stays_once ld fl p now s = elim (Bool-cases (leb s.next ld.log.snap_index)) [
    | inl below ↦ stays_on_snapshot ld fl p now s (leb→le s.next ld.log.snap_index below)
    | inr past ↦ stays_on_append ld fl p now s (leb→lt s.next ld.log.snap_index past)
  ]

  -- A leader with a valid log, and a follower with one that is not in a later term: if the leader's
  -- next index for the follower is not past the follower's snapshot, the leader's own
  -- snapshot is older, and its match index is below the follower's snapshot, then over a quiet network, after any number of ticks, computed without a panic, all of this is still so and
  -- both logs are the same.
  pub never_catches_up :
      (k : ℕ) (ld fl : Raft C) (p now : ℕ)
      → Stuck ld fl p
      → (ld' : Raft C) × (fl' : Raft C) × (replicate_for gob k ld fl p now ≡ some (ld', fl'))
        × (ld'.log ≡ ld.log)
        × (fl'.log ≡ fl.log)
        × Stuck ld' fl' p
  unfolding replicate_for
  never_catches_up zero ld fl p now s = (ld, fl, refl, refl, refl, s)
  never_catches_up (suc k) ld fl p now s =
      let (ld', fl', once, log_is, fl_log_is, s') = stays_once ld fl p now s in
      let (ld_end, fl_end, run, end_is, fl_end_is, s_end) =
        never_catches_up k ld' fl' p (now + 100) s' in
      (
        ld_end,
        fl_end,
        replicate_more gob ld fl ld' fl' p now k s.leads once ∙ run,
        end_is ∙ log_is,
        fl_end_is ∙ fl_log_is,
        s_end,
      )
