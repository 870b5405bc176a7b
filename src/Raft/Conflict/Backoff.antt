-- ===== src/Raft/Conflict/Backoff.antt =====
-- Where `backoffNextIndex` resumes: never past the refused index, and past no entry that matches.
use distributed_systems_mit.Base.{
  ℕ, zero, suc, ◌+◌, ◌≤◌, ◌<◌, ◌≡◌, refl, sym, ap, ◌∙◌, ◌⊎◌, ◌≢◌, Bool, false, Bool-cases, inl, inr,
  some, max, ltb, leb, ◌==◌, ◌&&◌, if◌then◌else◌, arith, ==→eq, ==→ne, leb→le, leb→lt, lt→leb,
  ltb→lt, ltb→le, lt→ltb, eq_of_some,
}
use distributed_systems_mit.Raft.Log.{RaftLog, len, last_index, entry}
use distributed_systems_mit.Raft.Log.Bounds.{IsValid, term_of, entry_total, last_index_lem}
use distributed_systems_mit.Raft.Rpc.{AppendEntriesReply}
use distributed_systems_mit.Raft.Conflict.{
  AppendConflict, last_below_term, resume_at, backoff_next_index,
}

abbrev pub by_length : ℕ → AppendEntriesReply → Bool
by_length prev reply = ltb 0 reply.x_len && leb reply.x_len prev

-- The reply that carries a conflict.
abbrev pub conflict_reply : ℕ → AppendConflict → AppendEntriesReply
conflict_reply term c = record {
  term = term;
  success = false;
  x_term = c.x_term;
  x_index = c.x_index;
  x_len = c.x_len;
}

module _ {C : Type 0} where
  -- The walk from `i` ends at `idx`: the entries passed have terms above `t`, and the walk stopped
  -- at the snapshot or at an entry whose term is not above `t`.
  pub record LastBelow (l : RaftLog C) (t i idx : ℕ) : Type 0 where
    pub before : idx ≤ i
    pub above : l.snap_index ≤ i → l.snap_index ≤ idx
    pub passed : (j : ℕ) → idx < j → j ≤ i → (u : ℕ) × (term_of (entry l j) ≡ some u) × (t < u)
    pub stopped : (idx ≤ l.snap_index) ⊎ ((u : ℕ) × (term_of (entry l idx) ≡ some u) × (u ≤ t))

  stay-LastBelow :
      (l : RaftLog C) (t i : ℕ)
      → (i ≤ l.snap_index) ⊎ ((u : ℕ) × (term_of (entry l i) ≡ some u) × (u ≤ t))
      → LastBelow l t i i
  stay-LastBelow l t i stopped = record {
    before = omega arith;
    above = λ h. h;
    passed = λ j low high. absurd (omega arith);
    stopped = stopped;
  }

  step-LastBelow :
      (l : RaftLog C) (t i idx u : ℕ)
      → l.snap_index < suc i
      → term_of (entry l (suc i)) ≡ some u
      → t < u
      → LastBelow l t i idx
      → LastBelow l t (suc i) idx
  step-LastBelow l t i idx u h here up b = record {
    before = omega (arith, b.before);
    above = λ _. b.above (omega arith);
    passed = λ j low high. elim (Bool-cases (leb j i)) [
      | inl inside ↦ b.passed j low (leb→le j i inside)
      | inr last ↦
          (u, ap (λ (k : ℕ). term_of (entry l k)) (omega (arith, leb→lt j i last)) ∙ here, up)
    ];
    stopped = b.stopped;
  }

  pub last_below_term_lem :
      (l : RaftLog C) (t i : ℕ)
      → i < len l
      → (idx : ℕ) × (last_below_term l t i ≡ some idx) × LastBelow l t i idx
  unfolding last_below_term
  last_below_term_lem l t zero high = (zero, refl, stay-LastBelow l t zero (inl (omega arith)))
  last_below_term_lem l t (suc i) high = elim (Bool-cases (ltb l.snap_index (suc i))) [
    | inr bottom ↦ (
      suc i,
      rw bottom refl,
      stay-LastBelow l t (suc i) (inl (ltb→le l.snap_index (suc i) bottom)),
    )
    | inl more ↦
        let low = ltb→lt l.snap_index (suc i) more in
        let (e, found) = entry_total l (suc i) (omega arith) high in
        elim (Bool-cases (ltb t e.term)) [
          | inl up ↦
              let (idx, done, b) = last_below_term_lem l t i (omega arith) in
              (
                idx,
                rw (more, found, up) done,
                step-LastBelow l t i idx e.term low (ap term_of found) (ltb→lt t e.term up) b,
              )
          | inr down ↦ (
            suc i,
            rw (more, found, down) refl,
            stay-LastBelow l t (suc i) (inr (e.term, ap term_of found, ltb→le t e.term down)),
          )
        ]
  ]

  -- The walk ends in one of two ways: at an entry of the follower's term, or without one.
  pub resume_at_lem :
      (l : RaftLog C) (idx t x : ℕ)
      → idx < len l
      → ((l.snap_index < idx)
          × (term_of (entry l idx) ≡ some t)
          × (resume_at l idx t x ≡ some (max 1 (idx + 1))))
        ⊎ (((idx ≤ l.snap_index) ⊎ (term_of (entry l idx) ≢ some t))
            × (resume_at l idx t x ≡ some (max 1 x)))
  unfolding resume_at
  resume_at_lem l idx t x high = elim (Bool-cases (ltb l.snap_index idx)) [
    | inr bottom ↦ inr (inl (ltb→le l.snap_index idx bottom), rw bottom refl)
    | inl more ↦
        let low = ltb→lt l.snap_index idx more in
        let (e, found) = entry_total l idx (omega arith) high in
        elim (Bool-cases (e.term == t)) [
          | inl same ↦
              inl
                (low, ap term_of found ∙ ap some (==→eq e.term t same), rw (more, found, same) refl)
          | inr other ↦ inr (
            inr (λ q. ==→ne e.term t other (eq_of_some (sym (ap term_of found) ∙ q))),
            rw (more, found, other) refl,
          )
        ]
  ]

  pub start_of_walk : RaftLog C → ℕ → ℕ
  start_of_walk l prev = if leb (len l) prev then last_index l else prev

  start_of_walk-lt-len : (l : RaftLog C) (prev : ℕ) → IsValid l → start_of_walk l prev < len l
  unfolding start_of_walk
  start_of_walk-lt-len l prev v = ground (arith, last_index_lem l v)

  pub start_of_walk_within : (l : RaftLog C) (prev : ℕ) → prev < len l → start_of_walk l prev ≡ prev
  unfolding start_of_walk
  start_of_walk_within l prev h = rw (lt→leb (len l) prev h) refl

  pub backoff_by_term :
      (prev : ℕ) (l : RaftLog C) (reply : AppendEntriesReply) (idx : ℕ)
      → by_length prev reply ≡ false
      → 0 < reply.x_term
      → last_below_term l reply.x_term (start_of_walk l prev) ≡ some idx
      → backoff_next_index prev l reply ≡ resume_at l idx reply.x_term reply.x_index
  unfolding backoff_next_index start_of_walk
  backoff_by_term prev l reply idx short h walk = rw (short, lt→ltb 0 reply.x_term h, walk) refl

  resume_at_total :
      (l : RaftLog C) (idx t x : ℕ)
      → idx < len l
      → (next : ℕ) × (resume_at l idx t x ≡ some next) × (1 ≤ next)
  resume_at_total l idx t x high = elim (resume_at_lem l idx t x high) [
    | inl (_, _, done) ↦ (max 1 (idx + 1), done, omega arith)
    | inr (_, done) ↦ (max 1 x, done, omega arith)
  ]

  -- On a valid log the leader's back-off never indexes out of range, whatever the peer replied and
  -- wherever the log's snapshot stands by then, and the index that it resumes at is at least 1.
  pub backoff_next_index_total :
      (prev : ℕ) (l : RaftLog C) (reply : AppendEntriesReply)
      → IsValid l
      → (next : ℕ) × (backoff_next_index prev l reply ≡ some next) × (1 ≤ next)
  unfolding backoff_next_index
  backoff_next_index_total prev l reply v = elim (Bool-cases (by_length prev reply)) [
    | inl short ↦ (max 1 reply.x_len, rw short refl, omega arith)
    | inr long ↦ elim (Bool-cases (ltb 0 reply.x_term)) [
      | inr untold ↦ (max 1 prev, rw (long, untold) refl, omega arith)
      | inl told ↦
          let high = start_of_walk-lt-len l prev v in
          let (idx, walk, b) = last_below_term_lem l reply.x_term (start_of_walk l prev) high in
          let (next, done, h) =
            resume_at_total l idx reply.x_term reply.x_index (omega (arith, b.before, high)) in
          (next, backoff_by_term prev l reply idx long (ltb→lt 0 reply.x_term told) walk ∙ done, h)
    ]
  ]
