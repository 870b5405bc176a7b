-- ===== src/Raft/Conflict/Resume.antt =====
-- Resuming after a refusal: the leader's `backoffNextIndex` against the follower's `checkAppend`.
use distributed_systems_mit.Base.{
  ℕ, ◌+◌, ◌≤◌, ◌<◌, ◌≡◌, refl, sym, ap, ◌∙◌, ◌⊎◌, ◌≢◌, Bool-cases, inl, inr, some, List, max, ltb,
  leb, arith, leb→le, leb→lt, ltb→lt, lt→ltb, le→leb, eq_of_some,
}
use distributed_systems_mit.Raft.Log.{LogEntry, RaftLog, len, entry}
use distributed_systems_mit.Raft.Log.Bounds.{IsValid, term_of, entry_total, entry_past, snap-lt-len}
use distributed_systems_mit.Raft.Conflict.{AppendConflict, check_append, backoff_next_index}
use distributed_systems_mit.Raft.Conflict.Check.{
  FirstOfTerm, check_append_absent, check_append_mismatch,
}
use distributed_systems_mit.Raft.Conflict.Backoff.{
  LastBelow, last_below_term_lem, resume_at_lem, start_of_walk_within, backoff_by_term,
  conflict_reply,
}
use distributed_systems_mit.Raft.Rpc.{AppendEntriesReply}

module _ {C : Type 0} where
  -- Terms never fall along a log.
  abbrev pub IsSorted : RaftLog C → Type 0
  IsSorted l =
      (i j t u : ℕ) → i ≤ j → term_of (entry l i) ≡ some t → term_of (entry l j) ≡ some u → t ≤ u

  -- Every entry of the leader from `next` up to `prev` is one that the follower lacks.
  abbrev pub NoMatch : RaftLog C → RaftLog C → ℕ → ℕ → Type 0
  NoMatch f l next prev =
      (j : ℕ) → next ≤ j → j ≤ prev → l.snap_index < j → term_of (entry f j) ≢ term_of (entry l j)

  -- `next` is where the leader resumes: strictly before the refused request, with no match skipped.
  pub record Resumes (f l : RaftLog C) (prev next : ℕ) : Type 0 where
    pub positive : 1 ≤ next
    pub progress : next ≤ max 1 prev
    pub skips : NoMatch f l next prev

  term_total :
      (l : RaftLog C) (i : ℕ)
      → l.snap_index ≤ i
      → i < len l
      → (t : ℕ) × (term_of (entry l i) ≡ some t)
  term_total l i low high = let (e, found) = entry_total l i low high in (e.term, ap term_of found)

  -- The follower's log ends before the request: resume past its length.
  resume_short :
      (f l : RaftLog C) (prev prev_term term : ℕ) (entries : List (LogEntry C))
      → IsValid f
      → len f ≤ prev
      → prev < len l
      → (c : AppendConflict) × (next : ℕ) × (check_append f prev prev_term entries ≡ some (0, c))
        × (backoff_next_index prev l (conflict_reply term c) ≡ some next)
        × Resumes f l prev next
  unfolding backoff_next_index
  resume_short f l prev prev_term term entries v past high = (
    record { x_len = len f; x_term = 0; x_index = 0 },
    max 1 (len f),
    check_append_absent f prev prev_term entries (inr past),
    rw (lt→ltb 0 (len f) nonempty, le→leb (len f) prev past) refl,
    record {
      positive = omega arith;
      progress = omega (arith, nonempty);
      skips = λ j low hi snap.
          let (t, here) = term_total l j (omega arith) (omega arith) in
          rw (entry_past f j (omega arith), here) (λ q. cc);
    },
  )
    where
      nonempty : 0 < len f
      nonempty = omega (arith, snap-lt-len f v)

  -- Our last entry of the follower's term, when there is one, is where no match is skipped: the
  -- entries after it have higher terms than the follower's up to the refused index.
  resume_by_term :
      (f l : RaftLog C) (prev t prev_term idx : ℕ)
      → IsSorted f
      → term_of (entry f prev) ≡ some t
      → term_of (entry l prev) ≡ some prev_term
      → t ≢ prev_term
      → LastBelow l t prev idx
      → term_of (entry l idx) ≡ some t
      → Resumes f l prev (max 1 (idx + 1))
  resume_by_term f l prev t prev_term idx sorted theirs ours ne b here = record {
    positive = omega arith;
    progress = omega (arith, b.before, idx-ne-prev);
    skips = λ j low high snap q.
        let (u, at_j, up) = b.passed j (omega arith) high in
        absurd (omega (arith, up, sorted j prev u t high (q ∙ at_j) theirs));
  }
    where
      idx-ne-prev : idx ≢ prev
      idx-ne-prev e = ne (eq_of_some (sym here ∙ ap (λ (k : ℕ). term_of (entry l k)) e ∙ ours))

  -- Without one, resume at the first index of the follower's run of that term.
  resume_at_run :
      (f l : RaftLog C) (prev t idx x : ℕ)
      → IsSorted l
      → FirstOfTerm f t prev x
      → LastBelow l t prev idx
      → (idx ≤ l.snap_index) ⊎ (term_of (entry l idx) ≢ some t)
      → Resumes f l prev (max 1 x)
  resume_at_run f l prev t idx x sorted run b missing = record {
    positive = omega arith;
    progress = omega (arith, run.before);
    skips = λ j low high snap q. clash j low high snap (sym q ∙ run.run j (omega arith) high);
  }
    where
      lower :
          (j : ℕ)
          → j ≤ idx
          → l.snap_index < j
          → term_of (entry l j) ≡ some t
          → (idx ≤ l.snap_index) ⊎ (term_of (entry l idx) ≢ some t)
          → (idx ≤ l.snap_index) ⊎ ((u : ℕ) × (term_of (entry l idx) ≡ some u) × (u ≤ t))
          → ⊥
      lower j h snap here (inl m) s = omega arith
      lower j h snap here (inr m) (inl s) = omega arith
      lower j h snap here (inr m) (inr (u, at_idx, le)) =
          m (at_idx ∙ ap some (omega (arith, le, sorted j idx t u h here at_idx)))

      clash : (j : ℕ) → max 1 x ≤ j → j ≤ prev → l.snap_index < j → term_of (entry l j) ≡ some t → ⊥
      clash j low high snap here = elim (Bool-cases (leb j idx)) [
        | inl inside ↦ lower j (leb→le j idx inside) snap here missing b.stopped
        | inr outside ↦
            let (u, at_j, up) = b.passed j (leb→lt j idx outside) high in
            omega (arith, up, eq_of_some (sym at_j ∙ here))
      ]

  resume_conflict :
      (f l : RaftLog C) (prev prev_term t term : ℕ) (entries : List (LogEntry C))
      → IsSorted f
      → IsSorted l
      → f.snap_index ≤ prev
      → prev < len f
      → prev < len l
      → term_of (entry f prev) ≡ some t
      → term_of (entry l prev) ≡ some prev_term
      → t ≢ prev_term
      → (c : AppendConflict) × (next : ℕ) × (check_append f prev prev_term entries ≡ some (0, c))
        × (backoff_next_index prev l (conflict_reply term c) ≡ some next)
        × Resumes f l prev next
  resume_conflict f l prev prev_term t term entries sf sl low high_f high_l theirs ours ne =
      let (x, refused, run) =
        check_append_mismatch f prev prev_term t entries low high_f theirs ne in
      let c : AppendConflict = record { x_len = 0; x_term = t; x_index = x } in
      let reply : AppendEntriesReply = conflict_reply term c in
      elim (Bool-cases (ltb 0 t)) [
        | inr zero_term ↦ (
          c,
          max 1 prev,
          refused,
          unfold backoff_next_index in rw zero_term refl,
          record {
            positive = omega arith;
            progress = omega arith;
            skips = λ j lo hi snap q. ne (
                eq_of_some (
                  sym theirs
                  ∙ ap (λ (k : ℕ). term_of (entry f k)) (omega arith)
                  ∙ q
                  ∙ ap (λ (k : ℕ). term_of (entry l k)) (omega arith)
                  ∙ ours));
          },
        )
        | inl told ↦
            let (idx, walk, b) = last_below_term_lem l t prev high_l in
            let by_term =
              backoff_by_term prev l reply idx refl (ltb→lt 0 t told)
                (rw (start_of_walk_within l prev high_l) walk) in
            elim (resume_at_lem l idx t x (omega (arith, b.before))) [
              | inl (_, here, done) ↦ (
                c,
                max 1 (idx + 1),
                refused,
                by_term ∙ done,
                resume_by_term f l prev t prev_term idx sf theirs ours ne b here,
              )
              | inr (missing, done) ↦ (
                c,
                max 1 x,
                refused,
                by_term ∙ done,
                resume_at_run f l prev t idx x sl run b missing,
              )
            ]
      ]

  -- A follower with a valid log refuses a request whose entry at `prev`, not below its snapshot
  -- and held by the leader, it lacks. When terms do not fall along the two logs, the leader's
  -- answer to the refusal is computed without a panic, is at least 1 and not past `prev`, and
  -- skips no index, above the leader's snapshot and up to `prev`, at which the two logs agree on
  -- the term.
  pub backoff-Resumes :
      (f l : RaftLog C) (prev prev_term term : ℕ) (entries : List (LogEntry C))
      → IsValid f
      → IsSorted f
      → IsSorted l
      → f.snap_index ≤ prev
      → prev < len l
      → term_of (entry l prev) ≡ some prev_term
      → term_of (entry f prev) ≢ some prev_term
      → (c : AppendConflict) × (next : ℕ) × (check_append f prev prev_term entries ≡ some (0, c))
        × (backoff_next_index prev l (conflict_reply term c) ≡ some next)
        × Resumes f l prev next
  backoff-Resumes f l prev prev_term term entries v sf sl low high ours ne =
      elim (Bool-cases (leb (len f) prev)) [
        | inl past ↦ resume_short f l prev prev_term term entries v (leb→le (len f) prev past) high
        | inr within ↦
            let h = leb→lt (len f) prev within in
            let (t, theirs) = term_total f prev low h in
            resume_conflict f l prev prev_term t term entries sf sl low h high theirs ours
              (λ e. ne (theirs ∙ ap some e))
      ]
