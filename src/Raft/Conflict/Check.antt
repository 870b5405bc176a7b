-- ===== src/Raft/Conflict/Check.antt =====
-- What `checkAppend` reports, on every branch.
use distributed_systems_mit.Base.{
  ℕ, zero, suc, ◌+◌, ◌≤◌, ◌<◌, ◌≡◌, refl, sym, ap, ◌∙◌, ◌⊎◌, ◌≢◌, Bool-cases, inl, inr, some, List,
  ltb, leb, ◌==◌, arith, ==→eq, ==→ne, eq→==, ne→==, leb→le, leb→lt, lt→leb, ltb→lt, ltb→le, le→ltb,
  lt→ltb, le→leb, eq_of_some,
}
use distributed_systems_mit.Raft.Log.{LogEntry, RaftLog, len, entry}
use distributed_systems_mit.Raft.Log.Bounds.{term_of, entry_total}
use distributed_systems_mit.Raft.Log.Prefix.{Matched, match_prefix-Matched}
use distributed_systems_mit.Raft.Conflict.{no_conflict, first_of_term, check_entry, check_append}

module _ {C : Type 0} where
  -- `x` is the first index of the run of term `t` that ends at `i`, above the snapshot.
  pub record FirstOfTerm (l : RaftLog C) (t i x : ℕ) : Type 0 where
    pub before : x ≤ i
    pub above : (l.snap_index < x) ⊎ (x ≡ i)
    pub run : (j : ℕ) → x ≤ j → j ≤ i → term_of (entry l j) ≡ some t
    pub first : (j : ℕ) → suc j ≡ x → l.snap_index < j → term_of (entry l j) ≢ some t

  stop-FirstOfTerm :
      (l : RaftLog C) (t i : ℕ)
      → term_of (entry l i) ≡ some t
      → ((j : ℕ) → suc j ≡ i → l.snap_index < j → term_of (entry l j) ≢ some t)
      → FirstOfTerm l t i i
  stop-FirstOfTerm l t i here first = record {
    before = omega arith;
    above = inr refl;
    run = λ j low high. ap (λ (k : ℕ). term_of (entry l k)) (omega arith) ∙ here;
    first = first;
  }

  step-FirstOfTerm :
      (l : RaftLog C) (t i x : ℕ)
      → l.snap_index < i
      → term_of (entry l (suc i)) ≡ some t
      → FirstOfTerm l t i x
      → FirstOfTerm l t (suc i) x
  step-FirstOfTerm l t i x low here f = record {
    before = omega (arith, f.before);
    above = inl (omega (arith, f.above));
    run = λ j lo hi. elim (Bool-cases (leb j i)) [
      | inl inside ↦ f.run j lo (leb→le j i inside)
      | inr last ↦ ap (λ (k : ℕ). term_of (entry l k)) (omega (arith, leb→lt j i last)) ∙ here
    ];
    first = f.first;
  }

  first_of_term_lem :
      (l : RaftLog C) (t i : ℕ)
      → l.snap_index ≤ i
      → i < len l
      → term_of (entry l i) ≡ some t
      → (x : ℕ) × (first_of_term l t i ≡ some x) × FirstOfTerm l t i x
  unfolding first_of_term
  first_of_term_lem l t zero low high here =
      (zero, refl, stop-FirstOfTerm l t zero here (λ j e. absurd (omega arith)))
  first_of_term_lem l t (suc i) low high here = elim (Bool-cases (ltb (l.snap_index + 1) (suc i))) [
    | inr bottom ↦ (
      suc i,
      rw bottom refl,
      stop-FirstOfTerm l t (suc i) here
          (λ j e below. absurd (omega (arith, ltb→le (l.snap_index + 1) (suc i) bottom))),
    )
    | inl more ↦
        let h = ltb→lt (l.snap_index + 1) (suc i) more in
        let (e, found) = entry_total l i (omega arith) (omega arith) in
        elim (Bool-cases (e.term == t)) [
          | inl same ↦
              let (x, done, f) =
                first_of_term_lem l t i (omega arith) (omega arith)
                  (rw found (ap some (==→eq e.term t same))) in
              (x, rw (more, found, same) done, step-FirstOfTerm l t i x (omega arith) here f)
          | inr other ↦ (
            suc i,
            rw (more, found, other) refl,
            stop-FirstOfTerm l t (suc i) here (λ j q below same. ==→ne e.term t other (
                eq_of_some (
                  sym (ap term_of found)
                  ∙ ap (λ (k : ℕ). term_of (entry l k)) (omega arith)
                  ∙ same))),
          )
        ]
  ]

  -- A request beyond the log, or below its snapshot, is answered with the log's length.
  pub check_append_absent :
      (l : RaftLog C) (prev_index prev_term : ℕ) (entries : List (LogEntry C))
      → (prev_index < l.snap_index) ⊎ (len l ≤ prev_index)
      → check_append l prev_index prev_term entries
        ≡ some (0, record { x_len = len l; x_term = 0; x_index = 0 })
  unfolding check_append
  check_append_absent l prev_index prev_term entries (inl below) =
      rw (lt→ltb prev_index l.snap_index below) refl
  check_append_absent l prev_index prev_term entries (inr past) =
      rw (le→leb (len l) prev_index past) (ground arith)

  -- Otherwise the entry at `prev_index` decides.
  check_append_present :
      (l : RaftLog C) (prev_index prev_term : ℕ) (entries : List (LogEntry C)) (e : LogEntry C)
      → l.snap_index ≤ prev_index
      → prev_index < len l
      → entry l prev_index ≡ some e
      → check_append l prev_index prev_term entries ≡ check_entry l prev_index prev_term entries e
  unfolding check_append
  check_append_present l prev_index prev_term entries e low high found =
      rw (le→ltb prev_index l.snap_index low, lt→leb (len l) prev_index high, found) refl

  -- A different term is answered with that term and the first index of its run.
  pub check_append_mismatch :
      (l : RaftLog C) (prev_index prev_term t : ℕ) (entries : List (LogEntry C))
      → l.snap_index ≤ prev_index
      → prev_index < len l
      → term_of (entry l prev_index) ≡ some t
      → t ≢ prev_term
      → (x : ℕ) × (check_append l prev_index prev_term entries
          ≡ some (0, record { x_len = 0; x_term = t; x_index = x }))
        × FirstOfTerm l t prev_index x
  unfolding check_entry
  check_append_mismatch l prev_index prev_term t entries low high here ne =
      let (e, found) = entry_total l prev_index low high in
      let same : e.term ≡ t = eq_of_some (sym (ap term_of found) ∙ here) in
      let (x, done, f) = first_of_term_lem l t prev_index low high here in
      (
        x,
        check_append_present l prev_index prev_term entries e low high found
            ∙ rw (same, ne→== t prev_term ne, done) refl,
        f,
      )

  -- The same term is answered with the number of entries that match already.
  pub check_append_match :
      (l : RaftLog C) (prev_index prev_term : ℕ) (entries : List (LogEntry C))
      → l.snap_index ≤ prev_index
      → prev_index < len l
      → term_of (entry l prev_index) ≡ some prev_term
      → (n : ℕ) × (check_append l prev_index prev_term entries ≡ some (n, no_conflict))
        × Matched l (prev_index + 1) entries n
  unfolding check_entry
  check_append_match l prev_index prev_term entries low high here =
      let (e, found) = entry_total l prev_index low high in
      let same : e.term ≡ prev_term = eq_of_some (sym (ap term_of found) ∙ here) in
      let (n, done, m) = match_prefix-Matched l prev_index entries low in
      (
        n,
        check_append_present l prev_index prev_term entries e low high found
            ∙ rw (same, eq→== prev_term prev_term refl, done) refl,
        m,
      )
