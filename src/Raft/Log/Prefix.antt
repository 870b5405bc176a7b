-- ===== src/Raft/Log/Prefix.antt =====
-- `matchPrefix` of raftlog.go finds the longest prefix that agrees on terms.
use distributed_systems_mit.Base.{
  ℕ, zero, suc, ◌+◌, ◌≤◌, ◌<◌, ◌≡◌, refl, sym, ap, ◌∙◌, ◌⊎◌, ◌≢◌, Bool-cases, inl, inr, some, List,
  [], ◌∷◌, length, get_elem?, leb, ◌==◌, arith, ==→eq, ==→ne, leb→le, leb→lt, lt→leb, subst,
  eq_of_some,
}
use distributed_systems_mit.Raft.Log.{LogEntry, RaftLog, len, entry, match_from, match_prefix}
use distributed_systems_mit.Raft.Log.Bounds.{term_of, entry_total, entry_past}

module _ {C : Type 0} where
  -- Counting from `base`, `n` is the number of leading entries of `theirs` with our terms: they
  -- agree, and the next one, if there is one, does not.
  pub record Matched (l : RaftLog C) (base : ℕ) (theirs : List (LogEntry C)) (n : ℕ) : Type 0 where
    pub within : n ≤ length theirs
    pub held : (n ≡ 0) ⊎ (base + n ≤ len l)
    pub agree : (k : ℕ) → k < n → term_of (entry l (base + k)) ≡ term_of (get_elem? theirs k)
    pub maximal :
        (n ≡ length theirs) ⊎ (term_of (entry l (base + n)) ≢ term_of (get_elem? theirs n))

  stop-Matched :
      (l : RaftLog C) (base : ℕ) (e : LogEntry C) (rest : List (LogEntry C))
      → term_of (entry l base) ≢ some e.term
      → Matched l base (e ∷ rest) 0
  stop-Matched l base e rest ne = record {
    within = omega arith;
    held = inl refl;
    agree = λ k h. elim h [ ];
    maximal = inr (λ h. ne (sym (ap (λ (i : ℕ). term_of (entry l i)) (omega arith)) ∙ h));
  }

  step-Matched :
      (l : RaftLog C) (base n : ℕ) (e : LogEntry C) (rest : List (LogEntry C))
      → base < len l
      → term_of (entry l base) ≡ some e.term
      → Matched l (suc base) rest n
      → Matched l base (e ∷ rest) (suc n)
  step-Matched l base n e rest h same m = record {
    within = omega (arith, m.within);
    held = inr (omega (arith, m.held));
    agree = agree;
    maximal = maximal m.maximal;
  }
    where
      shift : (k : ℕ) → term_of (entry l (base + suc k)) ≡ term_of (entry l (suc base + k))
      shift k = ap (λ (i : ℕ). term_of (entry l i)) (omega arith)

      agree : (k : ℕ) → k < suc n → term_of (entry l (base + k)) ≡ term_of (get_elem? (e ∷ rest) k)
      agree zero h = ap (λ (i : ℕ). term_of (entry l i)) (omega arith) ∙ same
      agree (suc k) h = shift k ∙ m.agree k (omega arith)

      maximal :
          (n ≡ length rest) ⊎ (term_of (entry l (suc base + n)) ≢ term_of (get_elem? rest n))
          → (suc n ≡ suc (length rest))
            ⊎ (term_of (entry l (base + suc n)) ≢ term_of (get_elem? rest n))
      maximal (inl all) = inl (ap suc all)
      maximal (inr ne) = inr (λ q. ne (sym (shift n) ∙ q))

  abbrev MatchFound : RaftLog C → ℕ → List (LogEntry C) → ℕ → Type 0
  MatchFound l prev_index theirs i =
      (n : ℕ) × (match_from l prev_index theirs i ≡ some (i + n))
      × Matched l (prev_index + 1 + i) theirs n

  MatchFound-next :
      (l : RaftLog C) (prev_index i : ℕ) (e mine : LogEntry C) (rest : List (LogEntry C))
      → prev_index + 1 + i < len l
      → entry l (prev_index + 1 + i) ≡ some mine
      → MatchFound l prev_index rest (suc i)
      → MatchFound l prev_index (e ∷ rest) i
  unfolding match_from
  MatchFound-next l prev_index i e mine rest h found (n, done, m) =
      elim (Bool-cases (mine.term == e.term)) [
        | inl same ↦ (
          suc n,
          rw (lt→leb (len l) (prev_index + 1 + i) h, found, same) (done ∙ ap some (omega arith)),
          step-Matched l (prev_index + 1 + i) n e rest h
              (rw found (ap some (==→eq mine.term e.term same)))
              (subst (λ b. Matched l b rest n) (omega arith) m),
        )
        | inr other ↦ (
          0,
          rw (lt→leb (len l) (prev_index + 1 + i) h, found, other) (ap some (omega arith)),
          stop-Matched l (prev_index + 1 + i) e rest
              (rw found (λ q. ==→ne mine.term e.term other (eq_of_some q))),
        )
      ]

  match_from_lem :
      (l : RaftLog C) (prev_index : ℕ) (theirs : List (LogEntry C)) (i : ℕ)
      → l.snap_index ≤ prev_index
      → MatchFound l prev_index theirs i
  unfolding match_from
  match_from_lem l prev_index [] i low = (
    0,
    ap some (omega arith),
    record { within = omega arith; held = inl refl; agree = λ k h. elim h [ ]; maximal = inl refl },
  )
  match_from_lem l prev_index (e ∷ rest) i low =
      elim (Bool-cases (leb (len l) (prev_index + 1 + i))) [
        | inl past ↦ (
          0,
          rw past (ap some (omega arith)),
          stop-Matched l (prev_index + 1 + i) e rest (
              rw (entry_past l (prev_index + 1 + i) (leb→le (len l) (prev_index + 1 + i) past))
                (λ q. cc)),
        )
        | inr within ↦
            let h = leb→lt (len l) (prev_index + 1 + i) within in
            let (mine, found) = entry_total l (prev_index + 1 + i) (omega arith) h in
            MatchFound-next l prev_index i e mine rest h found
              (match_from_lem l prev_index rest (suc i) low)
      ]

  -- From an index that the log holds, `matchPrefix` counts the longest run of the leader's entries
  -- whose terms the log has after it, without a panic.
  pub match_prefix-Matched :
      (l : RaftLog C) (prev_index : ℕ) (theirs : List (LogEntry C))
      → l.snap_index ≤ prev_index
      → (n : ℕ) × (match_prefix l prev_index theirs ≡ some n) × Matched l (prev_index + 1) theirs n
  unfolding match_prefix
  match_prefix-Matched l prev_index theirs low =
      let (n, done, m) = match_from_lem l prev_index theirs 0 low in
      (n, done ∙ ap some (omega arith), subst (λ b. Matched l b theirs n) (omega arith) m)
