-- ===== src/Raft/Replication/Majority.antt =====
-- The leader's commit rule (`updateCommitIndex` of src/raft1/replication.go).
use distributed_systems_mit.Base.{
  ℕ, zero, suc, ◌≤◌, ◌<◌, ◌≡◌, refl, sym, ap, subst, ◌∙◌, inl, inr, true, false, Bool-cases, ◌&&◌,
  Option, none, some, ltb, leb, ◌==◌, ◌+◌, ◌/◌, not, length, get_elem?, ltb→lt, lt→ltb, arith,
  leb→le, leb→lt, eq_of_some,
}
use distributed_systems_mit.Raft.Log.{LogEntry, len, last_index, entry}
use distributed_systems_mit.Raft.Log.Bounds.{IsValid, term_of, entry_total, last_index_lem}
use distributed_systems_mit.Raft.Server.{Raft}
use distributed_systems_mit.Raft.Replication.{
  matching, has_majority, find_commit, committed, update_commit_index,
}
use distributed_systems_mit.Raft.Replication.Counting.{
  marked_count, reached, backs, matching-marked_count, marked_count_same,
}

module _ {C : Type 0} where
  -- The leader and the other peers whose logs are known to match up to `n` are more than half of all.
  abbrev pub IsBacked : Raft C → ℕ → Type 0
  IsBacked rf n =
      rf.peers / 2 < 1 + marked_count (backs rf.me n rf.match_index) (length rf.match_index)

  counted :
      (rf : Raft C) (n : ℕ)
      → matching rf.me n 0 rf.match_index
        ≡ marked_count (backs rf.me n rf.match_index) (length rf.match_index)
  counted rf n =
      matching-marked_count rf.me n 0 rf.match_index
      ∙ marked_count_same (λ p. not (0 + p == rf.me) && reached n (get_elem? rf.match_index p))
          (backs rf.me n rf.match_index) (length rf.match_index)
          (λ p. ap (λ j. not (j == rf.me) && reached n (get_elem? rf.match_index p)) (omega arith))

  IsBacked-has_majority : (rf : Raft C) (n : ℕ) → IsBacked rf n → has_majority rf n ≡ true
  unfolding has_majority
  IsBacked-has_majority rf n h =
      lt→ltb (rf.peers / 2) (1 + matching rf.me n 0 rf.match_index) (omega (arith, h, counted rf n))

  has_majority-IsBacked : (rf : Raft C) (n : ℕ) → has_majority rf n ≡ true → IsBacked rf n
  unfolding has_majority
  has_majority-IsBacked rf n h =
      omega (arith, ltb→lt (rf.peers / 2) (1 + matching rf.me n 0 rf.match_index) h, counted rf n)

  -- An index that the leader may commit: new, above the snapshot, of its own term, on a majority.
  pub record Committable (rf : Raft C) (n : ℕ) : Type 0 where
    pub newer : rf.commit_index < n
    pub above : rf.log.snap_index < n
    pub own_term : term_of (entry rf.log n) ≡ some rf.current_term
    pub majority : IsBacked rf n

  -- The verdict on the indices up to `top`: the greatest one that may be committed, if there is one.
  abbrev pub Greatest : Raft C → ℕ → Option ℕ → Type 0
  Greatest rf top none = (m : ℕ) → m ≤ top → ¬ Committable rf m
  Greatest rf top (some n) =
      Committable rf n × (n ≤ top) × ((m : ℕ) → n < m → m ≤ top → ¬ Committable rf m)

  Greatest-suc :
      (rf : Raft C) (n : ℕ) (found : Option ℕ)
      → ¬ Committable rf (suc n)
      → Greatest rf n found
      → Greatest rf (suc n) found
  Greatest-suc rf n none bad rest = λ m h c. elim (Bool-cases (leb m n)) [
    | inl low ↦ rest m (leb→le m n low) c
    | inr high ↦ bad (subst (Committable rf) (omega (arith, leb→lt m n high)) c)
  ]
  Greatest-suc rf n (some k) bad (c, le, rest) = (
    c,
    omega arith,
    λ m above h c'. elim (Bool-cases (leb m n)) [
      | inl low ↦ rest m above (leb→le m n low) c'
      | inr high ↦ bad (subst (Committable rf) (omega (arith, leb→lt m n high)) c')
    ],
  )

  stop_low :
      (rf : Raft C) (n m : ℕ)
      → (ltb rf.commit_index n && ltb rf.log.snap_index n) ≡ false
      → m ≤ n
      → ¬ Committable rf m
  stop_low rf n m done h c = let newer = c.newer in let above = c.above in ground arith

  in_reach :
      (rf : Raft C) (n : ℕ)
      → (ltb rf.commit_index n && ltb rf.log.snap_index n) ≡ true
      → (rf.commit_index < n) × (rf.log.snap_index < n)
  in_reach rf n more = (ground arith, ground arith)

  hit-Committable :
      (rf : Raft C) (n : ℕ) (e : LogEntry C)
      → (rf.commit_index < n) × (rf.log.snap_index < n)
      → entry rf.log n ≡ some e
      → (e.term == rf.current_term && has_majority rf n) ≡ true
      → Committable rf n
  hit-Committable rf n e (newer, above) found hit = record {
    newer = newer;
    above = above;
    own_term = ap term_of found ∙ ap some (ground arith);
    majority = has_majority-IsBacked rf n (ground arith);
  }

  miss_lem :
      (rf : Raft C) (n : ℕ) (e : LogEntry C)
      → entry rf.log n ≡ some e
      → (e.term == rf.current_term && has_majority rf n) ≡ false
      → ¬ Committable rf n
  miss_lem rf n e found miss c =
      let same : e.term ≡ rf.current_term = eq_of_some (sym (ap term_of found) ∙ c.own_term) in
      let majority = IsBacked-has_majority rf n c.majority in ground arith

  find_commit_lem :
      (rf : Raft C) (n : ℕ)
      → n < len rf.log
      → (found : Option ℕ) × (find_commit rf n ≡ some found) × Greatest rf n found
  unfolding find_commit
  find_commit_lem rf zero high = (none, refl, λ m h c. let newer = c.newer in absurd (omega arith))
  find_commit_lem rf (suc n) high =
      elim (Bool-cases (ltb rf.commit_index (suc n) && ltb rf.log.snap_index (suc n))) [
        | inr done ↦ (none, rw done refl, λ m h. stop_low rf (suc n) m done h)
        | inl more ↦
            let reach = in_reach rf (suc n) more in
            let (e, found) = entry_total rf.log (suc n) (omega (arith, reach.1)) high in
            elim (Bool-cases (e.term == rf.current_term && has_majority rf (suc n))) [
              | inl hit ↦ (
                some (suc n),
                rw (more, found, hit) refl,
                (
                  hit-Committable rf (suc n) e reach found hit,
                  omega arith,
                  λ m above h c. omega arith,
                ),
              )
              | inr miss ↦
                  let (r, rest, greatest) = find_commit_lem rf n (omega arith) in
                  (
                    r,
                    rw (more, found, miss) rest,
                    Greatest-suc rf n r (miss_lem rf (suc n) e found miss) greatest,
                  )
            ]
      ]

  -- The state after the rule: the same, or with a new commit index and one more signal.
  abbrev pub signalled : Raft C → Option ℕ → Raft C
  signalled rf none = rf
  signalled rf (some n) = record rf { commit_index = n; commit = rf.commit + 1 }

  committed-signalled : (rf : Raft C) (found : Option ℕ) → committed rf found ≡ signalled rf found
  committed-signalled rf none = refl
  committed-signalled rf (some n) = refl

  -- On a valid log the leader's commit rule runs without a panic: it moves the commit index to the
  -- greatest index above it and above the snapshot that has the leader's own term and that the match
  -- indices of the other peers, with the leader itself, put on more than half of all peers, and sends
  -- one signal to the applier; if there is none it changes nothing.
  pub update_commit_index-Greatest :
      (rf : Raft C)
      → IsValid rf.log
      → (found : Option ℕ) × (update_commit_index rf ≡ some (signalled rf found))
        × Greatest rf (last_index rf.log) found
  unfolding update_commit_index
  update_commit_index-Greatest rf v =
      let (found, done, greatest) =
        find_commit_lem rf (last_index rf.log) (omega (arith, last_index_lem rf.log v)) in
      (found, rw done (ap some (committed-signalled rf found)), greatest)

  -- So the leader's commit index never falls, and stays within its log.
  pub update_commit_index_mono :
      (rf : Raft C)
      → IsValid rf.log
      → rf.commit_index < len rf.log
      → (rf' : Raft C) × (update_commit_index rf ≡ some rf')
        × (rf.commit_index ≤ rf'.commit_index)
        × (rf'.commit_index < len rf.log)
        × (rf'.log ≡ rf.log)
  update_commit_index_mono rf v h =
      let (found, done, greatest) = update_commit_index-Greatest rf v in
      let (grows, within, same) = moves found greatest in
      (signalled rf found, done, grows, within, same)
    where
      moves :
          (found : Option ℕ)
          → Greatest rf (last_index rf.log) found
          → (rf.commit_index ≤ (signalled rf found).commit_index)
            × ((signalled rf found).commit_index < len rf.log)
            × ((signalled rf found).log ≡ rf.log)
      moves none g = (omega arith, h, refl)
      moves (some n) (c, le, _) =
          let newer = c.newer in (omega arith, omega (arith, last_index_lem rf.log v), refl)
