-- ===== src/Raft/Matching/Stands.antt =====
-- How a peer's log and role go on within a term.
use distributed_systems_mit.Base.{ℕ, ◌≤◌, ◌<◌, ◌≡◌, refl, sym, subst, ◌⊎◌, inl, inr, List, arith}
use distributed_systems_mit.Raft.Log.{RaftLog, LogEntry, len, entry, append}
use distributed_systems_mit.Raft.Log.Bounds.{Compacts, len-append, entry-append_left}
use distributed_systems_mit.Raft.Server.{follower, candidate, leader, Raft}
use distributed_systems_mit.Raft.Matching.Chain.{Within}

module _ {C : Type 0} where
  -- `l'` has all entries of `l` above its snapshot, and may have more.
  pub record Extends (l l' : RaftLog C) : Type 0 where
    pub longer : len l ≤ len l'
    pub kept : (j : ℕ) → l'.snap_index < j → j < len l → entry l' j ≡ entry l j

  -- The term does not fall. Within it, a candidate was one before, and a leader was one before that
  -- only added to its log, or a candidate with the same log.
  pub record Stands (rf rf' : Raft C) : Type 0 where
    pub grows : rf.current_term ≤ rf'.current_term
    pub candidate_before :
        rf'.current_term ≡ rf.current_term → rf'.role ≡ candidate → rf.role ≡ candidate
    pub leader_before :
        rf'.current_term ≡ rf.current_term
        → rf'.role ≡ leader
        → ((rf.role ≡ leader) × Extends rf.log rf'.log)
          ⊎ ((rf.role ≡ candidate) × (rf'.log ≡ rf.log))

  abbrev pub Holds : Raft C → Raft C → Type 0
  Holds rf rf' = Within rf.log rf'.log × Stands rf rf'

  pub Extends-same : (l l' : RaftLog C) → l' ≡ l → Extends l l'
  Extends-same l l' same =
      subst (Extends l) (sym same) (record { longer = omega arith; kept = λ j low high. refl })

  pub Stands-same :
      (rf rf' : Raft C)
      → rf'.log ≡ rf.log
      → rf.current_term ≤ rf'.current_term
      → (rf'.current_term ≡ rf.current_term → rf'.role ≡ candidate → rf.role ≡ candidate)
      → (rf'.current_term ≡ rf.current_term
          → rf'.role ≡ leader
          → (rf.role ≡ leader) ⊎ (rf.role ≡ candidate))
      → Stands rf rf'
  Stands-same rf rf' same grows c l = record {
    grows = grows;
    candidate_before = c;
    leader_before = λ t led. elim (l t led) [
      | inl was ↦ inl (was, Extends-same rf.log rf'.log same)
      | inr was ↦ inr (was, same)
    ];
  }

  pub Stands-follower :
      (rf rf' : Raft C) → rf.current_term ≤ rf'.current_term → rf'.role ≡ follower → Stands rf rf'
  Stands-follower rf rf' grows f = record {
    grows = grows;
    candidate_before = λ t c. absurd (ground arith);
    leader_before = λ t l. absurd (ground arith);
  }

  pub Stands-refl : (rf : Raft C) → Stands rf rf
  Stands-refl rf = Stands-same rf rf refl (omega arith) (λ t c. c) (λ t l. inl l)

  pub Compacts-Extends : (l l' : RaftLog C) (index : ℕ) → Compacts l index l' → Extends l l'
  Compacts-Extends l l' index c = record {
    longer = omega (arith, c.same_len);
    kept = λ j low high. c.above j (omega (arith, c.index_is));
  }

  pub append-Extends : (l : RaftLog C) (es : List (LogEntry C)) → Extends l (append l es)
  append-Extends l es = record {
    longer = omega (arith, len-append l es);
    kept = λ j low high. entry-append_left l es j high;
  }
