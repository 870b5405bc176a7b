-- ===== src/Raft/Matching/Calls.antt =====
-- What the service's calls and a restart (src/raft1/raft.go) do to the log, and to the role within a
-- term.
use distributed_systems_mit.Base.{
  ℕ, ◌-◌, ◌<◌, ◌≡◌, refl, sym, ap, subst, ◌∙◌, ◌⊎◌, inl, inr, some, List, [], ◌∷◌, arith, leb,
  Bool-cases, eq_of_some, >>=-eq-some, leb→lt, Option, none,
}
use distributed_systems_mit.Persister.{save}
use distributed_systems_mit.Raft.Log.{
  last_index, RaftLog, LogEntry, len, entry, append, snapshot_at,
}
use distributed_systems_mit.Raft.Log.Bounds.{IsValid, len-append}
use distributed_systems_mit.Raft.Log.Snapshot.{snapshot_at_lem}
use distributed_systems_mit.Raft.Server.{
  leader, is_leader, Gob, Raft, snapshot, start, make, encode_raft_state,
}
use distributed_systems_mit.Raft.Run.Durable.{IsDurable, make_lem}
use distributed_systems_mit.Raft.Run.Roles.{make_follower}
use distributed_systems_mit.Raft.Matching.Chain.{Within, Within-same, Compacts-Within, entry_range}
use distributed_systems_mit.Raft.Matching.Stands.{
  Extends, Stands, Holds, Stands-follower, Stands-refl, Compacts-Extends, append-Extends,
}

module _ {C : Type 0} where
  snapshot_at_within :
      (l l' : RaftLog C) (index : ℕ) → snapshot_at l index ≡ some l' → index < len l
  unfolding snapshot_at
  snapshot_at_within l l' index h =
      let (e, found, _) = >>=-eq-some (entry l index) _ h in (entry_range l index e found).1

module _ {C : Type 0} (gob : Gob C) where
  -- A command at a leader is a new entry of its term at the end of its log; at another peer nothing
  -- happens.
  pub start_cases :
      (rf rf' : Raft C) (command : C) (answer : Option (ℕ × ℕ))
      → start gob rf command ≡ (rf', answer)
      → ((rf.role ≡ leader)
          × (rf'.role ≡ leader)
          × (rf'.current_term ≡ rf.current_term)
          × (rf'.log
              ≡ append rf.log (record { term = rf.current_term; command = some command } ∷ []))
          × (answer ≡ some (len rf.log, rf.current_term)))
        ⊎ ((rf' ≡ rf) × (answer ≡ none))
  unfolding start last_index
  start_cases rf rf' command answer h = elim (Bool-cases (is_leader rf.role)) [
    | inr other ↦ inr (ground arith, ground arith)
    | inl leads ↦
        let new : LogEntry C = record { term = rf.current_term; command = some command } in
        let at : len (append rf.log (new ∷ [])) - 1 ≡ len rf.log =
          omega (arith, len-append rf.log (new ∷ [])) in
        inl (
          ground arith,
          ground arith,
          ground arith,
          ground arith,
          ap (λ (r : Raft C × Option (ℕ × ℕ)). r.1) (sym h)
              ∙ rw leads (ap (λ i. some (i, rf.current_term)) at),
        )
  ]

  pub start-Stands :
      (rf rf' : Raft C) (command : C) (answer : Option (ℕ × ℕ))
      → start gob rf command ≡ (rf', answer)
      → Stands rf rf'
  start-Stands rf rf' command answer h = elim (start_cases rf rf' command answer h) [
    | inr (same, _) ↦ subst (Stands rf) (sym same) (Stands-refl rf)
    | inl (was, is, term_is, log_is, _) ↦ record {
      grows = omega (arith, term_is);
      candidate_before = λ t c. absurd (ground arith);
      leader_before =
          λ t l. inl (was, subst (Extends rf.log) (sym log_is) (append-Extends rf.log _));
    }
  ]

  -- A snapshot that the service takes.
  pub snapshot-Holds :
      (rf rf' : Raft C) (index : ℕ) (bytes : List ℕ)
      → IsValid rf.log
      → snapshot gob rf index bytes ≡ some rf'
      → Holds rf rf'
  unfolding snapshot
  snapshot-Holds rf rf' index bytes v h = elim (Bool-cases (leb index rf.log.snap_index)) [
    | inl stale ↦
        let same : rf ≡ rf' = ground arith in
        subst (Holds rf) same (Within-same rf.log rf.log v refl, Stands-refl rf)
    | inr newer ↦
        let low = leb→lt index rf.log.snap_index newer in
        let (l, cut, rest) =
          >>=-eq-some (snapshot_at rf.log index) (λ l. some (snapped rf bytes l)) (rw newer at h) in
        let high = snapshot_at_within rf.log l index cut in
        let (l', cut', c) = snapshot_at_lem rf.log index (omega arith) high in
        let log_is : l' ≡ rf'.log =
          eq_of_some (sym cut' ∙ cut) ∙ ap (λ (r : Raft C). r.log) (eq_of_some rest) in
        (
          subst (Within rf.log) log_is (Compacts-Within rf.log l' index low c),
          record {
            grows = ground arith;
            candidate_before = λ t r. ground arith;
            leader_before = λ t r.
                inl (
                  ground arith,
                  subst (Extends rf.log) log_is (Compacts-Extends rf.log l' index c),
                );
          },
        )
  ]
    where
      snapped : Raft C → List ℕ → RaftLog C → Raft C
      snapped rf bytes l =
          let rf' = record rf { log = l } in
          record rf' { persister = save rf'.persister (encode_raft_state gob rf') bytes }

  pub make-Holds :
      (rf rf' : Raft C) (now random : ℕ)
      → IsValid rf.log
      → IsDurable gob rf
      → make gob rf.peers rf.me rf.persister now random ≡ some rf'
      → Holds rf rf'
  make-Holds rf rf' now random v d h =
      let (s, done, same, _) = make_lem gob rf rf.peers rf.me now random d in
      let is : s ≡ rf' = eq_of_some (sym done ∙ h) in
      let log_is : rf'.log ≡ rf.log = sym (ap (λ (s : Raft C). s.log) is) ∙ same.same_log in
      let term_is : rf'.current_term ≡ rf.current_term =
        sym (ap (λ (s : Raft C). s.current_term) is) ∙ same.same_term in
      let (_, _, f) = make_follower gob rf' rf.persister rf.peers rf.me now random h in
      (Within-same rf.log rf'.log v log_is, Stands-follower rf rf' (omega (arith, term_is)) f)
