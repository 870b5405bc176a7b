-- ===== src/Raft/Handlers/Append.antt =====
-- What `AppendEntries` of src/raft1/handlers.go does to the log.
use distributed_systems_mit.Base.{
  ℕ, ◌+◌, ◌-◌, ◌≤◌, ◌<◌, ◌≡◌, refl, ap, ◌∙◌, ◌⊎◌, inl, inr, Bool, true, false, Bool-cases, some,
  List, length, get_elem?, drop, ltb, arith, length-drop, get_elem?-drop, ltb→lt, ltb→le, lt→ltb,
  le→ltb,
}
use distributed_systems_mit.Raft.Log.{LogEntry, RaftLog, len, entry, append}
use distributed_systems_mit.Raft.Log.Bounds.{
  IsValid, Keeps, truncate_to_lem, append-IsValid, len-append, entry-append_left,
  entry-append_right,
}
use distributed_systems_mit.Raft.Log.Prefix.{Matched}
use distributed_systems_mit.Raft.Rpc.{AppendEntriesArgs}
use distributed_systems_mit.Raft.Conflict.{AppendConflict, check_append}
use distributed_systems_mit.Raft.Server.{follower, Gob, Raft}
use distributed_systems_mit.Raft.Handlers.{catch_up, store_entries, answer_append, append_entries}

module _ {C : Type 0} where
  -- `l'` is `l` after a request with `theirs` behind `prev`, of which `n` were there already.
  pub record Stored (l l' : RaftLog C) (prev : ℕ) (theirs : List (LogEntry C)) (n : ℕ)
      : Type 0 where
    pub matched : Matched l (prev + 1) theirs n
    pub valid : IsValid l'
    pub same_index : l'.snap_index ≡ l.snap_index
    pub prefix : (j : ℕ) → j ≤ prev + n → entry l' j ≡ entry l j
    pub copied : (k : ℕ) → n ≤ k → k < length theirs → entry l' (prev + 1 + k) ≡ get_elem? theirs k
    pub reaches : prev + length theirs < len l'
    pub unchanged : (n < length theirs) ⊎ (l' ≡ l)
    pub ends : n < length theirs → len l' ≡ prev + 1 + length theirs

  kept-Stored :
      (l : RaftLog C) (prev n : ℕ) (theirs : List (LogEntry C))
      → IsValid l
      → prev < len l
      → Matched l (prev + 1) theirs n
      → n ≡ length theirs
      → Stored l l prev theirs n
  kept-Stored l prev n theirs v high m all = record {
    matched = m;
    valid = v;
    same_index = refl;
    prefix = λ j h. refl;
    copied = λ k low hi. absurd (omega arith);
    reaches = omega (arith, m.held);
    unchanged = inr refl;
    ends = λ h. absurd (omega arith);
  }

  spliced-Stored :
      (l cut : RaftLog C) (prev n : ℕ) (theirs : List (LogEntry C))
      → Matched l (prev + 1) theirs n
      → n < length theirs
      → len cut ≡ prev + 1 + n
      → Keeps l (prev + 1 + n) cut
      → Stored l (append cut (drop n theirs)) prev theirs n
  spliced-Stored l cut prev n theirs m some_left size keeps = record {
    matched = m;
    valid = append-IsValid cut (drop n theirs) keeps.valid;
    same_index = unfold append in keeps.same_index;
    prefix = λ j h.
        entry-append_left cut (drop n theirs) j (omega (arith, size)) ∙ keeps.below j (omega arith);
    copied = λ k low high.
        ap (λ (i : ℕ). entry (append cut (drop n theirs)) i) (omega (arith, size))
        ∙ entry-append_right cut (drop n theirs) (k - n)
        ∙ get_elem?-drop n theirs (k - n) k (omega arith);
    reaches = omega (arith, size, len-append cut (drop n theirs), length-drop n theirs);
    unchanged = inl some_left;
    ends = λ h. omega (arith, size, len-append cut (drop n theirs), length-drop n theirs);
  }

  -- Storing the entries that do not match yet never indexes out of range.
  pub store_entries_lem :
      (l : RaftLog C) (prev n : ℕ) (theirs : List (LogEntry C))
      → IsValid l
      → l.snap_index ≤ prev
      → prev < len l
      → Matched l (prev + 1) theirs n
      → (r : RaftLog C × Bool) × (store_entries l prev theirs n ≡ some r)
        × Stored l r.0 prev theirs n
  unfolding store_entries
  store_entries_lem l prev n theirs v low high m = elim (Bool-cases (ltb n (length theirs))) [
    | inr none_left ↦ (
      (l, false),
      rw none_left refl,
      kept-Stored l prev n theirs v high m
          (omega (arith, m.within, ltb→le n (length theirs) none_left)),
    )
    | inl some_left ↦
        let (cut, done, size, keeps) =
          truncate_to_lem l (prev + 1 + n) v (omega arith) (omega (arith, m.held)) in
        (
          (append cut (drop n theirs), true),
          rw (some_left, done) refl,
          spliced-Stored l cut prev n theirs m (ltb→lt n (length theirs) some_left) size keeps,
        )
  ]

module _ {C : Type 0} (gob : Gob C) where
  -- A request of an old term changes nothing and is refused with our term.
  pub append_entries_stale :
      (rf : Raft C) (args : AppendEntriesArgs C) (now : ℕ)
      → args.term < rf.current_term
      → append_entries gob rf args now
        ≡ some (
          rf,
          record { term = rf.current_term; success = false; x_term = 0; x_index = 0; x_len = 0 },
        )
  unfolding append_entries
  append_entries_stale rf args now old = rw (lt→ltb args.term rf.current_term old) refl

  -- The state in which a current request is looked at.
  abbrev pub following : Raft C → ℕ → ℕ → Raft C
  following rf term now = record (catch_up gob rf term) { role = follower; last_reset = now }

  pub following_lem :
      (rf : Raft C) (term now : ℕ)
      → rf.current_term ≤ term
      → ((following rf term now).log ≡ rf.log)
        × ((following rf term now).current_term ≡ term)
        × ((following rf term now).commit_index ≡ rf.commit_index)
  unfolding catch_up
  following_lem rf term now h = (ground arith, ground arith, ground arith)

  -- The answer to a request of a current term, by the verdict of `checkAppend`.
  pub append_entries_answer :
      (rf : Raft C) (args : AppendEntriesArgs C) (now : ℕ) {checked : ℕ × AppendConflict}
      → rf.current_term ≤ args.term
      → check_append rf.log args.prev_log_index args.prev_log_term args.entries ≡ some checked
      → append_entries gob rf args now ≡ answer_append gob (following rf args.term now) args checked
  unfolding append_entries
  append_entries_answer rf args now {checked} current verdict =
      rw
        (
          le→ltb args.term rf.current_term current,
          ap (λ (l : RaftLog C). check_append l args.prev_log_index args.prev_log_term args.entries)
              (following_lem rf args.term now current).0,
          verdict,
        )
        refl
