-- ===== src/Raft/Log/Snapshot.antt =====
-- Compaction: `snapshotAt` and `installSnapshot` of raftlog.go.
use distributed_systems_mit.Base.{
  ℕ, suc, ◌+◌, ◌-◌, ◌≤◌, ◌<◌, ◌≡◌, refl, sym, ap, ◌∙◌, ◌⊎◌, Bool-cases, inl, inr, ◌≢◌, none, some,
  List, [], ◌∷◌, length, get_elem?, drop, ltb, leb, ◌==◌, if◌then◌else◌, arith, eq_of_some,
  length-drop, get_elem?_past, get_elem?-drop, ltb→lt, ltb→le, lt→ltb, ==→eq, ==→ne, leb→le,
}
use distributed_systems_mit.Raft.Log.{
  LogEntry, RaftLog, dummy, fresh, len, entry, snapshot_at, install_snapshot, since,
}
use distributed_systems_mit.Raft.Log.Bounds.{
  IsValid, Compacts, term_of, entry_total, entry-offset, entry_below, entry_past,
}

module _ {C : Type 0} where
  -- The slice after a snapshot, and the entry at an offset into it.
  compacted : RaftLog C → ℕ → LogEntry C → List (LogEntry C)
  compacted l idx e =
      if ltb (idx + 1) (length l.entries)
      then dummy e.term ∷ drop (idx + 1) l.entries
      else dummy e.term ∷ []

  length-compacted :
      (l : RaftLog C) (idx : ℕ) (e : LogEntry C)
      → idx < length l.entries
      → idx + length (compacted l idx e) ≡ length l.entries
  unfolding compacted
  length-compacted l idx e h = ground (arith, length-drop (idx + 1) l.entries)

  elem-compacted :
      (l : RaftLog C) (idx k : ℕ) (e : LogEntry C)
      → get_elem? (compacted l idx e) (suc k) ≡ get_elem? l.entries (idx + suc k)
  unfolding compacted
  elem-compacted l idx k e = elim (Bool-cases (ltb (idx + 1) (length l.entries))) [
    | inl more ↦ rw more (get_elem?-drop (idx + 1) l.entries k (idx + suc k) (omega arith))
    | inr last ↦ rw last (
        sym (
          get_elem?_past l.entries (idx + suc k)
            (omega (arith, ltb→le (idx + 1) (length l.entries) last))))
  ]

  abbrev after_snapshot : RaftLog C → ℕ → LogEntry C → RaftLog C
  after_snapshot l i e = record {
    entries = compacted l (i - l.snap_index) e;
    snap_index = i;
    snap_term = e.term;
  }

  compacted_first :
      (l : RaftLog C) (idx : ℕ) (e : LogEntry C)
      → get_elem? (compacted l idx e) 0 ≡ some (dummy e.term)
  unfolding compacted
  compacted_first l idx e = ground arith

  len-after_snapshot :
      (l : RaftLog C) (i : ℕ) (e : LogEntry C)
      → l.snap_index ≤ i
      → i < len l
      → len (after_snapshot l i e) ≡ len l
  unfolding len
  len-after_snapshot l i e low high =
      omega (arith, length-compacted l (i - l.snap_index) e (omega arith))

  entry-after_snapshot :
      (l : RaftLog C) (i j : ℕ) (e : LogEntry C)
      → l.snap_index ≤ i
      → i < j
      → entry (after_snapshot l i e) j ≡ entry l j
  entry-after_snapshot l i j e low h =
      entry-offset (after_snapshot l i e) j (omega arith)
      ∙ ap (get_elem? (compacted l (i - l.snap_index) e)) (omega arith)
      ∙ elem-compacted l (i - l.snap_index) (j - i - 1) e
      ∙ ap (get_elem? l.entries) (omega arith)
      ∙ sym (entry-offset l j (omega arith))

  -- A snapshot up to an entry that the log holds keeps all that lies above it.
  pub snapshot_at_lem :
      (l : RaftLog C) (i : ℕ)
      → l.snap_index ≤ i
      → i < len l
      → (l' : RaftLog C) × (snapshot_at l i ≡ some l') × Compacts l i l'
  unfolding snapshot_at compacted
  snapshot_at_lem l i low high =
      let (e, found) = entry_total l i low high in
      (
        after_snapshot l i e,
        rw found refl,
        record {
          valid = record { dummy_first = compacted_first l (i - l.snap_index) e };
          index_is = refl;
          term_is = rw found refl;
          same_len = len-after_snapshot l i e low high;
          above = λ j h. entry-after_snapshot l i j e low h;
        },
      )

  -- A snapshot below the log's own is a slice index out of range.
  pub snapshot_at_stale : (l : RaftLog C) (i : ℕ) → i < l.snap_index → snapshot_at l i ≡ none
  unfolding snapshot_at
  snapshot_at_stale l i h = rw (entry_below l i h) refl

  -- The log after a snapshot from the leader: the tail is kept when our entry at the snapshot's
  -- last index has its term, and everything is replaced otherwise.
  pub record Installs (l : RaftLog C) (index term : ℕ) (l' : RaftLog C) : Type 0 where
    pub valid : IsValid l'
    pub index_is : l'.snap_index ≡ index
    pub term_is : l'.snap_term ≡ term
    pub tail :
        ((term_of (entry l index) ≡ some term) × Compacts l index l')
        ⊎ ((term_of (entry l index) ≢ some term) × (l'.entries ≡ dummy term ∷ []))

  fresh-Installs :
      (l : RaftLog C) (index term : ℕ)
      → term_of (entry l index) ≢ some term
      → Installs l index term (fresh index term)
  unfolding fresh
  fresh-Installs l index term ne = record {
    valid = record { dummy_first = refl };
    index_is = refl;
    term_is = refl;
    tail = inr (ne, refl);
  }

  Compacts-Installs :
      (l l' : RaftLog C) (index term : ℕ)
      → term_of (entry l index) ≡ some term
      → Compacts l index l'
      → Installs l index term l'
  Compacts-Installs l l' index term same c = record {
    valid = c.valid;
    index_is = c.index_is;
    term_is = eq_of_some (c.term_is ∙ same);
    tail = inl (same, c);
  }

  install_held :
      (l : RaftLog C) (index term : ℕ) (e : LogEntry C)
      → l.snap_index ≤ index
      → index < len l
      → entry l index ≡ some e
      → (l' : RaftLog C) × (install_snapshot l index term ≡ some l') × Installs l index term l'
  unfolding install_snapshot
  install_held l index term e low high found = elim (Bool-cases (e.term == term)) [
    | inl same ↦
        let (l', done, c) = snapshot_at_lem l index low high in
        (
          l',
          rw (lt→ltb index (len l) high, found, same) done,
          Compacts-Installs l l' index term (rw found (ap some (==→eq e.term term same))) c,
        )
    | inr other ↦ (
      fresh index term,
      rw (lt→ltb index (len l) high, found, other) refl,
      fresh-Installs l index term (rw found (λ h. ==→ne e.term term other (eq_of_some h))),
    )
  ]

  -- A snapshot from the leader that is not behind our own is installed without a panic. The new log
  -- is valid and has the snapshot's index and term; it keeps our entries above when our entry at
  -- that index has the snapshot's term, and holds nothing else otherwise.
  pub install_snapshot_lem :
      (l : RaftLog C) (index term : ℕ)
      → l.snap_index ≤ index
      → (l' : RaftLog C) × (install_snapshot l index term ≡ some l') × Installs l index term l'
  unfolding install_snapshot
  install_snapshot_lem l index term low = elim (Bool-cases (ltb index (len l))) [
    | inl within ↦
        let (e, found) = entry_total l index low (ltb→lt index (len l) within) in
        install_held l index term e low (ltb→lt index (len l) within) found
    | inr beyond ↦ (
      fresh index term,
      rw beyond refl,
      fresh-Installs l index term (rw (entry_past l index (ltb→le index (len l) beyond)) (λ h. cc)),
    )
  ]

  -- `since` sends exactly the entries from an index above the snapshot on.
  pub since_lem :
      (l : RaftLog C) (i k : ℕ) → l.snap_index ≤ i → get_elem? (since l i) k ≡ entry l (i + k)
  unfolding since
  since_lem l i k low = elim (Bool-cases (leb (length l.entries) (i - l.snap_index))) [
    | inl none_left ↦ rw none_left (
        sym (
          entry_past l (i + k)
            (unfold len in omega (arith, leb→le (length l.entries) (i - l.snap_index) none_left))))
    | inr some_left ↦
        rw (some_left, entry-offset l (i + k) (omega arith))
          (get_elem?-drop (i - l.snap_index) l.entries k (i + k - l.snap_index) (omega arith))
  ]

  pub length-since : (l : RaftLog C) (i : ℕ) → l.snap_index ≤ i → length (since l i) ≡ len l - i
  unfolding since len
  length-since l i low = ground (arith, length-drop (i - l.snap_index) l.entries)
