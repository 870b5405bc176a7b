-- ===== src/Raft/Log/Bounds.antt =====
-- The log's invariant, its range of indices, and what each operation of raftlog.go keeps.
use distributed_systems_mit.Base.{
  ℕ, suc, ◌+◌, ◌-◌, ◌≤◌, ◌<◌, ◌≡◌, refl, ap, ◌∙◌, Bool-cases, inl, inr, Option, none, some, List,
  [], ◌∷◌, ◌++◌, max, length, get_elem?, take, ltb, if◌then◌else◌, arith, length-append,
  length-take, get_elem?_total, get_elem?_past, get_elem?-append_left, get_elem?-append_right,
  get_elem?-take, le→leb, ltb→le, le→ltb,
}
use distributed_systems_mit.Raft.Log.{
  LogEntry, RaftLog, dummy, new_raft_log, len, last_index, last_term, entry, append, truncate_to,
}

-- The first entry is the dummy of the snapshot: no command, and the snapshot's term.
pub record IsValid {C : Type 0} (l : RaftLog C) : Type 0 where
  pub dummy_first : get_elem? l.entries 0 ≡ some (dummy l.snap_term)

module _ {C : Type 0} where
  abbrev pub term_of : Option (LogEntry C) → Option ℕ
  term_of none = none
  term_of (some e) = some e.term

  nonempty : (es : List (LogEntry C)) {e : LogEntry C} → get_elem? es 0 ≡ some e → 0 < length es
  nonempty [] h = ground arith
  nonempty (x ∷ es) h = omega arith

  pub snap-lt-len : (l : RaftLog C) → IsValid l → l.snap_index < len l
  unfolding len
  snap-lt-len l v = omega (arith, nonempty l.entries v.dummy_first)

  pub last_index_lem : (l : RaftLog C) → IsValid l → suc (last_index l) ≡ len l
  unfolding last_index
  last_index_lem l v = omega (arith, snap-lt-len l v)

  pub snap-le-last_index : (l : RaftLog C) → IsValid l → l.snap_index ≤ last_index l
  snap-le-last_index l v = omega (arith, last_index_lem l v, snap-lt-len l v)

  -- An index above the snapshot is an offset into the slice.
  pub entry-offset :
      (l : RaftLog C) (i : ℕ)
      → l.snap_index ≤ i
      → entry l i ≡ get_elem? l.entries (i - l.snap_index)
  unfolding entry
  entry-offset l i h = ground arith

  pub entry_below : (l : RaftLog C) (i : ℕ) → i < l.snap_index → entry l i ≡ none
  unfolding entry
  entry_below l i h = ground arith

  pub entry_past : (l : RaftLog C) (i : ℕ) → len l ≤ i → entry l i ≡ none
  unfolding entry len
  entry_past l i h = ground (arith, get_elem?_past l.entries (i - l.snap_index))

  -- Within the range there is an entry.
  pub entry_total :
      (l : RaftLog C) (i : ℕ)
      → l.snap_index ≤ i
      → i < len l
      → (e : LogEntry C) × (entry l i ≡ some e)
  unfolding entry len
  entry_total l i h k =
      rw (le→ltb i l.snap_index h) (get_elem?_total l.entries (i - l.snap_index) (omega arith))

  pub entry_snap : (l : RaftLog C) → IsValid l → entry l l.snap_index ≡ some (dummy l.snap_term)
  unfolding entry
  entry_snap l v =
      rw (le→ltb l.snap_index l.snap_index (omega arith))
        (ap (get_elem? l.entries) (omega arith) ∙ v.dummy_first)

  pub last_term_total : (l : RaftLog C) → IsValid l → (t : ℕ) × (last_term l ≡ some t)
  unfolding last_term
  last_term_total l v =
      let (e, p) =
        entry_total l (last_index l) (snap-le-last_index l v) (omega (arith, last_index_lem l v)) in
      (e.term, rw p refl)

  pub new_raft_log-IsValid : IsValid (new_raft_log {C = C})
  unfolding new_raft_log
  new_raft_log-IsValid = record { dummy_first = refl }

  first-append :
      (es more : List (LogEntry C)) {e : LogEntry C}
      → get_elem? es 0 ≡ some e
      → get_elem? (es ++ more) 0 ≡ some e
  first-append [] more h = ground arith
  first-append (x ∷ es) more h = h

  pub append-IsValid : (l : RaftLog C) (es : List (LogEntry C)) → IsValid l → IsValid (append l es)
  unfolding append
  append-IsValid l es v = record { dummy_first = first-append l.entries es v.dummy_first }

  pub len-append : (l : RaftLog C) (es : List (LogEntry C)) → len (append l es) ≡ len l + length es
  unfolding len append
  len-append l es = omega (arith, length-append l.entries es)

  pub entry-append_left :
      (l : RaftLog C) (es : List (LogEntry C)) (i : ℕ)
      → i < len l
      → entry (append l es) i ≡ entry l i
  unfolding entry len append
  entry-append_left l es i h = elim (Bool-cases (ltb i l.snap_index)) [
    | inl low ↦ rw low refl
    | inr high ↦ rw high (
        get_elem?-append_left l.entries es (i - l.snap_index)
          (omega (arith, ltb→le i l.snap_index high)))
  ]

  pub entry-append_right :
      (l : RaftLog C) (es : List (LogEntry C)) (k : ℕ)
      → entry (append l es) (len l + k) ≡ get_elem? es k
  unfolding entry len append
  entry-append_right l es k =
      rw (le→ltb (l.snap_index + length l.entries + k) l.snap_index (omega arith))
        (get_elem?-append_right l.entries es _ k (omega arith))

  first-take :
      (n : ℕ) (es : List (LogEntry C)) {e : LogEntry C}
      → get_elem? es 0 ≡ some e
      → get_elem? (take (suc n) es) 0 ≡ some e
  first-take n [] h = h
  first-take n (x ∷ es) h = h

  -- What a truncation or an append leaves: the same snapshot, and the entries below `i`.
  pub record Keeps (l : RaftLog C) (i : ℕ) (l' : RaftLog C) : Type 0 where
    pub valid : IsValid l'
    pub same_index : l'.snap_index ≡ l.snap_index
    pub same_term : l'.snap_term ≡ l.snap_term
    pub below : (j : ℕ) → j < i → entry l' j ≡ entry l j

  -- A cut above the snapshot and within the log keeps what lies below it.
  pub truncate_to_lem :
      (l : RaftLog C) (i : ℕ)
      → IsValid l
      → l.snap_index < i
      → i ≤ len l
      → (l' : RaftLog C) × (truncate_to l i ≡ some l') × (len l' ≡ i) × Keeps l i l'
  unfolding truncate_to len entry
  truncate_to_lem l i v low high = (
    record l { entries = take cut l.entries },
    rw (cut_max, le→leb cut (length l.entries) (omega arith)) refl,
    omega (arith, length-take cut l.entries),
    record {
      valid = record {
        dummy_first = rw cut_suc (first-take (i - l.snap_index - 1) l.entries v.dummy_first);
      };
      same_index = refl;
      same_term = refl;
      below = λ j h. same j h;
    },
  )
    where
      cut : ℕ
      cut = i - l.snap_index

      cut_max : max cut 1 ≡ cut
      cut_max = omega arith

      cut_suc : cut ≡ suc (i - l.snap_index - 1)
      cut_suc = omega arith

      same :
          (j : ℕ)
          → j < i
          → (if ltb j l.snap_index then none else get_elem? (take cut l.entries) (j - l.snap_index))
            ≡ (if ltb j l.snap_index then none else get_elem? l.entries (j - l.snap_index))
      same j h = elim (Bool-cases (ltb j l.snap_index)) [
        | inl less ↦ rw less refl
        | inr more ↦ rw more (
            get_elem?-take cut l.entries (j - l.snap_index)
              (omega (arith, ltb→le j l.snap_index more)))
      ]

  -- What a snapshot up to `i` leaves: the entries above `i`, and the term at `i`.
  pub record Compacts (l : RaftLog C) (i : ℕ) (l' : RaftLog C) : Type 0 where
    pub valid : IsValid l'
    pub index_is : l'.snap_index ≡ i
    pub term_is : some l'.snap_term ≡ term_of (entry l i)
    pub same_len : len l' ≡ len l
    pub above : (j : ℕ) → i < j → entry l' j ≡ entry l j
