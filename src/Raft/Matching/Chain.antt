-- ===== src/Raft/Matching/Chain.antt =====
-- Logs whose entries their leaders made: an entry's term and index say what its command is, and which
-- term the entry before it has. The operations of src/raft1/raftlog.go keep that.
use distributed_systems_mit.Base.{
  ℕ, suc, ◌+◌, ◌-◌, ◌≤◌, ◌<◌, ◌≡◌, refl, sym, ap, ◌∙◌, subst, inl, inr, Option, none, some, [], ◌∷◌,
  length, get_elem?, ltb, arith, Bool-cases, ltb→lt, ltb→le, eq_of_some, none-ne-some,
}
use distributed_systems_mit.Raft.Log.{LogEntry, RaftLog, dummy, len, entry}
use distributed_systems_mit.Raft.Log.Bounds.{
  IsValid, Compacts, term_of, entry-offset, entry_below, entry_past, entry_snap,
}
use distributed_systems_mit.Raft.Log.Snapshot.{Installs}
use distributed_systems_mit.Raft.Rpc.{AppendEntriesArgs}

-- By term and index: the command of the entry that the term's leader put there, and the term of the
-- last entry that it had.
abbrev pub Made : Type 0 → Type 0
Made C = ℕ → ℕ → Option (Option C × Option ℕ)

module _ {C : Type 0} where
  pub record Linked (made : Made C) (l : RaftLog C) : Type 0 where
    pub valid : IsValid l
    pub chain :
        (i : ℕ) (d e : LogEntry C)
        → entry l i ≡ some d
        → entry l (suc i) ≡ some e
        → made e.term (suc i) ≡ some (e.command, some d.term)
    pub root : (d : LogEntry C) → entry l 0 ≡ some d → d.term ≡ 0

  -- What `l'` holds above its first entry, `l` holds too, and before each the same term.
  pub record Within (l l' : RaftLog C) : Type 0 where
    pub valid : IsValid l'
    pub pairs :
        (i : ℕ) (d e : LogEntry C)
        → entry l' i ≡ some d
        → entry l' (suc i) ≡ some e
        → (term_of (entry l i) ≡ some d.term) × (entry l (suc i) ≡ some e)
    pub origin : (d : LogEntry C) → entry l' 0 ≡ some d → entry l 0 ≡ some d

  pub has_term :
      (o : Option (LogEntry C)) (t : ℕ)
      → term_of o ≡ some t
      → (e : LogEntry C) × (o ≡ some e) × (e.term ≡ t)
  has_term none t h = absurd (none-ne-some h)
  has_term (some e) t h = (e, refl, eq_of_some h)

  pub entry_range :
      (l : RaftLog C) (i : ℕ) (e : LogEntry C)
      → entry l i ≡ some e
      → (l.snap_index ≤ i) × (i < len l)
  entry_range l i e h = elim (Bool-cases (ltb i l.snap_index)) [
    | inl low ↦ absurd (none-ne-some (sym (entry_below l i (ltb→lt i l.snap_index low)) ∙ h))
    | inr high ↦ elim (Bool-cases (ltb i (len l))) [
      | inl short ↦ (ltb→le i l.snap_index high, ltb→lt i (len l) short)
      | inr past ↦ absurd (none-ne-some (sym (entry_past l i (ltb→le i (len l) past)) ∙ h))
    ]
  ]

  pub Linked-Within :
      (made : Made C) (l l' : RaftLog C) → Linked made l → Within l l' → Linked made l'
  Linked-Within made l l' k w = record {
    valid = w.valid;
    chain = λ i d e at_d at_e.
        let (before, here) = w.pairs i d e at_d at_e in
        let (d', found, same) = has_term (entry l i) d.term before in
        subst (λ t. made e.term (suc i) ≡ some (e.command, some t)) same
          (k.chain i d' e found here);
    root = λ d h. k.root d (w.origin d h);
  }

  pub Within-same : (l l' : RaftLog C) → IsValid l → l' ≡ l → Within l l'
  Within-same l l' v same =
      subst (Within l) (sym same) (record {
        valid = v;
        pairs = λ i d e at_d at_e. (ap term_of at_d, at_e);
        origin = λ d h. h;
      })

  pub Compacts-Within :
      (l l' : RaftLog C) (index : ℕ) → l.snap_index < index → Compacts l index l' → Within l l'
  Compacts-Within l l' index newer c = record {
    valid = c.valid;
    pairs = λ i d e at_d at_e.
        let (low, _) = entry_range l' i d at_d in
        (before i d at_d, sym (c.above (suc i) (omega (arith, c.index_is))) ∙ at_e);
    origin = λ d h. absurd (omega (arith, (entry_range l' 0 d h).0, c.index_is));
  }
    where
      before : (i : ℕ) (d : LogEntry C) → entry l' i ≡ some d → term_of (entry l i) ≡ some d.term
      before i d at_d =
          let (low, _) = entry_range l' i d at_d in
          elim (Bool-cases (ltb index i)) [
            | inl above ↦ ap term_of (sym (c.above i (ltb→lt index i above)) ∙ at_d)
            | inr not_above ↦
                let at : i ≡ index = omega (arith, ltb→le index i not_above, c.index_is) in
                let snap : i ≡ l'.snap_index = at ∙ sym c.index_is in
                let first : dummy l'.snap_term ≡ d =
                  eq_of_some (sym (entry_snap l' c.valid) ∙ sym (ap (entry l') snap) ∙ at_d) in
                ap (λ i. term_of (entry l i)) at
                ∙ sym c.term_is
                ∙ ap (λ (e : LogEntry C). some e.term) first
          ]

  -- A log with nothing above its snapshot.
  single-Within :
      (l l' : RaftLog C) (t : ℕ)
      → IsValid l'
      → 0 < l'.snap_index
      → l'.entries ≡ dummy t ∷ []
      → Within l l'
  unfolding len
  single-Within l l' t v above only = record {
    valid = v;
    pairs = λ i d e at_d at_e. absurd (
        omega
          (arith, (entry_range l' i d at_d).0, (entry_range l' (suc i) e at_e).1, ap length only));
    origin = λ d h. absurd (omega (arith, (entry_range l' 0 d h).0));
  }

  pub Installs-Within :
      (l l' : RaftLog C) (index term : ℕ)
      → l.snap_index < index
      → Installs l index term l'
      → Within l l'
  Installs-Within l l' index term newer s = elim s.tail [
    | inl (_, c) ↦ Compacts-Within l l' index newer c
    | inr (_, only) ↦ single-Within l l' term s.valid (omega (arith, s.index_is)) only
  ]

  -- A request as a log: its entries behind one of the previous index and term.
  abbrev pub as_log : AppendEntriesArgs C → RaftLog C
  as_log args = record {
    entries = dummy args.prev_log_term ∷ args.entries;
    snap_index = args.prev_log_index;
    snap_term = args.prev_log_term;
  }

  pub as_log-IsValid : (args : AppendEntriesArgs C) → IsValid (as_log args)
  as_log-IsValid args = record { dummy_first = refl }

  pub as_log_first :
      (args : AppendEntriesArgs C)
      → entry (as_log args) args.prev_log_index ≡ some (dummy args.prev_log_term)
  as_log_first args = entry_snap (as_log args) (as_log-IsValid args)

  pub as_log_later :
      (args : AppendEntriesArgs C) (k : ℕ)
      → entry (as_log args) (args.prev_log_index + 1 + k) ≡ get_elem? args.entries k
  as_log_later args k =
      entry-offset (as_log args) (args.prev_log_index + 1 + k) (omega arith)
      ∙ ap (get_elem? (dummy args.prev_log_term ∷ args.entries)) at
    where
      at : args.prev_log_index + 1 + k - args.prev_log_index ≡ suc k
      at = omega arith
