-- ===== src/Raft/Replication/Requests.antt =====
-- The requests that a leader builds (src/raft1/replication.go), and the gap between the two locked
-- sections that build one.
use distributed_systems_mit.Base.{
  ℕ, ◌+◌, ◌-◌, ◌≤◌, ◌<◌, ◌≡◌, refl, sym, ap, ◌∙◌, false, Bool-cases, inl, inr, none, some, List, [],
  ltb→le, get_elem?, ltb, ◌==◌, arith, ne→==, lt→leb, if◌then◌else◌,
}
use distributed_systems_mit.Persister.{Bytes, save}
use distributed_systems_mit.Raft.Log.{LogEntry, len, entry, since}
use distributed_systems_mit.Raft.Log.Bounds.{term_of, entry_total, entry_below, entry_past}
use distributed_systems_mit.Raft.Log.Snapshot.{since_lem, snapshot_at_lem}
use distributed_systems_mit.Raft.Rpc.{AppendEntriesArgs}
use distributed_systems_mit.Raft.Server.{Gob, Raft, encode_raft_state, snapshot}
use distributed_systems_mit.Raft.Replication.{behind_snapshot, append_request}

module _ {C : Type 0} where
  -- A request that follows the leader's log: the term before its entries, and the entries to the
  -- end of the log.
  pub record Follows (rf : Raft C) (next : ℕ) (args : AppendEntriesArgs C) : Type 0 where
    pub term_is : args.term ≡ rf.current_term
    pub prev_is : args.prev_log_index + 1 ≡ next
    pub prev_term_is : some args.prev_log_term ≡ term_of (entry rf.log args.prev_log_index)
    pub commit_is : args.leader_commit ≡ rf.commit_index
    pub entries_are : (k : ℕ) → get_elem? args.entries k ≡ entry rf.log (next + k)

  abbrev request_from : Raft C → ℕ → LogEntry C → AppendEntriesArgs C
  request_from rf next prev = record {
    term = rf.current_term;
    leader_id = rf.me;
    prev_log_index = next - 1;
    prev_log_term = prev.term;
    entries = if ltb next (len rf.log) then since rf.log next else [];
    leader_commit = rf.commit_index;
  }

  sent_entries :
      (rf : Raft C) (next k : ℕ)
      → rf.log.snap_index < next
      → get_elem? (if ltb next (len rf.log) then since rf.log next else []) k
        ≡ entry rf.log (next + k)
  sent_entries rf next k low = elim (Bool-cases (ltb next (len rf.log))) [
    | inl some_left ↦ rw some_left (since_lem rf.log next k (omega arith))
    | inr none_left ↦
        rw none_left
          (sym (entry_past rf.log (next + k) (omega (arith, ltb→le next (len rf.log) none_left))))
  ]

  -- For a peer whose next index lies above the snapshot and not past the log, the request is built
  -- without a panic and carries the log from there on.
  pub append_request-Follows :
      (rf : Raft C) (p next : ℕ)
      → get_elem? rf.next_index p ≡ some next
      → rf.log.snap_index < next
      → next ≤ len rf.log
      → (args : AppendEntriesArgs C) × (append_request rf p ≡ some args) × Follows rf next args
  unfolding append_request
  append_request-Follows rf p next at_p low high =
      let (prev, found) = entry_total rf.log (next - 1) (omega arith) (omega arith) in
      (
        request_from rf next prev,
        rw (at_p, ne→== next 0 (omega arith), found) refl,
        record {
          term_is = refl;
          prev_is = omega arith;
          prev_term_is = sym (ap term_of found);
          commit_is = refl;
          entries_are = λ k. sent_entries rf next k low;
        },
      )

  -- A next index at or below the snapshot panics.
  pub append_request_panics :
      (rf : Raft C) (p next : ℕ)
      → get_elem? rf.next_index p ≡ some next
      → next ≤ rf.log.snap_index
      → append_request rf p ≡ none
  unfolding append_request
  append_request_panics rf p next at_p low = elim (Bool-cases (next == 0)) [
    | inl start ↦ rw (at_p, start) refl
    | inr later ↦ rw (at_p, later, entry_below rf.log (next - 1) (ground arith)) refl
  ]

module _ {C : Type 0} (gob : Gob C) where
  snapshot_fields :
      (rf : Raft C) (index : ℕ) (bytes : Bytes)
      → rf.log.snap_index < index
      → index < len rf.log
      → (rf' : Raft C) × (snapshot gob rf index bytes ≡ some rf')
        × (rf'.log.snap_index ≡ index)
        × (rf'.next_index ≡ rf.next_index)
  unfolding snapshot
  snapshot_fields rf index bytes low high =
      let (l, done, c) = snapshot_at_lem rf.log index (omega arith) high in
      (
        record rf {
          log = l;
          persister = save rf.persister (encode_raft_state gob (record rf { log = l })) bytes;
        },
        rw (lt→leb index rf.log.snap_index low, done) refl,
        c.index_is,
        refl,
      )

  -- The leader tests for a peer behind the snapshot in one locked section and builds the request in
  -- the next. When the service takes a snapshot at or past the peer's next index in between, the
  -- test has passed and the request panics.
  pub append_request_race :
      (rf : Raft C) (p next index : ℕ) (bytes : Bytes)
      → get_elem? rf.next_index p ≡ some next
      → rf.log.snap_index < next
      → next ≤ index
      → index < len rf.log
      → (behind_snapshot rf p ≡ some false)
        × ((rf' : Raft C) × (snapshot gob rf index bytes ≡ some rf')
            × (append_request rf' p ≡ none))
  unfolding behind_snapshot
  append_request_race rf p next index bytes at_p low past high =
      let (rf', done, index_is, next_is) = snapshot_fields rf index bytes (omega arith) high in
      (
        rw (at_p, lt→leb next rf.log.snap_index low) refl,
        (
          rf',
          done,
          append_request_panics rf' p next (ap (λ (ns : List ℕ). get_elem? ns p) next_is ∙ at_p)
              (omega (arith, index_is)),
        ),
      )
