-- ===== src/Raft/Log.antt =====
-- The Raft log (src/raft1/raftlog.go): entries with absolute indices above a snapshot.
-- A slice index out of range panics in Go; here it is `none`. Indices and terms are never
-- negative, so they are plain numbers; where Go would form a negative difference the code's own
-- `max` or a panic takes over, and both are written out.
pub mod Bounds
pub mod Snapshot
pub mod Prefix
use distributed_systems_mit.Base.{
  ℕ, suc, ◌+◌, ◌-◌, Option, none, some, List, [], ◌∷◌, ◌++◌, max, length, get_elem?, take, drop,
  ltb, leb, ◌==◌, if◌then◌else◌, ◌>>=◌,
}

-- A nil command is `none`.
pub record LogEntry (C : Type 0) : Type 0 where
  pub term : ℕ
  pub command : Option C

pub record RaftLog (C : Type 0) : Type 0 where
  pub entries : List (LogEntry C)
  pub snap_index : ℕ
  pub snap_term : ℕ

module _ {C : Type 0} where
  abbrev pub dummy : ℕ → LogEntry C
  dummy t = record { term = t; command = none }

  unfoldable pub new_raft_log : RaftLog C
  new_raft_log = record { entries = dummy 0 ∷ []; snap_index = 0; snap_term = 0 }

  unfoldable pub restore_log : List (LogEntry C) → ℕ → ℕ → RaftLog C
  restore_log entries snap_index snap_term = record {
    entries = entries;
    snap_index = snap_index;
    snap_term = snap_term;
  }

  unfoldable pub len : RaftLog C → ℕ
  len l = l.snap_index + length l.entries

  unfoldable pub last_index : RaftLog C → ℕ
  last_index l = len l - 1

  unfoldable pub entry : RaftLog C → ℕ → Option (LogEntry C)
  entry l i = if ltb i l.snap_index then none else get_elem? l.entries (i - l.snap_index)

  unfoldable pub last_term : RaftLog C → Option ℕ
  last_term l = do e ← entry l (last_index l); some e.term

  unfoldable pub append : RaftLog C → List (LogEntry C) → RaftLog C
  append l es = record l { entries = l.entries ++ es }

  -- Slicing past the length is outside the callers' contract, and counted as a panic.
  unfoldable pub truncate_to : RaftLog C → ℕ → Option (RaftLog C)
  truncate_to l i =
      let cut = max (i - l.snap_index) 1 in
      if leb cut (length l.entries) then some (record l { entries = take cut l.entries }) else none

  unfoldable pub snapshot_at : RaftLog C → ℕ → Option (RaftLog C)
  snapshot_at l i = do
    e ← entry l i
    let idx = i - l.snap_index
    some (record {
      entries =
          if ltb (idx + 1) (length l.entries)
          then dummy e.term ∷ drop (idx + 1) l.entries
          else dummy e.term ∷ [];
      snap_index = i;
      snap_term = e.term;
    })

  fresh : ℕ → ℕ → RaftLog C
  fresh index term = record { entries = dummy term ∷ []; snap_index = index; snap_term = term }

  unfoldable pub install_snapshot : RaftLog C → ℕ → ℕ → Option (RaftLog C)
  unfolding fresh
  install_snapshot l index term =
      if ltb index (len l)
      then (do
        e ← entry l index
        if e.term == term then snapshot_at l index else some (fresh index term))
      else some (fresh index term)

  -- The loop of `matchPrefix`, from its counter `i`, over the entries still to compare.
  unfoldable pub match_from : RaftLog C → ℕ → List (LogEntry C) → ℕ → Option ℕ
  match_from l prev_index [] i = some i
  match_from l prev_index (e ∷ rest) i =
      let go_on = match_from l prev_index rest (suc i) in
      let idx = prev_index + 1 + i in
      if leb (len l) idx
      then some i
      else (do mine ← entry l idx; if mine.term == e.term then go_on else some i)

  unfoldable pub match_prefix : RaftLog C → ℕ → List (LogEntry C) → Option ℕ
  unfolding match_from
  match_prefix l prev_index theirs = match_from l prev_index theirs 0

  unfoldable pub since : RaftLog C → ℕ → List (LogEntry C)
  since l i =
      let rel = i - l.snap_index in if leb (length l.entries) rel then [] else drop rel l.entries
