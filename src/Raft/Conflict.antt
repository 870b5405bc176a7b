-- ===== src/Raft/Conflict.antt =====
-- The conflict resolution of src/raft1/conflict.go: the follower's `checkAppend` and the leader's
-- `backoffNextIndex`. Their loops count down an index, and recur on it.
pub mod Check
pub mod Backoff
pub mod Resume
use distributed_systems_mit.Base.{
  ℕ, zero, suc, ◌+◌, Bool, false, true, ◌&&◌, ◌||◌, Option, none, some, List, max, ltb, leb, ◌==◌,
  not, if◌then◌else◌, ◌>>=◌,
}
use distributed_systems_mit.Raft.Log.{LogEntry, RaftLog, len, last_index, entry, match_prefix}
use distributed_systems_mit.Raft.Rpc.{AppendEntriesReply}

pub record AppendConflict : Type 0 where
  pub x_len : ℕ
  pub x_term : ℕ
  pub x_index : ℕ

abbrev pub no_conflict : AppendConflict
no_conflict = record { x_len = 0; x_term = 0; x_index = 0 }

-- `conflict != (appendConflict{})`
unfoldable pub is_conflict : AppendConflict → Bool
is_conflict c = not (c.x_len == 0 && c.x_term == 0 && c.x_index == 0)

module _ {C : Type 0} where
  -- The loop that walks back to the first index of a term above the snapshot.
  unfoldable pub first_of_term : RaftLog C → ℕ → ℕ → Option ℕ
  first_of_term l t zero = some zero
  first_of_term l t (suc i) =
      let further = first_of_term l t i in
      if ltb (l.snap_index + 1) (suc i)
      then (do e ← entry l i; if e.term == t then further else some (suc i))
      else some (suc i)

  -- `checkAppend` from the entry at `prevIndex`.
  unfoldable pub check_entry :
      RaftLog C → ℕ → ℕ → List (LogEntry C) → LogEntry C → Option (ℕ × AppendConflict)
  unfolding first_of_term
  check_entry l prev_index prev_term entries e =
      if not (e.term == prev_term)
      then (do
        x ← first_of_term l e.term prev_index
        some (0, record { x_len = 0; x_term = e.term; x_index = x }))
      else (do n ← match_prefix l prev_index entries; some (n, no_conflict))

  unfoldable pub check_append : RaftLog C → ℕ → ℕ → List (LogEntry C) → Option (ℕ × AppendConflict)
  unfolding check_entry
  check_append l prev_index prev_term entries =
      if ltb prev_index l.snap_index || leb (len l) prev_index
      then some (0, record { x_len = len l; x_term = 0; x_index = 0 })
      else (do e ← entry l prev_index; check_entry l prev_index prev_term entries e)

  -- The loop that walks back over our entries with a term above the follower's.
  unfoldable pub last_below_term : RaftLog C → ℕ → ℕ → Option ℕ
  last_below_term l t zero = some zero
  last_below_term l t (suc i) =
      let further = last_below_term l t i in
      if ltb l.snap_index (suc i)
      then (do e ← entry l (suc i); if ltb t e.term then further else some (suc i))
      else some (suc i)

  -- The case `reply.XTerm > 0`, from the index at which the walk ends.
  unfoldable pub resume_at : RaftLog C → ℕ → ℕ → ℕ → Option ℕ
  resume_at l idx x_term x_index =
      if ltb l.snap_index idx
      then (do e ← entry l idx; some (if e.term == x_term then max 1 (idx + 1) else max 1 x_index))
      else some (max 1 x_index)

  unfoldable pub backoff_next_index : ℕ → RaftLog C → AppendEntriesReply → Option ℕ
  unfolding last_below_term resume_at
  backoff_next_index prev_log_index l reply =
      if ltb 0 reply.x_len && leb reply.x_len prev_log_index
      then some (max 1 reply.x_len)
      else if ltb 0 reply.x_term
      then (do
        idx ←
            last_below_term l reply.x_term
              (if leb (len l) prev_log_index then last_index l else prev_log_index)
        resume_at l idx reply.x_term reply.x_index)
      else some (max 1 prev_log_index)
