-- ===== src/Raft/Replication/Delivery.antt =====
-- What the applier hands to the service (src/raft1/apply.go).
use distributed_systems_mit.Base.{
  ℕ, zero, suc, ◌+◌, ◌-◌, ◌≤◌, ◌<◌, ◌≡◌, refl, sym, ap, ◌∙◌, Option, some, List, [], ◌∷◌, length,
  get_elem?, arith, ◌>>=◌, max,
}
use distributed_systems_mit.Raft.Log.{RaftLog, len, entry}
use distributed_systems_mit.Raft.Log.Bounds.{entry_total}
use distributed_systems_mit.Raft.Server.{Raft}
use distributed_systems_mit.Raft.Handlers.{ApplyMsg, command_msg}
use distributed_systems_mit.Raft.Replication.{commands_from, apply_command}

module _ {C : Type 0} where
  -- The message for the entry at an index.
  abbrev pub message_at : RaftLog C → ℕ → Option (ApplyMsg C)
  message_at l i = do e ← entry l i; some (command_msg e.command i)

  commands_from_lem :
      (l : RaftLog C) (i k : ℕ)
      → l.snap_index ≤ i
      → (0 < k → i + k ≤ len l)
      → (msgs : List (ApplyMsg C)) × (commands_from l i k ≡ some msgs)
        × (length msgs ≡ k)
        × ((j : ℕ) → j < k → get_elem? msgs j ≡ message_at l (i + j))
  unfolding commands_from
  commands_from_lem l i zero low high = ([], refl, refl, λ j h. elim h [ ])
  commands_from_lem l i (suc k) low high =
      let bound : i + suc k ≤ len l = high (omega arith) in
      let (e, found) = entry_total l i low (omega arith) in
      let (rest, done, size, each) =
        commands_from_lem l (suc i) k (omega arith) (λ _. omega arith) in
      (
        command_msg e.command i ∷ rest,
        rw (found, done) refl,
        omega (arith, size),
        elim [
          | zero ↦ λ h. sym (
              ap (message_at l) (omega arith)
              ∙ ap (λ o. o >>= λ x. some (command_msg x.command i)) found)
          | suc j ↦ λ h. each j (omega arith) ∙ ap (message_at l) (omega arith)
        ],
      )

  -- When `last_applied` is not below the snapshot and the commit index lies within the log, one
  -- wake-up of the applier delivers, without a panic, in order and once each, the commands of the
  -- entries above `last_applied` up to the commit index, and `last_applied` ends at the greater
  -- of the two.
  pub apply_command_lem :
      (rf : Raft C)
      → rf.log.snap_index ≤ rf.last_applied
      → rf.commit_index < len rf.log
      → (rf' : Raft C) × (msgs : List (ApplyMsg C)) × (apply_command rf ≡ some (rf', msgs))
        × (rf'.last_applied ≡ max rf.last_applied rf.commit_index)
        × (length msgs ≡ rf.commit_index - rf.last_applied)
        × ((j : ℕ)
            → j < length msgs
            → get_elem? msgs j ≡ message_at rf.log (rf.last_applied + 1 + j))
  unfolding apply_command
  apply_command_lem rf low high =
      let k = rf.commit_index - rf.last_applied in
      let (msgs, done, size, each) =
        commands_from_lem rf.log (rf.last_applied + 1) k (omega arith) (λ h. omega arith) in
      (
        record rf { last_applied = rf.last_applied + k; commit = rf.commit - 1 },
        msgs,
        rw done refl,
        omega arith,
        size,
        λ j h. each j (omega (arith, size)),
      )
