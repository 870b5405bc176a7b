-- ===== src/Tests/Leaders.antt =====
-- A leader's commit rule, its requests, and the delivery of commands.
use distributed_systems_mit.Base.{
  ℕ, ◌+◌, ◌≡◌, ◌<◌, Option, false, refl, none, some, List, [], ◌∷◌, length, get_elem?, arith,
}
use distributed_systems_mit.Raft.Log.{len, last_index}
use distributed_systems_mit.Raft.Rpc.{AppendEntriesArgs}
use distributed_systems_mit.Raft.Server.{Raft, snapshot}
use distributed_systems_mit.Raft.Handlers.{ApplyMsg}
use distributed_systems_mit.Raft.Replication.{
  update_commit_index, behind_snapshot, append_request, apply_command,
}
use distributed_systems_mit.Raft.Replication.Majority.{
  Greatest, signalled, update_commit_index-Greatest,
}
use distributed_systems_mit.Raft.Replication.Requests.{
  Follows, append_request-Follows, append_request_race,
}
use distributed_systems_mit.Raft.Replication.Delivery.{message_at, apply_command_lem}
use distributed_systems_mit.Tests.Peers.{test_gob, test_leader}

update_commit_index-Greatest_example :
    (found : Option ℕ) × (update_commit_index test_leader ≡ some (signalled test_leader found))
    × Greatest test_leader (last_index test_leader.log) found
update_commit_index-Greatest_example =
    update_commit_index-Greatest test_leader (record { dummy_first = refl })

append_request-Follows_example :
    (args : AppendEntriesArgs ℕ) × (append_request test_leader 2 ≡ some args)
    × Follows test_leader 4 args
unfolding len
append_request-Follows_example =
    append_request-Follows test_leader 2 4 refl (omega arith) (omega arith)

append_request_race_example :
    (behind_snapshot test_leader 2 ≡ some false)
    × ((rf' : Raft ℕ) × (snapshot test_gob test_leader 4 (9 ∷ []) ≡ some rf')
        × (append_request rf' 2 ≡ none))
unfolding len
append_request_race_example =
    append_request_race test_gob test_leader 2 4 4 (9 ∷ []) refl (omega arith) (omega arith)
      (omega arith)

apply_command_lem_example :
    (rf' : Raft ℕ) × (msgs : List (ApplyMsg ℕ)) × (apply_command test_leader ≡ some (rf', msgs))
    × (rf'.last_applied ≡ 3)
    × (length msgs ≡ 1)
    × ((j : ℕ) → j < length msgs → get_elem? msgs j ≡ message_at test_leader.log (3 + j))
unfolding len
apply_command_lem_example = apply_command_lem test_leader (omega arith) (omega arith)
