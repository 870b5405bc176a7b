-- ===== src/Tests/Appends.antt =====
-- Requests of a leader to a follower: one that is stored, one that is refused, and what follows.
use distributed_systems_mit.Base.{ℕ, zero, suc, ◌≡◌, ◌≤◌, ◌<◌, ◌⊎◌, refl, some, [], ◌∷◌, arith}
use distributed_systems_mit.Raft.Log.{entry, len}
use distributed_systems_mit.Raft.Log.Bounds.{term_of}
use distributed_systems_mit.Raft.Rpc.{AppendEntriesArgs, AppendEntriesReply}
use distributed_systems_mit.Raft.Conflict.{AppendConflict, check_append, backoff_next_index}
use distributed_systems_mit.Raft.Conflict.Backoff.{conflict_reply}
use distributed_systems_mit.Raft.Conflict.Resume.{IsSorted, Resumes, backoff-Resumes}
use distributed_systems_mit.Raft.Server.{Raft}
use distributed_systems_mit.Raft.Handlers.{append_entries}
use distributed_systems_mit.Raft.Handlers.Accept.{Accepted, append_entries-Accepted}
use distributed_systems_mit.Raft.Handlers.Verdict.{Verdict}
use distributed_systems_mit.Raft.Handlers.Commit.{Fits, append_entries_commit_bounded}
use distributed_systems_mit.Tests.Peers.{test_gob, test_log, leader_log, test_follower, op}

-- The leader's entries from index 4 on.
abbrev pub replace : AppendEntriesArgs ℕ
replace = record {
  term = 3;
  leader_id = 1;
  prev_log_index = 3;
  prev_log_term = 1;
  entries = op 3 41 ∷ op 3 51 ∷ [];
  leader_commit = 4;
}

append_entries-Accepted_example :
    (rf' : Raft ℕ) × (reply : AppendEntriesReply) × (append_entries test_gob test_follower replace
        50
      ≡ some (rf', reply))
    × Accepted test_follower rf' replace reply
unfolding len entry
append_entries-Accepted_example =
    append_entries-Accepted test_gob test_follower replace 50 (record { dummy_first = refl })
      (omega arith) (omega arith) (omega arith) refl

test_log_term : (i t : ℕ) → term_of (entry test_log i) ≡ some t → t ≡ 1
unfolding entry
test_log_term zero t p = ground arith
test_log_term (suc zero) t p = ground arith
test_log_term (suc (suc zero)) t p = ground arith
test_log_term (suc (suc (suc zero))) t p = ground arith
test_log_term (suc (suc (suc (suc zero)))) t p = ground arith
test_log_term (suc (suc (suc (suc (suc zero))))) t p = ground arith
test_log_term (suc (suc (suc (suc (suc (suc i)))))) t p = ground arith

leader_log_term :
    (i t : ℕ) → term_of (entry leader_log i) ≡ some t → ((i ≤ 3) × (t ≡ 1)) ⊎ ((4 ≤ i) × (t ≡ 3))
unfolding entry
leader_log_term zero t p = ground arith
leader_log_term (suc zero) t p = ground arith
leader_log_term (suc (suc zero)) t p = ground arith
leader_log_term (suc (suc (suc zero))) t p = ground arith
leader_log_term (suc (suc (suc (suc zero)))) t p = ground arith
leader_log_term (suc (suc (suc (suc (suc zero))))) t p = ground arith
leader_log_term (suc (suc (suc (suc (suc (suc i)))))) t p = ground arith

pub test_log-IsSorted : IsSorted test_log
test_log-IsSorted i j t u h p q = omega (arith, test_log_term i t p, test_log_term j u q)

pub leader_log-IsSorted : IsSorted leader_log
leader_log-IsSorted i j t u h p q = omega (arith, leader_log_term i t p, leader_log_term j u q)

backoff-Resumes_example :
    (c : AppendConflict) × (next : ℕ) × (check_append test_log 5 3 [] ≡ some (0, c))
    × (backoff_next_index 5 leader_log (conflict_reply 3 c) ≡ some next)
    × Resumes test_log leader_log 5 next
unfolding len entry
backoff-Resumes_example =
    backoff-Resumes test_log leader_log 5 3 3 [] (record { dummy_first = refl }) test_log-IsSorted
      leader_log-IsSorted (omega arith) (omega arith) refl (λ h. ground arith)

replace-Fits : Fits test_follower replace
unfolding len entry
replace-Fits = record {
  valid = record { dummy_first = refl };
  current = omega arith;
  kept = omega arith;
  within = omega arith;
  same_term = refl;
}

append_entries_commit_bounded_example :
    (rf' : Raft ℕ) × (reply : AppendEntriesReply) × (append_entries test_gob test_follower replace
        50
      ≡ some (rf', reply))
    × (rf'.commit_index < len rf'.log)
    × (rf'.commit_index ≤ 5)
    × (rf'.commit_index ≤ 4)
append_entries_commit_bounded_example =
    append_entries_commit_bounded test_gob test_follower replace 50 replace-Fits (omega arith)

-- It names an entry at index 5 that the follower has from another term.
abbrev ahead : AppendEntriesArgs ℕ
ahead = record replace { prev_log_index = 5; prev_log_term = 3; entries = [] }
