-- ===== src/Tests/Catchups.antt =====
-- A leader and a follower over a quiet network: one that catches up, and one that does not.
use distributed_systems_mit.Base.{ℕ, ◌+◌, ◌≤◌, ◌≡◌, max, refl, some, [], ◌∷◌, arith}
use distributed_systems_mit.Raft.Log.{RaftLog, dummy, entry, len}
use distributed_systems_mit.Raft.Server.{Raft}
use distributed_systems_mit.Raft.Catchup.{replicate_for}
use distributed_systems_mit.Raft.Catchup.Accepts.{CaughtUp}
use distributed_systems_mit.Raft.Catchup.Refusals.{Sound}
use distributed_systems_mit.Raft.Catchup.Converges.{catches_up}
use distributed_systems_mit.Raft.Catchup.Stuck.{Stuck, never_catches_up}
use distributed_systems_mit.Tests.Peers.{test_gob, op, test_follower, test_leader}
use distributed_systems_mit.Tests.Appends.{test_log-IsSorted, leader_log-IsSorted}

-- A new leader, whose next indices are all past its log.
abbrev elected : Raft ℕ
elected = record test_leader { next_index = 6 ∷ 6 ∷ 6 ∷ []; match_index = 2 ∷ 2 ∷ 2 ∷ [] }

elected-Sound : Sound elected test_follower 1 6
unfolding entry len
elected-Sound = record {
  apart = record {
    leads = refl;
    current = omega arith;
    valid = record { dummy_first = refl };
    fl_valid = record { dummy_first = refl };
    next_is = refl;
    match_is = (2, refl);
    within = omega arith;
    shared = λ h. refl;
  };
  sorted = leader_log-IsSorted;
  fl_sorted = test_log-IsSorted;
  ahead = λ h. omega arith;
}

catches_up_example :
    (k : ℕ) × (k ≤ 6 + 2)
    × (ld' : Raft ℕ) × (fl' : Raft ℕ) × (replicate_for test_gob k elected test_follower 1 100
        ≡ some (ld', fl'))
    × CaughtUp elected ld' fl' 1 (max 6 (2 + 1))
catches_up_example = catches_up test_gob elected test_follower 1 6 100 elected-Sound

-- A leader without a snapshot, which has heard of the follower's first entry only.
abbrev long_log : RaftLog ℕ
long_log = record {
  entries = dummy 0 ∷ op 1 10 ∷ op 1 20 ∷ op 1 30 ∷ op 1 40 ∷ op 1 50 ∷ [];
  snap_index = 0;
  snap_term = 0;
}

abbrev unaware : Raft ℕ
unaware = record test_leader {
  log = long_log;
  commit_index = 1;
  last_applied = 1;
  next_index = 2 ∷ 2 ∷ 2 ∷ [];
  match_index = 0 ∷ 1 ∷ 0 ∷ [];
}

unaware-Stuck : Stuck unaware test_follower 1
unfolding len
unaware-Stuck = record {
  leads = refl;
  current = omega arith;
  valid = record { dummy_first = refl };
  fl_valid = record { dummy_first = refl };
  next = 2;
  next_is = refl;
  within = omega arith;
  behind = omega arith;
  matched = 1;
  match_is = refl;
  unmatched = omega arith;
  older = omega arith;
}

never_catches_up_example :
    (ld' : Raft ℕ) × (fl' : Raft ℕ) × (replicate_for test_gob 50 unaware test_follower 1 100
      ≡ some (ld', fl'))
    × (ld'.log ≡ long_log)
    × (fl'.log ≡ test_follower.log)
    × Stuck ld' fl' 1
never_catches_up_example = never_catches_up test_gob 50 unaware test_follower 1 100 unaware-Stuck
