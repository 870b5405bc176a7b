-- ===== src/Tests/Logs.antt =====
-- Snapshots and prefixes of a log.
use distributed_systems_mit.Base.{ℕ, ◌≡◌, some, [], ◌∷◌, arith}
use distributed_systems_mit.Raft.Log.{RaftLog, len, snapshot_at, install_snapshot, match_prefix}
use distributed_systems_mit.Raft.Log.Bounds.{Compacts}
use distributed_systems_mit.Raft.Log.Prefix.{Matched, match_prefix-Matched}
use distributed_systems_mit.Raft.Log.Snapshot.{snapshot_at_lem, Installs, install_snapshot_lem}
use distributed_systems_mit.Tests.Peers.{test_log, op}

snapshot_at_lem_example :
    (l : RaftLog ℕ) × (snapshot_at test_log 4 ≡ some l) × Compacts test_log 4 l
snapshot_at_lem_example = snapshot_at_lem test_log 4 (omega arith) (unfold len in omega arith)

install_snapshot_lem_example :
    (l : RaftLog ℕ) × (install_snapshot test_log 4 3 ≡ some l) × Installs test_log 4 3 l
install_snapshot_lem_example = install_snapshot_lem test_log 4 3 (omega arith)

match_prefix-Matched_example :
    (n : ℕ) × (match_prefix test_log 2 (op 1 30 ∷ op 3 41 ∷ []) ≡ some n)
    × Matched test_log 3 (op 1 30 ∷ op 3 41 ∷ []) n
match_prefix-Matched_example =
    match_prefix-Matched test_log 2 (op 1 30 ∷ op 3 41 ∷ []) (omega arith)
