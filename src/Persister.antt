-- ===== src/Persister.antt =====
-- Stable storage (src/tester1/persister.go). A `clone` of immutable bytes is the bytes themselves,
-- and the mutex makes each method one step.
use distributed_systems_mit.Base.{ℕ, List, [], length}

abbrev pub Bytes : Type 0
Bytes = List ℕ

pub record Persister : Type 0 where
  pub raftstate : Bytes
  pub snapshot : Bytes

abbrev pub make_persister : Persister
make_persister = record { raftstate = []; snapshot = [] }

unfoldable pub checkpoint : Persister → Persister
checkpoint ps = record make_persister { raftstate = ps.raftstate; snapshot = ps.snapshot }

unfoldable pub read_raft_state : Persister → Bytes
read_raft_state ps = ps.raftstate

unfoldable pub raft_state_size : Persister → ℕ
raft_state_size ps = length ps.raftstate

-- Both are replaced in one step.
unfoldable pub save : Persister → Bytes → Bytes → Persister
save ps raftstate snapshot = record ps { raftstate = raftstate; snapshot = snapshot }

unfoldable pub read_snapshot : Persister → Bytes
read_snapshot ps = ps.snapshot

unfoldable pub snapshot_size : Persister → ℕ
snapshot_size ps = length ps.snapshot
